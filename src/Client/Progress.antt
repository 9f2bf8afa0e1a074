-- ===== src/Client/Progress.antt =====
-- What the client takes from UPLOAD_BEGIN_ACK, UPLOAD_ACK and ANALYZE_DONE: `apply_upload_ack` and
-- parts of `do_upload` of 01.Sources/CLIENT/CPP/src/net/Transfer.cpp.
use assignment_logger_analyz.Prelude.{
  ℕ, zero, suc, ltb, leb, ◌==◌, ◌*◌, ◌&&◌, ◌||◌, true, if◌then◌else◌, Option, none, some, List, [],
  ◌∷◌, ◌++◌, Bytes, codes, length,
}
use assignment_logger_analyz.Payload.Reader
use assignment_logger_analyz.Payload.Reader.{Reader, reader}
use assignment_logger_analyz.Client.Actions.{done, pure, ◌>>=◌}
use assignment_logger_analyz.Client.System.{System}
use assignment_logger_analyz.Client.State.{Snapshot, empty_snapshot}
use assignment_logger_analyz.Client.Texts.{Fields, field}

-- The counts of UPLOAD_ACK, as far as they can be read, over the old ones.
unfoldable pub read_counts : List ℕ → Reader → List ℕ
read_counts [] r = []
read_counts (c ∷ cs) r =
    let (v, r') = Reader.u64 r in
    let later = read_counts cs r' in elim v [ none ↦ c ∷ cs | some n ↦ n ∷ later ]

abbrev zeros : ℕ → List ℕ
zeros zero = []
zeros (suc n) = 0 ∷ zeros n

-- `module_count`, `none` where it is not read, and the counts behind it.
unfoldable pub counts_of : Option ℕ × Reader → List ℕ → List ℕ
unfolding read_counts
counts_of (none, r) old = old
counts_of (some n, r) old =
    if ltb 0 n && leb n 64 then read_counts (if length old == n then old else zeros n) r else old

-- A field that may be missing.
abbrev pub or_old : {A : Type 0} → Option A → A → A
or_old none old = old
or_old (some a) old = a

module _ (sys : System) where
  -- The fields behind the first two.
  unfoldable pub apply_counts : Reader → Snapshot sys → Snapshot sys
  unfolding counts_of
  apply_counts r s =
      let (accepted, r1) = Reader.u64 r in
      let (rejected, r2) = Reader.u64 r1 in
      let (samples, r3) = Reader.u64 r2 in
      let (avg, r4) = Reader.str16 r3 in
      record s {
        accepted_lines = or_old accepted s.accepted_lines;
        rejected_lines = or_old rejected s.rejected_lines;
        spd_samples = or_old samples s.spd_samples;
        spd_average = or_old avg s.spd_average;
        module_counts = counts_of (Reader.u8 r4) s.module_counts;
      }

  unfoldable pub with_progress : Option ℕ → Option ℕ × Reader → Snapshot sys → Snapshot sys
  unfolding apply_counts
  with_progress none (lines, r) s = s
  with_progress (some consumed) (none, r) s = s
  with_progress (some consumed) (some lines, r) s =
      apply_counts r (record s { bytes_consumed = consumed; lines_parsed = lines })

  unfoldable pub apply_upload_ack : Bytes → Snapshot sys → Snapshot sys
  unfolding with_progress
  apply_upload_ack payload s =
      let (consumed, r) = Reader.u64 (reader payload) in with_progress consumed (Reader.u64 r) s

-- The names of UPLOAD_BEGIN_ACK: none at all where one of them cannot be read.
unfoldable pub read_names : ℕ → List Bytes → Reader → List Bytes
read_names zero names r = names
read_names (suc n) names r =
    let (name, r') = Reader.str16 r in
    elim name [ none ↦ [] | some x ↦ read_names n (names ++ (x ∷ [])) r' ]

unfoldable pub names_of : Option ℕ × Reader → List Bytes
unfolding read_names
names_of (none, r) = []
names_of (some n, r) = if ltb 0 n && leb n 64 then read_names n [] r else []

pub record BeginAck : Type 0 where
  pub upload_id : ℕ
  pub chunk_size : ℕ
  pub module_names : List Bytes

-- A size that is out of range is replaced.
unfoldable pub usable_chunk : ℕ → ℕ
usable_chunk n = if n == 0 || ltb (4 * 1024 * 1024) n then 1024 * 1024 else n

-- The reader itself.
abbrev behind : Fields Reader
behind r = (done r, r)

unfoldable pub begin_ack_fields : Fields BeginAck
unfolding usable_chunk names_of
begin_ack_fields = do
  upload_id ← field Reader.u32 (codes "malformed UPLOAD_BEGIN_ACK payload")
  chunk_size ← field Reader.u32 (codes "malformed UPLOAD_BEGIN_ACK payload")
  r ← behind
  pure (record {
    upload_id = upload_id;
    chunk_size = usable_chunk chunk_size;
    module_names = names_of (Reader.u8 r);
  })

-- ANALYZE_DONE
pub record Analysis : Type 0 where
  pub bytes : ℕ
  pub lines : ℕ
  pub accepted : ℕ
  pub rejected : ℕ
  pub oversize : ℕ
  pub spd_n : ℕ
  pub avg : Bytes
  pub elapsed : ℕ
  pub rss : ℕ
  pub csv_size : ℕ

unfoldable pub done_fields : Fields Analysis
done_fields = do
  bytes ← field Reader.u64 (codes "malformed ANALYZE_DONE payload")
  lines ← field Reader.u64 (codes "malformed ANALYZE_DONE payload")
  accepted ← field Reader.u64 (codes "malformed ANALYZE_DONE payload")
  rejected ← field Reader.u64 (codes "malformed ANALYZE_DONE payload")
  oversize ← field Reader.u64 (codes "malformed ANALYZE_DONE payload")
  spd_n ← field Reader.u64 (codes "malformed ANALYZE_DONE payload")
  avg ← field Reader.str16 (codes "malformed ANALYZE_DONE payload")
  elapsed ← field Reader.u64 (codes "malformed ANALYZE_DONE payload")
  rss ← field Reader.u64 (codes "malformed ANALYZE_DONE payload")
  csv_size ← field Reader.u64 (codes "malformed ANALYZE_DONE payload")
  pure (record {
    bytes = bytes;
    lines = lines;
    accepted = accepted;
    rejected = rejected;
    oversize = oversize;
    spd_n = spd_n;
    avg = avg;
    elapsed = elapsed;
    rss = rss;
    csv_size = csv_size;
  })

module _ (sys : System) where
  unfoldable pub apply_analysis : Analysis → Snapshot sys → Snapshot sys
  apply_analysis a s = record s {
    bytes_consumed = a.bytes;
    result_valid = true;
    result_total_lines = a.lines;
    result_accepted = a.accepted;
    result_rejected = a.rejected;
    result_oversize = a.oversize;
    result_spd_samples = a.spd_n;
    result_spd_average = a.avg;
    result_elapsed_ms = a.elapsed;
    result_peak_rss_kb = a.rss;
    lines_parsed = a.lines;
    accepted_lines = a.accepted;
    rejected_lines = a.rejected;
    spd_samples = a.spd_n;
    spd_average = a.avg;
  }

  -- What is shown at the start of an upload: nothing but the connection.
  unfoldable pub restart : Snapshot sys → Snapshot sys
  restart s = record (empty_snapshot sys) {
    hello = s.hello;
    hello_valid = true;
    connected = s.connected;
  }

  unfoldable pub begun : ℕ → BeginAck → Snapshot sys → Snapshot sys
  begun total ack s = record s {
    total_bytes = total;
    module_names = ack.module_names;
    module_counts = zeros (length ack.module_names);
  }
