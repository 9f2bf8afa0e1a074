-- ===== src/Session/UploadEnd.antt =====
-- The end of an upload and its result: `handle_upload_end` and `send_result_csv` of
-- 01.Sources/SERVER/src/net/TcpSession.cpp.
use assignment_logger_analyz.Prelude.{
  ℕ, zero, suc, ◌-◌, ◌*◌, ◌/◌, ◌==◌, if◌then◌else◌, Bool, true, false, not, ◌||◌, Option, none,
  some, [], ◌∷◌, Bytes, codes, length, take, drop,
}
use assignment_logger_analyz.Protocol.{
  analyze_done, result_begin, result_chunk, result_end, unexpected_type, size_mismatch,
}
use assignment_logger_analyz.Payload.Writer
use assignment_logger_analyz.Splitter
use assignment_logger_analyz.Aggregator.{add_oversize, rejected_lines, spd_avg}
use assignment_logger_analyz.Csv.{build_result_csv, CsvContext}
use assignment_logger_analyz.Session.Host.{Host}
use assignment_logger_analyz.Session.State.{ready, Session}
use assignment_logger_analyz.Session.Outbox.{send}
use assignment_logger_analyz.Session.Upload.{abort_upload, feed_lines, read_upload_end}

abbrev pub result_chunk_size : ℕ
result_chunk_size = 64 * 1024

module _ (h : Host) where
  -- The loop over the result from some offset on, with fuel: a pass sends at least one byte.
  unfoldable pub send_chunks : ℕ → Session h → Bytes → Session h
  send_chunks zero s rest = s
  send_chunks (suc fuel) s [] = s
  send_chunks (suc fuel) s (c ∷ rest) =
      send_chunks fuel (send h s result_chunk (take result_chunk_size (c ∷ rest)))
        (drop result_chunk_size (c ∷ rest))

  unfoldable pub send_result_csv : Session h → Session h
  unfolding send_chunks
  send_result_csv s =
      let begun =
        send h s result_begin
          (Writer.str16 (Writer.u64 [] (length s.result_csv)) (codes "result.csv")) in
      let sent = send_chunks (length s.result_csv) begun s.result_csv in send h sent result_end []

  unfoldable pub done_payload : Session h → ℕ → ℕ → Bytes
  done_payload s elapsed_ms rss =
      Writer.u64
        (Writer.u64
          (Writer.u64
            (Writer.str16
              (Writer.u64
                (Writer.u64
                  (Writer.u64
                    (Writer.u64 (Writer.u64 (Writer.u64 [] s.upload_received) s.agg.total_lines)
                      s.agg.accepted_lines)
                    (rejected_lines h.doubles s.agg))
                  s.agg.oversize_lines)
                s.agg.speeds.spd_n)
              (take 31 (h.doubles.fixed 6 (spd_avg h.doubles s.agg.speeds))))
            elapsed_ms)
          rss)
        (length s.result_csv)

  -- The last line and the lines that were dropped.
  unfoldable pub finish_lines : Session h → Session h
  unfolding feed_lines
  finish_lines s =
      let s' = feed_lines h s (Splitter.finish s.splitter) in
      record s' { agg = add_oversize h.doubles s'.agg s'.splitter.oversize }

  unfoldable pub csv_context : Session h → ℕ → ℕ → CsvContext
  csv_context s elapsed_ms rss = record {
    source_file = s.upload_name;
    source_bytes = s.upload_received;
    elapsed_ms = elapsed_ms;
    peak_rss_kb = rss;
  }

  -- ANALYZE_DONE and the result, once it is made.
  unfoldable pub send_done : Session h → ℕ → ℕ → Session h
  unfolding send_result_csv done_payload
  send_done s elapsed_ms rss =
      record (send_result_csv (send h s analyze_done (done_payload s elapsed_ms rss))) {
        state = ready;
      }

  -- What follows the two checks and the last lines: the clock, the memory, the result.
  unfoldable pub analyze : Session h → Session h
  unfolding csv_context send_done
  analyze s =
      let (now, w) = h.hrtime s.world in
      let elapsed_ms = (now - s.upload_start_ns) / 1000000 in
      let (rss, w') = h.peak_rss_kb w in
      let (utc, w'') = h.utc_now w' in
      send_done
        (record s {
          world = w'';
          result_csv = build_result_csv h.doubles utc s.agg (csv_context s elapsed_ms rss);
        })
        elapsed_ms rss

  unfoldable pub finish_upload : Session h → Session h
  unfolding finish_lines analyze
  finish_upload s = analyze (finish_lines s)

  unfoldable pub after_upload_end : Session h → Option ℕ → Bool × Session h
  unfolding finish_upload
  after_upload_end s none =
      (false, abort_upload h s unexpected_type (codes "malformed UPLOAD_END payload"))
  after_upload_end s (some claimed) =
      if not (s.upload_received == s.upload_declared) || not (claimed == s.upload_declared)
      then (
        false,
        abort_upload h s size_mismatch (codes "byte count does not match the declared size"),
      )
      else (true, finish_upload s)

  unfoldable pub handle_upload_end : Session h → Bool × Session h
  unfolding after_upload_end read_upload_end
  handle_upload_end s = after_upload_end s (read_upload_end s.decoder.payload)
