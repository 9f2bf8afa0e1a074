-- ===== src/Aggregator/Accounting.antt =====
-- Every line that an aggregator is given is counted once: accepted, or under one reason.
use assignment_logger_analyz.Prelude.{
  ℕ, zero, suc, ◌+◌, ◌≤◌, ◌<◌, ◌≡◌, refl, ap, ◌∙◌, lt→ltb, leb, ◌-◌, if-cases, List, [], ◌∷◌, Bytes,
  length, drop, arith,
}
use assignment_logger_analyz.LogLine.Floats.{Doubles}
use assignment_logger_analyz.LogLine.Whitelist.{
  Module, radar_track_node_state, antenna_profile_spec, sector_scheduler_rts, detection_task_runner,
  beam_steer_ctrl_unit_impl, module_index,
}
use assignment_logger_analyz.LogLine.{
  Reason, accepted, too_short, missing_open_bracket, bad_timestamp, garbage_payload,
  missing_close_bracket, missing_byda_tag, bad_module_name, unknown_module, ParsedLine,
  reason_index, reason_count,
}
use assignment_logger_analyz.Aggregator.BucketTable.{inc_at, max_buckets, key_at, lower_bound}
use assignment_logger_analyz.Aggregator.RejectLog.{
  CorruptSample, Rejects, sample_at, update_sample, record_reject,
}
use assignment_logger_analyz.Aggregator.{
  Aggregator, new_aggregator, add_parsed, add_accepted, count_accepted, add_to_bucket, add_global,
}
use assignment_logger_analyz.Csv.{disposition_sum, disposition_total}

abbrev pub total_of : List ℕ → ℕ
total_of [] = 0
total_of (n ∷ ns) = n + total_of ns

abbrev pub counts : List CorruptSample → ℕ
counts [] = 0
counts (c ∷ cs) = c.count + counts cs

total_of-inc_at : (i : ℕ) (xs : List ℕ) → i < length xs → total_of (inc_at i xs) ≡ total_of xs + 1
unfolding inc_at
total_of-inc_at i [] l = absurd (omega arith)
total_of-inc_at zero (x ∷ xs) l = omega arith
total_of-inc_at (suc i) (x ∷ xs) l = omega (arith, total_of-inc_at i xs (omega arith))

length-inc_at : (i : ℕ) (xs : List ℕ) → length (inc_at i xs) ≡ length xs
unfolding inc_at
length-inc_at i [] = refl
length-inc_at zero (x ∷ xs) = refl
length-inc_at (suc i) (x ∷ xs) = ap suc (length-inc_at i xs)

module _ (f : CorruptSample → CorruptSample)
    (more : (c : CorruptSample) → (f c).count ≡ c.count + 1) where
  counts-sample_at :
      (i : ℕ) (cs : List CorruptSample) → i < length cs → counts (sample_at i f cs) ≡ counts cs + 1
  unfolding sample_at
  counts-sample_at i [] l = absurd (omega arith)
  counts-sample_at zero (c ∷ cs) l = omega (arith, more c)
  counts-sample_at (suc i) (c ∷ cs) l = omega (arith, counts-sample_at i cs (omega arith))

  length-sample_at : (i : ℕ) (cs : List CorruptSample) → length (sample_at i f cs) ≡ length cs
  unfolding sample_at
  length-sample_at i [] = refl
  length-sample_at zero (c ∷ cs) = refl
  length-sample_at (suc i) (c ∷ cs) = ap suc (length-sample_at i cs)

pub update_sample-count :
    (c : CorruptSample) (n : ℕ) (line : Bytes) (o : ℕ)
    → (update_sample c n line o).count ≡ c.count + 1
unfolding update_sample
update_sample-count c n line o = ground arith

-- The samples are nine, and those of the rejections count `n` lines.
pub record Counted (n : ℕ) (j : Rejects) : Type 0 where
  pub nine : length j.corrupt ≡ reason_count
  pub counted : counts (drop 1 j.corrupt) ≡ n

counts-drop :
    (f : CorruptSample → CorruptSample)
    → ((c : CorruptSample) → (f c).count ≡ c.count + 1)
    → (i : ℕ) (cs : List CorruptSample) → suc i < length cs
    → counts (drop 1 (sample_at (suc i) f cs)) ≡ counts (drop 1 cs) + 1
unfolding sample_at
counts-drop f more i [] l = absurd (omega arith)
counts-drop f more i (c ∷ cs) l = counts-sample_at f more i cs (omega arith)

record_reject-Counted :
    (j : Rejects) (n line_no : ℕ) (r : Reason) (i : ℕ) (line : Bytes) (o : ℕ) (t : Bytes)
    → reason_index r ≡ suc i
    → suc i < reason_count
    → Counted n j
    → Counted (n + 1) (record_reject j line_no r line o t)
unfolding record_reject
record_reject-Counted j n line_no r i line o t e l k =
    rw (e, lt→ltb _ _ l)
      (record {
        nine =
            length-sample_at (λ c. update_sample c line_no line o) more (suc i) j.corrupt ∙ k.nine;
        counted =
            counts-drop (λ c. update_sample c line_no line o) more i j.corrupt
              (omega (arith, k.nine))
            ∙ ap (λ (m : ℕ). m + 1) k.counted;
      })
  where
    more : (c : CorruptSample) → (update_sample c line_no line o).count ≡ c.count + 1
    more c = update_sample-count c line_no line o

pub module_index-lt : (m : Module) → module_index m < 5
unfolding module_index
module_index-lt radar_track_node_state = omega arith
module_index-lt antenna_profile_spec = omega arith
module_index-lt sector_scheduler_rts = omega arith
module_index-lt detection_task_runner = omega arith
module_index-lt beam_steer_ctrl_unit_impl = omega arith

disposition_sum-counts : (n : ℕ) (cs : List CorruptSample) → disposition_sum n cs ≡ n + counts cs
unfolding disposition_sum
disposition_sum-counts n [] = omega arith
disposition_sum-counts n (c ∷ cs) = omega (arith, disposition_sum-counts (n + c.count) cs)

module _ (d : Doubles) where
  -- The lines are the accepted ones and those of each reason, and the accepted ones are those of each
  -- module.
  pub record Accounts (a : Aggregator d) : Type 0 where
    pub rejections : Counted (a.total_lines - a.accepted_lines) a.rejects
    pub accepted_le : a.accepted_lines ≤ a.total_lines
    pub modules : length a.module_totals ≡ 5
    pub by_module : total_of a.module_totals ≡ a.accepted_lines

  pub new_aggregator-Accounts : Accounts (new_aggregator d)
  new_aggregator-Accounts = record {
    rejections = record { nine = refl; counted = refl };
    accepted_le = omega arith;
    modules = refl;
    by_module = refl;
  }

  -- What stays of the accounts whatever becomes of buckets and speeds.
  abbrev pub Same : Aggregator d → Aggregator d → Type 0
  Same a b =
      (b.total_lines ≡ a.total_lines)
      × (b.accepted_lines ≡ a.accepted_lines)
      × (b.module_totals ≡ a.module_totals)
      × (b.rejects ≡ a.rejects)

  Same-Accounts : (a b : Aggregator d) → Same a b → Accounts a → Accounts b
  Same-Accounts a b (t, c, m, j) k = record {
    rejections = rw (t, c, j) k.rejections;
    accepted_le = rw (t, c) k.accepted_le;
    modules = rw m k.modules;
    by_module = rw (m, c) k.by_module;
  }

  pub to_bucket-Same : (a : Aggregator d) (p : ParsedLine d) → Same a (add_to_bucket d a p)
  unfolding add_to_bucket
  to_bucket-Same a p = (refl, refl, refl, refl)

  pub global-Same : (a : Aggregator d) (p : ParsedLine d) → Same a (add_global d a p)
  unfolding add_global
  global-Same a p = (refl, refl, refl, refl)

  count_accepted-Accounts :
      (a : Aggregator d) (line : Bytes) (p : ParsedLine d)
      → Accounts a
      → Accounts (count_accepted d (record a { total_lines = a.total_lines + 1 }) line p)
  unfolding count_accepted
  count_accepted-Accounts a line p k = record {
    rejections = record {
      nine = k.rejections.nine;
      counted = omega (arith, k.rejections.counted, k.accepted_le);
    };
    accepted_le = omega (arith, k.accepted_le);
    modules = length-inc_at _ a.module_totals ∙ k.modules;
    by_module =
        total_of-inc_at (module_index p.log_module) a.module_totals
          (omega (arith, k.modules, module_index-lt p.log_module))
        ∙ ap (λ (m : ℕ). m + 1) k.by_module;
  }

  add_accepted-Accounts :
      (a : Aggregator d) (line : Bytes) (p : ParsedLine d)
      → Accounts a
      → Accounts (add_accepted d (record a { total_lines = a.total_lines + 1 }) line p)
  unfolding add_accepted
  add_accepted-Accounts a line p k =
      if-cases Accounts (leb max_buckets (length a.buckets.entries))
        (λ _.
          if-cases Accounts
            (key_at a.buckets.entries (lower_bound a.buckets.entries p.bucket) p.bucket)
            (λ _. Same-Accounts _ _ (to_bucket-Same _ p) (count_accepted-Accounts a line p k))
            (λ _. Same-Accounts _ _ (global-Same _ p) (count_accepted-Accounts a line p k)))
        (λ _. Same-Accounts _ _ (to_bucket-Same _ p) (count_accepted-Accounts a line p k))

  add_rejected-Accounts :
      (a : Aggregator d) (r : Reason) (i : ℕ) (line : Bytes) (o : ℕ) (t : Bytes)
      → reason_index r ≡ suc i
      → suc i < reason_count
      → Accounts a
      → Accounts (record a {
        total_lines = a.total_lines + 1;
        rejects = record_reject a.rejects (a.total_lines + 1) r line o t;
      })
  add_rejected-Accounts a r i line o t e l k = record {
    rejections = record {
      nine = rejected.nine;
      counted = rejected.counted ∙ omega (arith, k.accepted_le);
    };
    accepted_le = omega (arith, k.accepted_le);
    modules = k.modules;
    by_module = k.by_module;
  }
    where
      rejected :
          Counted
            (a.total_lines - a.accepted_lines + 1)
            (record_reject a.rejects (a.total_lines + 1) r line o t)
      rejected = record_reject-Counted a.rejects _ _ r i line o t e l k.rejections

  pub add_parsed-Accounts :
      (a : Aggregator d) (line : Bytes) (o : ℕ) (r : Reason × ParsedLine d)
      → Accounts a
      → Accounts (add_parsed d (record a { total_lines = a.total_lines + 1 }) line o r)
  unfolding add_parsed reason_index
  add_parsed-Accounts a line o (accepted, p) k = add_accepted-Accounts a line p k
  add_parsed-Accounts a line o (too_short, p) k =
      add_rejected-Accounts a too_short 0 line o p.name_token refl (omega arith) k
  add_parsed-Accounts a line o (missing_open_bracket, p) k =
      add_rejected-Accounts a missing_open_bracket 1 line o p.name_token refl (omega arith) k
  add_parsed-Accounts a line o (bad_timestamp, p) k =
      add_rejected-Accounts a bad_timestamp 2 line o p.name_token refl (omega arith) k
  add_parsed-Accounts a line o (garbage_payload, p) k =
      add_rejected-Accounts a garbage_payload 3 line o p.name_token refl (omega arith) k
  add_parsed-Accounts a line o (missing_close_bracket, p) k =
      add_rejected-Accounts a missing_close_bracket 4 line o p.name_token refl (omega arith) k
  add_parsed-Accounts a line o (missing_byda_tag, p) k =
      add_rejected-Accounts a missing_byda_tag 5 line o p.name_token refl (omega arith) k
  add_parsed-Accounts a line o (bad_module_name, p) k =
      add_rejected-Accounts a bad_module_name 6 line o p.name_token refl (omega arith) k
  add_parsed-Accounts a line o (unknown_module, p) k =
      add_rejected-Accounts a unknown_module 7 line o p.name_token refl (omega arith) k

  -- Where the accounts are right, the row TOTAL of the report counts the lines and the ones too long to be kept, which the total of
  -- the lines leaves out: the two are the same only where no line was too long.
  pub disposition_total-lines :
      (a : Aggregator d) → Accounts a → disposition_total d a ≡ a.total_lines + a.oversize_lines
  unfolding disposition_total
  disposition_total-lines a k = omega (
    arith,
    disposition_sum-counts a.accepted_lines (drop 1 a.rejects.corrupt),
    k.rejections.counted,
    k.accepted_le,
  )
