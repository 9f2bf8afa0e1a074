-- ===== src/Aggregator/Entries.antt =====
-- What a line adds to the counts of `LogAggregator::add_line`, place by place,
-- 01.Sources/SERVER/src/analyze/LogAggregator.cpp.
use assignment_logger_analyz.Prelude.{
  ℕ, zero, suc, ◌+◌, ◌<◌, ◌≡◌, refl, ap, ◌∙◌, ◌==◌, if◌then◌else◌, if-cases, lt→ltb, leb, List, [],
  ◌∷◌, Bytes, length, arith,
}
use assignment_logger_analyz.LogLine.Floats.{Doubles}
use assignment_logger_analyz.LogLine.Whitelist.{
  Module, radar_track_node_state, antenna_profile_spec, sector_scheduler_rts, detection_task_runner,
  beam_steer_ctrl_unit_impl, module_index,
}
use assignment_logger_analyz.LogLine.{
  Reason, accepted, too_short, missing_open_bracket, bad_timestamp, garbage_payload,
  missing_close_bracket, missing_byda_tag, bad_module_name, unknown_module, ParsedLine,
  parse_log_line, reason_index, reason_count,
}
use assignment_logger_analyz.Aggregator.BucketTable.{inc_at, max_buckets, key_at, lower_bound}
use assignment_logger_analyz.Aggregator.RejectLog.{
  CorruptSample, sample_at, update_sample, record_reject,
}
use assignment_logger_analyz.Aggregator.{
  Aggregator, add_line, add_parsed, add_accepted, count_accepted, add_to_bucket, add_global,
}
use assignment_logger_analyz.Aggregator.Accounting.{
  Accounts, Same, to_bucket-Same, global-Same, module_index-lt, update_sample-count,
  add_parsed-Accounts,
}

-- The count at a place.
abbrev pub at_place : ℕ → List ℕ → ℕ
at_place i [] = 0
at_place zero (n ∷ ns) = n
at_place (suc i) (n ∷ ns) = at_place i ns

abbrev pub count_of : ℕ → List CorruptSample → ℕ
count_of i [] = 0
count_of zero (c ∷ cs) = c.count
count_of (suc i) (c ∷ cs) = count_of i cs

-- One at the place `j`, and nothing elsewhere.
abbrev pub one_at : ℕ → ℕ → ℕ
one_at j i = if i == j then 1 else 0

one_at-suc : (j i : ℕ) → one_at (suc j) (suc i) ≡ one_at j i
one_at-suc j i = ground arith

at_place-inc_at :
    (j i : ℕ) (ns : List ℕ) → j < length ns → at_place i (inc_at j ns) ≡ at_place i ns + one_at j i
unfolding inc_at
at_place-inc_at j i [] l = absurd (omega arith)
at_place-inc_at zero zero (n ∷ ns) l = refl
at_place-inc_at zero (suc i) (n ∷ ns) l = ground arith
at_place-inc_at (suc j) zero (n ∷ ns) l = ground arith
at_place-inc_at (suc j) (suc i) (n ∷ ns) l =
    omega (arith, at_place-inc_at j i ns (omega arith), one_at-suc j i)

module _ (f : CorruptSample → CorruptSample)
    (more : (c : CorruptSample) → (f c).count ≡ c.count + 1) where
  count_of-sample_at :
      (j i : ℕ) (cs : List CorruptSample)
      → j < length cs
      → count_of i (sample_at j f cs) ≡ count_of i cs + one_at j i
  unfolding sample_at
  count_of-sample_at j i [] l = absurd (omega arith)
  count_of-sample_at zero zero (c ∷ cs) l = more c
  count_of-sample_at zero (suc i) (c ∷ cs) l = ground arith
  count_of-sample_at (suc j) zero (c ∷ cs) l = ground arith
  count_of-sample_at (suc j) (suc i) (c ∷ cs) l =
      omega (arith, count_of-sample_at j i cs (omega arith), one_at-suc j i)

-- The place of each module in the enumeration of the source.
abbrev pub place_of : Module → ℕ
place_of radar_track_node_state = 0
place_of antenna_profile_spec = 1
place_of sector_scheduler_rts = 2
place_of detection_task_runner = 3
place_of beam_steer_ctrl_unit_impl = 4

module_index-place : (m : Module) → module_index m ≡ place_of m
unfolding module_index
module_index-place radar_track_node_state = refl
module_index-place antenna_profile_spec = refl
module_index-place sector_scheduler_rts = refl
module_index-place detection_task_runner = refl
module_index-place beam_steer_ctrl_unit_impl = refl

module _ (d : Doubles) where
  -- The line was accepted: it is counted once, at the place of its module.
  abbrev pub Entered : Module → Aggregator d → Aggregator d → Type 0
  Entered m a b =
      (b.accepted_lines ≡ a.accepted_lines + 1)
      × ((i : ℕ) → at_place i b.module_totals ≡ at_place i a.module_totals + one_at (place_of m) i)
      × (b.rejects ≡ a.rejects)

  -- It was rejected: it is counted once, at the place `j` of its reason.
  abbrev pub Rejected : ℕ → Aggregator d → Aggregator d → Type 0
  Rejected j a b =
      (b.accepted_lines ≡ a.accepted_lines)
      × (b.module_totals ≡ a.module_totals)
      × ((i : ℕ) → count_of i b.rejects.corrupt ≡ count_of i a.rejects.corrupt + one_at j i)

  -- What the parse of a line says of the counts before and after it.
  abbrev pub SaysOf : Reason × ParsedLine d → Aggregator d → Aggregator d → Type 0
  SaysOf (accepted, p) a b = Entered p.log_module a b
  SaysOf (too_short, p) a b = Rejected 1 a b
  SaysOf (missing_open_bracket, p) a b = Rejected 2 a b
  SaysOf (bad_timestamp, p) a b = Rejected 3 a b
  SaysOf (garbage_payload, p) a b = Rejected 4 a b
  SaysOf (missing_close_bracket, p) a b = Rejected 5 a b
  SaysOf (missing_byda_tag, p) a b = Rejected 6 a b
  SaysOf (bad_module_name, p) a b = Rejected 7 a b
  SaysOf (unknown_module, p) a b = Rejected 8 a b

  abbrev pub CountedOnce : Bytes → Aggregator d → Aggregator d → Type 0
  CountedOnce line a b =
      (b.total_lines ≡ a.total_lines + 1) × SaysOf (parse_log_line d line) a b × Accounts d b

  Same-Entered :
      (m : Module) (a b c : Aggregator d)
      → Same d b c
      → (b.total_lines ≡ a.total_lines + 1) × Entered m a b
      → (c.total_lines ≡ a.total_lines + 1) × Entered m a c
  Same-Entered m a b c (t, k, n, j) (u, (e, f, r)) =
      (t ∙ u, (k ∙ e, λ i. ap (at_place i) n ∙ f i, j ∙ r))

  module _ (a : Aggregator d) (line : Bytes) (k : Accounts d a) where
    count_accepted-Entered :
        (p : ParsedLine d)
        → ((count_accepted d (record a { total_lines = a.total_lines + 1 }) line p).total_lines
            ≡ a.total_lines + 1)
          × Entered p.log_module a
              (count_accepted d (record a { total_lines = a.total_lines + 1 }) line p)
    unfolding count_accepted
    count_accepted-Entered p = (
      refl,
      (
        refl,
        λ i.
            at_place-inc_at (module_index p.log_module) i a.module_totals
              (omega (arith, k.modules, module_index-lt p.log_module))
            ∙ ap (λ j. at_place i a.module_totals + one_at j i) (module_index-place p.log_module),
        refl,
      ),
    )

    add_accepted-Entered :
        (p : ParsedLine d)
        → ((add_accepted d (record a { total_lines = a.total_lines + 1 }) line p).total_lines
            ≡ a.total_lines + 1)
          × Entered p.log_module a
              (add_accepted d (record a { total_lines = a.total_lines + 1 }) line p)
    unfolding add_accepted
    add_accepted-Entered p =
        let b = count_accepted d (record a { total_lines = a.total_lines + 1 }) line p in
        let once = count_accepted-Entered p in
        let bucket =
          Same-Entered p.log_module a b (add_to_bucket d b p) (to_bucket-Same d b p) once in
        let whole = Same-Entered p.log_module a b (add_global d b p) (global-Same d b p) once in
        if-cases (λ b. (b.total_lines ≡ a.total_lines + 1) × Entered p.log_module a b)
          (leb max_buckets (length a.buckets.entries))
          (λ _.
            if-cases (λ b. (b.total_lines ≡ a.total_lines + 1) × Entered p.log_module a b)
              (key_at a.buckets.entries (lower_bound a.buckets.entries p.bucket) p.bucket)
              (λ _. bucket) (λ _. whole))
          (λ _. bucket)

    record_reject-Rejected :
        (r : Reason) (j : ℕ) (o : ℕ) (t : Bytes)
        → reason_index r ≡ j
        → j < reason_count
        → Rejected j a (record a {
          total_lines = a.total_lines + 1;
          rejects = record_reject a.rejects (a.total_lines + 1) r line o t;
        })
    unfolding record_reject
    record_reject-Rejected r j o t e l =
        rw (e, lt→ltb _ _ l)
          (
            refl,
            refl,
            λ i.
                count_of-sample_at (λ c. update_sample c (a.total_lines + 1) line o)
                  (λ c. update_sample-count c (a.total_lines + 1) line o) j i a.rejects.corrupt
                  (omega (arith, k.rejections.nine)),
          )

    add_parsed-CountedOnce :
        (o : ℕ) (r : Reason × ParsedLine d)
        → let b = add_parsed d (record a { total_lines = a.total_lines + 1 }) line o r in
          (b.total_lines ≡ a.total_lines + 1) × SaysOf r a b
    unfolding add_parsed reason_index
    add_parsed-CountedOnce o (accepted, p) = add_accepted-Entered p
    add_parsed-CountedOnce o (too_short, p) =
        (refl, record_reject-Rejected too_short 1 o p.name_token refl (omega arith))
    add_parsed-CountedOnce o (missing_open_bracket, p) =
        (refl, record_reject-Rejected missing_open_bracket 2 o p.name_token refl (omega arith))
    add_parsed-CountedOnce o (bad_timestamp, p) =
        (refl, record_reject-Rejected bad_timestamp 3 o p.name_token refl (omega arith))
    add_parsed-CountedOnce o (garbage_payload, p) =
        (refl, record_reject-Rejected garbage_payload 4 o p.name_token refl (omega arith))
    add_parsed-CountedOnce o (missing_close_bracket, p) =
        (refl, record_reject-Rejected missing_close_bracket 5 o p.name_token refl (omega arith))
    add_parsed-CountedOnce o (missing_byda_tag, p) =
        (refl, record_reject-Rejected missing_byda_tag 6 o p.name_token refl (omega arith))
    add_parsed-CountedOnce o (bad_module_name, p) =
        (refl, record_reject-Rejected bad_module_name 7 o p.name_token refl (omega arith))
    add_parsed-CountedOnce o (unknown_module, p) =
        (refl, record_reject-Rejected unknown_module 8 o p.name_token refl (omega arith))

  -- Each line that is added to an aggregator whose accounts are right is counted exactly once: the
  -- number of the lines grows by one, and either that of the accepted lines and that of the line's
  -- module, with no rejection, or the number at the place of the reason for which it is rejected; every
  -- other place keeps its count. The accounts stay right: the lines are those accepted and those of each
  -- reason, and the accepted ones are those of each module.
  pub add_line-CountedOnce :
      (a : Aggregator d) (line : Bytes) (o : ℕ)
      → Accounts d a
      → CountedOnce line a (add_line d a line o)
  unfolding add_line
  add_line-CountedOnce a line o k =
      let once = add_parsed-CountedOnce a line k o (parse_log_line d line) in
      (once.0, once.1, add_parsed-Accounts d a line o (parse_log_line d line) k)
