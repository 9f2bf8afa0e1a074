-- ===== src/Aggregator.antt =====
-- Aggregator, 01.Sources/SERVER/src/analyze/Aggregator.h and Aggregator.cpp. The counters count lines
-- that were received, fewer than 2 ^ 64, so their sums are left unwrapped.
pub mod Excerpt
pub mod BucketTable
pub mod RejectLog
pub mod Accounting
pub mod Entries
pub mod Lookup
use assignment_logger_analyz.Prelude.{
  ℕ, zero, suc, ◌+◌, ◌-◌, ltb, leb, ◌==◌, if◌then◌else◌, Bool, true, false, not, ◌&&◌, Option, none,
  some, List, [], ◌∷◌, ◌++◌, Bytes, length, take, drop,
}
use assignment_logger_analyz.LogLine.Floats.{Doubles}
use assignment_logger_analyz.LogLine.Whitelist.{module_index}
use assignment_logger_analyz.LogLine.{
  Reason, accepted, ParsedLine, parse_log_line, empty_line, reason_index, unknown_module,
}
use BucketTable.{
  BucketStat, Buckets, no_buckets, lower_bound, key_at, bucket_for, bump, inc_at, max_buckets,
}
use RejectLog.{Rejects, no_rejects, record_reject}

module _ (d : Doubles) where
  open d use {Double, zero_d, add_d, sub_d, div_d, of_nat, lt_d, abs_ge}

  -- The sum with its compensation, and the extremes.
  pub record Speeds : Type 0 where
    pub spd_n : ℕ
    pub spd_sum : Double
    pub spd_comp : Double
    pub spd_min : Double
    pub spd_max : Double

  pub record Aggregator : Type 0 where
    pub total_lines : ℕ
    pub accepted_lines : ℕ
    pub oversize_lines : ℕ
    pub spd_out_of_range : ℕ
    pub module_totals : List ℕ
    pub speeds : Speeds
    pub buckets : Buckets
    pub rejects : Rejects
    pub first_ts : Bytes
    pub last_ts : Bytes

  abbrev pub no_speeds : Speeds
  no_speeds = record {
    spd_n = 0;
    spd_sum = zero_d;
    spd_comp = zero_d;
    spd_min = zero_d;
    spd_max = zero_d;
  }

  abbrev pub new_aggregator : Aggregator
  new_aggregator = record {
    total_lines = 0;
    accepted_lines = 0;
    oversize_lines = 0;
    spd_out_of_range = 0;
    module_totals = 0 ∷ 0 ∷ 0 ∷ 0 ∷ 0 ∷ [];
    speeds = no_speeds;
    buckets = no_buckets;
    rejects = no_rejects;
    first_ts = [];
    last_ts = [];
  }

  unfoldable pub reset : Aggregator → Aggregator
  reset a = record a {
    total_lines = 0;
    accepted_lines = 0;
    oversize_lines = 0;
    spd_out_of_range = 0;
    module_totals = 0 ∷ 0 ∷ 0 ∷ 0 ∷ 0 ∷ [];
    speeds = no_speeds;
    buckets = no_buckets;
    rejects = no_rejects;
    first_ts = [];
    last_ts = [];
  }

  unfoldable pub add_oversize : Aggregator → ℕ → Aggregator
  add_oversize a n = record a { oversize_lines = a.oversize_lines + n }

  abbrev pub rejected_lines : Aggregator → ℕ
  rejected_lines a = a.total_lines - a.accepted_lines

  abbrev pub spd_total : Speeds → Double
  spd_total s = add_d s.spd_sum s.spd_comp

  abbrev pub spd_avg : Speeds → Double
  spd_avg s = if ltb 0 s.spd_n then div_d (spd_total s) (of_nat s.spd_n) else zero_d

  unfoldable pub neumaier_add : Speeds → Double → Speeds
  neumaier_add s v =
      let t = add_d s.spd_sum v in
      record s {
        spd_comp = add_d s.spd_comp (
            if abs_ge s.spd_sum v
            then add_d (sub_d s.spd_sum t) v
            else add_d (sub_d v t) s.spd_sum);
        spd_sum = t;
      }

  abbrev count_speed : Speeds → Double → Speeds
  count_speed s v = neumaier_add (record s { spd_n = s.spd_n + 1 }) v

  unfoldable pub extremes : Speeds → Double → Speeds
  extremes s v = if s.spd_n == 1 then record s { spd_min = v; spd_max = v } else record s {
    spd_min = if lt_d v s.spd_min then v else s.spd_min;
    spd_max = if lt_d s.spd_max v then v else s.spd_max;
  }

  -- The bucket's counters and the speed of an accepted line.
  unfoldable pub add_to_bucket : Aggregator → ParsedLine d → Aggregator
  unfolding neumaier_add extremes
  add_to_bucket a p =
      let (b, i) = bucket_for a.buckets p.bucket in
      record a {
        buckets = bump b i (module_index p.log_module);
        speeds = if p.has_spd then extremes (count_speed a.speeds p.spd) p.spd else a.speeds;
      }

  -- Past the limit on buckets a line with no bucket of its own adds to the global numbers only.
  unfoldable pub add_global : Aggregator → ParsedLine d → Aggregator
  unfolding neumaier_add
  add_global a p = record a { speeds = if p.has_spd then count_speed a.speeds p.spd else a.speeds }

  -- The counters of an accepted line.
  unfoldable pub count_accepted : Aggregator → Bytes → ParsedLine d → Aggregator
  unfolding inc_at
  count_accepted a line p = record a {
    accepted_lines = a.accepted_lines + 1;
    first_ts = if length a.first_ts == 0 then take 26 (drop 1 line) else a.first_ts;
    last_ts = take 26 (drop 1 line);
    spd_out_of_range = if p.spd_out_of_range then a.spd_out_of_range + 1 else a.spd_out_of_range;
    module_totals = inc_at (module_index p.log_module) a.module_totals;
  }

  unfoldable pub add_accepted : Aggregator → Bytes → ParsedLine d → Aggregator
  unfolding count_accepted
  add_accepted a line p =
      let a' = count_accepted a line p in
      if leb max_buckets (length a.buckets.entries)
      then if key_at a.buckets.entries (lower_bound a.buckets.entries p.bucket) p.bucket
        then add_to_bucket a' p
        else add_global a' p
      else add_to_bucket a' p

  -- The line counted, and then what its parse says.
  unfoldable pub add_parsed : Aggregator → Bytes → ℕ → Reason × ParsedLine d → Aggregator
  unfolding add_accepted
  add_parsed a line byte_offset (accepted, p) = add_accepted a line p
  add_parsed a line byte_offset (r, p) = record a {
    rejects = record_reject a.rejects a.total_lines r line byte_offset p.name_token;
  }

  unfoldable pub add_line : Aggregator → Bytes → ℕ → Aggregator
  add_line a line byte_offset =
      add_parsed (record a { total_lines = a.total_lines + 1 }) line byte_offset
        (parse_log_line d line)
