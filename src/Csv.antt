-- ===== src/Csv.antt =====
-- build_result_csv, 01.Sources/SERVER/src/analyze/CsvWriter.cpp: the report of an aggregator. The
-- time of day that `utc_now` reads is an argument. Each section is a function of its own, and the
-- report is their concatenation.
pub mod Quote
pub mod Fields
use assignment_logger_analyz.Prelude.{
  ℕ, zero, suc, ◌+◌, ltb, ◌==◌, if◌then◌else◌, List, [], ◌∷◌, ◌++◌, Bytes, codes, length, take,
  drop, decimal, padded, ◌/◌, ◌%◌,
}
use assignment_logger_analyz.LogLine.Floats.{Doubles}
use Prim.Native.String.{String}
use assignment_logger_analyz.LogLine.Whitelist.{
  Module, radar_track_node_state, antenna_profile_spec, sector_scheduler_rts, detection_task_runner,
  beam_steer_ctrl_unit_impl, module_name,
}
use assignment_logger_analyz.LogLine.{
  Reason, accepted, too_short, missing_open_bracket, bad_timestamp, garbage_payload,
  missing_close_bracket, missing_byda_tag, bad_module_name, unknown_module, reason_key, reason_text,
}
use assignment_logger_analyz.Aggregator.{Aggregator, rejected_lines, spd_total, spd_avg}
use assignment_logger_analyz.Aggregator.BucketTable.{BucketStat, Entries}
use assignment_logger_analyz.Aggregator.RejectLog.{CorruptSample}
use Quote.{csv_quote}

pub record CsvContext : Type 0 where
  pub source_file : Bytes
  pub source_bytes : ℕ
  pub elapsed_ms : ℕ
  pub peak_rss_kb : ℕ

abbrev all_modules : List Module
all_modules =
    radar_track_node_state ∷ antenna_profile_spec ∷ sector_scheduler_rts ∷ detection_task_runner
    ∷ beam_steer_ctrl_unit_impl ∷ []

abbrev concat : List Bytes → Bytes
concat [] = []
concat (x ∷ xs) = x ++ concat xs

-- The reasons of `reason_index` 1 and up, in that order.
abbrev rejections : List Reason
rejections =
    too_short ∷ missing_open_bracket ∷ bad_timestamp ∷ garbage_payload ∷ missing_close_bracket
    ∷ missing_byda_tag ∷ bad_module_name ∷ unknown_module ∷ []

-- The bytes of U+2605 in UTF-8.
abbrev star : Bytes
star = 0xE2 ∷ 0x98 ∷ 0x85 ∷ []

-- format_bucket of Aggregator.cpp, with "%04u-%02u-%02u %02u:00".
unfoldable pub format_bucket : ℕ → Bytes
unfolding padded
format_bucket key =
    padded 4 (key / 1000000)
    ++ (codes "-"
        ++ (padded 2 ((key / 10000) % 100)
            ++ (codes "-"
                ++ (padded 2 ((key / 100) % 100)
                    ++ (codes " " ++ (padded 2 (key % 100) ++ codes ":00"))))))

-- ",<count>" for each of the counts
unfoldable count_cells : List ℕ → Bytes
unfolding decimal
count_cells [] = []
count_cells (n ∷ ns) = codes "," ++ (decimal n ++ count_cells ns)

unfoldable names_after : String → List Module → Bytes
unfolding module_name
names_after sep [] = []
names_after sep (m ∷ ms) = codes sep ++ (codes (module_name m) ++ names_after sep ms)

-- The names with `sep` between each two.
unfoldable names_with : String → List Module → Bytes
unfolding names_after module_name
names_with sep [] = []
names_with sep (m ∷ ms) = codes (module_name m) ++ names_after sep ms

unfoldable bucket_rows : Entries → Bytes
unfolding format_bucket count_cells decimal
bucket_rows [] = []
bucket_rows ((key, b) ∷ es) = concat (
    format_bucket key
    ∷ count_cells b.module_count
    ∷ codes ","
    ∷ decimal b.total
    ∷ codes "\n"
    ∷ bucket_rows es
    ∷ [])

-- The counts of the rejections, with the sum that the source calls `check`.
unfoldable pub disposition_sum : ℕ → List CorruptSample → ℕ
disposition_sum check [] = check
disposition_sum check (c ∷ cs) = disposition_sum (check + c.count) cs

unfoldable disposition_rows : List Reason → List CorruptSample → Bytes
unfolding reason_key reason_text decimal csv_quote
disposition_rows (r ∷ rs) (c ∷ cs) = concat (
    codes (reason_key r)
    ∷ codes ","
    ∷ decimal c.count
    ∷ codes ","
    ∷ csv_quote (codes (reason_text r))
    ∷ codes "\n"
    ∷ disposition_rows rs cs
    ∷ [])
disposition_rows _ _ = []

unfoldable diagnostic_rows : List Reason → List CorruptSample → Bytes
unfolding reason_key decimal csv_quote
diagnostic_rows (r ∷ rs) (c ∷ cs) =
    let rest = diagnostic_rows rs cs in
    if c.count == 0
    then rest
    else concat (
        codes (reason_key r)
        ∷ codes ","
        ∷ decimal c.count
        ∷ codes ","
        ∷ decimal c.first_line_no
        ∷ codes ","
        ∷ decimal c.first_byte_offset
        ∷ codes ","
        ∷ csv_quote c.excerpt
        ∷ codes "\n"
        ∷ rest
        ∷ [])
diagnostic_rows _ _ = []

unfoldable name_rows : List (Bytes × ℕ) → Bytes
unfolding decimal csv_quote
name_rows [] = []
name_rows ((name, n) ∷ m) = concat (
    csv_quote name
    ∷ codes ","
    ∷ decimal n
    ∷ codes ",\"Not in the module whitelist - excluded from all statistics\"\n"
    ∷ name_rows m
    ∷ [])

module _ (d : Doubles) where
  open d use {Double, zero_d, mul_d, div_d, of_nat, lt_d, fixed}

  abbrev fixed6 : Double → Bytes
  fixed6 v = take 63 (fixed 6 v)

  abbrev fixed4 : Double → Bytes
  fixed4 v = take 63 (fixed 4 v)

  -- 100.0 * a / b
  abbrev percent : ℕ → Double → Double
  percent a b = div_d (mul_d (of_nat 100) (of_nat a)) b

  unfoldable meta_rows : Bytes → CsvContext → Bytes
  unfolding decimal csv_quote names_with
  meta_rows now ctx = concat (
      codes "# Zhenyu_LoggerAnalyzer result\n"
      ∷ codes "# schema_version,1\n"
      ∷ codes "# generated_utc,"
      ∷ now
      ∷ codes "\n"
      ∷ codes "# source_file,"
      ∷ csv_quote ctx.source_file
      ∷ codes "\n"
      ∷ codes "# source_bytes,"
      ∷ decimal ctx.source_bytes
      ∷ codes "\n"
      ∷ codes "# bucket_unit,hour\n"
      ∷ codes "# module_whitelist,\""
      ∷ names_with ";" all_modules
      ∷ codes "\"\n"
      ∷ codes "# spd_range_gate,\"["
      ∷ fixed6 d.spd_min
      ∷ codes ", "
      ∷ fixed6 d.spd_max
      ∷ codes "]\"\n"
      ∷ codes "\n"
      ∷ [])

  unfoldable hourly_section : Aggregator d → Bytes
  unfolding names_after bucket_rows
  hourly_section agg = concat (
      codes "[SECTION] "
      ∷ star
      ∷ codes "HOURLY_MODULE_COUNTS\n"
      ∷ codes "bucket_start"
      ∷ names_after "," all_modules
      ∷ codes ",bucket_total\n"
      ∷ bucket_rows agg.buckets.entries
      ∷ codes "\n"
      ∷ [])

  unfoldable speed_rows : Aggregator d → Bytes
  speed_rows agg =
      if ltb 0 agg.speeds.spd_n
      then concat (
          star
          ∷ codes "spd_average,"
          ∷ fixed6 (spd_avg d agg.speeds)
          ∷ codes "\n"
          ∷ codes "spd_min,"
          ∷ fixed6 agg.speeds.spd_min
          ∷ codes "\n"
          ∷ codes "spd_max,"
          ∷ fixed6 agg.speeds.spd_max
          ∷ codes "\n"
          ∷ [])
      else concat (star ∷ codes "spd_average,\n" ∷ codes "spd_min,\n" ∷ codes "spd_max,\n" ∷ [])

  unfoldable throughput : CsvContext → Double
  throughput ctx =
      let secs = div_d (of_nat ctx.elapsed_ms) (of_nat 1000) in
      if lt_d zero_d secs
      then div_d (div_d (of_nat ctx.source_bytes) (mul_d (of_nat 1024) (of_nat 1024))) secs
      else zero_d

  unfoldable summary_section : Aggregator d → CsvContext → Bytes
  unfolding decimal csv_quote speed_rows throughput
  summary_section agg ctx = concat (
      codes "[SECTION] SUMMARY\n"
      ∷ codes "metric,value\n"
      ∷ codes "total_lines,"
      ∷ decimal agg.total_lines
      ∷ codes "\n"
      ∷ codes "accepted_lines,"
      ∷ decimal agg.accepted_lines
      ∷ codes "\n"
      ∷ codes "rejected_lines,"
      ∷ decimal (rejected_lines d agg)
      ∷ codes "\n"
      ∷ codes "rejected_ratio_pct,"
      ∷ fixed6 (
          if ltb 0 agg.total_lines
          then percent (rejected_lines d agg) (of_nat agg.total_lines)
          else zero_d)
      ∷ codes "\n"
      ∷ codes "hour_buckets,"
      ∷ decimal (length agg.buckets.entries)
      ∷ codes "\n"
      ∷ codes "time_range_start,"
      ∷ csv_quote agg.first_ts
      ∷ codes "\n"
      ∷ codes "time_range_end,"
      ∷ csv_quote agg.last_ts
      ∷ codes "\n"
      ∷ codes "spd_samples,"
      ∷ decimal agg.speeds.spd_n
      ∷ codes "\n"
      ∷ codes "spd_sum,"
      ∷ fixed6 (spd_total d agg.speeds)
      ∷ codes "\n"
      ∷ speed_rows agg
      ∷ codes "processing_ms,"
      ∷ decimal ctx.elapsed_ms
      ∷ codes "\n"
      ∷ codes "throughput_mib_per_sec,"
      ∷ fixed4 (throughput ctx)
      ∷ codes "\n"
      ∷ codes "peak_rss_kb,"
      ∷ decimal ctx.peak_rss_kb
      ∷ codes "\n"
      ∷ codes "\n"
      ∷ [])

  unfoldable module_rows : Double → List Module → List ℕ → Bytes
  unfolding module_name decimal
  module_rows acc (m ∷ ms) (n ∷ ns) = concat (
      codes (module_name m)
      ∷ codes ","
      ∷ decimal n
      ∷ codes ","
      ∷ fixed4 (percent n acc)
      ∷ codes "\n"
      ∷ module_rows acc ms ns
      ∷ [])
  module_rows acc _ _ = []

  unfoldable module_section : Aggregator d → Bytes
  unfolding module_rows
  module_section agg = concat (
      codes "[SECTION] MODULE_TOTALS\n"
      ∷ codes "module,count,percent_of_accepted\n"
      ∷ module_rows (of_nat (if ltb 0 agg.accepted_lines then agg.accepted_lines else 1))
          all_modules agg.module_totals
      ∷ codes "\n"
      ∷ [])

  -- The number in the row TOTAL.
  unfoldable pub disposition_total : Aggregator d → ℕ
  unfolding disposition_sum
  disposition_total agg =
      disposition_sum agg.accepted_lines (drop 1 agg.rejects.corrupt) + agg.oversize_lines

  unfoldable disposition_section : Aggregator d → Bytes
  unfolding reason_key reason_text decimal csv_quote disposition_rows disposition_total
  disposition_section agg = concat (
      codes "[SECTION] LINE_DISPOSITION\n"
      ∷ codes "disposition,count,description\n"
      ∷ codes (reason_key accepted)
      ∷ codes ","
      ∷ decimal agg.accepted_lines
      ∷ codes ","
      ∷ csv_quote (codes (reason_text accepted))
      ∷ codes "\n"
      ∷ disposition_rows rejections (drop 1 agg.rejects.corrupt)
      ∷ codes "rejected_oversize_line,"
      ∷ decimal agg.oversize_lines
      ∷ codes ",\"Line exceeded the maximum length without a newline\"\n"
      ∷ codes "TOTAL,"
      ∷ decimal (disposition_total agg)
      ∷ codes ",\"Must equal total_lines ("
      ∷ decimal agg.total_lines
      ∷ codes ")\"\n"
      ∷ codes "\n"
      ∷ [])

  unfoldable diagnostic_section : Aggregator d → Bytes
  unfolding decimal diagnostic_rows
  diagnostic_section agg = concat (
      codes "[SECTION] CORRUPT_DIAGNOSTICS\n"
      ∷ codes "reason,count,first_line_no,first_byte_offset,excerpt\n"
      ∷ diagnostic_rows rejections (drop 1 agg.rejects.corrupt)
      ∷ (if ltb 0 agg.spd_out_of_range
          then concat (
              codes "spd_out_of_range_guard,"
              ∷ decimal agg.spd_out_of_range
              ∷ codes ",\"Speed value outside the accepted range was excluded from the average\"\n"
              ∷ [])
          else [])
      ∷ codes "\n"
      ∷ [])

  unfoldable name_section : Aggregator d → Bytes
  unfolding name_rows
  name_section agg = concat (
      codes "[SECTION] REJECTED_MODULE_NAMES\n"
      ∷ codes "module_name,occurrences,note\n"
      ∷ name_rows agg.rejects.modules
      ∷ codes "\n"
      ∷ [])

  unfoldable pub build_result_csv : Bytes → Aggregator d → CsvContext → Bytes
  unfolding meta_rows hourly_section summary_section module_section disposition_section
      diagnostic_section name_section
  build_result_csv now agg ctx =
      (0xEF ∷ 0xBB ∷ 0xBF ∷ [])
      ++ concat (
          meta_rows now ctx
          ∷ hourly_section agg
          ∷ summary_section agg ctx
          ∷ module_section agg
          ∷ disposition_section agg
          ∷ diagnostic_section agg
          ∷ name_section agg
          ∷ [])
