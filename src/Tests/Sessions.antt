-- ===== src/Tests/Sessions.antt =====
-- The theorems on sessions and aggregators, at sample data.
use assignment_logger_analyz.Prelude.{◌+◌, ◌≡◌, ◌↔◌, refl, true, some, ◌==◌, if◌then◌else◌, arith}
use assignment_logger_analyz.Tests.Samples.{
  doubles, host, accepted_session, uploading_session, closing_session, hello_frame, log_line,
}
use assignment_logger_analyz.Session.State.{uploading, closing}
use assignment_logger_analyz.Session.Outbox.{close}
use assignment_logger_analyz.Session.Upload.{read_upload_end}
use assignment_logger_analyz.Session.UploadEnd.{handle_upload_end}
use assignment_logger_analyz.Session.Dispatch.{process, process_loop}
use assignment_logger_analyz.Session.Events.{read, bytes, timeout, step}
use assignment_logger_analyz.Session.Loop.{Sane, process-enough}
use assignment_logger_analyz.Session.Invariant.{step-Sane, new_session-Sane}
use assignment_logger_analyz.Session.Closing.{
  Rests, step-closing, silent, silent-ends, handle_upload_end-exact, Told, close-notifies,
}
use assignment_logger_analyz.Csv.{disposition_total}
use assignment_logger_analyz.Aggregator.{new_aggregator, add_line}
use assignment_logger_analyz.Aggregator.BucketTable.{no_buckets}
use assignment_logger_analyz.Aggregator.Entries.{CountedOnce, add_line-CountedOnce}
use assignment_logger_analyz.Aggregator.Accounting.{
  new_aggregator-Accounts, disposition_total-lines,
}
use assignment_logger_analyz.Aggregator.Lookup.{
  stat_of, or_empty, counted, count_line, Indexed, no_buckets-Indexed, count_line-Indexed,
  count_line-stat_of,
}

step-Sane_example : Sane host (step host accepted_session (read (bytes hello_frame)))
step-Sane_example =
    step-Sane host accepted_session (read (bytes hello_frame))
      (new_session-Sane host 7 300000 15000 tt)

process-enough_example :
    process_loop host 100 accepted_session hello_frame ≡ process host accepted_session hello_frame
process-enough_example =
    process-enough host 100 accepted_session hello_frame (new_session-Sane host 7 300000 15000 tt)
      (omega arith)

step-closing_example : Rests host closing_session (step host closing_session timeout)
step-closing_example = step-closing host closing_session timeout refl

silent-ends_example :
    ((silent host 2 uploading_session).state ≡ uploading)
    × ((silent host 3 uploading_session).state ≡ closing)
silent-ends_example = silent-ends host uploading_session refl refl

handle_upload_end-exact_example : ((handle_upload_end host uploading_session).0 ≡ true) ↔ (
    (read_upload_end uploading_session.decoder.payload ≡ some 70)
    × (uploading_session.upload_received ≡ 70))
handle_upload_end-exact_example = handle_upload_end-exact host uploading_session

close-notifies_example : Told host 0 (close host uploading_session)
close-notifies_example =
    close-notifies host (λ w. (refl, refl)) uploading_session (λ e. ground arith) refl refl

add_line-CountedOnce_example :
    CountedOnce doubles log_line
      (new_aggregator doubles)
      (add_line doubles (new_aggregator doubles) log_line 0)
add_line-CountedOnce_example =
    add_line-CountedOnce doubles (new_aggregator doubles) log_line 0
      (new_aggregator-Accounts doubles)

disposition_total-lines_example :
    disposition_total doubles (add_line doubles (new_aggregator doubles) log_line 0)
    ≡ (add_line doubles (new_aggregator doubles) log_line 0).total_lines
      + (add_line doubles (new_aggregator doubles) log_line 0).oversize_lines
disposition_total-lines_example =
    disposition_total-lines doubles (add_line doubles (new_aggregator doubles) log_line 0) (
      (add_line-CountedOnce doubles (new_aggregator doubles) log_line 0
        (new_aggregator-Accounts doubles)).2)

count_line-Indexed_example : Indexed (count_line no_buckets 2026061922 0)
count_line-Indexed_example = count_line-Indexed no_buckets 2026061922 0 no_buckets-Indexed

count_line-stat_of_example :
    or_empty (stat_of (count_line no_buckets 2026061922 3).entries 2026061922) ≡ (
      if 2026061922 == 2026061922
      then counted 3 (or_empty (stat_of no_buckets.entries 2026061922))
      else or_empty (stat_of no_buckets.entries 2026061922))
count_line-stat_of_example =
    count_line-stat_of no_buckets 2026061922 3 2026061922 no_buckets-Indexed
