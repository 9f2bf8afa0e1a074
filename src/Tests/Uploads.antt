-- ===== src/Tests/Uploads.antt =====
-- A whole upload at a file of one line, in two chunks and two reads.
use assignment_logger_analyz.Session.UploadFrames.{upload_stream}
use assignment_logger_analyz.Prelude.{
  ◌++◌, refl, ap, ◌∙◌, append-nil, List, [], ◌∷◌, Bytes, codes, take, drop, take-append-drop, arith,
}
use assignment_logger_analyz.Splitter.{newline}
use assignment_logger_analyz.Splitter.Segments.{segments}
use assignment_logger_analyz.Splitter.Stream.{concat}
use assignment_logger_analyz.Decoder.Bounds.{fresh-Valid}
use assignment_logger_analyz.Session.State.{Session, ready}
use assignment_logger_analyz.Session.Reads.{after_reads, Rested, after_reads-Analysed}
use assignment_logger_analyz.Tests.Samples.{host, accepted_session, log_line}

abbrev ready_session : Session host
ready_session = record accepted_session { state = ready }

abbrev chunks : List Bytes
chunks = take 30 log_line ∷ (drop 30 log_line ++ newline ∷ []) ∷ []

abbrev stream : Bytes
stream = upload_stream (codes "radar.log") chunks

abbrev reads : List Bytes
reads = take 50 stream ∷ drop 50 stream ∷ []

after_reads-Analysed_example :
    Rested host (codes "radar.log") (concat chunks) (after_reads host ready_session reads)
unfolding segments
after_reads-Analysed_example =
    after_reads-Analysed host (λ w frame. refl) ready_session (codes "radar.log") chunks reads refl
      refl
      (record { state = refl; head_raw = refl; head_got = refl; payload = refl; streaming = refl })
      fresh-Valid (ground arith) (ground arith) (ground arith) (ground arith) (ground arith)
      (ap (λ t. take 50 stream ++ t) (append-nil (drop 50 stream)) ∙ take-append-drop 50 stream)
