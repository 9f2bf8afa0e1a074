-- ===== src/Tests/Clients.antt =====
-- The theorems on the client, at sample data.
use assignment_logger_analyz.Prelude.{◌≡◌, ◌++◌, refl, true, [], codes, take, ◌*◌, arith}
use assignment_logger_analyz.Protocol.{cancel, byte_type, type_byte}
use assignment_logger_analyz.Payload.Reader.{reader}
use assignment_logger_analyz.Decoder.Serialize.{serialize_frame}
use assignment_logger_analyz.Session.State.{Session, ready}
use assignment_logger_analyz.Aggregator.{rejected_lines, spd_avg}
use assignment_logger_analyz.Session.Upload.{hello_payload, server_name}
use assignment_logger_analyz.Session.UploadEnd.{send_result_csv, done_payload}
use assignment_logger_analyz.Session.Queue.{result_frames, flat}
use assignment_logger_analyz.Tests.Samples.{doubles, host, accepted_session}
use assignment_logger_analyz.Tests.Systems.{system, line, sink, connected_client}
use assignment_logger_analyz.Client.Actions.{done}
use assignment_logger_analyz.Client.Meets.{OnResult, Yields}
use assignment_logger_analyz.Client.State.{new_client}
use assignment_logger_analyz.Client.Frames.{read_frame, send_empty_frame_never_cancel}
use assignment_logger_analyz.Client.Handshake.{hello_fields}
use assignment_logger_analyz.Client.Progress.{done_fields}
use assignment_logger_analyz.Client.Result.{receive_result}
use assignment_logger_analyz.Client.Analysis.{do_upload}
use assignment_logger_analyz.Client.Run.{run_session}
use assignment_logger_analyz.Client.Payloads.{hello_fields-hello_payload, done_fields-done_payload}
use assignment_logger_analyz.Client.Bounded.{Bounded}
use assignment_logger_analyz.Client.Bounded.Session.{run_session-Bounded}
use assignment_logger_analyz.Client.Outcome.Ends.{Answered, do_upload-Answered}
use assignment_logger_analyz.Client.Outcome.Ends.Calm.{Ended, run_session-Ended}
use assignment_logger_analyz.Client.Delivery.{At}
use assignment_logger_analyz.Client.Delivery.Csv.{Received}
use assignment_logger_analyz.Client.Sending.{Out}
use assignment_logger_analyz.Client.Delivered.{
  read_frame-delivered, send_result_csv-receive_result, send_empty_frame_never_cancel-delivered,
}

-- A session with a result.
abbrev analysed_session : Session host
analysed_session = record accepted_session { state = ready; result_csv = codes "a,b" }

hello_fields-hello_payload_example :
    (hello_fields (reader (hello_payload host accepted_session))).0
    ≡ done (record {
      session_id = 7;
      max_chunk = 1024 * 1024;
      observed_peer = codes "unknown";
      server_version = server_name ++ codes "1.48.0";
    })
hello_fields-hello_payload_example =
    hello_fields-hello_payload host accepted_session (omega arith) (omega arith) (omega arith)

done_fields-done_payload_example :
    (done_fields (reader (done_payload host analysed_session 12 2048))).0
    ≡ done (record {
      bytes = 0;
      lines = 0;
      accepted = 0;
      rejected = rejected_lines doubles analysed_session.agg;
      oversize = 0;
      spd_n = 0;
      avg = take 31 (doubles.fixed 6 (spd_avg doubles analysed_session.agg.speeds));
      elapsed = 12;
      rss = 2048;
      csv_size = 3;
    })
done_fields-done_payload_example =
    done_fields-done_payload host analysed_session 12 2048 (omega arith) (omega arith) (omega arith)
      (omega arith) (omega arith) (omega arith) (omega arith) (omega arith) (omega arith)

run_session-Bounded_example :
    Bounded system
      (run_session system
        (codes "server")
        9000
        (codes "office")
        (new_client system (record { input = []; output = [] }))).1
run_session-Bounded_example =
    run_session-Bounded system (codes "server") 9000 (codes "office")
      (new_client system (record { input = []; output = [] }))
      (record { log_short = omega arith; csv_short = omega arith; sized = refl })

run_session-Ended_example : Ended system (
    run_session system
      (codes "server")
      9000
      (codes "office")
      (new_client system (record { input = []; output = [] })))
run_session-Ended_example =
    run_session-Ended system (codes "server") 9000 (codes "office")
      (new_client system (record { input = []; output = [] }))

do_upload-Answered_example :
    Answered system (do_upload system (codes "radar.log") (connected_client []))
do_upload-Answered_example =
    do_upload-Answered system (codes "radar.log") (connected_client []) refl

cancel_named : byte_type (type_byte cancel) ≡ cancel
unfolding byte_type type_byte
cancel_named = refl

read_frame-delivered_example :
    OnResult true
      (Yields true
        (record { type = cancel; payload = codes "x" })
        (At system true line (codes "rest")))
      (read_frame system 1000
        (connected_client (serialize_frame cancel (codes "x") ++ codes "rest")))
read_frame-delivered_example =
    read_frame-delivered system true line
      (connected_client (serialize_frame cancel (codes "x") ++ codes "rest")) cancel (codes "x")
      (codes "rest") 1000 (record { named = cancel_named; short = omega arith })
      (record { ahead = refl; uncancelled = λ t. refl })

send_result_csv-receive_result_example :
    ((send_result_csv host analysed_session).writes ≡ [] ++ result_frames (codes "a,b"))
    × OnResult true
        (λ _. Received system true line (codes "a,b") [])
        (receive_result system 3 (connected_client (flat (result_frames (codes "a,b")) ++ [])))
send_result_csv-receive_result_example =
    send_result_csv-receive_result system true line
      (connected_client (flat (result_frames (codes "a,b")) ++ [])) host analysed_session [] 3
      (λ w frame. refl) refl refl (omega arith) (omega arith) (λ t. omega arith)
      (record { ahead = refl; uncancelled = λ t. refl })

send_empty_frame_never_cancel-delivered_example :
    OnResult true
      (λ _. Out system true sink (codes "before" ++ serialize_frame cancel []))
      (send_empty_frame_never_cancel system cancel (record (connected_client []) {
        cancel = true;
        world = record { input = []; output = codes "before" };
      }))
send_empty_frame_never_cancel-delivered_example =
    send_empty_frame_never_cancel-delivered system true sink
      (record (connected_client []) {
        cancel = true;
        world = record { input = []; output = codes "before" };
      })
      cancel (codes "before") (λ t. omega arith) (record { gone = refl })
