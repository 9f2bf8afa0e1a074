-- ===== src/Client/Delivered.antt =====
-- What the client receives, call by call.
use assignment_logger_analyz.Prelude.{ℕ, ◌≤◌, ◌<◌, ◌≡◌, Bool, true, false, ◌++◌, Bytes, length, []}
use assignment_logger_analyz.Protocol.{MsgType, max_payload}
use assignment_logger_analyz.Decoder.Serialize.{serialize_frame}
use assignment_logger_analyz.Session.Host.{Host}
use assignment_logger_analyz.Session.State.{Session, is_closing}
use assignment_logger_analyz.Session.UploadEnd.{send_result_csv}
use assignment_logger_analyz.Session.Queue.{flat, result_frames, send_result_csv-Queued}
use assignment_logger_analyz.Client.Meets.{OnResult, Yields}
use assignment_logger_analyz.Client.System.{System}
use assignment_logger_analyz.Client.State.{Client}
use assignment_logger_analyz.Client.Socket.{Flag, recv_exactly}
use assignment_logger_analyz.Client.Frames.{read_frame, send_empty_frame_never_cancel}
use assignment_logger_analyz.Client.Result.{receive_result, max_csv_bytes}
use assignment_logger_analyz.Client.Delivery.{Line, At}
use assignment_logger_analyz.Client.Delivery.Exact.{recv_exactly-At}
use assignment_logger_analyz.Client.Delivery.Frames.{Sendable, read_frame-At}
use assignment_logger_analyz.Client.Delivery.Csv.{Received, receive_result-On}
use assignment_logger_analyz.Client.Sending.{Sink, Out, send_empty_frame_never_cancel-Out}

module _ (sys : System) (strict : Bool) (line : Line sys strict) (c : Client sys) where
  -- recv_exactly for as many bytes as `x` has, at most 4 MiB, on a stream that begins with `x`: what it
  -- returns is `x`, and the rest is left, however the system cuts the stream up; where the system
  -- delivers at once, the user does nothing and the loops are followed for more than 4 MiB of passes,
  -- it does not fail.
  pub recv_exactly-delivered :
      (x rest : Bytes) (len idle : ℕ) (flag : Flag)
      → len ≡ length x
      → len ≤ max_payload
      → At sys strict line (x ++ rest) c
      → OnResult strict
          (Yields strict x (At sys strict line rest))
          (recv_exactly sys len idle flag c)
  recv_exactly-delivered x rest len idle flag e k p =
      (recv_exactly-At sys strict line x rest len idle flag e k).meet c p

  -- read_frame on a stream that begins with a serialized frame, of a type of the wire and with a
  -- payload within the limit: what it returns is that type and that payload, and what stands behind
  -- them is left; where the system delivers at once, the user does nothing and the loops are followed
  -- for more than 4 MiB of passes, it does not fail.
  pub read_frame-delivered :
      (type : MsgType) (payload rest : Bytes) (idle : ℕ)
      → Sendable type payload
      → At sys strict line (serialize_frame type payload ++ rest) c
      → OnResult strict
          (Yields strict (record { type = type; payload = payload }) (At sys strict line rest))
          (read_frame sys idle c)
  read_frame-delivered type payload rest idle k p =
      (read_frame-At sys strict line type payload rest idle k).meet c p

  -- A server whose session is open and can write every frame queues frames for its result, and a
  -- client whose stream begins with these frames and that receives a result keeps exactly that
  -- result, with its size, and leaves what stands behind them, however the system cuts the stream up,
  -- where the result is within 64 MiB and the size that came with ANALYZE_DONE is too; where the
  -- system delivers at once, the user does nothing and the loops are followed for more passes than
  -- the result and a frame have bytes, it does not fail.
  pub send_result_csv-receive_result :
      (h : Host) (s : Session h) (rest : Bytes) (size : ℕ)
      → ((w : h.World) (frame : Bytes) → (h.uv_write w frame).0 ≡ true)
      → is_closing s.state ≡ false
      → s.handles_inited ≡ true
      → size ≤ max_csv_bytes
      → length s.result_csv ≤ max_csv_bytes
      → (strict ≡ true → length s.result_csv < sys.passes)
      → At sys strict line (flat (result_frames s.result_csv) ++ rest) c
      → ((send_result_csv h s).writes ≡ s.writes ++ result_frames s.result_csv)
        × OnResult strict
            (λ _. Received sys strict line s.result_csv rest)
            (receive_result sys size c)
  send_result_csv-receive_result h s rest size ok e i a b k p = (
    (send_result_csv-Queued h ok s e i).writes,
    (receive_result-On sys strict line s.result_csv rest size a b k).meet c p,
  )

-- CANCEL and BYE, whatever the user does: where send_empty_frame_never_cancel succeeds, the whole
-- frame has gone out behind what went out before; where the system takes bytes at once and the loop
-- is followed for more than 16 passes, it succeeds.
pub send_empty_frame_never_cancel-delivered :
    (sys : System) (strict : Bool) (sink : Sink sys strict) (c : Client sys) (type : MsgType)
    (s : Bytes)
    → (strict ≡ true → 16 < sys.passes)
    → Out sys strict sink s c
    → OnResult strict
        (λ _. Out sys strict sink (s ++ serialize_frame type []))
        (send_empty_frame_never_cancel sys type c)
send_empty_frame_never_cancel-delivered sys strict sink c type s k p =
    (send_empty_frame_never_cancel-Out sys strict sink type s k).meet c p
