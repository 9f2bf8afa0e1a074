-- ===== src/Client/Result.antt =====
-- `receive_result` of 01.Sources/CLIENT/CPP/src/net/Transfer.cpp.
use assignment_logger_analyz.Prelude.{
  ℕ, zero, suc, ltb, ◌==◌, ◌*◌, not, if◌then◌else◌, [], ◌++◌, Bytes, codes, decimal, length,
}
use assignment_logger_analyz.Protocol.{MsgType, msg_name, result_begin, result_chunk, result_end}
use assignment_logger_analyz.Payload.Reader
use assignment_logger_analyz.Client.Actions.{
  Action, pure, raise, raise_if, out_of_passes, modify, ◌>>=◌, ◌>>◌,
}
use assignment_logger_analyz.Client.System.{System}
use assignment_logger_analyz.Client.State.{Client, log}
use assignment_logger_analyz.Client.Texts.{Fields, field, reading, server_error_text, human_bytes}
use assignment_logger_analyz.Client.Frames.{Frame, same_type, read_frame}
use assignment_logger_analyz.Client.Handshake.{idle_timeout_ms, expect}

abbrev pub max_csv_bytes : ℕ
max_csv_bytes = 64 * 1024 * 1024

-- Only the size is read from RESULT_BEGIN.
unfoldable pub begin_fields : Fields ℕ
begin_fields = field Reader.u64 (codes "malformed RESULT_BEGIN payload")

module _ (sys : System) where
  -- The branches on a frame of the loop; `next` is the next pass, with the bytes so far.
  unfoldable pub after_result_frame :
      (Bytes → Action (Client sys) Bytes) → ℕ → Bytes → Frame → Action (Client sys) Bytes
  unfolding same_type server_error_text
  after_result_frame next declared csv f =
      if same_type f.type result_chunk
      then raise_if (ltb declared (length (csv ++ f.payload)))
          (codes "result.csv exceeded the declared size")
        >> next (csv ++ f.payload)
      else if same_type f.type result_end
      then pure csv
      else if same_type f.type MsgType.error
      then raise (server_error_text f.payload)
      else raise
          (codes "unexpected message while receiving result.csv: " ++ codes (msg_name f.type))

  unfoldable pub result_loop : ℕ → ℕ → Bytes → Action (Client sys) Bytes
  unfolding after_result_frame
  result_loop zero declared csv = out_of_passes
  result_loop (suc n) declared csv = do
    f ← read_frame sys idle_timeout_ms
    after_result_frame (result_loop n declared) declared csv f

  unfoldable pub keep_csv : Bytes → Action (Client sys) (Unit {0})
  keep_csv csv =
      modify (λ c. record c { shot = record c.shot { csv_size = length csv }; csv = csv })

  unfoldable pub receive_result : ℕ → Action (Client sys) (Unit {0})
  unfolding result_loop begin_fields keep_csv human_bytes decimal
  receive_result expected_size = do
    raise_if (ltb max_csv_bytes expected_size)
        (codes "result.csv size is out of range: " ++ decimal expected_size)
    begin ← read_frame sys idle_timeout_ms
    expect sys result_begin (codes "RESULT_BEGIN") begin
    declared ← reading begin.payload begin_fields
    raise_if (ltb max_csv_bytes declared) (codes "result.csv too large: " ++ decimal declared)
    log sys (codes "<- RESULT_BEGIN      result.csv  " ++ human_bytes sys.doubles declared)
    csv ← result_loop sys.passes declared []
    raise_if (not (length csv == declared)) (
        codes "result.csv size mismatch: declared "
        ++ (decimal declared ++ (codes " but received " ++ decimal (length csv))))
    log sys (codes "<- RESULT_END        received " ++ (decimal (length csv) ++ codes " bytes"))
    keep_csv csv
