-- ===== src/Client/Cancel.antt =====
-- `send_cancel_and_wait` of 01.Sources/CLIENT/CPP/src/net/Transfer.cpp.
use assignment_logger_analyz.Prelude.{
  ℕ, zero, suc, ◌+◌, ◌-◌, ltb, ◌==◌, not, ◌||◌, if◌then◌else◌, [], ◌++◌, codes,
}
use assignment_logger_analyz.Protocol.{
  MsgType, FrameHeader, decode_header, header_size, magic_word, max_payload,
}
use assignment_logger_analyz.Client.Actions.{
  Action, pure, raise_if, out_of_passes, on_failure, ◌>>=◌, ◌>>◌,
}
use assignment_logger_analyz.Client.System.{System}
use assignment_logger_analyz.Client.State.{Client, ask, log}
use assignment_logger_analyz.Client.Socket.{never_cancel, recv_exactly}
use assignment_logger_analyz.Client.Texts.{server_error_text}
use assignment_logger_analyz.Client.Frames.{same_type, send_empty_frame_never_cancel, read_body}

abbrev pub cancel_ack_timeout_ms : ℕ
cancel_ack_timeout_ms = 5000

module _ (sys : System) where
  -- The frame behind a header; an ERROR ends the wait, and any other goes on with `next`. A `return`
  -- of the source is a failure here, which `send_cancel_and_wait` drops.
  unfoldable pub after_cancel_header :
      Action (Client sys) (Unit {0}) → FrameHeader → Action (Client sys) (Unit {0})
  unfolding same_type server_error_text
  after_cancel_header next h = do
    raise_if (not (h.magic == magic_word) || ltb max_payload h.payload_len) []
    payload ← read_body sys h.payload_len cancel_ack_timeout_ms never_cancel
    if same_type h.type MsgType.error
        then log sys (codes "<- " ++ server_error_text payload)
        else next

  unfoldable pub cancel_pass : Action (Client sys) (Unit {0}) → ℕ → Action (Client sys) (Unit {0})
  unfolding after_cancel_header
  cancel_pass next deadline = do
    now ← ask sys sys.now_ms
    head ←
        recv_exactly sys header_size (if ltb now deadline then deadline - now else 1) never_cancel
    after_cancel_header next (decode_header head)

  unfoldable pub cancel_loop : ℕ → ℕ → Action (Client sys) (Unit {0})
  unfolding cancel_pass
  cancel_loop zero deadline = out_of_passes
  cancel_loop (suc n) deadline = do
    now ← ask sys sys.now_ms
    if ltb now deadline then cancel_pass (cancel_loop n deadline) deadline else pure tt

  unfoldable pub send_cancel_and_wait : Action (Client sys) (Unit {0})
  unfolding cancel_loop
  send_cancel_and_wait = on_failure asked (λ e. pure tt)
    where
      asked : Action (Client sys) (Unit {0})
      asked = do
        send_empty_frame_never_cancel sys MsgType.cancel
        log sys (codes "-> CANCEL            waiting for the server to acknowledge")
        now ← ask sys sys.now_ms
        cancel_loop sys.passes (now + cancel_ack_timeout_ms)
