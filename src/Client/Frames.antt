-- ===== src/Client/Frames.antt =====
-- `send_frame`, `read_frame` and `send_empty_frame_never_cancel` of
-- 01.Sources/CLIENT/CPP/src/net/Transfer.cpp.
use assignment_logger_analyz.Prelude.{
  ℕ, ltb, ◌==◌, if◌then◌else◌, Bool, not, [], ◌∷◌, ◌++◌, Bytes, codes, decimal, length, ◌%◌, ◌^◌,
}
use assignment_logger_analyz.Protocol.{
  MsgType, type_byte, FrameHeader, default_header, encode_header, decode_header, header_size,
  magic_word, version_byte, max_payload,
}
use assignment_logger_analyz.Client.Actions.{Action, pure, raise_if, ◌>>=◌, ◌>>◌}
use assignment_logger_analyz.Client.System.{System}
use assignment_logger_analyz.Client.State.{Client}
use assignment_logger_analyz.Client.Socket.{Flag, cancel_flag, never_cancel, send_all, recv_exactly}

abbrev pub write_stall_timeout_ms : ℕ
write_stall_timeout_ms = 20000

-- TransferClient::Frame
pub record Frame : Type 0 where
  pub type : MsgType
  pub payload : Bytes

-- == on MsgType
unfoldable pub same_type : MsgType → MsgType → Bool
unfolding type_byte
same_type a b = type_byte a == type_byte b

module _ (sys : System) where
  -- `if (!payload.empty() && !send_all(...))`
  abbrev pub send_body : Bytes → Action (Client sys) (Unit {0})
  send_body [] = pure tt
  send_body (b ∷ bs) = send_all sys (b ∷ bs) write_stall_timeout_ms cancel_flag

  unfoldable pub send_frame : MsgType → Bytes → Action (Client sys) (Unit {0})
  send_frame type payload = do
    send_all sys
        (encode_header
          (record default_header { type = type; payload_len = length payload % 2 ^ 64 }))
        write_stall_timeout_ms cancel_flag
    send_body payload

  unfoldable pub send_empty_frame_never_cancel : MsgType → Action (Client sys) (Unit {0})
  send_empty_frame_never_cancel type =
      send_all sys (encode_header (record default_header { type = type; payload_len = 0 }))
        write_stall_timeout_ms never_cancel

  -- `if (h.payload_len > 0 && !recv_exactly(...))`
  unfoldable pub read_body : ℕ → ℕ → Flag → Action (Client sys) Bytes
  read_body len idle_timeout_ms flag =
      if ltb 0 len then recv_exactly sys len idle_timeout_ms flag else pure []

  -- The checks of the header, then the payload.
  unfoldable pub after_header : ℕ → FrameHeader → Action (Client sys) Frame
  unfolding read_body decimal
  after_header idle_timeout_ms h = do
    raise_if (not (h.magic == magic_word)) (codes "bad magic from server")
    raise_if (not (h.version == version_byte))
        (codes "unsupported protocol version from server: " ++ decimal h.version)
    raise_if (ltb max_payload h.payload_len)
        (codes "payload too large from server: " ++ (decimal h.payload_len ++ codes " bytes"))
    payload ← read_body h.payload_len idle_timeout_ms cancel_flag
    pure (record { type = h.type; payload = payload })

  unfoldable pub read_frame : ℕ → Action (Client sys) Frame
  unfolding after_header
  read_frame idle_timeout_ms = do
    head ← recv_exactly sys header_size idle_timeout_ms cancel_flag
    after_header idle_timeout_ms (decode_header head)
