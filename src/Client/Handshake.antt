-- ===== src/Client/Handshake.antt =====
-- `handshake` of 01.Sources/CLIENT/CPP/src/net/Transfer.cpp.
use assignment_logger_analyz.Prelude.{ℕ, not, ◌++◌, [], Bytes, codes, decimal, true}
use assignment_logger_analyz.Protocol.{MsgType, msg_name}
use assignment_logger_analyz.Payload.Reader
use assignment_logger_analyz.Payload.Writer
use assignment_logger_analyz.Client.Actions.{Action, pure, raise_if, ◌>>=◌, ◌>>◌}
use assignment_logger_analyz.Client.System.{System}
use assignment_logger_analyz.Client.State.{Client, HelloInfo, handshaking, set_phase, set_shot, log}
use assignment_logger_analyz.Client.Texts.{Fields, field, reading, server_error_text}
use assignment_logger_analyz.Client.Frames.{Frame, same_type, send_frame, read_frame}

abbrev pub idle_timeout_ms : ℕ
idle_timeout_ms = 120000

abbrev pub client_protocol_version : ℕ
client_protocol_version = 1

unfoldable pub client_hello : Bytes → Bytes
client_hello client_name = Writer.str16 (Writer.u16 [] client_protocol_version) client_name

unfoldable pub hello_fields : Fields HelloInfo
hello_fields = do
  session_id ← field Reader.u32 (codes "malformed HELLO_ACK payload")
  max_chunk ← field Reader.u32 (codes "malformed HELLO_ACK payload")
  observed_peer ← field Reader.str16 (codes "malformed HELLO_ACK payload")
  server_version ← field Reader.str16 (codes "malformed HELLO_ACK payload")
  pure (record {
    session_id = session_id;
    max_chunk = max_chunk;
    observed_peer = observed_peer;
    server_version = server_version;
  })

module _ (sys : System) where
  -- A frame that is not of the type that is waited for is a failure, an ERROR with its text.
  unfoldable pub expect : MsgType → Bytes → Frame → Action (Client sys) (Unit {0})
  unfolding same_type server_error_text
  expect type message f = do
    raise_if (same_type f.type MsgType.error) (server_error_text f.payload)
    raise_if (not (same_type f.type type))
        (codes "expected " ++ (message ++ (codes " but received " ++ codes (msg_name f.type))))

  unfoldable pub handshake : Bytes → Action (Client sys) (Unit {0})
  unfolding expect hello_fields client_hello decimal
  handshake client_name = do
    set_phase sys handshaking
    send_frame sys MsgType.hello (client_hello client_name)
    log sys (codes "-> HELLO             " ++ client_name)
    f ← read_frame sys idle_timeout_ms
    expect MsgType.hello_ack (codes "HELLO_ACK") f
    hello ← reading f.payload hello_fields
    set_shot sys (λ s. record s { hello = hello; hello_valid = true })
    log sys (
        codes "<- HELLO_ACK         session="
        ++ (decimal hello.session_id
            ++ (codes "  peer="
                ++ (hello.observed_peer ++ (codes "  server=" ++ hello.server_version)))))
