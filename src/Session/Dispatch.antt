-- ===== src/Session/Dispatch.antt =====
-- Frames to handlers: `process`, `dispatch_frame` and `on_read` of
-- 01.Sources/SERVER/src/net/TcpSession.cpp.
use assignment_logger_analyz.Prelude.{
  ℕ, zero, suc, ◌+◌, ◌%◌, ◌^◌, if◌then◌else◌, Bool, true, false, [], ◌∷◌, ◌++◌, Bytes, codes,
  length, drop,
}
use assignment_logger_analyz.Protocol.{
  MsgType, hello, upload_begin, upload_chunk, upload_end, cancel, bye, unexpected_type,
  payload_too_large, cancelled, error_text, msg_name,
}
use assignment_logger_analyz.Decoder.{Status, need_more, failed, Fed, reset_frame}
use assignment_logger_analyz.Decoder
use assignment_logger_analyz.Session.Host.{Host}
use assignment_logger_analyz.Session.State.{
  State, await_hello, ready, uploading, closing, is_closing, Session,
}
use assignment_logger_analyz.Session.Outbox.{send_error, refuse, close}
use assignment_logger_analyz.Session.Upload.{
  abort_upload, payload_chunk, stream_payload, handle_hello, handle_upload_begin,
}
use assignment_logger_analyz.Session.UploadEnd.{handle_upload_end}

module _ (h : Host) where
  unfoldable pub dispatch_hello : MsgType → Session h → Bool × Session h
  dispatch_hello hello s = handle_hello h s
  dispatch_hello type s =
      (false, refuse h s unexpected_type (codes "expected HELLO as the first frame"))

  unfoldable pub dispatch_idle : MsgType → Session h → Bool × Session h
  dispatch_idle bye s = (false, close h s)
  dispatch_idle upload_begin s = handle_upload_begin h s
  dispatch_idle cancel s = (true, s)
  dispatch_idle type s = (
    true,
    send_error h s unexpected_type
        (codes "unexpected message while idle: " ++ codes (msg_name type)),
  )

  unfoldable pub dispatch_upload : MsgType → Session h → Bool × Session h
  dispatch_upload upload_chunk s = if s.decoder.streaming then (true, s) else (
    false,
    abort_upload h s payload_too_large (codes "upload chunk exceeds the negotiated maximum"),
  )
  dispatch_upload upload_end s = handle_upload_end h s
  dispatch_upload cancel s = (true, abort_upload h s cancelled (codes "cancelled by client"))
  dispatch_upload type s = (
    false,
    abort_upload h s unexpected_type
        (codes "unexpected message during upload: " ++ codes (msg_name type)),
  )

  unfoldable pub dispatch_in : State → Session h → Bool × Session h
  unfolding dispatch_hello dispatch_idle dispatch_upload
  dispatch_in await_hello s = dispatch_hello s.decoder.header.type s
  dispatch_in ready s = dispatch_idle s.decoder.header.type s
  dispatch_in uploading s = dispatch_upload s.decoder.header.type s
  dispatch_in closing s = (false, s)

  unfoldable pub dispatch_frame : Session h → Bool × Session h
  unfolding dispatch_in
  dispatch_frame s = dispatch_in s.state s

  -- One call of the decoder, and the piece of payload that it hands to the session.
  unfoldable pub decode : Session h → Bytes → Fed
  decode s input = Decoder.feed (stream_payload s.state) s.decoder input

  unfoldable pub receive : Session h → Bytes → Session h
  receive s [] = s
  receive s (c ∷ chunk) = payload_chunk h s (c ∷ chunk)

  unfoldable pub fail_frame : Session h → Session h
  fail_frame s = refuse h s s.decoder.error (codes (error_text s.decoder.error))

  -- A complete frame, dispatched, and the decoder made ready for the next.
  unfoldable pub end_frame : Session h → Bool × Session h
  unfolding dispatch_frame
  end_frame s =
      let (keep_going, s') = dispatch_frame (record s { rx_frames = (s.rx_frames + 1) % 2 ^ 64 }) in
      (keep_going, record s' { decoder = reset_frame s'.decoder })

  -- What follows a call of the decoder; `next` is the loop behind it.
  unfoldable pub after_decode : (Session h → Session h) → Status → Session h → Session h
  unfolding fail_frame end_frame
  after_decode next need_more s = s
  after_decode next failed s = fail_frame s
  after_decode next Status.ready s =
      let (keep_going, s') = end_frame s in if keep_going then next s' else s'

  -- The loop of `process` over the bytes from `data + off` on, with fuel.
  unfoldable pub process_loop : ℕ → Session h → Bytes → Session h
  unfolding decode receive after_decode
  process_loop fuel s [] = s
  process_loop zero s (c ∷ input) = s
  process_loop (suc fuel) s (c ∷ input) =
      let f = decode s (c ∷ input) in
      let s' = receive (record s { decoder = f.decoder }) f.chunk in
      if is_closing s.state
      then s
      else after_decode (λ s''. process_loop fuel s'' (drop f.consumed (c ∷ input))) f.status s'

  -- A pass that goes on consumes at least one byte.
  unfoldable pub process : Session h → Bytes → Session h
  unfolding process_loop
  process s input = process_loop (length input) s input
