-- ===== src/Client/Stable/Frames.antt =====
-- The same for the frames, the cancellation and the reads of payloads.
use assignment_logger_analyz.Prelude.{ℕ, zero, suc, ltb, [], ◌∷◌, Bytes}
use assignment_logger_analyz.Protocol.{MsgType, FrameHeader, decode_header, header_size}
use assignment_logger_analyz.Client.Actions.{Action}
use assignment_logger_analyz.Client.Logic.{
  Keeps, bind-Keeps, on_failure-Keeps, pure-Keeps, raise_if-Keeps, out_of_passes-Keeps, if-Keeps,
}
use assignment_logger_analyz.Client.System.{System}
use assignment_logger_analyz.Client.State.{Client}
use assignment_logger_analyz.Client.Socket.{Flag, cancel_flag, never_cancel}
use assignment_logger_analyz.Client.Texts.{Fields, reading}
use assignment_logger_analyz.Client.Frames.{
  Frame, same_type, send_body, send_frame, send_empty_frame_never_cancel, read_body, after_header,
  read_frame,
}
use assignment_logger_analyz.Client.Handshake.{expect}
use assignment_logger_analyz.Client.Cancel.{
  after_cancel_header, cancel_pass, cancel_loop, send_cancel_and_wait,
}
use assignment_logger_analyz.Client.Stable.{
  Stable, ask-Keeps, log-Keeps, send_all-Keeps, recv_exactly-Keeps,
}

module _ (sys : System) (I : Client sys → Type 0) (st : Stable sys I) where
  send_body-Keeps : (x : Bytes) → Keeps I (send_body sys x)
  send_body-Keeps [] = pure-Keeps I tt
  send_body-Keeps (b ∷ bs) = send_all-Keeps sys I st _ _ _

  pub send_frame-Keeps : (t : MsgType) (x : Bytes) → Keeps I (send_frame sys t x)
  unfolding send_frame
  send_frame-Keeps t x = bind-Keeps I _ _ (send_all-Keeps sys I st _ _ _) (λ _. send_body-Keeps x)

  pub send_empty-Keeps : (t : MsgType) → Keeps I (send_empty_frame_never_cancel sys t)
  unfolding send_empty_frame_never_cancel
  send_empty-Keeps t = send_all-Keeps sys I st _ _ _

  pub read_body-Keeps : (len stall : ℕ) (flag : Flag) → Keeps I (read_body sys len stall flag)
  unfolding read_body
  read_body-Keeps len stall flag =
      if-Keeps I (ltb 0 len) _ _ (recv_exactly-Keeps sys I st len stall flag) (pure-Keeps I [])

  after_header-Keeps : (stall : ℕ) (h : FrameHeader) → Keeps I (after_header sys stall h)
  unfolding after_header
  after_header-Keeps stall h = bind-Keeps I _ _ (raise_if-Keeps I _ _) (λ _.
      bind-Keeps I _ _ (raise_if-Keeps I _ _) (λ _. bind-Keeps I _ _ (raise_if-Keeps I _ _) (λ _.
        bind-Keeps I _ _ (read_body-Keeps h.payload_len stall cancel_flag) (λ _. pure-Keeps I _))))

  pub read_frame-Keeps : (stall : ℕ) → Keeps I (read_frame sys stall)
  unfolding read_frame
  read_frame-Keeps stall =
      bind-Keeps I _ _ (recv_exactly-Keeps sys I st header_size stall cancel_flag)
        (λ head. after_header-Keeps stall (decode_header head))

  pub expect-Keeps : (t : MsgType) (x : Bytes) (f : Frame) → Keeps I (expect sys t x f)
  unfolding expect
  expect-Keeps t x f = bind-Keeps I _ _ (raise_if-Keeps I _ _) (λ _. raise_if-Keeps I _ _)

  pub reading-Keeps : {A : Type 0} (x : Bytes) (m : Fields A) → Keeps I (reading x m)
  unfolding reading
  reading-Keeps x m = record { keep = λ c i. i }

  after_cancel_header-Keeps :
      (next : Action (Client sys) (Unit {0})) (h : FrameHeader)
      → Keeps I next
      → Keeps I (after_cancel_header sys next h)
  unfolding after_cancel_header
  after_cancel_header-Keeps next h k = bind-Keeps I _ _ (raise_if-Keeps I _ _) (λ _.
      bind-Keeps I _ _ (read_body-Keeps h.payload_len 5000 never_cancel)
        (λ payload. if-Keeps I (same_type h.type MsgType.error) _ _ (log-Keeps sys I st _) k))

  cancel_loop-Keeps : (n deadline : ℕ) → Keeps I (cancel_loop sys n deadline)
  unfolding cancel_loop cancel_pass
  cancel_loop-Keeps zero deadline = out_of_passes-Keeps I
  cancel_loop-Keeps (suc n) deadline = bind-Keeps I _ _ (ask-Keeps sys I st sys.now_ms) (λ now.
      if-Keeps I (ltb now deadline) _ _
        (bind-Keeps I _ _ (ask-Keeps sys I st sys.now_ms) (λ now.
          bind-Keeps I _ _ (recv_exactly-Keeps sys I st header_size _ never_cancel) (λ head.
            after_cancel_header-Keeps (cancel_loop sys n deadline) (decode_header head)
              (cancel_loop-Keeps n deadline))))
        (pure-Keeps I tt))

  pub send_cancel_and_wait-Keeps : Keeps I (send_cancel_and_wait sys)
  unfolding send_cancel_and_wait
  send_cancel_and_wait-Keeps =
      on_failure-Keeps I _ _
        (bind-Keeps I _ _ (send_empty-Keeps MsgType.cancel) (λ _.
          bind-Keeps I _ _ (log-Keeps sys I st _) (λ _.
            bind-Keeps I _ _ (ask-Keeps sys I st sys.now_ms)
              (λ now. cancel_loop-Keeps sys.passes _))))
        (λ _. pure-Keeps I tt)
