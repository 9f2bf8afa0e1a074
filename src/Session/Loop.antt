-- ===== src/Session/Loop.antt =====
-- The loop of `process` over what a read brings: it ends, and it keeps a session sane.
use assignment_logger_analyz.Prelude.{
  ℕ, zero, suc, ◌≤◌, ◌<◌, ◌≡◌, refl, sym, subst, ap, Bool, if-cases, [], ◌∷◌, Bytes, length, drop,
  length-drop, if◌then◌else◌, arith,
}
use assignment_logger_analyz.Protocol.{
  MsgType, hello, hello_ack, upload_begin, upload_begin_ack, upload_chunk, upload_end, upload_ack,
  analyze_progress, analyze_done, result_begin, result_chunk, result_end, cancel, error, bye,
  unnamed,
}
use assignment_logger_analyz.Decoder.{Status, need_more, failed, Fed, Decoder, reset_frame}
use assignment_logger_analyz.Decoder.Bounds.{Valid, feed-Valid, reset_frame-Valid}
use assignment_logger_analyz.Decoder.Progress.{Open, OutcomeAt, feed-progress, reset_frame-Open}
use assignment_logger_analyz.Session.Host.{Host}
use assignment_logger_analyz.Session.State.{
  State, await_hello, ready, uploading, closing, is_closing, Session,
}
use assignment_logger_analyz.Session.Upload.{stream_payload}
use assignment_logger_analyz.Session.Dispatch.{
  dispatch_hello, dispatch_idle, dispatch_upload, dispatch_in, dispatch_frame, decode, receive,
  fail_frame, end_frame, after_decode, process_loop, process,
}
use assignment_logger_analyz.Session.Frames.{
  Within, Frame, refuse-Frame, close-Frame, abort_upload-Frame, payload_chunk-Frame,
  handle_hello-Frame, send_error-Frame, handle_upload_begin-Frame, handle_upload_end-Frame,
}

module _ (h : Host) where
  module _ (d : Decoder) where
    dispatch_hello-Frame :
        (t : MsgType) (s : Session h) → Frame h d s → Frame h d (dispatch_hello h t s).1
    unfolding dispatch_hello
    dispatch_hello-Frame hello s f = handle_hello-Frame h d s f
    dispatch_hello-Frame hello_ack s f = refuse-Frame h d s _ _ f
    dispatch_hello-Frame upload_begin s f = refuse-Frame h d s _ _ f
    dispatch_hello-Frame upload_begin_ack s f = refuse-Frame h d s _ _ f
    dispatch_hello-Frame upload_chunk s f = refuse-Frame h d s _ _ f
    dispatch_hello-Frame upload_end s f = refuse-Frame h d s _ _ f
    dispatch_hello-Frame upload_ack s f = refuse-Frame h d s _ _ f
    dispatch_hello-Frame analyze_progress s f = refuse-Frame h d s _ _ f
    dispatch_hello-Frame analyze_done s f = refuse-Frame h d s _ _ f
    dispatch_hello-Frame result_begin s f = refuse-Frame h d s _ _ f
    dispatch_hello-Frame result_chunk s f = refuse-Frame h d s _ _ f
    dispatch_hello-Frame result_end s f = refuse-Frame h d s _ _ f
    dispatch_hello-Frame cancel s f = refuse-Frame h d s _ _ f
    dispatch_hello-Frame error s f = refuse-Frame h d s _ _ f
    dispatch_hello-Frame bye s f = refuse-Frame h d s _ _ f
    dispatch_hello-Frame (unnamed n) s f = refuse-Frame h d s _ _ f

    dispatch_idle-Frame :
        (t : MsgType) (s : Session h) → Frame h d s → Frame h d (dispatch_idle h t s).1
    unfolding dispatch_idle
    dispatch_idle-Frame bye s f = close-Frame h d s f
    dispatch_idle-Frame upload_begin s f = handle_upload_begin-Frame h d s f
    dispatch_idle-Frame cancel s f = f
    dispatch_idle-Frame hello s f = send_error-Frame h d s _ _ f
    dispatch_idle-Frame hello_ack s f = send_error-Frame h d s _ _ f
    dispatch_idle-Frame upload_begin_ack s f = send_error-Frame h d s _ _ f
    dispatch_idle-Frame upload_chunk s f = send_error-Frame h d s _ _ f
    dispatch_idle-Frame upload_end s f = send_error-Frame h d s _ _ f
    dispatch_idle-Frame upload_ack s f = send_error-Frame h d s _ _ f
    dispatch_idle-Frame analyze_progress s f = send_error-Frame h d s _ _ f
    dispatch_idle-Frame analyze_done s f = send_error-Frame h d s _ _ f
    dispatch_idle-Frame result_begin s f = send_error-Frame h d s _ _ f
    dispatch_idle-Frame result_chunk s f = send_error-Frame h d s _ _ f
    dispatch_idle-Frame result_end s f = send_error-Frame h d s _ _ f
    dispatch_idle-Frame error s f = send_error-Frame h d s _ _ f
    dispatch_idle-Frame (unnamed n) s f = send_error-Frame h d s _ _ f

    dispatch_upload-Frame :
        (t : MsgType) (s : Session h) → Frame h d s → Frame h d (dispatch_upload h t s).1
    unfolding dispatch_upload
    dispatch_upload-Frame upload_chunk s f =
        if-cases (λ (r : Bool × Session h). Frame h d r.1) s.decoder.streaming (λ _. f)
          (λ _. abort_upload-Frame h d s _ _ f.decoder)
    dispatch_upload-Frame upload_end s f = handle_upload_end-Frame h d s f
    dispatch_upload-Frame cancel s f = abort_upload-Frame h d s _ _ f.decoder
    dispatch_upload-Frame hello s f = abort_upload-Frame h d s _ _ f.decoder
    dispatch_upload-Frame hello_ack s f = abort_upload-Frame h d s _ _ f.decoder
    dispatch_upload-Frame upload_begin s f = abort_upload-Frame h d s _ _ f.decoder
    dispatch_upload-Frame upload_begin_ack s f = abort_upload-Frame h d s _ _ f.decoder
    dispatch_upload-Frame upload_ack s f = abort_upload-Frame h d s _ _ f.decoder
    dispatch_upload-Frame analyze_progress s f = abort_upload-Frame h d s _ _ f.decoder
    dispatch_upload-Frame analyze_done s f = abort_upload-Frame h d s _ _ f.decoder
    dispatch_upload-Frame result_begin s f = abort_upload-Frame h d s _ _ f.decoder
    dispatch_upload-Frame result_chunk s f = abort_upload-Frame h d s _ _ f.decoder
    dispatch_upload-Frame result_end s f = abort_upload-Frame h d s _ _ f.decoder
    dispatch_upload-Frame error s f = abort_upload-Frame h d s _ _ f.decoder
    dispatch_upload-Frame bye s f = abort_upload-Frame h d s _ _ f.decoder
    dispatch_upload-Frame (unnamed n) s f = abort_upload-Frame h d s _ _ f.decoder

    dispatch_in-Frame : (t : State) (s : Session h) → Frame h d s → Frame h d (dispatch_in h t s).1
    unfolding dispatch_in
    dispatch_in-Frame await_hello s f = dispatch_hello-Frame s.decoder.header.type s f
    dispatch_in-Frame ready s f = dispatch_idle-Frame s.decoder.header.type s f
    dispatch_in-Frame uploading s f = dispatch_upload-Frame s.decoder.header.type s f
    dispatch_in-Frame closing s f = f

    dispatch_frame-Frame : (s : Session h) → Frame h d s → Frame h d (dispatch_frame h s).1
    unfolding dispatch_frame
    dispatch_frame-Frame s f = dispatch_in-Frame s.state s f

    receive-Frame : (s : Session h) (x : Bytes) → Frame h d s → Frame h d (receive h s x)
    unfolding receive
    receive-Frame s [] f = f
    receive-Frame s (c ∷ x) f = payload_chunk-Frame h d s (c ∷ x) f

    end_frame-Within : (s : Session h) → Frame h d s → Frame h (reset_frame d) (end_frame h s).1
    unfolding end_frame
    end_frame-Within s f =
        let g = dispatch_frame-Frame _ (record { decoder = f.decoder; within = f.within }) in
        record { decoder = ap reset_frame g.decoder; within = g.within }

  -- The decoder is one that the loop can go on with, and the bytes are within the declared size.
  pub record Sane (s : Session h) : Type 0 where
    pub open_decoder : Open s.decoder
    pub valid : Valid s.decoder
    pub within : Within h s

  sane : (d : Decoder) (s : Session h) → Open d → Valid d → Frame h d s → Sane s
  sane d s o v f = record {
    open_decoder = subst Open (sym f.decoder) o;
    valid = subst Valid (sym f.decoder) v;
    within = f.within;
  }

  fail_frame-Sane : (s : Session h) → Sane s → Sane (fail_frame h s)
  unfolding fail_frame
  fail_frame-Sane s k =
      sane s.decoder _ k.open_decoder k.valid
        (refuse-Frame h s.decoder s _ _ (record { decoder = refl; within = k.within }))

  end_frame-Sane : (s : Session h) → Valid s.decoder → Within h s → Sane (end_frame h s).1
  end_frame-Sane s v w =
      sane (reset_frame s.decoder) _ (reset_frame-Open s.decoder) (reset_frame-Valid s.decoder v)
        (end_frame-Within s.decoder s (record { decoder = refl; within = w }))

  -- The session that one call of the decoder leaves, and the decoder's outcome.
  module _ (s : Session h) (c : ℕ) (p : Bytes) (k : Sane s) where
    abbrev fed_decoder : Decoder
    fed_decoder = (decode h s (c ∷ p)).decoder

    abbrev received : Session h
    received = receive h (record s { decoder = fed_decoder }) (decode h s (c ∷ p)).chunk

    received-Frame : Frame h fed_decoder received
    received-Frame = receive-Frame fed_decoder _ _ (record { decoder = refl; within = k.within })

    fed-Valid : Valid fed_decoder
    unfolding decode
    fed-Valid = feed-Valid (stream_payload s.state) s.decoder (c ∷ p) k.valid

    outcome : OutcomeAt (decode h s (c ∷ p)).status (decode h s (c ∷ p))
    unfolding decode
    outcome = feed-progress (stream_payload s.state) s.decoder c p k.open_decoder k.valid

  abbrev OpenAt : Status → Decoder → Type 0
  OpenAt need_more d = Open d
  OpenAt failed d = Open d
  OpenAt Status.ready d = d ≡ d

  OutcomeAt-OpenAt : (st : Status) (f : Fed) → OutcomeAt st f → OpenAt st f.decoder
  OutcomeAt-OpenAt need_more f o = o
  OutcomeAt-OpenAt failed f o = o
  OutcomeAt-OpenAt Status.ready f o = refl

  after_decode-Sane :
      (next : Session h → Session h) (st : Status) (s : Session h)
      → ((s' : Session h) → Sane s' → Sane (next s'))
      → Valid s.decoder
      → Within h s
      → OpenAt st s.decoder
      → Sane (after_decode h next st s)
  unfolding after_decode
  after_decode-Sane next need_more s n v w o = record { open_decoder = o; valid = v; within = w }
  after_decode-Sane next failed s n v w o =
      fail_frame-Sane s (record { open_decoder = o; valid = v; within = w })
  after_decode-Sane next Status.ready s n v w o =
      if-cases Sane (end_frame h s).0 (λ _. n _ (end_frame-Sane s v w)) (λ _. end_frame-Sane s v w)

  process_loop-Sane :
      (fuel : ℕ) (s : Session h) (x : Bytes) → Sane s → Sane (process_loop h fuel s x)
  unfolding process_loop
  process_loop-Sane zero s [] k = k
  process_loop-Sane (suc fuel) s [] k = k
  process_loop-Sane zero s (c ∷ p) k = k
  process_loop-Sane (suc fuel) s (c ∷ p) k =
      if-cases Sane (is_closing s.state) (λ _. k)
        (λ _.
          after_decode-Sane _ f.status _
            (λ s' k'. process_loop-Sane fuel s' (drop f.consumed (c ∷ p)) k')
            (subst Valid (sym g.decoder) (fed-Valid s c p k)) g.within
            (subst (OpenAt f.status) (sym g.decoder)
              (OutcomeAt-OpenAt f.status f (outcome s c p k))))
    where
      f : Fed
      f = decode h s (c ∷ p)

      g : Frame h (fed_decoder s c p k) (received s c p k)
      g = received-Frame s c p k

  -- With the fuel that it is given, the loop keeps a session sane.
  pub process-Sane : (s : Session h) (x : Bytes) → Sane s → Sane (process h s x)
  unfolding process
  process-Sane s x k = process_loop-Sane (length x) s x k

  after_decode-same :
      (next next' : Session h → Session h) (st : Status) (s : Session h)
      → (st ≡ Status.ready → next (end_frame h s).1 ≡ next' (end_frame h s).1)
      → after_decode h next st s ≡ after_decode h next' st s
  unfolding after_decode
  after_decode-same next next' need_more s e = refl
  after_decode-same next next' failed s e = refl
  after_decode-same next next' Status.ready s e =
      ap (λ t. if (end_frame h s).0 then t else (end_frame h s).1) (e refl)

  -- Two amounts of fuel that are no less than the number of bytes give the same.
  process_loop-enough :
      (n m : ℕ) (s : Session h) (x : Bytes)
      → Sane s
      → length x ≤ n
      → length x ≤ m
      → process_loop h n s x ≡ process_loop h m s x
  unfolding process_loop
  process_loop-enough zero zero s x k l l' = refl
  process_loop-enough zero (suc m) s [] k l l' = refl
  process_loop-enough (suc n) zero s [] k l l' = refl
  process_loop-enough (suc n) (suc m) s [] k l l' = refl
  process_loop-enough zero (suc m) s (c ∷ p) k l l' = absurd (omega arith)
  process_loop-enough (suc n) zero s (c ∷ p) k l l' = absurd (omega arith)
  process_loop-enough (suc n) (suc m) s (c ∷ p) k l l' =
      ap (λ t. if is_closing s.state then s else t)
        (after_decode-same (loop n) (loop m) f.status (received s c p k) (λ e.
          process_loop-enough n m _ (drop f.consumed (c ∷ p)) (next_Sane e) (shorter e n l)
            (shorter e m l')))
    where
      f : Fed
      f = decode h s (c ∷ p)

      g : Frame h (fed_decoder s c p k) (received s c p k)
      g = received-Frame s c p k

      loop : ℕ → Session h → Session h
      loop fuel s' = process_loop h fuel s' (drop f.consumed (c ∷ p))

      next_Sane : f.status ≡ Status.ready → Sane (end_frame h (received s c p k)).1
      next_Sane e = end_frame-Sane _ (subst Valid (sym g.decoder) (fed-Valid s c p k)) g.within

      shorter :
          f.status ≡ Status.ready
          → (fuel : ℕ) → length (c ∷ p) ≤ suc fuel
          → length (drop f.consumed (c ∷ p)) ≤ fuel
      shorter e fuel l =
          let used : 0 < f.consumed = subst (λ t. OutcomeAt t f) e (outcome s c p k) in
          omega (arith, used, l, length-drop f.consumed (c ∷ p))

  -- On a sane session the loop over a read needs no more passes than the read has bytes: more fuel
  -- changes nothing.
  pub process-enough :
      (fuel : ℕ) (s : Session h) (x : Bytes)
      → Sane s
      → length x ≤ fuel
      → process_loop h fuel s x ≡ process h s x
  unfolding process
  process-enough fuel s x k l = process_loop-enough fuel (length x) s x k l (omega arith)
