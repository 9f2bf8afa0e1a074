-- ===== src/Session/Uploads.antt =====
-- Uploads from UPLOAD_BEGIN on: `on_read` of 01.Sources/SERVER/src/net/TcpSession.cpp on the reads that bring one.
use assignment_logger_analyz.Prelude.{
  ℕ, suc, ◌+◌, ◌%◌, ◌^◌, ◌≤◌, ◌<◌, ◌≡◌, refl, sym, subst, ap, ◌∙◌, Bool, true, false, ◌==◌,
  if◌then◌else◌, List, [], ◌∷◌, ◌++◌, Bytes, codes, length, arith,
}
use mathlib.Core.List.{cons≢nil}
use assignment_logger_analyz.Protocol.{upload_begin, upload_begin_ack, size_mismatch}
use assignment_logger_analyz.Splitter
use assignment_logger_analyz.Splitter.Segments.{segments, Short}
use assignment_logger_analyz.Splitter.Stream.{concat, feed_all}
use assignment_logger_analyz.Aggregator
use assignment_logger_analyz.Decoder.{reset_frame}
use assignment_logger_analyz.Decoder.Bounds.{Valid, reset_frame-Valid}
use assignment_logger_analyz.Decoder.Frames.{Between}
use assignment_logger_analyz.Decoder.Ahead.{Frame, Ahead, Ahead-cut, Ahead-end, reset_frame-Between}
use assignment_logger_analyz.Session.Host.{Host}
use assignment_logger_analyz.Session.State.{ready, is_closing, Session}
use assignment_logger_analyz.Session.Outbox.{send, send_error}
use assignment_logger_analyz.Session.Upload.{
  stream_payload, begin_upload, begin_payload, handle_upload_begin, after_upload_begin,
  read_upload_begin,
}
use assignment_logger_analyz.Session.Dispatch.{
  decode, receive, end_frame, dispatch_frame, dispatch_in, dispatch_idle, process_loop,
}
use assignment_logger_analyz.Session.Intake.{place, intake, tally, send-Kept}
use assignment_logger_analyz.Session.Reading.{process_loop-cut, process_loop-frame, Taken}
use assignment_logger_analyz.Session.Phases.{origin, Phase, next_frame, close}
use assignment_logger_analyz.Session.Whole.{process_loop-At}
use assignment_logger_analyz.Session.UploadFrames.{
  upload_chunks, end_frame_of, Sized, begin_payload_of, read_upload_begin-name, begin_kind,
}

append-nil_both : (x y : Bytes) → [] ≡ x ++ y → (x ≡ []) × (y ≡ [])
append-nil_both [] y e = (refl, sym e)
append-nil_both (c ∷ x) y e = absurd (cons≢nil (sym e))

module _ (h : Host) (ok : (w : h.World) (frame : Bytes) → (h.uv_write w frame).0 ≡ true) where
  module _ (max_line : ℕ) (name file : Bytes) (wide : length file < 2 ^ 64)
      (short : Short max_line (segments file)) where
    -- UPLOAD_BEGIN begins the upload with nothing received.
    end_frame-begin :
        (s : Session h)
        → s.state ≡ ready
        → s.handles_inited ≡ true
        → s.splitter.max_line ≡ max_line
        → s.decoder.header.type ≡ upload_begin
        → s.decoder.payload ≡ begin_payload_of (length file) name
        → 0 < length file
        → length name < 2 ^ 16
        → let (keep_going, s') = end_frame h s in
          (keep_going ≡ true)
          × Taken h (origin h ok max_line name file wide short) name (length file) [] s'
          × (s'.decoder ≡ reset_frame s.decoder)
    unfolding end_frame dispatch_frame dispatch_in dispatch_idle handle_upload_begin
        after_upload_begin begin_upload Splitter.reset Aggregator.reset feed_all tally
    end_frame-begin s state inited limit type payload more short_name =
        let ((state1, inited1, declared1, named1, decoder1, _), received1, counted1) =
          send-Kept h ok s1 upload_begin_ack (begin_payload h s1) in
        subst Begun (sym begins) (
          refl,
          (state1, inited1 ∙ inited, declared1, named1, received1, counted1 ∙ empty),
          ap reset_frame decoder1,
        )
      where
        Begun : Bool × Session h → Type 0
        Begun (keep_going, s') =
            (keep_going ≡ true)
            × Taken h (origin h ok max_line name file wide short) name (length file) [] s'
            × (s'.decoder ≡ reset_frame s.decoder)

        s' : Session h
        s' = record s { rx_frames = (s.rx_frames + 1) % 2 ^ 64 }

        s1 : Session h
        s1 = begin_upload h s' (length file) name

        refused : Bool × Session h
        refused =
            (true, send_error h s' size_mismatch (codes "upload size must be greater than zero"))

        nonzero : (length file == 0) ≡ false
        nonzero = ground (arith, more)

        begins : end_frame h s ≡ close h (true, send h s1 upload_begin_ack (begin_payload h s1))
        begins =
            ap (λ t. close h (dispatch_in h t s')) state
            ∙ ap (λ t. close h (dispatch_idle h t s')) type
            ∙ ap (λ t. close h (after_upload_begin h s' t))
                (ap read_upload_begin payload
                  ∙ read_upload_begin-name (length file) name wide short_name)
            ∙ ap
                (λ t.
                  close h (
                    if t then refused else (true, send h s1 upload_begin_ack (begin_payload h s1))))
                nonzero

        empty : place h s1 ≡ intake h.doubles (origin h ok max_line name file wide short) []
        empty = ap (λ m. (Splitter.new_splitter m, (Aggregator.new_aggregator h.doubles, 0))) limit

    abbrev pub At : Session h → Bytes → Type 0
    At s z = Phase h ok max_line name file wide short s z

    -- Within UPLOAD_BEGIN, with the frames behind it.
    pub record Beginning (s : Session h) (z : Bytes) : Type 0 where
      pub ps : List Bytes
      pub cur : Bytes
      pub state : s.state ≡ ready
      pub inited : s.handles_inited ≡ true
      pub limit : s.splitter.max_line ≡ max_line
      pub ahead : Ahead (stream_payload ready) (begin_kind (length file) name) cur [] s.decoder
      pub rest : z ≡ cur ++ (upload_chunks ps ++ end_frame_of (length file))
      pub sized : Sized ps
      pub whole : concat ps ≡ file

    pub data Stage (s : Session h) (z : Bytes) : Type 0 where
      beginning : Beginning s z → Stage s z
      under_way : At s z → Stage s z

    receive-nil : (s : Session h) (x : Bytes) → x ≡ [] → receive h s x ≡ s
    unfolding receive
    receive-nil s [] e = refl
    receive-nil s (c ∷ x) e = absurd (cons≢nil e)

    idle-Ahead :
        (s : Session h) (f : Frame) (cur : Bytes)
        → s.state ≡ ready
        → Ahead (stream_payload ready) f cur [] s.decoder
        → Ahead (stream_payload s.state) f cur [] s.decoder
    idle-Ahead s f cur e a = subst (λ t. Ahead (stream_payload t) f cur [] s.decoder) (sym e) a

    pub within_begin :
        (fuel : ℕ) (s : Session h) (c : ℕ) (a y z : Bytes) (k : Beginning s ((c ∷ a) ++ z))
        → k.cur ≡ (c ∷ a) ++ y
        → z ≡ y ++ (upload_chunks k.ps ++ end_frame_of (length file))
        → 0 < length y
        → Stage (process_loop h (suc fuel) s (c ∷ a)) z
    unfolding decode
    within_begin fuel s c a y z k cut rest more =
        let kind = begin_kind (length file) name in
        let here =
          idle-Ahead s kind ((c ∷ a) ++ y) k.state
            (subst (λ t. Ahead (stream_payload ready) kind t [] s.decoder) cut k.ahead) in
        let (_, (later, split, left)) =
          Ahead-cut (stream_payload s.state) kind (c ∷ a) y [] s.decoder here more in
        let f = decode h s (c ∷ a) in
        let (none_sunk, none_later) = append-nil_both f.chunk later split in
        subst (λ t. Stage t z)
          (sym (
            process_loop-cut h fuel s kind [] (ap is_closing k.state) c a y here more
            ∙ receive-nil (record s { decoder = f.decoder }) f.chunk none_sunk))
          (beginning (record {
            ps = k.ps;
            cur = y;
            state = k.state;
            inited = k.inited;
            limit = k.limit;
            ahead =
                subst (λ t. Ahead (stream_payload ready) kind y t f.decoder) none_later
                  (subst (λ t. Ahead (stream_payload t) kind y later f.decoder) k.state left);
            rest = rest;
            sized = k.sized;
            whole = k.whole;
          }))

    pub behind_begin :
        (fuel : ℕ) (s : Session h) (a x z : Bytes) (k : Beginning s (a ++ z))
        → a ≡ k.cur ++ x
        → x ++ z ≡ upload_chunks k.ps ++ end_frame_of (length file)
        → length x ≤ fuel
        → 0 < length file
        → length name < 2 ^ 16
        → At (process_loop h (suc fuel) s a) z
    unfolding decode
    behind_begin fuel s a x z k front tail enough more short_name =
        let kind = begin_kind (length file) name in
        let here = idle-Ahead s kind k.cur k.state k.ahead in
        let ((_, _, sunk, type, _, payload), valid) =
          Ahead-end (stream_payload s.state) kind k.cur [] x s.decoder here in
        let f = decode h s (k.cur ++ x) in
        let t = record s { decoder = f.decoder } in
        let (goes, taken, d) =
          end_frame-begin t k.state k.inited k.limit type payload more short_name in
        let t' = (end_frame h t).1 in
        let stands =
          next_frame h ok max_line name file wide short t' [] k.ps taken
            (subst Between (sym d) (reset_frame-Between f.decoder valid))
            (subst Valid (sym d) (reset_frame-Valid f.decoder valid)) k.sized k.whole in
        subst (λ q. At q z)
          (sym (
            ap (process_loop h (suc fuel) s) front
            ∙ process_loop-frame h fuel s kind [] k.cur x (ap is_closing k.state) here
            ∙ ap (λ q. let r = end_frame h q in if r.0 then process_loop h fuel r.1 x else r.1)
                (receive-nil t f.chunk sunk)
            ∙ ap (λ b. if b then process_loop h fuel t' x else t') goes))
          (process_loop-At h ok max_line name file wide short fuel t' x z enough
            (subst (At t') (sym tail) stands))
