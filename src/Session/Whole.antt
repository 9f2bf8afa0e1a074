-- ===== src/Session/Whole.antt =====
-- A whole upload as it comes in, read after read: `process` and `on_read` of
-- 01.Sources/SERVER/src/net/TcpSession.cpp on the frames UPLOAD_BEGIN, UPLOAD_CHUNK and UPLOAD_END, cut anywhere.
use assignment_logger_analyz.Session.UploadFrames.{
  upload_chunks, end_frame_of, chunk_kind, end_kind,
}
use assignment_logger_analyz.Prelude.{
  ℕ, zero, suc, ◌+◌, ◌%◌, ◌^◌, ◌≤◌, ◌<◌, ◌≡◌, inl, inr, refl, sym, subst, ap, ◌∙◌, true,
  if◌then◌else◌, [], ◌∷◌, ◌++◌, append-nil, Bytes, length, length-append, arith,
}
use mathlib.Core.List.{cons≢nil}
use assignment_logger_analyz.Splitter.Segments.{segments, Short}
use assignment_logger_analyz.Splitter.Stream.{concat}
use assignment_logger_analyz.Decoder.{reset_frame}
use assignment_logger_analyz.Decoder.Bounds.{Valid, reset_frame-Valid}
use assignment_logger_analyz.Decoder.Ahead.{Frame, Ahead, Ahead-cut, Ahead-end, reset_frame-Between}
use assignment_logger_analyz.Session.Host.{Host}
use assignment_logger_analyz.Session.State.{uploading, is_closing, Session}
use assignment_logger_analyz.Session.Upload.{stream_payload}
use assignment_logger_analyz.Session.UploadEnd.{finish_upload}
use assignment_logger_analyz.Session.Dispatch.{decode, process_loop}
use assignment_logger_analyz.Session.Analysed.{Analysed, finish_upload-Analysed}
use assignment_logger_analyz.Session.Reading.{
  frame_or_less, fed_session, process_loop-cut, process_loop-frame,
}
use assignment_logger_analyz.Session.Frames.{finish_upload-Frame}
use assignment_logger_analyz.Session.Phases.{
  Chunking, Ending, Phase, chunking, ending, over, next_frame, fed_session-Taken, end_frame-chunk,
  end_frame-end,
}

append-nil_right : (x y : Bytes) → [] ≡ x ++ y → y ≡ []
append-nil_right [] y e = sym e
append-nil_right (c ∷ x) y e = absurd (cons≢nil (sym e))

module _ (h : Host) (ok : (w : h.World) (frame : Bytes) → (h.uv_write w frame).0 ≡ true)
    (max_line : ℕ) (name file : Bytes) (wide : length file < 2 ^ 64)
    (short : Short max_line (segments file)) where
  abbrev pub At : Session h → Bytes → Type 0
  At s z = Phase h ok max_line name file wide short s z

  abbrev InChunk : Session h → Bytes → Type 0
  InChunk s z = Chunking h ok max_line name file wide short s z

  here-Ahead :
      (s : Session h) (f : Frame) (chunk cur : Bytes)
      → s.state ≡ uploading
      → Ahead (stream_payload uploading) f cur chunk s.decoder
      → Ahead (stream_payload s.state) f cur chunk s.decoder
  here-Ahead s f chunk cur e a =
      subst (λ t. Ahead (stream_payload t) f cur chunk s.decoder) (sym e) a

  -- A read that ends within a chunk.
  within_chunk :
      (fuel : ℕ) (s : Session h) (c : ℕ) (a y z : Bytes) (k : InChunk s ((c ∷ a) ++ z))
      → k.cur ≡ (c ∷ a) ++ y
      → z ≡ y ++ (upload_chunks k.ps ++ end_frame_of (length file))
      → 0 < length y
      → At (process_loop h (suc fuel) s (c ∷ a)) z
  unfolding decode
  within_chunk fuel s c a y z k cut rest more =
      let state = k.taken.0 in
      let here = here-Ahead s chunk_kind k.chunk ((c ∷ a) ++ y) state (
        subst (λ t. Ahead (stream_payload uploading) chunk_kind t k.chunk s.decoder) cut k.ahead) in
      let (_, (later, split, left)) =
        Ahead-cut (stream_payload s.state) chunk_kind (c ∷ a) y k.chunk s.decoder here more in
      let (pieces', taken', d, whole') =
        fed_session-Taken h ok max_line name file wide short s (c ∷ a) k.pieces k.chunk later
          (concat k.ps) k.taken split k.whole in
      subst (λ t. At t z)
        (sym (process_loop-cut h fuel s chunk_kind k.chunk (ap is_closing state) c a y here more))
        (chunking (record {
          pieces = pieces';
          chunk = later;
          ps = k.ps;
          cur = y;
          taken = taken';
          ahead =
              subst (λ t. Ahead (stream_payload uploading) chunk_kind y later t) (sym d)
                (subst
                  (λ t. Ahead (stream_payload t) chunk_kind y later (decode h s (c ∷ a)).decoder)
                  state left);
          rest = rest;
          sized = k.sized;
          whole = whole';
        }))

  -- A read that has the rest of a chunk at its front, and what the loop does behind it.
  behind_chunk :
      (fuel : ℕ) (s : Session h) (a x z : Bytes) (k : InChunk s (a ++ z))
      → a ≡ k.cur ++ x
      → x ++ z ≡ upload_chunks k.ps ++ end_frame_of (length file)
      → ((s' : Session h) → At s' (x ++ z) → At (process_loop h fuel s' x) z)
      → At (process_loop h (suc fuel) s a) z
  unfolding decode
  behind_chunk fuel s a x z k front tail next =
      let state = k.taken.0 in
      let here = here-Ahead s chunk_kind k.chunk k.cur state k.ahead in
      let ((_, _, sunk, type, streaming, _), valid) =
        Ahead-end (stream_payload s.state) chunk_kind k.cur k.chunk x s.decoder here in
      let f = decode h s (k.cur ++ x) in
      let (pieces', taken', d, whole') =
        fed_session-Taken h ok max_line name file wide short s (k.cur ++ x) k.pieces k.chunk []
          (concat k.ps) k.taken (sym sunk ∙ sym (append-nil f.chunk)) k.whole in
      let t = fed_session h s (k.cur ++ x) in
      let t' = record t {
        rx_frames = (t.rx_frames + 1) % 2 ^ 64;
        decoder = reset_frame t.decoder;
      } in
      let v : Valid t.decoder = subst Valid (sym d) valid in
      let ended =
        end_frame-chunk h ok max_line name file wide short t taken'.0
          (ap (λ q. q.header.type) d ∙ type) (ap (λ q. q.streaming) d ∙ streaming) in
      let stands =
        next_frame h ok max_line name file wide short t' pieces' k.ps taken'
          (reset_frame-Between t.decoder v) (reset_frame-Valid t.decoder v) k.sized whole' in
      subst (λ q. At q z)
        (sym (
          ap (process_loop h (suc fuel) s) front
          ∙ process_loop-frame h fuel s chunk_kind k.chunk k.cur x (ap is_closing state) here
          ∙ ap (λ r. if r.0 then process_loop h fuel r.1 x else r.1) ended))
        (next t' (subst (At t') (sym tail) stands))

  abbrev InEnd : Session h → Bytes → Type 0
  InEnd s z = Ending h ok max_line name file wide short s z

  -- A read that ends within UPLOAD_END.
  within_end :
      (fuel : ℕ) (s : Session h) (c : ℕ) (a z : Bytes)
      → InEnd s ((c ∷ a) ++ z)
      → 0 < length z
      → At (process_loop h (suc fuel) s (c ∷ a)) z
  unfolding decode
  within_end fuel s c a z k more =
      let kind = end_kind (length file) in
      let state = k.taken.0 in
      let here = here-Ahead s kind [] ((c ∷ a) ++ z) state k.ahead in
      let (_, (later, split, left)) =
        Ahead-cut (stream_payload s.state) kind (c ∷ a) z [] s.decoder here more in
      let (pieces', taken', d, whole') =
        fed_session-Taken h ok max_line name file wide short s (c ∷ a) k.pieces [] later [] k.taken
          split (append-nil (concat k.pieces) ∙ k.whole) in
      let empty = append-nil_right (decode h s (c ∷ a)).chunk later split in
      subst (λ t. At t z)
        (sym (process_loop-cut h fuel s kind [] (ap is_closing state) c a z here more))
        (ending (record {
          pieces = pieces';
          taken = taken';
          ahead =
              subst (λ t. Ahead (stream_payload uploading) kind z [] t) (sym d)
                (subst (λ t. Ahead (stream_payload uploading) kind z t (decode h s (c ∷ a)).decoder)
                  empty
                  (subst (λ t. Ahead (stream_payload t) kind z later (decode h s (c ∷ a)).decoder)
                    state left));
          whole =
              sym (append-nil (concat pieces'))
              ∙ ap (λ t. concat pieces' ++ (t ++ [])) (sym empty)
              ∙ whole';
        }))

  pub process_loop-nil : (fuel : ℕ) (s : Session h) → process_loop h fuel s [] ≡ s
  unfolding process_loop
  process_loop-nil zero s = refl
  process_loop-nil (suc fuel) s = refl

  -- A read that ends with UPLOAD_END.
  behind_end :
      (fuel : ℕ) (s : Session h) (a : Bytes) → InEnd s a → At (process_loop h (suc fuel) s a) []
  unfolding decode
  behind_end fuel s a k =
      let kind = end_kind (length file) in
      let state = k.taken.0 in
      let here = here-Ahead s kind [] a state k.ahead in
      let ((_, _, sunk, type, streaming, payload), valid) =
        Ahead-end (stream_payload s.state) kind a [] [] s.decoder here in
      let f = decode h s (a ++ []) in
      let (pieces', taken', d, whole') =
        fed_session-Taken h ok max_line name file wide short s (a ++ []) k.pieces [] [] [] k.taken
          (sym sunk ∙ sym (append-nil f.chunk)) (append-nil (concat k.pieces) ∙ k.whole) in
      let t = fed_session h s (a ++ []) in
      let s' = record t { rx_frames = (t.rx_frames + 1) % 2 ^ 64 } in
      let (going, inited, declared, named, received, counted) = taken' in
      let all = sym (append-nil (concat pieces')) ∙ whole' in
      let ended =
        end_frame-end h ok max_line name file wide short t going (ap (λ q. q.header.type) d ∙ type)
          (ap (λ q. q.payload) d ∙ payload) declared (received ∙ ap length all) in
      let result =
        finish_upload-Analysed h ok s' name max_line pieces' (ap is_closing going) inited named
          received counted (subst (λ q. Short max_line (segments q)) (sym all) short) in
      let u = finish_upload h s' in
      let u' = record u { decoder = reset_frame u.decoder } in
      let kept = finish_upload-Frame h t.decoder s' (record {
        decoder = refl;
        within = λ _. omega (arith, declared, received, ap length all);
      }) in
      let v : Valid u.decoder = subst Valid (sym kept.decoder) (subst Valid (sym d) valid) in
      subst (λ q. At q [])
        (sym (
          ap (process_loop h (suc fuel) s) (sym (append-nil a))
          ∙ process_loop-frame h fuel s kind [] a [] (ap is_closing state) here
          ∙ ap (λ r. if r.0 then process_loop h fuel r.1 [] else r.1) ended
          ∙ process_loop-nil fuel u'))
        (over (subst (λ q. Analysed h name q u') all result) (reset_frame-Between u.decoder v)
          (reset_frame-Valid u.decoder v) refl)

  -- The loop over a read follows the upload.
  pub process_loop-At :
      (fuel : ℕ) (s : Session h) (a z : Bytes)
      → length a ≤ fuel
      → At s (a ++ z)
      → At (process_loop h fuel s a) z
  process_loop-At fuel s [] z l p = subst (λ t. At t z) (sym (process_loop-nil fuel s)) p
  process_loop-At zero s (c ∷ a) z l p = absurd (omega (arith, l))
  process_loop-At (suc fuel) s (c ∷ a) z l (chunking k) =
      elim (frame_or_less (c ∷ a) z k.cur (upload_chunks k.ps ++ end_frame_of (length file))
        k.rest) [
          | inl (y, cut, rest, more) ↦ within_chunk fuel s c a y z k cut rest more
          | inr (x, front, tail) ↦ behind_chunk fuel s (c ∷ a) x z k front tail (λ s'.
              process_loop-At fuel s' x z
                (omega (arith, l, ap length front, length-append k.cur x, k.ahead.more)))
        ]
  process_loop-At (suc fuel) s (c ∷ a) [] l (ending k) =
      behind_end fuel s (c ∷ a) (subst (InEnd s) (append-nil (c ∷ a)) k)
  process_loop-At (suc fuel) s (c ∷ a) (b ∷ z) l (ending k) =
      within_end fuel s c a (b ∷ z) k (omega arith)
  process_loop-At (suc fuel) s (c ∷ a) z l (over k b v e) = absurd (cons≢nil e)
