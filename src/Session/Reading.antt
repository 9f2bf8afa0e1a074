-- ===== src/Session/Reading.antt =====
-- An upload as it comes in: what the passes of `process`, 01.Sources/SERVER/src/net/TcpSession.cpp, do to a
-- session that has the rest of a frame ahead, and the chunks of an upload, read after read.
use assignment_logger_analyz.Prelude.{
  ℕ, suc, ◌+◌, ◌^◌, ◌≤◌, ◌<◌, ◌≡◌, ◌⊎◌, inl, inr, refl, sym, ap, ◌∙◌, true, false, if◌then◌else◌,
  List, [], ◌∷◌, ◌++◌, append-nil, Bytes, length, drop, length-append, drop-append_length, arith,
}
use mathlib.Core.List.{head-eq_of_cons-eq, tail-eq_of_cons-eq}
use assignment_logger_analyz.Splitter.Stream.{concat}
use assignment_logger_analyz.Decoder.Ahead.{Frame, Ahead, Ahead-cut, Ahead-end}
use assignment_logger_analyz.Session.Host.{Host}
use assignment_logger_analyz.Session.State.{uploading, is_closing, Session}
use assignment_logger_analyz.Session.Upload.{stream_payload, payload_chunk}
use assignment_logger_analyz.Session.Dispatch.{
  decode, receive, end_frame, after_decode, process_loop,
}
use assignment_logger_analyz.Session.Intake.{
  Place, place, intake, intake-append, concat-append, payload_chunk-Took,
}

-- A read against the rest of a frame: it ends within the frame, or has the rest of it at its front.
pub frame_or_less :
    (a z cur tail : Bytes)
    → a ++ z ≡ cur ++ tail
    → ((y : Bytes) × (cur ≡ a ++ y) × (z ≡ y ++ tail) × (0 < length y))
      ⊎ ((x : Bytes) × (a ≡ cur ++ x) × (x ++ z ≡ tail))
frame_or_less a z [] tail e = inr (a, refl, e)
frame_or_less [] z (c ∷ cur) tail e = inl (c ∷ cur, refl, e, omega arith)
frame_or_less (b ∷ a) z (c ∷ cur) tail e =
    elim (frame_or_less a z cur tail (tail-eq_of_cons-eq e)) [
      | inl (y, k, l, m) ↦
          inl (y, (ap (λ t. c ∷ t) k ∙ ap (λ t. t ∷ (a ++ y)) (sym (head-eq_of_cons-eq e))), l, m)
      | inr (x, k, l) ↦
          inr (x, (ap (λ t. b ∷ t) k ∙ ap (λ t. t ∷ (cur ++ x)) (head-eq_of_cons-eq e)), l)
    ]

module _ (h : Host) where
  abbrev pub fed_session : Session h → Bytes → Session h
  fed_session s a = let f = decode h s a in receive h (record s { decoder = f.decoder }) f.chunk

  module _ (fuel : ℕ) (s : Session h) (f : Frame) (chunk : Bytes)
      (alive : is_closing s.state ≡ false) where
    next : Bytes → Session h → Session h
    next a s' = process_loop h fuel s' (drop (decode h s a).consumed a)

    -- A pass over less than the rest of the frame is the last one of its read.
    pub process_loop-cut :
        (c : ℕ) (a y : Bytes)
        → Ahead (stream_payload s.state) f ((c ∷ a) ++ y) chunk s.decoder
        → 0 < length y
        → process_loop h (suc fuel) s (c ∷ a) ≡ fed_session s (c ∷ a)
    unfolding process_loop decode after_decode next
    process_loop-cut c a y ahead more =
        let asks = (Ahead-cut (stream_payload s.state) f (c ∷ a) y chunk s.decoder ahead more).0 in
        ap
          (λ t.
            if t
            then s
            else after_decode h (next (c ∷ a)) (decode h s (c ∷ a)).status (fed_session s (c ∷ a)))
          alive
        ∙ ap (λ t. after_decode h (next (c ∷ a)) t (fed_session s (c ∷ a))) asks

    -- A pass over the rest of the frame dispatches it, and the loop goes on behind it.
    process_loop-whole :
        (c : ℕ) (cur x : Bytes)
        → Ahead (stream_payload s.state) f (c ∷ cur) chunk s.decoder
        → process_loop h (suc fuel) s ((c ∷ cur) ++ x) ≡ (
            let (keep_going, s') = end_frame h (fed_session s ((c ∷ cur) ++ x)) in
            if keep_going then process_loop h fuel s' x else s')
    unfolding process_loop decode after_decode next
    process_loop-whole c cur x ahead =
        let (status, consumed, _, _, _, _) =
          (Ahead-end (stream_payload s.state) f (c ∷ cur) chunk x s.decoder ahead).0 in
        ap
          (λ t.
            if t then s else after_decode h (next all) (decode h s all).status (fed_session s all))
          alive
        ∙ ap (λ t. after_decode h (next all) t (fed_session s all)) status
        ∙ ap
            (λ t.
              let (keep_going, s') = end_frame h (fed_session s all) in
              if keep_going then process_loop h fuel s' t else s')
            (drop-append_length (decode h s all).consumed (c ∷ cur) x (sym consumed))
      where
        all : Bytes
        all = (c ∷ cur) ++ x

  pub process_loop-frame :
      (fuel : ℕ) (s : Session h) (f : Frame) (chunk cur x : Bytes)
      → is_closing s.state ≡ false
      → Ahead (stream_payload s.state) f cur chunk s.decoder
      → process_loop h (suc fuel) s (cur ++ x) ≡ (
          let (keep_going, s') = end_frame h (fed_session s (cur ++ x)) in
          if keep_going then process_loop h fuel s' x else s')
  process_loop-frame fuel s f chunk [] x alive ahead = absurd (omega (arith, ahead.more))
  process_loop-frame fuel s f chunk (c ∷ cur) x alive ahead =
      process_loop-whole fuel s f chunk alive c cur x ahead

  -- The bytes of an upload: its size, its name, and all of them.
  module _ (origin : Place h.doubles) (name : Bytes) (size : ℕ) where
    -- The pieces are received and counted, and the upload goes on.
    abbrev pub Taken : List Bytes → Session h → Type 0
    Taken pieces s =
        (s.state ≡ uploading)
        × (s.handles_inited ≡ true)
        × (s.upload_declared ≡ size)
        × (s.upload_name ≡ name)
        × (s.upload_received ≡ length (concat pieces))
        × (place h s ≡ intake h.doubles origin pieces)

    module _ (ok : (w : h.World) (frame : Bytes) → (h.uv_write w frame).0 ≡ true)
        (wide : size < 2 ^ 64) where
      payload_chunk-Taken :
          (pieces : List Bytes) (s : Session h) (p : Bytes)
          → Taken pieces s
          → length (concat pieces) + length p ≤ size
          → Taken (pieces ++ (p ∷ [])) (payload_chunk h s p)
            × ((payload_chunk h s p).decoder ≡ s.decoder)
      payload_chunk-Taken pieces s p (state, inited, declared, named, received, counted) fits =
          let t =
            payload_chunk-Took h ok s p state (omega (arith, received, declared, fits))
              (omega (arith, declared, wide)) in
          let (e, i, d, n, c, _) = t.going in
          let both = ap length (concat-append pieces (p ∷ [])) in
          let sum = length-append (concat pieces) (p ++ []) in
          let total : (payload_chunk h s p).upload_received ≡ length (concat (pieces ++ (p ∷ []))) =
            omega (arith, t.received, received, both, sum) in
          let counts =
            t.counted
            ∙ ap (λ q. intake h.doubles q (p ∷ [])) counted
            ∙ sym (intake-append h.doubles origin pieces (p ∷ [])) in
          ((e ∙ state, i ∙ inited, d ∙ declared, n ∙ named, total, counts), c)

      -- What the sink is given by a call.
      pub receive-Taken :
          (pieces : List Bytes) (s : Session h) (p : Bytes)
          → Taken pieces s
          → length (concat pieces) + length p ≤ size
          → (pieces' : List Bytes) × (concat pieces' ≡ concat pieces ++ p)
            × Taken pieces' (receive h s p)
            × ((receive h s p).decoder ≡ s.decoder)
      unfolding receive
      receive-Taken pieces s [] t fits = (pieces, sym (append-nil (concat pieces)), t, refl)
      receive-Taken pieces s (c ∷ p) t fits =
          let (t', d) = payload_chunk-Taken pieces s (c ∷ p) t fits in
          let joined =
            concat-append pieces ((c ∷ p) ∷ [])
            ∙ ap (λ q. concat pieces ++ q) (append-nil (c ∷ p)) in
          (pieces ++ ((c ∷ p) ∷ []), joined, t', d)
