-- ===== src/Session/Queue.antt =====
-- What a session that can write puts into its queue for a result.
use assignment_logger_analyz.Prelude.{
  ℕ, zero, suc, ◌*◌, ◌≤◌, ◌≡◌, refl, sym, ap, ◌∙◌, Bool, true, false, not, ◌||◌, if-cases, List, [],
  ◌∷◌, ◌++◌, append_assoc, append-nil, Bytes, codes, length, length-take, length-drop, take, drop,
  take-append-drop, arith,
}
use assignment_logger_analyz.Protocol.{MsgType, result_begin, result_chunk, result_end}
use assignment_logger_analyz.Payload.Writer
use assignment_logger_analyz.Decoder.Serialize.{serialize_frame}
use assignment_logger_analyz.Session.Host.{Host}
use assignment_logger_analyz.Session.State.{is_closing, Session}
use assignment_logger_analyz.Session.Outbox.{send, after_write}
use assignment_logger_analyz.Session.UploadEnd.{send_chunks, send_result_csv}

-- The pieces of a result, with as many passes as it has bytes, and the frames for them.
unfoldable pub pieces : ℕ → Bytes → List Bytes
pieces zero x = []
pieces (suc n) [] = []
pieces (suc n) (b ∷ x) = take 65536 (b ∷ x) ∷ pieces n (drop 65536 (b ∷ x))

abbrev pub chunk_frames : List Bytes → List Bytes
chunk_frames [] = []
chunk_frames (x ∷ xs) = serialize_frame result_chunk x ∷ chunk_frames xs

abbrev pub result_begin_payload : Bytes → Bytes
result_begin_payload csv = Writer.str16 (Writer.u64 [] (length csv)) (codes "result.csv")

unfoldable pub result_frames : Bytes → List Bytes
unfolding pieces
result_frames csv =
    serialize_frame result_begin (result_begin_payload csv)
    ∷ (chunk_frames (pieces (length csv) csv) ++ (serialize_frame result_end [] ∷ []))

-- The frames of a queue as they go out.
abbrev pub flat : List Bytes → Bytes
flat [] = []
flat (x ∷ xs) = x ++ flat xs

pub flat-append : (xs ys : List Bytes) → flat (xs ++ ys) ≡ flat xs ++ flat ys
flat-append [] ys = refl
flat-append (x ∷ xs) ys =
    ap (λ t. x ++ t) (flat-append xs ys) ∙ sym (append_assoc x (flat xs) (flat ys))

pub flat-pieces : (n : ℕ) (x : Bytes) → length x ≤ n → flat (pieces n x) ≡ x
unfolding pieces
flat-pieces zero [] k = refl
flat-pieces zero (b ∷ x) k = absurd (omega arith)
flat-pieces (suc n) [] k = refl
flat-pieces (suc n) (b ∷ x) k =
    ap (λ t. take 65536 (b ∷ x) ++ t)
      (flat-pieces n (drop 65536 (b ∷ x)) (omega (arith, length-drop 65536 (b ∷ x))))
    ∙ take-append-drop 65536 (b ∷ x)

pub length-pieces : (n : ℕ) (x : Bytes) → length (pieces n x) ≤ n
unfolding pieces
length-pieces zero x = omega arith
length-pieces (suc n) [] = omega arith
length-pieces (suc n) (b ∷ x) = omega (arith, length-pieces n (drop 65536 (b ∷ x)))

-- Every piece is within the limit of a frame.
abbrev pub AllShort : List Bytes → Type 0
AllShort [] = Unit {0}
AllShort (x ∷ xs) = (length x ≤ 4 * 1024 * 1024) × AllShort xs

pub pieces-AllShort : (n : ℕ) (x : Bytes) → AllShort (pieces n x)
unfolding pieces
pieces-AllShort zero x = tt
pieces-AllShort (suc n) [] = tt
pieces-AllShort (suc n) (b ∷ x) =
    (omega (arith, length-take 65536 (b ∷ x)), pieces-AllShort n (drop 65536 (b ∷ x)))

module _ (h : Host) where
  -- `s'` is `s` with the frames `fs` behind its queue, and can write as `s` can.
  pub record Queued (s : Session h) (fs : List Bytes) (s' : Session h) : Type 0 where
    pub writes : s'.writes ≡ s.writes ++ fs
    pub state : s'.state ≡ s.state
    pub inited : s'.handles_inited ≡ s.handles_inited

  Queued-append :
      (s s' s'' : Session h) (fs gs : List Bytes)
      → Queued s fs s'
      → Queued s' gs s''
      → Queued s (fs ++ gs) s''
  Queued-append s s' s'' fs gs p q = record {
    writes = q.writes ∙ ap (λ t. t ++ gs) p.writes ∙ append_assoc s.writes fs gs;
    state = q.state ∙ p.state;
    inited = q.inited ∙ p.inited;
  }

  module _ (ok : (w : h.World) (frame : Bytes) → (h.uv_write w frame).0 ≡ true) where
    after_write-Queued :
        (s : Session h) (frame : Bytes) (r : Bool × h.World)
        → r.0 ≡ true
        → Queued s (frame ∷ []) (after_write h s frame r)
    unfolding after_write
    after_write-Queued s frame (true, w) e = record { writes = refl; state = refl; inited = refl }
    after_write-Queued s frame (false, w) e = absurd (ground arith)

    pub send-Queued :
        (s : Session h) (type : MsgType) (payload : Bytes)
        → is_closing s.state ≡ false
        → s.handles_inited ≡ true
        → Queued s (serialize_frame type payload ∷ []) (send h s type payload)
    unfolding send
    send-Queued s type payload e i =
        if-cases (λ t. Queued s (serialize_frame type payload ∷ []) t)
          (is_closing s.state || not s.handles_inited) (λ g. absurd (ground arith))
          (λ _. after_write-Queued s _ _ (ok s.world _))

    send_chunks-Queued :
        (n : ℕ) (s : Session h) (x : Bytes)
        → is_closing s.state ≡ false
        → s.handles_inited ≡ true
        → Queued s (chunk_frames (pieces n x)) (send_chunks h n s x)
    unfolding send_chunks pieces
    send_chunks-Queued zero s x e i = record {
      writes = sym (append-nil s.writes);
      state = refl;
      inited = refl;
    }
    send_chunks-Queued (suc n) s [] e i = record {
      writes = sym (append-nil s.writes);
      state = refl;
      inited = refl;
    }
    send_chunks-Queued (suc n) s (b ∷ x) e i =
        let s' = send h s result_chunk (take 65536 (b ∷ x)) in
        let p = send-Queued s result_chunk (take 65536 (b ∷ x)) e i in
        Queued-append s s' _ _ _ p
          (send_chunks-Queued n s' (drop 65536 (b ∷ x)) (ap is_closing p.state ∙ e) (p.inited ∙ i))

    -- A session that is open and whose every frame can be written queues, for its result, RESULT_BEGIN
    -- with the size and the name, the result in pieces of at most 64 KiB, and RESULT_END.
    pub send_result_csv-Queued :
        (s : Session h)
        → is_closing s.state ≡ false
        → s.handles_inited ≡ true
        → Queued s (result_frames s.result_csv) (send_result_csv h s)
    unfolding send_result_csv result_frames
    send_result_csv-Queued s e i =
        let s1 = send h s result_begin (result_begin_payload s.result_csv) in
        let s2 = send_chunks h (length s.result_csv) s1 s.result_csv in
        let p = send-Queued s result_begin (result_begin_payload s.result_csv) e i in
        let q =
          send_chunks-Queued (length s.result_csv) s1 s.result_csv (ap is_closing p.state ∙ e)
            (p.inited ∙ i) in
        Queued-append s s1 _ _ _ p (
          Queued-append s1 s2 _ _ _ q (
            send-Queued s2 result_end [] (ap is_closing (q.state ∙ p.state) ∙ e)
              (q.inited ∙ p.inited ∙ i)))
