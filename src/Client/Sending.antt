-- ===== src/Client/Sending.antt =====
-- What the client sends goes out whole: `send_all`, and CANCEL and BYE, which a cancellation does not
-- stop.
use assignment_logger_analyz.Prelude.{
  ℕ, zero, suc, ◌+◌, ◌≤◌, ◌<◌, ◌≡◌, refl, sym, subst, ap, ◌∙◌, ltb, if-cases, Bool, true, false,
  Bool-cases, inl, inr, [], ◌∷◌, ◌++◌, append_assoc, append-nil, Bytes, length, length-drop, take,
  drop, take_all, arith,
}
use assignment_logger_analyz.Protocol.{MsgType, FrameHeader, default_header, encode_header}
use assignment_logger_analyz.Protocol.RoundTrip.{length-encode_header}
use assignment_logger_analyz.Decoder.Serialize.{serialize_frame}
use assignment_logger_analyz.Client.Actions.{Action}
use assignment_logger_analyz.Client.Meets.{
  Meets, bind-Meets, pure-Meets, raise-Meets, out_of_passes-Meets, guard-Meets, Meets-map, learn,
}
use assignment_logger_analyz.Client.System.{System, Sent, taken, no_room, send_error, writable}
use assignment_logger_analyz.Client.State.{Client, ask}
use assignment_logger_analyz.Client.Socket.{
  never_cancel, load_flag, after_send, send_pass, send_loop, send_all,
}
use assignment_logger_analyz.Client.Frames.{send_empty_frame_never_cancel}

-- What has gone out. A write adds a piece from the front of what it is given; where `strict` is true,
-- it takes at least a byte at once.
pub record Sink (sys : System) (strict : Bool) : Type 0 where
  pub out : sys.World → Bytes
  pub takes :
      (w : sys.World) (x : Bytes) (n : ℕ)
      → (sys.send w x).0 ≡ taken n
      → (suc n ≤ length x) × (out (sys.send w x).1 ≡ out w ++ take (suc n) x)
  pub blocked :
      (w : sys.World) (x : Bytes) → (sys.send w x).0 ≡ no_room → out (sys.send w x).1 ≡ out w
  pub now_keeps : (w : sys.World) → out (sys.now_ms w).1 ≡ out w
  pub poll_keeps : (w : sys.World) (n : ℕ) → out (sys.poll w writable n).1 ≡ out w
  pub prompt :
      strict ≡ true
      → (w : sys.World) (x : Bytes) → 0 < length x
      → (n : ℕ) × ((sys.send w x).0 ≡ taken n)

take-drop : (k m j : ℕ) (x : Bytes) → j ≡ k + m → take k x ++ take m (drop k x) ≡ take j x
take-drop zero m j x e = ap (λ (n : ℕ). take n x) (omega (arith, e))
take-drop (suc k) m zero x e = absurd (omega (arith, e))
take-drop (suc k) zero (suc j) [] e = refl
take-drop (suc k) (suc m) (suc j) [] e = refl
take-drop (suc k) m (suc j) (b ∷ x) e = ap (◌∷◌ b) (take-drop k m j x (omega (arith, e)))

module _ (sys : System) (strict : Bool) (sink : Sink sys strict) where
  open sink use {out}

  pub record Out (s : Bytes) (c : Client sys) : Type 0 where
    pub gone : out c.world ≡ s

  lax : (strict ≡ true → ⊥) → strict ≡ false
  lax k = elim (Bool-cases strict) [ inl e ↦ absurd (k e) | inr e ↦ e ]

  ask-Out :
      {A : Type 0} (f : sys.World → A × sys.World) (s : Bytes)
      → ((w : sys.World) → out (f w).1 ≡ out w)
      → Meets strict (Out s) (λ _. Out s) (ask sys f)
  unfolding ask
  ask-Out f s k = record { meet = λ c p. record { gone = k c.world ∙ p.gone } }

  -- After a write of `x` behind `s`.
  abbrev Wrote : Bytes → Bytes → Sent → Client sys → Type 0
  Wrote s x (taken n) c = (suc n ≤ length x) × Out (s ++ take (suc n) x) c
  Wrote s x no_room c = Out s c × (strict ≡ false)
  Wrote s x (send_error e) c = strict ≡ false

  abbrev is_taken : Sent → Bool
  is_taken (taken n) = true
  is_taken no_room = false
  is_taken (send_error e) = false

  prompt_taken :
      (w : sys.World) (x : Bytes) → 0 < length x → strict ≡ true → is_taken (sys.send w x).0 ≡ true
  prompt_taken w x k e = let (n, m) = sink.prompt e w x k in rw m refl

  wrote :
      (s x : Bytes) (c : Client sys) (a : Sent)
      → Out s c
      → (strict ≡ true → is_taken a ≡ true)
      → (sys.send c.world x).0 ≡ a
      → Wrote s x a (record c { world = (sys.send c.world x).1 })
  wrote s x c (taken n) p f e =
      let (short, grown) = sink.takes c.world x n e in
      (short, record { gone = grown ∙ ap (λ t. t ++ take (suc n) x) p.gone })
  wrote s x c no_room p f e =
      (record { gone = sink.blocked c.world x e ∙ p.gone }, lax (λ t. absurd (ground (arith, f t))))
  wrote s x c (send_error m) p f e = lax (λ t. absurd (ground (arith, f t)))

  send-Wrote :
      (s x : Bytes) → 0 < length x → Meets strict (Out s) (Wrote s x) (ask sys (λ w. sys.send w x))
  unfolding ask
  send-Wrote s x k = record {
    meet = λ c p. wrote s x c (sys.send c.world x).0 p (prompt_taken c.world x k) refl;
  }

  -- The next pass, which has sent `k` bytes of `x`.
  abbrev Sends : Bytes → Bytes → ℕ → (ℕ → ℕ → Action (Client sys) (Unit {0})) → Type 0
  Sends s x k next = (now : ℕ) → Meets strict (Out (s ++ take k x)) (λ _. Out (s ++ x)) (next k now)

  after_send-Out :
      (next : ℕ → ℕ → Action (Client sys) (Unit {0})) (stall k last : ℕ) (s x : Bytes) (a : Sent)
      → (strict ≡ false → Sends s x k next)
      → ((m : ℕ) → k + suc m ≤ length x → Sends s x (k + suc m) next)
      → k ≤ length x
      → Meets strict
          (Wrote (s ++ take k x) (drop k x) a)
          (λ _. Out (s ++ x))
          (after_send sys next stall k last a)
  unfolding after_send
  after_send-Out next stall k last s x (taken m) f g l =
      learn strict (k + suc m ≤ length x) _ (λ c (short, p). omega (arith, short, length-drop k x))
        (λ fits.
          Meets-map strict _
            (λ c (short, p). record {
              gone =
                  p.gone
                  ∙ append_assoc s (take k x) (take (suc m) (drop k x))
                  ∙ ap (λ t. s ++ t) (take-drop k (suc m) (k + suc m) x refl);
            })
            (bind-Meets strict (λ _. Out (s ++ take (k + suc m) x)) _ _ (ask-Out _ _ sink.now_keeps)
              (λ now. g m fits now)))
  after_send-Out next stall k last s x (send_error e) f g l = raise-Meets strict _ (λ c e. e)
  after_send-Out next stall k last s x no_room f g l =
      learn strict (strict ≡ false) _ (λ c (p, e). e)
        (λ e.
          Meets-map strict _ (λ c (p, e). p)
            (bind-Meets strict (λ _. Out (s ++ take k x)) _ _ (ask-Out _ _ sink.now_keeps)
              (λ now.
                guard-Meets strict _ _ _ (λ c p _. e)
                  (bind-Meets strict (λ _. Out (s ++ take k x)) _ _
                    (ask-Out _ _ (λ w. sink.poll_keeps w 250)) (λ _. f e last)))))

  send_loop-Out :
      (n stall k last : ℕ) (s x : Bytes)
      → k ≤ length x
      → (strict ≡ true → length x < n + k)
      → Meets strict
          (Out (s ++ take k x))
          (λ _. Out (s ++ x))
          (send_loop sys n x stall never_cancel k last)
  unfolding send_loop send_pass load_flag
  send_loop-Out zero stall k last s x l e =
      out_of_passes-Meets strict (lax (λ t. absurd (omega (arith, e t))))
  send_loop-Out (suc n) stall k last s x l e =
      if-cases (Meets strict (Out (s ++ take k x)) (λ _. Out (s ++ x))) (ltb k (length x))
        (λ more.
          bind-Meets strict (λ stop c. Out (s ++ take k x) c × (stop ≡ false)) _ _
            (pure-Meets strict false (λ c p. (p, refl)))
            (λ stop.
              guard-Meets strict stop _ _ (λ c (p, f) t. absurd (ground arith))
                (bind-Meets strict (Wrote (s ++ take k x) (drop k x)) _ _
                  (Meets-map strict _ (λ c (p, f). p)
                    (send-Wrote (s ++ take k x) (drop k x) (ground (arith, length-drop k x))))
                  (λ a.
                    after_send-Out (send_loop sys n x stall never_cancel) stall k last s x a
                      (λ f now.
                        send_loop-Out n stall k now s x l (λ t. absurd (ground (arith, t, f))))
                      (λ m fits now.
                        send_loop-Out n stall (k + suc m) now s x fits (λ t. omega (arith, e t)))
                      l))))
        (λ over.
          pure-Meets strict tt
            (λ c p. record { gone = p.gone ∙ ap (λ t. s ++ t) (take_all k x (ground arith)) }))

  -- CANCEL and BYE, whatever the user does: where send_empty_frame_never_cancel succeeds, the whole
  -- frame has gone out behind what went out before, and where the system takes bytes at once and the
  -- loop is followed for more than 16 passes, it succeeds.
  pub send_empty_frame_never_cancel-Out :
      (type : MsgType) (s : Bytes)
      → (strict ≡ true → 16 < sys.passes)
      → Meets strict
          (Out s)
          (λ _. Out (s ++ serialize_frame type []))
          (send_empty_frame_never_cancel sys type)
  unfolding send_empty_frame_never_cancel send_all serialize_frame
  send_empty_frame_never_cancel-Out type s k =
      bind-Meets strict (λ _. Out s) _ _ (ask-Out _ s sink.now_keeps)
        (λ now.
          subst
            (λ t.
              Meets strict (Out s) (λ _. Out (s ++ t))
                (send_loop sys sys.passes head 20000 never_cancel 0 now))
            (sym (append-nil head))
            (Meets-map strict _ (λ c p. record { gone = p.gone ∙ sym (append-nil s) })
              (send_loop-Out sys.passes 20000 0 now s head (omega arith)
                (λ t. omega (arith, k t, length-encode_header header)))))
    where
      header : FrameHeader
      header = record default_header { type = type; payload_len = 0 }

      head : Bytes
      head = encode_header header
