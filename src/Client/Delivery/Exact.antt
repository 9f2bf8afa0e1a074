-- ===== src/Client/Delivery/Exact.antt =====
-- `recv_exactly` on a stream of bytes.
use assignment_logger_analyz.Prelude.{
  ℕ, zero, suc, ◌+◌, ◌*◌, ◌≤◌, ◌<◌, ◌≡◌, refl, sym, subst, ap, ◌∙◌, ltb, if-cases, Bool, true,
  false, [], ◌∷◌, ◌++◌, append_assoc, append-nil, Bytes, length, length-append, take, drop,
  take-append-drop, take-append_left, take-append_length, drop-append_left, drop-append_length,
  arith,
}
use assignment_logger_analyz.Client.Actions.{Action, pure}
use assignment_logger_analyz.Client.Meets.{
  Meets, bind-Meets, Yields, pure-Meets, raise-Meets, out_of_passes-Meets, guard-Meets, Meets-map,
  learn,
}
use assignment_logger_analyz.Client.System.{System, Received, arrived, nothing_yet, recv_error}
use assignment_logger_analyz.Client.State.{Client, ask}
use assignment_logger_analyz.Client.Socket.{Flag, after_recv, recv_pass, recv_loop, recv_exactly}
use assignment_logger_analyz.Client.Delivery.{Line, At, lax, ask-At, load_flag-At, Read, recv-Read}

module _ (sys : System) (strict : Bool) (line : Line sys strict) where
  open line use {stream}

  abbrev On : Bytes → Client sys → Type 0
  On = At sys strict line

  -- What stands in front of a stream, and what is left behind it.
  front :
      (y x rest s : Bytes) → length y ≤ length x → x ++ rest ≡ y ++ s → y ++ drop (length y) x ≡ x
  front y x rest s k e =
      ap (λ t. t ++ drop (length y) x)
        (sym (
          sym (take-append_left (length y) x rest k)
          ∙ ap (take (length y)) e
          ∙ take-append_length (length y) y s refl))
      ∙ take-append-drop (length y) x

  behind :
      (y x rest s : Bytes)
      → length y ≤ length x
      → x ++ rest ≡ y ++ s
      → s ≡ drop (length y) x ++ rest
  behind y x rest s k e =
      sym (drop-append_length (length y) y s refl)
      ∙ ap (drop (length y)) (sym e)
      ∙ drop-append_left (length y) x rest k

  -- The next pass of the loop, which reads the rest of `x`.
  abbrev Reads : Bytes → Bytes → Bytes → (Bytes → ℕ → Action (Client sys) Bytes) → Type 0
  Reads got x rest next =
      (now : ℕ) → Meets strict (On (x ++ rest)) (Yields strict (got ++ x) (On rest)) (next got now)

  after_recv-At :
      (next : Bytes → ℕ → Action (Client sys) Bytes) (len idle : ℕ) (got x rest : Bytes) (last : ℕ)
      (a : Received)
      → (strict ≡ false → Reads got x rest next)
      → ((y z : Bytes) → 0 < length y → y ++ z ≡ x → Reads (got ++ y) z rest next)
      → 0 < length x
      → Meets strict
          (Read sys strict line (length x) (x ++ rest) a)
          (Yields strict (got ++ x) (On rest))
          (after_recv sys next len idle got last a)
  unfolding after_recv
  after_recv-At next len idle got x rest last (arrived []) k l m =
      raise-Meets strict _
        (λ c (a, b, d, e). lax sys strict line (λ t. absurd (omega (arith, e t))))
  after_recv-At next len idle got x rest last (recv_error e) k l m = raise-Meets strict _ (λ c e. e)
  after_recv-At next len idle got x rest last nothing_yet k l m =
      learn strict (strict ≡ false) _ (λ c (p, e). e)
        (λ e.
          Meets-map strict _ (λ c (p, e). p)
            (bind-Meets strict (λ _. On (x ++ rest)) _ _
              (ask-At sys strict line _ (x ++ rest) line.now_keeps)
              (λ now.
                guard-Meets strict _ _ _ (λ c p _. e)
                  (bind-Meets strict (λ _. On (x ++ rest)) _ _
                    (ask-At sys strict line _ (x ++ rest) (λ w. line.poll_keeps w 250))
                    (λ _. k e last)))))
  after_recv-At next len idle got x rest last (arrived (b ∷ bs)) k l m =
      let y = b ∷ bs in
      learn strict (y ++ drop (length y) x ≡ x) _
        (λ c (short, split, u, e). front y x rest (stream c.world) short split)
        (λ e.
          Meets-map strict _
            (λ c (short, split, u, _). record {
              ahead = behind y x rest (stream c.world) short split;
              uncancelled = u;
            })
            (bind-Meets strict (λ _. On (drop (length y) x ++ rest)) _ _
              (ask-At sys strict line _ (drop (length y) x ++ rest) line.now_keeps)
              (λ now.
                subst
                  (λ t.
                    Meets strict (On (drop (length y) x ++ rest)) (Yields strict t (On rest))
                      (next (got ++ y) now))
                  (append_assoc got y (drop (length y) x) ∙ ap (λ t. got ++ t) e)
                  (l y (drop (length y) x) (omega arith) e now))))

  nothing_left :
      (x got rest : Bytes)
      → length x ≤ 0
      → Meets strict (On (x ++ rest)) (Yields strict (got ++ x) (On rest)) (pure got)
  nothing_left [] got rest k = pure-Meets strict got (λ c p. (sym (append-nil got), p))
  nothing_left (b ∷ x) got rest k = absurd (omega arith)

  recv_pass-At :
      (next : Bytes → ℕ → Action (Client sys) Bytes) (len idle : ℕ) (flag : Flag)
      (got x rest : Bytes) (last : ℕ)
      → len ≡ length got + length x
      → (strict ≡ false → Reads got x rest next)
      → ((y z : Bytes) → 0 < length y → y ++ z ≡ x → Reads (got ++ y) z rest next)
      → 0 < length x
      → Meets strict
          (On (x ++ rest))
          (Yields strict (got ++ x) (On rest))
          (recv_pass sys next len idle flag got last)
  unfolding recv_pass
  recv_pass-At next len idle flag got x rest last e k l m =
      bind-Meets strict (λ stop c. On (x ++ rest) c × (strict ≡ true → stop ≡ false)) _ _
        (load_flag-At sys strict line flag (x ++ rest))
        (λ stop.
          guard-Meets strict _ _ _
            (λ c (p, f) t. lax sys strict line (λ u. absurd (ground (arith, f u))))
            (bind-Meets strict (Read sys strict line (length x) (x ++ rest)) _ _
              (Meets-map strict _ (λ c (p, f). p)
                (subst
                  (λ t.
                    Meets strict (On (x ++ rest)) (Read sys strict line (length x) (x ++ rest))
                      (ask sys (λ w. sys.recv w t)))
                  (omega (arith, e))
                  (recv-Read sys strict line (length x) (x ++ rest) m
                    (omega (arith, length-append x rest)))))
              (λ a. after_recv-At next len idle got x rest last a k l m)))

  recv_loop-At :
      (n len idle : ℕ) (flag : Flag) (got x rest : Bytes) (last : ℕ)
      → len ≡ length got + length x
      → (strict ≡ true → length x < n)
      → Meets strict
          (On (x ++ rest))
          (Yields strict (got ++ x) (On rest))
          (recv_loop sys n len idle flag got last)
  unfolding recv_loop
  recv_loop-At zero len idle flag got x rest last e k =
      out_of_passes-Meets strict (lax sys strict line (λ t. absurd (omega (arith, k t))))
  recv_loop-At (suc n) len idle flag got x rest last e k =
      if-cases (Meets strict (On (x ++ rest)) (Yields strict (got ++ x) (On rest)))
        (ltb (length got) len)
        (λ l.
          recv_pass-At (recv_loop sys n len idle flag) len idle flag got x rest last e
            (λ f now.
              recv_loop-At n len idle flag got x rest now e (λ t. absurd (ground (arith, t, f))))
            (λ y z m f now.
              recv_loop-At n len idle flag (got ++ y) z rest now
                (omega (arith, e, length-append got y, length-append y z, ap length f))
                (λ t. omega (arith, k t, length-append y z, ap length f)))
            (ground arith))
        (λ l. nothing_left x got rest (ground arith))

  -- recv_exactly for `len` bytes on a stream that begins with them gives those bytes, and leaves the
  -- rest, however the system cuts them up; where `strict` is true it does so without fail.
  pub recv_exactly-At :
      (x rest : Bytes) (len idle : ℕ) (flag : Flag)
      → len ≡ length x
      → len ≤ 4 * 1024 * 1024
      → Meets strict (On (x ++ rest)) (Yields strict x (On rest)) (recv_exactly sys len idle flag)
  unfolding recv_exactly
  recv_exactly-At x rest len idle flag e k =
      bind-Meets strict (λ _. On (x ++ rest)) _ _
        (ask-At sys strict line _ (x ++ rest) line.now_keeps)
        (λ now.
          recv_loop-At sys.passes len idle flag [] x rest now (omega (arith, e))
            (λ t. omega (arith, line.enough t, e, k)))
