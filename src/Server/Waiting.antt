-- ===== src/Server/Waiting.antt =====
-- How many callbacks for its handles a session still waits for when it is closed.
use assignment_logger_analyz.Prelude.{
  ℕ, zero, suc, ◌+◌, ◌-◌, ◌≤◌, ◌≡◌, ◌≢◌, refl, sym, subst, ap, ◌∙◌, true, false, ltb, if◌then◌else◌,
  if-cases, arith,
}
use assignment_logger_analyz.Session.Host.{Host}
use assignment_logger_analyz.Session.State.{
  State, await_hello, ready, uploading, closing, is_closing, Session,
}
use assignment_logger_analyz.Session.Outbox.{close, close_in}
use assignment_logger_analyz.Session.Events.{handle_closed, step, on_handle_closed}
use assignment_logger_analyz.Session.Closing.{Told, close-notifies}

open-is_closing : (t : State) → t ≢ closing → is_closing t ≡ false
open-is_closing await_hello n = refl
open-is_closing ready n = refl
open-is_closing uploading n = refl
open-is_closing closing n = absurd (n refl)

module _ (h : Host) where
  -- The session tells its owner that it is closed at the `n`-th callback from now on.
  abbrev pub Waits : ℕ → Session h → Type 0
  Waits zero s = ⊥
  Waits (suc zero) s = (step h s handle_closed).notified ≡ s.notified + 1
  Waits (suc (suc n)) s =
      ((step h s handle_closed).notified ≡ s.notified) × Waits (suc n) (step h s handle_closed)

  -- A session of the map: open, with both handles set up and nothing of them closed, or closing, with
  -- a handle that libuv has yet to close.
  pub data Closable (s : Session h) : Type 0 where
    serving : s.state ≢ closing → s.handles_inited ≡ true → s.pending_close ≡ 0 → Closable s
    leaving : s.state ≡ closing → 1 ≤ s.pending_close → Closable s

  -- The callbacks that a session needs: both of them, or where it is closing those that it has not had.
  abbrev pub needed : Session h → ℕ
  needed s = if is_closing s.state then s.pending_close else 2

  last_handle :
      (s : Session h) → s.pending_close ≡ 1 → (on_handle_closed h s).notified ≡ s.notified + 1
  unfolding on_handle_closed
  last_handle s e =
      if-cases (λ (t : Session h). t.notified ≡ s.notified + 1) (ltb 0 (s.pending_close - 1))
        (λ l. absurd (ground (arith, l, e))) (λ _. refl)

  earlier_handle :
      (s : Session h) (n : ℕ)
      → s.pending_close ≡ suc (suc n)
      → on_handle_closed h s ≡ record s { pending_close = suc n }
  unfolding on_handle_closed
  earlier_handle s n e =
      let left : s.pending_close - 1 ≡ suc n = omega (arith, e) in
      if-cases (λ (t : Session h). t ≡ record s { pending_close = suc n })
        (ltb 0 (s.pending_close - 1)) (λ _. ap (λ p. record s { pending_close = p }) left)
        (λ l. absurd (ground (arith, l, e)))

  pending-Waits : (n : ℕ) (s : Session h) → 1 ≤ n → s.pending_close ≡ n → Waits n s
  unfolding step
  pending-Waits zero s l e = absurd (omega arith)
  pending-Waits (suc zero) s l e = last_handle s e
  pending-Waits (suc (suc n)) s l e =
      let next = earlier_handle s n e in
      (
        ap (λ (t : Session h). t.notified) next,
        pending-Waits (suc n) (on_handle_closed h s) (omega arith)
            (ap (λ (t : Session h). t.pending_close) next),
      )

  close-again : (s : Session h) → s.state ≡ closing → close h s ≡ s
  unfolding close close_in
  close-again s e = rw e refl

  module _ (o : (w : h.World) → (h.timer_closing w ≡ false) × (h.tcp_closing w ≡ false)) where
    Told-Waits : (n : ℕ) (s : Session h) → Told h n s → Waits 2 s
    Told-Waits n s (a, b, c) = (b ∙ sym a, c ∙ ap (λ (m : ℕ). m + 1) (sym b))

    pub close-Waits : (s : Session h) → Closable s → Waits (needed s) (close h s)
    close-Waits s (serving e i p) =
        subst (λ b. Waits (if b then s.pending_close else 2) (close h s))
          (sym (open-is_closing s.state e))
          (Told-Waits s.notified (close h s) (close-notifies h o s e i p))
    close-Waits s (leaving e p) =
        subst (λ b. Waits (if b then s.pending_close else 2) (close h s)) (sym (ap is_closing e))
          (subst (Waits s.pending_close) (sym (close-again s e))
            (pending-Waits s.pending_close s p refl))

    pub close-quiet : (s : Session h) → Closable s → (close h s).notified ≡ s.notified
    close-quiet s (serving e i p) = (close-notifies h o s e i p).0
    close-quiet s (leaving e p) = ap (λ (t : Session h). t.notified) (close-again s e)
