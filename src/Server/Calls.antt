-- ===== src/Server/Calls.antt =====
-- What a call on one session does to the map of the sessions, `sessions_` of TcpServer.
use assignment_logger_analyz.Prelude.{
  ℕ, suc, ◌+◌, ◌≤◌, ◌≡◌, ◌≢◌, refl, ap, ◌∙◌, ltb, ◌==◌, if-cases, [], ◌∷◌, arith,
}
use assignment_logger_analyz.Session.Host.{Host}
use assignment_logger_analyz.Session.State.{Session}
use assignment_logger_analyz.Server.Sessions.{Table, erase, settle, run_on}
use assignment_logger_analyz.Server.Tables.{Ascending}

module _ (h : Host) where
  pub settle-told :
      (k : ℕ) (s s' : Session h) (t : Table h)
      → s'.notified ≡ s.notified + 1
      → settle h k s s' t ≡ t
  unfolding settle erase
  settle-told k s s' t e =
      if-cases (λ u. u ≡ t) (ltb s.notified s'.notified)
        (λ _. if-cases (λ u. u ≡ t) (k == k) (λ _. refl) (λ n. absurd (ground arith)))
        (λ n. absurd (ground arith))

  pub settle-untold :
      (k : ℕ) (s s' : Session h) (t : Table h)
      → s'.notified ≡ s.notified
      → settle h k s s' t ≡ (k, s') ∷ t
  unfolding settle
  settle-untold k s s' t e =
      if-cases (λ u. u ≡ (k, s') ∷ t) (ltb s.notified s'.notified) (λ n. absurd (ground arith))
        (λ _. refl)

  pub run_on-first :
      (k : ℕ) (f : Session h → Session h) (s : Session h) (t : Table h)
      → run_on h k f ((k, s) ∷ t) ≡ settle h k s (f s) t
  unfolding run_on
  run_on-first k f s t =
      if-cases (λ u. u ≡ settle h k s (f s) t) (k == k) (λ _. refl) (λ n. absurd (ground arith))

  pub run_on-later :
      (i k : ℕ) (f : Session h → Session h) (s : Session h) (t : Table h)
      → k ≢ i
      → run_on h i f ((k, s) ∷ t) ≡ (k, s) ∷ run_on h i f t
  unfolding run_on
  run_on-later i k f s t n =
      if-cases (λ u. u ≡ (k, s) ∷ run_on h i f t) (k == i) (λ e. absurd (n (ground arith)))
        (λ _. refl)

  pub run_on-absent :
      (i k : ℕ) (f : Session h → Session h) (t : Table h)
      → suc i ≤ k
      → Ascending h k t
      → run_on h i f t ≡ t
  unfolding run_on Ascending
  run_on-absent i k f [] l a = refl
  run_on-absent i k f ((j, s) ∷ t) l (b, a) =
      run_on-later i j f s t (λ e. omega arith)
      ∙ ap (◌∷◌ (j, s)) (run_on-absent i (suc j) f t (omega arith) a)
