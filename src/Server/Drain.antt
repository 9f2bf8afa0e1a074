-- ===== src/Server/Drain.antt =====
-- How a shutdown ends: a session leaves the map when libuv has closed both of its handles.
use assignment_logger_analyz.Prelude.{
  ℕ, zero, suc, Bool-cases, inl, inr, if◌then◌else◌, ◌≤◌, ◌≡◌, ◌≢◌, refl, ap, ◌∙◌, false, ltb, ◌==◌,
  if-cases, List, [], ◌∷◌, arith,
}
use assignment_logger_analyz.Session.Host.{Host}
use assignment_logger_analyz.Session.State.{Session}
use assignment_logger_analyz.Session.Outbox.{close}
use assignment_logger_analyz.Session.Events.{handle_closed, step}
use assignment_logger_analyz.Server.{
  Server, close_each, begin_shutdown, ServerEvent, session_event, server_step,
}
use assignment_logger_analyz.Server.Sessions.{Table, ids, run_on}
use assignment_logger_analyz.Server.Calls.{
  settle-told, settle-untold, run_on-first, run_on-later, run_on-absent,
}
use assignment_logger_analyz.Server.Waiting.{Waits, Closable, needed, close-Waits, close-quiet}
use assignment_logger_analyz.Server.Tables.{Ascending, Each, run_on-Ascending}

-- How often `k` occurs.
unfoldable pub times : ℕ → List ℕ → ℕ
times k [] = 0
times k (i ∷ is) = let rest = times k is in if i == k then suc rest else rest

module _ (h : Host) where
  -- Each session of the table, closed.
  unfoldable pub closed_all : Table h → Table h
  closed_all [] = []
  closed_all ((k, s) ∷ t) = (k, close h s) ∷ closed_all t

  close_each-later :
      (t : Table h) (n k : ℕ) (s : Session h) (u : Table h)
      → suc k ≤ n
      → Ascending h n t
      → close_each h (ids h t) ((k, s) ∷ u) ≡ (k, s) ∷ close_each h (ids h t) u
  unfolding close_each ids Ascending
  close_each-later [] n k s u l a = refl
  close_each-later ((i, x) ∷ t) n k s u l (b, a) =
      ap (close_each h (ids h t)) (run_on-later h i k (λ s. close h s) s u (λ e. omega arith))
      ∙ close_each-later t (suc i) k s _ (omega arith) a

  -- The ids of the sessions that need more callbacks than there are for them among `ks`.
  unfoldable pub unfinished : List ℕ → Table h → List ℕ
  unfolding times
  unfinished ks [] = []
  unfinished ks ((k, s) ∷ t) =
      let rest = unfinished ks t in if ltb (times k ks) (needed h s) then k ∷ rest else rest

  -- Callbacks of libuv that a handle is closed, each for a handle of the session with that id.
  unfoldable pub callbacks : List ℕ → List (ServerEvent h)
  callbacks [] = []
  callbacks (k ∷ ks) = session_event k handle_closed ∷ callbacks ks

  -- The events of a sequence, in their order.
  unfoldable pub server_run : Server h → List (ServerEvent h) → Server h
  server_run v [] = v
  server_run v (e ∷ es) = server_run (server_step h v e) es

  on_closed : Session h → Session h
  on_closed s = step h s handle_closed

  -- The map after those callbacks.
  unfoldable closings : List ℕ → Table h → Table h
  unfolding on_closed
  closings [] t = t
  closings (k ∷ ks) t = closings ks (run_on h k on_closed t)

  server_run-closings :
      (ks : List ℕ) (v : Server h) → (server_run v (callbacks ks)).sessions ≡ closings ks v.sessions
  unfolding server_run callbacks closings server_step on_closed
  server_run-closings [] v = refl
  server_run-closings (k ∷ ks) v =
      server_run-closings ks (server_step h v (session_event k handle_closed))

  -- One callback for a session that waits for some.
  turned :
      (k : ℕ) (ks : List ℕ) (n : ℕ) (s : Session h) (t : Table h)
      → Waits h (suc n) s
      → ((n : ℕ) (s : Session h)
          → Waits h n s
          → ids h (closings ks ((k, s) ∷ t))
            ≡ (if ltb (times k ks) n then k ∷ ids h (closings ks t) else ids h (closings ks t)))
      → ids h (closings ks (run_on h k on_closed ((k, s) ∷ t))) ≡ (
          if ltb (suc (times k ks)) (suc n)
          then k ∷ ids h (closings ks t)
          else ids h (closings ks t))
  unfolding on_closed
  turned k ks zero s t w ih =
      let over : ltb (suc (times k ks)) 1 ≡ false = ground arith in
      ap (λ u. ids h (closings ks u))
        (run_on-first h k on_closed s t ∙ settle-told h k s (on_closed s) t w)
      ∙ (rw over refl)
  turned k ks (suc n) s t (w, ws) ih =
      let same : ltb (times k ks) (suc n) ≡ ltb (suc (times k ks)) (suc (suc n)) = ground arith in
      ap (λ u. ids h (closings ks u))
        (run_on-first h k on_closed s t ∙ settle-untold h k s (on_closed s) t w)
      ∙ ih (suc n) (on_closed s) ws
      ∙ ap (λ b. if b then k ∷ ids h (closings ks t) else ids h (closings ks t)) same

  closings-none : (ks : List ℕ) → closings ks [] ≡ []
  unfolding closings run_on
  closings-none [] = refl
  closings-none (k ∷ ks) = closings-none ks

  -- A session that waits for `n` callbacks is in the map until there were so many.
  closings-Waits :
      (k : ℕ) (ks : List ℕ) (n : ℕ) (s : Session h) (t : Table h)
      → Ascending h (suc k) t
      → Waits h n s
      → ids h (closings ks ((k, s) ∷ t))
        ≡ (if ltb (times k ks) n then k ∷ ids h (closings ks t) else ids h (closings ks t))
  unfolding closings times ids on_closed
  closings-Waits k ks zero s t a w = absurd w
  closings-Waits k [] (suc n) s t a w = ground arith
  closings-Waits k (i ∷ ks) (suc n) s t a w = elim (Bool-cases (i == k)) [
    | inl e ↦
        let eq : i ≡ k = ground arith in
        ap (λ j. ids h (closings ks (run_on h j on_closed ((k, s) ∷ t)))) eq
        ∙ turned k ks n s t w (λ n' s' w'. closings-Waits k ks n' s' t a w')
        ∙ (rw (e, run_on-absent h i (suc k) on_closed t (omega arith) a) refl)
    | inr e ↦
        let no : k ≢ i = λ p. ground arith in
        ap (λ u. ids h (closings ks u)) (run_on-later h i k on_closed s t no)
        ∙ closings-Waits k ks (suc n) s (run_on h i on_closed t)
            (run_on-Ascending h i (suc k) on_closed t a) w
        ∙ (rw e refl)
  ]

  module _ (o : (w : h.World) → (h.timer_closing w ≡ false) × (h.tcp_closing w ≡ false)) where
    close_each-all :
        (t : Table h) (n : ℕ)
        → Ascending h n t
        → Each h (λ _ s. Closable h s) t
        → close_each h (ids h t) t ≡ closed_all t
    unfolding close_each ids Ascending Each closed_all
    close_each-all [] n a f = refl
    close_each-all ((k, s) ∷ t) n (b, a) (f, fs) =
        ap (close_each h (ids h t)) (
          run_on-first h k (λ s. close h s) s t
          ∙ settle-untold h k s (close h s) t (close-quiet h o s f))
        ∙ close_each-later t (suc k) k (close h s) t (omega arith) a
        ∙ ap (◌∷◌ (k, close h s)) (close_each-all t (suc k) a fs)

    closed_all-Ascending : (t : Table h) (n : ℕ) → Ascending h n t → Ascending h n (closed_all t)
    unfolding Ascending closed_all
    closed_all-Ascending [] n a = tt
    closed_all-Ascending ((k, s) ∷ t) n (b, a) = (b, closed_all-Ascending t (suc k) a)

    closings-all :
        (ks : List ℕ) (t : Table h) (n : ℕ)
        → Ascending h n t
        → Each h (λ _ s. Closable h s) t
        → ids h (closings ks (closed_all t)) ≡ unfinished ks t
    unfolding closed_all ids Each Ascending unfinished
    closings-all ks [] n a f = ap (ids h) (closings-none ks)
    closings-all ks ((k, s) ∷ t) n (b, a) (f, fs) =
        closings-Waits k ks (needed h s) (close h s) (closed_all t)
          (closed_all-Ascending t (suc k) a) (close-Waits h o s f)
        ∙ (rw (closings-all ks t (suc k) a fs) refl)

    -- A signal to a server that is not shutting down, whose map has its keys in order and whose sessions
    -- are each open, with both handles set up and neither closed, or closing with a handle left, and then
    -- libuv's callbacks that a handle is closed, for any sessions, in any order and number: in the map are
    -- left exactly the sessions, in their order, that had fewer callbacks than they needed, which are two
    -- for a session that was open, and for one that was closing as many as it had handles left.
    pub begin_shutdown-drains :
        (v : Server h) (ks : List ℕ)
        → v.shutting_down ≡ false
        → Ascending h 0 v.sessions
        → Each h (λ _ s. Closable h s) v.sessions
        → ids h (server_run (begin_shutdown h v) (callbacks ks)).sessions ≡ unfinished ks v.sessions
    unfolding begin_shutdown
    begin_shutdown-drains v ks u a f =
        ap (ids h) (server_run-closings ks (begin_shutdown h v))
        ∙ ap (λ t. ids h (closings ks t)) closed
        ∙ closings-all ks v.sessions 0 a f
      where
        closed : (begin_shutdown h v).sessions ≡ closed_all v.sessions
        closed =
            if-cases (λ (w : Server h). w.sessions ≡ closed_all v.sessions) v.shutting_down
              (λ e. absurd (ground (arith, u))) (λ _. close_each-all v.sessions 0 a f)
