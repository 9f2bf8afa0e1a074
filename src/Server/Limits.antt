-- ===== src/Server/Limits.antt =====
-- How many sessions the server serves at a time, and what a shutdown leaves.
use assignment_logger_analyz.Prelude.{
  ℕ, suc, ◌+◌, ◌%◌, ◌^◌, ◌≤◌, ◌≡◌, refl, Bool, true, false, ltb, ◌==◌, if-cases, List, [], ◌∷◌,
  length, codes, arith, if◌then◌else◌,
}
use assignment_logger_analyz.Protocol.{server_busy, ErrorCode}
use assignment_logger_analyz.Decoder.Serialize.{serialize_error}
use assignment_logger_analyz.Session.Host.{Host}
use assignment_logger_analyz.Session.State.{
  State, closing, await_hello, ready, uploading, Session, resolve_peer,
}
use assignment_logger_analyz.Session.Outbox.{
  close, close_in, close_open, stop_handles, close_handles, notify_if_idle, report_partial_upload,
  elapsed_ms,
}
use assignment_logger_analyz.Session.Events.{start, reject, after_reject}
use assignment_logger_analyz.Server.{
  Server, Accept, init_failed, accept_failed, accepted, admit, accept_with, accept_one,
  on_connection, begin_shutdown, ServerEvent, connection, session_event, signal, server_step,
  session_of,
}
use assignment_logger_analyz.Server.Sessions.{Table, emplace, erase, settle, run_on}

module _ (h : Host) where
  -- The sessions whose socket is read.
  unfoldable pub served : Table h → ℕ
  served [] = 0
  served ((k, s) ∷ t) = (if s.reading then 1 else 0) + served t

  served-length : (t : Table h) → served t ≤ length t
  unfolding served
  served-length [] = omega arith
  served-length ((k, s) ∷ t) = ground (arith, served-length t)

  served-erase : (id : ℕ) (t : Table h) → served (erase h id t) ≤ served t
  unfolding served erase
  served-erase id [] = omega arith
  served-erase id ((k, s) ∷ t) =
      if-cases (λ u. served u ≤ (if s.reading then 1 else 0) + served t) (k == id)
        (λ _. ground arith) (λ _. ground (arith, served-erase id t))

  length-erase : (id : ℕ) (t : Table h) → length (erase h id t) ≤ length t
  unfolding erase
  length-erase id [] = omega arith
  length-erase id ((k, s) ∷ t) =
      if-cases (λ (u : Table h). length u ≤ suc (length t)) (k == id) (λ _. ground arith)
        (λ _. ground (arith, length-erase id t))

  served-emplace :
      (id : ℕ) (x : Session h) (t : Table h)
      → x.reading ≡ false
      → served (emplace h id x t) ≤ served t
  unfolding served emplace
  served-emplace id x [] e = ground arith
  served-emplace id x ((k, s) ∷ t) e =
      if-cases (λ u. served u ≤ (if s.reading then 1 else 0) + served t) (ltb k id)
        (λ _. ground (arith, served-emplace id x t e))
        (λ _.
          if-cases (λ u. served u ≤ (if s.reading then 1 else 0) + served t) (k == id)
            (λ _. ground arith) (λ _. ground arith))

  served-run_on :
      (id : ℕ) (f : Session h → Session h) (t : Table h)
      → ((s : Session h) → s.reading ≡ false → (f s).reading ≡ false)
      → served (run_on h id f t) ≤ served t
  unfolding served run_on settle
  served-run_on id f [] g = omega arith
  served-run_on id f ((k, s) ∷ t) g =
      if-cases (λ u. served u ≤ (if s.reading then 1 else 0) + served t) (k == id)
        (λ _.
          if-cases (λ u. served u ≤ (if s.reading then 1 else 0) + served t)
            (ltb s.notified (f s).notified)
            (λ _. ground (arith, served-erase k ((k, f s) ∷ t), g s)) (λ _. ground (arith, g s)))
        (λ _. ground (arith, served-run_on id f t g))

  length-run_on :
      (id : ℕ) (f : Session h → Session h) (t : Table h) → length (run_on h id f t) ≤ length t
  unfolding run_on settle
  length-run_on id f [] = omega arith
  length-run_on id f ((k, s) ∷ t) =
      if-cases (λ (u : Table h). length u ≤ suc (length t)) (k == id)
        (λ _.
          if-cases (λ (u : Table h). length u ≤ suc (length t)) (ltb s.notified (f s).notified)
            (λ _. length-erase k ((k, f s) ∷ t)) (λ _. omega arith))
        (λ _. ground (arith, length-run_on id f t))

  close_open-reading : (s : Session h) → s.reading ≡ false → (close_open h s).reading ≡ false
  unfolding close_open close_handles stop_handles notify_if_idle
  close_open-reading s e =
      idle (if s.handles_inited then close_handles h (stop_handles h s) else s)
        (if-cases (λ (t : Session h). t.reading ≡ false) s.handles_inited (λ _. refl) (λ _. e))
    where
      idle : (t : Session h) → t.reading ≡ false → (notify_if_idle h t).reading ≡ false
      idle t e =
          if-cases (λ (t : Session h). t.reading ≡ false) (t.pending_close == 0) (λ _. e) (λ _. e)

  close_in-reading :
      (t : State) (s : Session h) → s.reading ≡ false → (close_in h t s).reading ≡ false
  unfolding close_in report_partial_upload elapsed_ms
  close_in-reading closing s e = e
  close_in-reading await_hello s e = close_open-reading (record s { state = closing }) e
  close_in-reading ready s e = close_open-reading (record s { state = closing }) e
  close_in-reading uploading s e =
      close_open-reading
        (report_partial_upload h (record s { state = closing })
          (codes "connection lost during upload")).1
        e

  close-reading : (s : Session h) → s.reading ≡ false → (close h s).reading ≡ false
  unfolding close
  close-reading s e = close_in-reading s.state s e

  after_reject-reading :
      (s : Session h) (x : List ℕ) (r : Bool × h.World)
      → s.reading ≡ false
      → (after_reject h s x r).reading ≡ false
  unfolding after_reject
  after_reject-reading s x (true, w) e = e
  after_reject-reading s x (false, w) e = close-reading _ e

  reject-reading :
      (s : Session h) (c : ErrorCode) (m : List ℕ)
      → s.reading ≡ false
      → (reject h s c m).reading ≡ false
  unfolding reject resolve_peer
  reject-reading s c m e =
      after_reject-reading (resolve_peer h s) (serialize_error c m)
        (h.uv_write s.world (serialize_error c m)) e

  -- As many sessions are read as the limit allows.
  abbrev pub Limited : Server h → Type 0
  Limited v = served v.sessions ≤ v.config.max_sessions

  admit-Limited : (v : Server h) (id : ℕ) → Limited v → Limited (admit h v id)
  unfolding admit
  admit-Limited v id k =
      if-cases (λ v. Limited v) (ltb v.config.max_sessions (length v.sessions))
        (λ _. ground (
          arith,
          served-run_on id
              (λ s. reject h s server_busy (codes "server busy: too many concurrent sessions"))
              v.sessions (λ s. reject-reading s server_busy _),
        ))
        (λ e. ground (
          arith,
          served-length (run_on h id (λ s. (start h s).1) v.sessions),
          length-run_on id (λ s. (start h s).1) v.sessions,
        ))

  accept_with-Limited :
      (v : Server h) (id : ℕ) (a : Accept h) → Limited v → Limited (accept_with h v id a)
  unfolding accept_with
  accept_with-Limited v id init_failed k = k
  accept_with-Limited v id (accept_failed w) k =
      ground
        (arith, served-emplace id (close h (session_of h v id w)) v.sessions (close-reading _ refl))
  accept_with-Limited v id (accepted w) k =
      admit-Limited (record v { sessions = emplace h id (session_of h v id w) v.sessions }) id
        (ground (arith, served-emplace id (session_of h v id w) v.sessions refl))

  -- Where no more sessions are read than the limit allows, this holds after a connection too, whatever
  -- libuv answers to it: past the limit a session is turned away without its socket being read.
  pub accept_one-Limited : (v : Server h) (a : Accept h) → Limited v → Limited (accept_one h v a)
  unfolding accept_one
  accept_one-Limited v a k =
      if-cases (λ v. Limited v) v.shutting_down (λ _. k)
        (λ _. accept_with-Limited (record v { next_id = (v.next_id + 1) % 2 ^ 32 }) v.next_id a k)

  -- A server that is shutting down goes on with it, and its map grows no more.
  abbrev pub Winding : Server h → Server h → Type 0
  Winding v v' = (v'.shutting_down ≡ true) × (length v'.sessions ≤ length v.sessions)

  -- Every event leaves a server that is shutting down in its shutdown, and the map of its sessions has
  -- no more sessions after it: a connection is not taken any more.
  pub server_step-Winding :
      (v : Server h) (e : ServerEvent h) → v.shutting_down ≡ true → Winding v (server_step h v e)
  unfolding server_step on_connection accept_one begin_shutdown
  server_step-Winding v (connection true a) u = rw u (refl, omega arith)
  server_step-Winding v (connection false a) u = (u, omega arith)
  server_step-Winding v (session_event i e) u = (u, length-run_on i _ v.sessions)
  server_step-Winding v signal u = rw u (refl, omega arith)
