-- ===== src/Server/Invariant.antt =====
-- What holds of the server whatever the event loop brings to it.
use assignment_logger_analyz.Prelude.{
  ℕ, ◌+◌, ◌%◌, ◌^◌, ◌≡◌, ◌≢◌, refl, Bool, true, false, ltb, ◌⊎◌, inl, inr, if-cases, List, [], ◌∷◌,
  length, arith,
}
use assignment_logger_analyz.Protocol.{server_busy, ErrorCode}
use assignment_logger_analyz.Decoder.Serialize.{serialize_error}
use assignment_logger_analyz.Session.Host.{Host}
use assignment_logger_analyz.Session.State.{closing, Session, resolve_peer}
use assignment_logger_analyz.Session.Outbox.{close}
use assignment_logger_analyz.Session.Events.{start, after_read_start, reject, after_reject}
use assignment_logger_analyz.Session.Loop.{Sane}
use assignment_logger_analyz.Session.Invariant.{
  step-Sane, new_session-Sane, close-Sane, touch_idle-Sane,
}
use assignment_logger_analyz.Session.Closing.{close-state, step-closing}
use assignment_logger_analyz.Server.{
  Server, Accept, init_failed, accept_failed, accepted, admit, accept_with, accept_one,
  on_connection, close_each, begin_shutdown, ServerEvent, connection, session_event, signal,
  server_step,
}
use assignment_logger_analyz.Server.Sessions.{Table, ids}
use assignment_logger_analyz.Server.Tables.{
  Ascending, Each, emplace-Ascending, run_on-Ascending, emplace-Each, run_on-Each, run_on-turns,
}

module _ (h : Host) where
  after_read_start-Sane :
      (s : Session h) (r : Bool × h.World) → Sane h s → Sane h (after_read_start h s r).1
  unfolding after_read_start
  after_read_start-Sane s (true, w) k =
      touch_idle-Sane h _
        (record { open_decoder = k.open_decoder; valid = k.valid; within = k.within })
  after_read_start-Sane s (false, w) k =
      close-Sane h _ (record { open_decoder = k.open_decoder; valid = k.valid; within = k.within })

  start-Sane : (s : Session h) → Sane h s → Sane h (start h s).1
  unfolding start resolve_peer
  start-Sane s k =
      after_read_start-Sane (resolve_peer h s) _
        (record { open_decoder = k.open_decoder; valid = k.valid; within = k.within })

  after_reject-Sane :
      (s : Session h) (x : List ℕ) (r : Bool × h.World) → Sane h s → Sane h (after_reject h s x r)
  unfolding after_reject
  after_reject-Sane s x (true, w) k = record {
    open_decoder = k.open_decoder;
    valid = k.valid;
    within = k.within;
  }
  after_reject-Sane s x (false, w) k =
      close-Sane h _ (record { open_decoder = k.open_decoder; valid = k.valid; within = k.within })

  reject-Sane : (s : Session h) (c : ErrorCode) (m : List ℕ) → Sane h s → Sane h (reject h s c m)
  unfolding reject resolve_peer
  reject-Sane s c m k =
      after_reject-Sane (resolve_peer h s) (serialize_error c m)
        (h.uv_write s.world (serialize_error c m))
        (record { open_decoder = k.open_decoder; valid = k.valid; within = k.within })

  -- The keys ascend, each session is sane, and each session of a server that is shutting down is closing.
  pub record WellFormed (v : Server h) : Type 0 where
    pub ordered : Ascending h 0 v.sessions
    pub sane : Each h (λ _ s. Sane h s) v.sessions
    pub down : v.shutting_down ≡ true → Each h (λ _ s. s.state ≡ closing) v.sessions

  admit-WellFormed :
      (v : Server h) (id : ℕ) → v.shutting_down ≡ false → WellFormed v → WellFormed (admit h v id)
  unfolding admit
  admit-WellFormed v id u k =
      if-cases WellFormed (ltb v.config.max_sessions (length v.sessions))
        (λ _. record {
          ordered = run_on-Ascending h id 0 _ v.sessions k.ordered;
          sane = run_on-Each h _ id _ v.sessions (λ s. reject-Sane s server_busy _) k.sane;
          down = λ e. absurd (ground (arith, u));
        })
        (λ _. record {
          ordered = run_on-Ascending h id 0 _ v.sessions k.ordered;
          sane = run_on-Each h _ id _ v.sessions start-Sane k.sane;
          down = λ e. absurd (ground (arith, u));
        })

  accept_with-WellFormed :
      (v : Server h) (id : ℕ) (a : Accept h)
      → v.shutting_down ≡ false
      → WellFormed v
      → WellFormed (accept_with h v id a)
  unfolding accept_with
  accept_with-WellFormed v id init_failed u k = k
  accept_with-WellFormed v id (accept_failed w) u k = record {
    ordered = emplace-Ascending h id 0 _ v.sessions (omega arith) k.ordered;
    sane = emplace-Each h _ id _ v.sessions (close-Sane h _ (new_session-Sane h _ _ _ _)) k.sane;
    down = λ e. absurd (ground (arith, u));
  }
  accept_with-WellFormed v id (accepted w) u k = admit-WellFormed _ id u (record {
    ordered = emplace-Ascending h id 0 _ v.sessions (omega arith) k.ordered;
    sane = emplace-Each h _ id _ v.sessions (new_session-Sane h _ _ _ _) k.sane;
    down = λ e. absurd (ground (arith, u));
  })

  accept_one-WellFormed :
      (v : Server h) (a : Accept h) → WellFormed v → WellFormed (accept_one h v a)
  unfolding accept_one
  accept_one-WellFormed v a k =
      if-cases WellFormed v.shutting_down (λ _. k)
        (λ e.
          accept_with-WellFormed (record v { next_id = (v.next_id + 1) % 2 ^ 32 }) v.next_id a e
            (record { ordered = k.ordered; sane = k.sane; down = k.down }))

  close_each-Ascending :
      (is : List ℕ) (t : Table h) → Ascending h 0 t → Ascending h 0 (close_each h is t)
  unfolding close_each
  close_each-Ascending [] t k = k
  close_each-Ascending (i ∷ is) t k = close_each-Ascending is _ (run_on-Ascending h i 0 _ t k)

  close_each-Each :
      (P : ℕ → Session h → Type 0) (is : List ℕ) (t : Table h)
      → ((k : ℕ) (s : Session h) → P k s → P k (close h s))
      → Each h P t
      → Each h P (close_each h is t)
  unfolding close_each
  close_each-Each P [] t f k = k
  close_each-Each P (i ∷ is) t f k = close_each-Each P is _ f (run_on-Each h P i _ t (f i) k)

  abbrev In : ℕ → List ℕ → Type 0
  In k [] = ⊥
  In k (i ∷ is) = (k ≡ i) ⊎ In k is

  -- A session that is closing, or that the loop is still to close.
  abbrev Pending : List ℕ → ℕ → Session h → Type 0
  Pending is k s = In k is ⊎ (s.state ≡ closing)

  shut : (k i : ℕ) (is : List ℕ) (s : Session h) → k ≢ i → Pending (i ∷ is) k s → Pending is k s
  shut k i is s n (inl (inl e)) = absurd (n e)
  shut k i is s n (inl (inr m)) = inl m
  shut k i is s n (inr c) = inr c

  close_each-closing :
      (is : List ℕ) (t : Table h)
      → Ascending h 0 t
      → Each h (Pending is) t
      → Each h (Pending []) (close_each h is t)
  unfolding close_each
  close_each-closing [] t a p = p
  close_each-closing (i ∷ is) t a p = close_each-closing is _ (run_on-Ascending h i 0 _ t a) (
      run_on-turns h (Pending (i ∷ is)) (Pending is) i (λ k s. shut k i is s) 0 _ t
        (λ s _. inr (close-state h s)) a p)

  ids-Pending :
      (is : List ℕ) (t : Table h) → ((k : ℕ) → In k (ids h t) → In k is) → Each h (Pending is) t
  unfolding ids Each
  ids-Pending is [] f = tt
  ids-Pending is ((k, s) ∷ t) f = (inl (f k (inl refl)), ids-Pending is t (λ j m. f j (inr m)))

  settled : (t : Table h) → Each h (Pending []) t → Each h (λ _ s. s.state ≡ closing) t
  unfolding Each
  settled [] p = tt
  settled ((k, s) ∷ t) (inl e, ps) = absurd e
  settled ((k, s) ∷ t) (inr e, ps) = (e, settled t ps)

  begin_shutdown-WellFormed : (v : Server h) → WellFormed v → WellFormed (begin_shutdown h v)
  unfolding begin_shutdown
  begin_shutdown-WellFormed v k =
      if-cases WellFormed v.shutting_down (λ _. k)
        (λ _. record {
          ordered = close_each-Ascending (ids h v.sessions) v.sessions k.ordered;
          sane = close_each-Each _ (ids h v.sessions) v.sessions (λ _ s. close-Sane h s) k.sane;
          down = λ _. settled _ (
              close_each-closing (ids h v.sessions) v.sessions k.ordered
                (ids-Pending _ v.sessions (λ _ m. m)));
        })

  on_connection-WellFormed :
      (v : Server h) (ok : Bool) (a : Accept h) → WellFormed v → WellFormed (on_connection h v ok a)
  unfolding on_connection
  on_connection-WellFormed v true a k = accept_one-WellFormed v a k
  on_connection-WellFormed v false a k = k

  -- Every event keeps a well-formed server well formed: the keys of its map ascend, each session is
  -- sane, and once the server is shutting down, which a signal begins, each session in it is closing.
  pub server_step-WellFormed :
      (v : Server h) (e : ServerEvent h) → WellFormed v → WellFormed (server_step h v e)
  unfolding server_step
  server_step-WellFormed v (connection ok a) k = on_connection-WellFormed v ok a k
  server_step-WellFormed v (session_event i e) k = record {
    ordered = run_on-Ascending h i 0 _ v.sessions k.ordered;
    sane = run_on-Each h _ i _ v.sessions (λ s. step-Sane h s e) k.sane;
    down = λ u. run_on-Each h _ i _ v.sessions (λ s c. (step-closing h s e c).0) (k.down u);
  }
  server_step-WellFormed v signal k = begin_shutdown-WellFormed v k
