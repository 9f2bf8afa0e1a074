-- ===== src/Session/Closing.antt =====
-- How a session ends, and what ends an upload.
use assignment_logger_analyz.Prelude.{
  ℕ, zero, suc, ◌+◌, ◌-◌, ◌%◌, ◌^◌, ◌≡◌, ◌≢◌, ◌↔◌, refl, ap, ◌∙◌, Bool, true, false, ◌&&◌, ltb,
  ◌==◌, if-cases, Bool-cases, inl, inr, [], ◌∷◌, Bytes, codes, length, ◌≤◌, List, arith, none, some,
  Option, if◌then◌else◌,
}
use assignment_logger_analyz.Splitter
use assignment_logger_analyz.Splitter.{new_splitter}
use assignment_logger_analyz.Aggregator
use assignment_logger_analyz.Aggregator.{new_aggregator}
use assignment_logger_analyz.Session.Host.{Host}
use assignment_logger_analyz.Session.State.{State, await_hello, ready, uploading, closing, Session}
use assignment_logger_analyz.Session.Outbox.{
  close, close_in, close_open, close_handles, stop_handles, notify_if_idle, send, send_error,
  refuse, report_partial_upload, elapsed_ms,
}
use assignment_logger_analyz.Session.Upload.{read_upload_end}
use assignment_logger_analyz.Session.UploadEnd.{handle_upload_end, after_upload_end}
use assignment_logger_analyz.Session.Dispatch.{process, process_loop}
use assignment_logger_analyz.Session.Events.{
  Event, read, written, timeout, handle_closed, shutdown, Read, bytes, again, end_of_stream,
  read_error, step, on_read, on_write, on_idle_timeout, on_handle_closed, touch_idle, give_up,
  pop_front,
}

module _ (h : Host) where
  close_open-state : (s : Session h) → (close_open h s).state ≡ s.state
  unfolding close_open close_handles stop_handles notify_if_idle
  close_open-state s =
      opened (if s.handles_inited then close_handles h (stop_handles h s) else s)
        (if-cases (λ (t : Session h). t.state ≡ s.state) s.handles_inited (λ _. refl) (λ _. refl))
    where
      opened : (t : Session h) → t.state ≡ s.state → (notify_if_idle h t).state ≡ s.state
      opened t e =
          if-cases (λ (t : Session h). t.state ≡ s.state) (t.pending_close == 0) (λ _. e) (λ _. e)

  close_in-state : (t : State) (s : Session h) → s.state ≡ t → (close_in h t s).state ≡ closing
  unfolding close_in
  close_in-state closing s e = e
  close_in-state await_hello s e = close_open-state (record s { state = closing })
  close_in-state ready s e = close_open-state (record s { state = closing })
  close_in-state uploading s e =
      close_open-state
        (report_partial_upload h (record s { state = closing })
          (codes "connection lost during upload")).1
      ∙ (unfold report_partial_upload in refl)

  pub close-state : (s : Session h) → (close h s).state ≡ closing
  unfolding close
  close-state s = close_in-state s.state s refl

  -- It is closing, and libuv was called no more: nothing was written and no clock read, the timer and
  -- the reading of the socket are as they were, no frame was decoded, and no write and no handle to be
  -- closed was added to those that libuv still has.
  abbrev pub Rests : Session h → Session h → Type 0
  Rests s s' =
      (s'.state ≡ closing)
      × (s'.world ≡ s.world)
      × (s'.timer ≡ s.timer)
      × (s'.reading ≡ s.reading)
      × (s'.decoder ≡ s.decoder)
      × (length s'.writes ≤ length s.writes)
      × (s'.pending_close ≤ s.pending_close)

  pop_front-le : (ws : List Bytes) → length (pop_front h ws) ≤ length ws
  pop_front-le [] = omega arith
  pop_front-le (w ∷ ws) = omega arith

  module _ (s : Session h) (e : s.state ≡ closing) where
    close-Rests : Rests s (close h s)
    unfolding close close_in
    close-Rests = rw e (refl, refl, refl, refl, refl, omega arith, omega arith)

    send_error-Rests : (c : _) (m : Bytes) → Rests s (send_error h s c m)
    unfolding send_error send
    send_error-Rests c m = rw e (refl, refl, refl, refl, refl, omega arith, omega arith)

    process-Rests : (x : Bytes) → Rests s (process h s x)
    unfolding process process_loop
    process-Rests [] = (e, refl, refl, refl, refl, omega arith, omega arith)
    process-Rests (c ∷ x) = rw e (refl, refl, refl, refl, refl, omega arith, omega arith)

    touch_idle-Rests : Rests s (touch_idle h s)
    unfolding touch_idle
    touch_idle-Rests = rw e (refl, refl, refl, refl, refl, omega arith, omega arith)

    on_write-Rests : (ok : Bool) → Rests s (on_write h s ok)
    unfolding on_write close close_in
    on_write-Rests false = rw e (refl, refl, refl, refl, refl, pop_front-le s.writes, omega arith)
    on_write-Rests true =
        if-cases (Rests s) (s.close_after_flush && (length (pop_front h s.writes) == 0))
          (λ _. rw e (refl, refl, refl, refl, refl, pop_front-le s.writes, omega arith))
          (λ _. (e, refl, refl, refl, refl, pop_front-le s.writes, omega arith))

    on_idle_timeout-Rests : Rests s (on_idle_timeout h s)
    unfolding on_idle_timeout refuse send_error send
    on_idle_timeout-Rests = rw e (refl, refl, refl, refl, refl, omega arith, omega arith)

    on_handle_closed-Rests : Rests s (on_handle_closed h s)
    unfolding on_handle_closed
    on_handle_closed-Rests =
        if-cases (Rests s) (ltb 0 (s.pending_close - 1))
          (λ _. (e, refl, refl, refl, refl, omega arith, omega arith))
          (λ _. (e, refl, refl, refl, refl, omega arith, omega arith))

  Rests-trans : (s t u : Session h) → Rests s t → Rests t u → Rests s u
  Rests-trans s t u (a, b, c, d, e, f, g) (a', b', c', d', e', f', g') =
      (a', b' ∙ b, c' ∙ c, d' ∙ d, e' ∙ e, omega arith, omega arith)

  on_read-Rests : (s : Session h) (r : Read) → s.state ≡ closing → Rests s (on_read h s r)
  unfolding on_read
  on_read-Rests s (bytes x) e =
      let fresh = record s { rx_bytes = (s.rx_bytes + length x) % 2 ^ 64 } in
      let fed = process-Rests fresh e x in
      Rests-trans s (process h fresh x) (touch_idle h (process h fresh x)) fed
        (touch_idle-Rests (process h fresh x) fed.0)
  on_read-Rests s again e = (e, refl, refl, refl, refl, omega arith, omega arith)
  on_read-Rests s end_of_stream e = close-Rests s e
  on_read-Rests s read_error e = close-Rests s e

  -- A session that is closing stays closing, whatever the event: it writes no frame, reads no clock,
  -- neither starts nor stops its timer or the reading of its socket, decodes no byte, and closes no
  -- further handle; the writes and the handles libuv still has only become fewer.
  pub step-closing : (s : Session h) (e : Event) → s.state ≡ closing → Rests s (step h s e)
  unfolding step
  step-closing s (read r) e = on_read-Rests s r e
  step-closing s (written ok) e = on_write-Rests s e ok
  step-closing s timeout e = on_idle_timeout-Rests s e
  step-closing s handle_closed e = on_handle_closed-Rests s e
  step-closing s shutdown e = close-Rests s e

  -- A client that says nothing for `n` ticks of the timer.
  abbrev pub silent : ℕ → Session h → Session h
  silent zero s = s
  silent (suc n) s = step h (silent n s) timeout

  -- In an upload that no tick has passed since data came, the third tick without data closes the
  -- session, and after the first two the upload goes on.
  pub silent-ends :
      (s : Session h)
      → s.state ≡ uploading
      → s.stall_ticks ≡ 0
      → ((silent 2 s).state ≡ uploading) × ((silent 3 s).state ≡ closing)
  unfolding step on_idle_timeout give_up
  silent-ends s e z = rw (e, z) (refl, close-state _)

  -- UPLOAD_END is accepted exactly where its payload can be read and the size in it, the size that
  -- was declared and the number of bytes received are the same.
  pub handle_upload_end-exact :
      (s : Session h)
      → ((handle_upload_end h s).0 ≡ true) ↔ (
          (read_upload_end s.decoder.payload ≡ some s.upload_declared)
          × (s.upload_received ≡ s.upload_declared))
  unfolding handle_upload_end after_upload_end
  handle_upload_end-exact s = exact (read_upload_end s.decoder.payload)
    where
      exact :
          (r : Option ℕ)
          → ((after_upload_end h s r).0 ≡ true)
            ↔ ((r ≡ some s.upload_declared) × (s.upload_received ≡ s.upload_declared))
      exact none = (λ e. absurd (ground arith), λ p. absurd (ground arith))
      exact (some claimed) = elim (Bool-cases (s.upload_received == s.upload_declared)) [
        | inr a ↦ rw a (λ e. absurd (ground arith), λ p. absurd (ground arith))
        | inl a ↦ elim (Bool-cases (claimed == s.upload_declared)) [
          | inr b ↦ rw (a, b) (λ e. absurd (ground arith), λ p. absurd (ground arith))
          | inl b ↦ rw (a, b) (λ e. (ap some (ground arith), ground arith), λ p. refl)
        ]
      ]

  -- What has become of a cancelled upload: each field of it is as in a session that had none.
  abbrev pub Cleared : Session h → Bool × Session h → Type 0
  Cleared s (keep_going, s') =
      (keep_going ≡ true)
      × (s'.state ≡ ready)
      × (s'.upload_declared ≡ 0)
      × (s'.upload_received ≡ 0)
      × (s'.last_ack_at ≡ 0)
      × (s'.line_offset ≡ 0)
      × (s'.upload_name ≡ [])
      × (s'.result_csv ≡ [])
      × (s'.splitter ≡ new_splitter s.splitter.max_line)
      × (s'.agg ≡ new_aggregator h.doubles)
      × (s'.close_after_flush ≡ s.close_after_flush)

  -- Open: nothing is closed yet, and `n` calls of the owner lie behind.
  abbrev pub Told : ℕ → Session h → Type 0
  Told n s =
      let once = step h s handle_closed in
      (s.notified ≡ n) × (once.notified ≡ n) × ((step h once handle_closed).notified ≡ n + 1)

  module _ (o : (w : h.World) → (h.timer_closing w ≡ false) × (h.tcp_closing w ≡ false)) where
    close_open-Told :
        (s : Session h)
        → s.handles_inited ≡ true
        → s.pending_close ≡ 0
        → Told s.notified (close_open h s)
    unfolding close_open close_handles stop_handles notify_if_idle step on_handle_closed
    close_open-Told s i p = rw (i, p, (o s.world).0, (o s.world).1) (refl, refl, refl)

    close_in-Told :
        (t : State) (s : Session h)
        → t ≢ closing
        → s.handles_inited ≡ true
        → s.pending_close ≡ 0
        → Told s.notified (close_in h t s)
    unfolding close_in report_partial_upload elapsed_ms
    close_in-Told closing s n i p = absurd (n refl)
    close_in-Told await_hello s n i p = close_open-Told (record s { state = closing }) i p
    close_in-Told ready s n i p = close_open-Told (record s { state = closing }) i p
    close_in-Told uploading s n i p =
        close_open-Told
          (report_partial_upload h (record s { state = closing })
            (codes "connection lost during upload")).1
          i p

    -- A session that is not closing, with both handles set up and open, tells its owner once when it is
    -- closed: not by the close itself
    -- and not while one handle is open, but when both are closed.
    pub close-notifies :
        (s : Session h)
        → s.state ≢ closing
        → s.handles_inited ≡ true
        → s.pending_close ≡ 0
        → Told s.notified (close h s)
    unfolding close
    close-notifies s n i p = close_in-Told s.state s n i p
