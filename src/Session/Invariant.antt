-- ===== src/Session/Invariant.antt =====
-- What holds of a session whatever the event loop brings to it.
use assignment_logger_analyz.Prelude.{
  ℕ, ◌+◌, ◌-◌, refl, sym, subst, Bool, true, false, not, ◌||◌, ◌&&◌, ltb, ◌==◌, if-cases, length,
  arith,
}
use assignment_logger_analyz.Decoder.Bounds.{Valid, fresh-Valid}
use assignment_logger_analyz.Decoder.Progress.{Open, fresh-Open}
use assignment_logger_analyz.Session.Host.{Host}
use assignment_logger_analyz.Session.State.{
  is_closing, is_uploading, Session, new_session, stall_tick_limit,
}
use assignment_logger_analyz.Session.Outbox.{close, report_partial_upload, elapsed_ms}
use assignment_logger_analyz.Session.Events.{
  Event, read, written, timeout, handle_closed, shutdown, Read, bytes, again, end_of_stream,
  read_error, step, on_read, on_write, on_idle_timeout, on_handle_closed, touch_idle, give_up,
  pop_front,
}
use assignment_logger_analyz.Session.Frames.{Frame, close-Frame, refuse-Frame, send_error-Frame}
use assignment_logger_analyz.Session.Loop.{Sane, process-Sane}

module _ (h : Host) where
  keep : (s s' : Session h) → Sane h s → Frame h s.decoder s' → Sane h s'
  keep s s' k f = record {
    open_decoder = subst Open (sym f.decoder) k.open_decoder;
    valid = subst Valid (sym f.decoder) k.valid;
    within = f.within;
  }

  same : (s : Session h) → Sane h s → Frame h s.decoder s
  same s k = record { decoder = refl; within = k.within }

  pub close-Sane : (s : Session h) → Sane h s → Sane h (close h s)
  close-Sane s k = keep s _ k (close-Frame h s.decoder s (same s k))

  pub touch_idle-Sane : (s : Session h) → Sane h s → Sane h (touch_idle h s)
  unfolding touch_idle
  touch_idle-Sane s k =
      if-cases (Sane h) (is_closing s.state || not s.handles_inited) (λ _. k)
        (λ _.
          if-cases (Sane h) (not (is_uploading s.state))
            (λ _. record { open_decoder = k.open_decoder; valid = k.valid; within = k.within })
            (λ _. record { open_decoder = k.open_decoder; valid = k.valid; within = k.within }))

  on_read-Sane : (s : Session h) (r : Read) → Sane h s → Sane h (on_read h s r)
  unfolding on_read
  on_read-Sane s (bytes x) k = touch_idle-Sane _ (
      process-Sane h _ x
        (record { open_decoder = k.open_decoder; valid = k.valid; within = k.within }))
  on_read-Sane s again k = k
  on_read-Sane s end_of_stream k = close-Sane s k
  on_read-Sane s read_error k = close-Sane s k

  on_write-Sane : (s : Session h) (ok : Bool) → Sane h s → Sane h (on_write h s ok)
  unfolding on_write
  on_write-Sane s false k =
      close-Sane _ (record { open_decoder = k.open_decoder; valid = k.valid; within = k.within })
  on_write-Sane s true k =
      if-cases (Sane h) (s.close_after_flush && (length (pop_front h s.writes) == 0))
        (λ _. close-Sane _ popped) (λ _. popped)
    where
      popped : Sane h (record s { writes = pop_front h s.writes })
      popped = record { open_decoder = k.open_decoder; valid = k.valid; within = k.within }

  give_up-Sane : (s : Session h) → Sane h s → Sane h (give_up h s)
  unfolding give_up report_partial_upload elapsed_ms
  give_up-Sane s k = keep s _ k (
      close-Frame h s.decoder _ (
        send_error-Frame h s.decoder _ _ _
          (record { decoder = refl; within = λ e. absurd (ground arith) })))

  on_idle_timeout-Sane : (s : Session h) → Sane h s → Sane h (on_idle_timeout h s)
  unfolding on_idle_timeout
  on_idle_timeout-Sane s k =
      if-cases (Sane h) (is_uploading s.state)
        (λ _.
          if-cases (Sane h) (ltb (s.stall_ticks + 1) stall_tick_limit)
            (λ _. record { open_decoder = k.open_decoder; valid = k.valid; within = k.within })
            (λ _.
              give_up-Sane (record s { stall_ticks = s.stall_ticks + 1 })
                (record { open_decoder = k.open_decoder; valid = k.valid; within = k.within })))
        (λ _. keep s _ k (refuse-Frame h s.decoder s _ _ (same s k)))

  on_handle_closed-Sane : (s : Session h) → Sane h s → Sane h (on_handle_closed h s)
  unfolding on_handle_closed
  on_handle_closed-Sane s k =
      if-cases (Sane h) (ltb 0 (s.pending_close - 1))
        (λ _. record { open_decoder = k.open_decoder; valid = k.valid; within = k.within })
        (λ _. record { open_decoder = k.open_decoder; valid = k.valid; within = k.within })

  -- Every event keeps a sane session sane: its decoder stays within its buffers and able to go on, and an
  -- upload that is under way has received no more than its declared size.
  pub step-Sane : (s : Session h) (e : Event) → Sane h s → Sane h (step h s e)
  unfolding step
  step-Sane s (read r) k = on_read-Sane s r k
  step-Sane s (written ok) k = on_write-Sane s ok k
  step-Sane s timeout k = on_idle_timeout-Sane s k
  step-Sane s handle_closed k = on_handle_closed-Sane s k
  step-Sane s shutdown k = close-Sane s k

  pub new_session-Sane : (id idle stall : ℕ) (w : h.World) → Sane h (new_session h id idle stall w)
  new_session-Sane id idle stall w = record {
    open_decoder = fresh-Open;
    valid = fresh-Valid;
    within = λ e. absurd (ground arith);
  }
