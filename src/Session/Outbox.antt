-- ===== src/Session/Outbox.antt =====
-- What a session writes, and how it closes: `send`, `send_error`, `close` and
-- `report_partial_upload` of 01.Sources/SERVER/src/net/TcpSession.cpp.
use assignment_logger_analyz.Prelude.{
  ℕ, ◌+◌, ◌-◌, ◌/◌, ltb, ◌==◌, if◌then◌else◌, Bool, true, false, not, ◌||◌, none, [], ◌∷◌, ◌++◌,
  Bytes, codes, take, decimal,
}
use assignment_logger_analyz.Protocol.{MsgType, error, ErrorCode, error_number}
use assignment_logger_analyz.Payload.Writer
use assignment_logger_analyz.Decoder.Serialize.{serialize_frame}
use assignment_logger_analyz.Aggregator.{rejected_lines}
use assignment_logger_analyz.Session.Host.{Host}
use assignment_logger_analyz.Session.State.{
  State, await_hello, ready, uploading, closing, is_closing, Session,
}

module _ (h : Host) where
  open h.doubles use {zero_d, mul_d, div_d, of_nat, fixed}

  -- snprintf of the summary, with what `elapsed_ms` and `rss` were found to be.
  unfoldable pub partial_text : Session h → Bytes → ℕ → ℕ → Bytes
  unfolding decimal
  partial_text s headline elapsed_ms rss = take 383 (
      headline
      ++ (codes " | processed "
          ++ (decimal s.upload_received
              ++ (codes " / "
                  ++ (decimal s.upload_declared
                      ++ (codes " bytes ("
                          ++ (fixed 1 (
                                if ltb 0 s.upload_declared
                                then div_d (mul_d (of_nat 100) (of_nat s.upload_received))
                                    (of_nat s.upload_declared)
                                else zero_d)
                              ++ (codes "%), lines="
                                  ++ (decimal s.agg.total_lines
                                      ++ (codes ", accepted="
                                          ++ (decimal s.agg.accepted_lines
                                              ++ (codes ", rejected="
                                                  ++ (decimal (rejected_lines h.doubles s.agg)
                                                      ++ (codes ", elapsed="
                                                          ++ (decimal elapsed_ms
                                                            ++ (codes " ms, peak RSS="
                                                            ++ (decimal rss
                                                            ++ codes " kB")))))))))))))))))

  -- The time since the upload began, by a clock that is read where one has begun.
  unfoldable pub elapsed_ms : Session h → ℕ × h.World
  elapsed_ms s =
      let (now, w) = h.hrtime s.world in
      if ltb 0 s.upload_start_ns then ((now - s.upload_start_ns) / 1000000, w) else (0, s.world)

  unfoldable pub report_partial_upload : Session h → Bytes → Bytes × Session h
  unfolding partial_text elapsed_ms
  report_partial_upload s headline =
      let (ms, w) = elapsed_ms s in
      let (rss, w') = h.peak_rss_kb w in (partial_text s headline ms rss, record s { world = w' })

  unfoldable pub stop_handles : Session h → Session h
  stop_handles s = record s { reading = false; timer = none }

  -- The two blocks around uv_close.
  unfoldable pub close_handles : Session h → Session h
  close_handles s = record s {
    pending_close =
        s.pending_close
        + (if h.timer_closing s.world then 0 else 1)
        + (if h.tcp_closing s.world then 0 else 1);
  }

  unfoldable pub notify_if_idle : Session h → Session h
  notify_if_idle s = if s.pending_close == 0 then record s { notified = s.notified + 1 } else s

  unfoldable pub close_open : Session h → Session h
  unfolding stop_handles close_handles notify_if_idle
  close_open s = notify_if_idle (if s.handles_inited then close_handles (stop_handles s) else s)

  unfoldable pub close_in : State → Session h → Session h
  unfolding close_open report_partial_upload
  close_in closing s = s
  close_in await_hello s = close_open (record s { state = closing })
  close_in ready s = close_open (record s { state = closing })
  close_in uploading s =
      let (_, s') =
        report_partial_upload (record s { state = closing })
          (codes "connection lost during upload") in
      close_open s'

  -- The reason is only logged.
  unfoldable pub close : Session h → Session h
  unfolding close_in
  close s = close_in s.state s

  -- After uv_write: the frame stays in the queue, or the session is closed.
  unfoldable pub after_write : Session h → Bytes → Bool × h.World → Session h
  unfolding close
  after_write s frame (true, w) = record s { writes = s.writes ++ (frame ∷ []); world = w }
  after_write s frame (false, w) = close (record s { world = w })

  unfoldable pub send : Session h → MsgType → Bytes → Session h
  unfolding after_write serialize_frame
  send s type payload =
      if is_closing s.state || not s.handles_inited
      then s
      else after_write s (serialize_frame type payload)
          (h.uv_write s.world (serialize_frame type payload))

  unfoldable pub send_error : Session h → ErrorCode → Bytes → Session h
  unfolding send
  send_error s code message =
      send s error (Writer.str16 (Writer.u16 [] (error_number code)) message)

  -- send_error and close_after_flush_ = true, which many handlers end with.
  unfoldable pub refuse : Session h → ErrorCode → Bytes → Session h
  refuse s code message = record (send_error s code message) { close_after_flush = true }
