-- ===== src/Session/Events.antt =====
-- The callbacks of libuv and what starts a session: 01.Sources/SERVER/src/net/TcpSession.cpp.
use assignment_logger_analyz.Prelude.{
  ◌+◌, ◌-◌, ◌/◌, ◌%◌, ◌^◌, ltb, ◌==◌, if◌then◌else◌, Bool, true, false, not, ◌||◌, ◌&&◌, none, some,
  List, [], ◌∷◌, ◌++◌, Bytes, codes, length,
}
use assignment_logger_analyz.Protocol.{ErrorCode}
use assignment_logger_analyz.Protocol
use assignment_logger_analyz.Decoder.Serialize.{serialize_error}
use assignment_logger_analyz.Session.Host.{Host}
use assignment_logger_analyz.Session.State.{
  ready, is_closing, is_uploading, Session, resolve_peer, stall_tick_limit,
}
use assignment_logger_analyz.Session.Outbox.{send_error, refuse, close, report_partial_upload}
use assignment_logger_analyz.Session.Dispatch.{process}

-- The outcomes of a read: bytes, no bytes for now, the end of the stream, or an error.
pub data Read : Type 0 where
  bytes : Bytes → Read
  again end_of_stream read_error : Read

module _ (h : Host) where
  unfoldable pub touch_idle : Session h → Session h
  touch_idle s =
      if is_closing s.state || not s.handles_inited
      then s
      else if not (is_uploading s.state)
      then record s {
        stall_ticks = 0;
        timer = some (record { timeout = s.idle_timeout_ms; repeat = 0 });
      }
      else record s {
        stall_ticks = 0;
        timer = some (record {
          timeout = s.upload_stall_timeout_ms / stall_tick_limit;
          repeat = s.upload_stall_timeout_ms / stall_tick_limit;
        });
      }

  -- The first half of `start` as far as uv_read_start, and what follows its result.
  unfoldable pub after_read_start : Session h → Bool × h.World → Bool × Session h
  unfolding touch_idle
  after_read_start s (true, w) = (true, touch_idle (record s { reading = true; world = w }))
  after_read_start s (false, w) = (false, close h (record s { world = w }))

  unfoldable pub start : Session h → Bool × Session h
  unfolding after_read_start
  start s = let s' = resolve_peer h s in after_read_start s' (h.read_start s'.world)

  unfoldable pub after_reject : Session h → Bytes → Bool × h.World → Session h
  after_reject s frame (true, w) = record s {
    writes = s.writes ++ (frame ∷ []);
    close_after_flush = true;
    world = w;
  }
  after_reject s frame (false, w) = close h (record s { world = w })

  unfoldable pub reject : Session h → ErrorCode → Bytes → Session h
  unfolding after_reject
  reject s code message =
      let s' = resolve_peer h s in
      let frame = serialize_error code message in after_reject s' frame (h.uv_write s'.world frame)

  -- The upload that stayed silent for its whole limit.
  unfoldable pub give_up : Session h → Session h
  give_up s =
      let (summary, s') =
        report_partial_upload h (record s { timer = none })
          (codes "connection lost during upload (stalled)") in
      close h (send_error h (record s' { state = ready }) Protocol.idle_timeout summary)

  unfoldable pub on_idle_timeout : Session h → Session h
  unfolding give_up
  on_idle_timeout s =
      if is_uploading s.state
      then if ltb (s.stall_ticks + 1) stall_tick_limit
        then record s { stall_ticks = s.stall_ticks + 1 }
        else give_up (record s { stall_ticks = s.stall_ticks + 1 })
      else refuse h s Protocol.idle_timeout (codes "idle timeout")

  unfoldable pub on_read : Session h → Read → Session h
  unfolding touch_idle
  on_read s (bytes input) =
      touch_idle (process h (record s { rx_bytes = (s.rx_bytes + length input) % 2 ^ 64 }) input)
  on_read s again = s
  on_read s end_of_stream = close h s
  on_read s read_error = close h s

  abbrev pub pop_front : List Bytes → List Bytes
  pop_front [] = []
  pop_front (w ∷ ws) = ws

  -- A write is done, with status 0 or not.
  unfoldable pub on_write : Session h → Bool → Session h
  on_write s false = close h (record s { writes = pop_front s.writes })
  on_write s true =
      let s' = record s { writes = pop_front s.writes } in
      if s'.close_after_flush && (length s'.writes == 0) then close h s' else s'

  -- It follows a close, so that `pending_close` is not 0 before it; where it were, the source's count
  -- would go below 0 and the branch would be the same.
  unfoldable pub on_handle_closed : Session h → Session h
  on_handle_closed s =
      let left = s.pending_close - 1 in
      if ltb 0 left
      then record s { pending_close = left }
      else record s { pending_close = left; notified = s.notified + 1 }

-- What the event loop can bring to a session, with a shutdown of the server.
pub data Event : Type 0 where
  read : Read → Event
  written : Bool → Event
  timeout handle_closed shutdown : Event

module _ (h : Host) where
  unfoldable pub step : Session h → Event → Session h
  unfolding on_read on_write on_idle_timeout on_handle_closed
  step s (read r) = on_read h s r
  step s (written ok) = on_write h s ok
  step s timeout = on_idle_timeout h s
  step s handle_closed = on_handle_closed h s
  step s shutdown = close h s
