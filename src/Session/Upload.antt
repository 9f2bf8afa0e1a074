-- ===== src/Session/Upload.antt =====
-- The handlers of an upload, 01.Sources/SERVER/src/net/TcpSession.cpp. A handler that returns `bool`
-- returns it with the session after it. Differences of clock readings are left unwrapped, since
-- uv_hrtime does not go back.
use assignment_logger_analyz.Prelude.{
  ℕ, ◌+◌, ◌-◌, ◌%◌, ◌^◌, ltb, leb, ◌==◌, if◌then◌else◌, Bool, true, false, Option, none, some, List,
  [], ◌∷◌, ◌++◌, Bytes, codes, length, take,
}
use assignment_logger_analyz.Protocol.{
  MsgType, hello_ack, upload_begin_ack, upload_chunk, upload_ack, ErrorCode, cancelled,
  unexpected_type, size_mismatch, default_max_chunk,
}
use assignment_logger_analyz.Payload.Writer
use assignment_logger_analyz.Payload.Reader
use assignment_logger_analyz.Payload.Reader.{reader}
use assignment_logger_analyz.LogLine.Whitelist.{
  Module, module_name, radar_track_node_state, antenna_profile_spec, sector_scheduler_rts,
  detection_task_runner, beam_steer_ctrl_unit_impl,
}
use assignment_logger_analyz.Splitter.{Line, Splitter}
use assignment_logger_analyz.Splitter
use assignment_logger_analyz.Aggregator.{
  Aggregator, add_line, add_oversize, rejected_lines, spd_avg,
}
use assignment_logger_analyz.Aggregator
use assignment_logger_analyz.Session.Host.{Host}
use assignment_logger_analyz.Session.State.{
  State, ready, uploading, is_uploading, Session, ack_interval_bytes,
}
use assignment_logger_analyz.Session.Outbox.{send, send_error, refuse, report_partial_upload}

abbrev pub module_count : ℕ
module_count = 5

abbrev pub server_name : Bytes
server_name = codes "Zhenyu_LoggerAnalyzer/0.3.0 libuv "

-- Both reads, or `none` where one fails.
abbrev pub both_read {ℓ} : {A B : Type ℓ} → Option A → Option B → Option (A × B)
both_read (some a) (some b) = some (a, b)
both_read none _ = none
both_read (some a) none = none

unfoldable pub read_hello : Bytes → Option (ℕ × Bytes)
read_hello payload =
    let (version, r) = Reader.u16 (reader payload) in
    let (name, _) = Reader.str16 r in both_read version name

unfoldable pub read_upload_begin : Bytes → Option (ℕ × Bytes)
read_upload_begin payload =
    let (total, r) = Reader.u64 (reader payload) in
    let (name, _) = Reader.str16 r in both_read total name

unfoldable pub read_upload_end : Bytes → Option ℕ
read_upload_end payload = let (claimed, _) = Reader.u64 (reader payload) in claimed

unfoldable pub put_counts : Bytes → List ℕ → Bytes
put_counts buf [] = buf
put_counts buf (n ∷ ns) = put_counts (Writer.u64 buf n) ns

-- stream_payload: whether the decoder may hand the payload on in pieces.
unfoldable pub stream_payload : State → MsgType → ℕ → Bool
stream_payload uploading upload_chunk length = leb length default_max_chunk
stream_payload _ _ _ = false

module _ (h : Host) where
  -- The callback on each line: it is counted, and the next one begins behind its bytes.
  unfoldable pub add_lines : Session h → List Line → Session h
  add_lines s [] = s
  add_lines s (l ∷ ls) =
      add_lines
        (record s {
          agg = add_line h.doubles s.agg l.text s.line_offset;
          line_offset = (s.line_offset + l.raw_bytes) % 2 ^ 64;
        })
        ls

  unfoldable pub reset_upload : Session h → Session h
  reset_upload s = record s {
    upload_declared = 0;
    upload_received = 0;
    last_ack_at = 0;
    line_offset = 0;
    upload_name = [];
    splitter = Splitter.reset s.splitter;
    agg = Aggregator.reset h.doubles s.agg;
    result_csv = [];
  }

  unfoldable pub after_abort : ErrorCode → Session h → Session h
  unfolding reset_upload
  after_abort cancelled s = reset_upload s
  after_abort code s = record s { close_after_flush = true }

  unfoldable pub abort_upload : Session h → ErrorCode → Bytes → Session h
  unfolding after_abort
  abort_upload s code message =
      let (detail, s') = report_partial_upload h s message in
      after_abort code (send_error h (record s' { state = ready }) code detail)

  unfoldable pub ack_payload : Session h → Bytes
  unfolding put_counts
  ack_payload s =
      put_counts
        (Writer.u8
          (Writer.str16
            (Writer.u64
              (Writer.u64
                (Writer.u64 (Writer.u64 (Writer.u64 [] s.upload_received) s.agg.total_lines)
                  s.agg.accepted_lines)
                (rejected_lines h.doubles s.agg))
              s.agg.speeds.spd_n)
            (take 31 (h.doubles.fixed 6 (spd_avg h.doubles s.agg.speeds))))
          module_count)
        s.agg.module_totals

  unfoldable pub ack : Session h → Session h
  unfolding ack_payload
  ack s =
      if leb ack_interval_bytes ((s.upload_received + 2 ^ 64 - s.last_ack_at) % 2 ^ 64)
      then send_ack (record s { last_ack_at = s.upload_received; world = (h.hrtime s.world).1 })
      else s
    where
      send_ack : Session h → Session h
      send_ack s' = send h s' upload_ack (ack_payload s')

  unfoldable pub feed_lines : Session h → Splitter × List Line → Session h
  unfolding add_lines
  feed_lines s (sp, lines) = add_lines (record s { splitter = sp }) lines

  -- The bytes counted and within the declared size: to the splitter, and then perhaps an answer.
  unfoldable pub take_chunk : Session h → Bytes → Session h
  unfolding abort_upload ack feed_lines
  take_chunk s bytes =
      if ltb s.upload_declared s.upload_received
      then abort_upload s size_mismatch (codes "received more bytes than declared")
      else ack (feed_lines s (Splitter.feed s.splitter bytes))

  unfoldable pub payload_chunk : Session h → Bytes → Session h
  unfolding take_chunk
  payload_chunk s bytes =
      if is_uploading s.state
      then take_chunk (record s { upload_received = (s.upload_received + length bytes) % 2 ^ 64 })
          bytes
      else s

  unfoldable pub hello_payload : Session h → Bytes
  hello_payload s =
      Writer.str16 (Writer.str16 (Writer.u32 (Writer.u32 [] s.id) default_max_chunk) s.peer)
        (server_name ++ h.uv_version)

  unfoldable pub after_hello : Session h → Option (ℕ × Bytes) → Bool × Session h
  unfolding hello_payload
  after_hello s none = (false, refuse h s unexpected_type (codes "malformed HELLO payload"))
  after_hello s (some (version, name)) =
      let s' = record s { client_name = name; state = ready } in
      (true, send h s' hello_ack (hello_payload s'))

  unfoldable pub handle_hello : Session h → Bool × Session h
  unfolding after_hello read_hello
  handle_hello s = after_hello s (read_hello s.decoder.payload)

  unfoldable pub begin_upload : Session h → ℕ → Bytes → Session h
  begin_upload s total name =
      let (now, w) = h.hrtime s.world in
      record s {
        upload_id = s.id;
        upload_name = name;
        upload_declared = total;
        upload_received = 0;
        last_ack_at = 0;
        upload_start_ns = now;
        line_offset = 0;
        splitter = Splitter.reset s.splitter;
        agg = Aggregator.reset h.doubles s.agg;
        result_csv = [];
        state = uploading;
        world = w;
      }

  unfoldable pub begin_payload : Session h → Bytes
  begin_payload s =
      put_names (Writer.u8 (Writer.u32 (Writer.u32 [] s.upload_id) default_max_chunk) module_count)
        (radar_track_node_state ∷ antenna_profile_spec ∷ sector_scheduler_rts
          ∷ detection_task_runner ∷ beam_steer_ctrl_unit_impl ∷ [])
    where
      put_names : Bytes → List Module → Bytes
      put_names buf [] = buf
      put_names buf (m ∷ ms) = put_names (Writer.str16 buf (codes (module_name m))) ms

  unfoldable pub after_upload_begin : Session h → Option (ℕ × Bytes) → Bool × Session h
  unfolding begin_upload begin_payload
  after_upload_begin s none =
      (false, refuse h s unexpected_type (codes "malformed UPLOAD_BEGIN payload"))
  after_upload_begin s (some (total, name)) =
      let s' = begin_upload s total name in
      if total == 0
      then (true, send_error h s size_mismatch (codes "upload size must be greater than zero"))
      else (true, send h s' upload_begin_ack (begin_payload s'))

  unfoldable pub handle_upload_begin : Session h → Bool × Session h
  unfolding after_upload_begin read_upload_begin
  handle_upload_begin s = after_upload_begin s (read_upload_begin s.decoder.payload)
