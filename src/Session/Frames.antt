-- ===== src/Session/Frames.antt =====
-- What the operations of a session leave alone: the decoder, and the bound on the bytes received.
use assignment_logger_analyz.Prelude.{
  ℕ, zero, suc, ◌+◌, ◌≤◌, ◌≡◌, Bool, true, false, not, ◌||◌, ◌%◌, ◌-◌, ◌^◌, ltb, leb, ◌==◌,
  if-cases, Option, none, some, List, [], ◌∷◌, Bytes, length, codes, arith,
}
use assignment_logger_analyz.Protocol.{
  MsgType, analyze_done, result_begin, ErrorCode, none_code, bad_magic, bad_version,
  unexpected_type, payload_too_large, size_mismatch, internal_io, idle_timeout, cancelled,
  server_busy, shutting_down,
}
use assignment_logger_analyz.Decoder.{Decoder}
use assignment_logger_analyz.Splitter.{Line, Splitter}
use assignment_logger_analyz.Splitter
use assignment_logger_analyz.Payload.Writer
use assignment_logger_analyz.Aggregator.{add_line}
use assignment_logger_analyz.Session.Host.{Host}
use assignment_logger_analyz.Session.State.{
  State, await_hello, ready, uploading, closing, is_uploading, is_closing, Session,
  ack_interval_bytes,
}
use assignment_logger_analyz.Session.Outbox.{
  send, send_error, refuse, close, close_in, close_open, close_handles, stop_handles,
  notify_if_idle, after_write, report_partial_upload, elapsed_ms,
}
use assignment_logger_analyz.Session.Upload.{
  abort_upload, after_abort, reset_upload, ack, add_lines, feed_lines, take_chunk, payload_chunk,
  after_hello, read_hello, read_upload_begin, read_upload_end, handle_hello, begin_upload,
  after_upload_begin, handle_upload_begin,
}
use assignment_logger_analyz.Session.UploadEnd.{
  send_chunks, send_result_csv, finish_lines, finish_upload, analyze, send_done, done_payload,
  after_upload_end, handle_upload_end,
}

-- No flag is both.
never {ℓ} : {A : Type ℓ} → false ≡ true → A
never e = absurd (ground arith)

module _ (h : Host) where
  -- The bytes received are within the declared size.
  abbrev pub Within : Session h → Type 0
  Within s = is_uploading s.state ≡ true → s.upload_received ≤ s.upload_declared

  module _ (d : Decoder) where
    -- The decoder is `d`, and the bytes are within the declared size.
    pub record Frame (s : Session h) : Type 0 where
      pub decoder : s.decoder ≡ d
      pub within : Within s

    notify_if_idle-Frame : (s : Session h) → Frame s → Frame (notify_if_idle h s)
    unfolding notify_if_idle
    notify_if_idle-Frame s f =
        if-cases Frame (s.pending_close == 0)
          (λ _. record { decoder = f.decoder; within = f.within }) (λ _. f)

    close_open-Frame : (s : Session h) → Frame s → Frame (close_open h s)
    unfolding close_open close_handles stop_handles
    close_open-Frame s f = notify_if_idle-Frame _ (
        if-cases Frame s.handles_inited (λ _. record { decoder = f.decoder; within = f.within })
          (λ _. f))

    close_in-Frame : (t : State) (s : Session h) → Frame s → Frame (close_in h t s)
    unfolding close_in report_partial_upload elapsed_ms
    close_in-Frame closing s f = f
    close_in-Frame await_hello s f =
        close_open-Frame (record s { state = closing })
          (record { decoder = f.decoder; within = λ e. never e })
    close_in-Frame ready s f =
        close_open-Frame (record s { state = closing })
          (record { decoder = f.decoder; within = λ e. never e })
    close_in-Frame uploading s f =
        close_open-Frame
          (report_partial_upload h (record s { state = closing })
            (codes "connection lost during upload")).1
          (record { decoder = f.decoder; within = λ e. never e })

    pub close-Frame : (s : Session h) → Frame s → Frame (close h s)
    unfolding close
    close-Frame s f = close_in-Frame s.state s f

    after_write-Frame :
        (s : Session h) (frame : Bytes) (r : Bool × h.World)
        → Frame s
        → Frame (after_write h s frame r)
    unfolding after_write
    after_write-Frame s frame (true, w) f = record { decoder = f.decoder; within = f.within }
    after_write-Frame s frame (false, w) f =
        close-Frame _ (record { decoder = f.decoder; within = f.within })

    pub send-Frame : (s : Session h) (t : MsgType) (p : Bytes) → Frame s → Frame (send h s t p)
    unfolding send
    send-Frame s t p f =
        if-cases Frame (is_closing s.state || not s.handles_inited) (λ _. f)
          (λ _. after_write-Frame s _ _ f)

    pub send_error-Frame :
        (s : Session h) (c : ErrorCode) (m : Bytes) → Frame s → Frame (send_error h s c m)
    unfolding send_error
    send_error-Frame s c m f = send-Frame s _ _ f

    pub refuse-Frame :
        (s : Session h) (c : ErrorCode) (m : Bytes) → Frame s → Frame (refuse h s c m)
    unfolding refuse
    refuse-Frame s c m f =
        let g = send_error-Frame s c m f in record { decoder = g.decoder; within = g.within }

    after_abort-Frame : (c : ErrorCode) (s : Session h) → Frame s → Frame (after_abort h c s)
    unfolding after_abort reset_upload
    after_abort-Frame none_code s f = record { decoder = f.decoder; within = f.within }
    after_abort-Frame bad_magic s f = record { decoder = f.decoder; within = f.within }
    after_abort-Frame bad_version s f = record { decoder = f.decoder; within = f.within }
    after_abort-Frame unexpected_type s f = record { decoder = f.decoder; within = f.within }
    after_abort-Frame payload_too_large s f = record { decoder = f.decoder; within = f.within }
    after_abort-Frame size_mismatch s f = record { decoder = f.decoder; within = f.within }
    after_abort-Frame internal_io s f = record { decoder = f.decoder; within = f.within }
    after_abort-Frame idle_timeout s f = record { decoder = f.decoder; within = f.within }
    after_abort-Frame cancelled s f = record { decoder = f.decoder; within = λ _. omega arith }
    after_abort-Frame server_busy s f = record { decoder = f.decoder; within = f.within }
    after_abort-Frame shutting_down s f = record { decoder = f.decoder; within = f.within }

    pub abort_upload-Frame :
        (s : Session h) (c : ErrorCode) (m : Bytes) → s.decoder ≡ d → Frame (abort_upload h s c m)
    unfolding abort_upload report_partial_upload
    abort_upload-Frame s c m e =
        after_abort-Frame c _
          (send_error-Frame _ c _ (record { decoder = e; within = λ e. never e }))

    add_lines-Frame : (s : Session h) (ls : List Line) → Frame s → Frame (add_lines h s ls)
    unfolding add_lines
    add_lines-Frame s [] f = f
    add_lines-Frame s (l ∷ ls) f =
        add_lines-Frame
          (record s {
            agg = add_line h.doubles s.agg l.text s.line_offset;
            line_offset = (s.line_offset + l.raw_bytes) % 2 ^ 64;
          })
          ls (record { decoder = f.decoder; within = f.within })

    feed_lines-Frame :
        (s : Session h) (r : Splitter × List Line) → Frame s → Frame (feed_lines h s r)
    unfolding feed_lines
    feed_lines-Frame s (sp, ls) f =
        add_lines-Frame _ ls (record { decoder = f.decoder; within = f.within })

    ack-Frame : (s : Session h) → Frame s → Frame (ack h s)
    unfolding ack
    ack-Frame s f =
        if-cases Frame
          (leb ack_interval_bytes ((s.upload_received + 2 ^ 64 - s.last_ack_at) % 2 ^ 64))
          (λ _. send-Frame _ _ _ (record { decoder = f.decoder; within = f.within })) (λ _. f)

    take_chunk-Frame : (s : Session h) (x : Bytes) → s.decoder ≡ d → Frame (take_chunk h s x)
    unfolding take_chunk
    take_chunk-Frame s x e =
        if-cases Frame (ltb s.upload_declared s.upload_received)
          (λ _. abort_upload-Frame s size_mismatch (codes "received more bytes than declared") e)
          (λ l. ack-Frame _ (
            feed_lines-Frame s (Splitter.feed s.splitter x)
              (record { decoder = e; within = λ _. ground arith })))

    pub payload_chunk-Frame : (s : Session h) (x : Bytes) → Frame s → Frame (payload_chunk h s x)
    unfolding payload_chunk
    payload_chunk-Frame s x f =
        if-cases Frame (is_uploading s.state) (λ _. take_chunk-Frame _ x f.decoder) (λ _. f)

    after_hello-Frame :
        (s : Session h) (r : Option (ℕ × Bytes)) → Frame s → Frame (after_hello h s r).1
    unfolding after_hello
    after_hello-Frame s none f = refuse-Frame s _ _ f
    after_hello-Frame s (some (v, n)) f =
        send-Frame _ _ _ (record { decoder = f.decoder; within = λ e. never e })

    pub handle_hello-Frame : (s : Session h) → Frame s → Frame (handle_hello h s).1
    unfolding handle_hello
    handle_hello-Frame s f = after_hello-Frame s (read_hello s.decoder.payload) f

    after_upload_begin-Frame :
        (s : Session h) (r : Option (ℕ × Bytes)) → Frame s → Frame (after_upload_begin h s r).1
    unfolding after_upload_begin begin_upload
    after_upload_begin-Frame s none f = refuse-Frame s _ _ f
    after_upload_begin-Frame s (some (total, n)) f =
        if-cases (λ (r : Bool × Session h). Frame r.1) (total == 0) (λ _. send_error-Frame s _ _ f)
          (λ _. send-Frame _ _ _ (record { decoder = f.decoder; within = λ e. omega arith }))

    pub handle_upload_begin-Frame : (s : Session h) → Frame s → Frame (handle_upload_begin h s).1
    unfolding handle_upload_begin
    handle_upload_begin-Frame s f =
        after_upload_begin-Frame s (read_upload_begin s.decoder.payload) f

    send_chunks-Frame :
        (fuel : ℕ) (s : Session h) (x : Bytes) → Frame s → Frame (send_chunks h fuel s x)
    unfolding send_chunks
    send_chunks-Frame zero s x f = f
    send_chunks-Frame (suc fuel) s [] f = f
    send_chunks-Frame (suc fuel) s (c ∷ x) f = send_chunks-Frame fuel _ _ (send-Frame s _ _ f)

    finish_lines-Frame : (s : Session h) → Frame s → Frame (finish_lines h s)
    unfolding finish_lines
    finish_lines-Frame s f =
        let g = feed_lines-Frame s (Splitter.finish s.splitter) f in
        record { decoder = g.decoder; within = g.within }

    send_result_csv-Frame : (s : Session h) → Frame s → Frame (send_result_csv h s)
    unfolding send_result_csv
    send_result_csv-Frame s f = send-Frame _ _ _ (
        send_chunks-Frame (length s.result_csv) _ s.result_csv (
          send-Frame s result_begin
            (Writer.str16 (Writer.u64 [] (length s.result_csv)) (codes "result.csv")) f))

    send_done-Frame : (s : Session h) (ms rss : ℕ) → Frame s → Frame (send_done h s ms rss)
    unfolding send_done
    send_done-Frame s ms rss f = record { decoder = sent.decoder; within = λ e. never e }
      where
        sent : Frame (send_result_csv h (send h s analyze_done (done_payload h s ms rss)))
        sent = send_result_csv-Frame _ (send-Frame s _ _ f)

    analyze-Frame : (s : Session h) → Frame s → Frame (analyze h s)
    unfolding analyze
    analyze-Frame s f = send_done-Frame _ _ _ (record { decoder = f.decoder; within = f.within })

    pub finish_upload-Frame : (s : Session h) → Frame s → Frame (finish_upload h s)
    unfolding finish_upload
    finish_upload-Frame s f = analyze-Frame _ (finish_lines-Frame s f)

    after_upload_end-Frame :
        (s : Session h) (r : Option ℕ) → Frame s → Frame (after_upload_end h s r).1
    unfolding after_upload_end
    after_upload_end-Frame s none f = abort_upload-Frame s _ _ f.decoder
    after_upload_end-Frame s (some claimed) f =
        if-cases (λ (r : Bool × Session h). Frame r.1)
          (not (s.upload_received == s.upload_declared) || not (claimed == s.upload_declared))
          (λ _. abort_upload-Frame s _ _ f.decoder) (λ _. finish_upload-Frame s f)

    pub handle_upload_end-Frame : (s : Session h) → Frame s → Frame (handle_upload_end h s).1
    unfolding handle_upload_end
    handle_upload_end-Frame s f = after_upload_end-Frame s (read_upload_end s.decoder.payload) f
