-- ===== src/Client/Upload.antt =====
-- The chunks of an upload: the loop of `do_upload` of 01.Sources/CLIENT/CPP/src/net/Transfer.cpp.
use assignment_logger_analyz.Prelude.{
  ℕ, zero, suc, ◌+◌, ◌-◌, ◌*◌, ◌%◌, ◌^◌, min, ltb, leb, ◌==◌, Bool, true, false, if◌then◌else◌,
  Option, none, some, [], ◌∷◌, ◌++◌, Bytes, codes, length, take,
}
use assignment_logger_analyz.Protocol.{
  MsgType, upload_chunk, upload_ack, default_header, encode_header,
}
use assignment_logger_analyz.LogLine.Floats.{Doubles}
use assignment_logger_analyz.Client.Actions.{
  Action, pure, raise, out_of_passes, on_failure, ◌>>=◌, ◌>>◌,
}
use assignment_logger_analyz.Client.System.{System}
use assignment_logger_analyz.Client.State.{Client, cancelled, ask, set_phase, set_shot, log}
use assignment_logger_analyz.Client.Controls.{cancel_requested}
use assignment_logger_analyz.Client.Socket.{cancel_flag, send_all, readable_now}
use assignment_logger_analyz.Client.Texts.{human_bytes, server_error_text}
use assignment_logger_analyz.Client.Frames.{Frame, same_type, read_frame, write_stall_timeout_ms}
use assignment_logger_analyz.Client.Progress.{apply_upload_ack}
use assignment_logger_analyz.Client.Cancel.{send_cancel_and_wait}

abbrev pub log_interval_bytes : ℕ
log_interval_bytes = 32 * 1024 * 1024

-- The waits for a frame that is already on its way.
abbrev pub pending_timeout_ms : ℕ
pending_timeout_ms = 5000

module _ (d : Doubles) where
  open d use {Double, zero_d, mul_d, div_d, of_nat, lt_d, fixed}

  -- The rate after `ms` milliseconds.
  unfoldable pub mibps : ℕ → ℕ → Double
  mibps sent ms =
      let secs = div_d (of_nat ms) (of_nat 1000) in
      if lt_d zero_d secs
      then div_d (div_d (of_nat sent) (mul_d (of_nat 1024) (of_nat 1024))) secs
      else zero_d

  unfoldable pub chunk_line : ℕ → ℕ → Double → Bytes
  unfolding human_bytes
  chunk_line sent total rate = take 159 (
      codes "-> UPLOAD_CHUNK      "
      ++ (human_bytes d sent
          ++ (codes " / "
              ++ (human_bytes d total
                  ++ (codes "  ("
                      ++ (fixed 1 (
                            if ltb 0 total
                            then div_d (mul_d (of_nat 100) (of_nat sent)) (of_nat total)
                            else zero_d)
                          ++ (codes "%)  " ++ (fixed 1 rate ++ codes " MiB/s"))))))))

module _ (sys : System) where
  -- CANCEL, and the session goes on.
  unfoldable pub cancel_upload : Bytes → Action (Client sys) (Unit {0})
  cancel_upload line = do send_cancel_and_wait sys; set_phase sys cancelled; log sys line

  -- A frame that comes while the chunks are sent.
  unfoldable pub take_frame : Frame → Action (Client sys) (Unit {0})
  unfolding same_type server_error_text apply_upload_ack
  take_frame f =
      if same_type f.type upload_ack
      then set_shot sys (apply_upload_ack sys f.payload)
      else if same_type f.type MsgType.error
      then raise (server_error_text f.payload)
      else pure tt

  unfoldable pub drain_loop : ℕ → Action (Client sys) (Unit {0})
  unfolding take_frame
  drain_loop zero = out_of_passes
  drain_loop (suc n) = do
    more ← readable_now sys
    if more
        then read_frame sys pending_timeout_ms >>= (λ f. take_frame f >> drain_loop n)
        else pure tt

  -- The frame of a chunk, header and data from one buffer.
  unfoldable pub chunk_frame : Bytes → Bytes
  chunk_frame chunk =
      encode_header
        (record default_header { type = upload_chunk; payload_len = length chunk % 2 ^ 64 })
      ++ chunk

  -- The counters after `sent` bytes; the result is `last_log_bytes`.
  unfoldable pub note_progress : ℕ → ℕ → ℕ → ℕ → Action (Client sys) ℕ
  unfolding mibps chunk_line
  note_progress total t0 sent last_log = do
    now ← ask sys sys.now_ms
    set_shot sys
        (λ s. record s { bytes_sent = sent; send_mibps = mibps sys.doubles sent (now - t0) })
    if leb log_interval_bytes (sent - last_log)
        then ask sys sys.now_ms
          >>= (λ later.
              log sys (chunk_line sys.doubles sent total (mibps sys.doubles sent (later - t0))))
          >> pure sent
        else pure last_log

  -- A failure to send is the user's cancellation where that has been asked for.
  unfoldable pub chunk_failed : Bytes → Action (Client sys) Bool
  unfolding cancel_upload
  chunk_failed err = do
    stop ← cancel_requested sys
    if stop then cancel_upload (codes "upload cancelled by user") >> pure false else raise err

  -- Whether the chunk was sent: it is not where the upload has been cancelled instead.
  unfoldable pub send_chunk : Bytes → Action (Client sys) Bool
  unfolding chunk_failed chunk_frame
  send_chunk chunk =
      on_failure (send_all sys (chunk_frame chunk) write_stall_timeout_ms cancel_flag >> pure true)
        chunk_failed

  -- What follows a chunk, with whether it was sent and the bytes sent by then; `next` is the next
  -- pass. The result is the number of bytes sent, or `none` after a cancellation.
  unfoldable pub after_chunk :
      (ℕ → ℕ → Action (Client sys) (Option ℕ))
      → ℕ
      → ℕ
      → ℕ
      → ℕ
      → Bool
      → Action (Client sys) (Option ℕ)
  unfolding drain_loop note_progress
  after_chunk next total t0 sent last_log false = pure none
  after_chunk next total t0 sent last_log true = do
    drain_loop sys.passes
    last_log' ← note_progress total t0 sent last_log
    next sent last_log'

  -- What follows a read of the file.
  unfoldable pub after_file_read :
      (ℕ → ℕ → Action (Client sys) (Option ℕ))
      → ℕ
      → ℕ
      → ℕ
      → ℕ
      → Bytes
      → Action (Client sys) (Option ℕ)
  unfolding send_chunk after_chunk
  after_file_read next total t0 sent last_log [] = pure (some sent)
  after_file_read next total t0 sent last_log (b ∷ bs) =
      send_chunk (b ∷ bs) >>= after_chunk next total t0 (sent + length (b ∷ bs)) last_log

  -- `total - sent`, as unsigned.
  abbrev pub left_of : ℕ → ℕ → ℕ
  left_of total sent = (total + 2 ^ 64 - sent) % 2 ^ 64

  unfoldable pub chunk_pass :
      (ℕ → ℕ → Action (Client sys) (Option ℕ)) → ℕ → ℕ → ℕ → ℕ → ℕ → Action (Client sys) (Option ℕ)
  unfolding after_file_read
  chunk_pass next total chunk_size t0 sent last_log =
      if left_of total sent == 0
      then pure (some sent)
      else ask sys (λ w. sys.read_file w (min chunk_size (left_of total sent)))
        >>= after_file_read next total t0 sent last_log

  unfoldable pub chunk_loop : ℕ → ℕ → ℕ → ℕ → ℕ → ℕ → Action (Client sys) (Option ℕ)
  unfolding chunk_pass
  chunk_loop zero total chunk_size t0 sent last_log = out_of_passes
  chunk_loop (suc n) total chunk_size t0 sent last_log = do
    stop ← cancel_requested sys
    if stop
        then cancel_upload (codes "upload cancelled by user") >> pure none
        else chunk_pass (chunk_loop n total chunk_size t0) total chunk_size t0 sent last_log
