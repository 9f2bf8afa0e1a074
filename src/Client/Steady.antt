-- ===== src/Client/Steady.antt =====
-- What holds of the client through an upload: a property that the parts of the state that an upload
-- writes do not touch, or that it restores.
pub mod Whole
use assignment_logger_analyz.Prelude.{
  ℕ, zero, suc, ◌+◌, ◌-◌, ◌≤◌, ◌≡◌, ◌*◌, ltb, leb, ◌==◌, ◌||◌, not, Bool, true, false,
  if◌then◌else◌, Option, none, some, [], ◌∷◌, Bytes, codes, length, arith,
}
use assignment_logger_analyz.Protocol.{
  MsgType, result_begin, result_chunk, result_end, upload_ack, analyze_done,
}
use assignment_logger_analyz.Client.Actions.{
  Action, Result, done, ◌>>=◌, ◌>>◌, pure, raise_if, on_failure,
}
use assignment_logger_analyz.Client.Logic.{
  Keeps, bind-Keeps, guard-Keeps, on_failure-Keeps, pure-Keeps, raise-Keeps, raise_if-Keeps,
  out_of_passes-Keeps, gets-Keeps, modify-Keeps, if-Keeps,
}
use assignment_logger_analyz.Client.System.{System}
use assignment_logger_analyz.Client.State.{Client, Phase, Snapshot, set_phase, set_shot}
use assignment_logger_analyz.Client.Frames.{Frame, same_type}
use assignment_logger_analyz.Client.Handshake.{idle_timeout_ms}
use assignment_logger_analyz.Client.Progress.{
  apply_upload_ack, BeginAck, Analysis, apply_analysis, restart, begun,
}
use assignment_logger_analyz.Client.Upload.{
  cancel_upload, take_frame, drain_loop, note_progress, chunk_failed, send_chunk, after_chunk,
  after_file_read, left_of, chunk_pass, chunk_loop,
}
use assignment_logger_analyz.Client.Result.{
  after_result_frame, result_loop, keep_csv, receive_result, max_csv_bytes,
}
use assignment_logger_analyz.Client.Analysis.{
  after_wait_frame, wait_loop, take_result, end_upload, give_up_file, after_chunks, begin_upload,
  upload_sized, upload_file,
}
use assignment_logger_analyz.Client.Stable.{
  Stable, ask-Keeps, log-Keeps, cancel_requested-Keeps, send_all-Keeps, readable_now-Keeps,
}
use assignment_logger_analyz.Client.Stable.Frames.{
  send_frame-Keeps, read_frame-Keeps, expect-Keeps, reading-Keeps, send_cancel_and_wait-Keeps,
}

module _ (sys : System) where
  pub record Steady (I : Client sys → Type 0) : Type 0 where
    pub stable : Stable sys I
    pub phased :
        (c : Client sys) (p : Phase) → I c → I (record c { shot = record c.shot { phase = p } })
    pub acked :
        (c : Client sys) (x : Bytes) → I c → I (record c { shot = apply_upload_ack sys x c.shot })
    pub begun_at :
        (c : Client sys) (n : ℕ) (a : BeginAck) → I c → I (record c { shot = begun sys n a c.shot })
    pub analysed :
        (c : Client sys) (a : Analysis) → I c → I (record c { shot = apply_analysis sys a c.shot })
    pub noted :
        (c : Client sys) (n : ℕ) (x : sys.doubles.Double)
        → I c
        → I (record c { shot = record c.shot { bytes_sent = n; send_mibps = x } })
    pub kept :
        (c : Client sys) (x : Bytes)
        → length x ≤ max_csv_bytes
        → I c
        → I (record c { shot = record c.shot { csv_size = length x }; csv = x })
    pub restarted : (c : Client sys) → I c → I (record c { shot = restart sys c.shot; csv = [] })

  module _ (I : Client sys → Type 0) (k : Steady I) where
    st : Stable sys I
    st = k.stable

    pub set_phase-Keeps : (p : Phase) → Keeps I (set_phase sys p)
    unfolding set_phase
    set_phase-Keeps p = modify-Keeps I _ (λ c. k.phased c p)

    pub cancel_upload-Keeps : (line : Bytes) → Keeps I (cancel_upload sys line)
    unfolding cancel_upload
    cancel_upload-Keeps line =
        bind-Keeps I _ _ (send_cancel_and_wait-Keeps sys I st)
          (λ _. bind-Keeps I _ _ (set_phase-Keeps Phase.cancelled) (λ _. log-Keeps sys I st line))

    take_frame-Keeps : (f : Frame) → Keeps I (take_frame sys f)
    unfolding take_frame
    take_frame-Keeps f =
        if-Keeps I (same_type f.type upload_ack) _ _ (modify-Keeps I _ (λ c. k.acked c f.payload))
          (if-Keeps I (same_type f.type MsgType.error) _ _ (raise-Keeps I _) (pure-Keeps I tt))

    drain_loop-Keeps : (n : ℕ) → Keeps I (drain_loop sys n)
    unfolding drain_loop
    drain_loop-Keeps zero = out_of_passes-Keeps I
    drain_loop-Keeps (suc n) = bind-Keeps I _ _ (readable_now-Keeps sys I st) (λ more.
        if-Keeps I more _ _
          (bind-Keeps I _ _ (read_frame-Keeps sys I st 5000)
            (λ f. bind-Keeps I _ _ (take_frame-Keeps f) (λ _. drain_loop-Keeps n)))
          (pure-Keeps I tt))

    note_progress-Keeps : (total t0 sent last : ℕ) → Keeps I (note_progress sys total t0 sent last)
    unfolding note_progress
    note_progress-Keeps total t0 sent last =
        bind-Keeps I _ _ (ask-Keeps sys I st sys.now_ms) (λ now.
          bind-Keeps I _ _ (modify-Keeps I _ (λ c. k.noted c sent _)) (λ _.
            if-Keeps I (leb (32 * 1024 * 1024) (sent - last)) _ _
              (bind-Keeps I _ _
                (bind-Keeps I _ _ (ask-Keeps sys I st sys.now_ms) (λ _. log-Keeps sys I st _))
                (λ _. pure-Keeps I sent))
              (pure-Keeps I last)))

    send_chunk-Keeps : (x : Bytes) → Keeps I (send_chunk sys x)
    unfolding send_chunk chunk_failed
    send_chunk-Keeps x =
        on_failure-Keeps I _ _
          (bind-Keeps I _ _ (send_all-Keeps sys I st _ _ _) (λ _. pure-Keeps I true))
          (λ err. bind-Keeps I _ _ (cancel_requested-Keeps sys I st) (λ stop.
            if-Keeps I stop _ _ (bind-Keeps I _ _ (cancel_upload-Keeps _) (λ _. pure-Keeps I false))
              (raise-Keeps I err)))

    module _ (next : ℕ → ℕ → Action (Client sys) (Option ℕ))
        (l : (a b : ℕ) → Keeps I (next a b)) where
      after_chunk-Keeps :
          (total t0 sent last : ℕ) (went : Bool)
          → Keeps I (after_chunk sys next total t0 sent last went)
      unfolding after_chunk
      after_chunk-Keeps total t0 sent last false = pure-Keeps I none
      after_chunk-Keeps total t0 sent last true =
          bind-Keeps I _ _ (drain_loop-Keeps sys.passes)
            (λ _. bind-Keeps I _ _ (note_progress-Keeps total t0 sent last) (λ a. l sent a))

      after_file_read-Keeps :
          (total t0 sent last : ℕ) (x : Bytes)
          → Keeps I (after_file_read sys next total t0 sent last x)
      unfolding after_file_read
      after_file_read-Keeps total t0 sent last [] = pure-Keeps I _
      after_file_read-Keeps total t0 sent last (b ∷ bs) =
          bind-Keeps I _ _ (send_chunk-Keeps (b ∷ bs)) (after_chunk-Keeps total t0 _ last)

    pub chunk_loop-Keeps :
        (n total size t0 sent last : ℕ) → Keeps I (chunk_loop sys n total size t0 sent last)
    unfolding chunk_loop chunk_pass
    chunk_loop-Keeps zero total size t0 sent last = out_of_passes-Keeps I
    chunk_loop-Keeps (suc n) total size t0 sent last =
        bind-Keeps I _ _ (cancel_requested-Keeps sys I st) (λ stop.
          if-Keeps I stop _ _ (bind-Keeps I _ _ (cancel_upload-Keeps _) (λ _. pure-Keeps I none)) (
            if-Keeps I (left_of sys total sent == 0) _ _ (pure-Keeps I _) (
              bind-Keeps I _ _ (ask-Keeps sys I st _) (λ x.
                after_file_read-Keeps (chunk_loop sys n total size t0)
                  (λ a b. chunk_loop-Keeps n total size t0 a b) total t0 sent last x))))
