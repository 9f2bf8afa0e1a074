-- ===== src/Client/Steady/Whole.antt =====
-- The same for the result and the whole of an upload.
use assignment_logger_analyz.Prelude.{
  ℕ, zero, suc, ◌≤◌, ◌≡◌, ltb, ◌==◌, ◌||◌, not, true, false, Option, none, some, [], ◌++◌, Bytes,
  codes, length, arith,
}
use assignment_logger_analyz.Protocol.{
  MsgType, result_chunk, result_end, upload_ack, analyze_done, upload_begin_ack,
}
use assignment_logger_analyz.Client.Actions.{Action}
use assignment_logger_analyz.Client.Logic.{
  Keeps, bind-Keeps, guard-Keeps, pure-Keeps, raise-Keeps, raise_if-Keeps, out_of_passes-Keeps,
  gets-Keeps, modify-Keeps, if-Keeps,
}
use assignment_logger_analyz.Client.System.{System}
use assignment_logger_analyz.Client.State.{Client, connected}
use assignment_logger_analyz.Client.Frames.{Frame, same_type}
use assignment_logger_analyz.Client.Result.{
  after_result_frame, result_loop, keep_csv, receive_result, max_csv_bytes,
}
use assignment_logger_analyz.Client.Analysis.{
  after_wait_frame, wait_loop, take_result, end_upload, give_up_file, after_chunks, begin_upload,
  upload_sized, upload_file,
}
use assignment_logger_analyz.Client.Stable.{Stable, ask-Keeps, log-Keeps, cancel_requested-Keeps}
use assignment_logger_analyz.Client.Stable.Frames.{
  send_frame-Keeps, read_frame-Keeps, expect-Keeps, reading-Keeps, send_cancel_and_wait-Keeps,
}
use assignment_logger_analyz.Client.Steady.{
  Steady, set_phase-Keeps, cancel_upload-Keeps, chunk_loop-Keeps,
}

module _ (sys : System) (I : Client sys → Type 0) (k : Steady sys I) where
  st : Stable sys I
  st = k.stable

  after_result_frame-Keeps :
      (next : Bytes → Action (Client sys) Bytes) (declared : ℕ) (csv : Bytes) (f : Frame)
      → ((x : Bytes) → Keeps I (next x))
      → Keeps I (after_result_frame sys next declared csv f)
  unfolding after_result_frame
  after_result_frame-Keeps next declared csv f l =
      if-Keeps I (same_type f.type result_chunk) _ _
        (bind-Keeps I _ _ (raise_if-Keeps I _ _) (λ _. l (csv ++ f.payload)))
        (if-Keeps I (same_type f.type result_end) _ _ (pure-Keeps I csv)
          (if-Keeps I (same_type f.type MsgType.error) _ _ (raise-Keeps I _) (raise-Keeps I _)))

  result_loop-Keeps : (n declared : ℕ) (csv : Bytes) → Keeps I (result_loop sys n declared csv)
  unfolding result_loop
  result_loop-Keeps zero declared csv = out_of_passes-Keeps I
  result_loop-Keeps (suc n) declared csv = bind-Keeps I _ _ (read_frame-Keeps sys I st 120000) (λ f.
      after_result_frame-Keeps (result_loop sys n declared) declared csv f
        (λ x. result_loop-Keeps n declared x))

  pub receive_result-Keeps : (size : ℕ) → Keeps I (receive_result sys size)
  unfolding receive_result keep_csv
  receive_result-Keeps size = bind-Keeps I _ _ (raise_if-Keeps I _ _) (λ _.
      bind-Keeps I _ _ (read_frame-Keeps sys I st 120000) (λ begin.
        bind-Keeps I _ _ (expect-Keeps sys I st _ _ begin) (λ _.
          bind-Keeps I _ _ (reading-Keeps sys I st begin.payload _) (λ declared.
            guard-Keeps I (ltb max_csv_bytes declared) _ _ (λ within.
              bind-Keeps I _ _ (log-Keeps sys I st _) (λ _.
                bind-Keeps I _ _ (result_loop-Keeps sys.passes declared []) (λ csv.
                  guard-Keeps I (not (length csv == declared)) _ _ (λ same.
                    bind-Keeps I _ _ (log-Keeps sys I st _) (λ _.
                      modify-Keeps I _ (λ c. k.kept c csv (fits csv declared within same)))))))))))
    where
      fits :
          (csv : Bytes) (declared : ℕ)
          → ltb max_csv_bytes declared ≡ false
          → not (length csv == declared) ≡ false
          → length csv ≤ max_csv_bytes
      fits csv declared a b = ground arith

  after_wait_frame-Keeps :
      (next : Action (Client sys) (Option ℕ)) (f : Frame)
      → Keeps I next
      → Keeps I (after_wait_frame sys next f)
  unfolding after_wait_frame
  after_wait_frame-Keeps next f l =
      if-Keeps I (same_type f.type upload_ack) _ _
        (bind-Keeps I _ _ (modify-Keeps I _ (λ c. k.acked c f.payload)) (λ _. l))
        (if-Keeps I (same_type f.type MsgType.error) _ _ (raise-Keeps I _) (
          if-Keeps I (same_type f.type analyze_done) _ _
            (bind-Keeps I _ _ (reading-Keeps sys I st f.payload _) (λ a.
              bind-Keeps I _ _ (modify-Keeps I _ (λ c. k.analysed c a))
                (λ _. bind-Keeps I _ _ (log-Keeps sys I st _) (λ _. pure-Keeps I _))))
            (raise-Keeps I _)))

  wait_loop-Keeps : (n : ℕ) → Keeps I (wait_loop sys n)
  unfolding wait_loop
  wait_loop-Keeps zero = out_of_passes-Keeps I
  wait_loop-Keeps (suc n) = bind-Keeps I _ _ (cancel_requested-Keeps sys I st) (λ stop.
      if-Keeps I stop _ _
        (bind-Keeps I _ _ (cancel_upload-Keeps sys I k _) (λ _. pure-Keeps I none))
        (bind-Keeps I _ _ (read_frame-Keeps sys I st 120000)
          (λ f. after_wait_frame-Keeps (wait_loop sys n) f (wait_loop-Keeps n))))

  take_result-Keeps : (r : Option ℕ) → Keeps I (take_result sys r)
  unfolding take_result
  take_result-Keeps none = pure-Keeps I true
  take_result-Keeps (some size) = bind-Keeps I _ _ (set_phase-Keeps sys I k _) (λ _.
      bind-Keeps I _ _ (receive_result-Keeps size) (λ _.
        bind-Keeps I _ _ (set_phase-Keeps sys I k _)
          (λ _. bind-Keeps I _ _ (log-Keeps sys I st _) (λ _. pure-Keeps I true))))

  end_upload-Keeps : (sent : ℕ) → Keeps I (end_upload sys sent)
  unfolding end_upload
  end_upload-Keeps sent = bind-Keeps I _ _ (send_frame-Keeps sys I st _ _) (λ _.
      bind-Keeps I _ _ (log-Keeps sys I st _) (λ _.
        bind-Keeps I _ _ (set_phase-Keeps sys I k _)
          (λ _. bind-Keeps I _ _ (wait_loop-Keeps sys.passes) take_result-Keeps)))

  give_up_file-Keeps : (why : Bytes) → Keeps I (give_up_file sys why)
  unfolding give_up_file
  give_up_file-Keeps why = bind-Keeps I _ _ (send_cancel_and_wait-Keeps sys I st) (λ _.
      bind-Keeps I _ _ (set_phase-Keeps sys I k connected)
        (λ _. bind-Keeps I _ _ (log-Keeps sys I st _) (λ _. pure-Keeps I true)))

  after_chunks-Keeps : (total : ℕ) (r : Option ℕ) → Keeps I (after_chunks sys total r)
  unfolding after_chunks
  after_chunks-Keeps total none = pure-Keeps I true
  after_chunks-Keeps total (some sent) = bind-Keeps I _ _ (gets-Keeps I _) (λ bad.
      if-Keeps I (bad || not (sent == total)) _ _ (give_up_file-Keeps _) (end_upload-Keeps sent))

  begin_upload-Keeps : (path : Bytes) (total : ℕ) → Keeps I (begin_upload sys path total)
  unfolding begin_upload
  begin_upload-Keeps path total = bind-Keeps I _ _ (send_frame-Keeps sys I st _ _) (λ _.
      bind-Keeps I _ _ (log-Keeps sys I st _) (λ _.
        bind-Keeps I _ _ (read_frame-Keeps sys I st 120000) (λ ack.
          bind-Keeps I _ _ (expect-Keeps sys I st upload_begin_ack (codes "UPLOAD_BEGIN_ACK") ack)
            (λ _. reading-Keeps sys I st ack.payload _))))

  upload_sized-Keeps : (path : Bytes) (r : Option ℕ) → Keeps I (upload_sized sys path r)
  unfolding upload_sized
  upload_sized-Keeps path none =
      bind-Keeps I _ _ (set_phase-Keeps sys I k connected)
        (λ _. bind-Keeps I _ _ (log-Keeps sys I st _) (λ _. pure-Keeps I true))
  upload_sized-Keeps path (some total) = bind-Keeps I _ _ (begin_upload-Keeps path total) (λ ack.
      bind-Keeps I _ _ (log-Keeps sys I st _) (λ _.
        bind-Keeps I _ _ (modify-Keeps I _ (λ c. k.begun_at c total ack)) (λ _.
          bind-Keeps I _ _ (set_phase-Keeps sys I k _) (λ _.
            bind-Keeps I _ _ (ask-Keeps sys I st _) (λ ok.
              bind-Keeps I _ _ (raise_if-Keeps I _ _) (λ _.
                bind-Keeps I _ _ (ask-Keeps sys I st sys.now_ms) (λ t0.
                  bind-Keeps I _ _ (chunk_loop-Keeps sys I k sys.passes total _ t0 0 0)
                    (after_chunks-Keeps total))))))))

  pub upload_file-Keeps : (path : Bytes) → Keeps I (upload_file sys path)
  unfolding upload_file
  upload_file-Keeps path =
      bind-Keeps I _ _ (modify-Keeps I _ k.restarted)
        (λ _. bind-Keeps I _ _ (ask-Keeps sys I st _) (upload_sized-Keeps path))
