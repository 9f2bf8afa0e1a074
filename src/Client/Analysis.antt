-- ===== src/Client/Analysis.antt =====
-- `do_upload` of 01.Sources/CLIENT/CPP/src/net/Transfer.cpp: its beginning, what follows the chunks,
-- and the whole.
use assignment_logger_analyz.Prelude.{
  ℕ, zero, suc, ◌==◌, ◌||◌, not, Bool, true, false, if◌then◌else◌, Option, none, some, [], ◌++◌,
  Bytes, codes, decimal, length, take,
}
use assignment_logger_analyz.Protocol.{
  MsgType, msg_name, upload_begin, upload_begin_ack, upload_end, upload_ack, analyze_done,
}
use assignment_logger_analyz.LogLine.Floats.{Doubles}
use assignment_logger_analyz.Payload.Writer
use assignment_logger_analyz.Client.Actions.{
  Action, pure, raise, raise_if, out_of_passes, on_failure, modify, gets, ◌>>=◌, ◌>>◌,
}
use assignment_logger_analyz.Client.System.{System}
use assignment_logger_analyz.Client.State.{
  Client, connected, uploading, waiting_analysis, receiving_result, finished, ask, set_phase,
  set_shot, log, fail,
}
use assignment_logger_analyz.Client.Controls.{cancel_requested}
use assignment_logger_analyz.Client.Texts.{reading, human_bytes, server_error_text}
use assignment_logger_analyz.Client.Frames.{Frame, same_type, send_frame, read_frame}
use assignment_logger_analyz.Client.Handshake.{idle_timeout_ms, expect}
use assignment_logger_analyz.Client.Progress.{
  apply_upload_ack, begin_ack_fields, BeginAck, done_fields, Analysis, apply_analysis, restart,
  begun,
}
use assignment_logger_analyz.Client.Cancel.{send_cancel_and_wait}
use assignment_logger_analyz.Client.Upload.{cancel_upload, chunk_loop}
use assignment_logger_analyz.Client.Result.{receive_result}

module _ (d : Doubles) where
  unfoldable pub done_line : Analysis → Bytes
  unfolding decimal
  done_line a = take 199 (
      codes "<- ANALYZE_DONE      lines="
      ++ (decimal a.lines
          ++ (codes "  accepted="
              ++ (decimal a.accepted
                  ++ (codes "  rejected="
                      ++ (decimal a.rejected
                          ++ (codes "  spd_avg="
                              ++ (a.avg
                                  ++ (codes "  parse="
                                      ++ (decimal a.elapsed
                                          ++ (codes " ms  server peak RSS="
                                              ++ (d.fixed 1
                                                    (d.div_d (d.of_nat a.rss) (d.of_nat 1024))
                                                  ++ codes " MiB"))))))))))))

  -- Why the file ended before its declared size was sent, with whether a read has failed.
  unfoldable pub local_problem : Bool → ℕ → ℕ → Bytes
  unfolding human_bytes
  local_problem true sent total = codes "local file read error after " ++ human_bytes d sent
  local_problem false sent total =
      codes "file changed during upload: declared "
      ++ (human_bytes d total ++ (codes " but could only read " ++ human_bytes d sent))

module _ (sys : System) where
  -- The branches on a frame of the wait for ANALYZE_DONE; `next` is the next pass. The result is the
  -- size of the result.
  unfoldable pub after_wait_frame :
      Action (Client sys) (Option ℕ) → Frame → Action (Client sys) (Option ℕ)
  unfolding same_type server_error_text apply_upload_ack done_fields apply_analysis done_line
  after_wait_frame next f =
      if same_type f.type upload_ack
      then set_shot sys (apply_upload_ack sys f.payload) >> next
      else if same_type f.type MsgType.error
      then raise (server_error_text f.payload)
      else if same_type f.type analyze_done
      then analysed
      else raise
          (codes "unexpected message while waiting for ANALYZE_DONE: " ++ codes (msg_name f.type))
    where
      analysed : Action (Client sys) (Option ℕ)
      analysed = do
        a ← reading f.payload done_fields
        set_shot sys (apply_analysis sys a)
        log sys (done_line sys.doubles a)
        pure (some a.csv_size)

  -- `none` after a cancellation.
  unfoldable pub wait_loop : ℕ → Action (Client sys) (Option ℕ)
  unfolding after_wait_frame cancel_upload
  wait_loop zero = out_of_passes
  wait_loop (suc n) = do
    stop ← cancel_requested sys
    if stop
        then cancel_upload sys (codes "cancelled while waiting for the analysis") >> pure none
        else read_frame sys idle_timeout_ms >>= after_wait_frame (wait_loop n)

  -- The result, or a cancellation in its place.
  unfoldable pub take_result : Option ℕ → Action (Client sys) Bool
  unfolding receive_result
  take_result none = pure true
  take_result (some csv_size) = do
    set_phase sys receiving_result
    receive_result sys csv_size
    set_phase sys finished
    log sys (codes "upload finished, connection stays open")
    pure true

  -- UPLOAD_END and all that follows.
  unfoldable pub end_upload : ℕ → Action (Client sys) Bool
  unfolding wait_loop take_result human_bytes
  end_upload sent = do
    send_frame sys upload_end (Writer.u64 [] sent)
    log sys (
        codes "-> UPLOAD_END        "
        ++ (human_bytes sys.doubles sent ++ codes " sent, waiting for the analysis"))
    set_phase sys waiting_analysis
    csv_size ← wait_loop sys.passes
    take_result csv_size

  unfoldable pub give_up_file : Bytes → Action (Client sys) Bool
  give_up_file why = do
    send_cancel_and_wait sys
    set_phase sys connected
    log sys (codes "[ERROR] " ++ (why ++ codes " - upload aborted, connection stays open"))
    pure true

  -- What follows the chunks: nothing after a cancellation.
  unfoldable pub after_chunks : ℕ → Option ℕ → Action (Client sys) Bool
  unfolding end_upload give_up_file local_problem
  after_chunks total none = pure true
  after_chunks total (some sent) = do
    bad ← gets (λ c. sys.file_bad c.world)
    if bad || not (sent == total)
        then give_up_file (local_problem sys.doubles bad sent total)
        else end_upload sent

  -- UPLOAD_BEGIN and its answer.
  unfoldable pub begin_upload : Bytes → ℕ → Action (Client sys) BeginAck
  unfolding expect begin_ack_fields human_bytes
  begin_upload file_path total = do
    send_frame sys upload_begin (Writer.str16 (Writer.u64 [] total) (sys.file_name file_path))
    log sys (
        codes "-> UPLOAD_BEGIN      "
        ++ (sys.file_name file_path ++ (codes "  " ++ human_bytes sys.doubles total)))
    ack ← read_frame sys idle_timeout_ms
    expect sys upload_begin_ack (codes "UPLOAD_BEGIN_ACK") ack
    reading ack.payload begin_ack_fields

  unfoldable pub ack_line : BeginAck → Bytes
  unfolding human_bytes decimal
  ack_line a =
      codes "<- UPLOAD_BEGIN_ACK  upload_id="
      ++ (decimal a.upload_id
          ++ (codes "  chunk="
              ++ (human_bytes sys.doubles a.chunk_size
                  ++ (codes "  modules=" ++ decimal (length a.module_names)))))

  -- The upload of a file whose size was found, or not.
  unfoldable pub upload_sized : Bytes → Option ℕ → Action (Client sys) Bool
  unfolding begin_upload begun ack_line chunk_loop after_chunks
  upload_sized file_path none = do
    set_phase sys connected
    log sys (codes "[ERROR] cannot read file: " ++ file_path)
    pure true
  upload_sized file_path (some total) = do
    ack ← begin_upload file_path total
    log sys (ack_line ack)
    set_shot sys (begun sys total ack)
    set_phase sys uploading
    opened ← ask sys (λ w. sys.open_file w file_path)
    raise_if (not opened) (codes "cannot open file: " ++ file_path)
    t0 ← ask sys sys.now_ms
    sent ← chunk_loop sys sys.passes total ack.chunk_size t0 0 0
    after_chunks total sent

  unfoldable pub upload_file : Bytes → Action (Client sys) Bool
  unfolding upload_sized restart
  upload_file file_path = do
    modify (λ c. record c { shot = restart sys c.shot; csv = [] })
    total ← ask sys (λ w. sys.file_size w file_path)
    upload_sized file_path total

  -- Every failure of it ends the connection with its text.
  unfoldable pub do_upload : Bytes → Action (Client sys) Bool
  unfolding upload_file fail
  do_upload file_path = on_failure (upload_file file_path) (λ why. fail sys why >> pure false)
