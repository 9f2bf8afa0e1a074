-- ===== src/Client/Bounded/Session.antt =====
-- The bounds hold through a whole session of the worker.
use assignment_logger_analyz.Prelude.{ℕ, zero, suc, Bool, true, false, Option, none, some, Bytes}
use assignment_logger_analyz.Protocol.{MsgType}
use assignment_logger_analyz.Client.Actions.{Action}
use assignment_logger_analyz.Client.Logic.{
  Keeps, bind-Keeps, on_failure-Keeps, pure-Keeps, out_of_passes-Keeps, gets-Keeps, modify-Keeps,
  if-Keeps,
}
use assignment_logger_analyz.Client.System.{System}
use assignment_logger_analyz.Client.State.{Client, Command, upload, set_connected}
use assignment_logger_analyz.Client.Frames.{Frame, same_type}
use assignment_logger_analyz.Client.Analysis.{do_upload}
use assignment_logger_analyz.Client.Run.{
  take_command, idle_frame, read_idle_frame, idle_loop, after_command, command_loop, end_session,
  not_connected, establish, after_establish, run_session,
}
use assignment_logger_analyz.Client.Stable.{Stable, log-Keeps, see_calls-Keeps, readable_now-Keeps}
use assignment_logger_analyz.Client.Stable.Frames.{send_empty-Keeps, read_frame-Keeps}
use assignment_logger_analyz.Client.Steady.{set_phase-Keeps}
use assignment_logger_analyz.Client.Steady.Whole.{upload_file-Keeps}
use assignment_logger_analyz.Client.Bounded.{Bounded, Bounded-Stable, Bounded-Steady}
use assignment_logger_analyz.Client.Bounded.Connect.{
  fail-Keeps, close-Keeps, connect-Keeps, handshake-Keeps,
}

module _ (sys : System) where
  abbrev I : Client sys → Type 0
  I = Bounded sys

  st : Stable sys I
  st = Bounded-Stable sys

  do_upload-Keeps : (path : Bytes) → Keeps I (do_upload sys path)
  unfolding do_upload
  do_upload-Keeps path =
      on_failure-Keeps I _ _ (upload_file-Keeps sys I (Bounded-Steady sys) path)
        (λ why. bind-Keeps I _ _ (fail-Keeps sys why) (λ _. pure-Keeps I false))

  idle_frame-Keeps :
      (next : Action (Client sys) Bool) (r : Option Frame)
      → Keeps I next
      → Keeps I (idle_frame sys next r)
  unfolding idle_frame
  idle_frame-Keeps next none k = pure-Keeps I false
  idle_frame-Keeps next (some f) k =
      if-Keeps I (same_type f.type MsgType.error) _ _
        (bind-Keeps I _ _ (fail-Keeps sys _) (λ _. pure-Keeps I false))
        (bind-Keeps I _ _ (log-Keeps sys I st _) (λ _. k))

  read_idle_frame-Keeps : Keeps I (read_idle_frame sys)
  unfolding read_idle_frame
  read_idle_frame-Keeps =
      on_failure-Keeps I _ _
        (bind-Keeps I _ _ (read_frame-Keeps sys I st 5000) (λ f. pure-Keeps I _))
        (λ err. bind-Keeps I _ _ (fail-Keeps sys _) (λ _. pure-Keeps I none))

  idle_loop-Keeps : (n : ℕ) → Keeps I (idle_loop sys n)
  unfolding idle_loop
  idle_loop-Keeps zero = out_of_passes-Keeps I
  idle_loop-Keeps (suc n) = bind-Keeps I _ _ (readable_now-Keeps sys I st) (λ more.
      if-Keeps I more _ _
        (bind-Keeps I _ _ read_idle_frame-Keeps
          (λ r. idle_frame-Keeps (idle_loop sys n) r (idle_loop-Keeps n)))
        (pure-Keeps I true))

  take_command-Keeps : Keeps I (take_command sys)
  unfolding take_command
  take_command-Keeps = bind-Keeps I _ _ (see_calls-Keeps sys I st) (λ _.
      bind-Keeps I _ _ (gets-Keeps I _) (λ command.
        bind-Keeps I _ _
          (modify-Keeps I _
            (λ c b. record { log_short = b.log_short; csv_short = b.csv_short; sized = b.sized }))
          (λ _. pure-Keeps I command)))

  after_command-Keeps :
      (next : Action (Client sys) (Unit {0})) (command : Option Command)
      → Keeps I next
      → Keeps I (after_command sys next command)
  unfolding after_command
  after_command-Keeps next none k =
      bind-Keeps I _ _ (idle_loop-Keeps sys.passes)
        (λ alive. if-Keeps I alive _ _ k (pure-Keeps I tt))
  after_command-Keeps next (some (upload path)) k =
      bind-Keeps I _ _ (do_upload-Keeps path) (λ alive. if-Keeps I alive _ _ k (pure-Keeps I tt))
  after_command-Keeps next (some Command.disconnect) k =
      bind-Keeps I _ _
        (on_failure-Keeps I _ _ (send_empty-Keeps sys I st MsgType.bye) (λ _. pure-Keeps I tt))
        (λ _. log-Keeps sys I st _)

  command_loop-Keeps : (n : ℕ) → Keeps I (command_loop sys n)
  unfolding command_loop
  command_loop-Keeps zero = out_of_passes-Keeps I
  command_loop-Keeps (suc n) =
      bind-Keeps I _ _ take_command-Keeps
        (λ command. after_command-Keeps (command_loop sys n) command (command_loop-Keeps n))

  set_connected-Keeps : (on : Bool) → Keeps I (set_connected sys on)
  unfolding set_connected
  set_connected-Keeps on =
      modify-Keeps I _
        (λ c b. record { log_short = b.log_short; csv_short = b.csv_short; sized = b.sized })

  end_session-Keeps : Keeps I (end_session sys)
  unfolding end_session
  end_session-Keeps = bind-Keeps I _ _ (close-Keeps sys) (λ _.
      bind-Keeps I _ _ (set_connected-Keeps false) (λ _.
        bind-Keeps I _ _
          (modify-Keeps I _
            (λ c b. record { log_short = b.log_short; csv_short = b.csv_short; sized = b.sized }))
          (λ _.
            modify-Keeps I _ (λ c b. record {
              log_short = b.log_short;
              csv_short = b.csv_short;
              sized = b.sized;
            }))))

  not_connected-Keeps : (err : Bytes) → Keeps I (not_connected sys err)
  unfolding not_connected
  not_connected-Keeps err = bind-Keeps I _ _ (fail-Keeps sys err) (λ _.
      bind-Keeps I _ _
        (modify-Keeps I _
          (λ c b. record { log_short = b.log_short; csv_short = b.csv_short; sized = b.sized }))
        (λ _. bind-Keeps I _ _ (close-Keeps sys) (λ _. pure-Keeps I false)))

  establish-Keeps :
      (host : Bytes) (port : ℕ) (name : Bytes) → Keeps I (establish sys host port name)
  unfolding establish
  establish-Keeps host port name =
      bind-Keeps I _ _ (set_phase-Keeps sys I (Bounded-Steady sys) _) (λ _.
        bind-Keeps I _ _ (log-Keeps sys I st _) (λ _.
          on_failure-Keeps I _ _
            (bind-Keeps I _ _
              (bind-Keeps I _ _ (connect-Keeps sys host port 5000) (λ _. handshake-Keeps sys name))
              (λ _. pure-Keeps I true))
            not_connected-Keeps))

  after_establish-Keeps : (b : Bool) → Keeps I (after_establish sys b)
  unfolding after_establish
  after_establish-Keeps false = pure-Keeps I tt
  after_establish-Keeps true = bind-Keeps I _ _ (set_connected-Keeps true) (λ _.
      bind-Keeps I _ _ (set_phase-Keeps sys I (Bounded-Steady sys) _)
        (λ _. bind-Keeps I _ _ (command_loop-Keeps sys.passes) (λ _. end_session-Keeps)))

  -- A session of the worker, whatever the user, the server and the file do in it, and also where it
  -- is followed only for some passes of its loops, keeps the log within 2000 lines and the result
  -- within 64 MiB, and the size that is shown is the size of the result.
  pub run_session-Bounded :
      (host : Bytes) (port : ℕ) (client_name : Bytes) (c : Client sys)
      → Bounded sys c
      → Bounded sys (run_session sys host port client_name c).1
  unfolding run_session
  run_session-Bounded host port client_name c b =
      (bind-Keeps I _ _ (establish-Keeps host port client_name) after_establish-Keeps).keep c b
