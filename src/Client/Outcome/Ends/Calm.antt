-- ===== src/Client/Outcome/Ends/Calm.antt =====
-- No failure leaves `run_session`: each is caught and shown.
use assignment_logger_analyz.Prelude.{
  ℕ, zero, suc, Bool, true, false, if◌then◌else◌, Option, none, some, Bytes,
}
use assignment_logger_analyz.Protocol.{MsgType}
use assignment_logger_analyz.Client.Actions.{
  Action, Result, done, failed, stuck, ◌>>=◌, pure, modify, gets, on_failure, rescue, follow,
  out_of_passes,
}
use assignment_logger_analyz.Client.Logic.{OnDone}
use assignment_logger_analyz.Client.System.{System}
use assignment_logger_analyz.Client.State.{
  Client, Command, upload, log, fail, ask, set_phase, set_connected,
}
use assignment_logger_analyz.Client.Controls.{see_calls}
use assignment_logger_analyz.Client.Socket.{close, poll_now, readable_now}
use assignment_logger_analyz.Client.Frames.{Frame, same_type}
use assignment_logger_analyz.Client.Analysis.{do_upload}
use assignment_logger_analyz.Client.Run.{
  take_command, idle_frame, read_idle_frame, idle_loop, after_command, command_loop, end_session,
  not_connected, establish, after_establish, run_session,
}
use assignment_logger_analyz.Client.Outcome.Ends.{Over, run_session-Gives}

abbrev Unfailed : {S A : Type 0} → Result A × S → Type 0
Unfailed (done a, s) = Unit {0}
Unfailed (failed e, s) = ⊥
Unfailed (stuck, s) = Unit {0}

record Calm {S A : Type 0} (m : Action S A) : Type 0 where
  pub calm : (s : S) → Unfailed (m s)

module _ {S : Type 0} where
  follow-Unfailed :
      {A B : Type 0} (f : A → Action S B) (r : Result A × S)
      → ((a : A) → Calm (f a))
      → Unfailed r
      → Unfailed (follow f r)
  follow-Unfailed f (done a, s) k u = (k a).calm s
  follow-Unfailed f (failed e, s) k u = u
  follow-Unfailed f (stuck, s) k u = tt

  bind-Calm :
      {A B : Type 0} (m : Action S A) (f : A → Action S B)
      → Calm m
      → ((a : A) → Calm (f a))
      → Calm (m >>= f)
  unfolding ◌>>=◌
  bind-Calm m f k l = record { calm = λ s. follow-Unfailed f (m s) l (k.calm s) }

  rescue-Unfailed :
      {A : Type 0} (f : Bytes → Action S A) (r : Result A × S)
      → ((e : Bytes) → Calm (f e))
      → Unfailed (rescue f r)
  rescue-Unfailed f (done a, s) k = tt
  rescue-Unfailed f (failed e, s) k = (k e).calm s
  rescue-Unfailed f (stuck, s) k = tt

  on_failure-Calm :
      {A : Type 0} (m : Action S A) (f : Bytes → Action S A)
      → ((e : Bytes) → Calm (f e))
      → Calm (on_failure m f)
  unfolding on_failure
  on_failure-Calm m f k = record { calm = λ s. rescue-Unfailed f (m s) k }

  pure-Calm : {A : Type 0} (a : A) → Calm (pure {S = S} a)
  unfolding pure
  pure-Calm a = record { calm = λ s. tt }

  if-Calm : {A : Type 0} (b : Bool) (m n : Action S A) → Calm m → Calm n → Calm (if b then m else n)
  if-Calm true m n k l = k
  if-Calm false m n k l = l

  modify-Calm : (f : S → S) → Calm (modify f)
  unfolding modify
  modify-Calm f = record { calm = λ s. tt }

module _ (sys : System) where
  ask-Calm : {A : Type 0} (f : sys.World → A × sys.World) → Calm (ask sys f)
  unfolding ask
  ask-Calm f = record { calm = λ s. tt }

  log-Calm : (l : Bytes) → Calm (log sys l)
  unfolding log
  log-Calm l = bind-Calm _ _ (ask-Calm sys.local_time) (λ _. modify-Calm _)

  fail-Calm : (why : Bytes) → Calm (fail sys why)
  unfolding fail
  fail-Calm why = bind-Calm _ _ (modify-Calm _) (λ _. log-Calm _)

  readable_now-Calm : Calm (readable_now sys)
  unfolding readable_now gets ◌>>=◌ poll_now pure ask
  readable_now-Calm = record { calm = λ c. polled c c.is_open }
    where
      polled : (c : Client sys) (b : Bool) → Unfailed (poll_now sys b c)
      polled c true = tt
      polled c false = tt

  idle_frame-Calm :
      (next : Action (Client sys) Bool) (r : Option Frame)
      → Calm next
      → Calm (idle_frame sys next r)
  unfolding idle_frame
  idle_frame-Calm next none k = pure-Calm false
  idle_frame-Calm next (some f) k =
      if-Calm (same_type f.type MsgType.error) _ _
        (bind-Calm _ _ (fail-Calm _) (λ _. pure-Calm false)) (bind-Calm _ _ (log-Calm _) (λ _. k))

  idle_loop-Calm : (n : ℕ) → Calm (idle_loop sys n)
  unfolding idle_loop read_idle_frame out_of_passes
  idle_loop-Calm zero = record { calm = λ s. tt }
  idle_loop-Calm (suc n) = bind-Calm _ _ readable_now-Calm (λ more.
      if-Calm more _ _
        (bind-Calm _ _
          (on_failure-Calm _ _ (λ e. bind-Calm _ _ (fail-Calm _) (λ _. pure-Calm none)))
          (λ r. idle_frame-Calm (idle_loop sys n) r (idle_loop-Calm n)))
        (pure-Calm true))

  take_command-Calm : Calm (take_command sys)
  unfolding take_command see_calls ◌>>=◌ gets modify pure ask
  take_command-Calm = record { calm = λ s. tt }

  do_upload-Calm : (path : Bytes) → Calm (do_upload sys path)
  unfolding do_upload
  do_upload-Calm path =
      on_failure-Calm _ _ (λ why. bind-Calm _ _ (fail-Calm why) (λ _. pure-Calm false))

  after_command-Calm :
      (next : Action (Client sys) (Unit {0})) (command : Option Command)
      → Calm next
      → Calm (after_command sys next command)
  unfolding after_command
  after_command-Calm next none k =
      bind-Calm _ _ (idle_loop-Calm sys.passes) (λ alive. if-Calm alive _ _ k (pure-Calm tt))
  after_command-Calm next (some (upload path)) k =
      bind-Calm _ _ (do_upload-Calm path) (λ alive. if-Calm alive _ _ k (pure-Calm tt))
  after_command-Calm next (some Command.disconnect) k =
      bind-Calm _ _ (on_failure-Calm _ _ (λ e. pure-Calm tt)) (λ _. log-Calm _)

  command_loop-Calm : (n : ℕ) → Calm (command_loop sys n)
  unfolding command_loop out_of_passes
  command_loop-Calm zero = record { calm = λ s. tt }
  command_loop-Calm (suc n) =
      bind-Calm _ _ take_command-Calm
        (λ command. after_command-Calm (command_loop sys n) command (command_loop-Calm n))

  end_session-Calm : Calm (end_session sys)
  unfolding end_session close set_connected
  end_session-Calm =
      bind-Calm _ _ (modify-Calm _) (λ _.
        bind-Calm _ _ (modify-Calm _) (λ _. bind-Calm _ _ (modify-Calm _) (λ _. modify-Calm _)))

  not_connected-Calm : (e : Bytes) → Calm (not_connected sys e)
  unfolding not_connected close
  not_connected-Calm e = bind-Calm _ _ (fail-Calm e) (λ _.
      bind-Calm _ _ (modify-Calm _) (λ _. bind-Calm _ _ (modify-Calm _) (λ _. pure-Calm false)))

  establish-Calm : (host : Bytes) (port : ℕ) (name : Bytes) → Calm (establish sys host port name)
  unfolding establish set_phase
  establish-Calm host port name =
      bind-Calm _ _ (modify-Calm _)
        (λ _. bind-Calm _ _ (log-Calm _) (λ _. on_failure-Calm _ _ not_connected-Calm))

  after_establish-Calm : (b : Bool) → Calm (after_establish sys b)
  unfolding after_establish set_phase set_connected
  after_establish-Calm false = pure-Calm tt
  after_establish-Calm true = bind-Calm _ _ (modify-Calm _) (λ _.
      bind-Calm _ _ (modify-Calm _)
        (λ _. bind-Calm _ _ (command_loop-Calm sys.passes) (λ _. end_session-Calm)))

  -- No failure gets out, and a session that has ended is over.
  abbrev pub Ended : Result (Unit {0}) × Client sys → Type 0
  Ended (done u, c) = Over sys c
  Ended (failed e, c) = ⊥
  Ended (stuck, c) = Unit {0}

  ended : (r : Result (Unit {0}) × Client sys) → Unfailed r → OnDone (λ _ c. Over sys c) r → Ended r
  ended (done u, c) k o = o
  ended (failed e, c) k o = k
  ended (stuck, c) k o = tt

  -- A session of the worker never ends with a failure that is not caught: it ends, but for a loop that
  -- is followed only for some of its passes, and leaves the worker free, its socket closed, the
  -- connection shown as closed, and the phase idle or failed.
  pub run_session-Ended :
      (host : Bytes) (port : ℕ) (client_name : Bytes) (c : Client sys)
      → Ended (run_session sys host port client_name c)
  unfolding run_session
  run_session-Ended host port client_name c =
      ended _ ((bind-Calm _ _ (establish-Calm host port client_name) after_establish-Calm).calm c)
        ((run_session-Gives sys host port client_name).give c tt)
