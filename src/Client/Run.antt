-- ===== src/Client/Run.antt =====
-- `run_session` of 01.Sources/CLIENT/CPP/src/net/Transfer.cpp: the worker's thread.
use assignment_logger_analyz.Prelude.{
  ℕ, zero, suc, Bool, true, false, if◌then◌else◌, Option, none, some, List, [], ◌∷◌, ◌++◌, Bytes,
  codes, decimal,
}
use assignment_logger_analyz.Protocol.{MsgType, msg_name}
use assignment_logger_analyz.Client.Actions.{
  Action, pure, out_of_passes, on_failure, modify, gets, ◌>>=◌, ◌>>◌,
}
use assignment_logger_analyz.Client.System.{System}
use assignment_logger_analyz.Client.State.{
  Client, Phase, idle, connecting, connected, broken, Command, upload, set_phase, set_connected,
  set_shot, log, fail,
}
use assignment_logger_analyz.Client.Controls.{see_calls}
use assignment_logger_analyz.Client.Socket.{readable_now, close}
use assignment_logger_analyz.Client.Connect.{connect}
use assignment_logger_analyz.Client.Texts.{server_error_text}
use assignment_logger_analyz.Client.Frames.{
  Frame, same_type, read_frame, send_empty_frame_never_cancel,
}
use assignment_logger_analyz.Client.Handshake.{handshake}
use assignment_logger_analyz.Client.Upload.{pending_timeout_ms}
use assignment_logger_analyz.Client.Analysis.{do_upload}

abbrev pub connect_timeout_ms : ℕ
connect_timeout_ms = 5000

-- The phase in which a session ends, unless it has failed.
unfoldable pub end_phase : Phase → Phase
end_phase broken = broken
end_phase idle = idle
end_phase connecting = idle
end_phase Phase.handshaking = idle
end_phase connected = idle
end_phase Phase.uploading = idle
end_phase Phase.waiting_analysis = idle
end_phase Phase.receiving_result = idle
end_phase Phase.finished = idle
end_phase Phase.cancelled = idle

abbrev pub first : List Command → Option Command
first [] = none
first (k ∷ ks) = some k

abbrev pub others : List Command → List Command
others [] = []
others (k ∷ ks) = ks

module _ (sys : System) where
  unfoldable pub take_command : Action (Client sys) (Option Command)
  unfolding see_calls
  take_command = do
    see_calls sys
    command ← gets (λ c. first c.cmds)
    modify (λ c. record c { cmds = others c.cmds })
    pure command

  -- A frame while no command is there, `none` where it could not be read.
  unfoldable pub idle_frame : Action (Client sys) Bool → Option Frame → Action (Client sys) Bool
  unfolding same_type server_error_text fail
  idle_frame next none = pure false
  idle_frame next (some f) =
      if same_type f.type MsgType.error
      then fail sys (server_error_text f.payload) >> pure false
      else log sys (codes "<- " ++ (codes (msg_name f.type) ++ codes " (ignored while idle)"))
        >> next

  unfoldable pub read_idle_frame : Action (Client sys) (Option Frame)
  unfolding fail
  read_idle_frame =
      on_failure (read_frame sys pending_timeout_ms >>= (λ f. pure (some f)))
        (λ err. fail sys (codes "connection lost: " ++ err) >> pure none)

  -- Whether the connection is alive after what the server has sent.
  unfoldable pub idle_loop : ℕ → Action (Client sys) Bool
  unfolding idle_frame read_idle_frame
  idle_loop zero = out_of_passes
  idle_loop (suc n) = do
    more ← readable_now sys
    if more then read_idle_frame >>= idle_frame (idle_loop n) else pure true

  abbrev pub continue_if : Action (Client sys) (Unit {0}) → Bool → Action (Client sys) (Unit {0})
  continue_if next alive = if alive then next else pure tt

  unfoldable pub after_command :
      Action (Client sys) (Unit {0}) → Option Command → Action (Client sys) (Unit {0})
  unfolding idle_loop do_upload
  after_command next none = idle_loop sys.passes >>= continue_if next
  after_command next (some (upload file)) = do_upload sys file >>= continue_if next
  after_command next (some Command.disconnect) =
      on_failure (send_empty_frame_never_cancel sys MsgType.bye) (λ e. pure tt)
      >> log sys (codes "-> BYE               disconnected")

  unfoldable pub command_loop : ℕ → Action (Client sys) (Unit {0})
  unfolding take_command after_command
  command_loop zero = out_of_passes
  command_loop (suc n) = take_command >>= after_command (command_loop n)

  -- What stands behind the loop.
  unfoldable pub end_session : Action (Client sys) (Unit {0})
  unfolding end_phase close
  end_session = do
    close sys
    set_connected sys false
    set_shot sys (λ s. record s { phase = end_phase s.phase })
    modify (λ c. record c { busy = false })

  -- A connection that has not come about; the socket's destructor closes it.
  unfoldable pub not_connected : Bytes → Action (Client sys) Bool
  unfolding fail close
  not_connected err = do
    fail sys err
    modify (λ c. record c { busy = false })
    close sys
    pure false

  unfoldable pub establish : Bytes → ℕ → Bytes → Action (Client sys) Bool
  unfolding not_connected connect handshake decimal
  establish host port client_name = do
    set_phase sys connecting
    log sys (codes "connecting to " ++ (host ++ (codes ":" ++ (decimal port ++ codes " ..."))))
    on_failure (connect sys host port connect_timeout_ms >> handshake sys client_name >> pure true)
        not_connected

  unfoldable pub after_establish : Bool → Action (Client sys) (Unit {0})
  unfolding command_loop end_session
  after_establish false = pure tt
  after_establish true = do
    set_connected sys true
    set_phase sys connected
    command_loop sys.passes
    end_session

  unfoldable pub run_session : Bytes → ℕ → Bytes → Action (Client sys) (Unit {0})
  unfolding establish after_establish
  run_session host port client_name = establish host port client_name >>= after_establish
