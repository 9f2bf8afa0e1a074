-- ===== src/Client/Controls.antt =====
-- The calls of the user interface: `connect`, `disconnect`, `start_upload`, `request_cancel`,
-- `csv_copy` and `drain_log` of 01.Sources/CLIENT/CPP/src/net/Transfer.h and Transfer.cpp, and the
-- points at which the session sees them.
use assignment_logger_analyz.Prelude.{Bool, true, false, if◌then◌else◌, List, [], ◌∷◌, ◌++◌, Bytes}
use assignment_logger_analyz.Client.Actions.{Action, modify, gets, ◌>>=◌, ◌>>◌}
use assignment_logger_analyz.Client.System.{
  System, Call, press_cancel, press_disconnect, press_upload, take_log,
}
use assignment_logger_analyz.Client.State.{Client, Command, upload, empty_snapshot, ask}

module _ (sys : System) where
  unfoldable pub request_cancel : Client sys → Client sys
  request_cancel c = record c { cancel = true }

  unfoldable pub disconnect : Client sys → Client sys
  disconnect c = record c { cmds = Command.disconnect ∷ [] }

  unfoldable pub start_upload : Bytes → Client sys → Client sys
  start_upload file_path c = record c { cancel = false; cmds = c.cmds ++ (upload file_path ∷ []) }

  -- The lines that the user interface takes, and the client without them.
  unfoldable pub drain_log : Client sys → List Bytes × Client sys
  drain_log c = (c.log_lines, record c { log_lines = [] })

  -- What `connect` does before the worker's thread runs the session, and whether it starts one.
  unfoldable pub connect : Client sys → Bool × Client sys
  connect c = if c.busy then (false, c) else (
    true,
    record c { busy = true; cancel = false; cmds = []; shot = empty_snapshot sys; csv = [] },
  )

  unfoldable pub apply_call : Client sys → Call → Client sys
  unfolding request_cancel disconnect start_upload drain_log
  apply_call c press_cancel = request_cancel c
  apply_call c press_disconnect = disconnect c
  apply_call c (press_upload file_path) = start_upload file_path c
  apply_call c take_log = (drain_log c).1

  unfoldable pub apply_calls : Client sys → List Call → Client sys
  unfolding apply_call
  apply_calls c [] = c
  apply_calls c (k ∷ ks) = apply_calls (apply_call c k) ks

  -- The user interface's calls up to now take effect.
  unfoldable pub see_calls : Action (Client sys) (Unit {0})
  unfolding apply_calls
  see_calls = do calls ← ask sys sys.ui_calls; modify (λ c. apply_calls c calls)

  -- cancel_.load
  unfoldable pub cancel_requested : Action (Client sys) Bool
  unfolding see_calls
  cancel_requested = do see_calls; gets (λ c. c.cancel)
