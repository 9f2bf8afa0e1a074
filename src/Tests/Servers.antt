-- ===== src/Tests/Servers.antt =====
-- The theorems on the server, at sample data.
use assignment_logger_analyz.Server.Startup
use assignment_logger_analyz.Server.Startup.{Answers, Left, start-Left}
use assignment_logger_analyz.Prelude.{◌≡◌, refl, true, false, [], ◌∷◌, arith, none, some, codes}
use assignment_logger_analyz.Config.{default_config}
use assignment_logger_analyz.Tests.Samples.{host, accepted_session}
use assignment_logger_analyz.Session.Invariant.{new_session-Sane}
use assignment_logger_analyz.Session.Events.{timeout}
use assignment_logger_analyz.Server.{
  Server, accepted, accept_one, begin_shutdown, session_event, signal, server_step,
}
use assignment_logger_analyz.Server.Sessions.{ids}
use assignment_logger_analyz.Server.Tables.{Ascending, Each}
use assignment_logger_analyz.Server.Invariant.{WellFormed, server_step-WellFormed}
use assignment_logger_analyz.Server.Limits.{
  served, Limited, accept_one-Limited, Winding, server_step-Winding,
}
use assignment_logger_analyz.Server.Waiting.{serving, leaving}
use assignment_logger_analyz.Session.State.{closing}
use assignment_logger_analyz.Server.Drain.{
  server_run, callbacks, times, unfinished, begin_shutdown-drains,
}

-- A server with the session 7.
abbrev busy_server : Server host
busy_server = record {
  config = default_config;
  listening = true;
  shutting_down = false;
  sessions = (7, accepted_session) ∷ [];
  next_id = 8;
}

server_step-WellFormed_example : WellFormed host (server_step host busy_server signal)
unfolding Ascending Each
server_step-WellFormed_example = server_step-WellFormed host busy_server signal (record {
  ordered = (omega arith, tt);
  sane = (new_session-Sane host 7 300000 15000 tt, tt);
  down = λ e. absurd (ground arith);
})

accept_one-Limited_example : Limited host (accept_one host busy_server (accepted tt))
unfolding served
accept_one-Limited_example = accept_one-Limited host busy_server (accepted tt) (omega arith)

server_step-Winding_example :
    Winding host
      (record busy_server { shutting_down = true })
      (server_step host (record busy_server { shutting_down = true }) (session_event 7 timeout))
server_step-Winding_example =
    server_step-Winding host (record busy_server { shutting_down = true }) (session_event 7 timeout)
      refl

-- A server whose session 7 is closing with one handle left, while 8 and 9 are open.
abbrev three_sessions : Server host
three_sessions = record busy_server {
  sessions =
      (7, record accepted_session { state = closing; pending_close = 1 })
      ∷ (8, accepted_session)
      ∷ (9, accepted_session)
      ∷ [];
}

-- Of the session 8 one handle is still to be closed.
begin_shutdown-drains_example :
    ids host
      (server_run host
        (begin_shutdown host three_sessions)
        (callbacks host (9 ∷ 8 ∷ 7 ∷ 9 ∷ []))).sessions
    ≡ 8 ∷ []
unfolding Ascending Each ids unfinished times
begin_shutdown-drains_example =
    begin_shutdown-drains host (λ w. (refl, refl)) three_sessions (9 ∷ 8 ∷ 7 ∷ 9 ∷ []) refl
      (omega arith, (omega arith, (omega arith, tt)))
      (
        leaving refl (omega arith),
        (serving (λ e. ground arith) refl refl, (serving (λ e. ground arith) refl refl, tt)),
      )

-- The address is in use.
abbrev in_use : Answers
in_use = record {
  tcp_init = none;
  ip4_addr = none;
  tcp_bind = some (codes "address already in use");
  listen = none;
  sig_int_init = true;
  sig_term_init = true;
  timer_init = true;
}

start-Left_example : Left in_use (Startup.start default_config in_use)
start-Left_example = start-Left default_config in_use
