-- ===== src/Server.antt =====
-- TcpServer, 01.Sources/SERVER/src/net/TcpServer.h and TcpServer.cpp. The log is not modelled. Of the
-- handles of libuv only the listener is kept here; Startup has all of them.
pub mod Sessions
pub mod Startup
pub mod Limits
pub mod Tables
pub mod Calls
pub mod Waiting
pub mod Drain
pub mod Invariant
use assignment_logger_analyz.Prelude.{
  ℕ, ◌+◌, ◌%◌, ◌^◌, ltb, if◌then◌else◌, Bool, true, false, List, [], ◌∷◌, length, codes,
}
use assignment_logger_analyz.Config.{Config}
use assignment_logger_analyz.Protocol.{server_busy}
use assignment_logger_analyz.Session.Host.{Host}
use assignment_logger_analyz.Session.State.{Session, new_session}
use assignment_logger_analyz.Session.Outbox.{close}
use assignment_logger_analyz.Session.Events.{Event, step, start, reject}
use Sessions.{Table, ids, emplace, erase, run_on}

module _ (h : Host) where
  pub record Server : Type 0 where
    pub config : Config
    pub listening : Bool
    pub shutting_down : Bool
    pub sessions : Table h
    pub next_id : ℕ

  -- What libuv answers to a new connection: `init` of the session fails, uv_accept fails, or neither,
  -- with the state that the session's later answers come from.
  pub data Accept : Type 0 where
    init_failed : Accept
    accept_failed accepted : h.World → Accept

  -- The constructor, and `start` where libuv sets everything up.
  abbrev pub new_server : Config → Server
  new_server config = record {
    config = config;
    listening = true;
    shutting_down = false;
    sessions = [];
    next_id = 1;
  }

  abbrev session_of : Server → ℕ → h.World → Session h
  session_of v id world =
      new_session h id v.config.idle_timeout_ms v.config.upload_stall_timeout_ms world

  -- The session `id` is in the table: it is turned away past the limit, and started otherwise.
  unfoldable pub admit : Server → ℕ → Server
  unfolding run_on
  admit v id =
      if ltb v.config.max_sessions (length v.sessions)
      then record v {
        sessions =
            run_on h id
              (λ s. reject h s server_busy (codes "server busy: too many concurrent sessions"))
              v.sessions;
      }
      else record v { sessions = run_on h id (λ s. (start h s).1) v.sessions }

  unfoldable pub accept_with : Server → ℕ → Accept → Server
  unfolding admit emplace
  accept_with v id init_failed = v
  accept_with v id (accept_failed w) = record v {
    sessions = emplace h id (close h (session_of v id w)) v.sessions;
  }
  accept_with v id (accepted w) =
      admit (record v { sessions = emplace h id (session_of v id w) v.sessions }) id

  unfoldable pub accept_one : Server → Accept → Server
  unfolding accept_with
  accept_one v a =
      if v.shutting_down
      then v
      else accept_with (record v { next_id = (v.next_id + 1) % 2 ^ 32 }) v.next_id a

  -- on_connection, with whether libuv's status is 0.
  unfoldable pub on_connection : Server → Bool → Accept → Server
  unfolding accept_one
  on_connection v true a = accept_one v a
  on_connection v false a = v

  -- The loop over the copied ids.
  unfoldable pub close_each : List ℕ → Table h → Table h
  unfolding run_on
  close_each [] t = t
  close_each (id ∷ rest) t = close_each rest (run_on h id (λ s. close h s) t)

  unfoldable pub begin_shutdown : Server → Server
  unfolding close_each ids
  begin_shutdown v = if v.shutting_down then v else record v {
    shutting_down = true;
    listening = false;
    sessions = close_each (ids h v.sessions) v.sessions;
  }

  unfoldable pub on_session_closed : Server → ℕ → Server
  unfolding erase
  on_session_closed v id = record v { sessions = erase h id v.sessions }

  -- What the event loop brings to the server, its sessions included.
  pub data ServerEvent : Type 0 where
    connection : Bool → Accept → ServerEvent
    session_event : ℕ → Event → ServerEvent
    signal : ServerEvent

  unfoldable pub server_step : Server → ServerEvent → Server
  unfolding on_connection run_on begin_shutdown
  server_step v (connection ok a) = on_connection v ok a
  server_step v (session_event id e) = record v {
    sessions = run_on h id (λ s. step h s e) v.sessions;
  }
  server_step v signal = begin_shutdown v
