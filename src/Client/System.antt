-- ===== src/Client/System.antt =====
-- What the client uses of the sockets, the clock, the files and the user interface, which calls it
-- from another thread. The answers may depend on all that went before, which is the state `World`.
use assignment_logger_analyz.Prelude.{ℕ, Bool, Option, List, Bytes}
use assignment_logger_analyz.LogLine.Floats.{Doubles}

-- ::recv: the bytes it has read, none at the end of the stream, or the text of its error.
pub data Received : Type 0 where
  arrived : Bytes → Received
  nothing_yet : Received
  recv_error : Bytes → Received

-- ::send of at least one byte: how many it has taken beside the first, or the text of its error.
pub data Sent : Type 0 where
  taken : ℕ → Sent
  no_room : Sent
  send_error : Bytes → Sent

-- An address that getaddrinfo found, as ::socket, set_nonblocking and ::connect take it.
pub data Attempt : Type 0 where
  no_socket connected_at_once in_progress : Attempt
  no_nonblocking refused : Bytes → Attempt

-- A call of the user interface that the running session can observe.
pub data Call : Type 0 where
  press_cancel press_disconnect take_log : Call
  press_upload : Bytes → Call

pub data Wanted : Type 0 where
  readable writable : Wanted

pub record System : Type 1 where
  pub doubles : Doubles
  pub World : Type 0
  -- how many passes each loop of the model is given
  pub passes : ℕ
  -- the calls of the user interface since they were last looked at
  pub ui_calls : World → List Call × World
  -- steady_clock, in milliseconds
  pub now_ms : World → ℕ × World
  -- local_time_prefix
  pub local_time : World → Bytes × World
  pub recv : World → ℕ → Received × World
  pub send : World → Bytes → Sent × World
  -- wait: poll with a timeout
  pub poll : World → Wanted → ℕ → Bool × World
  -- getaddrinfo: how many addresses, or none where it fails or finds nothing
  pub resolve : World → Bytes → ℕ → Option ℕ × World
  pub attempt : World → ℕ → Attempt × World
  -- getsockopt of SO_ERROR: the text of the error, if there is one
  pub socket_error : World → Option Bytes × World
  -- fs::file_size, `none` on an error
  pub file_size : World → Bytes → Option ℕ × World
  -- filename of a path
  pub file_name : Bytes → Bytes
  -- the constructor of ifstream, then read with gcount, and bad
  pub open_file : World → Bytes → Bool × World
  pub read_file : World → ℕ → Bytes × World
  pub file_bad : World → Bool
