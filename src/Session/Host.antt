-- ===== src/Session/Host.antt =====
-- What a session uses of libuv, the C library and the clock, and what is set outside of it. The
-- answers may depend on all that went before, which is the state `World`.
use assignment_logger_analyz.Prelude.{ℕ, Bool, Bytes}
use assignment_logger_analyz.LogLine.Floats.{Doubles}

-- The result of uv_tcp_getpeername with the name that uv_ip4_name or uv_ip6_name makes of it.
pub data Peer : Type 0 where
  no_peer other_family : Peer
  ipv4 ipv6 : Bytes → ℕ → Peer

pub record Host : Type 1 where
  pub doubles : Doubles
  pub World : Type 0
  -- uv_write: whether it returned 0
  pub uv_write : World → Bytes → Bool × World
  -- uv_read_start: whether it returned 0
  pub read_start : World → Bool × World
  pub hrtime : World → ℕ × World
  -- peak_rss_kb of util/Logger, a line of /proc/self/status
  pub peak_rss_kb : World → ℕ × World
  -- the text of utc_now
  pub utc_now : World → Bytes × World
  pub peer_name : World → Peer
  -- uv_is_closing for the timer and for the socket
  pub timer_closing : World → Bool
  pub tcp_closing : World → Bool
  -- uv_version_string
  pub uv_version : Bytes
