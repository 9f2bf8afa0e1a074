-- ===== src/Session/State.antt =====
-- The state of a session, 01.Sources/SERVER/src/net/TcpSession.h.
use assignment_logger_analyz.Prelude.{
  ℕ, ◌*◌, Bool, true, false, Option, none, List, [], ◌++◌, Bytes, codes, decimal,
}
use assignment_logger_analyz.Decoder.{Decoder, fresh}
use assignment_logger_analyz.Splitter.{Splitter, new_splitter, default_max_line}
use assignment_logger_analyz.Aggregator.{Aggregator, new_aggregator}
use assignment_logger_analyz.Session.Host.{Host, Peer, no_peer, other_family, ipv4, ipv6}

pub data State : Type 0 where
  await_hello ready uploading closing : State

abbrev pub is_closing : State → Bool
is_closing closing = true
is_closing await_hello = false
is_closing ready = false
is_closing uploading = false

abbrev pub is_uploading : State → Bool
is_uploading uploading = true
is_uploading await_hello = false
is_uploading ready = false
is_uploading closing = false

abbrev pub ack_interval_bytes : ℕ
ack_interval_bytes = 16 * 1024 * 1024

abbrev pub stall_tick_limit : ℕ
stall_tick_limit = 3

-- The idle timer as uv_timer_start last set it: its timeout and its repeat.
pub record Timer : Type 0 where
  pub timeout : ℕ
  pub repeat : ℕ

module _ (h : Host) where
  -- `writes` holds the frames of the deque `writes_`, oldest first; `timer` is `none` while the timer
  -- is stopped, `reading` says whether the socket is read, and `notified` counts the calls of
  -- `on_session_closed`.
  pub record Session : Type 0 where
    pub id : ℕ
    pub state : State
    pub handles_inited : Bool
    pub pending_close : ℕ
    pub decoder : Decoder
    pub writes : List Bytes
    pub peer : Bytes
    pub client_name : Bytes
    pub close_after_flush : Bool
    pub idle_timeout_ms : ℕ
    pub upload_stall_timeout_ms : ℕ
    pub stall_ticks : ℕ
    pub rx_bytes : ℕ
    pub rx_frames : ℕ
    pub splitter : Splitter
    pub agg : Aggregator h.doubles
    pub upload_id : ℕ
    pub upload_name : Bytes
    pub upload_declared : ℕ
    pub upload_received : ℕ
    pub last_ack_at : ℕ
    pub upload_start_ns : ℕ
    pub line_offset : ℕ
    pub result_csv : Bytes
    pub timer : Option Timer
    pub reading : Bool
    pub notified : ℕ
    pub world : h.World

  -- The constructor, and `init` where libuv sets both handles up.
  abbrev pub new_session : ℕ → ℕ → ℕ → h.World → Session
  new_session id idle_timeout_ms upload_stall_timeout_ms world = record {
    id = id;
    state = await_hello;
    handles_inited = true;
    pending_close = 0;
    decoder = fresh;
    writes = [];
    peer = codes "unknown";
    client_name = [];
    close_after_flush = false;
    idle_timeout_ms = idle_timeout_ms;
    upload_stall_timeout_ms = upload_stall_timeout_ms;
    stall_ticks = 0;
    rx_bytes = 0;
    rx_frames = 0;
    splitter = new_splitter default_max_line;
    agg = new_aggregator h.doubles;
    upload_id = 0;
    upload_name = [];
    upload_declared = 0;
    upload_received = 0;
    last_ack_at = 0;
    upload_start_ns = 0;
    line_offset = 0;
    result_csv = [];
    timer = none;
    reading = false;
    notified = 0;
    world = world;
  }

unfoldable pub peer_text : Peer → Bytes
unfolding decimal
peer_text no_peer = codes "unknown"
peer_text other_family = codes "unknown"
peer_text (ipv4 ip port) = ip ++ (codes ":" ++ decimal port)
peer_text (ipv6 ip port) = codes "[" ++ (ip ++ (codes "]:" ++ decimal port))

module _ (h : Host) where
  unfoldable pub resolve_peer : Session h → Session h
  unfolding peer_text
  resolve_peer s = record s { peer = peer_text (h.peer_name s.world) }
