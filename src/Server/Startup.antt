-- ===== src/Server/Startup.antt =====
-- `start` of 01.Sources/SERVER/src/net/TcpServer.cpp and the handles that it sets up, with those that
-- begin_shutdown closes.
use assignment_logger_analyz.Prelude.{
  ◌≡◌, refl, Bool, true, false, not, ◌&&◌, if◌then◌else◌, Option, none, some, List, [], ◌∷◌, ◌++◌,
  Bytes, codes, decimal,
}
use assignment_logger_analyz.Config.{Config}

pub data Handle : Type 0 where
  listener sig_int sig_term idle_log_timer : Handle

-- What libuv answers to the calls of `start`: the text of an error, or none, and for the signals and the
-- timer whether the call succeeds.
pub record Answers : Type 0 where
  pub tcp_init : Option Bytes
  pub ip4_addr : Option Bytes
  pub tcp_bind : Option Bytes
  pub listen : Option Bytes
  pub sig_int_init : Bool
  pub sig_term_init : Bool
  pub timer_init : Bool

-- The handles of the loop that are not being closed, and the flags of the server.
pub record Handles : Type 0 where
  pub live : List Handle
  pub listener_inited : Bool
  pub signals_inited : Bool
  pub idle_log_inited : Bool

abbrev pub no_handles : Handles
no_handles = record {
  live = [];
  listener_inited = false;
  signals_inited = false;
  idle_log_inited = false;
}

-- The error, or none where the server listens, and the handles after it.
abbrev pub Started : Type 0
Started = Option Bytes × Handles

unfoldable pub start_signals : Bool → Bool → Handles → Handles
start_signals true true s = record s { live = sig_term ∷ sig_int ∷ s.live; signals_inited = true }
start_signals true false s = record s { live = sig_int ∷ s.live }
start_signals false sig_term_init s = s

unfoldable pub start_idle_log : Bool → Handles → Handles
start_idle_log true s = record s { live = idle_log_timer ∷ s.live; idle_log_inited = true }
start_idle_log false s = s

unfoldable pub after_listen : Answers → Handles → Option Bytes → Started
unfolding start_signals start_idle_log
after_listen a s (some e) = (some (codes "uv_listen: " ++ e), s)
after_listen a s none =
    (none, start_idle_log a.timer_init (start_signals a.sig_int_init a.sig_term_init s))

unfoldable pub after_bind : Config → Answers → Handles → Option Bytes → Started
unfolding after_listen decimal
after_bind c a s (some e) = (
  some (codes "bind " ++ (c.bind_addr ++ (codes ":" ++ (decimal c.port ++ (codes ": " ++ e))))),
  s,
)
after_bind c a s none = after_listen a s a.listen

unfoldable pub after_addr : Config → Answers → Handles → Option Bytes → Started
unfolding after_bind
after_addr c a s (some e) =
    (some (codes "invalid bind address '" ++ (c.bind_addr ++ (codes "': " ++ e))), s)
after_addr c a s none = after_bind c a s a.tcp_bind

unfoldable pub after_init : Config → Answers → Option Bytes → Started
unfolding after_addr
after_init c a (some e) = (some (codes "uv_tcp_init: " ++ e), no_handles)
after_init c a none =
    after_addr c a (record no_handles { live = listener ∷ []; listener_inited = true }) a.ip4_addr

unfoldable pub start : Config → Answers → Started
unfolding after_init
start c a = after_init c a a.tcp_init

abbrev pub is_none : Option Bytes → Bool
is_none none = true
is_none (some e) = false

abbrev pub same_handle : Handle → Handle → Bool
same_handle listener listener = true
same_handle sig_int sig_int = true
same_handle sig_term sig_term = true
same_handle idle_log_timer idle_log_timer = true
same_handle _ _ = false

-- uv_close where uv_is_closing is 0; on a handle that is being closed nothing is done.
unfoldable pub close_handle : Handle → List Handle → List Handle
close_handle k [] = []
close_handle k (x ∷ xs) = let rest = close_handle k xs in if same_handle k x then rest else x ∷ rest

-- The handles in begin_shutdown.
unfoldable pub release : Handles → Handles
unfolding close_handle
release s =
    let s1 = record s {
      live = if s.listener_inited then close_handle listener s.live else s.live;
    } in
    let s2 = record s1 {
      live = if s1.idle_log_inited then close_handle idle_log_timer s1.live else s1.live;
    } in
    record s2 {
      live =
          if s2.signals_inited
          then close_handle sig_term (close_handle sig_int s2.live)
          else s2.live;
    }

-- Every call that `start` needs succeeds.
abbrev pub AllSet : Answers → Type 0
AllSet a = (a.tcp_init ≡ none) × (a.ip4_addr ≡ none) × (a.tcp_bind ≡ none) × (a.listen ≡ none)

-- What is live behind `start` where it fails, and behind a shutdown where it does not.
abbrev pub Left : Answers → Started → Type 0
Left a (some e, s) = s.live ≡ (if is_none a.tcp_init then listener ∷ [] else [])
Left a (none, s) =
    AllSet a
    × ((release s).live ≡ (if a.sig_int_init && not a.sig_term_init then sig_int ∷ [] else []))

-- A start that fails leaves the listener open wherever uv_tcp_init has set it up. One that does not fail has had no
-- error from any call, and begin_shutdown closes every handle that it set up, the signals and the timer
-- included where they could be set up, but for one: the first signal, where the second could not be.
pub start-Left : (c : Config) (a : Answers) → Left a (start c a)
unfolding start release start_signals start_idle_log
start-Left c a =
    left a.tcp_init a.ip4_addr a.tcp_bind a.listen a.sig_int_init a.sig_term_init a.timer_init
  where
    answers :
        Option Bytes → Option Bytes → Option Bytes → Option Bytes → Bool → Bool → Bool → Answers
    answers i ad b l si st t = record {
      tcp_init = i;
      ip4_addr = ad;
      tcp_bind = b;
      listen = l;
      sig_int_init = si;
      sig_term_init = st;
      timer_init = t;
    }

    left :
        (i ad b l : Option Bytes) (si st t : Bool)
        → Left (answers i ad b l si st t) (start c (answers i ad b l si st t))
    left (some e) ad b l si st t = refl
    left none (some e) b l si st t = refl
    left none none (some e) l si st t = refl
    left none none none (some e) si st t = refl
    left none none none none true true true = ((refl, refl, refl, refl), refl)
    left none none none none true true false = ((refl, refl, refl, refl), refl)
    left none none none none true false true = ((refl, refl, refl, refl), refl)
    left none none none none true false false = ((refl, refl, refl, refl), refl)
    left none none none none false st true = ((refl, refl, refl, refl), refl)
    left none none none none false st false = ((refl, refl, refl, refl), refl)
