-- ===== src/Client/State.antt =====
-- The state of TransferClient, 01.Sources/CLIENT/CPP/src/net/Transfer.h, and what reads and writes it:
-- `phase_text`, `set_phase`, `set_connected`, `log`, `fail` and the calls of the user interface.
use assignment_logger_analyz.Prelude.{
  ℕ, zero, suc, ltb, Bool, false, if◌then◌else◌, List, [], ◌∷◌, ◌++◌, Bytes, codes, length,
}
use assignment_logger_analyz.Client.Actions.{Action, done, modify, ◌>>=◌, ◌>>◌}
use assignment_logger_analyz.Client.System.{System}

pub data Phase : Type 0 where
  idle connecting handshaking connected uploading waiting_analysis : Phase
  receiving_result finished cancelled broken : Phase

unfoldable pub phase_text : Phase → Bytes
phase_text idle = codes "idle"
phase_text connecting = codes "connecting"
phase_text handshaking = codes "handshaking"
phase_text connected = codes "connected"
phase_text uploading = codes "uploading"
phase_text waiting_analysis = codes "waiting for analysis"
phase_text receiving_result = codes "receiving result"
phase_text finished = codes "done"
phase_text cancelled = codes "cancelled"
phase_text broken = codes "failed"

pub record HelloInfo : Type 0 where
  pub session_id : ℕ
  pub max_chunk : ℕ
  pub observed_peer : Bytes
  pub server_version : Bytes

abbrev pub no_hello : HelloInfo
no_hello = record { session_id = 0; max_chunk = 0; observed_peer = []; server_version = [] }

pub data Command : Type 0 where
  upload : Bytes → Command
  disconnect : Command

abbrev pub log_limit : ℕ
log_limit = 2000

-- The loop that drops the oldest lines, counted by the lines there are.
unfoldable pub trim : ℕ → List Bytes → List Bytes
trim zero lines = lines
trim (suc n) [] = []
trim (suc n) (l ∷ lines) =
    let rest = trim n lines in if ltb log_limit (length (l ∷ lines)) then rest else l ∷ lines

module _ (sys : System) where
  open sys.doubles use {Double, zero_d}

  pub record Snapshot : Type 0 where
    pub phase : Phase
    pub connected : Bool
    pub error : Bytes
    pub hello : HelloInfo
    pub hello_valid : Bool
    pub total_bytes : ℕ
    pub bytes_sent : ℕ
    pub bytes_consumed : ℕ
    pub send_mibps : Double
    pub lines_parsed : ℕ
    pub accepted_lines : ℕ
    pub rejected_lines : ℕ
    pub spd_samples : ℕ
    pub spd_average : Bytes
    pub module_names : List Bytes
    pub module_counts : List ℕ
    pub result_valid : Bool
    pub result_total_lines : ℕ
    pub result_accepted : ℕ
    pub result_rejected : ℕ
    pub result_oversize : ℕ
    pub result_spd_samples : ℕ
    pub result_spd_average : Bytes
    pub result_elapsed_ms : ℕ
    pub result_peak_rss_kb : ℕ
    pub csv_size : ℕ

  abbrev pub empty_snapshot : Snapshot
  empty_snapshot = record {
    phase = idle;
    connected = false;
    error = [];
    hello = no_hello;
    hello_valid = false;
    total_bytes = 0;
    bytes_sent = 0;
    bytes_consumed = 0;
    send_mibps = zero_d;
    lines_parsed = 0;
    accepted_lines = 0;
    rejected_lines = 0;
    spd_samples = 0;
    spd_average = [];
    module_names = [];
    module_counts = [];
    result_valid = false;
    result_total_lines = 0;
    result_accepted = 0;
    result_rejected = 0;
    result_oversize = 0;
    result_spd_samples = 0;
    result_spd_average = [];
    result_elapsed_ms = 0;
    result_peak_rss_kb = 0;
    csv_size = 0;
  }

  -- `shot` is `state_`, and `is_open` says whether `fd_` of the session's socket is a socket.
  pub record Client : Type 0 where
    pub shot : Snapshot
    pub csv : Bytes
    pub log_lines : List Bytes
    pub cmds : List Command
    pub busy : Bool
    pub cancel : Bool
    pub is_open : Bool
    pub world : sys.World

  -- The member initialisers.
  abbrev pub new_client : sys.World → Client
  new_client world = record {
    shot = empty_snapshot;
    csv = [];
    log_lines = [];
    cmds = [];
    busy = false;
    cancel = false;
    is_open = false;
    world = world;
  }

  -- An answer of the system.
  unfoldable pub ask : {A : Type 0} → (sys.World → A × sys.World) → Action Client A
  ask f c = let (a, w) = f c.world in (done a, record c { world = w })

  abbrev pub set_shot : (Snapshot → Snapshot) → Action Client (Unit {0})
  set_shot f = modify (λ c. record c { shot = f c.shot })

  unfoldable pub set_phase : Phase → Action Client (Unit {0})
  set_phase p = set_shot (λ s. record s { phase = p })

  unfoldable pub set_connected : Bool → Action Client (Unit {0})
  set_connected on = set_shot (λ s. record s { connected = on })

  abbrev pub push_line : Bytes → Client → Client
  push_line line c = record c {
    log_lines = trim (length (c.log_lines ++ (line ∷ []))) (c.log_lines ++ (line ∷ []));
  }

  unfoldable pub log : Bytes → Action Client (Unit {0})
  unfolding trim
  log line = do prefix ← ask sys.local_time; modify (push_line (prefix ++ line))

  unfoldable pub fail : Bytes → Action Client (Unit {0})
  unfolding log
  fail why = do
    set_shot (λ s. record s { phase = broken; connected = false; error = why })
    log (codes "[ERROR] " ++ why)
