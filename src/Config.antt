-- ===== src/Config.antt =====
-- Config and parse_args, 01.Sources/SERVER/src/app/Config.h and Config.cpp. A refused command line
-- returns the error text; the program then ends, so what was set before it is left out.
pub mod Ranges
use Prim.Native.String.{String}
use assignment_logger_analyz.Prelude.{
  ℕ, ◌+◌, ◌*◌, ◌%◌, ◌^◌, ltb, ◌==◌, if◌then◌else◌, Bool, true, false, not, ◌||◌, Option, none, some,
  List, [], ◌∷◌, ◌++◌, Bytes, codes, length, equal, ◌⊎◌, inl, inr,
}

-- The result of `strtol`: a value from 0 on, or one below 0.
pub data Long : Type 0 where
  from_zero below_zero : ℕ → Long

-- `strtol` on a text in base 10: its value, whether `errno` is 0, and whether all of it was read.
pub record Strtol : Type 0 where
  pub value : Long
  pub no_error : Bool
  pub whole : Bool

pub record Config : Type 0 where
  pub bind_addr : Bytes
  pub port : ℕ
  pub max_sessions : ℕ
  pub backlog : ℕ
  pub idle_timeout_ms : ℕ
  pub upload_stall_timeout_ms : ℕ
  pub read_buffer_bytes : ℕ
  pub log_path : Bytes
  pub verbose : Bool
  pub daemonize : Bool
  pub pid_path : Bytes
  pub show_help : Bool
  pub show_version : Bool

abbrev pub default_config : Config
default_config = record {
  bind_addr = codes "0.0.0.0";
  port = 8088;
  max_sessions = 4;
  backlog = 16;
  idle_timeout_ms = 300000;
  upload_stall_timeout_ms = 15000;
  read_buffer_bytes = 256 * 1024;
  log_path = [];
  verbose = false;
  daemonize = false;
  pid_path = codes "/tmp/Zhenyu_LoggerAnalyzer.pid";
  show_help = false;
  show_version = false;
}

-- What an option does: end the command line, go on with the next option, take the option's value (the
-- result is an error text where the value is refused), or refuse the option.
pub data Action : Type 0 where
  end_with : Config → Action
  go_on : Config → Action
  with_value : (Bytes → Config ⊎ Bytes) → Action
  refuse : Bytes → Action

-- The range test of `to_int`, for bounds from 0 on.
unfoldable pub in_range : ℕ → ℕ → Long → Option ℕ
in_range min_v max_v (below_zero n) = none
in_range min_v max_v (from_zero v) = if ltb v min_v || ltb max_v v then none else some v

-- The chain of tests: the first that holds decides.
unfoldable pub pick : List (Bool × Action) → Action → Action
pick [] otherwise = otherwise
pick ((test, act) ∷ tests) otherwise =
    let later = pick tests otherwise in if test then act else later

-- An action with nothing behind it: take_value fails.
unfoldable pub follow_last : Bytes → Action → Config ⊎ Bytes
follow_last a (end_with c) = inl c
follow_last a (go_on c) = inl c
follow_last a (with_value set) = inr (a ++ codes " requires a value")
follow_last a (refuse e) = inr e

abbrev pub set_then : (Config → Config ⊎ Bytes) → Config ⊎ Bytes → Config ⊎ Bytes
set_then after (inl c) = after c
set_then after (inr e) = inr e

-- An action with the argument `v` behind it, and the loop from `v` on and from behind it.
unfoldable pub follow :
    Bytes → (Config → Config ⊎ Bytes) → (Config → Config ⊎ Bytes) → Action → Config ⊎ Bytes
follow v next after (end_with c) = inl c
follow v next after (go_on c) = next c
follow v next after (with_value set) = set_then after (set v)
follow v next after (refuse e) = inr e

module _ (strtol : Bytes → Strtol) where
  unfoldable pub to_int : Bytes → ℕ → ℕ → Option ℕ
  unfolding in_range
  to_int s min_v max_v =
      if length s == 0
      then none
      else if not (strtol s).no_error || not (strtol s).whole
      then none
      else in_range min_v max_v (strtol s).value

  -- A value that must be an integer in a range, or an error text that ends in it.
  unfoldable pub ranged : ℕ → ℕ → Bytes → (ℕ → Config) → Bytes → Config ⊎ Bytes
  unfolding to_int
  ranged min_v max_v text set v = elim (to_int v min_v max_v) [
    | none ↦ inr (text ++ v)
    | some n ↦ inl (set n)
  ]

  abbrev is : Bytes → String → Bool
  is a name = equal a (codes name)

  -- The tests in the source's order, each with what it leads to.
  unfoldable pub options : Bytes → Config → List (Bool × Action)
  unfolding equal ranged
  options a cfg =
      (is a "-h" || is a "--help", end_with (record cfg { show_help = true }))
      ∷ (is a "--version", end_with (record cfg { show_version = true }))
      ∷ (is a "--foreground", go_on (record cfg { daemonize = false }))
      ∷ (is a "--daemon", go_on (record cfg { daemonize = true }))
      ∷ (is a "-v" || is a "--verbose", go_on (record cfg { verbose = true }))
      ∷ (is a "--bind", with_value (λ v. inl (record cfg { bind_addr = v })))
      ∷ (
        is a "--port" || is a "-p",
        with_value
            (ranged 1 65535 (codes "invalid port: ") (λ n. record cfg { port = n % 2 ^ 16 })),
      )
      ∷ (
        is a "--max-sessions",
        with_value
            (ranged 1 1024 (codes "invalid max-sessions: ") (λ n. record cfg { max_sessions = n })),
      )
      ∷ (
        is a "--idle-timeout",
        with_value (
            ranged 1000 3600000 (codes "invalid idle-timeout (ms): ")
              (λ n. record cfg { idle_timeout_ms = n })),
      )
      ∷ (
        is a "--upload-timeout",
        with_value (
            ranged 1000 600000 (codes "invalid upload-timeout (ms): ")
              (λ n. record cfg { upload_stall_timeout_ms = n })),
      )
      ∷ (is a "--log", with_value (λ v. inl (record cfg { log_path = v })))
      ∷ (is a "--pidfile", with_value (λ v. inl (record cfg { pid_path = v })))
      ∷ []

  unfoldable pub action : Bytes → Config → Action
  unfolding options pick
  action a cfg = pick (options a cfg) (refuse (codes "unknown option: " ++ a))

  -- The arguments behind the program's name.
  unfoldable pub parse_args : List Bytes → Config → Config ⊎ Bytes
  unfolding action follow_last follow
  parse_args [] cfg = inl cfg
  parse_args (a ∷ []) cfg = follow_last a (action a cfg)
  parse_args (a ∷ v ∷ rest) cfg =
      follow v (λ c. parse_args (v ∷ rest) c) (λ c. parse_args rest c) (action a cfg)
