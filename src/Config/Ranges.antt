-- ===== src/Config/Ranges.antt =====
-- Whatever the command line, the numbers of an accepted configuration are within their ranges.
use assignment_logger_analyz.Prelude.{
  Bool, ℕ, ◌≤◌, ltb, ◌==◌, ◌%◌, ◌^◌, if-cases, not, ◌||◌, Option, none, some, List, [], ◌∷◌, ◌++◌,
  Bytes, codes, length, ◌⊎◌, inl, inr, arith,
}
use assignment_logger_analyz.Config.{
  Long, from_zero, below_zero, Strtol, Config, Action, end_with, go_on, with_value, refuse,
  in_range, to_int, ranged, action, parse_args, options, pick, follow, follow_last, set_then,
}

-- The ranges that the options are documented with.
pub record InRange (c : Config) : Type 0 where
  pub port : (1 ≤ c.port) × (c.port ≤ 65535)
  pub max_sessions : (1 ≤ c.max_sessions) × (c.max_sessions ≤ 1024)
  pub idle : (1000 ≤ c.idle_timeout_ms) × (c.idle_timeout_ms ≤ 3600000)
  pub upload : (1000 ≤ c.upload_stall_timeout_ms) × (c.upload_stall_timeout_ms ≤ 600000)

-- An accepted configuration is within its ranges, where there is one.
abbrev pub Accepts : Config ⊎ Bytes → Type 0
Accepts (inl c) = InRange c
Accepts (inr e) = Unit {0}

abbrev Safe : Action → Type 0
Safe (end_with c) = InRange c
Safe (go_on c) = InRange c
Safe (with_value set) = (v : Bytes) → Accepts (set v)
Safe (refuse e) = Unit {0}

abbrev AllSafe : List (Bool × Action) → Type 0
AllSafe [] = Unit {0}
AllSafe ((test, act) ∷ tests) = Safe act × AllSafe tests

pick-Safe :
    (tests : List (Bool × Action)) (otherwise : Action)
    → AllSafe tests
    → Safe otherwise
    → Safe (pick tests otherwise)
unfolding pick
pick-Safe [] otherwise s o = o
pick-Safe ((test, act) ∷ tests) otherwise s o =
    if-cases Safe test (λ _. s.0) (λ _. pick-Safe tests otherwise s.1 o)

abbrev Between : ℕ → ℕ → Option ℕ → Type 0
Between lo hi none = Unit {0}
Between lo hi (some n) = (lo ≤ n) × (n ≤ hi)

follow_last-Accepts : (a : Bytes) (act : Action) → Safe act → Accepts (follow_last a act)
unfolding follow_last
follow_last-Accepts a (end_with c) s = s
follow_last-Accepts a (go_on c) s = s
follow_last-Accepts a (with_value set) s = tt
follow_last-Accepts a (refuse e) s = tt

module _ (v : Bytes) (next after : Config → Config ⊎ Bytes)
    (next_ok : (c : Config) → InRange c → Accepts (next c))
    (after_ok : (c : Config) → InRange c → Accepts (after c)) where
  set_then-Accepts : (r : Config ⊎ Bytes) → Accepts r → Accepts (set_then after r)
  set_then-Accepts (inl c) k = after_ok c k
  set_then-Accepts (inr e) k = tt

  follow-Accepts : (act : Action) → Safe act → Accepts (follow v next after act)
  unfolding follow
  follow-Accepts (end_with c) s = s
  follow-Accepts (go_on c) s = next_ok c s
  follow-Accepts (with_value set) s = set_then-Accepts (set v) (s v)
  follow-Accepts (refuse e) s = tt

in_range-Between : (lo hi : ℕ) (v : Long) → Between lo hi (in_range lo hi v)
unfolding in_range
in_range-Between lo hi (below_zero n) = tt
in_range-Between lo hi (from_zero v) =
    if-cases (Between lo hi) (ltb v lo || ltb hi v) (λ _. tt) (λ e. (ground arith, ground arith))

module _ (strtol : Bytes → Strtol) where
  to_int-Between : (s : Bytes) (lo hi : ℕ) → Between lo hi (to_int strtol s lo hi)
  unfolding to_int
  to_int-Between s lo hi =
      if-cases (Between lo hi) (length s == 0) (λ _. tt)
        (λ _.
          if-cases (Between lo hi) (not (strtol s).no_error || not (strtol s).whole) (λ _. tt)
            (λ _. in_range-Between lo hi (strtol s).value))

  ranged-Accepts :
      (lo hi : ℕ) (text : Bytes) (set : ℕ → Config)
      → ((n : ℕ) → lo ≤ n → n ≤ hi → InRange (set n))
      → (v : Bytes) → Accepts (ranged strtol lo hi text set v)
  unfolding ranged
  ranged-Accepts lo hi text set ok v = read (to_int strtol v lo hi) (to_int-Between v lo hi)
    where
      read :
          (o : Option ℕ)
          → Between lo hi o
          → Accepts (elim o [ none ↦ inr (text ++ v) | some n ↦ inl (set n) ])
      read none b = tt
      read (some n) b = ok n b.0 b.1

  options-Safe : (a : Bytes) (c : Config) → InRange c → AllSafe (options strtol a c)
  unfolding options
  options-Safe a c k = (
    record { port = k.port; max_sessions = k.max_sessions; idle = k.idle; upload = k.upload },
    (
      record { port = k.port; max_sessions = k.max_sessions; idle = k.idle; upload = k.upload },
      (
        record { port = k.port; max_sessions = k.max_sessions; idle = k.idle; upload = k.upload },
        (
          record { port = k.port; max_sessions = k.max_sessions; idle = k.idle; upload = k.upload },
          (
            record {
              port = k.port;
              max_sessions = k.max_sessions;
              idle = k.idle;
              upload = k.upload;
            },
            (
              (λ v. record {
                port = k.port;
                max_sessions = k.max_sessions;
                idle = k.idle;
                upload = k.upload;
              }),
              (
                ranged-Accepts _ _ (codes "invalid port: ") (λ n. record c { port = n % 2 ^ 16 })
                    (λ n l u. record {
                      port = (omega arith, omega arith);
                      max_sessions = k.max_sessions;
                      idle = k.idle;
                      upload = k.upload;
                    }),
                (
                  ranged-Accepts _ _ (codes "invalid max-sessions: ")
                      (λ n. record c { max_sessions = n })
                      (λ n l u. record {
                        port = k.port;
                        max_sessions = (l, u);
                        idle = k.idle;
                        upload = k.upload;
                      }),
                  (
                    ranged-Accepts _ _ (codes "invalid idle-timeout (ms): ")
                        (λ n. record c { idle_timeout_ms = n })
                        (λ n l u. record {
                          port = k.port;
                          max_sessions = k.max_sessions;
                          idle = (l, u);
                          upload = k.upload;
                        }),
                    (
                      ranged-Accepts _ _ (codes "invalid upload-timeout (ms): ")
                          (λ n. record c { upload_stall_timeout_ms = n })
                          (λ n l u. record {
                            port = k.port;
                            max_sessions = k.max_sessions;
                            idle = k.idle;
                            upload = (l, u);
                          }),
                      (
                        (λ v. record {
                          port = k.port;
                          max_sessions = k.max_sessions;
                          idle = k.idle;
                          upload = k.upload;
                        }),
                        (
                          (λ v. record {
                            port = k.port;
                            max_sessions = k.max_sessions;
                            idle = k.idle;
                            upload = k.upload;
                          }),
                          tt,
                        ),
                      ),
                    ),
                  ),
                ),
              ),
            ),
          ),
        ),
      ),
    ),
  )

  action-Safe : (a : Bytes) (c : Config) → InRange c → Safe (action strtol a c)
  unfolding action
  action-Safe a c k =
      pick-Safe (options strtol a c) (refuse (codes "unknown option: " ++ a)) (options-Safe a c k)
        tt

  -- A command line that is accepted leaves the numbers of the configuration within the ranges of their
  -- options, where they were before.
  pub parse_args-InRange :
      (args : List Bytes) (c : Config) → InRange c → Accepts (parse_args strtol args c)
  unfolding parse_args
  parse_args-InRange [] c k = k
  parse_args-InRange (a ∷ []) c k = follow_last-Accepts a (action strtol a c) (action-Safe a c k)
  parse_args-InRange (a ∷ v ∷ rest) c k =
      follow-Accepts v (λ c'. parse_args strtol (v ∷ rest) c') (λ c'. parse_args strtol rest c')
        (λ c' k'. parse_args-InRange (v ∷ rest) c' k') (λ c' k'. parse_args-InRange rest c' k')
        (action strtol a c) (action-Safe a c k)
