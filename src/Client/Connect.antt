-- ===== src/Client/Connect.antt =====
-- `connect` of 01.Sources/CLIENT/CPP/src/net/Socket.cpp.
use assignment_logger_analyz.Prelude.{
  ℕ, zero, suc, ◌+◌, ◌-◌, min, leb, Bool, true, false, if◌then◌else◌, Option, none, some, [], ◌∷◌,
  ◌++◌, Bytes, codes, decimal,
}
use assignment_logger_analyz.Client.Actions.{
  Action, pure, raise, out_of_passes, modify, ◌>>=◌, ◌>>◌,
}
use assignment_logger_analyz.Client.System.{
  System, Attempt, no_socket, connected_at_once, in_progress, no_nonblocking, refused, writable,
}
use assignment_logger_analyz.Client.State.{Client, ask}
use assignment_logger_analyz.Client.Socket.{cancel_flag, load_flag, poll_slice_ms, close}

module _ (sys : System) where
  -- `fd_` becomes a socket.
  unfoldable pub opened : Action (Client sys) (Unit {0})
  opened = modify (λ c. record c { is_open = true })

  -- Why the last address failed, if any did.
  abbrev why_none : Bytes → Bytes → Bytes
  why_none host [] = codes "no usable address for host: " ++ host
  why_none host (b ∷ bs) = b ∷ bs

  -- SO_ERROR of a connection that has ended; `next` tries the next address.
  unfoldable pub after_so_error :
      (Bytes → Action (Client sys) (Unit {0})) → Option Bytes → Action (Client sys) (Unit {0})
  unfolding close
  after_so_error next none = pure tt
  after_so_error next (some e) = close sys >> next (codes "connect failed: " ++ e)

  -- After the wait for the connection's end, with whether it has come; `again` is the next pass.
  unfoldable pub after_poll :
      Action (Client sys) (Unit {0})
      → (Bytes → Action (Client sys) (Unit {0}))
      → Bool
      → Action (Client sys) (Unit {0})
  unfolding after_so_error
  after_poll again next true = ask sys sys.socket_error >>= after_so_error next
  after_poll again next false = again

  -- A pass that is not cancelled.
  unfoldable pub still_connecting :
      Action (Client sys) (Unit {0})
      → (Bytes → Action (Client sys) (Unit {0}))
      → ℕ
      → ℕ
      → Action (Client sys) (Unit {0})
  unfolding after_poll close decimal
  still_connecting again next timeout deadline = do
    now ← ask sys sys.now_ms
    if leb deadline now
        then close sys
          >> next (codes "connect timed out after " ++ (decimal timeout ++ codes " ms"))
        else ask sys (λ w. sys.poll w writable (min (deadline - now) poll_slice_ms))
          >>= after_poll again next

  unfoldable pub connect_wait :
      ℕ → (Bytes → Action (Client sys) (Unit {0})) → ℕ → ℕ → Action (Client sys) (Unit {0})
  unfolding still_connecting close load_flag
  connect_wait zero next timeout deadline = out_of_passes
  connect_wait (suc n) next timeout deadline = do
    stop ← load_flag sys cancel_flag
    if stop
        then close sys >> raise (codes "cancelled")
        else still_connecting (connect_wait n next timeout deadline) next timeout deadline

  unfoldable pub after_attempt :
      (Bytes → Action (Client sys) (Unit {0}))
      → ℕ
      → Bytes
      → Attempt
      → Action (Client sys) (Unit {0})
  unfolding opened close connect_wait
  after_attempt next timeout err no_socket = close sys >> next err
  after_attempt next timeout err (no_nonblocking e) =
      close sys >> raise (codes "cannot set non-blocking mode: " ++ e)
  after_attempt next timeout err connected_at_once = opened
  after_attempt next timeout err (refused e) = close sys >> next (codes "connect failed: " ++ e)
  after_attempt next timeout err in_progress = do
    opened
    now ← ask sys sys.now_ms
    connect_wait sys.passes next timeout (now + timeout)

  -- The addresses from the one of index `i` on, `n` of them, with the last error.
  unfoldable pub try_addresses : ℕ → ℕ → Bytes → ℕ → Bytes → Action (Client sys) (Unit {0})
  unfolding after_attempt
  try_addresses zero i host timeout err = raise (why_none host err)
  try_addresses (suc n) i host timeout err =
      ask sys (λ w. sys.attempt w i)
      >>= after_attempt (try_addresses n (i + 1) host timeout) timeout err

  unfoldable pub connect_resolved : Bytes → ℕ → Option ℕ → Action (Client sys) (Unit {0})
  unfolding try_addresses
  connect_resolved host timeout none = raise (codes "cannot resolve host: " ++ host)
  connect_resolved host timeout (some n) = try_addresses n 0 host timeout []

  unfoldable pub connect : Bytes → ℕ → ℕ → Action (Client sys) (Unit {0})
  unfolding connect_resolved close
  connect host port timeout_ms = do
    close sys
    found ← ask sys (λ w. sys.resolve w host port)
    connect_resolved host timeout_ms found
