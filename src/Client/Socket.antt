-- ===== src/Client/Socket.antt =====
-- `send_all`, `recv_exactly`, `readable_now` and `close` of
-- 01.Sources/CLIENT/CPP/src/net/Socket.cpp.
use assignment_logger_analyz.Prelude.{
  ℕ, zero, suc, ◌+◌, ◌-◌, ltb, leb, Bool, true, false, if◌then◌else◌, [], ◌∷◌, ◌++◌, Bytes, codes,
  decimal, length, drop,
}
use assignment_logger_analyz.Client.Actions.{
  Action, pure, raise, raise_if, out_of_passes, modify, gets, ◌>>=◌, ◌>>◌,
}
use assignment_logger_analyz.Client.System.{
  System, Received, arrived, nothing_yet, recv_error, Sent, taken, no_room, send_error, readable,
  writable,
}
use assignment_logger_analyz.Client.State.{Client, ask}
use assignment_logger_analyz.Client.Controls.{cancel_requested}

abbrev pub poll_slice_ms : ℕ
poll_slice_ms = 250

-- Which flag a call looks at: `cancel_`, or `g_never_cancel`, which is never set.
pub data Flag : Type 0 where
  cancel_flag never_cancel : Flag

module _ (sys : System) where
  unfoldable pub load_flag : Flag → Action (Client sys) Bool
  load_flag cancel_flag = cancel_requested sys
  load_flag never_cancel = pure false

  -- The branches on what ::send returned; `next` is the next pass, with the bytes sent and the time
  -- of the last progress.
  unfoldable pub after_send :
      (ℕ → ℕ → Action (Client sys) (Unit {0})) → ℕ → ℕ → ℕ → Sent → Action (Client sys) (Unit {0})
  unfolding decimal
  after_send next stall sent last (taken n) = do now ← ask sys sys.now_ms; next (sent + suc n) now
  after_send next stall sent last no_room = do
    now ← ask sys sys.now_ms
    raise_if (leb (last + stall) now) (
        codes "network write stalled for "
        ++ (decimal stall ++ codes " ms - the connection appears to be down"))
    waited ← ask sys (λ w. sys.poll w writable poll_slice_ms)
    next sent last
  after_send next stall sent last (send_error e) = raise (codes "send failed: " ++ e)

  -- The body of the loop, with the rest of the loop as `next`.
  unfoldable pub send_pass :
      (ℕ → ℕ → Action (Client sys) (Unit {0}))
      → Bytes
      → ℕ
      → Flag
      → ℕ
      → ℕ
      → Action (Client sys) (Unit {0})
  unfolding after_send load_flag
  send_pass next data_bytes stall flag sent last = do
    stop ← load_flag flag
    raise_if stop (codes "cancelled")
    answer ← ask sys (λ w. sys.send w (drop sent data_bytes))
    after_send next stall sent last answer

  unfoldable pub send_loop : ℕ → Bytes → ℕ → Flag → ℕ → ℕ → Action (Client sys) (Unit {0})
  unfolding send_pass
  send_loop zero data_bytes stall flag sent last = out_of_passes
  send_loop (suc n) data_bytes stall flag sent last =
      if ltb sent (length data_bytes)
      then send_pass (send_loop n data_bytes stall flag) data_bytes stall flag sent last
      else pure tt

  unfoldable pub send_all : Bytes → ℕ → Flag → Action (Client sys) (Unit {0})
  unfolding send_loop
  send_all data_bytes stall_timeout_ms flag = do
    now ← ask sys sys.now_ms
    send_loop sys.passes data_bytes stall_timeout_ms flag 0 now

  unfoldable pub after_recv :
      (Bytes → ℕ → Action (Client sys) Bytes)
      → ℕ
      → ℕ
      → Bytes
      → ℕ
      → Received
      → Action (Client sys) Bytes
  unfolding decimal
  after_recv next len idle got last (arrived []) = raise (
      codes "connection closed by server after "
      ++ (decimal (length got) ++ (codes " of " ++ (decimal len ++ codes " bytes"))))
  after_recv next len idle got last (arrived (b ∷ bs)) = do
    now ← ask sys sys.now_ms
    next (got ++ (b ∷ bs)) now
  after_recv next len idle got last (recv_error e) = raise (codes "recv failed: " ++ e)
  after_recv next len idle got last nothing_yet = do
    now ← ask sys sys.now_ms
    raise_if (leb (last + idle) now)
        (codes "no data from server for " ++ (decimal idle ++ codes " ms"))
    waited ← ask sys (λ w. sys.poll w readable poll_slice_ms)
    next got last

  -- The body of the loop; the bytes that the source counts with `got` are `got` here.
  unfoldable pub recv_pass :
      (Bytes → ℕ → Action (Client sys) Bytes) → ℕ → ℕ → Flag → Bytes → ℕ → Action (Client sys) Bytes
  unfolding after_recv load_flag
  recv_pass next len idle flag got last = do
    stop ← load_flag flag
    raise_if stop (codes "cancelled")
    answer ← ask sys (λ w. sys.recv w (len - length got))
    after_recv next len idle got last answer

  unfoldable pub recv_loop : ℕ → ℕ → ℕ → Flag → Bytes → ℕ → Action (Client sys) Bytes
  unfolding recv_pass
  recv_loop zero len idle flag got last = out_of_passes
  recv_loop (suc n) len idle flag got last =
      if ltb (length got) len
      then recv_pass (recv_loop n len idle flag) len idle flag got last
      else pure got

  unfoldable pub recv_exactly : ℕ → ℕ → Flag → Action (Client sys) Bytes
  unfolding recv_loop
  recv_exactly len idle_timeout_ms flag = do
    now ← ask sys sys.now_ms
    recv_loop sys.passes len idle_timeout_ms flag [] now

  unfoldable pub poll_now : Bool → Action (Client sys) Bool
  poll_now false = pure false
  poll_now true = ask sys (λ w. sys.poll w readable 0)

  unfoldable pub readable_now : Action (Client sys) Bool
  unfolding poll_now
  readable_now = do fd_is_open ← gets (λ c. c.is_open); poll_now fd_is_open

  unfoldable pub close : Action (Client sys) (Unit {0})
  close = modify (λ c. record c { is_open = false })
