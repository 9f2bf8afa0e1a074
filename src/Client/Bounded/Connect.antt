-- ===== src/Client/Bounded/Connect.antt =====
-- The bounds hold while the worker connects.
use assignment_logger_analyz.Prelude.{
  ℕ, zero, suc, Bool, true, false, Option, none, some, [], Bytes, codes,
}
use assignment_logger_analyz.Protocol.{hello_ack}
use assignment_logger_analyz.Client.Actions.{Action}
use assignment_logger_analyz.Client.Logic.{
  Keeps, bind-Keeps, pure-Keeps, raise-Keeps, out_of_passes-Keeps, modify-Keeps, if-Keeps,
}
use assignment_logger_analyz.Client.System.{
  System, Attempt, no_socket, connected_at_once, in_progress, no_nonblocking, refused,
}
use assignment_logger_analyz.Client.State.{Client, fail}
use assignment_logger_analyz.Client.Socket.{close, cancel_flag}
use assignment_logger_analyz.Client.Connect.{
  opened, after_so_error, after_poll, still_connecting, connect_wait, after_attempt, try_addresses,
  connect_resolved, connect,
}
use assignment_logger_analyz.Client.Handshake.{handshake}
use assignment_logger_analyz.Client.Stable.{Stable, ask-Keeps, log-Keeps, load_flag-Keeps}
use assignment_logger_analyz.Client.Stable.Frames.{
  send_frame-Keeps, read_frame-Keeps, expect-Keeps, reading-Keeps,
}
use assignment_logger_analyz.Client.Steady.{set_phase-Keeps}
use assignment_logger_analyz.Client.Bounded.{Bounded, Bounded-Stable, Bounded-Steady}

module _ (sys : System) where
  abbrev I : Client sys → Type 0
  I = Bounded sys

  st : Stable sys I
  st = Bounded-Stable sys

  pub fail-Keeps : (why : Bytes) → Keeps I (fail sys why)
  unfolding fail
  fail-Keeps why =
      bind-Keeps I _ _
        (modify-Keeps I _
          (λ c b. record { log_short = b.log_short; csv_short = b.csv_short; sized = b.sized }))
        (λ _. log-Keeps sys I st _)

  pub close-Keeps : Keeps I (close sys)
  unfolding close
  close-Keeps =
      modify-Keeps I _
        (λ c b. record { log_short = b.log_short; csv_short = b.csv_short; sized = b.sized })

  opened-Keeps : Keeps I (opened sys)
  unfolding opened
  opened-Keeps =
      modify-Keeps I _
        (λ c b. record { log_short = b.log_short; csv_short = b.csv_short; sized = b.sized })

  module _ (next : Bytes → Action (Client sys) (Unit {0}))
      (k : (e : Bytes) → Keeps I (next e)) where
    after_so_error-Keeps : (e : Option Bytes) → Keeps I (after_so_error sys next e)
    unfolding after_so_error
    after_so_error-Keeps none = pure-Keeps I tt
    after_so_error-Keeps (some e) = bind-Keeps I _ _ close-Keeps (λ _. k _)

    after_poll-Keeps :
        (again : Action (Client sys) (Unit {0})) (b : Bool)
        → Keeps I again
        → Keeps I (after_poll sys again next b)
    unfolding after_poll
    after_poll-Keeps again true l = bind-Keeps I _ _ (ask-Keeps sys I st _) after_so_error-Keeps
    after_poll-Keeps again false l = l

    connect_wait-Keeps :
        (n timeout deadline : ℕ) → Keeps I (connect_wait sys n next timeout deadline)
    unfolding connect_wait still_connecting
    connect_wait-Keeps zero timeout deadline = out_of_passes-Keeps I
    connect_wait-Keeps (suc n) timeout deadline =
        bind-Keeps I _ _ (load_flag-Keeps sys I st cancel_flag) (λ stop.
          if-Keeps I stop _ _ (bind-Keeps I _ _ close-Keeps (λ _. raise-Keeps I _)) (
            bind-Keeps I _ _ (ask-Keeps sys I st sys.now_ms) (λ now.
              if-Keeps I _ _ _ (bind-Keeps I _ _ close-Keeps (λ _. k _)) (
                bind-Keeps I _ _ (ask-Keeps sys I st _) (λ b.
                  after_poll-Keeps (connect_wait sys n next timeout deadline) b
                    (connect_wait-Keeps n timeout deadline))))))

    after_attempt-Keeps :
        (timeout : ℕ) (err : Bytes) (a : Attempt) → Keeps I (after_attempt sys next timeout err a)
    unfolding after_attempt
    after_attempt-Keeps timeout err no_socket = bind-Keeps I _ _ close-Keeps (λ _. k err)
    after_attempt-Keeps timeout err (no_nonblocking e) =
        bind-Keeps I _ _ close-Keeps (λ _. raise-Keeps I _)
    after_attempt-Keeps timeout err connected_at_once = opened-Keeps
    after_attempt-Keeps timeout err (refused e) = bind-Keeps I _ _ close-Keeps (λ _. k _)
    after_attempt-Keeps timeout err in_progress = bind-Keeps I _ _ opened-Keeps (λ _.
        bind-Keeps I _ _ (ask-Keeps sys I st sys.now_ms)
          (λ now. connect_wait-Keeps sys.passes timeout _))

  try_addresses-Keeps :
      (n i : ℕ) (host : Bytes) (timeout : ℕ) (err : Bytes)
      → Keeps I (try_addresses sys n i host timeout err)
  unfolding try_addresses
  try_addresses-Keeps zero i host timeout err = raise-Keeps I _
  try_addresses-Keeps (suc n) i host timeout err =
      bind-Keeps I _ _ (ask-Keeps sys I st _)
        (after_attempt-Keeps _ (try_addresses-Keeps n _ host timeout) timeout err)

  connect_resolved-Keeps :
      (host : Bytes) (timeout : ℕ) (r : Option ℕ) → Keeps I (connect_resolved sys host timeout r)
  unfolding connect_resolved
  connect_resolved-Keeps host timeout none = raise-Keeps I _
  connect_resolved-Keeps host timeout (some n) = try_addresses-Keeps n 0 host timeout []

  pub connect-Keeps : (host : Bytes) (port timeout : ℕ) → Keeps I (connect sys host port timeout)
  unfolding connect
  connect-Keeps host port timeout =
      bind-Keeps I _ _ close-Keeps
        (λ _. bind-Keeps I _ _ (ask-Keeps sys I st _) (connect_resolved-Keeps host timeout))

  pub handshake-Keeps : (name : Bytes) → Keeps I (handshake sys name)
  unfolding handshake
  handshake-Keeps name = bind-Keeps I _ _ (set_phase-Keeps sys I (Bounded-Steady sys) _) (λ _.
      bind-Keeps I _ _ (send_frame-Keeps sys I st _ _) (λ _.
        bind-Keeps I _ _ (log-Keeps sys I st _) (λ _.
          bind-Keeps I _ _ (read_frame-Keeps sys I st 120000) (λ f.
            bind-Keeps I _ _ (expect-Keeps sys I st hello_ack (codes "HELLO_ACK") f) (λ _.
              bind-Keeps I _ _ (reading-Keeps sys I st f.payload _) (λ hello.
                bind-Keeps I _ _
                  (modify-Keeps I _ (λ c b. record {
                    log_short = b.log_short;
                    csv_short = b.csv_short;
                    sized = b.sized;
                  }))
                  (λ _. log-Keeps sys I st _)))))))
