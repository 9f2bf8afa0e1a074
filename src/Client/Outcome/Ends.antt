-- ===== src/Client/Outcome/Ends.antt =====
-- The answers of `do_upload` and the end of `run_session`.
pub mod Calm
use assignment_logger_analyz.Prelude.{
  ◌≡◌, refl, ◌∙◌, ◌⊎◌, inl, inr, arith, ℕ, zero, suc, Bool, true, false, Option, none, some, Bytes,
  codes,
}
use assignment_logger_analyz.Client.Actions.{
  Action, Result, done, failed, stuck, ◌>>=◌, ◌>>◌, pure, modify, on_failure, rescue,
}
use assignment_logger_analyz.Client.Logic.{OnDone, Gives, bind-Gives}
use assignment_logger_analyz.Client.Logic.Results.{
  Keeps-Gives, on_failure-Gives, pure-Gives, then-Gives,
}
use assignment_logger_analyz.Client.System.{
  System, Call, press_cancel, press_disconnect, press_upload, take_log,
}
use assignment_logger_analyz.Client.State.{
  Client, Phase, idle, broken, Snapshot, log, fail, ask, set_connected,
}
use assignment_logger_analyz.Client.Controls.{
  apply_call, request_cancel, disconnect, start_upload, drain_log,
}
use assignment_logger_analyz.Client.Socket.{close}
use assignment_logger_analyz.Client.Progress.{apply_analysis, restart, begun}
use assignment_logger_analyz.Client.Analysis.{upload_file, do_upload}
use assignment_logger_analyz.Client.Run.{
  end_phase, end_session, not_connected, establish, after_establish, run_session,
}
use assignment_logger_analyz.Client.Stable.{Stable}
use assignment_logger_analyz.Client.Steady.{Steady}
use assignment_logger_analyz.Client.Steady.Whole.{upload_file-Keeps}
use assignment_logger_analyz.Client.Bounded.{apply_upload_ack-Untouched}
use assignment_logger_analyz.Client.Outcome.{Settled, Settles, upload_file-Gives}

module _ (sys : System) where
  abbrev Linked : Client sys → Type 0
  Linked c = c.shot.connected ≡ true

  Linked-Stable : Stable sys Linked
  unfolding apply_call request_cancel disconnect start_upload drain_log
  Linked-Stable = record { world = λ c w i. i; line = λ c l i. i; call = λ c k i. called c k i }
    where
      called : (c : Client sys) (k : Call) → Linked c → Linked (apply_call sys c k)
      called c press_cancel i = i
      called c press_disconnect i = i
      called c (press_upload x) i = i
      called c take_log i = i

  Linked-Steady : Steady sys Linked
  unfolding begun apply_analysis restart
  Linked-Steady = record {
    stable = Linked-Stable;
    phased = λ c p i. i;
    acked = λ c x i. (apply_upload_ack-Untouched sys x c.shot).connected ∙ i;
    begun_at = λ c n a i. i;
    analysed = λ c a i. i;
    noted = λ c n x i. i;
    kept = λ c x l i. i;
    restarted = λ c i. i;
  }

  -- An upload that goes on leaves the connection, in a phase in which commands are taken, and any
  -- other leaves the phase of a failure and no connection.
  abbrev pub Verdict : Bool → Client sys → Type 0
  Verdict true c = Settled c.shot.phase × (c.shot.connected ≡ true)
  Verdict false c = (c.shot.phase ≡ broken) × (c.shot.connected ≡ false)

  abbrev pub Answered : Result Bool × Client sys → Type 0
  Answered (done alive, c) = Verdict alive c
  Answered (failed e, c) = ⊥
  Answered (stuck, c) = Unit {0}

  verdict : (b : Bool) (c : Client sys) → Settles sys b c → Linked c → Verdict b c
  verdict true c (e, s) l = (s, l)
  verdict false c (e, s) l = absurd (ground arith)

  rescued :
      (r : Result Bool × Client sys)
      → OnDone (Settles sys) r
      → OnDone (λ _ c. Linked c) r
      → Answered (rescue (λ why. fail sys why >> pure false) r)
  unfolding fail log ask ◌>>=◌ modify pure
  rescued (done b, c) s l = verdict b c s l
  rescued (failed e, c) s l = (refl, refl)
  rescued (stuck, c) s l = tt

  -- An upload on a connection answers that the session goes on only in the phase connected, done or
  -- cancelled and with the connection shown as open, and answers that it does not only in the phase
  -- failed and with the connection shown as closed; it never ends without an answer, but for a loop
  -- that is followed only for some of its passes.
  pub do_upload-Answered :
      (file_path : Bytes) (c : Client sys)
      → c.shot.connected ≡ true
      → Answered (do_upload sys file_path c)
  unfolding do_upload on_failure
  do_upload-Answered file_path c l =
      rescued (upload_file sys file_path c) ((upload_file-Gives sys file_path).give c tt)
        ((Keeps-Gives Linked _ (upload_file-Keeps sys Linked Linked-Steady file_path)).give c l)

  -- The phases of a session that is over: idle, or failed.
  abbrev pub Closed : Phase → Type 0
  Closed p = (p ≡ idle) ⊎ (p ≡ broken)

  -- Nothing of the session is left.
  pub record Over (c : Client sys) : Type 0 where
    pub phase : Closed c.shot.phase
    pub unlinked : c.shot.connected ≡ false
    pub idle_worker : c.busy ≡ false
    pub no_socket : c.is_open ≡ false

  end_phase-Closed : (p : Phase) → Closed (end_phase p)
  unfolding end_phase
  end_phase-Closed broken = inr refl
  end_phase-Closed idle = inl refl
  end_phase-Closed Phase.connecting = inl refl
  end_phase-Closed Phase.handshaking = inl refl
  end_phase-Closed Phase.connected = inl refl
  end_phase-Closed Phase.uploading = inl refl
  end_phase-Closed Phase.waiting_analysis = inl refl
  end_phase-Closed Phase.receiving_result = inl refl
  end_phase-Closed Phase.finished = inl refl
  end_phase-Closed Phase.cancelled = inl refl

  end_session-Over : Gives (λ _. Unit {0}) (λ _ c. Over c) (end_session sys)
  unfolding end_session close set_connected ◌>>=◌ modify
  end_session-Over = record {
    give = λ c _. record {
      phase = end_phase-Closed c.shot.phase;
      unlinked = refl;
      idle_worker = refl;
      no_socket = refl;
    };
  }

  -- Where no connection has come about.
  abbrev Refused : Bool → Client sys → Type 0
  Refused true c = Unit {0}
  Refused false c = Over c

  not_connected-Over : (e : Bytes) → Gives (λ _. Unit {0}) Refused (not_connected sys e)
  unfolding not_connected close fail log ask ◌>>=◌ modify pure end_phase
  not_connected-Over e = record {
    give =
        λ c _. record { phase = inr refl; unlinked = refl; idle_worker = refl; no_socket = refl };
  }

  establish-Refused :
      (host : Bytes) (port : ℕ) (name : Bytes)
      → Gives (λ _. Unit {0}) Refused (establish sys host port name)
  unfolding establish
  establish-Refused host port name = then-Gives _ _ (λ _. then-Gives _ _ (λ _.
      on_failure-Gives _ _ (then-Gives _ _ (λ _. pure-Gives true (λ c _. tt))) not_connected-Over))

  after_establish-Over : (b : Bool) → Gives (Refused b) (λ _ c. Over c) (after_establish sys b)
  unfolding after_establish
  after_establish-Over false = pure-Gives tt (λ c o. o)
  after_establish-Over true =
      then-Gives _ _ (λ _. then-Gives _ _ (λ _. then-Gives _ _ (λ _. end_session-Over)))

  pub run_session-Gives :
      (host : Bytes) (port : ℕ) (client_name : Bytes)
      → Gives (λ _. Unit {0}) (λ _ c. Over c) (run_session sys host port client_name)
  unfolding run_session
  run_session-Gives host port client_name =
      bind-Gives Refused _ _ (establish-Refused host port client_name) after_establish-Over
