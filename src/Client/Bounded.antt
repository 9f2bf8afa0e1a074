-- ===== src/Client/Bounded.antt =====
-- What holds of the client's state whatever the server sends and the user does: the log and the result
-- are bounded, and the size that is shown is that of the result that is kept.
pub mod Connect
pub mod Session
use assignment_logger_analyz.Prelude.{
  ℕ, zero, suc, ◌+◌, ◌*◌, ◌≤◌, ◌≡◌, refl, ltb, if-cases, if◌then◌else◌, Bool, true, false, Option,
  none, some, List, [], ◌∷◌, ◌++◌, Bytes, codes, length, arith,
}
use assignment_logger_analyz.Payload.Reader
use assignment_logger_analyz.Payload.Reader.{Reader, reader}
use assignment_logger_analyz.Client.Actions.{Action, Result, done, ◌>>=◌, ◌>>◌, pure, on_failure}
use assignment_logger_analyz.Client.Logic.{
  Keeps, bind-Keeps, on_failure-Keeps, pure-Keeps, raise-Keeps, out_of_passes-Keeps, gets-Keeps,
  modify-Keeps, if-Keeps,
}
use assignment_logger_analyz.Client.System.{
  System, Call, press_cancel, press_disconnect, press_upload, take_log,
}
use assignment_logger_analyz.Client.State.{Client, Snapshot, trim, push_line, fail, log_limit}
use assignment_logger_analyz.Client.Controls.{
  apply_call, request_cancel, disconnect, start_upload, drain_log,
}
use assignment_logger_analyz.Client.Progress.{
  apply_upload_ack, with_progress, apply_counts, apply_analysis, restart, begun,
}
use assignment_logger_analyz.Client.Result.{max_csv_bytes}
use assignment_logger_analyz.Client.Analysis.{do_upload}
use assignment_logger_analyz.Client.Stable.{Stable, log-Keeps}
use assignment_logger_analyz.Client.Steady.{Steady}
use assignment_logger_analyz.Client.Steady.Whole.{upload_file-Keeps}

trim_short : (n : ℕ) (l : List Bytes) → length l ≤ n + 2000 → length (trim n l) ≤ 2000
unfolding trim
trim_short zero l h = omega (arith, h)
trim_short (suc n) [] h = omega arith
trim_short (suc n) (x ∷ l) h =
    if-cases (λ (t : List Bytes). length t ≤ 2000) (ltb 2000 (length (x ∷ l)))
      (λ _. trim_short n l (omega arith)) (λ e. ground arith)

module _ (sys : System) where
  pub record Bounded (c : Client sys) : Type 0 where
    pub log_short : length c.log_lines ≤ 2000
    pub csv_short : length c.csv ≤ max_csv_bytes
    pub sized : c.shot.csv_size ≡ length c.csv

  pub Bounded-Stable : Stable sys Bounded
  unfolding apply_call request_cancel disconnect start_upload drain_log
  Bounded-Stable = record {
    world = λ c w b. record { log_short = b.log_short; csv_short = b.csv_short; sized = b.sized };
    line = λ c l b. record {
      log_short = trim_short _ (c.log_lines ++ (l ∷ [])) (omega arith);
      csv_short = b.csv_short;
      sized = b.sized;
    };
    call = λ c k b. called c k b;
  }
    where
      called : (c : Client sys) (k : Call) → Bounded c → Bounded (apply_call sys c k)
      called c press_cancel b = record {
        log_short = b.log_short;
        csv_short = b.csv_short;
        sized = b.sized;
      }
      called c press_disconnect b = record {
        log_short = b.log_short;
        csv_short = b.csv_short;
        sized = b.sized;
      }
      called c (press_upload x) b = record {
        log_short = b.log_short;
        csv_short = b.csv_short;
        sized = b.sized;
      }
      called c take_log b = record {
        log_short = omega arith;
        csv_short = b.csv_short;
        sized = b.sized;
      }

  -- UPLOAD_ACK changes neither the size of the result nor whether the client is connected.
  pub record Untouched (s s' : Snapshot sys) : Type 0 where
    pub csv_size : s'.csv_size ≡ s.csv_size
    pub connected : s'.connected ≡ s.connected
    pub phase : s'.phase ≡ s.phase

  with_progress-Untouched :
      (s : Snapshot sys) (a : Option ℕ) (b : Option ℕ × Reader)
      → Untouched s (with_progress sys a b s)
  unfolding with_progress apply_counts
  with_progress-Untouched s none (b, r) = record { csv_size = refl; connected = refl; phase = refl }
  with_progress-Untouched s (some a) (none, r) = record {
    csv_size = refl;
    connected = refl;
    phase = refl;
  }
  with_progress-Untouched s (some a) (some b, r) = record {
    csv_size = refl;
    connected = refl;
    phase = refl;
  }

  pub apply_upload_ack-Untouched :
      (x : Bytes) (s : Snapshot sys) → Untouched s (apply_upload_ack sys x s)
  unfolding apply_upload_ack
  apply_upload_ack-Untouched x s =
      with_progress-Untouched s (Reader.u64 (reader x)).0 (Reader.u64 (Reader.u64 (reader x)).1)

  pub Bounded-Steady : Steady sys Bounded
  unfolding begun apply_analysis restart
  Bounded-Steady = record {
    stable = Bounded-Stable;
    phased = λ c p b. record { log_short = b.log_short; csv_short = b.csv_short; sized = b.sized };
    acked = λ c x b. record {
      log_short = b.log_short;
      csv_short = b.csv_short;
      sized = omega (arith, b.sized, (apply_upload_ack-Untouched x c.shot).csv_size);
    };
    begun_at =
        λ c n a b. record { log_short = b.log_short; csv_short = b.csv_short; sized = b.sized };
    analysed =
        λ c a b. record { log_short = b.log_short; csv_short = b.csv_short; sized = b.sized };
    noted = λ c n x b. record { log_short = b.log_short; csv_short = b.csv_short; sized = b.sized };
    kept = λ c x l b. record { log_short = b.log_short; csv_short = l; sized = refl };
    restarted = λ c b. record { log_short = b.log_short; csv_short = omega arith; sized = refl };
  }
