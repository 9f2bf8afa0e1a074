-- ===== src/Client/Outcome.antt =====
-- How an upload and a session end.
pub mod Ends
use assignment_logger_analyz.Prelude.{
  ℕ, zero, suc, ◌≡◌, refl, sym, subst, ◌∙◌, ltb, ◌==◌, ◌||◌, not, Bool, true, false, if◌then◌else◌,
  Option, none, some, [], ◌∷◌, Bytes, codes,
}
use assignment_logger_analyz.Protocol.{MsgType, upload_ack, analyze_done}
use assignment_logger_analyz.Client.Actions.{
  Action, Result, done, failed, stuck, ◌>>=◌, ◌>>◌, pure, raise, raise_if, modify, on_failure,
  rescue, out_of_passes,
}
use assignment_logger_analyz.Client.Logic.{Keeps, OnDone, Gives, bind-Gives}
use assignment_logger_analyz.Client.Logic.Results.{
  any-Gives, Keeps-Gives, on_failure-Gives, pure-Gives, raise-Gives, out_of_passes-Gives, if-Gives,
  then-Gives,
}
use assignment_logger_analyz.Client.System.{
  System, Call, press_cancel, press_disconnect, press_upload, take_log,
}
use assignment_logger_analyz.Client.State.{
  Client, Phase, idle, connecting, handshaking, connected, uploading, waiting_analysis,
  receiving_result, finished, cancelled, broken, Snapshot, log, fail, set_phase, ask,
}
use assignment_logger_analyz.Client.Controls.{
  apply_call, request_cancel, disconnect, start_upload, drain_log, cancel_requested,
}
use assignment_logger_analyz.Client.Upload.{
  cancel_upload, chunk_failed, send_chunk, after_chunk, after_file_read, left_of, chunk_pass,
  chunk_loop,
}
use assignment_logger_analyz.Client.Progress.{apply_analysis, restart, begun}
use assignment_logger_analyz.Client.Frames.{Frame, same_type}
use assignment_logger_analyz.Client.Analysis.{
  after_wait_frame, wait_loop, take_result, end_upload, give_up_file, after_chunks, upload_sized,
  upload_file, do_upload,
}
use assignment_logger_analyz.Client.Stable.{Stable, log-Keeps}
use assignment_logger_analyz.Client.Steady.{Steady}
use assignment_logger_analyz.Client.Steady.Whole.{upload_file-Keeps}
use assignment_logger_analyz.Client.Bounded.{apply_upload_ack-Untouched}

-- The phases in which an upload leaves a connection that goes on.
abbrev pub Settled : Phase → Type 0
Settled connected = Unit {0}
Settled cancelled = Unit {0}
Settled finished = Unit {0}
Settled idle = ⊥
Settled connecting = ⊥
Settled handshaking = ⊥
Settled uploading = ⊥
Settled waiting_analysis = ⊥
Settled receiving_result = ⊥
Settled broken = ⊥

module _ (sys : System) where
  -- The phase of the client.
  abbrev In : (Phase → Type 0) → Client sys → Type 0
  In P c = P c.shot.phase

  pub In-Stable : (P : Phase → Type 0) → Stable sys (In P)
  unfolding apply_call request_cancel disconnect start_upload drain_log
  In-Stable P = record { world = λ c w i. i; line = λ c l i. i; call = λ c k i. called c k i }
    where
      called : (c : Client sys) (k : Call) → P c.shot.phase → P (apply_call sys c k).shot.phase
      called c press_cancel i = i
      called c press_disconnect i = i
      called c (press_upload x) i = i
      called c take_log i = i

  set_phase-Gives :
      (p : Phase) → Gives (λ (c : Client sys). Unit {0}) (λ _ c. c.shot.phase ≡ p) (set_phase sys p)
  unfolding set_phase modify
  set_phase-Gives p = record { give = λ c _. refl }

  log-Gives :
      (p : Phase) (l : Bytes)
      → Gives (λ (c : Client sys). c.shot.phase ≡ p) (λ _ c. c.shot.phase ≡ p) (log sys l)
  log-Gives p l =
      Keeps-Gives (λ c. c.shot.phase ≡ p) (log sys l)
        (log-Keeps sys (λ c. c.shot.phase ≡ p) (In-Stable (λ q. q ≡ p)) l)

  -- An upload that goes on has its answer `true` and a settled phase.
  abbrev pub Settles : Bool → Client sys → Type 0
  Settles alive c = (alive ≡ true) × Settled c.shot.phase

  by_phase : (p : Phase) (c : Client sys) → Settled p → c.shot.phase ≡ p → Settled c.shot.phase
  by_phase p c k e = subst Settled (sym e) k

  -- A change of phase, a line of the log and the answer `true`.
  close_upload :
      (p : Phase) (l : Bytes)
      → Settled p
      → Gives (λ _. Unit {0}) Settles (set_phase sys p >>= λ _. log sys l >>= λ _. pure true)
  close_upload p l k =
      bind-Gives (λ _ c. c.shot.phase ≡ p) _ _ (set_phase-Gives p)
        (λ _.
          bind-Gives (λ _ c. c.shot.phase ≡ p) _ _ (log-Gives p l)
            (λ _. pure-Gives true (λ c e. (refl, by_phase p c k e))))

  cancel_upload-Gives :
      (l : Bytes) → Gives (λ _. Unit {0}) (λ _ c. c.shot.phase ≡ cancelled) (cancel_upload sys l)
  unfolding cancel_upload
  cancel_upload-Gives l = then-Gives _ _ (λ _.
      bind-Gives (λ _ c. c.shot.phase ≡ cancelled) _ _ (set_phase-Gives cancelled)
        (λ _. log-Gives cancelled l))

  -- A loop that has ended with a cancellation has left the phase of one.
  abbrev Stops : Option ℕ → Client sys → Type 0
  Stops none c = c.shot.phase ≡ cancelled
  Stops (some n) c = Unit {0}

  -- And so has a chunk that was not sent.
  abbrev Goes : Bool → Client sys → Type 0
  Goes true c = Unit {0}
  Goes false c = c.shot.phase ≡ cancelled

  stop-Gives : (l : Bytes) → Gives (λ _. Unit {0}) Stops (cancel_upload sys l >>= λ _. pure none)
  stop-Gives l =
      bind-Gives (λ _ c. c.shot.phase ≡ cancelled) _ _ (cancel_upload-Gives l)
        (λ _. pure-Gives none (λ c e. e))

  send_chunk-Gives : (x : Bytes) → Gives (λ _. Unit {0}) Goes (send_chunk sys x)
  unfolding send_chunk chunk_failed
  send_chunk-Gives x =
      on_failure-Gives _ _ (then-Gives _ _ (λ _. pure-Gives true (λ c _. tt))) (λ err.
        then-Gives _ _ (λ stop.
          if-Gives stop _ _
            (bind-Gives (λ _ c. c.shot.phase ≡ cancelled) _ _ (cancel_upload-Gives _)
              (λ _. pure-Gives false (λ c e. e)))
            (raise-Gives err)))

  module _ (next : ℕ → ℕ → Action (Client sys) (Option ℕ))
      (l : (a b : ℕ) → Gives (λ _. Unit {0}) Stops (next a b)) where
    after_chunk-Gives :
        (total t0 sent last : ℕ) (went : Bool)
        → Gives (Goes went) Stops (after_chunk sys next total t0 sent last went)
    unfolding after_chunk
    after_chunk-Gives total t0 sent last false = pure-Gives none (λ c e. e)
    after_chunk-Gives total t0 sent last true = then-Gives _ _ (λ _. then-Gives _ _ (λ a. l sent a))

    after_file_read-Gives :
        (total t0 sent last : ℕ) (x : Bytes)
        → Gives (λ _. Unit {0}) Stops (after_file_read sys next total t0 sent last x)
    unfolding after_file_read
    after_file_read-Gives total t0 sent last [] = pure-Gives (some sent) (λ c _. tt)
    after_file_read-Gives total t0 sent last (b ∷ bs) =
        bind-Gives Goes _ _ (send_chunk-Gives (b ∷ bs)) (after_chunk-Gives total t0 _ last)

  chunk_loop-Gives :
      (n total size t0 sent last : ℕ)
      → Gives (λ _. Unit {0}) Stops (chunk_loop sys n total size t0 sent last)
  unfolding chunk_loop chunk_pass
  chunk_loop-Gives zero total size t0 sent last = out_of_passes-Gives
  chunk_loop-Gives (suc n) total size t0 sent last = then-Gives _ _ (λ stop.
      if-Gives stop _ _ (stop-Gives _) (
        if-Gives (left_of sys total sent == 0) _ _ (pure-Gives (some sent) (λ c _. tt)) (
          then-Gives _ _ (λ x.
            after_file_read-Gives (chunk_loop sys n total size t0)
              (λ a b. chunk_loop-Gives n total size t0 a b) total t0 sent last x))))

  after_wait_frame-Gives :
      (next : Action (Client sys) (Option ℕ)) (f : Frame)
      → Gives (λ _. Unit {0}) Stops next
      → Gives (λ _. Unit {0}) Stops (after_wait_frame sys next f)
  unfolding after_wait_frame
  after_wait_frame-Gives next f l =
      if-Gives (same_type f.type upload_ack) _ _ (then-Gives _ _ (λ _. l)) (
        if-Gives (same_type f.type MsgType.error) _ _ (raise-Gives _) (
          if-Gives (same_type f.type analyze_done) _ _
            (then-Gives _ _ (λ a.
              then-Gives _ _ (λ _. then-Gives _ _ (λ _. pure-Gives (some a.csv_size) (λ c _. tt)))))
            (raise-Gives _)))

  wait_loop-Gives : (n : ℕ) → Gives (λ _. Unit {0}) Stops (wait_loop sys n)
  unfolding wait_loop
  wait_loop-Gives zero = out_of_passes-Gives
  wait_loop-Gives (suc n) = then-Gives _ _ (λ stop.
      if-Gives stop _ _ (stop-Gives _)
        (then-Gives _ _ (λ f. after_wait_frame-Gives (wait_loop sys n) f (wait_loop-Gives n))))

  take_result-Gives : (r : Option ℕ) → Gives (Stops r) Settles (take_result sys r)
  unfolding take_result
  take_result-Gives none = pure-Gives true (λ c e. (refl, by_phase cancelled c tt e))
  take_result-Gives (some size) =
      then-Gives _ _ (λ _. then-Gives _ _ (λ _. close_upload finished _ tt))

  end_upload-Gives : (sent : ℕ) → Gives (λ _. Unit {0}) Settles (end_upload sys sent)
  unfolding end_upload
  end_upload-Gives sent = then-Gives _ _ (λ _. then-Gives _ _ (λ _.
      then-Gives _ _ (λ _. bind-Gives Stops _ _ (wait_loop-Gives sys.passes) take_result-Gives)))

  after_chunks-Gives :
      (total : ℕ) (r : Option ℕ) → Gives (Stops r) Settles (after_chunks sys total r)
  unfolding after_chunks give_up_file
  after_chunks-Gives total none = pure-Gives true (λ c e. (refl, by_phase cancelled c tt e))
  after_chunks-Gives total (some sent) = then-Gives _ _ (λ bad.
      if-Gives (bad || not (sent == total)) _ _ (then-Gives _ _ (λ _. close_upload connected _ tt))
        (end_upload-Gives sent))

  upload_sized-Gives :
      (path : Bytes) (r : Option ℕ) → Gives (λ _. Unit {0}) Settles (upload_sized sys path r)
  unfolding upload_sized
  upload_sized-Gives path none = close_upload connected _ tt
  upload_sized-Gives path (some total) = then-Gives _ _ (λ ack. then-Gives _ _ (λ _.
      then-Gives _ _ (λ _. then-Gives _ _ (λ _. then-Gives _ _ (λ ok. then-Gives _ _ (λ _.
        then-Gives _ _ (λ t0.
          bind-Gives Stops _ _ (chunk_loop-Gives sys.passes total _ t0 0 0)
            (after_chunks-Gives total))))))))

  pub upload_file-Gives : (path : Bytes) → Gives (λ _. Unit {0}) Settles (upload_file sys path)
  unfolding upload_file
  upload_file-Gives path = then-Gives _ _ (λ _. then-Gives _ _ (upload_sized-Gives path))
