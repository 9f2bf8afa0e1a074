-- ===== src/Client/Delivery.antt =====
-- What the server has sent arrives: `recv_exactly` and `read_frame` on a stream of bytes.
pub mod Exact
pub mod Begin
pub mod Frames
pub mod Csv
use assignment_logger_analyz.Prelude.{
  ℕ, zero, suc, ◌+◌, ◌-◌, ◌*◌, ◌≤◌, ◌<◌, ◌≡◌, refl, sym, subst, ap, ◌∙◌, ltb, leb, if-cases, Bool,
  true, false, Bool-cases, inl, inr, if◌then◌else◌, List, [], ◌∷◌, ◌++◌, append_assoc, append-nil,
  Bytes, codes, length, length-append, take, drop, take-append-drop, take-append_left,
  take-append_length, drop-append_left, drop-append_length, arith,
}
use assignment_logger_analyz.Client.Actions.{Action, Result, done, ◌>>=◌, ◌>>◌, pure, modify, gets}
use assignment_logger_analyz.Client.Meets.{
  OnResult, Meets, bind-Meets, Yields, bind-Yields, pure-Meets, raise-Meets, out_of_passes-Meets,
  guard-Meets, gets-Meets, modify-Meets, Meets-map, learn,
}
use assignment_logger_analyz.Client.System.{
  System, Call, press_cancel, press_disconnect, press_upload, take_log, Received, arrived,
  nothing_yet, recv_error, readable,
}
use assignment_logger_analyz.Client.State.{Client, ask, log, push_line}
use assignment_logger_analyz.Client.Controls.{
  apply_call, apply_calls, see_calls, cancel_requested, request_cancel, disconnect, start_upload,
  drain_log,
}
use assignment_logger_analyz.Client.Socket.{
  Flag, cancel_flag, never_cancel, load_flag, after_recv, recv_pass, recv_loop, recv_exactly,
}

-- A stream: what has been sent to the client and not received yet. A read takes bytes from its front,
-- and nothing else changes it; where `strict` is true, a read of a stream that is not empty takes at
-- least a byte at once, the user does nothing, and the loops have a pass for every byte of a frame.
pub record Line (sys : System) (strict : Bool) : Type 0 where
  pub stream : sys.World → Bytes
  pub received :
      (w : sys.World) (n : ℕ) (x : Bytes)
      → (sys.recv w n).0 ≡ arrived x
      → (length x ≤ n) × (stream w ≡ x ++ stream (sys.recv w n).1)
  pub waits :
      (w : sys.World) (n : ℕ) → (sys.recv w n).0 ≡ nothing_yet → stream (sys.recv w n).1 ≡ stream w
  pub calls_keep : (w : sys.World) → stream (sys.ui_calls w).1 ≡ stream w
  pub now_keeps : (w : sys.World) → stream (sys.now_ms w).1 ≡ stream w
  pub time_keeps : (w : sys.World) → stream (sys.local_time w).1 ≡ stream w
  pub poll_keeps : (w : sys.World) (n : ℕ) → stream (sys.poll w readable n).1 ≡ stream w
  pub eager :
      strict ≡ true
      → (w : sys.World) (n : ℕ) → 0 < n
      → 0 < length (stream w)
      → (x : Bytes) × ((0 < length x) × ((sys.recv w n).0 ≡ arrived x))
  pub quiet : strict ≡ true → (w : sys.World) → (sys.ui_calls w).0 ≡ []
  pub enough : strict ≡ true → 4 * 1024 * 1024 < sys.passes

module _ (sys : System) (strict : Bool) (line : Line sys strict) where
  open line use {stream}

  -- The stream is `s`, and nothing has been cancelled.
  pub record At (s : Bytes) (c : Client sys) : Type 0 where
    pub ahead : stream c.world ≡ s
    pub uncancelled : strict ≡ true → c.cancel ≡ false

  pub lax : (strict ≡ true → ⊥) → strict ≡ false
  lax k = elim (Bool-cases strict) [ inl e ↦ absurd (k e) | inr e ↦ e ]

  -- An answer of the system that leaves the stream alone.
  pub ask-At :
      {A : Type 0} (f : sys.World → A × sys.World) (s : Bytes)
      → ((w : sys.World) → stream (f w).1 ≡ stream w)
      → Meets strict (At s) (λ _. At s) (ask sys f)
  unfolding ask
  ask-At f s k = record {
    meet = λ c p. record { ahead = k c.world ∙ p.ahead; uncancelled = p.uncancelled };
  }

  pub log-At : (l s : Bytes) → Meets strict (At s) (Yields strict tt (At s)) (log sys l)
  unfolding log
  log-At l s =
      bind-Meets strict (λ _. At s) _ _ (ask-At sys.local_time s line.time_keeps)
        (λ prefix.
          modify-Meets strict (push_line sys (prefix ++ l))
            (λ c p. (refl, record { ahead = p.ahead; uncancelled = p.uncancelled })))

  apply_call-world : (k : Call) (c : Client sys) → (apply_call sys c k).world ≡ c.world
  unfolding apply_call request_cancel disconnect start_upload drain_log
  apply_call-world press_cancel c = refl
  apply_call-world press_disconnect c = refl
  apply_call-world (press_upload x) c = refl
  apply_call-world take_log c = refl

  apply_calls-world : (ks : List Call) (c : Client sys) → (apply_calls sys c ks).world ≡ c.world
  unfolding apply_calls
  apply_calls-world [] c = refl
  apply_calls-world (k ∷ ks) c = apply_calls-world ks _ ∙ apply_call-world k c

  apply_calls-quiet :
      (ks : List Call) (c : Client sys) → ks ≡ [] → (apply_calls sys c ks).cancel ≡ c.cancel
  unfolding apply_calls
  apply_calls-quiet ks c e = rw e refl

  see_calls-At : (s : Bytes) → Meets strict (At s) (λ _. At s) (see_calls sys)
  unfolding see_calls ask ◌>>=◌ modify
  see_calls-At s = record {
    meet = λ c p. record {
      ahead =
          ap stream (apply_calls-world (sys.ui_calls c.world).0 _)
          ∙ line.calls_keep c.world
          ∙ p.ahead;
      uncancelled = λ e.
          apply_calls-quiet (sys.ui_calls c.world).0 _ (line.quiet e c.world) ∙ p.uncancelled e;
    };
  }

  -- The flag, which is not set where the user does nothing.
  pub load_flag-At :
      (flag : Flag) (s : Bytes)
      → Meets strict (At s) (λ stop c. At s c × (strict ≡ true → stop ≡ false)) (load_flag sys flag)
  unfolding load_flag cancel_requested
  load_flag-At never_cancel s = pure-Meets strict false (λ c p. (p, λ _. refl))
  load_flag-At cancel_flag s =
      bind-Meets strict (λ _. At s) _ _ (see_calls-At s)
        (λ _. gets-Meets strict (λ c. c.cancel) (λ c p. (p, p.uncancelled)))

  -- What a read of at most `n` bytes has left of the stream `s`.
  abbrev pub Read : ℕ → Bytes → Received → Client sys → Type 0
  Read n s (arrived x) c =
      (length x ≤ n)
      × (s ≡ x ++ stream c.world)
      × (strict ≡ true → c.cancel ≡ false)
      × (strict ≡ true → 0 < length x)
  Read n s nothing_yet c = At s c × (strict ≡ false)
  Read n s (recv_error e) c = strict ≡ false

  abbrev bytes_read : Received → ℕ
  bytes_read (arrived x) = length x
  bytes_read nothing_yet = 0
  bytes_read (recv_error e) = 0

  eager_read :
      (w : sys.World) (n : ℕ)
      → 0 < n
      → 0 < length (stream w)
      → strict ≡ true
      → 0 < bytes_read (sys.recv w n).0
  eager_read w n k l e =
      let (x, m) = line.eager e w n k l in
      let (m0, m1) = m in subst (λ a. 0 < bytes_read a) (sym m1) m0

  answer :
      (n : ℕ) (s : Bytes) (c : Client sys) (a : Received)
      → At s c
      → (strict ≡ true → 0 < bytes_read a)
      → (sys.recv c.world n).0 ≡ a
      → Read n s a (record c { world = (sys.recv c.world n).1 })
  answer n s c (arrived x) p f e =
      let (short, split) = line.received c.world n x e in
      (short, sym p.ahead ∙ split, p.uncancelled, f)
  answer n s c nothing_yet p f e = (
    record { ahead = line.waits c.world n e ∙ p.ahead; uncancelled = p.uncancelled },
    lax (λ t. absurd (omega (arith, f t))),
  )
  answer n s c (recv_error x) p f e = lax (λ t. absurd (omega (arith, f t)))

  pub recv-Read :
      (n : ℕ) (s : Bytes)
      → 0 < n
      → 0 < length s
      → Meets strict (At s) (Read n s) (ask sys (λ w. sys.recv w n))
  unfolding ask
  recv-Read n s k l = record {
    meet = λ c p.
        answer n s c (sys.recv c.world n).0 p
          (eager_read c.world n k (subst (λ t. 0 < length t) (sym p.ahead) l)) refl;
  }
