-- ===== src/Client/Stable.antt =====
-- What holds of the client through the calls of the user interface, the lines of the log and the
-- answers of the system holds through everything that only sends, receives and writes lines.
pub mod Frames
use assignment_logger_analyz.Prelude.{
  ℕ, zero, suc, ◌+◌, ◌-◌, ltb, leb, ◌==◌, ◌||◌, not, Bool, true, false, if◌then◌else◌, List, [],
  ◌∷◌, ◌++◌, Bytes, codes, length, drop,
}
use assignment_logger_analyz.Protocol.{MsgType, FrameHeader, decode_header, magic_word, max_payload}
use assignment_logger_analyz.Client.Actions.{
  Action, Result, done, ◌>>=◌, ◌>>◌, pure, gets, modify, raise_if,
}
use assignment_logger_analyz.Client.Logic.{
  Keeps, bind-Keeps, on_failure-Keeps, pure-Keeps, raise-Keeps, raise_if-Keeps, out_of_passes-Keeps,
  gets-Keeps, modify-Keeps, if-Keeps,
}
use assignment_logger_analyz.Client.System.{
  System, Call, Received, arrived, nothing_yet, recv_error, Sent, taken, no_room, send_error,
  readable, writable,
}
use assignment_logger_analyz.Client.State.{Client, ask, log, push_line}
use assignment_logger_analyz.Client.Controls.{apply_call, apply_calls, see_calls, cancel_requested}
use assignment_logger_analyz.Client.Socket.{
  Flag, cancel_flag, never_cancel, load_flag, after_send, send_pass, send_loop, send_all,
  after_recv, recv_pass, recv_loop, recv_exactly, poll_now, readable_now,
}
use assignment_logger_analyz.Client.Frames.{
  Frame, send_body, send_frame, send_empty_frame_never_cancel, read_body, after_header, read_frame,
}
use assignment_logger_analyz.Client.Handshake.{expect}
use assignment_logger_analyz.Client.Texts.{Fields, reading}
use assignment_logger_analyz.Client.Cancel.{
  after_cancel_header, cancel_pass, cancel_loop, send_cancel_and_wait,
}

module _ (sys : System) where
  pub record Stable (I : Client sys → Type 0) : Type 0 where
    pub world : (c : Client sys) (w : sys.World) → I c → I (record c { world = w })
    pub line : (c : Client sys) (l : Bytes) → I c → I (push_line sys l c)
    pub call : (c : Client sys) (k : Call) → I c → I (apply_call sys c k)

  module _ (I : Client sys → Type 0) (st : Stable I) where
    pub ask-Keeps : {A : Type 0} (f : sys.World → A × sys.World) → Keeps I (ask sys f)
    unfolding ask
    ask-Keeps f = record { keep = λ c i. st.world c (f c.world).1 i }

    pub log-Keeps : (l : Bytes) → Keeps I (log sys l)
    unfolding log
    log-Keeps l =
        bind-Keeps I (ask sys sys.local_time) _ (ask-Keeps sys.local_time)
          (λ prefix. modify-Keeps I (push_line sys (prefix ++ l)) (λ c. st.line c (prefix ++ l)))

    apply_calls-kept : (ks : List Call) (c : Client sys) → I c → I (apply_calls sys c ks)
    unfolding apply_calls
    apply_calls-kept [] c i = i
    apply_calls-kept (k ∷ ks) c i = apply_calls-kept ks _ (st.call c k i)

    pub see_calls-Keeps : Keeps I (see_calls sys)
    unfolding see_calls
    see_calls-Keeps =
        bind-Keeps I (ask sys sys.ui_calls) _ (ask-Keeps sys.ui_calls)
          (λ ks. modify-Keeps I (λ c. apply_calls sys c ks) (apply_calls-kept ks))

    pub cancel_requested-Keeps : Keeps I (cancel_requested sys)
    unfolding cancel_requested
    cancel_requested-Keeps =
        bind-Keeps I (see_calls sys) _ see_calls-Keeps (λ _. gets-Keeps I (λ c. c.cancel))

    pub load_flag-Keeps : (flag : Flag) → Keeps I (load_flag sys flag)
    unfolding load_flag
    load_flag-Keeps cancel_flag = cancel_requested-Keeps
    load_flag-Keeps never_cancel = pure-Keeps I false

    after_send-Keeps :
        (next : ℕ → ℕ → Action (Client sys) (Unit {0})) (stall sent last : ℕ) (x : Sent)
        → ((a b : ℕ) → Keeps I (next a b))
        → Keeps I (after_send sys next stall sent last x)
    unfolding after_send
    after_send-Keeps next stall sent last (taken n) k =
        bind-Keeps I (ask sys sys.now_ms) _ (ask-Keeps sys.now_ms) (λ now. k _ now)
    after_send-Keeps next stall sent last (send_error e) k = raise-Keeps I _
    after_send-Keeps next stall sent last no_room k =
        bind-Keeps I (ask sys sys.now_ms) _ (ask-Keeps sys.now_ms) (λ now.
          bind-Keeps I (raise_if (leb (last + stall) now) _) _ (raise_if-Keeps I _ _) (λ _.
            bind-Keeps I (ask sys (λ w. sys.poll w writable 250)) _ (ask-Keeps _)
              (λ _. k sent last)))

    send_pass-Keeps :
        (next : ℕ → ℕ → Action (Client sys) (Unit {0})) (x : Bytes) (stall : ℕ) (flag : Flag)
        (sent last : ℕ)
        → ((a b : ℕ) → Keeps I (next a b))
        → Keeps I (send_pass sys next x stall flag sent last)
    unfolding send_pass
    send_pass-Keeps next x stall flag sent last k =
        bind-Keeps I (load_flag sys flag) _ (load_flag-Keeps flag) (λ stop.
          bind-Keeps I (raise_if stop _) _ (raise_if-Keeps I _ _) (λ _.
            bind-Keeps I (ask sys (λ w. sys.send w (drop sent x))) _ (ask-Keeps _)
              (λ answer. after_send-Keeps next stall sent last answer k)))

    send_loop-Keeps :
        (n : ℕ) (x : Bytes) (stall : ℕ) (flag : Flag) (sent last : ℕ)
        → Keeps I (send_loop sys n x stall flag sent last)
    unfolding send_loop
    send_loop-Keeps zero x stall flag sent last = out_of_passes-Keeps I
    send_loop-Keeps (suc n) x stall flag sent last =
        if-Keeps I (ltb sent (length x)) _ _
          (send_pass-Keeps (send_loop sys n x stall flag) x stall flag sent last
            (λ a b. send_loop-Keeps n x stall flag a b))
          (pure-Keeps I tt)

    pub send_all-Keeps : (x : Bytes) (stall : ℕ) (flag : Flag) → Keeps I (send_all sys x stall flag)
    unfolding send_all
    send_all-Keeps x stall flag =
        bind-Keeps I (ask sys sys.now_ms) _ (ask-Keeps sys.now_ms)
          (λ now. send_loop-Keeps sys.passes x stall flag 0 now)

    after_recv-Keeps :
        (next : Bytes → ℕ → Action (Client sys) Bytes) (len stall : ℕ) (got : Bytes) (last : ℕ)
        (x : Received)
        → ((a : Bytes) (b : ℕ) → Keeps I (next a b))
        → Keeps I (after_recv sys next len stall got last x)
    unfolding after_recv
    after_recv-Keeps next len stall got last (arrived []) k = raise-Keeps I _
    after_recv-Keeps next len stall got last (arrived (b ∷ bs)) k =
        bind-Keeps I (ask sys sys.now_ms) _ (ask-Keeps sys.now_ms) (λ now. k _ now)
    after_recv-Keeps next len stall got last (recv_error e) k = raise-Keeps I _
    after_recv-Keeps next len stall got last nothing_yet k =
        bind-Keeps I (ask sys sys.now_ms) _ (ask-Keeps sys.now_ms) (λ now.
          bind-Keeps I (raise_if (leb (last + stall) now) _) _ (raise_if-Keeps I _ _) (λ _.
            bind-Keeps I (ask sys (λ w. sys.poll w readable 250)) _ (ask-Keeps _)
              (λ _. k got last)))

    recv_pass-Keeps :
        (next : Bytes → ℕ → Action (Client sys) Bytes) (len stall : ℕ) (flag : Flag) (got : Bytes)
        (last : ℕ)
        → ((a : Bytes) (b : ℕ) → Keeps I (next a b))
        → Keeps I (recv_pass sys next len stall flag got last)
    unfolding recv_pass
    recv_pass-Keeps next len stall flag got last k =
        bind-Keeps I (load_flag sys flag) _ (load_flag-Keeps flag) (λ stop.
          bind-Keeps I (raise_if stop _) _ (raise_if-Keeps I _ _) (λ _.
            bind-Keeps I (ask sys (λ w. sys.recv w (len - length got))) _ (ask-Keeps _)
              (λ answer. after_recv-Keeps next len stall got last answer k)))

    recv_loop-Keeps :
        (n len stall : ℕ) (flag : Flag) (got : Bytes) (last : ℕ)
        → Keeps I (recv_loop sys n len stall flag got last)
    unfolding recv_loop
    recv_loop-Keeps zero len stall flag got last = out_of_passes-Keeps I
    recv_loop-Keeps (suc n) len stall flag got last =
        if-Keeps I (ltb (length got) len) _ _
          (recv_pass-Keeps (recv_loop sys n len stall flag) len stall flag got last
            (λ a b. recv_loop-Keeps n len stall flag a b))
          (pure-Keeps I got)

    pub recv_exactly-Keeps :
        (len stall : ℕ) (flag : Flag) → Keeps I (recv_exactly sys len stall flag)
    unfolding recv_exactly
    recv_exactly-Keeps len stall flag =
        bind-Keeps I (ask sys sys.now_ms) _ (ask-Keeps sys.now_ms)
          (λ now. recv_loop-Keeps sys.passes len stall flag [] now)

    poll_now-Keeps : (b : Bool) → Keeps I (poll_now sys b)
    unfolding poll_now
    poll_now-Keeps false = pure-Keeps I false
    poll_now-Keeps true = ask-Keeps _

    pub readable_now-Keeps : Keeps I (readable_now sys)
    unfolding readable_now
    readable_now-Keeps = bind-Keeps I (gets (λ c. c.is_open)) _ (gets-Keeps I _) poll_now-Keeps
