-- ===== src/Tests/Systems.antt =====
-- A system for the client that delivers at once, whose user does nothing, and that has one address and
-- one file.
use assignment_logger_analyz.Prelude.{
  ℕ, suc, ◌+◌, ◌*◌, ◌≤◌, ◌<◌, ◌≡◌, refl, sym, subst, ap, ◌∙◌, true, false, none, some, [], ◌∷◌,
  ◌++◌, Bytes, codes, length, length-take, take, take_all, drop, take-append-drop, arith,
}
use assignment_logger_analyz.Tests.Samples.{doubles}
use assignment_logger_analyz.Client.System.{
  System, Received, arrived, nothing_yet, recv_error, Sent, taken, no_room, send_error,
  connected_at_once,
}
use assignment_logger_analyz.Client.State.{Client, new_client}
use assignment_logger_analyz.Client.Delivery.{Line}
use assignment_logger_analyz.Client.Sending.{Sink}

-- What is to be received and what has been sent.
pub record Wire : Type 0 where
  pub input : Bytes
  pub output : Bytes

abbrev pub sample_send : Wire → Bytes → Sent × Wire
sample_send w [] = (no_room, w)
sample_send w (b ∷ bs) = (taken (length bs), record w { output = w.output ++ (b ∷ bs) })

abbrev pub system : System
system = record {
  doubles = doubles;
  World = Wire;
  passes = 5 * 1024 * 1024;
  ui_calls = λ w. ([], w);
  now_ms = λ w. (1000, w);
  local_time = λ w. (codes "[12:00:00.000] ", w);
  recv = λ w n. (arrived (take n w.input), record w { input = drop n w.input });
  send = λ w x. sample_send w x;
  poll = λ w wanted ms. (false, w);
  resolve = λ w host port. (some 1, w);
  attempt = λ w i. (connected_at_once, w);
  socket_error = λ w. (none, w);
  file_size = λ w path. (some 3, w);
  file_name = λ path. path;
  open_file = λ w path. (true, w);
  read_file = λ w n. (take n (codes "abc"), w);
  file_bad = λ w. false;
}

abbrev pub bytes_of : Received → Bytes
bytes_of (arrived x) = x
bytes_of nothing_yet = []
bytes_of (recv_error e) = []

abbrev one_more : Sent → ℕ
one_more (taken n) = suc n
one_more no_room = 0
one_more (send_error e) = 0

pub cut : (s : Bytes) (n : ℕ) (x : Bytes) → take n s ≡ x → (length x ≤ n) × (s ≡ x ++ drop n s)
cut s n x e = (
  omega (arith, length-take n s, ap length e),
  sym (take-append-drop n s) ∙ ap (λ t. t ++ drop n s) e,
)

pub never_nothing : (x : Bytes) → arrived x ≡ nothing_yet → ⊥
never_nothing x e =
    subst (λ a. elim a [ arrived y ↦ Unit {0} | nothing_yet ↦ ⊥ | recv_error m ↦ Unit {0} ]) e tt

abbrev pub line : Line system true
line = record {
  stream = λ w. w.input;
  received = λ w n x e. cut w.input n x (ap bytes_of e);
  waits = λ w n e. absurd (never_nothing (take n w.input) e);
  calls_keep = λ w. refl;
  now_keeps = λ w. refl;
  time_keeps = λ w. refl;
  poll_keeps = λ w n. refl;
  eager = λ t w n k l. (take n w.input, (omega (arith, length-take n w.input), refl));
  quiet = λ t w. refl;
  enough = λ t. omega arith;
}

pub all_taken :
    (w : Wire) (x : Bytes) (n : ℕ)
    → (sample_send w x).0 ≡ taken n
    → (suc n ≤ length x) × ((sample_send w x).1.output ≡ w.output ++ take (suc n) x)
all_taken w [] n e = absurd (no_bytes n e)
  where
    no_bytes : (n : ℕ) → no_room ≡ taken n → ⊥
    no_bytes n e = subst (λ a. elim a [ taken m ↦ ⊥ | no_room ↦ Unit {0} | send_error m ↦ ⊥ ]) e tt
all_taken w (b ∷ bs) n e =
    let m : length bs + 1 ≡ suc n = omega (arith, ap one_more e) in
    (omega (arith, m), ap (λ t. w.output ++ t) (sym (take_all (suc n) (b ∷ bs) (omega (arith, m)))))

pub never_blocked :
    (w : Wire) (x : Bytes) → (sample_send w x).0 ≡ no_room → (sample_send w x).1.output ≡ w.output
never_blocked w [] e = refl
never_blocked w (b ∷ bs) e = absurd (blocked (length bs) e)
  where
    blocked : (n : ℕ) → taken n ≡ no_room → ⊥
    blocked n e = subst (λ a. elim a [ taken m ↦ Unit {0} | no_room ↦ ⊥ | send_error m ↦ ⊥ ]) e tt

pub taken_at_once :
    (w : Wire) (x : Bytes) → 0 < length x → (n : ℕ) × ((sample_send w x).0 ≡ taken n)
taken_at_once w [] k = absurd (omega arith)
taken_at_once w (b ∷ bs) k = (length bs, refl)

abbrev pub sink : Sink system true
sink = record {
  out = λ w. w.output;
  takes = all_taken;
  blocked = never_blocked;
  now_keeps = λ w. refl;
  poll_keeps = λ w n. refl;
  prompt = λ t. taken_at_once;
}

-- A client whose connection stands, with `input` still to be received.
abbrev pub connected_client : Bytes → Client system
connected_client input =
    let c = new_client system (record { input = input; output = [] }) in
    record c { shot = record c.shot { connected = true }; busy = true; is_open = true }
