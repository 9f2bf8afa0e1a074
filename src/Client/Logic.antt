-- ===== src/Client/Logic.antt =====
-- How properties of a state pass through the calls of a sequence.
pub mod Results
use assignment_logger_analyz.Prelude.{◌≡◌, refl, Bool, true, false, if◌then◌else◌, Bytes}
use assignment_logger_analyz.Client.Actions.{
  Action, Result, done, failed, stuck, pure, raise, raise_if, out_of_passes, gets, modify, follow,
  rescue, on_failure, ◌>>=◌, ◌>>◌,
}

-- An action keeps what holds of the state, however it ends.
pub record Keeps {S A : Type 0} (I : S → Type 0) (m : Action S A) : Type 0 where
  pub keep : (s : S) → I s → I (m s).1

module _ {S : Type 0} (I : S → Type 0) where
  follow-keeps :
      {A B : Type 0} (f : A → Action S B) (r : Result A × S)
      → ((a : A) → Keeps I (f a))
      → I r.1
      → I (follow f r).1
  follow-keeps f (done a, s) k i = (k a).keep s i
  follow-keeps f (failed e, s) k i = i
  follow-keeps f (stuck, s) k i = i

  pub bind-Keeps :
      {A B : Type 0} (m : Action S A) (f : A → Action S B)
      → Keeps I m
      → ((a : A) → Keeps I (f a))
      → Keeps I (m >>= f)
  unfolding ◌>>=◌
  bind-Keeps m f k l = record { keep = λ s i. follow-keeps f (m s) l (k.keep s i) }

  rescue-keeps :
      {A : Type 0} (f : Bytes → Action S A) (r : Result A × S)
      → ((e : Bytes) → Keeps I (f e))
      → I r.1
      → I (rescue f r).1
  rescue-keeps f (done a, s) k i = i
  rescue-keeps f (failed e, s) k i = (k e).keep s i
  rescue-keeps f (stuck, s) k i = i

  pub on_failure-Keeps :
      {A : Type 0} (m : Action S A) (f : Bytes → Action S A)
      → Keeps I m
      → ((e : Bytes) → Keeps I (f e))
      → Keeps I (on_failure m f)
  unfolding on_failure
  on_failure-Keeps m f k l = record { keep = λ s i. rescue-keeps f (m s) l (k.keep s i) }

  pub pure-Keeps : {A : Type 0} (a : A) → Keeps I (pure {S = S} a)
  unfolding pure
  pure-Keeps a = record { keep = λ s i. i }

  pub raise-Keeps : {A : Type 0} (e : Bytes) → Keeps I (raise {S = S} {A = A} e)
  unfolding raise
  raise-Keeps e = record { keep = λ s i. i }

  pub raise_if-Keeps : (b : Bool) (e : Bytes) → Keeps I (raise_if {S = S} b e)
  unfolding raise_if
  raise_if-Keeps b e = record { keep = λ s i. i }

  -- What stands behind a guard runs only where the guard has let it.
  pub guard-Keeps :
      {A : Type 0} (b : Bool) (e : Bytes) (f : Unit {0} → Action S A)
      → (b ≡ false → Keeps I (f tt))
      → Keeps I (raise_if b e >>= f)
  unfolding ◌>>=◌ raise_if
  guard-Keeps true e f k = record { keep = λ s i. i }
  guard-Keeps false e f k = record { keep = λ s i. (k refl).keep s i }

  pub out_of_passes-Keeps : {A : Type 0} → Keeps I (out_of_passes {S = S} {A = A})
  unfolding out_of_passes
  out_of_passes-Keeps = record { keep = λ s i. i }

  pub gets-Keeps : {A : Type 0} (f : S → A) → Keeps I (gets f)
  unfolding gets
  gets-Keeps f = record { keep = λ s i. i }

  pub modify-Keeps : (f : S → S) → ((s : S) → I s → I (f s)) → Keeps I (modify f)
  unfolding modify
  modify-Keeps f k = record { keep = k }

  pub if-Keeps :
      {A : Type 0} (b : Bool) (m n : Action S A)
      → Keeps I m
      → Keeps I n
      → Keeps I (if b then m else n)
  if-Keeps true m n k l = k
  if-Keeps false m n k l = l

-- What holds of the result and the state where an action succeeds.
abbrev pub OnDone : {S A : Type 0} → (A → S → Type 0) → Result A × S → Type 0
OnDone Q (done a, s) = Q a s
OnDone Q (failed e, s) = Unit {0}
OnDone Q (stuck, s) = Unit {0}

-- From a state in `P`, where the action succeeds, its result and state are in `Q`.
pub record Gives {S A : Type 0} (P : S → Type 0) (Q : A → S → Type 0) (m : Action S A)
    : Type 0 where
  pub give : (s : S) → P s → OnDone Q (m s)

module _ {S A B : Type 0} (R : A → S → Type 0) {Q : B → S → Type 0} where
  follow-Gives :
      (f : A → Action S B) (r : Result A × S)
      → ((a : A) → Gives (R a) Q (f a))
      → OnDone R r
      → OnDone Q (follow f r)
  follow-Gives f (done a, s) k p = (k a).give s p
  follow-Gives f (failed e, s) k p = tt
  follow-Gives f (stuck, s) k p = tt

  pub bind-Gives :
      {P : S → Type 0} (m : Action S A) (f : A → Action S B)
      → Gives P R m
      → ((a : A) → Gives (R a) Q (f a))
      → Gives P Q (m >>= f)
  unfolding ◌>>=◌
  bind-Gives m f k l = record { give = λ s p. follow-Gives f (m s) l (k.give s p) }
