-- ===== src/Client/Logic/Results.antt =====
-- What holds of the results of a sequence of calls.
use assignment_logger_analyz.Prelude.{Bool, true, false, if◌then◌else◌, Bytes}
use assignment_logger_analyz.Client.Actions.{
  Action, Result, done, failed, stuck, ◌>>=◌, pure, raise, on_failure, rescue, out_of_passes,
}
use assignment_logger_analyz.Client.Logic.{Keeps, OnDone, Gives, bind-Gives}

module _ {S A : Type 0} where
  anything : (m : Action S A) → (s : S) → OnDone (λ _ _. Unit {0}) (m s)
  anything m s = on (m s)
    where
      on : (r : Result A × S) → OnDone (λ _ _. Unit {0}) r
      on (done a, s) = tt
      on (failed e, s) = tt
      on (stuck, s) = tt

  pub any-Gives : {P : S → Type 0} (m : Action S A) → Gives P (λ _ _. Unit {0}) m
  any-Gives m = record { give = λ s _. anything m s }

  on_done : (I : S → Type 0) (r : Result A × S) → I r.1 → OnDone (λ _ s. I s) r
  on_done I (done a, s) i = i
  on_done I (failed e, s) i = tt
  on_done I (stuck, s) i = tt

  pub Keeps-Gives : (I : S → Type 0) (m : Action S A) → Keeps I m → Gives I (λ _ s. I s) m
  Keeps-Gives I m k = record { give = λ s i. on_done I (m s) (k.keep s i) }

  rescue-Gives :
      {Q : A → S → Type 0} (f : Bytes → Action S A) (r : Result A × S)
      → ((e : Bytes) → Gives (λ _. Unit {0}) Q (f e))
      → OnDone Q r
      → OnDone Q (rescue f r)
  rescue-Gives f (done a, s) k q = q
  rescue-Gives f (failed e, s) k q = (k e).give s tt
  rescue-Gives f (stuck, s) k q = tt

  pub on_failure-Gives :
      {P : S → Type 0} {Q : A → S → Type 0} (m : Action S A) (f : Bytes → Action S A)
      → Gives P Q m
      → ((e : Bytes) → Gives (λ _. Unit {0}) Q (f e))
      → Gives P Q (on_failure m f)
  unfolding on_failure
  on_failure-Gives m f k l = record { give = λ s p. rescue-Gives f (m s) l (k.give s p) }

  pub pure-Gives :
      {P : S → Type 0} {Q : A → S → Type 0} (a : A) → ((s : S) → P s → Q a s) → Gives P Q (pure a)
  unfolding pure
  pure-Gives a k = record { give = k }

  pub raise-Gives : {P : S → Type 0} {Q : A → S → Type 0} (e : Bytes) → Gives P Q (raise e)
  unfolding raise
  raise-Gives e = record { give = λ s p. tt }

  pub out_of_passes-Gives : {P : S → Type 0} {Q : A → S → Type 0} → Gives P Q out_of_passes
  unfolding out_of_passes
  out_of_passes-Gives = record { give = λ s p. tt }

  pub if-Gives :
      {P : S → Type 0} {Q : A → S → Type 0} (b : Bool) (m n : Action S A)
      → Gives P Q m
      → Gives P Q n
      → Gives P Q (if b then m else n)
  if-Gives true m n k l = k
  if-Gives false m n k l = l

-- What follows an action of which nothing is asked.
pub then-Gives :
    {S A B : Type 0} {P : S → Type 0} {Q : B → S → Type 0} (m : Action S A) (f : A → Action S B)
    → ((a : A) → Gives (λ _. Unit {0}) Q (f a))
    → Gives P Q (m >>= f)
then-Gives m f k = bind-Gives (λ _ _. Unit {0}) m f (any-Gives m) k
