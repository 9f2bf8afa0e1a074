-- ===== src/Client/Actions.antt =====
-- Calls that change the state of the client and may fail with a text, the `err` of the sources.
use assignment_logger_analyz.Prelude.{Bool, Bytes, if◌then◌else◌}

-- `stuck` is not an outcome of the sources: a loop of the model has had as many passes as it was given.
pub data Result (A : Type 0) : Type 0 where
  done : A → Result A
  failed : Bytes → Result A
  stuck : Result A

abbrev pub Action : Type 0 → Type 0 → Type 0
Action S A = S → Result A × S

module _ {S A : Type 0} where
  unfoldable pub pure : A → Action S A
  pure a s = (done a, s)

  unfoldable pub raise : Bytes → Action S A
  raise e s = (failed e, s)

  unfoldable pub out_of_passes : Action S A
  out_of_passes s = (stuck, s)

  unfoldable pub gets : (S → A) → Action S A
  gets f s = (done (f s), s)

unfoldable pub modify : {S : Type 0} → (S → S) → Action S (Unit {0})
modify f s = (done tt, f s)

unfoldable pub raise_if : {S : Type 0} → Bool → Bytes → Action S (Unit {0})
raise_if c e s = (if c then failed e else done tt, s)

abbrev pub follow : {S A B : Type 0} → (A → Action S B) → Result A × S → Result B × S
follow f (done a, s) = f a s
follow f (failed e, s) = (failed e, s)
follow f (stuck, s) = (stuck, s)

infixl 5 ◌>>=◌ ◌>>◌
unfoldable pub ◌>>=◌ : {S A B : Type 0} → Action S A → (A → Action S B) → Action S B
◌>>=◌ m f s = follow f (m s)

abbrev pub ◌>>◌ : {S A B : Type 0} → Action S A → Action S B → Action S B
m >> k = m >>= λ _. k

abbrev pub rescue : {S A : Type 0} → (Bytes → Action S A) → Result A × S → Result A × S
rescue f (done a, s) = (done a, s)
rescue f (failed e, s) = f e s
rescue f (stuck, s) = (stuck, s)

-- The text of a failure goes to `f`.
unfoldable pub on_failure : {S A : Type 0} → Action S A → (Bytes → Action S A) → Action S A
on_failure m f s = rescue f (m s)
