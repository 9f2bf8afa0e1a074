-- ===== src/Client/Meets.antt =====
-- What holds of an action that may fail, or, where `strict` is true, that always succeeds.
use assignment_logger_analyz.Prelude.{◌≡◌, refl, subst, sym, Bool, true, false, Bytes}
use assignment_logger_analyz.Client.Actions.{
  Action, Result, done, failed, stuck, pure, raise, raise_if, out_of_passes, gets, modify, follow,
  ◌>>=◌,
}

module _ (strict : Bool) where
  abbrev pub OnResult : {S A : Type 0} → (A → S → Type 0) → Result A × S → Type 0
  OnResult Q (done a, s) = Q a s
  OnResult Q (failed e, s) = strict ≡ false
  OnResult Q (stuck, s) = strict ≡ false

  pub record Meets {S A : Type 0} (P : S → Type 0) (Q : A → S → Type 0) (m : Action S A)
      : Type 0 where
    pub meet : (s : S) → P s → OnResult Q (m s)

  module _ {S A B : Type 0} (R : A → S → Type 0) {Q : B → S → Type 0} where
    follow-Meets :
        (f : A → Action S B) (r : Result A × S)
        → ((a : A) → Meets (R a) Q (f a))
        → OnResult R r
        → OnResult Q (follow f r)
    follow-Meets f (done a, s) k p = (k a).meet s p
    follow-Meets f (failed e, s) k p = p
    follow-Meets f (stuck, s) k p = p

    pub bind-Meets :
        {P : S → Type 0} (m : Action S A) (f : A → Action S B)
        → Meets P R m
        → ((a : A) → Meets (R a) Q (f a))
        → Meets P Q (m >>= f)
    unfolding ◌>>=◌
    bind-Meets m f k l = record { meet = λ s p. follow-Meets f (m s) l (k.meet s p) }

  module _ {S : Type 0} where
    -- An action with the one result `x`.
    abbrev pub Yields : {A : Type 0} → A → (S → Type 0) → A → S → Type 0
    Yields x R a s = (a ≡ x) × R s

    at_value :
        {A B : Type 0} (x : A) (R : S → Type 0) {Q : B → S → Type 0} (f : A → Action S B)
        → Meets R Q (f x)
        → (a : A) → Meets (Yields x R a) Q (f a)
    at_value x R {Q = Q} f l a = record {
      meet = λ s (e, p). subst (λ y. OnResult Q (f y s)) (sym e) (l.meet s p);
    }

    pub bind-Yields :
        {A B : Type 0} {P : S → Type 0} (x : A) (R : S → Type 0) {Q : B → S → Type 0}
        (m : Action S A) (f : A → Action S B)
        → Meets P (Yields x R) m
        → Meets R Q (f x)
        → Meets P Q (m >>= f)
    bind-Yields x R m f k l = bind-Meets (Yields x R) m f k (at_value x R f l)

    pub pure-Meets :
        {A : Type 0} {P : S → Type 0} {Q : A → S → Type 0} (a : A)
        → ((s : S) → P s → Q a s)
        → Meets P Q (pure a)
    unfolding pure
    pure-Meets a k = record { meet = k }

    pub raise-Meets :
        {A : Type 0} {P : S → Type 0} {Q : A → S → Type 0} (e : Bytes)
        → ((s : S) → P s → strict ≡ false)
        → Meets P Q (raise e)
    unfolding raise
    raise-Meets e k = record { meet = k }

    pub out_of_passes-Meets :
        {A : Type 0} {P : S → Type 0} {Q : A → S → Type 0}
        → strict ≡ false
        → Meets P Q out_of_passes
    unfolding out_of_passes
    out_of_passes-Meets k = record { meet = λ s p. k }

    pub guard-Meets :
        {A : Type 0} {P : S → Type 0} {Q : A → S → Type 0} (b : Bool) (e : Bytes)
        (f : Unit {0} → Action S A)
        → ((s : S) → P s → b ≡ true → strict ≡ false)
        → Meets P Q (f tt)
        → Meets P Q (raise_if b e >>= f)
    unfolding ◌>>=◌ raise_if
    guard-Meets true e f k l = record { meet = λ s p. k s p refl }
    guard-Meets false e f k l = record { meet = λ s p. l.meet s p }

    pub gets-Meets :
        {A : Type 0} {P : S → Type 0} {Q : A → S → Type 0} (f : S → A)
        → ((s : S) → P s → Q (f s) s)
        → Meets P Q (gets f)
    unfolding gets
    gets-Meets f k = record { meet = k }

    pub modify-Meets :
        {P : S → Type 0} {Q : Unit {0} → S → Type 0} (f : S → S)
        → ((s : S) → P s → Q tt (f s))
        → Meets P Q (modify f)
    unfolding modify
    modify-Meets f k = record { meet = k }

    -- A stronger premise, a weaker conclusion.
    pub Meets-map :
        {A : Type 0} {P P' : S → Type 0} {Q : A → S → Type 0} (m : Action S A)
        → ((s : S) → P' s → P s)
        → Meets P Q m
        → Meets P' Q m
    Meets-map m f k = record { meet = λ s p. k.meet s (f s p) }

    -- What the premise says of no state may be used for the action.
    pub learn :
        {A : Type 0} {P : S → Type 0} {Q : A → S → Type 0} (F : Type 0) (m : Action S A)
        → ((s : S) → P s → F)
        → (F → Meets P Q m)
        → Meets P Q m
    learn F m f k = record { meet = λ s p. (k (f s p)).meet s p }
