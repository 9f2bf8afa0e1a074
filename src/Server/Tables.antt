-- ===== src/Server/Tables.antt =====
-- What the operations on the map of the sessions keep: the order of its keys, and what holds of each
-- session in it.
use assignment_logger_analyz.Prelude.{
  ℕ, suc, ◌≤◌, ◌≢◌, ◌≡◌, sym, subst, ltb, ◌==◌, if-cases, [], ◌∷◌, arith,
}
use assignment_logger_analyz.Session.Host.{Host}
use assignment_logger_analyz.Session.State.{Session}
use assignment_logger_analyz.Server.Sessions.{Table, emplace, erase, settle, run_on}

module _ (h : Host) where
  -- The keys ascend, from `n` on.
  unfoldable pub Ascending : ℕ → Table h → Type 0
  Ascending n [] = Unit {0}
  Ascending n ((k, s) ∷ t) = (n ≤ k) × Ascending (suc k) t

  pub Ascending-weaken : (n m : ℕ) (t : Table h) → n ≤ m → Ascending m t → Ascending n t
  unfolding Ascending
  Ascending-weaken n m [] l a = tt
  Ascending-weaken n m ((k, s) ∷ t) l (b, a) = (omega arith, a)

  pub erase-Ascending : (id n : ℕ) (t : Table h) → Ascending n t → Ascending n (erase h id t)
  unfolding Ascending erase
  erase-Ascending id n [] a = tt
  erase-Ascending id n ((k, s) ∷ t) (b, a) =
      if-cases (Ascending n) (k == id) (λ _. Ascending-weaken n (suc k) t (omega arith) a)
        (λ _. (b, erase-Ascending id (suc k) t a))

  pub emplace-Ascending :
      (id n : ℕ) (x : Session h) (t : Table h)
      → n ≤ id
      → Ascending n t
      → Ascending n (emplace h id x t)
  unfolding Ascending emplace
  emplace-Ascending id n x [] l a = (l, tt)
  emplace-Ascending id n x ((k, s) ∷ t) l (b, a) =
      if-cases (Ascending n) (ltb k id)
        (λ e. (b, emplace-Ascending id (suc k) x t (ground arith) a))
        (λ e. if-cases (Ascending n) (k == id) (λ _. (b, a)) (λ e'. (l, (ground arith, a))))

  pub run_on-Ascending :
      (id n : ℕ) (f : Session h → Session h) (t : Table h)
      → Ascending n t
      → Ascending n (run_on h id f t)
  unfolding Ascending run_on settle
  run_on-Ascending id n f [] a = tt
  run_on-Ascending id n f ((k, s) ∷ t) (b, a) =
      if-cases (Ascending n) (k == id)
        (λ _.
          if-cases (Ascending n) (ltb s.notified (f s).notified)
            (λ _. erase-Ascending k n ((k, f s) ∷ t) (b, a)) (λ _. (b, a)))
        (λ _. (b, run_on-Ascending id (suc k) f t a))

  module _ (P : ℕ → Session h → Type 0) where
    unfoldable pub Each : Table h → Type 0
    Each [] = Unit {0}
    Each ((k, s) ∷ t) = P k s × Each t

    pub erase-Each : (id : ℕ) (t : Table h) → Each t → Each (erase h id t)
    unfolding Each erase
    erase-Each id [] a = tt
    erase-Each id ((k, s) ∷ t) (p, a) =
        if-cases Each (k == id) (λ _. a) (λ _. (p, erase-Each id t a))

    pub emplace-Each :
        (id : ℕ) (x : Session h) (t : Table h) → P id x → Each t → Each (emplace h id x t)
    unfolding Each emplace
    emplace-Each id x [] q a = (q, tt)
    emplace-Each id x ((k, s) ∷ t) q (p, a) =
        if-cases Each (ltb k id) (λ _. (p, emplace-Each id x t q a))
          (λ _. if-cases Each (k == id) (λ _. (p, a)) (λ _. (q, (p, a))))

    settle-Each :
        (k : ℕ) (s s' : Session h) (t : Table h) → P k s' → Each t → Each (settle h k s s' t)
    unfolding Each settle
    settle-Each k s s' t p a =
        if-cases Each (ltb s.notified s'.notified) (λ _. erase-Each k ((k, s') ∷ t) (p, a))
          (λ _. (p, a))

    pub run_on-Each :
        (id : ℕ) (f : Session h → Session h) (t : Table h)
        → ((s : Session h) → P id s → P id (f s))
        → Each t
        → Each (run_on h id f t)
    unfolding Each run_on
    run_on-Each id f [] k a = tt
    run_on-Each id f ((i, s) ∷ t) k (p, a) =
        if-cases Each (i == id) (λ e. settle-Each i s (f s) t (kept (ground arith)) a)
          (λ _. (p, run_on-Each id f t k a))
      where
        kept : i ≡ id → P i (f s)
        kept e = subst (λ j. P j (f s)) (sym e) (k s (subst (λ j. P j s) e p))

  -- A call on `id` that turns what holds of its session into `Q`, where `Q` follows for the others.
  module _ (P Q : ℕ → Session h → Type 0) (id : ℕ)
      (other : (k : ℕ) (s : Session h) → k ≢ id → P k s → Q k s) where
    beyond : (n : ℕ) (t : Table h) → suc id ≤ n → Ascending n t → Each P t → Each Q t
    unfolding Ascending Each
    beyond n [] l a p = p
    beyond n ((k, s) ∷ t) l (b, a) (p, ps) =
        (other k s (λ e. omega arith) p, beyond (suc k) t (omega arith) a ps)

    pub run_on-turns :
        (n : ℕ) (f : Session h → Session h) (t : Table h)
        → ((s : Session h) → P id s → Q id (f s))
        → Ascending n t
        → Each P t
        → Each Q (run_on h id f t)
    unfolding Ascending Each run_on
    run_on-turns n f [] g a p = p
    run_on-turns n f ((k, s) ∷ t) g (b, a) (p, ps) =
        if-cases (Each Q) (k == id) (λ e. here (ground arith))
          (λ e. (other k s (λ e'. ground arith) p, run_on-turns (suc k) f t g a ps))
      where
        here : k ≡ id → Each Q (settle h k s (f s) t)
        here e =
            settle-Each Q k s (f s) t
              (subst (λ j. Q j (f s)) (sym e) (g s (subst (λ j. P j s) e p)))
              (beyond (suc k) t (omega arith) a ps)
