-- ===== src/Aggregator/Lookup.antt =====
-- The buckets of an aggregator as a map from hours to counts: the sorted vector and the place of the
-- last access implement it.
use assignment_logger_analyz.Prelude.{
  ℕ, zero, suc, ◌+◌, ◌<◌, ◌≡◌, refl, sym, subst, ap, ◌∙◌, ltb, ltb→lt, ◌==◌, if◌then◌else◌,
  if-cases, true, false, ◌&&◌, Bool-cases, inl, inr, Option, none, some, [], ◌∷◌, arith,
}
use assignment_logger_analyz.Aggregator.BucketTable.{
  BucketStat, empty_stat, Entries, Buckets, no_buckets, inc_at, lower_bound, key_at, insert_at,
  bucket_for, bump_at, bump,
}

-- The counts of the hour `key`.
unfoldable pub stat_of : Entries → ℕ → Option BucketStat
stat_of [] key = none
stat_of ((k, b) ∷ es) key = let later = stat_of es key in if k == key then some b else later

abbrev pub or_empty : Option BucketStat → BucketStat
or_empty none = empty_stat
or_empty (some b) = b

abbrev pub counted : ℕ → BucketStat → BucketStat
counted mi b = record { module_count = inc_at mi b.module_count; total = b.total + 1 }

-- All keys are larger.
abbrev pub Above : ℕ → Entries → Type 0
Above key [] = key ≡ key
Above key ((k, b) ∷ es) = (key < k) × Above key es

abbrev pub Sorted : Entries → Type 0
Sorted [] = true ≡ true
Sorted ((k, b) ∷ es) = Above k es × Sorted es

-- The entries that `bucket_for` leaves, and that its first test does not answer for.
abbrev touched : Entries → ℕ → Entries
touched es key =
    if key_at es (lower_bound es key) key
    then es
    else insert_at (lower_bound es key) (key, empty_stat) es

key_at-touched : (es : Entries) (key : ℕ) → key_at (touched es key) (lower_bound es key) key ≡ true
unfolding lower_bound key_at insert_at
key_at-touched [] key = ground arith
key_at-touched ((k, b) ∷ es) key = elim (Bool-cases (ltb k key)) [
  | inl e ↦
      let ih = key_at-touched es key in
      elim (Bool-cases (key_at es (lower_bound es key) key)) [
        | inl c ↦ rw (e, c) c
        | inr c ↦ rw (e, c) (rw c at ih)
      ]
  | inr e ↦ elim (Bool-cases (k == key)) [ inl c ↦ rw (e, c) c | inr c ↦ rw (e, c) (ground arith) ]
]

Above-touched : (k : ℕ) (es : Entries) (key : ℕ) → k < key → Above k es → Above k (touched es key)
unfolding lower_bound key_at insert_at
Above-touched k [] key l a = (l, refl)
Above-touched k ((k', b) ∷ es) key l a = elim (Bool-cases (ltb k' key)) [
  | inl e ↦
      let ih = Above-touched k es key l a.1 in
      elim (Bool-cases (key_at es (lower_bound es key) key)) [
        | inl c ↦ rw (e, c) a
        | inr c ↦ rw (e, c) (a.0, rw c at ih)
      ]
  | inr e ↦ elim (Bool-cases (k' == key)) [ inl c ↦ rw (e, c) a | inr c ↦ rw (e, c) (l, a) ]
]

Above-less : (k k' : ℕ) (es : Entries) → k < k' → Above k' es → Above k es
Above-less k k' [] l a = refl
Above-less k k' ((k'', b) ∷ es) l a = (omega (arith, l, a.0), Above-less k k' es l a.1)

Sorted-touched : (es : Entries) (key : ℕ) → Sorted es → Sorted (touched es key)
unfolding lower_bound key_at insert_at
Sorted-touched [] key s = (refl, refl)
Sorted-touched ((k, b) ∷ es) key s = elim (Bool-cases (ltb k key)) [
  | inl e ↦
      let ih = Sorted-touched es key s.1 in
      let above = Above-touched k es key (ltb→lt _ _ e) s.0 in
      elim (Bool-cases (key_at es (lower_bound es key) key)) [
        | inl c ↦ rw (e, c) s
        | inr c ↦ rw (e, c) (rw c at above, rw c at ih)
      ]
  | inr e ↦ elim (Bool-cases (k == key)) [
    | inl c ↦ rw (e, c) s
    | inr c ↦ let l : key < k = ground arith in rw (e, c) ((l, Above-less key k es l s.0), s)
  ]
]

stat_of-Above : (key : ℕ) (es : Entries) → Above key es → stat_of es key ≡ none
unfolding stat_of
stat_of-Above key [] a = refl
stat_of-Above key ((k, b) ∷ es) a =
    if-cases (λ t. t ≡ none) (k == key) (λ e. absurd (differ e a.0)) (λ _. stat_of-Above key es a.1)
  where
    differ : (k == key) ≡ true → key < k → ⊥
    differ e l = ground arith

-- An entry that is added counts nothing yet.
stat_of-touched :
    (es : Entries) (key k' : ℕ)
    → Sorted es
    → or_empty (stat_of (touched es key) k') ≡ or_empty (stat_of es k')
unfolding lower_bound key_at insert_at stat_of
stat_of-touched [] key k' s =
    if-cases (λ t. or_empty t ≡ empty_stat) (key == k') (λ _. refl) (λ _. refl)
stat_of-touched ((k, b) ∷ es) key k' s = elim (Bool-cases (ltb k key)) [
  | inl e ↦
      let ih = stat_of-touched es key k' s.1 in
      elim (Bool-cases (key_at es (lower_bound es key) key)) [
        | inl c ↦ rw (e, c) refl
        | inr c ↦ elim (Bool-cases (k == k')) [
          | inl f ↦ rw (e, c, f) refl
          | inr f ↦ rw (e, c, f) (rw c at ih)
        ]
      ]
  | inr e ↦ elim (Bool-cases (k == key)) [
    | inl c ↦ rw (e, c) refl
    | inr c ↦ elim (Bool-cases (key == k')) [
      | inr f ↦ rw (e, c, f) refl
      | inl f ↦
          let l : k' < k = ground arith in
          let none_there = stat_of-Above k' ((k, b) ∷ es) (l, Above-less k' k es l s.0) in
          rw (e, c, f) (sym (ap or_empty none_there))
    ]
  ]
]

Above-key_at : (k : ℕ) (es : Entries) (i key : ℕ) → Above k es → key_at es i key ≡ true → k < key
unfolding key_at
Above-key_at k [] i key a e = absurd (ground arith)
Above-key_at k ((k', b) ∷ es) zero key a e =
    let same : k' ≡ key = ground arith in omega (arith, a.0, same)
Above-key_at k ((k', b) ∷ es) (suc i) key a e = Above-key_at k es i key a.1 e

-- Counting at the place of `key` changes what is found for `key`, and nothing else.
stat_of-bump_at :
    (es : Entries) (i key mi k' : ℕ)
    → Sorted es
    → key_at es i key ≡ true
    → or_empty (stat_of (bump_at es i mi) k')
      ≡ (if key == k' then counted mi (or_empty (stat_of es k')) else or_empty (stat_of es k'))
unfolding key_at bump_at stat_of
stat_of-bump_at [] i key mi k' s e = absurd (ground arith)
stat_of-bump_at ((k, b) ∷ es) zero key mi k' s e = elim (Bool-cases (key == k')) [
  | inl f ↦ let g : (k == k') ≡ true = ground arith in rw (f, g) refl
  | inr f ↦ let g : (k == k') ≡ false = ground arith in rw (f, g) refl
]
stat_of-bump_at ((k, b) ∷ es) (suc i) key mi k' s e =
    let l = Above-key_at k es i key s.0 e in
    let ih = stat_of-bump_at es i key mi k' s.1 e in
    elim (Bool-cases (k == k')) [
      | inl f ↦ let g : (key == k') ≡ false = ground arith in rw (f, g) refl
      | inr f ↦ rw f ih
    ]

Above-bump_at : (k : ℕ) (es : Entries) (i mi : ℕ) → Above k es → Above k (bump_at es i mi)
unfolding bump_at
Above-bump_at k [] i mi a = a
Above-bump_at k ((k', b) ∷ es) zero mi a = a
Above-bump_at k ((k', b) ∷ es) (suc i) mi a = (a.0, Above-bump_at k es i mi a.1)

Sorted-bump_at : (es : Entries) (i mi : ℕ) → Sorted es → Sorted (bump_at es i mi)
unfolding bump_at
Sorted-bump_at [] i mi s = s
Sorted-bump_at ((k, b) ∷ es) zero mi s = s
Sorted-bump_at ((k, b) ∷ es) (suc i) mi s =
    (Above-bump_at k es i mi s.0, Sorted-bump_at es i mi s.1)

key_at-bump_at : (es : Entries) (i mi j key : ℕ) → key_at (bump_at es i mi) j key ≡ key_at es j key
unfolding bump_at key_at
key_at-bump_at [] i mi j key = refl
key_at-bump_at ((k, b) ∷ es) zero mi zero key = refl
key_at-bump_at ((k, b) ∷ es) zero mi (suc j) key = refl
key_at-bump_at ((k, b) ∷ es) (suc i) mi zero key = refl
key_at-bump_at ((k, b) ∷ es) (suc i) mi (suc j) key = key_at-bump_at es i mi j key

-- The entries are sorted by hour, and the place that is remembered is the place of its hour.
pub record Indexed (b : Buckets) : Type 0 where
  pub sorted : Sorted b.entries
  pub remembered : b.has_last ≡ true → key_at b.entries b.last_index b.last_key ≡ true

pub no_buckets-Indexed : Indexed no_buckets
no_buckets-Indexed = record { sorted = refl; remembered = λ e. absurd (ground arith) }

-- One line of the hour `key` and the module `mi`, as `add_line` counts it.
abbrev pub count_line : Buckets → ℕ → ℕ → Buckets
count_line b key mi = let (b', i) = bucket_for b key in bump b' i mi

-- The bucket that an access finds.
record Found (b : Buckets) (key : ℕ) (r : Buckets × ℕ) : Type 0 where
  indexed : Indexed r.0
  place : key_at r.0.entries r.1 key ≡ true
  kept : (k' : ℕ) → or_empty (stat_of r.0.entries k') ≡ or_empty (stat_of b.entries k')

bucket_for-Found : (b : Buckets) (key : ℕ) → Indexed b → Found b key (bucket_for b key)
unfolding bucket_for
bucket_for-Found b key x =
    if-cases (Found b key) (b.has_last && b.last_key == key)
      (λ e. record { indexed = x; place = cached (both e); kept = λ k'. refl })
      (λ e. record {
        indexed = record {
          sorted = Sorted-touched b.entries key x.sorted;
          remembered = λ _. key_at-touched b.entries key;
        };
        place = key_at-touched b.entries key;
        kept = λ k'. stat_of-touched b.entries key k' x.sorted;
      })
  where
    both : (b.has_last && b.last_key == key) ≡ true → (b.has_last ≡ true) × (b.last_key ≡ key)
    both e = ground arith

    cached : (b.has_last ≡ true) × (b.last_key ≡ key) → key_at b.entries b.last_index key ≡ true
    cached (l, k) = subst (λ t. key_at b.entries b.last_index t ≡ true) k (x.remembered l)

bump-Indexed : (b : Buckets) (i mi : ℕ) → Indexed b → Indexed (bump b i mi)
unfolding bump
bump-Indexed b i mi x = record {
  sorted = Sorted-bump_at b.entries i mi x.sorted;
  remembered = λ e. key_at-bump_at b.entries i mi b.last_index b.last_key ∙ x.remembered e;
}

-- A line that is counted keeps the entries sorted and the remembered place right.
pub count_line-Indexed : (b : Buckets) (key mi : ℕ) → Indexed b → Indexed (count_line b key mi)
count_line-Indexed b key mi x = bump-Indexed _ _ mi (bucket_for-Found b key x).indexed

-- On sorted entries with the remembered place right, a line of the hour `key` adds one to that hour's counts of its module and in all, which are 0 where
-- there was no bucket, and leaves every other hour's counts: the remembered place and the sorted
-- vector answer as a map would.
pub count_line-stat_of :
    (b : Buckets) (key mi k' : ℕ)
    → Indexed b
    → or_empty (stat_of (count_line b key mi).entries k') ≡ (
        if key == k'
        then counted mi (or_empty (stat_of b.entries k'))
        else or_empty (stat_of b.entries k'))
unfolding bump
count_line-stat_of b key mi k' x =
    let f = bucket_for-Found b key x in
    stat_of-bump_at (bucket_for b key).0.entries (bucket_for b key).1 key mi k' f.indexed.sorted
      f.place
    ∙ ap (λ t. if key == k' then counted mi t else t) (f.kept k')
