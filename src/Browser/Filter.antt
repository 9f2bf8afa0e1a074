-- ===== src/Browser/Filter.antt =====
-- The search of the browser's filter, contains_nocase, against what it looks for.
use assignment_logger_analyz.Prelude.{
  ℕ, suc, ◌≡◌, ◌≤◌, refl, sym, subst, ap, ◌∙◌, true, false, ltb, if◌then◌else◌, Bool-cases, inl,
  inr, [], ◌∷◌, ◌++◌, Bytes, length, length-append, arith,
}
use mathlib.Core.List.{cons≢nil, head-eq_of_cons-eq, tail-eq_of_cons-eq}
use assignment_logger_analyz.Browser.{lower, matches, search_from, contains_nocase}

-- A text in lower case.
abbrev pub lowered : Bytes → Bytes
lowered [] = []
lowered (c ∷ cs) = lower c ∷ lowered cs

-- A place of the text where the needle stands, in whatever case.
abbrev pub Occurs : Bytes → Bytes → Type 0
Occurs needle hay =
    (front : Bytes) × (found : Bytes) × (back : Bytes) × (hay ≡ front ++ (found ++ back))
    × (lowered found ≡ lowered needle)

matches-found :
    (needle rest : Bytes)
    → matches needle rest ≡ true
    → (found : Bytes) × (back : Bytes) × (rest ≡ found ++ back) × (lowered found ≡ lowered needle)
unfolding matches
matches-found [] rest e = ([], rest, refl, refl)
matches-found (n ∷ needle) [] e = absurd (ground (arith, e))
matches-found (n ∷ needle) (c ∷ rest) e =
    let same : lower c ≡ lower n = ground (arith, e) in
    let (found, back, cut, low) = matches-found needle rest (ground (arith, e)) in
    (
      c ∷ found,
      back,
      ap (λ t. c ∷ t) cut,
      ap (λ x. x ∷ lowered found) same ∙ ap (λ t. lower n ∷ t) low,
    )

found-matches :
    (needle found back : Bytes)
    → lowered found ≡ lowered needle
    → matches needle (found ++ back) ≡ true
unfolding matches
found-matches [] found back e = refl
found-matches (n ∷ needle) [] back e = absurd (cons≢nil (sym e))
found-matches (n ∷ needle) (c ∷ found) back e =
    let same : lower c ≡ lower n = head-eq_of_cons-eq e in
    let rest = found-matches needle found back (tail-eq_of_cons-eq e) in ground (arith, same, rest)

search_from-Occurs : (needle hay : Bytes) → search_from needle hay ≡ true → Occurs needle hay
unfolding search_from
search_from-Occurs needle [] e = absurd (ground (arith, e))
search_from-Occurs needle (c ∷ rest) e = elim (Bool-cases (matches needle (c ∷ rest))) [
  | inl m ↦
      (let (found, back, cut, low) = matches-found needle (c ∷ rest) m in
        ([], found, back, cut, low))
  | inr m ↦
      (let (front, found, back, cut, low) = search_from-Occurs needle rest (ground (arith, e, m)) in
        (c ∷ front, found, back, ap (λ t. c ∷ t) cut, low))
]

length-lowered : (s : Bytes) → length (lowered s) ≡ length s
length-lowered [] = refl
length-lowered (c ∷ s) = ap suc (length-lowered s)

-- There is room for the needle where it occurs.
room :
    (needle front found back : Bytes)
    → lowered found ≡ lowered needle
    → length needle ≤ length (front ++ (found ++ back))
room needle front found back e = omega (
  arith,
  length-append front (found ++ back),
  length-append found back,
  length-lowered found,
  length-lowered needle,
  ap length e,
)

Occurs-search_from :
    (n : ℕ) (needle front found back : Bytes)
    → lowered found ≡ lowered (n ∷ needle)
    → search_from (n ∷ needle) (front ++ (found ++ back)) ≡ true
unfolding search_from
Occurs-search_from n needle [] [] back e = absurd (cons≢nil (sym e))
Occurs-search_from n needle [] (c ∷ found) back e =
    let wide = room (n ∷ needle) [] (c ∷ found) back e in
    let here = found-matches (n ∷ needle) (c ∷ found) back e in ground (arith, wide, here)
Occurs-search_from n needle (c ∷ front) found back e =
    let wide = room (n ∷ needle) (c ∷ front) found back e in
    let later = Occurs-search_from n needle front found back e in ground (arith, wide, later)

-- The filter finds a needle exactly where it occurs in the name, in whatever case.
pub contains_nocase-Occurs :
    (hay needle : Bytes)
    → (contains_nocase hay needle ≡ true → Occurs needle hay)
      × (Occurs needle hay → contains_nocase hay needle ≡ true)
unfolding contains_nocase
contains_nocase-Occurs hay [] = (λ e. ([], [], hay, refl, refl), λ o. refl)
contains_nocase-Occurs hay (n ∷ needle) = (
  λ e. search_from-Occurs (n ∷ needle) hay (ground (arith, e)),
  λ o.
      (let (front, found, back, cut, low) = o in
        let wide = room (n ∷ needle) front found back low in
        let there = Occurs-search_from n needle front found back low in
        subst
          (λ h.
            (if ltb (length h) (length (n ∷ needle)) then false else search_from (n ∷ needle) h)
            ≡ true)
          (sym cut) (ground (arith, wide, there))),
)
