-- ===== src/Splitter/Segments.antt =====
-- The lines of a stream and the tail behind its last newline, with no regard to pieces or limits.
use assignment_logger_analyz.Prelude.{
  ℕ, suc, ◌+◌, ◌≤◌, ◌≡◌, refl, subst, ◌==◌, if◌then◌else◌, false, Bool-cases, inl, inr, Option,
  none, some, List, [], ◌∷◌, ◌++◌, Bytes, length, arith,
}
use assignment_logger_analyz.Splitter.{newline, split_line, cons_first}

abbrev pub push : ℕ → List Bytes × Bytes → List Bytes × Bytes
push c ([], tail) = ([], c ∷ tail)
push c (line ∷ lines, tail) = ((c ∷ line) ∷ lines, tail)

abbrev pub begin_line : List Bytes × Bytes → List Bytes × Bytes
begin_line (lines, tail) = ([] ∷ lines, tail)

unfoldable pub segments : Bytes → List Bytes × Bytes
segments [] = ([], [])
segments (c ∷ cs) =
    let later = segments cs in if c == newline then begin_line later else push c later

-- What a part of a stream leaves, and the rest makes of it.
abbrev pub join : List Bytes → List Bytes × Bytes → List Bytes × Bytes
join lines (more, tail) = (lines ++ more, tail)

pub split_line-none : (xs : Bytes) → split_line xs ≡ none → segments xs ≡ ([], xs)
unfolding segments split_line
split_line-none [] e = refl
split_line-none (c ∷ cs) e = ground (arith, split_line-none cs)

abbrev Splits : Bytes → Bytes → Bytes → Type 0
Splits xs line rest =
    (segments xs ≡ join (line ∷ []) (segments rest)) × (length xs ≡ length line + 1 + length rest)

split_line_cons :
    (c : ℕ) (cs : Bytes) (o : Option (Bytes × Bytes)) (line rest : Bytes)
    → (c == newline) ≡ false
    → ((l r : Bytes) → o ≡ some (l, r) → Splits cs l r)
    → cons_first c o ≡ some (line, rest)
    → Splits (c ∷ cs) line rest
unfolding segments
split_line_cons c cs none line rest t ih g = cc
split_line_cons c cs (some (l, r)) line rest t ih g = ground (arith, ih l r refl)

pub split_line-some :
    (xs line rest : Bytes) → split_line xs ≡ some (line, rest) → Splits xs line rest
unfolding segments split_line
split_line-some [] line rest e = cc
split_line-some (c ∷ cs) line rest e = elim (Bool-cases (c == newline)) [
  | inl t ↦ ground arith
  | inr t ↦ split_line_cons c cs (split_line cs) line rest t (split_line-some cs) (ground arith)
]

-- With no newline in front, the first line of the rest begins there.
pub split_line-append_none :
    (x y : Bytes) → split_line x ≡ none → split_line y ≡ none → split_line (x ++ y) ≡ none
unfolding split_line
split_line-append_none [] y e f = f
split_line-append_none (c ∷ x) y e f = ground (arith, split_line-append_none x y)

pub split_line-append_some :
    (x y line rest : Bytes)
    → split_line x ≡ none
    → split_line y ≡ some (line, rest)
    → split_line (x ++ y) ≡ some (x ++ line, rest)
unfolding split_line
split_line-append_some [] y line rest e f = f
split_line-append_some (c ∷ x) y line rest e f =
    ground (arith, split_line-append_some x y line rest)

push-join :
    (c : ℕ) (y : Bytes) (s w : List Bytes × Bytes)
    → (c == newline) ≡ false
    → w ≡ join s.0 (segments (s.1 ++ y))
    → push c w ≡ join (push c s).0 (segments ((push c s).1 ++ y))
unfolding segments
push-join c y ([], tail) w t e = rw (t, e) refl
push-join c y (line ∷ lines, tail) w t e = rw e refl

-- The segments of a stream in two parts: those that end in the first part, and those of the tail
-- of the first part with the second part behind it.
pub segments-append :
    (x y : Bytes) → segments (x ++ y) ≡ join (segments x).0 (segments ((segments x).1 ++ y))
unfolding segments
segments-append [] y = refl
segments-append (c ∷ x) y = elim (Bool-cases (c == newline)) [
  | inl t ↦ rw (t, segments-append x y) refl
  | inr t ↦ rw t (push-join c y (segments x) (segments (x ++ y)) t (segments-append x y))
]

split_line-push :
    (c : ℕ) (s : List Bytes × Bytes)
    → (c == newline) ≡ false
    → split_line s.1 ≡ none
    → split_line (push c s).1 ≡ none
unfolding split_line
split_line-push c ([], tail) t e = ground arith
split_line-push c (line ∷ lines, tail) t e = e

-- The tail has no newline.
pub split_line-tail : (x : Bytes) → split_line (segments x).1 ≡ none
unfolding segments split_line
split_line-tail [] = refl
split_line-tail (c ∷ x) = elim (Bool-cases (c == newline)) [
  | inl t ↦ rw t (split_line-tail x)
  | inr t ↦ rw t (split_line-push c (segments x) t (split_line-tail x))
]

-- What the first segment is, or the tail if there is none.
abbrev first : List Bytes × Bytes → Bytes
first ([], tail) = tail
first (line ∷ lines, tail) = line

abbrev pub AllShort : ℕ → List Bytes → Type 0
AllShort m [] = Unit {0}
AllShort m (l ∷ ls) = (length l ≤ m) × AllShort m ls

-- No segment is longer than `m`.
abbrev pub Short : ℕ → List Bytes × Bytes → Type 0
Short m (lines, tail) = AllShort m lines × (length tail ≤ m)

length-first : (m : ℕ) (s : List Bytes × Bytes) → Short m s → length (first s) ≤ m
length-first m ([], tail) h = h.1
length-first m (line ∷ lines, tail) h = h.0.0

first-push : (c : ℕ) (s : List Bytes × Bytes) → length (first (push c s)) ≡ suc (length (first s))
first-push c ([], tail) = refl
first-push c (line ∷ lines, tail) = refl

-- A part with no newline stands in the first segment.
length-le-first :
    (t y : Bytes) → split_line t ≡ none → length t ≤ length (first (segments (t ++ y)))
unfolding segments split_line
length-le-first [] y e = omega arith
length-le-first (c ∷ t) y e = elim (Bool-cases (c == newline)) [
  | inl n ↦ ground arith
  | inr n ↦
      let e' : split_line t ≡ none = ground arith in
      rw n (omega (arith, first-push c (segments (t ++ y)), length-le-first t y e'))
]

AllShort-append :
    (m : ℕ) (xs ys : List Bytes) → AllShort m (xs ++ ys) → AllShort m xs × AllShort m ys
AllShort-append m [] ys h = (tt, h)
AllShort-append m (x ∷ xs) ys h =
    let later = AllShort-append m xs ys h.1 in ((h.0, later.0), later.1)

-- A part of a short stream is short.
pub Short-append :
    (m : ℕ) (x y : Bytes)
    → Short m (segments (x ++ y))
    → Short m (segments x) × Short m (segments ((segments x).1 ++ y))
Short-append m x y h = ((both.0, tail), later)
  where
    whole : Short m (join (segments x).0 (segments ((segments x).1 ++ y)))
    whole = subst (Short m) (segments-append x y) h

    both : AllShort m (segments x).0 × AllShort m (segments ((segments x).1 ++ y)).0
    both = AllShort-append m _ _ whole.0

    later : Short m (segments ((segments x).1 ++ y))
    later = (both.1, whole.1)

    tail : length (segments x).1 ≤ m
    tail = omega (
      arith,
      length-le-first (segments x).1 y (split_line-tail x),
      length-first m (segments ((segments x).1 ++ y)) later,
    )
