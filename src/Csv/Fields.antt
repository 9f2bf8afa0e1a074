-- ===== src/Csv/Fields.antt =====
-- A field that `csv_quote` writes is read back by a reader of RFC 4180.
use assignment_logger_analyz.Prelude.{
  ℕ, ◌≡◌, refl, ◌==◌, ◌||◌, if◌then◌else◌, if-cases, Bool-cases, inl, inr, Bool, true, false,
  Option, none, some, [], ◌∷◌, ◌++◌, append_assoc, Bytes, arith,
}
use assignment_logger_analyz.Csv.Quote.{needs_quote, doubled, csv_quote, quote}

abbrev with_first : ℕ → Option (Bytes × Bytes) → Option (Bytes × Bytes)
with_first c none = none
with_first c (some (field, rest)) = some (c ∷ field, rest)

-- What ends a field: a comma, or the CR or LF that ends the record.
abbrev is_separator : ℕ → Bool
is_separator c = c == b',' || (c == b'\r' || c == b'\n')

-- What may follow a field: nothing, or what ends it.
abbrev pub Ends : Bytes → Type 0
Ends [] = Unit {0}
Ends (c ∷ s) = is_separator c ≡ true

-- A quoted field behind its first quote, and what follows it; the flag says that a quote was just read,
-- which is doubled or ends the field.
unfoldable read_quoted : Bool → Bytes → Option (Bytes × Bytes)
read_quoted false [] = none
read_quoted true [] = some ([], [])
read_quoted false (c ∷ s) =
    let ended = read_quoted true s in
    let more = read_quoted false s in if c == b'"' then ended else with_first c more
read_quoted true (c ∷ s) =
    let more = read_quoted false s in
    if c == b'"' then with_first c more else if is_separator c then some ([], c ∷ s) else none

-- A field that is not quoted: it ends at a comma, at CR or at LF, and no quote may stand in it.
unfoldable read_plain : Bytes → Option (Bytes × Bytes)
read_plain [] = some ([], [])
read_plain (c ∷ s) =
    let more = read_plain s in
    if is_separator c then some ([], c ∷ s) else if c == b'"' then none else with_first c more

-- A field of RFC 4180, quoted or not, at the beginning of a text, and what follows it.
unfoldable pub read_field : Bytes → Option (Bytes × Bytes)
unfolding read_quoted read_plain
read_field [] = some ([], [])
read_field (c ∷ s) = if c == b'"' then read_quoted false s else read_plain (c ∷ s)

read_quoted-end : (rest : Bytes) → Ends rest → read_quoted true rest ≡ some ([], rest)
unfolding read_quoted
read_quoted-end [] e = refl
read_quoted-end (c ∷ s) e = let q : (c == b'"') ≡ false = ground arith in rw (q, e) refl

read_quoted-doubled :
    (s rest : Bytes) → Ends rest → read_quoted false (doubled s ++ (quote ++ rest)) ≡ some (s, rest)
unfolding read_quoted doubled
read_quoted-doubled [] rest e = read_quoted-end rest e
read_quoted-doubled (c ∷ s) rest e = elim (Bool-cases (c == b'"')) [
  | inl q ↦ rw (q, q, read_quoted-doubled s rest e) refl
  | inr q ↦ rw (q, q, read_quoted-doubled s rest e) refl
]

needs_quote-clean :
    (c : ℕ) (s : Bytes)
    → needs_quote (c ∷ s) ≡ false
    → (is_separator c ≡ false) × ((c == b'"') ≡ false) × (needs_quote s ≡ false)
unfolding needs_quote
needs_quote-clean c s n = (ground arith, ground arith, ground arith)

read_plain-end : (rest : Bytes) → Ends rest → read_plain rest ≡ some ([], rest)
unfolding read_plain
read_plain-end [] e = refl
read_plain-end (c ∷ s) e = rw e refl

read_plain-clean :
    (s rest : Bytes) → Ends rest → needs_quote s ≡ false → read_plain (s ++ rest) ≡ some (s, rest)
unfolding read_plain needs_quote
read_plain-clean [] rest e n = read_plain-end rest e
read_plain-clean (c ∷ s) rest e n =
    let clean = needs_quote-clean c s n in
    rw (clean.0, clean.1, read_plain-clean s rest e clean.2) refl

read_field-end : (rest : Bytes) → Ends rest → read_field rest ≡ some ([], rest)
unfolding read_field read_plain
read_field-end [] e = refl
read_field-end (c ∷ s) e = let q : (c == b'"') ≡ false = ground arith in rw (q, e) refl

read_field-clean :
    (s rest : Bytes) → Ends rest → needs_quote s ≡ false → read_field (s ++ rest) ≡ some (s, rest)
unfolding read_field read_plain
read_field-clean [] rest e n = read_field-end rest e
read_field-clean (c ∷ s) rest e n =
    let clean = needs_quote-clean c s n in
    rw (clean.1, clean.0, read_plain-clean s rest e clean.2) refl

-- A field that was quoted where it needs to be is read back as it was, whatever it holds, by a reader for
-- which a comma, CR or LF ends a field that is not quoted. The reader stops at what follows the field,
-- where that is a comma, CR or LF, or the end of the text.
pub read_field-csv_quote :
    (s rest : Bytes) → Ends rest → read_field (csv_quote s ++ rest) ≡ some (s, rest)
unfolding csv_quote read_field
read_field-csv_quote s rest e =
    if-cases (λ f. read_field (f ++ rest) ≡ some (s, rest)) (needs_quote s) (λ _. quoted)
      (λ n. read_field-clean s rest e n)
  where
    quoted : read_field ((quote ++ (doubled s ++ quote)) ++ rest) ≡ some (s, rest)
    quoted = rw (append_assoc (doubled s) quote rest) (read_quoted-doubled s rest e)
