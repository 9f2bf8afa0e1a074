-- ===== src/Aggregator/Excerpt/Bounds.antt =====
-- An excerpt is printable and short, whatever the line.
use assignment_logger_analyz.Prelude.{
  ℕ, ◌+◌, ◌/◌, ◌%◌, ◌≤◌, ◌<◌, if-cases, ltb, leb, ltb→lt, ◌&&◌, [], ◌∷◌, ◌++◌, Bytes, codes,
  AllBytes, length, length-append, arith,
}
use assignment_logger_analyz.Aggregator.Excerpt.{
  hex_digit, escape_byte, escape_loop, escape_excerpt,
}

abbrev pub Printable : Bytes → Type 0
Printable [] = Unit {0}
Printable (c ∷ cs) = (0x20 ≤ c) × (c < 0x7F) × Printable cs

Printable-append : (xs ys : Bytes) → Printable xs → Printable ys → Printable (xs ++ ys)
Printable-append [] ys p q = q
Printable-append (x ∷ xs) ys p q = (p.0, p.1, Printable-append xs ys p.2 q)

-- Printable, and no longer than `n`.
abbrev pub Neat : ℕ → Bytes → Type 0
Neat n out = Printable out × (length out ≤ n)

hex_digit-range : (n : ℕ) → n < 16 → (0x20 ≤ hex_digit n) × (hex_digit n < 0x7F)
unfolding hex_digit
hex_digit-range n l = (ground arith, ground arith)

escape_byte-Neat : (c : ℕ) → c < 256 → Neat 4 (escape_byte c)
unfolding escape_byte
escape_byte-Neat c l =
    if-cases (Neat 4) (leb 0x20 c && ltb c 0x7F)
      (λ e. ((ground arith, ground arith, tt), omega arith))
      (λ _. (
        (
          omega arith,
          omega arith,
          (omega arith, omega arith, (high.0, high.1, (low.0, low.1, tt))),
        ),
        omega arith,
      ))
  where
    high : (0x20 ≤ hex_digit (c / 16)) × (hex_digit (c / 16) < 0x7F)
    high = hex_digit-range (c / 16) (omega arith)

    low : (0x20 ≤ hex_digit (c % 16)) × (hex_digit (c % 16) < 0x7F)
    low = hex_digit-range (c % 16) (omega arith)

escape_loop-Neat :
    (max_len : ℕ) (out line : Bytes)
    → AllBytes line
    → Neat (max_len + 3) out
    → Neat (max_len + 3) (escape_loop max_len out line)
unfolding escape_loop
escape_loop-Neat m out [] a n = n
escape_loop-Neat m out (c ∷ line) a n =
    if-cases (Neat (m + 3)) (ltb (length out) m)
      (λ e.
        let b = escape_byte-Neat c a.0 in
        escape_loop-Neat m (out ++ escape_byte c) line a.1 (
          Printable-append out (escape_byte c) n.0 b.0,
          omega (arith, length-append out (escape_byte c), b.1, ltb→lt _ _ e),
        ))
      (λ _. n)

-- The excerpt of a line of bytes is printable ASCII, and has at most 166 characters.
pub escape_excerpt-Neat : (line : Bytes) → AllBytes line → Neat 166 (escape_excerpt line)
unfolding escape_excerpt
escape_excerpt-Neat line a =
    let n = escape_loop-Neat 160 [] line a (tt, omega arith) in
    if-cases (Neat 166) (ltb 160 (length line))
      (λ _. (
        Printable-append (escape_loop 160 [] line) (codes "...") n.0 dots,
        omega (arith, length-append (escape_loop 160 [] line) (codes "..."), n.1),
      ))
      (λ _. (n.0, omega (arith, n.1)))
  where
    dots : Printable (codes "...")
    dots = (omega arith, omega arith, (omega arith, omega arith, (omega arith, omega arith, tt)))
