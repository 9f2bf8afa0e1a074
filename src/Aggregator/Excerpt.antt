-- ===== src/Aggregator/Excerpt.antt =====
-- `escape_excerpt` of Aggregator.cpp: a line made printable and short.
pub mod Bounds
use assignment_logger_analyz.Prelude.{
  ℕ, ◌+◌, ◌-◌, ◌/◌, ◌%◌, ltb, leb, if◌then◌else◌, ◌&&◌, [], ◌∷◌, ◌++◌, Bytes, codes, length,
}

-- %X
unfoldable pub hex_digit : ℕ → ℕ
hex_digit n = if ltb n 10 then b'0' + n else b'A' + (n - 10)

unfoldable pub escape_byte : ℕ → Bytes
unfolding hex_digit
escape_byte c =
    if leb 0x20 c && ltb c 0x7F
    then c ∷ []
    else b'\\' ∷ b'x' ∷ hex_digit (c / 16) ∷ hex_digit (c % 16) ∷ []

-- The loop, with what it has put out so far.
unfoldable pub escape_loop : ℕ → Bytes → Bytes → Bytes
escape_loop max_len out [] = out
escape_loop max_len out (c ∷ line) =
    let more = escape_loop max_len (out ++ escape_byte c) line in
    if ltb (length out) max_len then more else out

unfoldable pub escape_excerpt : Bytes → Bytes
unfolding escape_loop escape_byte
escape_excerpt line =
    let out = escape_loop 160 [] line in if ltb 160 (length line) then out ++ codes "..." else out
