-- ===== src/Splitter.antt =====
-- LineSplitter, 01.Sources/SERVER/src/parse/LineSplitter.h: pieces of a stream to lines. A piece from
-- `data + pos` on is a list, and the calls of `on_line` are returned in order. The counters count
-- lines that were received, fewer than 2 ^ 64, so their sums are left unwrapped.
pub mod Segments
pub mod Stream
pub mod Counts
use assignment_logger_analyz.Prelude.{
  ℕ, zero, suc, ◌+◌, ltb, ◌==◌, if◌then◌else◌, Bool, true, false, Option, none, some, List, [], ◌∷◌,
  ◌++◌, Bytes, length,
}

abbrev pub newline : ℕ
newline = b'\n'

abbrev pub default_max_line : ℕ
default_max_line = 8192

pub record Splitter : Type 0 where
  pub max_line : ℕ
  pub carry : Bytes
  pub discarding : Bool
  pub lines : ℕ
  pub oversize : ℕ

-- One call of `on_line`: the line, and its bytes in the stream with the newline and the CR.
pub record Line : Type 0 where
  pub text : Bytes
  pub raw_bytes : ℕ

abbrev pub new_splitter : ℕ → Splitter
new_splitter max_line = record {
  max_line = max_line;
  carry = [];
  discarding = false;
  lines = 0;
  oversize = 0;
}

unfoldable pub reset : Splitter → Splitter
reset s = record s { carry = []; discarding = false; lines = 0; oversize = 0 }

abbrev pub cons_first : ℕ → Option (Bytes × Bytes) → Option (Bytes × Bytes)
cons_first c none = none
cons_first c (some (line, rest)) = some (c ∷ line, rest)

-- `memchr` for the newline, as the bytes in front of it and those behind it.
unfoldable pub split_line : Bytes → Option (Bytes × Bytes)
split_line [] = none
split_line (c ∷ cs) = if c == newline then some ([], cs) else cons_first c (split_line cs)

-- remove_suffix(1) at a final CR
unfoldable pub strip_cr : Bytes → Bytes
strip_cr [] = []
strip_cr (c ∷ []) = if c == b'\r' then [] else c ∷ []
strip_cr (c ∷ d ∷ cs) = c ∷ strip_cr (d ∷ cs)

unfoldable pub emit : Splitter → Bytes → ℕ → Splitter × Line
emit s line raw_bytes =
    (record s { lines = s.lines + 1 }, record { text = strip_cr line; raw_bytes = raw_bytes })

abbrev pub emit_then : Splitter × Line → (Splitter → Splitter × List Line) → Splitter × List Line
emit_then (s, line) next = let (s', rest) = next s in (s', line ∷ rest)

unfoldable pub keep_tail : Splitter → Bytes → Splitter
keep_tail s [] = s
keep_tail s (c ∷ tail) =
    if ltb s.max_line (length (c ∷ tail))
    then record s { oversize = s.oversize + 1; discarding = true }
    else record s { carry = c ∷ tail }

-- The loop over the lines that lie whole in the piece, with fuel, and the tail behind them.
unfoldable pub scan : ℕ → Splitter → Bytes → Splitter × List Line
unfolding emit
scan zero s rest = (keep_tail s rest, [])
scan (suc fuel) s rest = elim (split_line rest) [
  | none ↦ (keep_tail s rest, [])
  | some (line, rest') ↦ emit_then (emit s line (length line + 1)) (λ s'. scan fuel s' rest')
]

-- A carry with no newline behind it grows, or is given up.
unfoldable pub extend_carry : Splitter → Bytes → Splitter
extend_carry s rest =
    if ltb s.max_line (length s.carry + length rest)
    then record s { oversize = s.oversize + 1; carry = []; discarding = true }
    else record s { carry = s.carry ++ rest }

-- The line that the carry begins and `line` ends.
unfoldable pub end_carry :
    Splitter → Bytes → (Splitter → Splitter × List Line) → Splitter × List Line
unfolding emit
end_carry s line next =
    if ltb s.max_line (length s.carry + length line)
    then next (record s { oversize = s.oversize + 1; carry = [] })
    else emit_then
        (emit (record s { carry = [] }) (s.carry ++ line) (length s.carry + length line + 1)) next

unfoldable pub feed_carry : Bytes → Splitter → Bytes → Splitter × List Line
feed_carry [] s rest = scan (length rest) s rest
feed_carry (c ∷ carry) s rest = elim (split_line rest) [
  | none ↦ (extend_carry s rest, [])
  | some (line, rest') ↦ end_carry s line (λ s'. scan (length rest') s' rest')
]

unfoldable pub feed_discarding : Bool → Splitter → Bytes → Splitter × List Line
feed_discarding false s piece = feed_carry s.carry s piece
feed_discarding true s piece = elim (split_line piece) [
  | none ↦ (s, [])
  | some (line, rest) ↦ feed_carry s.carry (record s { discarding = false }) rest
]

unfoldable pub feed : Splitter → Bytes → Splitter × List Line
feed s piece = feed_discarding s.discarding s piece

unfoldable pub finish_carry : Bytes → Splitter → Splitter × List Line
unfolding emit
finish_carry [] s = (record s { discarding = false }, [])
finish_carry (c ∷ carry) s =
    emit_then (emit s s.carry (length s.carry))
      (λ s'. (record s' { carry = []; discarding = false }, []))

unfoldable pub finish : Splitter → Splitter × List Line
finish s = finish_carry s.carry s
