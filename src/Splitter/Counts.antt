-- ===== src/Splitter/Counts.antt =====
-- Every newline ends a line that was emitted or one that was given up, the carry stays within the
-- limit, and the limit holds only of lines that a piece cuts.
use assignment_logger_analyz.Prelude.{
  ℕ, zero, suc, ◌+◌, ◌≤◌, ◌<◌, ◌≡◌, refl, ap, inl, inr, Bool, true, false, ◌==◌, if◌then◌else◌,
  Bool-cases, Option-cases, Option, none, some, [], ◌∷◌, ◌++◌, append-nil, Bytes, length,
  length-append, arith,
}
use assignment_logger_analyz.Splitter.Segments.{split_line-some, split_line-append_some}
use assignment_logger_analyz.Splitter.{
  newline, Splitter, new_splitter, split_line, strip_cr, keep_tail, emit, scan, extend_carry,
  end_carry, feed_carry, feed_discarding, feed, cons_first,
}

pub newlines : Bytes → ℕ
newlines [] = 0
newlines (c ∷ cs) = (if c == newline then 1 else 0) + newlines cs

abbrev flag : Bool → ℕ
flag true = 1
flag false = 0

-- The newlines that were behind the lines so far: a line in discard is counted before its newline.
abbrev pub ended : Splitter → ℕ
ended s = s.lines + s.oversize

split_line-newlines : (xs : Bytes) → (split_line xs ≡ none → newlines xs ≡ 0)
unfolding split_line newlines
split_line-newlines [] e = refl
split_line-newlines (c ∷ cs) e = ground (arith, split_line-newlines cs)

cons_first-newlines :
    (c : ℕ) (cs : Bytes) (o : Option (Bytes × Bytes)) (line rest : Bytes)
    → (c == newline) ≡ false
    → ((l r : Bytes) → o ≡ some (l, r) → newlines cs ≡ 1 + newlines r)
    → cons_first c o ≡ some (line, rest)
    → newlines (c ∷ cs) ≡ 1 + newlines rest
unfolding newlines
cons_first-newlines c cs none line rest t ih e = cc
cons_first-newlines c cs (some (l, r)) line rest t ih e = ground (arith, ih l r refl)

newlines-split_line :
    (xs line rest : Bytes) → split_line xs ≡ some (line, rest) → newlines xs ≡ 1 + newlines rest
unfolding split_line newlines
newlines-split_line [] line rest e = cc
newlines-split_line (c ∷ cs) line rest e = elim (Bool-cases (c == newline)) [
  | inl t ↦ ground arith
  | inr t ↦
      cons_first-newlines c cs (split_line cs) line rest t (newlines-split_line cs) (ground arith)
]

-- `n` newlines were passed between two states.
abbrev pub Passed : Splitter → Splitter → ℕ → Type 0
Passed s s' n = ended s' + flag s.discarding ≡ ended s + flag s'.discarding + n

-- The carry stays within the limit, and is empty while a line is discarded.
pub record Bounded (s : Splitter) : Type 0 where
  pub carry : length s.carry ≤ s.max_line
  pub discarded : s.discarding ≡ true → length s.carry ≡ 0

abbrev Kept : Splitter → Splitter → ℕ → Type 0
Kept s s' n = Passed s s' n × Bounded s' × (s'.max_line ≡ s.max_line)

keep_tail-Kept :
    (s : Splitter) (tail : Bytes)
    → s.discarding ≡ false
    → length s.carry ≡ 0
    → Kept s (keep_tail s tail) 0
unfolding keep_tail
keep_tail-Kept s [] d e = (omega arith, record { carry = omega arith; discarded = λ _. e }, refl)
keep_tail-Kept s (c ∷ tail) d e = ground arith

scan-Kept :
    (fuel : ℕ) (s : Splitter) (rest : Bytes)
    → length rest ≤ fuel
    → s.discarding ≡ false
    → length s.carry ≡ 0
    → Kept s (scan fuel s rest).0 (newlines rest)
unfolding scan emit
scan-Kept zero s [] f d e = unfold newlines in keep_tail-Kept s [] d e
scan-Kept zero s (c ∷ rest) f d e = absurd (omega arith)
scan-Kept (suc fuel) s rest f d e = elim (Option-cases (split_line rest)) [
  | inl t ↦ rw (t, scan) (rw (split_line-newlines rest t) (keep_tail-Kept s rest d e))
  | inr ((line, rest'), t) ↦
      rw (t, scan)
        (ground (
          arith,
          newlines-split_line rest line rest' t,
          (split_line-some rest line rest' t).1,
          scan-Kept fuel (record s { lines = s.lines + 1 }) rest'
              (omega (arith, (split_line-some rest line rest' t).1)) d e,
        ))
]

feed_carry-Kept :
    (carry : Bytes) (s : Splitter) (rest : Bytes)
    → s.carry ≡ carry
    → s.discarding ≡ false
    → Bounded s
    → Kept s (feed_carry carry s rest).0 (newlines rest)
unfolding feed_carry extend_carry end_carry emit
feed_carry-Kept [] s rest e d b = scan-Kept (length rest) s rest (omega arith) d (ap length e)
feed_carry-Kept (c ∷ carry) s rest e d b = elim (Option-cases (split_line rest)) [
  | inl t ↦
      rw (t, feed_carry) (ground (arith, split_line-newlines rest t, length-append s.carry rest))
  | inr ((line, rest'), t) ↦
      rw (t, feed_carry)
        (ground (
          arith,
          newlines-split_line rest line rest' t,
          scan-Kept (length rest') (record s { oversize = s.oversize + 1; carry = [] }) rest'
              (omega arith) d refl,
          scan-Kept (length rest') (record s { lines = s.lines + 1; carry = [] }) rest'
              (omega arith) d refl,
        ))
]

feed_discarding-Kept :
    (discarding : Bool) (s : Splitter) (piece : Bytes)
    → s.discarding ≡ discarding
    → Bounded s
    → Kept s (feed_discarding discarding s piece).0 (newlines piece)
unfolding feed_discarding
feed_discarding-Kept false s piece d b = feed_carry-Kept s.carry s piece refl d b
feed_discarding-Kept true s piece d b = elim (Option-cases (split_line piece)) [
  | inl t ↦ rw (t, feed_discarding) (omega (arith, split_line-newlines piece t), b, refl)
  | inr ((line, rest), t) ↦
      rw (t, feed_discarding)
        (ground (
          arith,
          newlines-split_line piece line rest t,
          b.discarded d,
          feed_carry-Kept s.carry (record s { discarding = false }) rest refl refl
              (record { carry = b.carry; discarded = λ e. cc }),
        ))
]

-- Whatever the piece, and however long its lines: the lines emitted and the lines given up, taken
-- together, grow by the newlines of the piece, less the newline of a line that was in discard before
-- and plus one for a line that is in discard after it; and the carry stays within the limit.
pub feed-Kept :
    (s : Splitter) (piece : Bytes)
    → Bounded s
    → Passed s (feed s piece).0 (newlines piece)
      × Bounded (feed s piece).0
      × ((feed s piece).0.max_line ≡ s.max_line)
unfolding feed
feed-Kept s piece b = feed_discarding-Kept s.discarding s piece refl b

scan-nil : (fuel : ℕ) (s : Splitter) → scan fuel s [] ≡ (s, [])
unfolding scan split_line keep_tail
scan-nil zero s = refl
scan-nil (suc fuel) s = refl

emits_whole :
    (m c : ℕ) (line : Bytes)
    → split_line (c ∷ line) ≡ none
    → feed (new_splitter m) (c ∷ line ++ newline ∷ []) ≡ (
      record (new_splitter m) { lines = 1 },
      record { text = strip_cr (c ∷ line); raw_bytes = length (c ∷ line) + 1 } ∷ [],
    )
unfolding feed feed_discarding feed_carry scan emit
emits_whole m c line n =
    rw (split_line-append_some (c ∷ line) (newline ∷ []) [] [] n (unfold split_line in refl), scan)
      (rw scan-nil (simp append-nil))

gives_up :
    (m c : ℕ) (line : Bytes)
    → split_line (c ∷ line) ≡ none
    → m < length (c ∷ line)
    → feed (new_splitter m) (c ∷ line)
      ≡ (record (new_splitter m) { oversize = 1; discarding = true }, [])
unfolding feed feed_discarding feed_carry scan emit keep_tail
gives_up m c line n h = rw (n, scan) (ground arith)

resumes :
    (m : ℕ)
    → feed (record (new_splitter m) { oversize = 1; discarding = true }) (newline ∷ [])
      ≡ (record (new_splitter m) { oversize = 1 }, [])
unfolding feed feed_discarding feed_carry split_line scan keep_tail
resumes m = refl

-- A line longer than the limit, alone and whole in one piece, is emitted, and none is given up; cut
-- in front of its newline, it is given up and nothing is emitted.
pub feed_depends_on_pieces :
    (max_line : ℕ) (line : Bytes)
    → split_line line ≡ none
    → max_line < length line
    → let whole = feed (new_splitter max_line) (line ++ newline ∷ []) in
      let cut = feed (new_splitter max_line) line in
      let later = feed cut.0 (newline ∷ []) in
      (whole.1 ≡ record { text = strip_cr line; raw_bytes = length line + 1 } ∷ [])
      × (whole.0.oversize ≡ 0)
      × (cut.1 ++ later.1 ≡ [])
      × (later.0.oversize ≡ 1)
feed_depends_on_pieces m [] n h = absurd (omega arith)
feed_depends_on_pieces m (c ∷ line) n h =
    rw (emits_whole m c line n, gives_up m c line n h, resumes) (refl, refl, refl, refl)
