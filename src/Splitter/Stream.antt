-- ===== src/Splitter/Stream.antt =====
-- On a stream whose lines are within the limit, the splitter emits the lines of the stream, however
-- the stream is cut into pieces.
use assignment_logger_analyz.Prelude.{
  ℕ, zero, suc, ◌+◌, ◌≤◌, ◌≡◌, refl, sym, subst, ap, ◌∙◌, inl, inr, false, ltb, Option-cases, none,
  List, [], ◌∷◌, ◌++◌, append_assoc, append-nil, Bytes, length, length-append, arith,
}
use mathlib.Core.List.{map, map-append}
use assignment_logger_analyz.Splitter.{
  Splitter, Line, new_splitter, split_line, strip_cr, keep_tail, emit_then, emit, scan,
  extend_carry, end_carry, feed_carry, feed_discarding, feed, finish_carry, finish,
}
use assignment_logger_analyz.Splitter.Segments.{
  segments, join, split_line-none, split_line-some, split_line-append_none, split_line-append_some,
  split_line-tail, segments-append, Short, Short-append,
}

-- What the splitter calls `on_line` with for a line that a newline ends.
abbrev pub to_line : Bytes → Line
to_line l = record { text = strip_cr l; raw_bytes = length l + 1 }

-- The splitter after the lines of `segs`, with their tail for its carry.
abbrev pub settled : Splitter → List Bytes × Bytes → Splitter × List Line
settled s (lines, tail) =
    (record s { carry = tail; lines = s.lines + length lines }, map to_line lines)

keep_tail-short :
    (s : Splitter) (tail : Bytes)
    → s.carry ≡ []
    → length tail ≤ s.max_line
    → keep_tail s tail ≡ record s { carry = tail }
unfolding keep_tail
keep_tail-short s [] e h = λ i. record s { carry = e i }
keep_tail-short s (c ∷ tail) e h = ground arith

settle-tail :
    (s : Splitter) (tail : Bytes)
    → s.carry ≡ []
    → length tail ≤ s.max_line
    → (keep_tail s tail, []) ≡ settled s ([], tail)
settle-tail s tail e h =
    let n : s.lines ≡ s.lines + 0 = omega arith in
    ap (λ (t : Splitter). (t, [])) (keep_tail-short s tail e h) ∙ λ i.
    (record s { carry = tail; lines = n i }, [])

settled-join :
    (s : Splitter) (line : Bytes) (segs : List Bytes × Bytes)
    → emit_then (record s { lines = s.lines + 1 }, to_line line) (λ s'. settled s' segs)
      ≡ settled s (join (line ∷ []) segs)
settled-join s line segs =
    let n : s.lines + 1 + length segs.0 ≡ s.lines + suc (length segs.0) = omega arith in
    λ i. (record s { carry = segs.1; lines = n i }, to_line line ∷ map to_line segs.0)

-- The loop has fuel for every line of the piece.
scan-settled :
    (fuel : ℕ) (s : Splitter) (rest : Bytes)
    → length rest ≤ fuel
    → s.carry ≡ []
    → length (segments rest).1 ≤ s.max_line
    → scan fuel s rest ≡ settled s (segments rest)
unfolding scan
scan-settled zero s [] f e h = unfold segments in settle-tail s [] e h
scan-settled zero s (c ∷ rest) f e h = absurd (omega arith)
scan-settled (suc fuel) s rest f e h = elim (Option-cases (split_line rest)) [
  | inl t ↦
      rw (t, scan)
        (rw (split_line-none rest t) (settle-tail s rest e (rw (split_line-none rest t) at h)))
  | inr ((line, rest'), t) ↦
      let (segs, len) = split_line-some rest line rest' t in
      rw (t, scan)
        (rw segs (
          ap (λ r. (r.0, to_line line ∷ r.1))
            (scan-settled fuel (record s { lines = s.lines + 1 }) rest' (omega (arith, len)) e
              (rw segs at h))
          ∙ settled-join s line (segments rest')))
]

pub record Open (s : Splitter) : Type 0 where
  pub discarding : s.discarding ≡ false
  pub carry : split_line s.carry ≡ none

extended :
    (s : Splitter) (piece carry : Bytes)
    → s.carry ≡ carry
    → segments (carry ++ piece) ≡ ([], carry ++ piece)
    → Short s.max_line (segments (carry ++ piece))
    → (extend_carry s piece, []) ≡ settled s (segments (carry ++ piece))
unfolding extend_carry
extended s piece carry e segs h =
    let short : length (carry ++ piece) ≤ s.max_line = (rw segs at h).1 in
    let small : ltb s.max_line (length s.carry + length piece) ≡ false =
      ground (arith, length-append carry piece, ap length e) in
    let n : s.lines ≡ s.lines + 0 = omega arith in
    rw (segs, small) (λ i. (record s { carry = e i ++ piece; lines = n i }, []))

ended :
    (s : Splitter) (line rest carry piece : Bytes)
    → s.carry ≡ carry
    → segments (carry ++ piece) ≡ join ((carry ++ line) ∷ []) (segments rest)
    → Short s.max_line (segments (carry ++ piece))
    → end_carry s line (λ s'. scan (length rest) s' rest) ≡ settled s (segments (carry ++ piece))
unfolding end_carry emit
ended s line rest carry piece e segs h =
    let short : Short s.max_line (join ((carry ++ line) ∷ []) (segments rest)) = rw segs at h in
    let small : ltb s.max_line (length s.carry + length line) ≡ false =
      ground (arith, length-append carry line, ap length e) in
    rw (segs, small)
      (ap
          (λ r. (
            r.0,
            record {
              text = strip_cr (s.carry ++ line);
              raw_bytes = length s.carry + length line + 1;
            }
                ∷ r.1,
          ))
          (scan-settled (length rest) (record s { carry = []; lines = s.lines + 1 }) rest
            (omega arith) refl short.1)
        ∙ ap
            (λ l.
              emit_then (record s { lines = s.lines + 1 }, l) (λ s'. settled s' (segments rest)))
            text
        ∙ settled-join s (carry ++ line) (segments rest))
  where
    n : length s.carry + length line + 1 ≡ length (carry ++ line) + 1
    n = omega (arith, length-append carry line, ap length e)

    text :
        record { text = strip_cr (s.carry ++ line); raw_bytes = length s.carry + length line + 1 }
        ≡ to_line (carry ++ line)
    text = λ i. record { text = strip_cr (e i ++ line); raw_bytes = n i }

-- The carry goes on in the piece: whether a newline ends it there or not.
feed_carry-settled :
    (carry : Bytes) (s : Splitter) (piece : Bytes)
    → s.carry ≡ carry
    → split_line carry ≡ none
    → Short s.max_line (segments (carry ++ piece))
    → feed_carry carry s piece ≡ settled s (segments (carry ++ piece))
unfolding feed_carry
feed_carry-settled [] s piece e n h = scan-settled (length piece) s piece (omega arith) e h.1
feed_carry-settled (c ∷ carry) s piece e n h = elim (Option-cases (split_line piece)) [
  | inl t ↦
      rw (t, feed_carry)
        (extended s piece (c ∷ carry) e
          (split_line-none _ (split_line-append_none (c ∷ carry) piece n t)) h)
  | inr ((line, rest), t) ↦
      rw (t, feed_carry)
        (ended s line rest (c ∷ carry) piece e
          (split_line-some _ _ _ (split_line-append_some (c ∷ carry) piece line rest n t)).0 h)
]

feed-settled :
    (s : Splitter) (piece : Bytes)
    → Open s
    → Short s.max_line (segments (s.carry ++ piece))
    → feed s piece ≡ settled s (segments (s.carry ++ piece))
unfolding feed feed_discarding
feed-settled s piece o h =
    ap (λ b. feed_discarding b s piece) o.discarding
    ∙ feed_carry-settled s.carry s piece refl o.carry h

-- The pieces of a stream, one after the other.
unfoldable pub feed_all : Splitter → List Bytes → Splitter × List Line
feed_all s [] = (s, [])
feed_all s (p ∷ ps) =
    let (s', lines) = feed s p in let (s'', more) = feed_all s' ps in (s'', lines ++ more)

pub feed_all-append :
    (s : Splitter) (ps qs : List Bytes)
    → feed_all s (ps ++ qs)
      ≡ (let (s', ls) = feed_all s ps in let (s'', ms) = feed_all s' qs in (s'', ls ++ ms))
unfolding feed_all
feed_all-append s [] qs = refl
feed_all-append s (p ∷ ps) qs =
    let (s', ls) = feed s p in
    let (s'', ms) = feed_all s' ps in
    ap (λ r. (r.0, ls ++ r.1)) (feed_all-append s' ps qs)
    ∙ ap (λ t. ((feed_all s'' qs).0, t)) (sym (append_assoc ls ms (feed_all s'' qs).1))

pub feed_all_one : (s : Splitter) (p : Bytes) → feed_all s (p ∷ []) ≡ feed s p
unfolding feed_all
feed_all_one s p = ap (λ t. ((feed s p).0, t)) (append-nil (feed s p).1)

abbrev pub concat : List Bytes → Bytes
concat [] = []
concat (p ∷ ps) = p ++ concat ps

settled-settled :
    (s : Splitter) (lines : List Bytes) (tail : Bytes) (segs : List Bytes × Bytes)
    → (let (s', out) = settled s (lines, tail) in
        let (s'', more) = settled s' segs in
        ◌≡◌ {A = Splitter × List Line} (s'', out ++ more) (settled s (join lines segs)))
settled-settled s lines tail segs =
    let n : s.lines + length lines + length segs.0 ≡ s.lines + length (lines ++ segs.0) =
      omega (arith, length-append lines segs.0) in
    λ i. (record s { carry = segs.1; lines = n i }, sym (map-append to_line lines segs.0) i)

pub feed_all-settled :
    (s : Splitter) (ps : List Bytes)
    → Open s
    → Short s.max_line (segments (s.carry ++ concat ps))
    → feed_all s ps ≡ settled s (segments (s.carry ++ concat ps))
unfolding feed_all
feed_all-settled s [] o h =
    let n : s.lines ≡ s.lines + 0 = omega arith in
    rw (append-nil, split_line-none s.carry o.carry) (λ i. (record s { lines = n i }, []))
feed_all-settled s (p ∷ ps) o h =
    ap go_on (feed-settled s p o short.0)
    ∙ ap (λ r. (r.0, map to_line segs.0 ++ r.1)) (feed_all-settled after ps ready short.1)
    ∙ settled-settled s segs.0 segs.1 (segments (segs.1 ++ concat ps))
    ∙ ap (settled s) (sym whole)
  where
    segs : List Bytes × Bytes
    segs = segments (s.carry ++ p)

    after : Splitter
    after = (settled s segs).0

    go_on : Splitter × List Line → Splitter × List Line
    go_on r = let (s'', more) = feed_all r.0 ps in (s'', r.1 ++ more)

    regrouped : s.carry ++ (p ++ concat ps) ≡ s.carry ++ p ++ concat ps
    regrouped = sym (append_assoc s.carry p (concat ps))

    whole : segments (s.carry ++ (p ++ concat ps)) ≡ join segs.0 (segments (segs.1 ++ concat ps))
    whole = ap segments regrouped ∙ segments-append (s.carry ++ p) (concat ps)

    short : Short s.max_line segs × Short s.max_line (segments (segs.1 ++ concat ps))
    short =
        Short-append s.max_line (s.carry ++ p) (concat ps)
          (subst (λ t. Short s.max_line (segments t)) regrouped h)

    ready : Open after
    ready = record { discarding = o.discarding; carry = split_line-tail (s.carry ++ p) }

-- The lines of a whole stream: each segment that a newline ends, and the tail if it is not empty.
pub stream_lines : List Bytes × Bytes → List Line
stream_lines (lines, []) = map to_line lines
stream_lines (lines, c ∷ tail) =
    map to_line lines ++ record { text = strip_cr (c ∷ tail); raw_bytes = length (c ∷ tail) } ∷ []

-- All pieces, and then the end of the stream.
unfoldable pub feed_stream : Splitter → List Bytes → Splitter × List Line
feed_stream s ps =
    let (s', lines) = feed_all s ps in let (s'', more) = finish s' in (s'', lines ++ more)

finish-settled :
    (s : Splitter) (segs : List Bytes × Bytes)
    → (map to_line segs.0 ++ (finish (settled s segs).0).1 ≡ stream_lines segs)
      × ((finish (settled s segs).0).0.oversize ≡ s.oversize)
unfolding finish finish_carry emit stream_lines
finish-settled s (lines, []) = (append-nil _, refl)
finish-settled s (lines, c ∷ tail) = (refl, refl)

-- Whatever pieces a stream comes in, if none of its lines is longer than the limit, a new splitter
-- calls `on_line` for exactly the lines of the stream, in order and each with its bytes in the
-- stream, the last one when the stream ends, and counts no line as oversize.
pub feed_stream-lines :
    (max_line : ℕ) (ps : List Bytes)
    → Short max_line (segments (concat ps))
    → ((feed_stream (new_splitter max_line) ps).1 ≡ stream_lines (segments (concat ps)))
      × ((feed_stream (new_splitter max_line) ps).0.oversize ≡ 0)
unfolding feed_stream
feed_stream-lines m ps h =
    rw
      (feed_all-settled (new_splitter m) ps
        (record { discarding = refl; carry = unfold split_line in refl }) h)
      (finish-settled (new_splitter m) (segments (concat ps)))
