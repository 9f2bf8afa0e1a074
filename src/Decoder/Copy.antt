-- ===== src/Decoder/Copy.antt =====
-- Two copies one behind the other are one copy.
use assignment_logger_analyz.Prelude.{
  ℕ, ◌+◌, ◌≤◌, ◌≡◌, refl, sym, ap, ◌∙◌, [], ◌++◌, append_assoc, Bytes, length, take, drop,
  length-append, length-take, take-append_length, drop-append, drop-drop, take-append-drop, arith,
}
use assignment_logger_analyz.Decoder.{copy_at}

pub copy_at-nil : (buf : Bytes) (at : ℕ) → copy_at buf at [] ≡ buf
unfolding copy_at
copy_at-nil buf at =
    ap (λ (k : ℕ). take at buf ++ drop k buf) (omega arith) ∙ take-append-drop at buf

module _ (buf x : Bytes) (at : ℕ) (h : at ≤ length buf) where
  -- The bytes up to the end of a copy, and their number.
  written : Bytes
  written = take at buf ++ x

  length-written : length written ≡ at + length x
  unfolding written
  length-written = omega (arith, length-append (take at buf) x, length-take at buf)

  copy_at-written : copy_at buf at x ≡ written ++ drop (at + length x) buf
  unfolding copy_at written
  copy_at-written = sym (append_assoc (take at buf) x (drop (at + length x) buf))

  take-copy_at : take (at + length x) (copy_at buf at x) ≡ written
  take-copy_at =
      ap (take (at + length x)) copy_at-written
      ∙ take-append_length (at + length x) written (drop (at + length x) buf) length-written

  drop-copy_at :
      (m : ℕ) → drop (at + length x + m) (copy_at buf at x) ≡ drop (at + length x + m) buf
  drop-copy_at m =
      ap (drop (at + length x + m)) copy_at-written
      ∙ drop-append (at + length x + m) m written (drop (at + length x) buf)
          (omega (arith, length-written))
      ∙ drop-drop (at + length x) m (at + length x + m) buf refl

  pub copy_at-append :
      (y : Bytes) → copy_at (copy_at buf at x) (at + length x) y ≡ copy_at buf at (x ++ y)
  unfolding copy_at
  copy_at-append y =
      ap (λ t. t ++ (y ++ drop (at + length x + length y) (copy_at buf at x))) take-copy_at
      ∙ ap (λ t. written ++ (y ++ t)) (drop-copy_at (length y))
      ∙ regroup
    where
      regroup :
          written ++ (y ++ drop (at + length x + length y) buf)
          ≡ take at buf ++ (x ++ y ++ drop (at + length (x ++ y)) buf)
      regroup =
          let e : at + length x + length y ≡ at + length (x ++ y) =
            omega (arith, length-append x y) in
          rw e (unfold written in simp append_assoc)
