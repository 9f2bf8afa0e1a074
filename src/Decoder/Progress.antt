-- ===== src/Decoder/Progress.antt =====
-- A call of `feed` on a decoder between two frames, or within one, makes progress: this is what the
-- loop over a read relies on.
use assignment_logger_analyz.Prelude.{
  ℕ, zero, suc, ◌+◌, ◌-◌, ◌≤◌, ◌<◌, ◌≡◌, refl, sym, subst, ◌⊎◌, inl, inr, Bool, true, false, not,
  ◌||◌, ltb, ◌==◌, if-cases, Bool-cases, ltb→lt, [], ◌∷◌, Bytes, length, take, min, arith,
}
use assignment_logger_analyz.Protocol.{
  MsgType, FrameHeader, ErrorCode, bad_magic, bad_version, payload_too_large, header_size,
  magic_word, version_byte, max_payload, decode_header,
}
use assignment_logger_analyz.Decoder.{
  State, in_header, in_payload, complete, Status, need_more, ready, failed, Fed, Decoder, copy_at,
  fresh, reset_frame, take_payload, end_payload, feed_payload, enter_payload, copy_header,
  open_frame, end_header, feed_header, feed_in, feed,
}
use assignment_logger_analyz.Decoder.Copy.{copy_at-nil}
use assignment_logger_analyz.Decoder.Bounds.{Valid}

abbrev refused : FrameHeader → Bool
refused h =
    not (h.magic == magic_word)
    || (not (h.version == version_byte) || ltb max_payload h.payload_len)

-- The decoder wants more bytes, or has refused a header for good.
abbrev pub OpenIn : State → Decoder → Type 0
OpenIn in_header d = (d.head_got < header_size) ⊎ (refused (decode_header d.head_raw) ≡ true)
OpenIn in_payload d = d.payload_got < d.header.payload_len
OpenIn complete d = ⊥

abbrev pub Open : Decoder → Type 0
Open d = OpenIn d.state d

abbrev pub OutcomeAt : Status → Fed → Type 0
OutcomeAt need_more f = Open f.decoder
OutcomeAt failed f = Open f.decoder
OutcomeAt ready f = 0 < f.consumed

abbrev pub Outcome : Fed → Type 0
Outcome f = OutcomeAt f.status f

end_payload-Outcome :
    (d : Decoder) (k : ℕ) (chunk : Bytes)
    → d.state ≡ in_payload
    → (0 < k) ⊎ (d.payload_got < d.header.payload_len)
    → Outcome (end_payload d k chunk)
unfolding end_payload
end_payload-Outcome d k chunk s h =
    if-cases Outcome (ltb d.payload_got d.header.payload_len)
      (λ e. subst (λ t. OpenIn t d) (sym s) (ltb→lt _ _ e)) (λ e. ground arith)

take_payload-in :
    (d : Decoder) (x : Bytes) → d.state ≡ in_payload → (take_payload d x).state ≡ in_payload
unfolding take_payload
take_payload-in d x s = s

enter_payload-in : (b : Bool) (d : Decoder) → (enter_payload b d).state ≡ in_payload
unfolding enter_payload
enter_payload-in b d = refl

feed_payload-Outcome :
    (d : Decoder) (p : Bytes) (k : ℕ)
    → d.state ≡ in_payload
    → (0 < k) ⊎ (d.payload_got < d.header.payload_len)
    → Outcome (feed_payload d p k)
unfolding feed_payload
feed_payload-Outcome d p k s h =
    if-cases Outcome (ltb 0 n)
      (λ e.
        end_payload-Outcome (take_payload d _) (k + n) _ (take_payload-in d _ s)
          (inl (ground arith)))
      (λ e. end_payload-Outcome d k [] s h)
  where
    n : ℕ
    n = min (d.header.payload_len - d.payload_got) (length p - k)

module _ (accepts : MsgType → ℕ → Bool) where
  open_frame-Outcome :
      (d : Decoder) (p : Bytes) (k : ℕ)
      → d.state ≡ in_header
      → d.header ≡ decode_header d.head_raw
      → (0 < k) ⊎ (refused d.header ≡ true)
      → Outcome (open_frame accepts d p k)
  unfolding open_frame
  open_frame-Outcome d p k s e h =
      if-cases Outcome (not (d.header.magic == magic_word)) (λ a. stop bad_magic (ground arith))
        (λ a.
          if-cases Outcome (not (d.header.version == version_byte))
            (λ b. stop bad_version (ground arith))
            (λ b.
              if-cases Outcome (ltb max_payload d.header.payload_len)
                (λ c. stop payload_too_large (ground arith))
                (λ c.
                  if-cases Outcome (d.header.payload_len == 0) (λ z. nonzero (ground arith))
                    (λ z.
                      feed_payload-Outcome _ p k (enter_payload-in _ d)
                        (inl (nonzero (ground arith)))))))
    where
      stop :
          (code : ErrorCode) → refused d.header ≡ true → OpenIn d.state (record d { error = code })
      stop code r =
          subst (λ t. OpenIn t (record d { error = code })) (sym s)
            (inr (subst (λ x. refused x ≡ true) e r))

      nonzero : refused d.header ≡ false → 0 < k
      nonzero r = ground arith

  end_header-Outcome :
      (d : Decoder) (p : Bytes) (k : ℕ)
      → d.state ≡ in_header
      → (0 < k) ⊎ (refused (decode_header d.head_raw) ≡ true)
      → Outcome (end_header accepts d p k)
  unfolding end_header
  end_header-Outcome d p k s h =
      if-cases Outcome (ltb d.head_got header_size)
        (λ e. subst (λ t. OpenIn t d) (sym s) (inl (ltb→lt _ _ e)))
        (λ e. open_frame-Outcome _ p k s refl h)

  feed_header-Outcome :
      (d : Decoder) (c : ℕ) (p : Bytes)
      → d.state ≡ in_header
      → OpenIn in_header d
      → Valid d
      → Outcome (feed_header accepts d (c ∷ p))
  unfolding feed_header copy_header
  feed_header-Outcome d c p s o v = elim (Bool-cases (ltb d.head_got header_size)) [
    | inl e ↦ end_header-Outcome _ (c ∷ p) _ s (inl (ground arith))
    | inr e ↦ elim o [
      | inl less ↦ absurd (ground arith)
      | inr r ↦ end_header-Outcome _ (c ∷ p) _ s (
          inr (
            rw
              (copy_none (min (header_size - d.head_got) (length (c ∷ p))) (c ∷ p)
                (omega (arith, not_ltb e)))
              r))
    ]
  ]
    where
      not_ltb : ltb d.head_got header_size ≡ false → 16 ≤ d.head_got
      not_ltb e = ground arith

      copy_none :
          (n : ℕ) (x : Bytes) → n ≡ 0 → copy_at d.head_raw d.head_got (take n x) ≡ d.head_raw
      copy_none zero x e = copy_at-nil d.head_raw d.head_got
      copy_none (suc n) x e = absurd (omega arith)

  feed_in-Outcome :
      (t : State) (d : Decoder) (c : ℕ) (p : Bytes)
      → d.state ≡ t
      → OpenIn t d
      → Valid d
      → Outcome (feed_in accepts t d (c ∷ p))
  unfolding feed_in
  feed_in-Outcome in_header d c p s o v = feed_header-Outcome d c p s o v
  feed_in-Outcome in_payload d c p s o v = feed_payload-Outcome d (c ∷ p) 0 s (inr o)
  feed_in-Outcome complete d c p s o v = absurd o

  -- On a valid decoder that is open, a call of `feed` with at least one byte leaves it open, or completes a
  -- frame and consumes at least one byte.
  pub feed-progress :
      (d : Decoder) (c : ℕ) (p : Bytes) → Open d → Valid d → Outcome (feed accepts d (c ∷ p))
  unfolding feed
  feed-progress d c p o v = feed_in-Outcome d.state d c p refl o v

pub reset_frame-Open : (d : Decoder) → Open (reset_frame d)
unfolding reset_frame
reset_frame-Open d = inl (omega arith)

pub fresh-Open : Open fresh
fresh-Open = inl (omega arith)
