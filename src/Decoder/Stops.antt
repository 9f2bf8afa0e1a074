-- ===== src/Decoder/Stops.antt =====
-- A call of `feed` that ends a frame or refuses it does not look at the bytes behind, and consumes none of
-- them.
use assignment_logger_analyz.Prelude.{
  ℕ, ◌+◌, ◌-◌, ◌≤◌, ◌≡◌, ◌≢◌, refl, ap, inl, inr, Bool, ltb, if◌then◌else◌, if-cases, Bool-cases,
  ltb→lt, [], ◌++◌, Bytes, length, take, drop, min, length-append, length-take, length-drop,
  take-append_left, drop-append_left, arith,
}
use assignment_logger_analyz.Protocol.{MsgType, header_size}
use assignment_logger_analyz.Decoder.{
  State, in_header, in_payload, complete, need_more, Decoder, Fed, take_payload, end_payload,
  feed_payload, open_frame, end_header, feed_header, feed_in, feed,
}
use assignment_logger_analyz.Decoder.Pieces.{pay, feed_payload-pay}
use assignment_logger_analyz.Decoder.Fragments.{open_frame-Opens, feed_header_more}

-- The call consumes no more than it is given, and where it does not ask for more, what follows changes nothing.
abbrev pub Stops : Bytes → Fed → Fed → Type 0
Stops a r r' = (r.consumed ≤ length a) × (r.status ≢ need_more → r' ≡ r)

end_payload-consumed : (d : Decoder) (n : ℕ) (c : Bytes) → (end_payload d n c).consumed ≡ n
unfolding end_payload
end_payload-consumed d n c =
    if-cases (λ (r : Fed). r.consumed ≡ n) (ltb d.payload_got d.header.payload_len) (λ _. refl)
      (λ _. refl)

end_payload-full :
    (d : Decoder) (n : ℕ) (c : Bytes)
    → (end_payload d n c).status ≢ need_more
    → d.header.payload_len ≤ d.payload_got
unfolding end_payload
end_payload-full d n c ne = elim (Bool-cases (ltb d.payload_got d.header.payload_len)) [
  | inl t ↦ absurd (ne (rw t refl))
  | inr t ↦ ground arith
]

feed_payload-Stops :
    (d : Decoder) (a b : Bytes) (k : ℕ)
    → k ≤ length a
    → Stops a (feed_payload d a k) (feed_payload d (a ++ b) k)
feed_payload-Stops d a b k h =
    rw (feed_payload-pay d a k, feed_payload-pay d (a ++ b) k, drop-append_left k a b h)
      (
        omega (
          arith,
          end_payload-consumed (take_payload d x) (k + length x) (if d.streaming then x else []),
          length-take want (drop k a),
          length-drop k a,
        ),
        λ ne.
            ap (λ t. pay d t k)
              (take-append_left want (drop k a) b (
                full (
                  end_payload-full (take_payload d x) (k + length x) (if d.streaming then x else [])
                    ne))),
      )
  where
    want : ℕ
    want = d.header.payload_len - d.payload_got

    x : Bytes
    x = take want (drop k a)

    full :
        (take_payload d x).header.payload_len ≤ (take_payload d x).payload_got
        → want ≤ length (drop k a)
    full e = omega (arith, got e, length-take want (drop k a))
      where
        got :
            (take_payload d x).header.payload_len ≤ (take_payload d x).payload_got
            → d.header.payload_len ≤ d.payload_got + length x
        got = unfold take_payload in λ e. e

module _ (accepts : MsgType → ℕ → Bool) where
  open_frame-Stops :
      (d : Decoder) (a b : Bytes) (k : ℕ)
      → k ≤ length a
      → Stops a (open_frame accepts d a k) (open_frame accepts d (a ++ b) k)
  open_frame-Stops d a b k h = elim (open_frame-Opens accepts d) [
    | inl (f, st, _, ends) ↦ rw (ends (a ++ b) k, ends a k) (h, λ _. refl)
    | inr pays ↦ rw (pays (a ++ b) k, pays a k) (feed_payload-Stops _ a b k h)
  ]

  end_header-Stops :
      (d : Decoder) (a b : Bytes) (k : ℕ)
      → k ≤ length a
      → Stops a (end_header accepts d a k) (end_header accepts d (a ++ b) k)
  unfolding end_header
  end_header-Stops d a b k h = elim (Bool-cases (ltb d.head_got header_size)) [
    | inl t ↦ rw t (h, λ _. refl)
    | inr t ↦ rw t (open_frame-Stops _ a b k h)
  ]

  feed_header-Stops :
      (d : Decoder) (a b : Bytes)
      → Stops a (feed_header accepts d a) (feed_header accepts d (a ++ b))
  unfolding feed_header
  feed_header-Stops d a b = elim (Bool-cases (ltb (d.head_got + length a) header_size)) [
    | inl t ↦ rw (feed_header_more accepts d a (ltb→lt _ _ t)) (omega arith, λ ne. absurd (ne refl))
    | inr t ↦ whole (ground (arith, t))
  ]
    where
      k : ℕ
      k = header_size - d.head_got

      whole : k ≤ length a → Stops a (feed_header accepts d a) (feed_header accepts d (a ++ b))
      whole le =
          let n : min k (length a) ≡ k = omega (arith, le) in
          let m : min k (length (a ++ b)) ≡ k = omega (arith, le, length-append a b) in
          rw (n, m, take-append_left k a b le) (end_header-Stops _ a b k le)

  feed_in-Stops :
      (t : State) (d : Decoder) (a b : Bytes)
      → Stops a (feed_in accepts t d a) (feed_in accepts t d (a ++ b))
  unfolding feed_in
  feed_in-Stops in_header d a b = feed_header-Stops d a b
  feed_in-Stops in_payload d a b = feed_payload-Stops d a b 0 (omega arith)
  feed_in-Stops complete d a b = (omega arith, λ _. refl)

  -- A call of `feed` consumes no more than it is given, and where it does not ask for more, bytes
  -- behind what it was given change nothing.
  pub feed-Stops :
      (d : Decoder) (a b : Bytes) → Stops a (feed accepts d a) (feed accepts d (a ++ b))
  unfolding feed
  feed-Stops d a b = feed_in-Stops d.state d a b
