-- ===== src/Decoder/Fragments.antt =====
-- `feed` does not depend on where the stream is cut: what is fed in two pieces is fed as one.
use assignment_logger_analyz.Prelude.{
  ℕ, ◌+◌, ◌-◌, ◌≤◌, ◌<◌, ◌≡◌, ◌≢◌, ◌⊎◌, refl, sym, subst, ap, ◌∙◌, inl, inr, Bool, ltb, ◌==◌,
  if◌then◌else◌, Bool-cases, ltb→lt, lt→ltb, [], ◌++◌, Bytes, length, take, drop, min,
  length-append, length-take, take-append, take-append_left, take_all, drop-append, arith,
}
use assignment_logger_analyz.Protocol.{
  MsgType, bad_magic, bad_version, payload_too_large, header_size, magic_word, version_byte,
  max_payload,
}
use assignment_logger_analyz.Decoder.{
  State, in_header, in_payload, complete, Status, need_more, ready, failed, Decoder, Fed, fed,
  take_payload, end_payload, feed_payload, enter_payload, copy_header, open_frame, end_header,
  feed_header, feed_in, feed,
}
use assignment_logger_analyz.Decoder.Bounds.{Valid, InState}
use assignment_logger_analyz.Decoder.Copy.{copy_at-append}
use assignment_logger_analyz.Decoder.Pieces.{
  after, pay, Room, end_payload-after, feed_payload-pay, feed_payload_more, feed_payload-append,
}

feed_payload-shift :
    (d : Decoder) (a b : Bytes) (n m : ℕ)
    → n ≡ length a + m
    → feed_payload d (a ++ b) n ≡ after (length a) [] (feed_payload d b m)
feed_payload-shift d a b n m e =
    feed_payload-pay d (a ++ b) n
    ∙ ap (λ t. pay d (take want t) n) (drop-append n m a b e)
    ∙ ap (λ (t : ℕ). one t) (omega arith)
    ∙ end_payload-after (take_payload d bytes) (length a) (m + length bytes) []
        (if d.streaming then bytes else [])
    ∙ ap (after (length a) []) (sym (feed_payload-pay d b m))
  where
    want : ℕ
    want = d.header.payload_len - d.payload_got

    bytes : Bytes
    bytes = take want (drop m b)

    one : ℕ → Fed
    one t = end_payload (take_payload d bytes) t (if d.streaming then bytes else [])

copy_header-append :
    (d : Decoder) (x y : Bytes)
    → d.head_got ≤ length d.head_raw
    → copy_header (copy_header d x) y ≡ copy_header d (x ++ y)
unfolding copy_header
copy_header-append d x y h =
    ground (arith, copy_at-append d.head_raw x d.head_got h y, length-append x y)

module _ (accepts : MsgType → ℕ → Bool) where
  -- A complete header either ends the call whatever follows it, or leads to its payload.
  abbrev pub Opens : Decoder → Type 0
  Opens d =
      ((e : Decoder) × (st : Status) × (st ≢ need_more)
        × ((p : Bytes) (k : ℕ) → open_frame accepts d p k ≡ fed e st k []))
      ⊎ ((p : Bytes) (k : ℕ)
          → open_frame accepts d p k
            ≡ feed_payload (enter_payload (accepts d.header.type d.header.payload_len) d) p k)

  pub open_frame-Opens : (d : Decoder) → Opens d
  unfolding open_frame
  open_frame-Opens d = elim (Bool-cases (d.header.magic == magic_word)) [
    | inr a ↦ inl (record d { error = bad_magic }, failed, (λ e. cc), λ p k. rw a)
    | inl a ↦ elim (Bool-cases (d.header.version == version_byte)) [
      | inr b ↦ inl (record d { error = bad_version }, failed, (λ e. cc), λ p k. rw (a, b))
      | inl b ↦ elim (Bool-cases (ltb max_payload d.header.payload_len)) [
        | inl c ↦
            inl (record d { error = payload_too_large }, failed, (λ e. cc), λ p k. rw (a, b, c))
        | inr c ↦ elim (Bool-cases (d.header.payload_len == 0)) [
          | inl z ↦ inl (record d { state = complete }, ready, (λ e. cc), λ p k. rw (a, b, c, z))
          | inr z ↦ inr (λ p k. rw (a, b, c, z))
        ]
      ]
    ]
  ]

  enter_payload-Room : (s : Bool) (d : Decoder) → Room (enter_payload s d)
  unfolding enter_payload
  enter_payload-Room s d e = omega arith

  open_frame-shift :
      (d : Decoder) (a b : Bytes) (n m : ℕ)
      → n ≡ length a + m
      → open_frame accepts d (a ++ b) n ≡ after (length a) [] (open_frame accepts d b m)
  open_frame-shift d a b n m e = elim (open_frame-Opens d) [
    | inl (f, st, _, ends) ↦ rw (ends (a ++ b) n, ends b m, e) refl
    | inr pays ↦ rw (pays (a ++ b) n, pays b m) (feed_payload-shift _ a b n m e)
  ]

  resume :
      (d : Decoder) (a b : Bytes) (k : ℕ)
      → d.state ≡ in_payload
      → Room d
      → k ≤ length a
      → (feed_payload d a k).status ≡ need_more
      → feed_payload d (a ++ b) k
        ≡ after (length a) (feed_payload d a k).chunk (feed accepts (feed_payload d a k).decoder b)
  unfolding feed feed_in
  resume d a b k s room h st =
      feed_payload-append d a b k room h st
      ∙ ap (after (length a) (feed_payload d a k).chunk)
          (ap (λ t. feed_in accepts t (feed_payload d a k).decoder b) (sym still))
    where
      still : (feed_payload d a k).decoder.state ≡ in_payload
      still = ap (λ t. t.decoder.state) (feed_payload_more d a k h st).0 ∙ unfold take_payload in s

  -- After a call that ends for want of more within the payload, the next one goes on there.
  open_frame-append :
      (d : Decoder) (a b : Bytes) (k : ℕ)
      → k ≤ length a
      → (open_frame accepts d a k).status ≡ need_more
      → open_frame accepts d (a ++ b) k
        ≡ after
            (length a)
            (open_frame accepts d a k).chunk
            (feed accepts (open_frame accepts d a k).decoder b)
  open_frame-append d a b k h st = elim (open_frame-Opens d) [
    | inl (f, st', ne, ends) ↦ absurd (ne (cc (ends a k)))
    | inr pays ↦
        rw (pays (a ++ b) k, pays a k)
          (resume _ a b k (unfold enter_payload in refl) (enter_payload-Room _ d) h
            (rw (pays a k) at st))
  ]

  end_header-shift :
      (d : Decoder) (a b : Bytes) (n m : ℕ)
      → n ≡ length a + m
      → end_header accepts d (a ++ b) n ≡ after (length a) [] (end_header accepts d b m)
  unfolding end_header
  end_header-shift d a b n m e = elim (Bool-cases (ltb d.head_got header_size)) [
    | inl t ↦ rw (t, e) refl
    | inr t ↦ rw t (open_frame-shift _ a b n m e)
  ]

  end_header-append :
      (d : Decoder) (a b : Bytes) (k : ℕ)
      → header_size ≤ d.head_got
      → k ≤ length a
      → (end_header accepts d a k).status ≡ need_more
      → end_header accepts d (a ++ b) k
        ≡ after
            (length a)
            (end_header accepts d a k).chunk
            (feed accepts (end_header accepts d a k).decoder b)
  unfolding end_header
  end_header-append d a b k full h st = elim (Bool-cases (ltb d.head_got header_size)) [
    | inl t ↦ absurd (omega (arith, ltb→lt d.head_got header_size t))
    | inr t ↦ rw t (open_frame-append _ a b k h (rw t at st))
  ]

  feed-in_header :
      (d : Decoder) (b : Bytes) → d.state ≡ in_header → feed accepts d b ≡ feed_header accepts d b
  unfolding feed feed_in
  feed-in_header d b s = ap (λ t. feed_in accepts t d b) s

  -- A piece that ends within the header.
  pub feed_header_more :
      (d : Decoder) (a : Bytes)
      → d.head_got + length a < header_size
      → feed_header accepts d a ≡ fed (copy_header d a) need_more (length a) []
  unfolding feed_header end_header copy_header
  feed_header_more d a h =
      let n : min (header_size - d.head_got) (length a) ≡ length a = omega arith in
      rw (n, take_all (length a) a (omega arith), lt→ltb _ _ h) refl

  feed_header-short :
      (d : Decoder) (a b : Bytes)
      → d.head_got ≤ length d.head_raw
      → d.head_got + length a < header_size
      → d.state ≡ in_header
      → feed_header accepts d (a ++ b)
        ≡ after
            (length a)
            (feed_header accepts d a).chunk
            (feed accepts (feed_header accepts d a).decoder b)
  unfolding feed_header
  feed_header-short d a b room h s = rw (feed_header_more d a h) (
      ap (λ t. end_header accepts (copy_header d t) (a ++ b) n) bytes
      ∙ ap (λ t. end_header accepts t (a ++ b) n) (sym (copy_header-append d a (take m b) room))
      ∙ end_header-shift (copy_header (copy_header d a) (take m b)) a b n m split
      ∙ ap (after (length a) [])
          (sym (feed-in_header (copy_header d a) b (unfold copy_header in s))))
    where
      n : ℕ
      n = min (header_size - d.head_got) (length (a ++ b))

      m : ℕ
      m = min (header_size - (copy_header d a).head_got) (length b)

      split : n ≡ length a + m
      split = unfold copy_header in omega (arith, length-append a b)

      bytes : take n (a ++ b) ≡ a ++ take m b
      bytes =
          take-append n a b (omega (arith, split))
          ∙ ap (λ (t : ℕ). a ++ take t b) (omega (arith, split))

  feed_header-long :
      (d : Decoder) (a b : Bytes)
      → header_size ≤ d.head_got + length a
      → (feed_header accepts d a).status ≡ need_more
      → feed_header accepts d (a ++ b)
        ≡ after
            (length a)
            (feed_header accepts d a).chunk
            (feed accepts (feed_header accepts d a).decoder b)
  unfolding feed_header
  feed_header-long d a b h st =
      ap (λ (t : ℕ). end_header accepts (copy_header d (take t (a ++ b))) (a ++ b) t) n
      ∙ ap (λ t. end_header accepts (copy_header d t) (a ++ b) k)
          (take-append_left k a b (omega arith))
      ∙ end_header-append (copy_header d (take k a)) a b k full (omega arith) st
    where
      k : ℕ
      k = min (header_size - d.head_got) (length a)

      n : min (header_size - d.head_got) (length (a ++ b)) ≡ k
      n = omega (arith, length-append a b)

      full : header_size ≤ (copy_header d (take k a)).head_got
      full = unfold copy_header in omega (arith, length-take k a)

  feed_header-append :
      (d : Decoder) (a b : Bytes)
      → d.head_got ≤ length d.head_raw
      → d.state ≡ in_header
      → (feed_header accepts d a).status ≡ need_more
      → feed_header accepts d (a ++ b)
        ≡ after
            (length a)
            (feed_header accepts d a).chunk
            (feed accepts (feed_header accepts d a).decoder b)
  feed_header-append d a b room s st = elim (Bool-cases (ltb (d.head_got + length a) header_size)) [
    | inl t ↦ feed_header-short d a b room (ltb→lt _ _ t) s
    | inr t ↦ feed_header-long d a b (ground arith) st
  ]

  -- The buffers have room up to where the next byte goes.
  record Fits (d : Decoder) : Type 0 where
    head : d.head_got ≤ length d.head_raw
    room : d.state ≡ in_payload → Room d

  feed_in-append :
      (t : State) (d : Decoder) (a b : Bytes)
      → d.state ≡ t
      → Fits d
      → (feed_in accepts t d a).status ≡ need_more
      → feed_in accepts t d (a ++ b)
        ≡ after
            (length a)
            (feed_in accepts t d a).chunk
            (feed accepts (feed_in accepts t d a).decoder b)
  unfolding feed_in
  feed_in-append in_header d a b s f st = feed_header-append d a b f.head s st
  feed_in-append in_payload d a b s f st = resume d a b 0 s (f.room s) (omega arith) st
  feed_in-append complete d a b s f st = cc

  Valid-Fits : (d : Decoder) → Valid d → Fits d
  Valid-Fits d v = record {
    head = omega (arith, v.head_raw, v.head_got);
    room = λ s e.
        let i : InState in_payload d = subst (λ t. InState t d) s v.payload in
        omega (arith, i.0, i.1.buffered e);
  }

  -- From a valid decoder, where feeding `a` ends for want of more, feeding `a` and then `b` is
  -- feeding `a ++ b`: it leaves the same decoder and the same status, the bytes consumed add up,
  -- and so do the pieces given to the sink.
  pub feed-append :
      (d : Decoder) (a b : Bytes)
      → Valid d
      → (feed accepts d a).status ≡ need_more
      → feed accepts d (a ++ b)
        ≡ after (length a) (feed accepts d a).chunk (feed accepts (feed accepts d a).decoder b)
  unfolding feed
  feed-append d a b v st = feed_in-append d.state d a b refl (Valid-Fits d v) st
