-- ===== src/Decoder/Bounds.antt =====
-- Every write of `feed` lies within its buffer, and the buffer of a payload stays within its limit.
use assignment_logger_analyz.Prelude.{
  ℕ, zero, suc, ◌+◌, ◌-◌, ◌≤◌, ◌<◌, ◌≡◌, refl, sym, subst, ap, ◌∙◌, inl, inr, Bool, true, false,
  ltb, ◌==◌, Bool-cases, ltb→lt, ◌++◌, Bytes, length, take, drop, min, length-append, length-take,
  length-drop, arith,
}
use assignment_logger_analyz.Protocol.{
  MsgType, ErrorCode, bad_magic, bad_version, payload_too_large, header_size, magic_word,
  version_byte, max_payload,
}
use assignment_logger_analyz.Decoder.{
  State, in_header, in_payload, complete, Decoder, copy_at, resize, zeros, fresh, reset_frame,
  take_payload, end_payload, feed_payload, enter_payload, copy_header, open_frame, end_header,
  feed_header, feed_in, feed,
}
use assignment_logger_analyz.Decoder.Pieces.{feed_payload-pay}

length-zeros : (n : ℕ) → length (zeros n) ≡ n
length-zeros zero = refl
length-zeros (suc n) = ap suc (length-zeros n)

pub length-resize : (buf : Bytes) (n : ℕ) → length (resize buf n) ≡ n
unfolding resize
length-resize buf n = omega (
  arith,
  length-append (take n buf) (zeros (n - length buf)),
  length-take n buf,
  length-zeros (n - length buf),
)

-- A copy that ends within its buffer keeps the buffer's size.
length-copy_at :
    (buf src : Bytes) (at : ℕ)
    → at + length src ≤ length buf
    → length (copy_at buf at src) ≡ length buf
unfolding copy_at
length-copy_at buf src at h = omega (
  arith,
  length-append (take at buf) (src ++ drop (at + length src) buf),
  length-append src (drop (at + length src) buf),
  length-take at buf,
  length-drop (at + length src) buf,
)

-- The buffer has the size of the payload, or is empty while the payload goes to the sink.
pub record Buffer (d : Decoder) : Type 0 where
  pub limit : d.header.payload_len ≤ max_payload
  pub buffered : d.streaming ≡ false → length d.payload ≡ d.header.payload_len
  pub streamed : d.streaming ≡ true → length d.payload ≡ 0

abbrev pub InState : State → Decoder → Type 0
InState in_header d = (length d.payload ≡ 0) × (d.streaming ≡ false)
InState in_payload d = (d.payload_got < d.header.payload_len) × Buffer d
InState complete d = Buffer d

pub record Valid (d : Decoder) : Type 0 where
  pub head_raw : length d.head_raw ≡ header_size
  pub head_got : d.head_got ≤ header_size
  pub payload : InState d.state d

abbrev Head : Decoder → Type 0
Head d = (length d.head_raw ≡ header_size) × (d.head_got ≤ header_size)

end_payload-Valid :
    (d : Decoder) (n : ℕ) (c : Bytes)
    → d.state ≡ in_payload
    → Head d
    → Buffer d
    → Valid (end_payload d n c).decoder
unfolding end_payload
end_payload-Valid d n c s h b = elim (Bool-cases (ltb d.payload_got d.header.payload_len)) [
  | inl t ↦ rw t (record {
    head_raw = h.0;
    head_got = h.1;
    payload = subst (λ t. InState t d) (sym s) (ltb→lt _ _ t, b);
  })
  | inr t ↦ rw t (record {
    head_raw = h.0;
    head_got = h.1;
    payload = record { limit = b.limit; buffered = b.buffered; streamed = b.streamed };
  })
]

take_payload-Buffer :
    (d : Decoder) (bytes : Bytes)
    → d.payload_got + length bytes ≤ d.header.payload_len
    → Buffer d
    → Buffer (take_payload d bytes)
unfolding take_payload
take_payload-Buffer d bytes h b = record {
  limit = b.limit;
  buffered = λ e.
      rw e
        (length-copy_at d.payload bytes d.payload_got (omega (arith, b.buffered e)) ∙ b.buffered e);
  streamed = λ e. rw e (b.streamed e);
}

feed_payload-Valid :
    (d : Decoder) (p : Bytes) (k : ℕ)
    → d.state ≡ in_payload
    → d.payload_got ≤ d.header.payload_len
    → Head d
    → Buffer d
    → Valid (feed_payload d p k).decoder
feed_payload-Valid d p k s le h b = rw (feed_payload-pay d p k) (
    end_payload-Valid (take_payload d bytes) _ _ (unfold take_payload in s)
      (unfold take_payload in h)
      (take_payload-Buffer d bytes (omega (arith, length-take want (drop k p))) b))
  where
    want : ℕ
    want = d.header.payload_len - d.payload_got

    bytes : Bytes
    bytes = take want (drop k p)

enter_payload-Buffer :
    (s : Bool) (d : Decoder)
    → d.header.payload_len ≤ max_payload
    → length d.payload ≡ 0
    → Buffer (enter_payload s d)
unfolding enter_payload
enter_payload-Buffer s d h e = record {
  limit = h;
  buffered = λ f. rw f (length-resize d.payload d.header.payload_len);
  streamed = λ f. rw f e;
}

module _ (accepts : MsgType → ℕ → Bool) where
  open_frame-Valid :
      (d : Decoder) (p : Bytes) (k : ℕ)
      → d.state ≡ in_header
      → Head d
      → InState in_header d
      → Valid (open_frame accepts d p k).decoder
  unfolding open_frame
  open_frame-Valid d p k s h i = elim (Bool-cases (d.header.magic == magic_word)) [
    | inr a ↦ rw a (failing bad_magic)
    | inl a ↦ elim (Bool-cases (d.header.version == version_byte)) [
      | inr b ↦ rw (a, b) (failing bad_version)
      | inl b ↦ elim (Bool-cases (ltb max_payload d.header.payload_len)) [
        | inl c ↦ rw (a, b, c) (failing payload_too_large)
        | inr c ↦ elim (Bool-cases (d.header.payload_len == 0)) [
          | inl z ↦ rw (a, b, c, z) (empty (ground arith))
          | inr z ↦
              rw (a, b, c, z)
                (feed_payload-Valid _ p k (unfold enter_payload in refl)
                  (unfold enter_payload in omega arith) (unfold enter_payload in h)
                  (enter_payload-Buffer _ d (ground arith) i.0))
        ]
      ]
    ]
  ]
    where
      failing : (e : ErrorCode) → Valid (record d { error = e })
      failing e = record {
        head_raw = h.0;
        head_got = h.1;
        payload = subst (λ t. InState t (record d { error = e })) (sym s) i;
      }

      empty : d.header.payload_len ≡ 0 → Valid (record d { state = complete })
      empty z = record {
        head_raw = h.0;
        head_got = h.1;
        payload = record { limit = omega arith; buffered = λ _. i.0 ∙ sym z; streamed = λ _. i.0 };
      }

  feed_header-Valid :
      (d : Decoder) (p : Bytes)
      → d.state ≡ in_header
      → Head d
      → InState in_header d
      → Valid (feed_header accepts d p).decoder
  unfolding feed_header end_header copy_header
  feed_header-Valid d p s h i = elim (Bool-cases (ltb (copied p).head_got header_size)) [
    | inl t ↦ rw t (record {
      head_raw = head.0;
      head_got = head.1;
      payload = subst (λ t. InState t (copied p)) (sym s) i;
    })
    | inr t ↦ rw t (open_frame-Valid _ p _ s head i)
  ]
    where
      n : ℕ
      n = min (header_size - d.head_got) (length p)

      copied : Bytes → Decoder
      copied q = copy_header d (take n q)

      head : Head (copied p)
      head = (
        length-copy_at d.head_raw (take n p) d.head_got (omega (arith, length-take n p, h.0, h.1))
            ∙ h.0,
        omega (arith, length-take n p, h.1),
      )

  feed_in-Valid :
      (t : State) (d : Decoder) (p : Bytes)
      → d.state ≡ t
      → Valid d
      → InState t d
      → Valid (feed_in accepts t d p).decoder
  unfolding feed_in
  feed_in-Valid in_header d p s v i = feed_header-Valid d p s (v.head_raw, v.head_got) i
  feed_in-Valid in_payload d p s v i =
      feed_payload-Valid d p 0 s (omega (arith, i.0)) (v.head_raw, v.head_got) i.1
  feed_in-Valid complete d p s v i = v

  -- What `feed` leaves behind of a valid decoder is valid: header and payload lie within their buffers, and the buffer
  -- of a payload is no larger than the limit.
  pub feed-Valid : (d : Decoder) (p : Bytes) → Valid d → Valid (feed accepts d p).decoder
  unfolding feed
  feed-Valid d p v = feed_in-Valid d.state d p refl v v.payload

pub fresh-Valid : Valid fresh
fresh-Valid = record { head_raw = refl; head_got = omega arith; payload = (refl, refl) }

pub reset_frame-Valid : (d : Decoder) → Valid d → Valid (reset_frame d)
unfolding reset_frame
reset_frame-Valid d v = record {
  head_raw = v.head_raw;
  head_got = omega arith;
  payload = (refl, refl);
}
