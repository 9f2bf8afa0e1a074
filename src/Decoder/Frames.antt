-- ===== src/Decoder/Frames.antt =====
-- A serialized frame is decoded to its type and its payload, wherever its payload goes.
use assignment_logger_analyz.Prelude.{
  ℕ, ◌+◌, ◌-◌, ◌%◌, ◌^◌, ◌≤◌, ◌<◌, ◌≡◌, refl, sym, ap, ◌∙◌, Bool, true, false, if◌then◌else◌, [],
  ◌∷◌, ◌++◌, append_assoc, append-nil, Bytes, length, take, drop, min, length-append, drop_all,
  take-append_length, drop-append_length, arith,
}
use assignment_logger_analyz.Protocol.{
  MsgType, type_byte, byte_type, FrameHeader, default_header, header_size, encode_header,
  decode_header, max_payload, magic_word, version_byte,
}
use assignment_logger_analyz.Protocol.RoundTrip.{decode_header-encode_header, length-encode_header}
use assignment_logger_analyz.Decoder.Serialize.{serialize_frame}
use assignment_logger_analyz.Decoder.{
  in_header, complete, ready, Decoder, copy_at, resize, Fed, fed, take_payload, end_payload,
  feed_payload, enter_payload, copy_header, open_frame, end_header, feed_header, feed_in, feed,
}
use assignment_logger_analyz.Decoder.Bounds.{length-resize}
use assignment_logger_analyz.Decoder.Pieces.{pay, feed_payload-pay}

-- A type that its byte stands for: every named one.
abbrev pub IsWireType : MsgType → Type 0
IsWireType t = byte_type (type_byte t) ≡ t

-- A decoder between two frames.
pub record Between (d : Decoder) : Type 0 where
  pub state : d.state ≡ in_header
  pub head_raw : length d.head_raw ≡ header_size
  pub head_got : d.head_got ≡ 0
  pub payload : d.payload ≡ []
  pub streaming : d.streaming ≡ false

abbrev pub frame_header : MsgType → Bytes → FrameHeader
frame_header t payload = record default_header { type = t; payload_len = length payload % 2 ^ 64 }

copy_at_whole : (buf src : Bytes) → length src ≡ length buf → copy_at buf 0 src ≡ src
unfolding copy_at
copy_at_whole buf src e = rw (drop_all (0 + length src) buf (omega arith), append-nil)

module _ (accepts : MsgType → ℕ → Bool) where
  -- Whether the payload goes to the sink: there is none of an empty one.
  abbrev pub chosen : MsgType → Bytes → Bool
  chosen t [] = false
  chosen t (x ∷ xs) = accepts t (length (x ∷ xs))

  -- The header's 16 bytes at the front of a piece are read in one go.
  feed_header-whole :
      (d : Decoder) (head rest : Bytes)
      → Between d
      → length head ≡ 16
      → feed accepts d (head ++ rest)
        ≡ open_frame accepts
            (record d { head_raw = head; head_got = 16; header = decode_header head })
            (head ++ rest)
            16
  unfolding feed feed_in feed_header end_header copy_header
  feed_header-whole d head rest b e =
      let n : min (header_size - d.head_got) (length (head ++ rest)) ≡ 16 =
        omega (arith, length-append head rest, b.head_got) in
      ap (λ s. feed_in accepts s d (head ++ rest)) b.state
      ∙ ap (λ (n : ℕ). end_header accepts (copy_header d (take n (head ++ rest))) (head ++ rest) n)
          n
      ∙ ap (λ h. end_header accepts (copy_header d h) (head ++ rest) 16)
          (take-append_length 16 head rest e)
      ∙ ap (λ c. end_header accepts c (head ++ rest) 16) copied
    where
      copied : copy_header d head ≡ record d { head_raw = head; head_got = 16 }
      copied = λ i. record d {
        head_raw =
            (ap (λ (n : ℕ). copy_at d.head_raw n head) b.head_got
                ∙ copy_at_whole d.head_raw head (e ∙ sym b.head_raw))
              i;
        head_got = got i;
      }
        where
          got : d.head_got + length head ≡ 16
          got = omega (arith, b.head_got)

  -- A frame of this payload is done after `head`, the bytes of its header: the decoder is complete,
  -- and the payload is in its buffer or went to the sink.
  abbrev pub Done : Decoder → Bytes → Fed → Type 0
  Done d payload r =
      (r.status ≡ ready)
      × (r.consumed ≡ 16 + length payload)
      × (r.decoder.state ≡ complete)
      × (r.decoder.header ≡ d.header)
      × (r.decoder.payload ≡ (if r.decoder.streaming then [] else payload))
      × (r.chunk ≡ (if r.decoder.streaming then payload else []))
      × (r.decoder.streaming ≡ chosen d.header.type payload)

  module _ (d : Decoder) (m : d.header.magic ≡ magic_word)
      (v : d.header.version ≡ version_byte) where
    open_frame-empty :
        (p : Bytes)
        → d.header.payload_len ≡ 0
        → open_frame accepts d p 16 ≡ fed (record d { state = complete }) ready 16 []
    unfolding open_frame
    open_frame-empty p e = ground arith

    open_frame-enters :
        (p : Bytes)
        → 0 < d.header.payload_len
        → d.header.payload_len ≤ max_payload
        → open_frame accepts d p 16
          ≡ feed_payload (enter_payload (accepts d.header.type d.header.payload_len) d) p 16
    unfolding open_frame
    open_frame-enters p lo hi = ground arith

  end_payload-ready :
      (d : Decoder) (n : ℕ) (c : Bytes)
      → d.header.payload_len ≤ d.payload_got
      → end_payload d n c ≡ fed (record d { state = complete }) ready n c
  unfolding end_payload
  end_payload-ready d n c h = ground arith

  feed_payload-Done :
      (s : Bool) (d : Decoder) (head payload rest : Bytes)
      → d.header.payload_len ≡ length payload
      → length head ≡ 16
      → d.payload ≡ []
      → s ≡ chosen d.header.type payload
      → Done d payload (feed_payload (enter_payload s d) (head ++ (payload ++ rest)) 16)
  feed_payload-Done s d head payload rest l h p c =
      rw all (unfold take_payload enter_payload in (refl, refl, refl, refl, kept s, refl, c))
    where
      kept :
          (b : Bool)
          → (take_payload (enter_payload b d) payload).payload ≡ (if b then [] else payload)
      kept true = unfold take_payload enter_payload in p
      kept false =
          unfold take_payload enter_payload in
          copy_at_whole (resize d.payload d.header.payload_len) payload
            (omega (arith, length-resize d.payload d.header.payload_len))

      e : Decoder
      e = enter_payload s d

      bytes :
          take (e.header.payload_len - e.payload_got) (drop 16 (head ++ (payload ++ rest)))
          ≡ payload
      bytes =
          unfold enter_payload in
          ap (take (d.header.payload_len - 0)) (drop-append_length 16 head (payload ++ rest) h)
          ∙ take-append_length (d.header.payload_len - 0) payload rest (omega arith)

      all :
          feed_payload e (head ++ (payload ++ rest)) 16
          ≡ fed
              (record (take_payload e payload) { state = complete })
              ready
              (16 + length payload)
              (if e.streaming then payload else [])
      all =
          feed_payload-pay e (head ++ (payload ++ rest)) 16
          ∙ ap (λ t. pay e t 16) bytes
          ∙ end_payload-ready (take_payload e payload) (16 + length payload) _
              (unfold take_payload enter_payload in omega arith)

  -- Empty payloads need no call of `feed_payload`.
  open_frame-Done :
      (d : Decoder) (head payload rest : Bytes)
      → d.header.magic ≡ magic_word
      → d.header.version ≡ version_byte
      → d.header.payload_len ≡ length payload
      → length payload ≤ max_payload
      → length head ≡ 16
      → d.payload ≡ []
      → d.streaming ≡ false
      → Done d payload (open_frame accepts d (head ++ (payload ++ rest)) 16)
  open_frame-Done d head [] rest m v l fits h p s =
      rw (open_frame-empty d m v (head ++ rest) l) (refl, refl, refl, refl, rw s p, rw s refl, s)
  open_frame-Done d head (x ∷ xs) rest m v l fits h p s =
      rw (open_frame-enters d m v (head ++ (x ∷ (xs ++ rest))) (omega arith) (omega arith))
        (feed_payload-Done _ d head (x ∷ xs) rest l h p (ap (accepts d.header.type) l))

  -- Between two frames, a frame that was serialized from a type with a byte of its own and a payload
  -- within the limit is ready after one call, which consumes its bytes and no more: the header has
  -- its type, and its payload is in the buffer, or went to the sink whole, as the sink chose by the
  -- type and the length; an empty payload does not go to the sink.
  pub feed-serialize_frame :
      (d : Decoder) (t : MsgType) (payload rest : Bytes)
      → Between d
      → IsWireType t
      → length payload ≤ max_payload
      → Done
          (record d { header = frame_header t payload })
          payload
          (feed accepts d (serialize_frame t payload ++ rest))
  unfolding serialize_frame
  feed-serialize_frame d t payload rest b wire fits = rw (append_assoc head payload rest) (
      rw
        (feed_header-whole d head (payload ++ rest) b
          (length-encode_header (frame_header t payload)))
        (rw decoded (
          open_frame-Done _ head payload rest refl refl (omega arith) fits
            (length-encode_header (frame_header t payload)) b.payload b.streaming)))
    where
      head : Bytes
      head = encode_header (frame_header t payload)

      decoded : decode_header head ≡ frame_header t payload
      decoded =
          ap decode_header (sym (append-nil head))
          ∙ decode_header-encode_header (frame_header t payload) [] (record {
            magic = omega arith;
            type = wire;
            flags = omega arith;
            payload_len = omega arith;
          })
