-- ===== src/Decoder/Ahead.antt =====
-- What a decoder has ahead of it: the rest of a frame, however the stream is cut within it.
use assignment_logger_analyz.Prelude.{
  ℕ, ◌+◌, ◌≤◌, ◌<◌, ◌≡◌, ◌≢◌, refl, sym, subst, ap, ◌∙◌, Bool, if◌then◌else◌, [], ◌++◌,
  append_assoc, append-nil, Bytes, length, drop, length-append, drop-append_length, arith,
}
use assignment_logger_analyz.Protocol.{MsgType, max_payload, encode_header}
use assignment_logger_analyz.Protocol.RoundTrip.{length-encode_header}
use assignment_logger_analyz.Decoder.Serialize.{serialize_frame}
use assignment_logger_analyz.Decoder.{
  Status, need_more, ready, failed, Decoder, Fed, reset_frame, feed,
}
use assignment_logger_analyz.Decoder.Bounds.{Valid, feed-Valid}
use assignment_logger_analyz.Decoder.Pieces.{after}
use assignment_logger_analyz.Decoder.Fragments.{feed-append}
use assignment_logger_analyz.Decoder.Stops.{Stops, feed-Stops}
use assignment_logger_analyz.Decoder.Frames.{
  Between, IsWireType, frame_header, chosen, feed-serialize_frame,
}

-- What a call that ends a frame leaves.
pub record Frame : Type 0 where
  pub type : MsgType
  pub streaming : Bool
  pub payload : Bytes

abbrev pub Ends : Frame → ℕ → Bytes → Fed → Type 0
Ends f n chunk r =
    (r.status ≡ ready)
    × (r.consumed ≡ n)
    × (r.chunk ≡ chunk)
    × (r.decoder.header.type ≡ f.type)
    × (r.decoder.streaming ≡ f.streaming)
    × (r.decoder.payload ≡ f.payload)

pub reset_frame-Between : (d : Decoder) → Valid d → Between (reset_frame d)
unfolding reset_frame
reset_frame-Between d v = record {
  state = refl;
  head_raw = v.head_raw;
  head_got = refl;
  payload = refl;
  streaming = refl;
}

module _ (accepts : MsgType → ℕ → Bool) where
  -- The bytes `rest` are the rest of the frame, with `chunk` for the sink, whatever follows.
  pub record Ahead (f : Frame) (rest chunk : Bytes) (d : Decoder) : Type 0 where
    pub valid : Valid d
    pub more : 0 < length rest
    pub ends : (x : Bytes) → Ends f (length rest) chunk (feed accepts d (rest ++ x))

  -- The frame of a payload, and what of it goes to the sink.
  abbrev pub frame_of : MsgType → Bytes → Frame
  frame_of t payload = record {
    type = t;
    streaming = chosen accepts t payload;
    payload = if chosen accepts t payload then [] else payload;
  }

  abbrev pub sink_of : MsgType → Bytes → Bytes
  sink_of t payload = if chosen accepts t payload then payload else []

  -- Between two frames the decoder has a whole one ahead.
  pub serialize_frame-Ahead :
      (d : Decoder) (t : MsgType) (payload : Bytes)
      → Between d
      → Valid d
      → IsWireType t
      → length payload ≤ max_payload
      → Ahead (frame_of t payload) (serialize_frame t payload) (sink_of t payload) d
  serialize_frame-Ahead d t payload b v wire fits = record {
    valid = v;
    more = omega (arith, size);
    ends = λ x.
        let (status, consumed, state, header, p, chunk, streaming) =
          feed-serialize_frame accepts d t payload x b wire fits in
        (
          status,
          consumed ∙ sym size,
          chunk ∙ ap (λ s. if s then payload else []) streaming,
          ap (λ g. g.type) header,
          streaming,
          p ∙ ap (λ s. if s then [] else payload) streaming,
        );
  }
    where
      size : length (serialize_frame t payload) ≡ 16 + length payload
      size =
          unfold serialize_frame in
          length-append (encode_header (frame_header t payload)) payload
          ∙ ap (λ (n : ℕ). n + length payload) (length-encode_header (frame_header t payload))

  -- A call that is given less than the rest of the frame asks for more, and has the remainder ahead.
  pub Ahead-cut :
      (f : Frame) (a y chunk : Bytes) (d : Decoder)
      → Ahead f (a ++ y) chunk d
      → 0 < length y
      → let r = feed accepts d a in
        (r.status ≡ need_more)
        × ((later : Bytes) × (chunk ≡ r.chunk ++ later) × Ahead f y later r.decoder)
  Ahead-cut f a y chunk d h more = (
    asks,
    (later, split, record { valid = feed-Valid accepts d a h.valid; more = more; ends = ends }),
  )
    where
      r : Fed
      r = feed accepts d a

      stops : Stops a r (feed accepts d (a ++ y))
      stops = feed-Stops accepts d a y

      whole : Ends f (length (a ++ y)) chunk (feed accepts d (a ++ y))
      whole =
          subst (λ t. Ends f (length (a ++ y)) chunk (feed accepts d t)) (append-nil (a ++ y))
            (h.ends [])

      ended : r.status ≢ need_more → ⊥
      ended ne =
          let used = ap (λ t. t.consumed) (sym (stops.1 ne)) ∙ whole.1 in
          omega (arith, used, stops.0, more, length-append a y)

      unended : (st : Status) → r.status ≡ st → r.status ≡ need_more
      unended need_more e = e
      unended ready e = absurd (ended (λ q. cc))
      unended failed e = absurd (ended (λ q. cc))

      asks : r.status ≡ need_more
      asks = unended r.status refl

      later : Bytes
      later = drop (length r.chunk) chunk

      -- What the call behind it leaves, with more bytes behind the frame.
      resumed :
          (x : Bytes)
          → feed accepts d (a ++ y ++ x)
            ≡ after (length a) r.chunk (feed accepts r.decoder (y ++ x))
      resumed x =
          ap (feed accepts d) (append_assoc a y x) ∙ feed-append accepts d a (y ++ x) h.valid asks

      both :
          (x : Bytes)
          → Ends f
              (length (a ++ y))
              chunk
              (after (length a) r.chunk (feed accepts r.decoder (y ++ x)))
      both x = subst (Ends f (length (a ++ y)) chunk) (resumed x) (h.ends x)

      rest : (x : Bytes) → (feed accepts r.decoder (y ++ x)).chunk ≡ later
      rest x =
          sym (
            drop-append_length (length r.chunk) r.chunk (feed accepts r.decoder (y ++ x)).chunk
              refl)
          ∙ ap (drop (length r.chunk)) (both x).2

      split : chunk ≡ r.chunk ++ later
      split = sym (both []).2 ∙ ap (λ t. r.chunk ++ t) (rest [])

      ends : (x : Bytes) → Ends f (length y) later (feed accepts r.decoder (y ++ x))
      ends x =
          let (status, consumed, chunk', type, streaming, payload) = both x in
          (status, omega (arith, consumed, length-append a y), rest x, type, streaming, payload)

  -- A call that is given the rest of the frame and more ends it.
  pub Ahead-end :
      (f : Frame) (cur chunk x : Bytes) (d : Decoder)
      → Ahead f cur chunk d
      → let r = feed accepts d (cur ++ x) in Ends f (length cur) chunk r × Valid r.decoder
  Ahead-end f cur chunk x d h = (h.ends x, feed-Valid accepts d (cur ++ x) h.valid)
