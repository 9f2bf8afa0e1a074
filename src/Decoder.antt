-- ===== src/Decoder.antt =====
-- FrameDecoder, 01.Sources/SERVER/src/net/FrameDecoder.h and FrameDecoder.cpp: bytes in pieces of any
-- size to frames. The sink is the argument `accepts`, the test that its `stream_payload` makes while
-- one call of `feed` lasts (constantly false for a null sink), and the piece that `payload_chunk` is
-- given is part of the result. `std::size_t` has 64 bits, and no sum here leaves it.
pub mod Serialize
pub mod Copy
pub mod Pieces
pub mod Fragments
pub mod Stops
pub mod Ahead
pub mod Bounds
pub mod Progress
pub mod Frames
use assignment_logger_analyz.Prelude.{
  ℕ, zero, suc, ◌+◌, ◌-◌, ltb, ◌==◌, if◌then◌else◌, Bool, true, false, not, List, [], ◌∷◌, ◌++◌,
  min, Bytes, length, take, drop,
}
use assignment_logger_analyz.Protocol.{
  MsgType, ErrorCode, none_code, bad_magic, bad_version, payload_too_large, FrameHeader,
  default_header, decode_header, magic_word, version_byte, header_size, max_payload,
}

pub data State : Type 0 where
  in_header in_payload complete : State

pub data Status : Type 0 where
  need_more ready failed : Status

pub record Decoder : Type 0 where
  pub state : State
  pub head_raw : Bytes
  pub head_got : ℕ
  pub header : FrameHeader
  pub payload : Bytes
  pub payload_got : ℕ
  pub streaming : Bool
  pub error : ErrorCode

abbrev pub zeros : ℕ → Bytes
zeros zero = []
zeros (suc n) = 0 ∷ zeros n

-- std::memcpy(buf + at, src, length src)
unfoldable pub copy_at : Bytes → ℕ → Bytes → Bytes
copy_at buf at src = take at buf ++ (src ++ drop (at + length src) buf)

-- std::vector::resize
unfoldable pub resize : Bytes → ℕ → Bytes
resize buf n = take n buf ++ zeros (n - length buf)

abbrev pub fresh : Decoder
fresh = record {
  state = in_header;
  head_raw = zeros 16;
  head_got = 0;
  header = default_header;
  payload = [];
  payload_got = 0;
  streaming = false;
  error = none_code;
}

unfoldable pub reset_frame : Decoder → Decoder
reset_frame d = record d {
  state = in_header;
  head_got = 0;
  payload_got = 0;
  payload = [];
  streaming = false;
  error = none_code;
}

-- What `feed` leaves behind: the decoder, its return value, `consumed`, and what went to the sink.
pub record Fed : Type 0 where
  pub decoder : Decoder
  pub status : Status
  pub consumed : ℕ
  pub chunk : Bytes

abbrev pub fed : Decoder → Status → ℕ → Bytes → Fed
fed d st n chunk = record { decoder = d; status = st; consumed = n; chunk = chunk }

-- The state after a non-empty piece of payload.
unfoldable pub take_payload : Decoder → Bytes → Decoder
take_payload d piece = record d {
  payload = if d.streaming then d.payload else copy_at d.payload d.payload_got piece;
  payload_got = d.payload_got + length piece;
}

unfoldable pub end_payload : Decoder → ℕ → Bytes → Fed
end_payload d consumed chunk =
    if ltb d.payload_got d.header.payload_len
    then fed d need_more consumed chunk
    else fed (record d { state = complete }) ready consumed chunk

-- The branch `state_ == State::Payload`, with `consumed` bytes of `piece` behind it.
unfoldable pub feed_payload : Decoder → Bytes → ℕ → Fed
feed_payload d piece consumed =
    let want = d.header.payload_len - d.payload_got in
    let avail = length piece - consumed in
    let n = min want avail in
    let bytes = take n (drop consumed piece) in
    if ltb 0 n
    then end_payload (take_payload d bytes) (consumed + n) (if d.streaming then bytes else [])
    else end_payload d consumed []

-- The assignments that lead from a checked header to its payload.
unfoldable pub enter_payload : Bool → Decoder → Decoder
enter_payload streaming d = record d {
  streaming = streaming;
  payload = if streaming then d.payload else resize d.payload d.header.payload_len;
  payload_got = 0;
  state = in_payload;
}

unfoldable pub copy_header : Decoder → Bytes → Decoder
copy_header d bytes = record d {
  head_raw = copy_at d.head_raw d.head_got bytes;
  head_got = d.head_got + length bytes;
}

module _ (accepts : MsgType → ℕ → Bool) where
  -- The checks on a complete header, and what they lead to.
  unfoldable pub open_frame : Decoder → Bytes → ℕ → Fed
  open_frame d piece consumed =
      if not (d.header.magic == magic_word)
      then fed (record d { error = bad_magic }) failed consumed []
      else if not (d.header.version == version_byte)
      then fed (record d { error = bad_version }) failed consumed []
      else if ltb max_payload d.header.payload_len
      then fed (record d { error = payload_too_large }) failed consumed []
      else if d.header.payload_len == 0
      then fed (record d { state = complete }) ready consumed []
      else feed_payload (enter_payload (accepts d.header.type d.header.payload_len) d) piece
          consumed

  unfoldable pub end_header : Decoder → Bytes → ℕ → Fed
  end_header d piece consumed =
      if ltb d.head_got header_size
      then fed d need_more consumed []
      else open_frame (record d { header = decode_header d.head_raw }) piece consumed

  -- The branch `state_ == State::Header`.
  unfoldable pub feed_header : Decoder → Bytes → Fed
  feed_header d piece =
      let n = min (header_size - d.head_got) (length piece) in
      end_header (copy_header d (take n piece)) piece n

  unfoldable pub feed_in : State → Decoder → Bytes → Fed
  feed_in complete d piece = fed d ready 0 []
  feed_in in_header d piece = feed_header d piece
  feed_in in_payload d piece = feed_payload d piece 0

  unfoldable pub feed : Decoder → Bytes → Fed
  feed d piece = feed_in d.state d piece
