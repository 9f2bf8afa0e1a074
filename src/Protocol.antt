-- ===== src/Protocol.antt =====
-- The wire format, 01.Sources/SERVER/src/net/Protocol.h: message types, error codes, big-endian
-- integers and the 16-byte frame header. A byte is a number below 256 and a buffer a list of bytes;
-- a read past the end, which the callers exclude, gives 0.
pub mod RoundTrip
use Prim.Native.Nat.{bit_or}
use Prim.Native.String.{String}
use assignment_logger_analyz.Prelude.{
  ℕ, zero, suc, ◌+◌, ◌-◌, ◌*◌, ◌/◌, ◌%◌, ◌^◌, ◌≤◌, ◌<◌, ◌==◌, if◌then◌else◌, List, [], ◌∷◌, ◌++◌,
  Bytes, get_or, drop,
}

abbrev pub magic_word : ℕ
magic_word = 0x42594441

abbrev pub version_byte : ℕ
version_byte = 0x01

abbrev pub header_size : ℕ
header_size = 16

abbrev pub max_payload : ℕ
max_payload = 4 * 1024 * 1024

abbrev pub default_max_chunk : ℕ
default_max_chunk = 1024 * 1024

-- An `enum class` over `uint8_t` holds any byte: `unnamed` is a value that no enumerator names.
pub data MsgType : Type 0 where
  hello hello_ack : MsgType
  upload_begin upload_begin_ack upload_chunk upload_end upload_ack : MsgType
  analyze_progress analyze_done : MsgType
  result_begin result_chunk result_end : MsgType
  cancel error bye : MsgType
  unnamed : ℕ → MsgType

-- static_cast<std::uint8_t>(MsgType)
unfoldable pub type_byte : MsgType → ℕ
type_byte hello = 0x01
type_byte hello_ack = 0x02
type_byte upload_begin = 0x10
type_byte upload_begin_ack = 0x11
type_byte upload_chunk = 0x12
type_byte upload_end = 0x13
type_byte upload_ack = 0x14
type_byte analyze_progress = 0x20
type_byte analyze_done = 0x21
type_byte result_begin = 0x31
type_byte result_chunk = 0x32
type_byte result_end = 0x33
type_byte cancel = 0x40
type_byte error = 0x7E
type_byte bye = 0x7F
type_byte (unnamed b) = b

-- static_cast<MsgType>(std::uint8_t)
unfoldable pub byte_type : ℕ → MsgType
byte_type b =
    if b == 0x01
    then hello
    else if b == 0x02
    then hello_ack
    else if b == 0x10
    then upload_begin
    else if b == 0x11
    then upload_begin_ack
    else if b == 0x12
    then upload_chunk
    else if b == 0x13
    then upload_end
    else if b == 0x14
    then upload_ack
    else if b == 0x20
    then analyze_progress
    else if b == 0x21
    then analyze_done
    else if b == 0x31
    then result_begin
    else if b == 0x32
    then result_chunk
    else if b == 0x33
    then result_end
    else if b == 0x40
    then cancel
    else if b == 0x7E
    then error
    else if b == 0x7F
    then bye
    else unnamed b

pub data ErrorCode : Type 0 where
  none_code bad_magic bad_version unexpected_type payload_too_large size_mismatch : ErrorCode
  internal_io idle_timeout cancelled server_busy shutting_down : ErrorCode

-- static_cast<std::uint16_t>(ErrorCode)
unfoldable pub error_number : ErrorCode → ℕ
error_number none_code = 0
error_number bad_magic = 1
error_number bad_version = 2
error_number unexpected_type = 3
error_number payload_too_large = 4
error_number size_mismatch = 5
error_number internal_io = 6
error_number idle_timeout = 8
error_number cancelled = 9
error_number server_busy = 10
error_number shutting_down = 11

unfoldable pub error_text : ErrorCode → String
error_text none_code = "none"
error_text bad_magic = "bad magic"
error_text bad_version = "unsupported protocol version"
error_text unexpected_type = "unexpected message type for current state"
error_text payload_too_large = "payload too large"
error_text size_mismatch = "declared size mismatch"
error_text internal_io = "internal io error"
error_text idle_timeout = "idle timeout"
error_text cancelled = "cancelled by client"
error_text server_busy = "server busy"
error_text shutting_down = "server shutting down"

unfoldable pub msg_name : MsgType → String
msg_name hello = "HELLO"
msg_name hello_ack = "HELLO_ACK"
msg_name upload_begin = "UPLOAD_BEGIN"
msg_name upload_begin_ack = "UPLOAD_BEGIN_ACK"
msg_name upload_chunk = "UPLOAD_CHUNK"
msg_name upload_end = "UPLOAD_END"
msg_name upload_ack = "UPLOAD_ACK"
msg_name analyze_progress = "ANALYZE_PROGRESS"
msg_name analyze_done = "ANALYZE_DONE"
msg_name result_begin = "RESULT_BEGIN"
msg_name result_chunk = "RESULT_CHUNK"
msg_name result_end = "RESULT_END"
msg_name cancel = "CANCEL"
msg_name error = "ERROR"
msg_name bye = "BYE"
msg_name (unnamed b) = "UNKNOWN"

-- `(v >> shift) & 0xFF`
abbrev pub byte_at : ℕ → ℕ → ℕ
byte_at v shift = v / 2 ^ shift % 256

unfoldable pub store_be16 : ℕ → Bytes
store_be16 v = byte_at v 8 ∷ byte_at v 0 ∷ []

unfoldable pub store_be32 : ℕ → Bytes
store_be32 v = byte_at v 24 ∷ byte_at v 16 ∷ byte_at v 8 ∷ byte_at v 0 ∷ []

-- for (i = 0; i < 8; ++i), counted by the rounds left.
unfoldable pub store_loop : ℕ → ℕ → ℕ → Bytes
store_loop zero i v = []
store_loop (suc n) i v = byte_at v (56 - 8 * i) ∷ store_loop n (i + 1) v

unfoldable pub store_be64 : ℕ → Bytes
unfolding store_loop
store_be64 = store_loop 8 0

unfoldable pub load_be16 : Bytes → ℕ
load_be16 p = bit_or (get_or p 0 0 * 2 ^ 8) (get_or p 1 0) % 2 ^ 16

unfoldable pub load_be32 : Bytes → ℕ
load_be32 p =
    bit_or
      (bit_or (bit_or (get_or p 0 0 * 2 ^ 24 % 2 ^ 32) (get_or p 1 0 * 2 ^ 16 % 2 ^ 32))
        (get_or p 2 0 * 2 ^ 8 % 2 ^ 32))
      (get_or p 3 0)

unfoldable pub load_loop : ℕ → Bytes → ℕ → ℕ
load_loop zero p v = v
load_loop (suc n) [] v = v
load_loop (suc n) (b ∷ p) v = load_loop n p (bit_or (v * 2 ^ 8 % 2 ^ 64) b)

unfoldable pub load_be64 : Bytes → ℕ
unfolding load_loop
load_be64 p = load_loop 8 p 0

pub record FrameHeader : Type 0 where
  pub magic : ℕ
  pub version : ℕ
  pub type : MsgType
  pub flags : ℕ
  pub payload_len : ℕ

-- The member initialisers of `FrameHeader`.
abbrev pub default_header : FrameHeader
default_header = record {
  magic = magic_word;
  version = version_byte;
  type = bye;
  flags = 0;
  payload_len = 0;
}

unfoldable pub encode_header : FrameHeader → Bytes
unfolding store_be16 store_be32 store_be64 type_byte
encode_header h =
    store_be32 h.magic
    ++ (h.version ∷ type_byte h.type ∷ (store_be16 h.flags ++ store_be64 h.payload_len))

unfoldable pub decode_header : Bytes → FrameHeader
unfolding load_be16 load_be32 load_be64 byte_type
decode_header raw = record {
  magic = load_be32 raw;
  version = get_or raw 4 0;
  type = byte_type (get_or raw 5 0);
  flags = load_be16 (drop 6 raw);
  payload_len = load_be64 (drop 8 raw);
}
