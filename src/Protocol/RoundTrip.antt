-- ===== src/Protocol/RoundTrip.antt =====
-- Storing and loading integers and frame headers are inverse to each other.
use assignment_logger_analyz.Prelude.Bits.{bit_or_field, bit_or_parts}
use assignment_logger_analyz.Prelude.{
  ℕ, suc, ◌+◌, ◌*◌, ◌/◌, ◌%◌, ◌^◌, ◌<◌, ◌≡◌, refl, ap, ◌∙◌, ◌∷◌, ◌++◌, Bytes, length, arith,
}
use assignment_logger_analyz.Protocol.{
  FrameHeader, type_byte, byte_type, store_be16, store_be32, store_loop, store_be64, load_be16,
  load_be32, load_loop, load_be64, encode_header, decode_header,
}

load_be16_lem :
    (a b : ℕ) (rest : Bytes) → a < 256 → b < 256 → load_be16 (a ∷ b ∷ rest) ≡ a * 256 + b
unfolding load_be16
load_be16_lem a b rest ha hb = omega (arith, bit_or_field 8 a b)

pub load_be16-store : (v : ℕ) (rest : Bytes) → v < 2 ^ 16 → load_be16 (store_be16 v ++ rest) ≡ v
unfolding store_be16
load_be16-store v rest h = omega (arith, load_be16_lem (v / 2 ^ 8 % 256) (v / 2 ^ 0 % 256) rest)

load_be32_lem :
    (a b c d : ℕ) (rest : Bytes)
    → a < 256
    → b < 256
    → c < 256
    → d < 256
    → load_be32 (a ∷ b ∷ c ∷ d ∷ rest) ≡ a * 2 ^ 24 + b * 2 ^ 16 + c * 2 ^ 8 + d
unfolding load_be32
load_be32_lem a b c d rest ha hb hc hd =
    bit_or_parts 8 ((a * 256 + b) * 256 + c) d
      (bit_or_parts 16 (a * 256 + b) (c * 2 ^ 8)
          (bit_or_parts 24 a (b * 2 ^ 16) (omega arith) (omega arith) (omega arith) ∙ omega arith)
          (omega arith) (omega arith)
        ∙ omega arith)
      refl (omega arith)
    ∙ omega arith

pub load_be32-store : (v : ℕ) (rest : Bytes) → v < 2 ^ 32 → load_be32 (store_be32 v ++ rest) ≡ v
unfolding store_be32
load_be32-store v rest h = omega (
  arith,
  load_be32_lem (v / 2 ^ 24 % 256) (v / 2 ^ 16 % 256) (v / 2 ^ 8 % 256) (v / 2 ^ 0 % 256) rest,
)

-- One round of the loop appends a digit in base 256, as long as the word has room for it.
load_loop-suc :
    (n d v v' : ℕ) (p : Bytes)
    → d < 256
    → v < 2 ^ 56
    → v * 256 + d ≡ v'
    → load_loop (suc n) (d ∷ p) v ≡ load_loop n p v'
unfolding load_loop
load_loop-suc n d v v' p hd hv e =
    ap (load_loop n p) (bit_or_parts 8 v d (omega arith) refl (omega arith) ∙ e)

load_loop-zero : (v : ℕ) (p : Bytes) → load_loop 0 p v ≡ v
unfolding load_loop
load_loop-zero v p = refl

load_loop-store : (v : ℕ) (rest : Bytes) → v < 2 ^ 64 → load_loop 8 (store_loop 8 0 v ++ rest) 0 ≡ v
unfolding store_loop
load_loop-store v rest h =
    load_loop-suc 7 (v / 2 ^ 56 % 256) 0 (v / 2 ^ 56) _ (omega arith) (omega arith) (omega arith)
    ∙ load_loop-suc 6 (v / 2 ^ 48 % 256) (v / 2 ^ 56) (v / 2 ^ 48) _ (omega arith) (omega arith)
        (omega arith)
    ∙ load_loop-suc 5 (v / 2 ^ 40 % 256) (v / 2 ^ 48) (v / 2 ^ 40) _ (omega arith) (omega arith)
        (omega arith)
    ∙ load_loop-suc 4 (v / 2 ^ 32 % 256) (v / 2 ^ 40) (v / 2 ^ 32) _ (omega arith) (omega arith)
        (omega arith)
    ∙ load_loop-suc 3 (v / 2 ^ 24 % 256) (v / 2 ^ 32) (v / 2 ^ 24) _ (omega arith) (omega arith)
        (omega arith)
    ∙ load_loop-suc 2 (v / 2 ^ 16 % 256) (v / 2 ^ 24) (v / 2 ^ 16) _ (omega arith) (omega arith)
        (omega arith)
    ∙ load_loop-suc 1 (v / 2 ^ 8 % 256) (v / 2 ^ 16) (v / 2 ^ 8) _ (omega arith) (omega arith)
        (omega arith)
    ∙ load_loop-suc 0 (v / 2 ^ 0 % 256) (v / 2 ^ 8) v _ (omega arith) (omega arith) (omega arith)
    ∙ load_loop-zero v rest

pub load_be64-store : (v : ℕ) (rest : Bytes) → v < 2 ^ 64 → load_be64 (store_be64 v ++ rest) ≡ v
unfolding load_be64 store_be64
load_be64-store v rest h = load_loop-store v rest h

pub type_byte-byte_type : (b : ℕ) → type_byte (byte_type b) ≡ b
unfolding type_byte byte_type
type_byte-byte_type b = ground arith

-- Every field fits its width, and the type is the one that its byte stands for.
pub record FitsWire (h : FrameHeader) : Type 0 where
  pub magic : h.magic < 2 ^ 32
  pub type : byte_type (type_byte h.type) ≡ h.type
  pub flags : h.flags < 2 ^ 16
  pub payload_len : h.payload_len < 2 ^ 64

-- A frame header that fits its fields' widths is decoded, from the 16 bytes that encode it and
-- whatever stands behind them, to itself.
pub decode_header-encode_header :
    (h : FrameHeader) (rest : Bytes) → FitsWire h → decode_header (encode_header h ++ rest) ≡ h
unfolding decode_header encode_header
decode_header-encode_header h rest f = λ i. record {
  magic =
      load_be32-store h.magic
        (h.version ∷ type_byte h.type ∷ (store_be16 h.flags ++ store_be64 h.payload_len) ++ rest)
        f.magic i;
  version = h.version;
  type = f.type i;
  flags = load_be16-store h.flags (store_be64 h.payload_len ++ rest) f.flags i;
  payload_len = load_be64-store h.payload_len rest f.payload_len i;
}

pub length-encode_header : (h : FrameHeader) → length (encode_header h) ≡ 16
unfolding encode_header
length-encode_header h = refl
