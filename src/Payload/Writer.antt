-- ===== src/Payload/Writer.antt =====
-- PayloadWriter, 01.Sources/SERVER/src/net/FrameDecoder.h and FrameDecoder.cpp. The writer is its
-- buffer, and each operation returns the buffer after it.
use assignment_logger_analyz.Prelude.{ℕ, ◌%◌, ◌^◌, [], ◌∷◌, ◌++◌, min, Bytes, length, take}
use assignment_logger_analyz.Protocol.{store_be16, store_be32, store_be64}

unfoldable pub u8 : Bytes → ℕ → Bytes
u8 buf v = buf ++ (v ∷ [])

unfoldable pub u16 : Bytes → ℕ → Bytes
u16 buf v = buf ++ store_be16 v

unfoldable pub u32 : Bytes → ℕ → Bytes
u32 buf v = buf ++ store_be32 v

unfoldable pub u64 : Bytes → ℕ → Bytes
u64 buf v = buf ++ store_be64 v

-- Cut to 65535 bytes, the most that the length field can say.
unfoldable pub str16 : Bytes → Bytes → Bytes
unfolding u16
str16 buf s = let n = min (length s) 0xFFFF in u16 buf (n % 2 ^ 16) ++ take n s
