-- ===== src/Payload/Reader.antt =====
-- PayloadReader, 01.Sources/SERVER/src/net/FrameDecoder.h and FrameDecoder.cpp. A read returns its
-- result, `none` where the source returns `false`, and the reader after it.
use assignment_logger_analyz.Prelude.{
  ℕ, ◌+◌, ◌-◌, ltb, if◌then◌else◌, Bool, true, false, not, ◌||◌, Option, none, some, Bytes, length,
  take, drop, get_or,
}
use assignment_logger_analyz.Protocol.{load_be16, load_be32, load_be64}

pub record Reader : Type 0 where
  pub buf : Bytes
  pub pos : ℕ
  pub ok : Bool

abbrev pub reader : Bytes → Reader
reader buf = record { buf = buf; pos = 0; ok = true }

abbrev pub remaining : Reader → ℕ
remaining r = length r.buf - r.pos

unfoldable pub need : Reader → ℕ → Bool × Reader
need r n = if not r.ok || ltb (remaining r) n then (false, record r { ok = false }) else (true, r)

-- What the four integer reads share: the guard, the load at `pos`, the step past the bytes.
unfoldable pub read_int : ℕ → (Bytes → ℕ) → Reader → Option ℕ × Reader
unfolding need
read_int n load r =
    let (enough, r') = need r n in
    if enough
    then (some (load (drop r'.pos r'.buf)), record r' { pos = r'.pos + n })
    else (none, r')

-- buf_[pos_]
abbrev pub load_u8 : Bytes → ℕ
load_u8 p = get_or p 0 0

unfoldable pub u8 : Reader → Option ℕ × Reader
unfolding read_int
u8 = read_int 1 load_u8

unfoldable pub u16 : Reader → Option ℕ × Reader
unfolding read_int
u16 = read_int 2 load_be16

unfoldable pub u32 : Reader → Option ℕ × Reader
unfolding read_int
u32 = read_int 4 load_be32

unfoldable pub u64 : Reader → Option ℕ × Reader
unfolding read_int
u64 = read_int 8 load_be64

-- The bytes behind the length field, if it was read.
unfoldable pub str_body : Option ℕ × Reader → Option Bytes × Reader
unfolding need
str_body (none, r) = (none, r)
str_body (some n, r) =
    let (enough, r') = need r n in
    if enough
    then (some (take n (drop r'.pos r'.buf)), record r' { pos = r'.pos + n })
    else (none, r')

unfoldable pub str16 : Reader → Option Bytes × Reader
unfolding str_body u16
str16 r = str_body (u16 r)
