-- ===== src/Payload/RoundTrip.antt =====
-- What a writer puts, a reader gets back, field by field; a short buffer is never read past.
use assignment_logger_analyz.Prelude.{
  ℕ, ◌%◌, ◌^◌, ◌≤◌, ◌<◌, ◌≡◌, refl, ap, ◌∙◌, true, some, List, [], ◌∷◌, ◌++◌, append_assoc,
  append-nil, min, Bytes, length, length-append, drop-append_length, take-append_length, take_all,
  arith,
}
use assignment_logger_analyz.Protocol.{
  store_be16, store_be32, store_be64, load_be16, load_be32, load_be64,
}
use assignment_logger_analyz.Protocol.RoundTrip.{load_be16-store, load_be32-store, load_be64-store}
use assignment_logger_analyz.Payload.Writer
use assignment_logger_analyz.Payload.Reader
use assignment_logger_analyz.Payload.Reader.{Reader, reader, remaining, need}

-- The invariant of the reader: it never stands behind the end of its buffer.
abbrev pub InBounds : Reader → Type 0
InBounds r = r.pos ≤ length r.buf

pub need-InBounds : (r : Reader) (n : ℕ) → InBounds r → InBounds (need r n).1
unfolding need
need-InBounds r n h = ground arith

-- One field of a payload.
pub data Field : Type 0 where
  byte : ℕ → Field
  word16 : ℕ → Field
  word32 : ℕ → Field
  word64 : ℕ → Field
  text : Bytes → Field

-- The values that the field's width can hold.
abbrev pub Fits : Field → Type 0
Fits (byte v) = v < 2 ^ 8
Fits (word16 v) = v < 2 ^ 16
Fits (word32 v) = v < 2 ^ 32
Fits (word64 v) = v < 2 ^ 64
Fits (text s) = length s < 2 ^ 16

abbrev pub AllFit : List Field → Type 0
AllFit [] = Unit {0}
AllFit (f ∷ fs) = Fits f × AllFit fs

unfoldable pub put : Bytes → Field → Bytes
put buf (byte v) = Writer.u8 buf v
put buf (word16 v) = Writer.u16 buf v
put buf (word32 v) = Writer.u32 buf v
put buf (word64 v) = Writer.u64 buf v
put buf (text s) = Writer.str16 buf s

unfoldable pub put_all : Bytes → List Field → Bytes
put_all buf [] = buf
put_all buf (f ∷ fs) = put_all (put buf f) fs

-- The reads that a list of fields calls for, each with its result compared to the field.
abbrev pub Gets : Reader → List Field → Type 0
Gets r [] = remaining r ≡ 0
Gets r (byte v ∷ fs) = ((Reader.u8 r).0 ≡ some v) × Gets (Reader.u8 r).1 fs
Gets r (word16 v ∷ fs) = ((Reader.u16 r).0 ≡ some v) × Gets (Reader.u16 r).1 fs
Gets r (word32 v ∷ fs) = ((Reader.u32 r).0 ≡ some v) × Gets (Reader.u32 r).1 fs
Gets r (word64 v ∷ fs) = ((Reader.u64 r).0 ≡ some v) × Gets (Reader.u64 r).1 fs
Gets r (text s ∷ fs) = ((Reader.str16 r).0 ≡ some s) × Gets (Reader.str16 r).1 fs

-- A reader that stands behind `pre`.
abbrev at : Bytes → Bytes → Reader
at pre rest = record { buf = pre ++ rest; pos = length pre; ok = true }

-- The guard of a read passes when the bytes are there, and the load sees them first.
read_int-at :
    (n : ℕ) (load : Bytes → ℕ) (pre w rest : Bytes)
    → length w ≡ n
    → Reader.read_int n load (at pre (w ++ rest)) ≡ (some (load (w ++ rest)), at (pre ++ w) rest)
unfolding Reader.read_int
read_int-at n load pre w rest e = ground (
  arith,
  length-append pre (w ++ rest),
  length-append w rest,
  length-append pre w,
  drop-append_length (length pre) pre (w ++ rest) refl,
  append_assoc pre w rest,
)

u8-at :
    (pre rest : Bytes) (v : ℕ) → Reader.u8 (at pre (v ∷ rest)) ≡ (some v, at (pre ++ v ∷ []) rest)
unfolding Reader.u8
u8-at pre rest v = read_int-at 1 Reader.load_u8 pre (v ∷ []) rest refl

module _ (pre rest : Bytes) (v : ℕ) where
  u16-at :
      v < 2 ^ 16
      → Reader.u16 (at pre (store_be16 v ++ rest)) ≡ (some v, at (pre ++ store_be16 v) rest)
  unfolding Reader.u16
  u16-at h =
      read_int-at 2 load_be16 pre (store_be16 v) rest (unfold store_be16 in refl)
      ∙ rw (load_be16-store v rest h)

  u32-at :
      v < 2 ^ 32
      → Reader.u32 (at pre (store_be32 v ++ rest)) ≡ (some v, at (pre ++ store_be32 v) rest)
  unfolding Reader.u32
  u32-at h =
      read_int-at 4 load_be32 pre (store_be32 v) rest (unfold store_be32 in refl)
      ∙ rw (load_be32-store v rest h)

  u64-at :
      v < 2 ^ 64
      → Reader.u64 (at pre (store_be64 v ++ rest)) ≡ (some v, at (pre ++ store_be64 v) rest)
  unfolding Reader.u64
  u64-at h =
      read_int-at 8 load_be64 pre (store_be64 v) rest (unfold store_be64 in refl)
      ∙ rw (load_be64-store v rest h)

str_body-at :
    (pre s rest : Bytes)
    → Reader.str_body (some (length s), at pre (s ++ rest)) ≡ (some s, at (pre ++ s) rest)
unfolding Reader.str_body
str_body-at pre s rest = ground (
  arith,
  length-append pre (s ++ rest),
  length-append s rest,
  length-append pre s,
  drop-append_length (length pre) pre (s ++ rest) refl,
  take-append_length (length s) s rest refl,
  append_assoc pre s rest,
)

str16-at :
    (pre s rest : Bytes)
    → length s < 2 ^ 16
    → Reader.str16 (at pre (store_be16 (length s) ++ (s ++ rest)))
      ≡ (some s, at (pre ++ store_be16 (length s) ++ s) rest)
unfolding Reader.str16
str16-at pre s rest h =
    ap Reader.str_body (u16-at pre (s ++ rest) (length s) h)
    ∙ str_body-at (pre ++ store_be16 (length s)) s rest

-- The bytes of a field.
bytes : Field → Bytes
bytes (byte v) = v ∷ []
bytes (word16 v) = store_be16 v
bytes (word32 v) = store_be32 v
bytes (word64 v) = store_be64 v
bytes (text s) = store_be16 (length s) ++ s

pub str16-bytes :
    (buf s : Bytes) → length s < 2 ^ 16 → Writer.str16 buf s ≡ buf ++ (store_be16 (length s) ++ s)
unfolding Writer.str16
str16-bytes buf s h =
    let uncut : min (length s) 0xFFFF ≡ length s = omega arith in
    let small : length s % 2 ^ 16 ≡ length s = omega arith in
    rw (uncut, small, take_all (length s) s (omega arith), append_assoc)

put-bytes : (buf : Bytes) (f : Field) → Fits f → put buf f ≡ buf ++ bytes f
unfolding put bytes Writer.u8 Writer.u16 Writer.u32 Writer.u64
put-bytes buf (byte v) h = refl
put-bytes buf (word16 v) h = refl
put-bytes buf (word32 v) h = refl
put-bytes buf (word64 v) h = refl
put-bytes buf (text s) h = str16-bytes buf s h

all_bytes : List Field → Bytes
all_bytes [] = []
all_bytes (f ∷ fs) = bytes f ++ all_bytes fs

put_all-bytes : (buf : Bytes) (fs : List Field) → AllFit fs → put_all buf fs ≡ buf ++ all_bytes fs
unfolding put_all all_bytes
put_all-bytes buf [] h = rw append-nil
put_all-bytes buf (f ∷ fs) h =
    put_all-bytes (put buf f) fs h.1
    ∙ rw (put-bytes buf f h.0) (append_assoc buf (bytes f) (all_bytes fs))

Gets-at : (fs : List Field) (pre : Bytes) → AllFit fs → Gets (at pre (all_bytes fs)) fs
unfolding all_bytes bytes
Gets-at [] pre h = omega (arith, length-append pre [])
Gets-at (byte v ∷ fs) pre h = rw (u8-at pre (all_bytes fs) v) (refl, Gets-at fs (pre ++ v ∷ []) h.1)
Gets-at (word16 v ∷ fs) pre h =
    rw (u16-at pre (all_bytes fs) v h.0) (refl, Gets-at fs (pre ++ store_be16 v) h.1)
Gets-at (word32 v ∷ fs) pre h =
    rw (u32-at pre (all_bytes fs) v h.0) (refl, Gets-at fs (pre ++ store_be32 v) h.1)
Gets-at (word64 v ∷ fs) pre h =
    rw (u64-at pre (all_bytes fs) v h.0) (refl, Gets-at fs (pre ++ store_be64 v) h.1)
Gets-at (text s ∷ fs) pre h =
    rw (append_assoc (store_be16 (length s)) s (all_bytes fs), str16-at pre s (all_bytes fs) h.0)
      (refl, Gets-at fs (pre ++ store_be16 (length s) ++ s) h.1)

-- A payload written field by field, each value within its field's width, is read back as the
-- fields in order, and nothing is left behind them.
pub put_all-Gets : (fs : List Field) → AllFit fs → Gets (reader (put_all [] fs)) fs
put_all-Gets fs h = rw (put_all-bytes [] fs h) (Gets-at fs [] h)
