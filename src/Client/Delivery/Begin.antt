-- ===== src/Client/Delivery/Begin.antt =====
-- What the frames of a result hold, as the client reads them.
use assignment_logger_analyz.Prelude.{
  ℕ, ◌^◌, ◌≤◌, ◌<◌, ◌≡◌, refl, ap, ◌∙◌, true, false, Option, none, some, [], ◌∷◌, ◌++◌,
  append_assoc, append-nil, Bytes, codes, length, arith,
}
use assignment_logger_analyz.Protocol.{
  MsgType, byte_type, type_byte, result_begin, result_chunk, result_end, max_payload, store_be64,
  store_loop, store_be16,
}
use assignment_logger_analyz.Payload.Writer
use assignment_logger_analyz.Payload.Reader
use assignment_logger_analyz.Payload.Reader.{Reader, reader}
use assignment_logger_analyz.Payload.RoundTrip.{word64, text, put, put_all, put_all-Gets}
use assignment_logger_analyz.Decoder.Serialize.{serialize_frame}
use assignment_logger_analyz.Session.Queue.{
  pieces, chunk_frames, result_begin_payload, result_frames, flat, flat-append,
}
use assignment_logger_analyz.Client.Actions.{done}
use assignment_logger_analyz.Client.Texts.{or_fail}
use assignment_logger_analyz.Client.Frames.{same_type}
use assignment_logger_analyz.Client.Result.{begin_fields, max_csv_bytes}

-- The size that RESULT_BEGIN carries.
begin_size :
    (csv : Bytes)
    → length csv < 2 ^ 64
    → (Reader.u64 (reader (result_begin_payload csv))).0 ≡ some (length csv)
unfolding put_all put
begin_size csv k =
    (put_all-Gets (word64 (length csv) ∷ text (codes "result.csv") ∷ []) (k, (omega arith, tt))).0

pub begin_fields-size :
    (csv : Bytes)
    → length csv < 2 ^ 64
    → (begin_fields (reader (result_begin_payload csv))).0 ≡ done (length csv)
unfolding begin_fields
begin_fields-size csv k = found (Reader.u64 (reader (result_begin_payload csv))) (begin_size csv k)
  where
    found :
        (r : Option ℕ × Reader)
        → r.0 ≡ some (length csv)
        → (or_fail (codes "malformed RESULT_BEGIN payload") r).0 ≡ done (length csv)
    found (some n, r) e = ground (arith, e)
    found (none, r) e = absurd (ground (arith, e))

pub begin_named : byte_type (type_byte result_begin) ≡ result_begin
unfolding byte_type type_byte
begin_named = refl

pub chunk_named : byte_type (type_byte result_chunk) ≡ result_chunk
unfolding byte_type type_byte
chunk_named = refl

pub end_named : byte_type (type_byte result_end) ≡ result_end
unfolding byte_type type_byte
end_named = refl

pub begin_not_error : same_type result_begin MsgType.error ≡ false
unfolding same_type type_byte
begin_not_error = refl

pub begin_is_begin : same_type result_begin result_begin ≡ true
unfolding same_type type_byte
begin_is_begin = refl

length-result_begin_payload : (csv : Bytes) → length (result_begin_payload csv) ≡ 20
unfolding Writer.str16 Writer.u64 Writer.u16 store_be64 store_loop store_be16
length-result_begin_payload csv = refl

pub begin_short :
    (csv : Bytes) → length csv ≤ max_csv_bytes → length (result_begin_payload csv) ≤ max_payload
begin_short csv b = omega (arith, length-result_begin_payload csv)

-- The frames behind RESULT_BEGIN.
abbrev pub after_begin : Bytes → Bytes → Bytes
after_begin csv rest =
    flat (chunk_frames (pieces (length csv) csv)) ++ (serialize_frame result_end [] ++ rest)

pub split :
    (csv rest : Bytes)
    → flat (result_frames csv) ++ rest
      ≡ serialize_frame result_begin (result_begin_payload csv) ++ after_begin csv rest
unfolding result_frames
split csv rest =
    let begin = serialize_frame result_begin (result_begin_payload csv) in
    let end = serialize_frame result_end [] in
    let middle = chunk_frames (pieces (length csv) csv) in
    append_assoc begin (flat (middle ++ (end ∷ []))) rest
    ∙ ap (λ t. begin ++ (t ++ rest))
        (flat-append middle (end ∷ []) ∙ ap (λ t. flat middle ++ t) (append-nil end))
    ∙ ap (λ t. begin ++ t) (append_assoc (flat middle) end rest)
