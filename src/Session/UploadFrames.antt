-- ===== src/Session/UploadFrames.antt =====
-- The frames of an upload, UPLOAD_BEGIN, UPLOAD_CHUNK and UPLOAD_END of the protocol, and that a session between two
-- frames has them ahead, as 01.Sources/SERVER/src/net/TcpSession.cpp reads them.
use assignment_logger_analyz.Prelude.{
  ℕ, ◌^◌, ◌≤◌, ◌<◌, ◌≡◌, refl, subst, true, false, if◌then◌else◌, some, List, [], ◌∷◌, ◌++◌, Bytes,
  length, arith,
}
use assignment_logger_analyz.Protocol.{
  byte_type, type_byte, store_be64, upload_chunk, upload_end, default_max_chunk, store_be16,
  max_payload, upload_begin,
}
use assignment_logger_analyz.Payload.Writer
use assignment_logger_analyz.Payload.RoundTrip.{
  word64, text, put, put_all, put_all-Gets, str16-bytes,
}
use assignment_logger_analyz.Splitter.Stream.{concat}
use assignment_logger_analyz.Decoder.{Decoder}
use assignment_logger_analyz.Decoder.Bounds.{Valid}
use assignment_logger_analyz.Decoder.Frames.{Between, chosen}
use assignment_logger_analyz.Decoder.Serialize.{serialize_frame}
use assignment_logger_analyz.Decoder.Ahead.{Frame, Ahead, serialize_frame-Ahead}
use assignment_logger_analyz.Session.State.{uploading, ready}
use assignment_logger_analyz.Session.Upload.{stream_payload, read_upload_begin, read_upload_end}

-- The frames that carry the pieces of a file, and the one that ends it.
abbrev pub upload_chunks : List Bytes → Bytes
upload_chunks [] = []
upload_chunks (p ∷ ps) = serialize_frame upload_chunk p ++ upload_chunks ps

abbrev pub end_frame_of : ℕ → Bytes
end_frame_of size = serialize_frame upload_end (Writer.u64 [] size)

-- No piece is empty, nor longer than a chunk may be.
abbrev pub Sized : List Bytes → Type 0
Sized [] = Unit {0}
Sized (p ∷ ps) = (0 < length p) × (length p ≤ default_max_chunk) × Sized ps

abbrev pub chunk_kind : Frame
chunk_kind = record { type = upload_chunk; streaming = true; payload = [] }

abbrev pub end_kind : ℕ → Frame
end_kind size = record { type = upload_end; streaming = false; payload = Writer.u64 [] size }

pub upload_chunk-Ahead :
    (d : Decoder) (p : Bytes)
    → Between d
    → Valid d
    → 0 < length p
    → length p ≤ default_max_chunk
    → Ahead (stream_payload uploading) chunk_kind (serialize_frame upload_chunk p) p d
unfolding byte_type type_byte
upload_chunk-Ahead d [] b v more fits = absurd (omega (arith, more))
upload_chunk-Ahead d (c ∷ p) b v more fits =
    subst
      (λ t.
        Ahead (stream_payload uploading)
          (record { type = upload_chunk; streaming = t; payload = if t then [] else c ∷ p })
          (serialize_frame upload_chunk (c ∷ p)) (if t then c ∷ p else []) d)
      streamed
      (serialize_frame-Ahead (stream_payload uploading) d upload_chunk (c ∷ p) b v refl
        (omega (arith, fits)))
  where
    streamed : stream_payload uploading upload_chunk (length (c ∷ p)) ≡ true
    streamed = unfold stream_payload in ground (arith, fits)

pub upload_end-Ahead :
    (d : Decoder) (size : ℕ)
    → Between d
    → Valid d
    → Ahead (stream_payload uploading) (end_kind size) (end_frame_of size) [] d
unfolding stream_payload byte_type type_byte Writer.u64 store_be64
upload_end-Ahead d size b v =
    serialize_frame-Ahead (stream_payload uploading) d upload_end (Writer.u64 [] size) b v refl
      (omega arith)

-- The payloads of UPLOAD_BEGIN and UPLOAD_END are read back.
pub read_upload_end-size : (n : ℕ) → n < 2 ^ 64 → read_upload_end (Writer.u64 [] n) ≡ some n
unfolding read_upload_end put_all put
read_upload_end-size n k = (put_all-Gets (word64 n ∷ []) (k, tt)).0

abbrev pub begin_payload_of : ℕ → Bytes → Bytes
begin_payload_of size name = Writer.str16 (Writer.u64 [] size) name

pub read_upload_begin-name :
    (n : ℕ) (name : Bytes)
    → n < 2 ^ 64
    → length name < 2 ^ 16
    → read_upload_begin (begin_payload_of n name) ≡ some (n, name)
unfolding read_upload_begin put_all put
read_upload_begin-name n name k l =
    let (a, (b, _)) = put_all-Gets (word64 n ∷ text name ∷ []) (k, (l, tt)) in rw (a, b) refl

abbrev pub begin_kind : ℕ → Bytes → Frame
begin_kind size name = record {
  type = upload_begin;
  streaming = false;
  payload = begin_payload_of size name;
}

-- The frames of an upload, as a client sends them.
abbrev pub upload_stream : Bytes → List Bytes → Bytes
upload_stream name ps =
    let size = length (concat ps) in
    serialize_frame upload_begin (begin_payload_of size name)
    ++ (upload_chunks ps ++ end_frame_of size)

length-begin_payload_of :
    (size : ℕ) (name : Bytes)
    → length name < 2 ^ 16
    → length (begin_payload_of size name) ≤ max_payload
unfolding Writer.u64 store_be64 store_be16
length-begin_payload_of size name k =
    rw (str16-bytes (Writer.u64 [] size) name k) (omega (arith, k))

pub upload_begin-Ahead :
    (d : Decoder) (size : ℕ) (name : Bytes)
    → Between d
    → Valid d
    → length name < 2 ^ 16
    → Ahead
        (stream_payload ready)
        (begin_kind size name)
        (serialize_frame upload_begin (begin_payload_of size name))
        []
        d
unfolding byte_type type_byte
upload_begin-Ahead d size name b v k =
    let p = begin_payload_of size name in
    subst
      (λ t.
        Ahead (stream_payload ready)
          (record { type = upload_begin; streaming = t; payload = if t then [] else p })
          (serialize_frame upload_begin p) (if t then p else []) d)
      (buffered p)
      (serialize_frame-Ahead (stream_payload ready) d upload_begin p b v refl
        (length-begin_payload_of size name k))
  where
    buffered : (p : Bytes) → chosen (stream_payload ready) upload_begin p ≡ false
    buffered [] = refl
    buffered (c ∷ p) = unfold stream_payload in refl
