-- ===== src/Tests/Frames.antt =====
-- The theorems on frames, payloads and lines, at sample data.
use assignment_logger_analyz.Prelude.{
  ℕ, ◌≡◌, ◌↔◌, refl, Bool, false, some, List, [], ◌∷◌, ◌++◌, Bytes, codes, arith,
}
use assignment_logger_analyz.Tests.Samples.{hello_head, hello_tail}
use assignment_logger_analyz.Protocol.{
  MsgType, hello, byte_type, type_byte, FrameHeader, encode_header, decode_header, default_header,
}
use assignment_logger_analyz.Protocol.RoundTrip.{decode_header-encode_header}
use assignment_logger_analyz.Payload.Reader.{reader}
use assignment_logger_analyz.Payload.RoundTrip.{Field, word16, text, put_all, Gets, put_all-Gets}
use assignment_logger_analyz.Decoder.{
  fresh, feed, feed_in, feed_header, end_header, copy_header, copy_at,
}
use assignment_logger_analyz.Decoder.Pieces.{after}
use assignment_logger_analyz.Decoder.Serialize.{serialize_frame}
use assignment_logger_analyz.Decoder.Fragments.{feed-append}
use assignment_logger_analyz.Decoder.Bounds.{Valid, feed-Valid, fresh-Valid}
use assignment_logger_analyz.Decoder.Progress.{Outcome, feed-progress, fresh-Open}
use assignment_logger_analyz.Decoder.Frames.{Done, frame_header, feed-serialize_frame}
use assignment_logger_analyz.LogLine.Whitelist.{
  antenna_profile_spec, lookup_module, module_name, lookup_module_iff,
}
use assignment_logger_analyz.Splitter.{newline, new_splitter, split_line, strip_cr}
use assignment_logger_analyz.Splitter
use assignment_logger_analyz.Splitter.Segments.{segments}
use assignment_logger_analyz.Splitter.Stream.{feed_stream, stream_lines, concat, feed_stream-lines}
use assignment_logger_analyz.Splitter.Counts.{
  Passed, Bounded, newlines, feed-Kept, feed_depends_on_pieces,
}

abbrev refusing : MsgType → ℕ → Bool
refusing t n = false

feed-append_example :
    feed refusing fresh (hello_head ++ hello_tail)
    ≡ after 8
        (feed refusing fresh hello_head).chunk
        (feed refusing (feed refusing fresh hello_head).decoder hello_tail)
unfolding feed feed_in feed_header end_header copy_header copy_at
feed-append_example = feed-append refusing fresh hello_head hello_tail fresh-Valid refl

feed-Valid_example : Valid (feed refusing fresh hello_tail).decoder
feed-Valid_example = feed-Valid refusing fresh hello_tail fresh-Valid

feed-progress_example : Outcome (feed refusing fresh hello_head)
feed-progress_example =
    feed-progress refusing fresh 0x42 (0x59 ∷ 0x44 ∷ 0x41 ∷ 1 ∷ 1 ∷ 0 ∷ 0 ∷ []) fresh-Open
      fresh-Valid

feed-serialize_frame_example :
    Done refusing
      (record fresh { header = frame_header hello (codes "abc") })
      (codes "abc")
      (feed refusing fresh (serialize_frame hello (codes "abc") ++ hello_head))
unfolding type_byte byte_type
feed-serialize_frame_example =
    feed-serialize_frame refusing fresh hello (codes "abc") hello_head
      (record { state = refl; head_raw = refl; head_got = refl; payload = refl; streaming = refl })
      refl (omega arith)

abbrev fields : List Field
fields = word16 1 ∷ text (codes "ab") ∷ []

put_all-Gets_example : Gets (reader (put_all [] fields)) fields
put_all-Gets_example = put_all-Gets fields (omega arith, (omega arith, tt))

abbrev hello_header : FrameHeader
hello_header = record default_header { type = hello; payload_len = 6 }

decode_header-encode_header_example :
    decode_header (encode_header hello_header ++ hello_tail) ≡ hello_header
unfolding type_byte byte_type
decode_header-encode_header_example =
    decode_header-encode_header hello_header hello_tail
      (record { magic = omega arith; type = refl; flags = omega arith; payload_len = omega arith })

lookup_module_iff_example :
    (lookup_module (codes "AntennaProfileSpec") ≡ some antenna_profile_spec)
    ↔ (codes "AntennaProfileSpec" ≡ codes (module_name antenna_profile_spec))
lookup_module_iff_example = lookup_module_iff (codes "AntennaProfileSpec") antenna_profile_spec

abbrev pieces : List Bytes
pieces = (b'a' ∷ newline ∷ b'b' ∷ []) ∷ (b'c' ∷ newline ∷ b'd' ∷ []) ∷ []

feed_stream-lines_example :
    ((feed_stream (new_splitter 8) pieces).1 ≡ stream_lines (segments (concat pieces)))
    × ((feed_stream (new_splitter 8) pieces).0.oversize ≡ 0)
unfolding segments
feed_stream-lines_example = feed_stream-lines 8 pieces (ground arith)

feed-Kept_example :
    Passed
      (new_splitter 2)
      (Splitter.feed (new_splitter 2) (codes "abcdef")).0
      (newlines (codes "abcdef"))
    × Bounded (Splitter.feed (new_splitter 2) (codes "abcdef")).0
    × ((Splitter.feed (new_splitter 2) (codes "abcdef")).0.max_line ≡ 2)
feed-Kept_example =
    feed-Kept (new_splitter 2) (codes "abcdef")
      (record { carry = omega arith; discarded = λ e. refl })

feed_depends_on_pieces_example :
    let whole = Splitter.feed (new_splitter 2) (codes "abc" ++ newline ∷ []) in
    let cut = Splitter.feed (new_splitter 2) (codes "abc") in
    let later = Splitter.feed cut.0 (newline ∷ []) in
    (whole.1 ≡ record { text = strip_cr (codes "abc"); raw_bytes = 4 } ∷ [])
    × (whole.0.oversize ≡ 0)
    × (cut.1 ++ later.1 ≡ [])
    × (later.0.oversize ≡ 1)
unfolding split_line
feed_depends_on_pieces_example = feed_depends_on_pieces 2 (codes "abc") refl (omega arith)
