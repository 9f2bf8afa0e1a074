-- ===== src/Decoder/Serialize.antt =====
-- serialize_frame and serialize_error, 01.Sources/SERVER/src/net/FrameDecoder.cpp.
use assignment_logger_analyz.Prelude.{◌%◌, ◌^◌, [], ◌++◌, Bytes, length}
use assignment_logger_analyz.Protocol.{
  MsgType, error, ErrorCode, error_number, default_header, encode_header,
}
use assignment_logger_analyz.Payload.Writer

unfoldable pub serialize_frame : MsgType → Bytes → Bytes
serialize_frame type payload =
    encode_header (record default_header { type = type; payload_len = length payload % 2 ^ 64 })
    ++ payload

unfoldable pub serialize_error : ErrorCode → Bytes → Bytes
unfolding serialize_frame
serialize_error code message =
    serialize_frame error (Writer.str16 (Writer.u16 [] (error_number code)) message)
