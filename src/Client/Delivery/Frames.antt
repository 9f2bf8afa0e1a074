-- ===== src/Client/Delivery/Frames.antt =====
-- The frames of a server arrive, each as it was serialized.
use assignment_logger_analyz.Prelude.{
  ℕ, ◌%◌, ◌^◌, ◌≤◌, ◌≡◌, refl, sym, subst, ap, ◌∙◌, ltb, if-cases, Bool, [], ◌∷◌, ◌++◌,
  append_assoc, append-nil, Bytes, length, arith,
}
use assignment_logger_analyz.Protocol.{
  MsgType, type_byte, byte_type, FrameHeader, default_header, encode_header, decode_header,
  header_size, max_payload,
}
use assignment_logger_analyz.Protocol.RoundTrip.{decode_header-encode_header, length-encode_header}
use assignment_logger_analyz.Decoder.Serialize.{serialize_frame}
use assignment_logger_analyz.Client.Actions.{pure}
use assignment_logger_analyz.Client.Meets.{Meets, Yields, bind-Yields, pure-Meets, guard-Meets}
use assignment_logger_analyz.Client.System.{System}
use assignment_logger_analyz.Client.Socket.{Flag, cancel_flag}
use assignment_logger_analyz.Client.Frames.{read_body, after_header, read_frame}
use assignment_logger_analyz.Client.Delivery.{Line, At}
use assignment_logger_analyz.Client.Delivery.Exact.{recv_exactly-At}

-- A frame that both sides accept: its type is one of the wire's, its payload within the limit.
pub record Sendable (type : MsgType) (payload : Bytes) : Type 0 where
  pub named : byte_type (type_byte type) ≡ type
  pub short : length payload ≤ max_payload

module _ (sys : System) (strict : Bool) (line : Line sys strict) where
  read_body-At :
      (x rest : Bytes) (len idle : ℕ) (flag : Flag)
      → len ≡ length x
      → len ≤ max_payload
      → Meets strict
          (At sys strict line (x ++ rest))
          (Yields strict x (At sys strict line rest))
          (read_body sys len idle flag)
  unfolding read_body
  read_body-At x rest len idle flag e k =
      if-cases
        (Meets strict (At sys strict line (x ++ rest)) (Yields strict x (At sys strict line rest)))
        (ltb 0 len) (λ _. recv_exactly-At sys strict line x rest len idle flag e k)
        (λ l. empty x (ground arith))
    where
      empty :
          (x : Bytes)
          → length x ≤ 0
          → Meets strict
              (At sys strict line (x ++ rest))
              (Yields strict x (At sys strict line rest))
              (pure [])
      empty [] k = pure-Meets strict [] (λ c p. (refl, p))
      empty (b ∷ x) k = absurd (omega arith)

  after_header-At :
      (type : MsgType) (payload rest : Bytes) (idle : ℕ)
      → length payload ≤ max_payload
      → Meets strict
          (At sys strict line (payload ++ rest))
          (Yields strict (record { type = type; payload = payload }) (At sys strict line rest))
          (after_header sys idle
            (record default_header { type = type; payload_len = length payload }))
  unfolding after_header
  after_header-At type payload rest idle k =
      guard-Meets strict _ _ _ (λ c p e. absurd (ground arith))
        (guard-Meets strict _ _ _ (λ c p e. absurd (ground arith))
          (guard-Meets strict _ _ _ (λ c p e. absurd (ground arith))
            (bind-Yields strict payload (At sys strict line rest) _ _
              (read_body-At payload rest (length payload) idle cancel_flag refl k)
              (pure-Meets strict _ (λ c p. (refl, p))))))

  abbrev header_of : MsgType → Bytes → FrameHeader
  header_of type payload = record default_header {
    type = type;
    payload_len = length payload % 2 ^ 64;
  }

  decoded :
      (type : MsgType) (payload : Bytes)
      → Sendable type payload
      → decode_header (encode_header (header_of type payload))
        ≡ record default_header { type = type; payload_len = length payload }
  decoded type payload k =
      ap decode_header (sym (append-nil (encode_header (header_of type payload))))
      ∙ decode_header-encode_header (header_of type payload) [] (record {
        magic = omega arith;
        type = k.named;
        flags = omega arith;
        payload_len = omega arith;
      })
      ∙ ap (λ n. record default_header { type = type; payload_len = n }) (omega (arith, k.short))

  -- read_frame on a stream that begins with a serialized frame, of a type of the wire and with a
  -- payload within the limit, gives its type and its payload and leaves what stands behind it; where
  -- `strict` is true it does so without fail.
  pub read_frame-At :
      (type : MsgType) (payload rest : Bytes) (idle : ℕ)
      → Sendable type payload
      → Meets strict
          (At sys strict line (serialize_frame type payload ++ rest))
          (Yields strict (record { type = type; payload = payload }) (At sys strict line rest))
          (read_frame sys idle)
  unfolding read_frame serialize_frame
  read_frame-At type payload rest idle k =
      subst
        (λ s.
          Meets strict (At sys strict line s)
            (Yields strict (record { type = type; payload = payload }) (At sys strict line rest))
            (read_frame sys idle))
        (sym (append_assoc (encode_header (header_of type payload)) payload rest))
        (bind-Yields strict (encode_header (header_of type payload))
          (At sys strict line (payload ++ rest)) _ _
          (recv_exactly-At sys strict line (encode_header (header_of type payload))
            (payload ++ rest) header_size idle cancel_flag
            (sym (length-encode_header (header_of type payload))) (omega arith))
          (subst
            (λ h.
              Meets strict (At sys strict line (payload ++ rest))
                (Yields strict (record { type = type; payload = payload })
                  (At sys strict line rest))
                (after_header sys idle h))
            (sym (decoded type payload k)) (after_header-At type payload rest idle k.short)))
