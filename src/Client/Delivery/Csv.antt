-- ===== src/Client/Delivery/Csv.antt =====
-- The result that a server queues is the result that the client keeps.
use assignment_logger_analyz.Prelude.{
  ℕ, zero, suc, ◌+◌, ◌≤◌, ◌<◌, ◌≡◌, refl, sym, subst, ap, ◌∙◌, ltb, ◌==◌, not, Bool, true, false,
  List, [], ◌∷◌, ◌++◌, append_assoc, append-nil, Bytes, codes, length, length-append, arith,
}
use assignment_logger_analyz.Protocol.{MsgType, type_byte, result_begin, result_chunk, result_end}
use assignment_logger_analyz.Payload.Reader.{reader}
use assignment_logger_analyz.Decoder.Serialize.{serialize_frame}
use assignment_logger_analyz.Session.Queue.{
  pieces, chunk_frames, result_begin_payload, result_frames, flat, flat-pieces, length-pieces,
  AllShort, pieces-AllShort,
}
use assignment_logger_analyz.Client.Actions.{Action, done, raise_if}
use assignment_logger_analyz.Client.Meets.{
  OnResult, Meets, Yields, bind-Yields, pure-Meets, guard-Meets, modify-Meets, out_of_passes-Meets,
}
use assignment_logger_analyz.Client.System.{System}
use assignment_logger_analyz.Client.State.{Client}
use assignment_logger_analyz.Client.Texts.{Fields, reading}
use assignment_logger_analyz.Client.Frames.{Frame, same_type}
use assignment_logger_analyz.Client.Handshake.{expect}
use assignment_logger_analyz.Client.Result.{
  begin_fields, after_result_frame, result_loop, keep_csv, receive_result, max_csv_bytes,
}
use assignment_logger_analyz.Client.Delivery.{Line, At, lax, log-At}
use assignment_logger_analyz.Client.Delivery.Frames.{read_frame-At}
use assignment_logger_analyz.Client.Delivery.Begin.{
  begin_fields-size, begin_named, chunk_named, end_named, begin_not_error, begin_is_begin,
  begin_short, split, after_begin,
}

module _ (sys : System) (strict : Bool) (line : Line sys strict) where
  abbrev On : Bytes → Client sys → Type 0
  On = At sys strict line

  -- The same stream, written otherwise.
  moved :
      {A : Type 0} {Q : A → Client sys → Type 0} {m : Action (Client sys) A} (s s' : Bytes)
      → s' ≡ s
      → Meets strict (On s) Q m
      → Meets strict (On s') Q m
  moved s s' e k = record {
    meet = λ c p. k.meet c (record { ahead = p.ahead ∙ e; uncancelled = p.uncancelled });
  }

  raise_if-On :
      (b : Bool) (e : Bytes) (s : Bytes)
      → b ≡ false
      → Meets strict (On s) (Yields strict tt (On s)) (raise_if b e)
  unfolding raise_if
  raise_if-On false e s k = record { meet = λ c p. (refl, p) }
  raise_if-On true e s k = absurd (ground (arith, k))

  -- A frame of the type that is waited for, which is not ERROR.
  pub expect-On :
      (type : MsgType) (message : Bytes) (f : Frame) (s : Bytes)
      → same_type f.type MsgType.error ≡ false
      → same_type f.type type ≡ true
      → Meets strict (On s) (Yields strict tt (On s)) (expect sys type message f)
  unfolding expect
  expect-On type message f s a b =
      guard-Meets strict _ _ _ (λ c p e. absurd (ground (arith, a)))
        (raise_if-On (not (same_type f.type type)) _ s (ground (arith, b)))

  pub reading-On :
      {A : Type 0} (x : Bytes) (m : Fields A) (v : A) (s : Bytes)
      → (m (reader x)).0 ≡ done v
      → Meets strict (On s) (Yields strict v (On s)) (reading x m)
  unfolding reading
  reading-On x m v s e = record {
    meet = λ c p. subst (λ r. OnResult strict (Yields strict v (On s)) (r, c)) (sym e) (refl, p);
  }

  result_loop-On :
      (n declared : ℕ) (csv : Bytes) (xs : List Bytes) (rest : Bytes)
      → AllShort xs
      → length csv + length (flat xs) ≤ declared
      → (strict ≡ true → length xs < n)
      → Meets strict
          (On (flat (chunk_frames xs) ++ (serialize_frame result_end [] ++ rest)))
          (Yields strict (csv ++ flat xs) (On rest))
          (result_loop sys n declared csv)
  unfolding result_loop after_result_frame same_type type_byte
  result_loop-On zero declared csv xs rest a d k =
      out_of_passes-Meets strict (lax sys strict line (λ t. absurd (omega (arith, k t))))
  result_loop-On (suc n) declared csv [] rest a d k =
      bind-Yields strict (record { type = result_end; payload = [] }) (On rest) _ _
        (read_frame-At sys strict line result_end [] rest 120000
          (record { named = end_named; short = omega arith }))
        (pure-Meets strict csv (λ c p. (sym (append-nil csv), p)))
  result_loop-On (suc n) declared csv (x ∷ xs) rest (a, more) d k =
      moved _ _ (append_assoc (serialize_frame result_chunk x) (flat (chunk_frames xs)) _) (
        bind-Yields strict (record { type = result_chunk; payload = x })
          (On (flat (chunk_frames xs) ++ (serialize_frame result_end [] ++ rest))) _ _
          (read_frame-At sys strict line result_chunk x _ 120000
            (record { named = chunk_named; short = a }))
          (guard-Meets strict (ltb declared (length (csv ++ x))) _ _
            (λ c p e. absurd (ground (arith, length-append csv x, length-append x (flat xs))))
            (subst
              (λ t.
                Meets strict
                  (On (flat (chunk_frames xs) ++ (serialize_frame result_end [] ++ rest)))
                  (Yields strict t (On rest)) (result_loop sys n declared (csv ++ x)))
              (append_assoc csv x (flat xs))
              (result_loop-On n declared (csv ++ x) xs rest more
                (omega (arith, d, length-append csv x, length-append x (flat xs)))
                (λ t. omega (arith, k t))))))

  -- The result is kept, with its size.
  pub record Received (csv rest : Bytes) (c : Client sys) : Type 0 where
    pub left : On rest c
    pub kept : c.csv ≡ csv
    pub sized : c.shot.csv_size ≡ length csv

  keep_csv-On :
      (csv rest : Bytes) → Meets strict (On rest) (λ _. Received csv rest) (keep_csv sys csv)
  unfolding keep_csv
  keep_csv-On csv rest = modify-Meets strict _ (λ c p. record {
    left = record { ahead = p.ahead; uncancelled = p.uncancelled };
    kept = refl;
    sized = refl;
  })

  all_pieces :
      (csv rest : Bytes)
      → (strict ≡ true → length csv < sys.passes)
      → Meets strict
          (On (after_begin csv rest))
          (Yields strict csv (On rest))
          (result_loop sys sys.passes (length csv) [])
  all_pieces csv rest k =
      let whole = flat-pieces (length csv) csv (omega arith) in
      subst
        (λ t.
          Meets strict (On (after_begin csv rest)) (Yields strict t (On rest))
            (result_loop sys sys.passes (length csv) []))
        whole
        (result_loop-On sys.passes (length csv) [] (pieces (length csv) csv) rest
          (pieces-AllShort (length csv) csv) (omega (arith, ap length whole))
          (λ t. omega (arith, k t, length-pieces (length csv) csv)))

  pub receive_result-On :
      (csv rest : Bytes) (size : ℕ)
      → size ≤ max_csv_bytes
      → length csv ≤ max_csv_bytes
      → (strict ≡ true → length csv < sys.passes)
      → Meets strict
          (On (flat (result_frames csv) ++ rest))
          (λ _. Received csv rest)
          (receive_result sys size)
  unfolding receive_result
  receive_result-On csv rest size a b k =
      guard-Meets strict (ltb max_csv_bytes size) _ _ (λ c p e. absurd (ground arith))
        (moved _ _ (split csv rest) (
          bind-Yields strict (record { type = result_begin; payload = result_begin_payload csv })
            (On (after_begin csv rest)) _ _
            (read_frame-At sys strict line result_begin (result_begin_payload csv)
              (after_begin csv rest) 120000
              (record { named = begin_named; short = begin_short csv b }))
            (bind-Yields strict tt (On (after_begin csv rest)) _ _
              (expect-On result_begin (codes "RESULT_BEGIN") _ (after_begin csv rest)
                begin_not_error begin_is_begin)
              (bind-Yields strict (length csv) (On (after_begin csv rest)) _ _
                (reading-On (result_begin_payload csv) begin_fields (length csv)
                  (after_begin csv rest) (begin_fields-size csv (omega (arith, b))))
                (guard-Meets strict (ltb max_csv_bytes (length csv)) _ _
                  (λ c p e. absurd (ground arith))
                  (bind-Yields strict tt (On (after_begin csv rest)) _ _
                    (log-At sys strict line _ (after_begin csv rest))
                    (bind-Yields strict csv (On rest) _ _ (all_pieces csv rest k) (
                      guard-Meets strict (not (length csv == length csv)) _ _
                        (λ c p e. absurd (ground arith))
                        (bind-Yields strict tt (On rest) _ _ (log-At sys strict line _ rest)
                          (keep_csv-On csv rest))))))))))
