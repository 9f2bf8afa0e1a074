-- ===== src/Session/Phases.antt =====
-- Where a session stands in an upload, and what the end of each frame does: `dispatch_frame` of
-- 01.Sources/SERVER/src/net/TcpSession.cpp on UPLOAD_CHUNK and UPLOAD_END.
use assignment_logger_analyz.Prelude.{
  ℕ, ◌+◌, ◌%◌, ◌^◌, ◌<◌, ◌≡◌, sym, ap, ◌∙◌, Bool, true, false, not, ◌||◌, ◌==◌, if◌then◌else◌, some,
  List, [], ◌∷◌, ◌++◌, append_assoc, append-nil, Bytes, codes, length, length-append, arith,
}
use assignment_logger_analyz.Protocol.{upload_chunk, upload_end, payload_too_large, size_mismatch}
use assignment_logger_analyz.Payload.Writer
use assignment_logger_analyz.Splitter.{new_splitter}
use assignment_logger_analyz.Splitter.Segments.{segments, Short}
use assignment_logger_analyz.Splitter.Stream.{concat}
use assignment_logger_analyz.Aggregator.{new_aggregator}
use assignment_logger_analyz.Decoder.{reset_frame}
use assignment_logger_analyz.Decoder.Bounds.{Valid}
use assignment_logger_analyz.Decoder.Frames.{Between}
use assignment_logger_analyz.Decoder.Serialize.{serialize_frame}
use assignment_logger_analyz.Decoder.Ahead.{Ahead}
use assignment_logger_analyz.Session.Host.{Host}
use assignment_logger_analyz.Session.State.{uploading, Session}
use assignment_logger_analyz.Session.Upload.{abort_upload, stream_payload, read_upload_end}
use assignment_logger_analyz.Session.UploadEnd.{handle_upload_end, after_upload_end, finish_upload}
use assignment_logger_analyz.Session.Dispatch.{
  decode, end_frame, dispatch_frame, dispatch_in, dispatch_upload,
}
use assignment_logger_analyz.Session.Intake.{Place}
use assignment_logger_analyz.Session.Analysed.{Analysed}
use assignment_logger_analyz.Session.Reading.{fed_session, Taken, receive-Taken}
use assignment_logger_analyz.Session.UploadFrames.{
  upload_chunks, end_frame_of, Sized, chunk_kind, end_kind, upload_chunk-Ahead, upload_end-Ahead,
  read_upload_end-size,
}

module _ (h : Host) where
  -- What end_frame makes of the answer of dispatch_frame.
  abbrev pub close : Bool × Session h → Bool × Session h
  close (keep_going, t) = (keep_going, record t { decoder = reset_frame t.decoder })

module _ (h : Host) (ok : (w : h.World) (frame : Bytes) → (h.uv_write w frame).0 ≡ true)
    (max_line : ℕ) (name file : Bytes) (wide : length file < 2 ^ 64)
    (short : Short max_line (segments file)) where
  abbrev pub origin : Place h.doubles
  origin = (new_splitter max_line, (new_aggregator h.doubles, 0))

  -- Within a chunk: `pieces` are taken, `chunk` is what the rest of the frame brings, `ps` come behind it.
  pub record Chunking (s : Session h) (z : Bytes) : Type 0 where
    pub pieces : List Bytes
    pub chunk : Bytes
    pub ps : List Bytes
    pub cur : Bytes
    pub taken : Taken h origin name (length file) pieces s
    pub ahead : Ahead (stream_payload uploading) chunk_kind cur chunk s.decoder
    pub rest : z ≡ cur ++ (upload_chunks ps ++ end_frame_of (length file))
    pub sized : Sized ps
    pub whole : concat pieces ++ (chunk ++ concat ps) ≡ file

  -- Within UPLOAD_END.
  pub record Ending (s : Session h) (z : Bytes) : Type 0 where
    pub pieces : List Bytes
    pub taken : Taken h origin name (length file) pieces s
    pub ahead : Ahead (stream_payload uploading) (end_kind (length file)) z [] s.decoder
    pub whole : concat pieces ≡ file

  -- The session with `z` of the upload to come.
  pub data Phase (s : Session h) (z : Bytes) : Type 0 where
    chunking : Chunking s z → Phase s z
    ending : Ending s z → Phase s z
    over : Analysed h name file s → Between s.decoder → Valid s.decoder → z ≡ [] → Phase s z

  -- Between two frames the next one lies ahead.
  pub next_frame :
      (s : Session h) (pieces ps : List Bytes)
      → Taken h origin name (length file) pieces s
      → Between s.decoder
      → Valid s.decoder
      → Sized ps
      → concat pieces ++ concat ps ≡ file
      → Phase s (upload_chunks ps ++ end_frame_of (length file))
  next_frame s pieces [] taken b v sized whole = ending (record {
    pieces = pieces;
    taken = taken;
    ahead = upload_end-Ahead s.decoder (length file) b v;
    whole = sym (append-nil (concat pieces)) ∙ whole;
  })
  next_frame s pieces (p ∷ ps) taken b v (more, fits, sized) whole = chunking (record {
    pieces = pieces;
    chunk = p;
    ps = ps;
    cur = serialize_frame upload_chunk p;
    taken = taken;
    ahead = upload_chunk-Ahead s.decoder p b v more fits;
    rest =
        append_assoc (serialize_frame upload_chunk p) (upload_chunks ps)
          (end_frame_of (length file));
    sized = sized;
    whole = whole;
  })

  -- What one call of the decoder brings is taken.
  pub fed_session-Taken :
      (s : Session h) (a : Bytes) (pieces : List Bytes) (chunk later w : Bytes)
      → Taken h origin name (length file) pieces s
      → chunk ≡ (decode h s a).chunk ++ later
      → concat pieces ++ (chunk ++ w) ≡ file
      → (pieces' : List Bytes) × Taken h origin name (length file) pieces' (fed_session h s a)
        × ((fed_session h s a).decoder ≡ (decode h s a).decoder)
        × (concat pieces' ++ (later ++ w) ≡ file)
  fed_session-Taken s a pieces chunk later w taken e whole =
      let f = decode h s a in
      let (pieces', joined, taken', d) =
        receive-Taken h origin name (length file) ok wide pieces (record s { decoder = f.decoder })
          f.chunk taken
          (omega (
            arith,
            ap length split,
            length-append (concat pieces) (f.chunk ++ (later ++ w)),
            length-append f.chunk (later ++ w),
          )) in
      (
        pieces',
        taken',
        d,
        ap (λ t. t ++ (later ++ w)) joined
            ∙ append_assoc (concat pieces) f.chunk (later ++ w)
            ∙ split,
      )
    where
      split : concat pieces ++ ((decode h s a).chunk ++ (later ++ w)) ≡ file
      split =
          ap (λ t. concat pieces ++ t)
            (sym (append_assoc (decode h s a).chunk later w) ∙ ap (λ t. t ++ w) (sym e))
          ∙ whole

  -- A complete chunk that went to the sink needs nothing more.
  pub end_frame-chunk :
      (s : Session h)
      → s.state ≡ uploading
      → s.decoder.header.type ≡ upload_chunk
      → s.decoder.streaming ≡ true
      → end_frame h s ≡ (
        true,
        record s { rx_frames = (s.rx_frames + 1) % 2 ^ 64; decoder = reset_frame s.decoder },
      )
  unfolding end_frame dispatch_frame dispatch_in dispatch_upload
  end_frame-chunk s state type streaming =
      let s' = record s { rx_frames = (s.rx_frames + 1) % 2 ^ 64 } in
      ap (λ t. close h (dispatch_in h t s')) state
      ∙ ap (λ t. close h (dispatch_upload h t s')) type
      ∙ ap (λ t. close h (if t then (true, s') else over')) streaming
    where
      over' : Bool × Session h
      over' = (
        false,
        abort_upload h (record s { rx_frames = (s.rx_frames + 1) % 2 ^ 64 }) payload_too_large
            (codes "upload chunk exceeds the negotiated maximum"),
      )

  -- UPLOAD_END with the size finishes the upload.
  pub end_frame-end :
      (s : Session h)
      → s.state ≡ uploading
      → s.decoder.header.type ≡ upload_end
      → s.decoder.payload ≡ Writer.u64 [] (length file)
      → s.upload_declared ≡ length file
      → s.upload_received ≡ length file
      → end_frame h s ≡ (
          let t = finish_upload h (record s { rx_frames = (s.rx_frames + 1) % 2 ^ 64 }) in
          (true, record t { decoder = reset_frame t.decoder }))
  unfolding end_frame dispatch_frame dispatch_in dispatch_upload handle_upload_end after_upload_end
  end_frame-end s state type payload declared received =
      let s' = record s { rx_frames = (s.rx_frames + 1) % 2 ^ 64 } in
      ap (λ t. close h (dispatch_in h t s')) state
      ∙ ap (λ t. close h (dispatch_upload h t s')) type
      ∙ ap (λ t. close h (after_upload_end h s' t)) (ap read_upload_end payload ∙ read_size)
      ∙ ap (λ t. close h (if t then wrong else (true, finish_upload h s'))) agree
    where
      read_size : read_upload_end (Writer.u64 [] (length file)) ≡ some (length file)
      read_size = read_upload_end-size (length file) wide

      wrong : Bool × Session h
      wrong = (
        false,
        abort_upload h (record s { rx_frames = (s.rx_frames + 1) % 2 ^ 64 }) size_mismatch
            (codes "byte count does not match the declared size"),
      )

      agree :
          (not (s.upload_received == s.upload_declared) || not (length file == s.upload_declared))
          ≡ false
      agree = ground (arith, declared, received)
