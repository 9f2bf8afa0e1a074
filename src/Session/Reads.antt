-- ===== src/Session/Reads.antt =====
-- An upload, read after read: `on_read` of 01.Sources/SERVER/src/net/TcpSession.cpp from UPLOAD_BEGIN to the report.
use assignment_logger_analyz.Session.UploadFrames.{
  upload_chunks, end_frame_of, Sized, begin_payload_of, upload_stream, upload_begin-Ahead,
}
use assignment_logger_analyz.Prelude.{
  ℕ, zero, suc, ◌+◌, ◌%◌, ◌^◌, ◌≤◌, ◌<◌, ◌≡◌, inl, inr, refl, sym, subst, ap, ◌∙◌, true, not, ◌||◌,
  if-cases, Option, List, [], ◌∷◌, ◌++◌, Bytes, length, length-append, arith,
}
use assignment_logger_analyz.Protocol.{upload_begin}
use assignment_logger_analyz.Splitter.Segments.{segments, Short}
use assignment_logger_analyz.Splitter.Stream.{concat}
use assignment_logger_analyz.Decoder.Bounds.{Valid}
use assignment_logger_analyz.Decoder.Frames.{Between}
use assignment_logger_analyz.Decoder.Serialize.{serialize_frame}
use assignment_logger_analyz.Session.Host.{Host}
use assignment_logger_analyz.Session.State.{ready, is_closing, is_uploading, Session, Timer}
use assignment_logger_analyz.Session.Dispatch.{process_loop, process}
use assignment_logger_analyz.Session.Events.{read, bytes, step, on_read, touch_idle}
use assignment_logger_analyz.Session.Analysed.{Analysed}
use assignment_logger_analyz.Session.Reading.{frame_or_less}
use assignment_logger_analyz.Session.Phases.{chunking, ending, over}
use assignment_logger_analyz.Session.Whole.{process_loop-At, process_loop-nil}
use assignment_logger_analyz.Session.Uploads.{
  Stage, beginning, under_way, within_begin, behind_begin,
}

module _ (h : Host) where
  -- The session after these reads.
  abbrev pub after_reads : Session h → List Bytes → Session h
  after_reads s [] = s
  after_reads s (x ∷ xs) = after_reads (step h s (read (bytes x))) xs

  -- The upload is analysed, and the session stands between two frames.
  abbrev pub Rested : Bytes → Bytes → Session h → Type 0
  Rested name file s = Analysed h name file s × Between s.decoder × Valid s.decoder

  module _ (ok : (w : h.World) (frame : Bytes) → (h.uv_write w frame).0 ≡ true) (max_line : ℕ)
      (name file : Bytes) (wide : length file < 2 ^ 64) (short : Short max_line (segments file))
      (more : 0 < length file) (short_name : length name < 2 ^ 16) where
    abbrev Here : Session h → Bytes → Type 0
    Here s z = Stage h ok max_line name file wide short s z

    process_loop-Here :
        (fuel : ℕ) (s : Session h) (a z : Bytes)
        → length a ≤ fuel
        → Here s (a ++ z)
        → Here (process_loop h fuel s a) z
    process_loop-Here fuel s [] z l p =
        subst (λ t. Here t z) (sym (process_loop-nil h ok max_line name file wide short fuel s)) p
    process_loop-Here zero s (c ∷ a) z l p = absurd (omega (arith, l))
    process_loop-Here fuel s (c ∷ a) z l (under_way p) =
        under_way (process_loop-At h ok max_line name file wide short fuel s (c ∷ a) z l p)
    process_loop-Here (suc fuel) s (c ∷ a) z l (beginning k) =
        elim (frame_or_less (c ∷ a) z k.cur (upload_chunks k.ps ++ end_frame_of (length file))
          k.rest) [
            | inl (y, cut, rest, left) ↦
                within_begin h ok max_line name file wide short fuel s c a y z k cut rest left
            | inr (x, front, tail) ↦ under_way (
                behind_begin h ok max_line name file wide short fuel s (c ∷ a) x z k front tail
                  (omega (arith, l, ap length front, length-append k.cur x, k.ahead.more)) more
                  short_name)
          ]

    -- What a read counts and what touch_idle sets are no part of it.
    touched-Here :
        (s : Session h) (z : Bytes) (rx ticks : ℕ) (timer : Option Timer)
        → Here s z
        → Here (record s { rx_bytes = rx; stall_ticks = ticks; timer = timer }) z
    touched-Here s z rx ticks timer (beginning k) = beginning (record {
      ps = k.ps;
      cur = k.cur;
      state = k.state;
      inited = k.inited;
      limit = k.limit;
      ahead = k.ahead;
      rest = k.rest;
      sized = k.sized;
      whole = k.whole;
    })
    touched-Here s z rx ticks timer (under_way (chunking k)) = under_way (
        chunking (record {
          pieces = k.pieces;
          chunk = k.chunk;
          ps = k.ps;
          cur = k.cur;
          taken = k.taken;
          ahead = k.ahead;
          rest = k.rest;
          sized = k.sized;
          whole = k.whole;
        }))
    touched-Here s z rx ticks timer (under_way (ending k)) =
        under_way
          (ending (record { pieces = k.pieces; taken = k.taken; ahead = k.ahead; whole = k.whole }))
    touched-Here s z rx ticks timer (under_way (over k b v e)) = under_way (over k b v e)

    touch_idle-Here : (s : Session h) (z : Bytes) → Here s z → Here (touch_idle h s) z
    unfolding touch_idle
    touch_idle-Here s z p =
        if-cases (λ t. Here t z) (is_closing s.state || not s.handles_inited) (λ _. p)
          (λ _.
            if-cases (λ t. Here t z) (not (is_uploading s.state))
              (λ _. touched-Here s z s.rx_bytes 0 _ p) (λ _. touched-Here s z s.rx_bytes 0 _ p))

    step-Here : (s : Session h) (x z : Bytes) → Here s (x ++ z) → Here (step h s (read (bytes x))) z
    unfolding step on_read process
    step-Here s x z p = touch_idle-Here _ z (
        process_loop-Here (length x) _ x z (omega arith)
          (touched-Here s (x ++ z) ((s.rx_bytes + length x) % 2 ^ 64) s.stall_ticks s.timer p))

    after_reads-Here :
        (s : Session h) (xs : List Bytes) → Here s (concat xs) → Here (after_reads s xs) []
    after_reads-Here s [] p = p
    after_reads-Here s (x ∷ xs) p =
        after_reads-Here (step h s (read (bytes x))) xs (step-Here s x (concat xs) p)

    arrived : (s : Session h) (z : Bytes) → z ≡ [] → Here s z → Rested name file s
    arrived s z e (under_way (over k b v _)) = (k, b, v)
    arrived s z e (under_way (ending k)) = absurd (omega (arith, k.ahead.more, ap length e))
    arrived s z e (under_way (chunking k)) = absurd (
        omega (
          arith,
          k.ahead.more,
          length-append k.cur (upload_chunks k.ps ++ end_frame_of (length file)),
          ap length (sym k.rest ∙ e),
        ))
    arrived s z e (beginning k) = absurd (
        omega (
          arith,
          k.ahead.more,
          length-append k.cur (upload_chunks k.ps ++ end_frame_of (length file)),
          ap length (sym k.rest ∙ e),
        ))

  -- A ready session between two frames, whose frames can all be written, is sent an upload: UPLOAD_BEGIN
  -- with the size and the name, the file in chunks that are neither empty nor longer than 1 MiB, and
  -- UPLOAD_END. However the stream is cut into reads, after them the session is ready again and stands
  -- between two frames, its counts are those of the lines of the file, each with its place, the report
  -- is made of these counts, and the frames of the report stand at the end of its queue. The file is not
  -- empty and shorter than 2 ^ 64 bytes, the name is shorter than 64 KiB, and no line of the file is
  -- longer than the splitter's limit.
  pub after_reads-Analysed :
      (ok : (w : h.World) (frame : Bytes) → (h.uv_write w frame).0 ≡ true) (s : Session h)
      (name : Bytes) (ps reads : List Bytes)
      → s.state ≡ ready
      → s.handles_inited ≡ true
      → Between s.decoder
      → Valid s.decoder
      → 0 < length (concat ps)
      → length (concat ps) < 2 ^ 64
      → length name < 2 ^ 16
      → Sized ps
      → Short s.splitter.max_line (segments (concat ps))
      → concat reads ≡ upload_stream name ps
      → Rested name (concat ps) (after_reads s reads)
  after_reads-Analysed ok s name ps reads state inited b v more wide short_name sized short cut =
      let file = concat ps in
      let m = s.splitter.max_line in
      arrived ok m name file wide short more short_name (after_reads s reads) [] refl (
        after_reads-Here ok m name file wide short more short_name s reads (
          beginning (record {
            ps = ps;
            cur = serialize_frame upload_begin (begin_payload_of (length file) name);
            state = state;
            inited = inited;
            limit = refl;
            ahead = upload_begin-Ahead s.decoder (length file) name b v short_name;
            rest = cut;
            sized = sized;
            whole = refl;
          })))
