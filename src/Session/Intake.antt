-- ===== src/Session/Intake.antt =====
-- What pieces of an upload do to a session: the calls of payload_chunk, 01.Sources/SERVER/src/net/TcpSession.cpp,
-- against a count of the lines that the splitter makes of the pieces.
use assignment_logger_analyz.Prelude.{
  ℕ, ◌+◌, ◌-◌, ◌%◌, ◌^◌, ◌≤◌, ◌<◌, ◌≡◌, refl, sym, subst, ap, ◌∙◌, Bool, true, false, not, ◌||◌,
  ltb, leb, if◌then◌else◌, if-cases, List, [], ◌∷◌, ◌++◌, append_assoc, append-nil, Bytes, codes,
  length, length-append, arith,
}
use assignment_logger_analyz.Protocol.{MsgType, upload_ack, size_mismatch}
use assignment_logger_analyz.Splitter.{Line, Splitter, feed}
use assignment_logger_analyz.Splitter.Stream.{feed_all, feed_all_one, feed_all-append, concat}
use assignment_logger_analyz.LogLine.Floats.{Doubles}
use assignment_logger_analyz.Aggregator.{Aggregator, add_line}
use assignment_logger_analyz.Session.Host.{Host}
use assignment_logger_analyz.Session.State.{
  uploading, is_closing, is_uploading, Session, ack_interval_bytes,
}
use assignment_logger_analyz.Session.Outbox.{send, after_write}
use assignment_logger_analyz.Session.Upload.{
  add_lines, feed_lines, ack, ack_payload, abort_upload, take_chunk, payload_chunk,
}

-- The lines counted one after the other, each with the place where it begins, and the place behind the last.
unfoldable pub tally : (d : Doubles) → Aggregator d → ℕ → List Line → Aggregator d × ℕ
tally d a offset [] = (a, offset)
tally d a offset (l ∷ ls) =
    tally d (add_line d a l.text offset) ((offset + l.raw_bytes) % 2 ^ 64) ls

pub tally-append :
    (d : Doubles) (a : Aggregator d) (n : ℕ) (ls ms : List Line)
    → tally d a n (ls ++ ms) ≡ (let (a', n') = tally d a n ls in tally d a' n' ms)
unfolding tally
tally-append d a n [] ms = refl
tally-append d a n (l ∷ ls) ms =
    tally-append d (add_line d a l.text n) ((n + l.raw_bytes) % 2 ^ 64) ls ms

-- What the pieces leave of the splitter, the count and the place.
abbrev pub Place : Doubles → Type 0
Place d = Splitter × (Aggregator d × ℕ)

abbrev pub intake : (d : Doubles) → Place d → List Bytes → Place d
intake d (sp, (a, n)) ps = let (sp', ls) = feed_all sp ps in (sp', tally d a n ls)

pub intake-append :
    (d : Doubles) (c : Place d) (ps qs : List Bytes)
    → intake d c (ps ++ qs) ≡ intake d (intake d c ps) qs
intake-append d (sp, (a, n)) ps qs =
    let (sp', ls) = feed_all sp ps in
    let (sp'', ms) = feed_all sp' qs in
    ap (λ r. (r.0, tally d a n r.1)) (feed_all-append sp ps qs)
    ∙ ap (λ t. (sp'', t)) (tally-append d a n ls ms)

pub concat-append : (ps qs : List Bytes) → concat (ps ++ qs) ≡ concat ps ++ concat qs
concat-append [] qs = refl
concat-append (p ∷ ps) qs =
    ap (λ t. p ++ t) (concat-append ps qs) ∙ sym (append_assoc p (concat ps) (concat qs))

module _ (h : Host) where
  abbrev pub place : Session h → Place h.doubles
  place s = (s.splitter, (s.agg, s.line_offset))

  -- What an upload keeps while it goes on.
  abbrev pub Going : Session h → Session h → Type 0
  Going s s' =
      (s'.state ≡ s.state)
      × (s'.handles_inited ≡ s.handles_inited)
      × (s'.upload_declared ≡ s.upload_declared)
      × (s'.upload_name ≡ s.upload_name)
      × (s'.decoder ≡ s.decoder)
      × (s'.result_csv ≡ s.result_csv)

  -- The pieces have gone through the splitter, and the lines that it made of them are counted.
  pub record Took (s : Session h) (ps : List Bytes) (s' : Session h) : Type 0 where
    pub going : Going s s'
    pub received : s'.upload_received ≡ s.upload_received + length (concat ps)
    pub counted : place s' ≡ intake h.doubles (place s) ps

  pub add_lines-tally :
      (s : Session h) (ls : List Line)
      → add_lines h s ls ≡ (
          let (a, n) = tally h.doubles s.agg s.line_offset ls in
          record s { agg = a; line_offset = n })
  unfolding add_lines tally
  add_lines-tally s [] = refl
  add_lines-tally s (l ∷ ls) =
      add_lines-tally
        (record s {
          agg = add_line h.doubles s.agg l.text s.line_offset;
          line_offset = (s.line_offset + l.raw_bytes) % 2 ^ 64;
        })
        ls

  module _ (ok : (w : h.World) (frame : Bytes) → (h.uv_write w frame).0 ≡ true) where
    -- Where a frame is sent, nothing of an upload changes.
    abbrev pub Kept : Session h → Session h → Type 0
    Kept s s' = Going s s' × (s'.upload_received ≡ s.upload_received) × (place s' ≡ place s)

    same-Kept : (s : Session h) → Kept s s
    same-Kept s = ((refl, refl, refl, refl, refl, refl), refl, refl)

    after_write-Kept :
        (s : Session h) (frame : Bytes) (r : Bool × h.World)
        → r.0 ≡ true
        → Kept s (after_write h s frame r)
    unfolding after_write
    after_write-Kept s frame (true, w) e = same-Kept s
    after_write-Kept s frame (false, w) e = absurd (ground (arith, e))

    pub send-Kept : (s : Session h) (t : MsgType) (p : Bytes) → Kept s (send h s t p)
    unfolding send
    send-Kept s t p =
        if-cases (Kept s) (is_closing s.state || not s.handles_inited) (λ _. same-Kept s)
          (λ _. after_write-Kept s _ _ (ok s.world _))

    ack-Kept : (s : Session h) → Kept s (ack h s)
    unfolding ack
    ack-Kept s =
        if-cases (Kept s)
          (leb ack_interval_bytes ((s.upload_received + 2 ^ 64 - s.last_ack_at) % 2 ^ 64))
          (λ _.
            let s' = record s { last_ack_at = s.upload_received; world = (h.hrtime s.world).1 } in
            send-Kept s' upload_ack (ack_payload h s'))
          (λ _. same-Kept s)

    -- What the lines of a piece leave.
    abbrev fed_lines : Session h → Splitter × List Line → Session h
    fed_lines s (sp, ls) =
        let (a, n) = tally h.doubles s.agg s.line_offset ls in
        record s { splitter = sp; agg = a; line_offset = n }

    -- One piece within the declared size.
    pub payload_chunk-Took :
        (s : Session h) (p : Bytes)
        → s.state ≡ uploading
        → s.upload_received + length p ≤ s.upload_declared
        → s.upload_declared < 2 ^ 64
        → Took s (p ∷ []) (payload_chunk h s p)
    unfolding payload_chunk take_chunk feed_lines
    payload_chunk-Took s p e fits wide = subst (Took s (p ∷ [])) (sym all) result
      where
        count : (s.upload_received + length p) % 2 ^ 64 ≡ s.upload_received + length p
        count = omega (arith, fits, wide)

        small : ltb s.upload_declared ((s.upload_received + length p) % 2 ^ 64) ≡ false
        small = ground (arith, count, fits)

        got : Session h
        got = record s { upload_received = (s.upload_received + length p) % 2 ^ 64 }

        s' : Session h
        s' = fed_lines got (feed s.splitter p)

        over : Session h
        over = abort_upload h got size_mismatch (codes "received more bytes than declared")

        all : payload_chunk h s p ≡ ack h s'
        all =
            ap (λ t. if is_uploading t then take_chunk h got p else s) e
            ∙ ap (λ t. if t then over else ack h (feed_lines h got (feed s.splitter p))) small
            ∙ ap (ack h) (
                add_lines-tally (record got { splitter = (feed s.splitter p).0 })
                  (feed s.splitter p).1)

        result : Took s (p ∷ []) (ack h s')
        result =
            let (going, received, counted) = ack-Kept s' in
            record {
              going = going;
              received =
                  received ∙ count ∙ ap (λ t. s.upload_received + length t) (sym (append-nil p));
              counted =
                  counted
                  ∙ ap (λ r. (r.0, tally h.doubles s.agg s.line_offset r.1))
                      (sym (feed_all_one s.splitter p));
            }

  -- Pieces one after the other.
  pub same-Took : (s : Session h) → Took s [] s
  unfolding tally feed_all
  same-Took s = record {
    going = (refl, refl, refl, refl, refl, refl);
    received = omega arith;
    counted = refl;
  }

  pub Took-append :
      (s s' s'' : Session h) (ps qs : List Bytes)
      → Took s ps s'
      → Took s' qs s''
      → Took s (ps ++ qs) s''
  Took-append s s' s'' ps qs a b =
      let (e1, i1, d1, n1, c1, r1) = a.going in
      let (e2, i2, d2, n2, c2, r2) = b.going in
      record {
        going = (e2 ∙ e1, i2 ∙ i1, d2 ∙ d1, n2 ∙ n1, c2 ∙ c1, r2 ∙ r1);
        received = omega (
          arith,
          a.received,
          b.received,
          ap length (concat-append ps qs),
          length-append (concat ps) (concat qs),
        );
        counted =
            b.counted
            ∙ ap (λ c. intake h.doubles c qs) a.counted
            ∙ sym (intake-append h.doubles (place s) ps qs);
      }
