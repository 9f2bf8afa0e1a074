-- ===== src/Session/Analysed.antt =====
-- The end of an upload, handle_upload_end of 01.Sources/SERVER/src/net/TcpSession.cpp, against the lines
-- of the file.
use assignment_logger_analyz.Prelude.{
  ℕ, zero, suc, ◌+◌, ◌-◌, ◌/◌, ◌≡◌, refl, sym, subst, ap, ◌∙◌, true, false, List, [], ◌∷◌, ◌++◌,
  Bytes, length, take, drop, arith,
}
use assignment_logger_analyz.Protocol.{analyze_done, result_begin, result_chunk, result_end}
use assignment_logger_analyz.LogLine.Floats.{Doubles}
use assignment_logger_analyz.Splitter
use assignment_logger_analyz.Splitter.{Splitter, Line, new_splitter}
use assignment_logger_analyz.Splitter.Segments.{segments, Short}
use assignment_logger_analyz.Splitter.Stream.{
  concat, feed_all, feed_stream, stream_lines, feed_stream-lines,
}
use assignment_logger_analyz.Aggregator.{Aggregator, new_aggregator, add_oversize}
use assignment_logger_analyz.Csv.{build_result_csv}
use assignment_logger_analyz.Session.Host.{Host}
use assignment_logger_analyz.Session.State.{ready, is_closing, Session}
use assignment_logger_analyz.Session.Outbox.{send}
use assignment_logger_analyz.Session.UploadEnd.{
  finish_lines, csv_context, analyze, send_done, done_payload, send_chunks, send_result_csv,
  result_chunk_size, finish_upload,
}
use assignment_logger_analyz.Session.Upload.{feed_lines}
use assignment_logger_analyz.Session.Queue.{result_frames, send_result_csv-Queued, send-Queued}
use assignment_logger_analyz.Session.Intake.{
  Place, place, intake, tally, tally-append, add_lines-tally, send-Kept,
}

-- What the lines of a file come to, each counted with the place where it begins.
abbrev pub analysis : (d : Doubles) → Bytes → Aggregator d
analysis d file = (tally d (new_aggregator d) 0 (stream_lines (segments file))).0

-- The pieces of a file within the limit on lines, and then its end.
finished :
    (d : Doubles) (max_line : ℕ) (pieces : List Bytes)
    → Short max_line (segments (concat pieces))
    → let (sp, (a, n)) = intake d (new_splitter max_line, (new_aggregator d, 0)) pieces in
      let (sp', more) = Splitter.finish sp in
      add_oversize d (tally d a n more).0 sp'.oversize ≡ analysis d (concat pieces)
unfolding add_oversize feed_stream
finished d m pieces short =
    let (lines, none_over) = feed_stream-lines m pieces short in
    let (sp, ls) = feed_all (new_splitter m) pieces in
    let (sp', more) = Splitter.finish sp in
    ap (λ t. add_oversize d t.0 sp'.oversize) (sym (tally-append d (new_aggregator d) 0 ls more))
    ∙ ap (λ t. add_oversize d (tally d (new_aggregator d) 0 t).0 sp'.oversize) lines
    ∙ without (tally d (new_aggregator d) 0 (stream_lines (segments (concat pieces)))).0
        sp'.oversize none_over
  where
    without : (a : Aggregator d) (n : ℕ) → n ≡ 0 → add_oversize d a n ≡ a
    without a n e =
        let q : a.oversize_lines + n ≡ a.oversize_lines = omega (arith, e) in
        λ i. record a { oversize_lines = q i }

module _ (h : Host) where
  -- The upload of `file` is done: the session is ready again, the counts are those of the file's lines,
  -- the report is made of them, and its frames stand at the end of the queue.
  abbrev pub Analysed : Bytes → Bytes → Session h → Type 0
  Analysed name file s =
      (s.state ≡ ready)
      × (s.handles_inited ≡ true)
      × (s.agg ≡ analysis h.doubles file)
      × ((utc : Bytes) × (elapsed_ms : ℕ) × (rss : ℕ) × (s.result_csv
            ≡ build_result_csv h.doubles utc (analysis h.doubles file) (record {
              source_file = name;
              source_bytes = length file;
              elapsed_ms = elapsed_ms;
              peak_rss_kb = rss;
            })))
      × ((front : List Bytes) × (s.writes ≡ front ++ result_frames s.result_csv))

  module _ (ok : (w : h.World) (frame : Bytes) → (h.uv_write w frame).0 ≡ true) where
    -- Sending leaves the counts and the report alone.
    abbrev Same : Session h → Session h → Type 0
    Same s s' = (s'.agg ≡ s.agg) × (s'.result_csv ≡ s.result_csv)

    send-Same : (s : Session h) (t : _) (p : Bytes) → Same s (send h s t p)
    send-Same s t p =
        let ((_, _, _, _, _, csv), _, counted) = send-Kept h ok s t p in
        (ap (λ q. q.1.0) counted, csv)

    Same-trans : (s s' s'' : Session h) → Same s s' → Same s' s'' → Same s s''
    Same-trans s s' s'' (a, r) (b, q) = (b ∙ a, q ∙ r)

    send_chunks-Same : (n : ℕ) (s : Session h) (x : Bytes) → Same s (send_chunks h n s x)
    unfolding send_chunks
    send_chunks-Same zero s x = (refl, refl)
    send_chunks-Same (suc n) s [] = (refl, refl)
    send_chunks-Same (suc n) s (b ∷ x) =
        let s' = send h s result_chunk (take result_chunk_size (b ∷ x)) in
        Same-trans s s' (send_chunks h n s' (drop result_chunk_size (b ∷ x)))
          (send-Same s result_chunk (take result_chunk_size (b ∷ x)))
          (send_chunks-Same n s' (drop result_chunk_size (b ∷ x)))

    send_result_csv-Same : (s : Session h) → Same s (send_result_csv h s)
    unfolding send_result_csv
    send_result_csv-Same s =
        let s1 = send h s result_begin _ in
        let s2 = send_chunks h (length s.result_csv) s1 s.result_csv in
        Same-trans s s1 (send h s2 result_end []) (send-Same s result_begin _) (
          Same-trans s1 s2 (send h s2 result_end [])
            (send_chunks-Same (length s.result_csv) s1 s.result_csv) (send-Same s2 result_end []))

    -- ANALYZE_DONE and the result leave a ready session with the frames of the result at the end of its queue.
    send_done-Same :
        (s : Session h) (ms rss : ℕ)
        → is_closing s.state ≡ false
        → s.handles_inited ≡ true
        → let s' = send_done h s ms rss in
          (s'.state ≡ ready)
          × (s'.handles_inited ≡ true)
          × (s'.agg ≡ s.agg)
          × (s'.result_csv ≡ s.result_csv)
          × ((front : List Bytes) × (s'.writes ≡ front ++ result_frames s.result_csv))
    unfolding send_done
    send_done-Same s ms rss alive inited =
        let payload = done_payload h s ms rss in
        let s1 = send h s analyze_done payload in
        let q = send-Queued h ok s analyze_done payload alive inited in
        let one = send-Same s analyze_done payload in
        let two = send_result_csv-Same s1 in
        let queued =
          send_result_csv-Queued h ok s1 (ap is_closing q.state ∙ alive) (q.inited ∙ inited) in
        (
          refl,
          queued.inited ∙ q.inited ∙ inited,
          two.0 ∙ one.0,
          two.1 ∙ one.1,
          (s1.writes, queued.writes ∙ ap (λ t. s1.writes ++ result_frames t) one.1),
        )

    analyze-Analysed :
        (s : Session h) (name file : Bytes)
        → is_closing s.state ≡ false
        → s.handles_inited ≡ true
        → s.agg ≡ analysis h.doubles file
        → s.upload_name ≡ name
        → s.upload_received ≡ length file
        → Analysed name file (analyze h s)
    unfolding analyze csv_context
    analyze-Analysed s name file alive inited counted named received =
        let (now, w) = h.hrtime s.world in
        let elapsed_ms = (now - s.upload_start_ns) / 1000000 in
        let (rss, w') = h.peak_rss_kb w in
        let (utc, w'') = h.utc_now w' in
        let csv = build_result_csv h.doubles utc s.agg (csv_context h s elapsed_ms rss) in
        let (state, open_still, agg, kept, (front, queued)) =
          send_done-Same (record s { world = w''; result_csv = csv }) elapsed_ms rss alive inited in
        (
          state,
          open_still,
          agg ∙ counted,
          (
            utc,
            elapsed_ms,
            rss,
            kept ∙ λ i. build_result_csv h.doubles utc (counted i) (record {
              source_file = named i;
              source_bytes = received i;
              elapsed_ms = elapsed_ms;
              peak_rss_kb = rss;
            }),
          ),
          (front, queued ∙ ap (λ t. front ++ result_frames t) (sym kept)),
        )

    -- Where the pieces of the file have gone through, UPLOAD_END finishes it.
    pub finish_upload-Analysed :
        (s : Session h) (name : Bytes) (max_line : ℕ) (pieces : List Bytes)
        → is_closing s.state ≡ false
        → s.handles_inited ≡ true
        → s.upload_name ≡ name
        → s.upload_received ≡ length (concat pieces)
        → place h s ≡ intake h.doubles (new_splitter max_line, (new_aggregator h.doubles, 0)) pieces
        → Short max_line (segments (concat pieces))
        → Analysed name (concat pieces) (finish_upload h s)
    unfolding finish_upload finish_lines feed_lines
    finish_upload-Analysed s name max_line pieces alive inited named received counted short =
        let (sp, more) = Splitter.finish s.splitter in
        let s' = record s { splitter = sp } in
        let c = tally h.doubles s.agg s.line_offset more in
        subst (λ t. Analysed name (concat pieces) (analyze h (closed t)))
          (sym (add_lines-tally h s' more))
          (analyze-Analysed (closed (record s' { agg = c.0; line_offset = c.1 })) name
            (concat pieces) alive inited
            (ap ended counted ∙ finished h.doubles max_line pieces short) named received)
      where
        closed : Session h → Session h
        closed t = record t { agg = add_oversize h.doubles t.agg t.splitter.oversize }

        ended : Place h.doubles → Aggregator h.doubles
        ended (sp, (a, n)) =
            let (sp', more) = Splitter.finish sp in
            add_oversize h.doubles (tally h.doubles a n more).0 sp'.oversize
