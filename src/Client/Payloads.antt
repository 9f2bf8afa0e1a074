-- ===== src/Client/Payloads.antt =====
-- The payloads that client and server exchange: each side reads what the other has written.
use assignment_logger_analyz.Prelude.{
  ℕ, ◌*◌, ◌^◌, ◌<◌, ◌≡◌, refl, sym, subst, Option, none, some, [], ◌∷◌, ◌++◌, Bytes, length,
  length-take, take, arith,
}
use assignment_logger_analyz.Payload.Reader.{Reader, reader}
use assignment_logger_analyz.Payload.RoundTrip.{
  word16, word32, word64, text, put, put_all, put_all-Gets,
}
use assignment_logger_analyz.Aggregator.{rejected_lines, spd_avg}
use assignment_logger_analyz.Session.Host.{Host}
use assignment_logger_analyz.Session.State.{Session}
use assignment_logger_analyz.Session.Upload.{read_hello, hello_payload, server_name}
use assignment_logger_analyz.Session.UploadEnd.{done_payload}
use assignment_logger_analyz.Client.Actions.{Result, done, follow, ◌>>=◌, pure}
use assignment_logger_analyz.Client.Texts.{Fields, field, or_fail}
use assignment_logger_analyz.Client.Handshake.{client_hello, hello_fields}
use assignment_logger_analyz.Client.Progress.{done_fields}

-- A chain of reads whose next one succeeds.
abbrev held : {A : Type 0} → A → Option A → A
held d (some y) = y
held d none = d

followed :
    {A B : Type 0} (why : Bytes) (f : A → Fields B) (x : Result B) (v : A) (p : Option A × Reader)
    → p.0 ≡ some v
    → (f v p.1).0 ≡ x
    → (follow f (or_fail why p)).0 ≡ x
followed why f x v (some a, r) e k = subst (λ y. (f (held v y) r).0 ≡ x) (sym e) k
followed why f x v (none, r) e k = absurd (ground (arith, e))

read_on :
    {A B : Type 0} (get : Reader → Option A × Reader) (why : Bytes) (f : A → Fields B)
    (x : Result B) (r : Reader) (v : A)
    → (get r).0 ≡ some v
    → (f v (get r).1).0 ≡ x
    → ((field get why >>= f) r).0 ≡ x
unfolding ◌>>=◌
read_on get why f x r v e k = followed why f x v (get r) e k

-- The server reads, from the client's HELLO, the version and the name, if that is shorter than 64 KiB.
pub read_hello-client_hello :
    (name : Bytes) → length name < 2 ^ 16 → read_hello (client_hello name) ≡ some (1, name)
unfolding read_hello client_hello put_all put
read_hello-client_hello name k =
    let (a, (b, _)) = put_all-Gets (word16 1 ∷ text name ∷ []) (omega arith, (k, tt)) in
    rw (a, b) refl

module _ (h : Host) (s : Session h) where
  -- The client reads, from the server's HELLO_ACK, what the server has written: the id of the session,
  -- the size of a chunk, the peer and the version, where the id fits 32 bits and the texts are shorter
  -- than 64 KiB.
  pub hello_fields-hello_payload :
      s.id < 2 ^ 32
      → length s.peer < 2 ^ 16
      → length (server_name ++ h.uv_version) < 2 ^ 16
      → (hello_fields (reader (hello_payload h s))).0
        ≡ done (record {
          session_id = s.id;
          max_chunk = 1024 * 1024;
          observed_peer = s.peer;
          server_version = server_name ++ h.uv_version;
        })
  unfolding hello_fields hello_payload put_all put pure
  hello_fields-hello_payload a b c =
      let (w, (x, (y, (z, _)))) =
        put_all-Gets
          (word32 s.id
            ∷ word32 (1024 * 1024)
            ∷ text s.peer
            ∷ text (server_name ++ h.uv_version)
            ∷ [])
          (a, (omega arith, (b, (c, tt)))) in
      read_on _ _ _ _ _ s.id w (
        read_on _ _ _ _ _ (1024 * 1024) x
          (read_on _ _ _ _ _ s.peer y (read_on _ _ _ _ _ (server_name ++ h.uv_version) z refl)))

  -- The client reads, from the server's ANALYZE_DONE, the counts, the mean, the time, the memory and the
  -- size of the result as the server has written them, where each number fits 64 bits.
  pub done_fields-done_payload :
      (ms rss : ℕ)
      → s.upload_received < 2 ^ 64
      → s.agg.total_lines < 2 ^ 64
      → s.agg.accepted_lines < 2 ^ 64
      → rejected_lines h.doubles s.agg < 2 ^ 64
      → s.agg.oversize_lines < 2 ^ 64
      → s.agg.speeds.spd_n < 2 ^ 64
      → ms < 2 ^ 64
      → rss < 2 ^ 64
      → length s.result_csv < 2 ^ 64
      → (done_fields (reader (done_payload h s ms rss))).0
        ≡ done (record {
          bytes = s.upload_received;
          lines = s.agg.total_lines;
          accepted = s.agg.accepted_lines;
          rejected = rejected_lines h.doubles s.agg;
          oversize = s.agg.oversize_lines;
          spd_n = s.agg.speeds.spd_n;
          avg = take 31 (h.doubles.fixed 6 (spd_avg h.doubles s.agg.speeds));
          elapsed = ms;
          rss = rss;
          csv_size = length s.result_csv;
        })
  unfolding done_fields done_payload put_all put pure
  done_fields-done_payload ms rss a b c d e f g i j =
      let avg = take 31 (h.doubles.fixed 6 (spd_avg h.doubles s.agg.speeds)) in
      let (q0, (q1, (q2, (q3, (q4, (q5, (q6, (q7, (q8, (q9, _)))))))))) =
        put_all-Gets
          (word64 s.upload_received
            ∷ word64 s.agg.total_lines
            ∷ word64 s.agg.accepted_lines
            ∷ word64 (rejected_lines h.doubles s.agg)
            ∷ word64 s.agg.oversize_lines
            ∷ word64 s.agg.speeds.spd_n
            ∷ text avg
            ∷ word64 ms
            ∷ word64 rss
            ∷ word64 (length s.result_csv)
            ∷ [])
          (a, (b, (c, (d, (e, (f, (mean_short, (g, (i, (j, tt)))))))))) in
      read_on _ _ _ _ _ s.upload_received q0 (
        read_on _ _ _ _ _ s.agg.total_lines q1 (
          read_on _ _ _ _ _ s.agg.accepted_lines q2 (
            read_on _ _ _ _ _ (rejected_lines h.doubles s.agg) q3 (
              read_on _ _ _ _ _ s.agg.oversize_lines q4 (
                read_on _ _ _ _ _ s.agg.speeds.spd_n q5 (
                  read_on _ _ _ _ _ avg q6 (
                    read_on _ _ _ _ _ ms q7 (
                      read_on _ _ _ _ _ rss q8
                        (read_on _ _ _ _ _ (length s.result_csv) q9 refl)))))))))
    where
      mean_short : length (take 31 (h.doubles.fixed 6 (spd_avg h.doubles s.agg.speeds))) < 2 ^ 16
      mean_short =
          omega (arith, length-take 31 (h.doubles.fixed 6 (spd_avg h.doubles s.agg.speeds)))
