-- ===== src/Tests/Samples.antt =====
-- A host that takes every frame and whose clock stands still, with whole numbers in place of `double`,
-- and sessions, frames and lines.
use assignment_logger_analyz.Prelude.{
  ℕ, ◌+◌, ◌-◌, ◌*◌, ltb, leb, true, false, [], ◌∷◌, ◌++◌, Bytes, codes, decimal,
}
use assignment_logger_analyz.LogLine.Floats.{Doubles}
use assignment_logger_analyz.Protocol.{cancel}
use assignment_logger_analyz.Session.Host.{Host, no_peer}
use assignment_logger_analyz.Session.State.{uploading, closing, Session, new_session}

abbrev pub doubles : Doubles
doubles = record {
  Double = ℕ;
  zero_d = 0;
  spd_min = 0;
  spd_max = 1000;
  add_d = λ a b. a + b;
  sub_d = λ a b. a - b;
  mul_d = λ a b. a * b;
  div_d = λ a b. a;
  of_nat = λ n. n;
  lt_d = λ a b. ltb a b;
  abs_ge = λ a b. leb b a;
  strtod = λ text. record { value = 100; whole = true; finite = true; erange = false };
  fixed = λ digits a. decimal a;
}

abbrev pub host : Host
host = record {
  doubles = doubles;
  World = Unit {0};
  uv_write = λ w frame. (true, w);
  read_start = λ w. (true, w);
  hrtime = λ w. (1000000, w);
  peak_rss_kb = λ w. (2048, w);
  utc_now = λ w. (codes "2026-06-19T22:00:00Z", w);
  peer_name = λ w. no_peer;
  timer_closing = λ w. false;
  tcp_closing = λ w. false;
  uv_version = codes "1.48.0";
}

abbrev pub accepted_session : Session host
accepted_session = new_session host 7 300000 15000 tt

abbrev pub uploading_session : Session host
uploading_session = record accepted_session {
  state = uploading;
  upload_declared = 70;
  upload_received = 12;
}

abbrev pub cancelling_session : Session host
cancelling_session = record uploading_session {
  decoder = record uploading_session.decoder {
    header = record uploading_session.decoder.header { type = cancel };
  };
}

abbrev pub closing_session : Session host
closing_session = record accepted_session { state = closing; pending_close = 2 }

-- HELLO, version 1, from a client that is called "ab", in two pieces.
abbrev pub hello_head : Bytes
hello_head = 0x42 ∷ 0x59 ∷ 0x44 ∷ 0x41 ∷ 1 ∷ 1 ∷ 0 ∷ 0 ∷ []

abbrev pub hello_tail : Bytes
hello_tail = 0 ∷ 0 ∷ 0 ∷ 0 ∷ 0 ∷ 0 ∷ 0 ∷ 6 ∷ 0 ∷ 1 ∷ 0 ∷ 2 ∷ b'a' ∷ b'b' ∷ []

abbrev pub hello_frame : Bytes
hello_frame = hello_head ++ hello_tail

abbrev pub log_line : Bytes
log_line = codes "[2026-06-19_22:00:00.045000][1][2][3] BYDA::RadarTrackNodeState: spd[100.0]"
