-- ===== src/Client/Texts.antt =====
-- `human_bytes` and `server_error_text` of 01.Sources/CLIENT/CPP/src/net/Transfer.cpp, and reads of a
-- payload's fields in a row, each of which fails with a text where the payload is too short.
use assignment_logger_analyz.Prelude.{
  ℕ, if◌then◌else◌, not, Bytes, codes, ◌++◌, decimal, take, Option, none, some,
}
use assignment_logger_analyz.LogLine.Floats.{Doubles}
use assignment_logger_analyz.Payload.Reader
use assignment_logger_analyz.Payload.Reader.{Reader, reader}
use assignment_logger_analyz.Client.Actions.{Action, Result, done, failed, stuck, pure, ◌>>=◌}

module _ (d : Doubles) where
  open d use {Double, mul_d, div_d, of_nat, lt_d, fixed}

  unfoldable pub human_bytes : ℕ → Bytes
  unfolding decimal
  human_bytes n =
      let ki = of_nat 1024 in
      let v = of_nat n in
      if not (lt_d v (mul_d (mul_d ki ki) ki))
      then take 31 (fixed 2 (div_d v (mul_d (mul_d ki ki) ki)) ++ codes " GiB")
      else if not (lt_d v (mul_d ki ki))
      then take 31 (fixed 1 (div_d v (mul_d ki ki)) ++ codes " MiB")
      else if not (lt_d v ki)
      then take 31 (fixed 1 (div_d v ki) ++ codes " KiB")
      else take 31 (decimal n ++ codes " B")

abbrev pub Fields : Type 0 → Type 0
Fields A = Action Reader A

abbrev pub or_fail : {A : Type 0} → Bytes → Option A × Reader → Result A × Reader
or_fail why (none, r) = (failed why, r)
or_fail why (some a, r) = (done a, r)

-- One read of a chain `!r.u32(a) || !r.str16(b) || ...`.
abbrev pub field : {A : Type 0} → (Reader → Option A × Reader) → Bytes → Fields A
field get why r = or_fail why (get r)

-- A chain of reads from the front of a payload.
unfoldable pub reading : {S A : Type 0} → Bytes → Fields A → Action S A
reading payload m s = ((m (reader payload)).0, s)

unfoldable error_fields : Fields Bytes
unfolding decimal
error_fields = do
  code ← field Reader.u16 (codes "malformed ERROR payload")
  msg ← field Reader.str16 (codes "malformed ERROR payload")
  pure (codes "server error " ++ (decimal code ++ (codes ": " ++ msg)))

-- The text that a chain of reads gives, or that it fails with.
abbrev either_text : Result Bytes → Bytes
either_text (done t) = t
either_text (failed t) = t
either_text stuck = codes ""

unfoldable pub server_error_text : Bytes → Bytes
unfolding error_fields
server_error_text payload = either_text (error_fields (reader payload)).0
