-- ===== src/LogLine.antt =====
-- The check of one log line, 01.Sources/SERVER/src/parse/LogLine.h and LogLine.cpp. A line is a list of
-- bytes, and a scan from `s + i` on is a function of the rest of the list.
pub mod Floats
pub mod Speed
pub mod Whitelist
use Prim.Native.String.{String}
use assignment_logger_analyz.Prelude.{
  ℕ, zero, suc, ◌+◌, ◌-◌, ◌*◌, ltb, leb, ◌==◌, if◌then◌else◌, Bool, true, false, not, ◌&&◌, ◌||◌,
  Option, none, some, List, [], ◌∷◌, ◌++◌, Bytes, codes, equal, length, get_or, take, drop,
}
use Floats.{Doubles}
use Speed.{is_digit, is_ident, starts_with, find_spd}
use Whitelist.{Module, radar_track_node_state, lookup_module}

pub data Reason : Type 0 where
  accepted too_short missing_open_bracket bad_timestamp garbage_payload : Reason
  missing_close_bracket missing_byda_tag bad_module_name unknown_module : Reason

-- static_cast<std::size_t>(Reason)
unfoldable pub reason_index : Reason → ℕ
reason_index accepted = 0
reason_index too_short = 1
reason_index missing_open_bracket = 2
reason_index bad_timestamp = 3
reason_index garbage_payload = 4
reason_index missing_close_bracket = 5
reason_index missing_byda_tag = 6
reason_index bad_module_name = 7
reason_index unknown_module = 8

abbrev pub reason_count : ℕ
reason_count = 9

unfoldable pub reason_key : Reason → String
reason_key accepted = "accepted"
reason_key too_short = "rejected_too_short"
reason_key missing_open_bracket = "rejected_missing_open_bracket"
reason_key bad_timestamp = "rejected_bad_timestamp"
reason_key garbage_payload = "rejected_garbage_payload"
reason_key missing_close_bracket = "rejected_missing_close_bracket"
reason_key missing_byda_tag = "rejected_missing_byda_tag"
reason_key bad_module_name = "rejected_bad_module_name"
reason_key unknown_module = "rejected_unknown_module"

unfoldable pub reason_text : Reason → String
reason_text accepted = "Header valid and module in whitelist"
reason_text too_short = "Line shorter than the minimum valid header"
reason_text missing_open_bracket = "Line does not start with '['"
reason_text bad_timestamp = "Timestamp block does not match the fixed layout"
reason_text garbage_payload = "Timestamp present but no PID/TID/SEQ structure"
reason_text missing_close_bracket = "PID/TID/SEQ field not terminated by ']'"
reason_text missing_byda_tag = "Missing the ' BYDA::' tag"
reason_text bad_module_name = "Module name malformed or not followed by ': '"
reason_text unknown_module = "Header valid but module is not in the whitelist"

abbrev pub min_line_length : ℕ
min_line_length = 47

abbrev pub ts_end : ℕ
ts_end = 27

-- The digits at `i` and behind it, as numbers.
abbrev pub digit : Bytes → ℕ → ℕ
digit s i = get_or s i 0 - b'0'

unfoldable pub digit2 : Bytes → ℕ → ℕ
digit2 s i = digit s i * 10 + digit s (i + 1)

unfoldable pub digit4 : Bytes → ℕ → ℕ
digit4 s i = digit s i * 1000 + digit s (i + 1) * 100 + digit s (i + 2) * 10 + digit s (i + 3)

abbrev digit_at : Bytes → ℕ → Bool
digit_at s i = is_digit (get_or s i 0)

unfoldable pub check_timestamp : Bytes → Bool
check_timestamp s =
    get_or s 0 0 == b'['
    && digit_at s 1
    && digit_at s 2
    && digit_at s 3
    && digit_at s 4
    && get_or s 5 0 == b'-'
    && digit_at s 6
    && digit_at s 7
    && get_or s 8 0 == b'-'
    && digit_at s 9
    && digit_at s 10
    && get_or s 11 0 == b'_'
    && digit_at s 12
    && digit_at s 13
    && get_or s 14 0 == b':'
    && digit_at s 15
    && digit_at s 16
    && get_or s 17 0 == b':'
    && digit_at s 18
    && digit_at s 19
    && get_or s 20 0 == b'.'
    && digit_at s 21
    && digit_at s 22
    && digit_at s 23
    && digit_at s 24
    && digit_at s 25
    && digit_at s 26
    && get_or s ts_end 0 == b']'

-- A stage of the check goes on with a value, or returns its reason.
pub data Stage {ℓ} (A : Type ℓ) : Type ℓ where
  go : A → Stage A
  stop : Reason → Stage A

infixl 5 ◌>>=◌
abbrev pub ◌>>=◌ {ℓ κ} : {A : Type ℓ} {B : Type κ} → Stage A → (A → Stage B) → Stage B
go a >>= f = f a
stop r >>= f = stop r

-- The loop over the digits of a field: their number, and the rest; no more than 20.
unfoldable pub field_digits : ℕ → Bytes → Stage (ℕ × Bytes)
field_digits digits [] = go (digits, [])
field_digits digits (c ∷ rest) =
    if is_digit c
    then if ltb 20 (digits + 1) then stop missing_close_bracket else field_digits (digits + 1) rest
    else go (digits, c ∷ rest)

unfoldable pub close_field : ℕ × Bytes → Stage Bytes
close_field (digits, []) = stop missing_close_bracket
close_field (digits, c ∷ rest) =
    if digits == 0 || not (c == b']') then stop missing_close_bracket else go rest

-- One `[digits]`; the first one's absence has a reason of its own.
unfoldable pub header_field : ℕ → Bytes → Stage Bytes
header_field field [] = stop (if field == 0 then garbage_payload else missing_close_bracket)
header_field field (c ∷ rest) =
    if not (c == b'[')
    then stop (if field == 0 then garbage_payload else missing_close_bracket)
    else do (digits, rest') ← field_digits 0 rest; close_field (digits, rest')

unfoldable pub header_fields : Bytes → Stage Bytes
header_fields s = do s₁ ← header_field 0 s; s₂ ← header_field 1 s₁; header_field 2 s₂

abbrev pub tag : Bytes
tag = codes " BYDA::"

unfoldable pub byda_tag : Bytes → Stage Bytes
byda_tag s = if starts_with tag s then go (drop (length tag) s) else stop missing_byda_tag

-- The longest run of identifier characters, and the rest.
unfoldable pub span_ident : Bytes → Bytes × Bytes
span_ident [] = ([], [])
span_ident (c ∷ rest) =
    let (token, rest') = span_ident rest in
    if is_ident c then (c ∷ token, rest') else ([], c ∷ rest)

-- The module's name with ": " behind it.
unfoldable pub module_token : Bytes × Bytes → Stage (Bytes × Bytes)
module_token ([], rest) = stop bad_module_name
module_token (t ∷ token, []) = stop bad_module_name
module_token (t ∷ token, c ∷ []) = stop bad_module_name
module_token (t ∷ token, c ∷ d ∷ payload) =
    if not (c == b':') || not (d == b' ') then stop bad_module_name else go (t ∷ token, payload)

-- The first stages: what stands in front of the module's name, and the name.
unfoldable pub parse_header : Bytes → Stage (Bytes × Bytes)
parse_header line =
    if ltb (length line) min_line_length
    then stop (
        if length line == 0
        then too_short
        else if not (get_or line 0 0 == b'[')
        then missing_open_bracket
        else too_short)
    else if not (get_or line 0 0 == b'[')
    then stop missing_open_bracket
    else if not (check_timestamp line)
    then stop bad_timestamp
    else do
      s ← header_fields (drop (ts_end + 1) line)
      s' ← byda_tag s
      module_token (span_ident s')

unfoldable pub bad_date : Bytes → Bool
unfolding digit2
bad_date line =
    ltb (digit2 line 6) 1
    || ltb 12 (digit2 line 6)
    || ltb (digit2 line 9) 1
    || ltb 31 (digit2 line 9)
    || ltb 23 (digit2 line 12)

unfoldable pub bucket_of : Bytes → ℕ
unfolding digit4 digit2
bucket_of line =
    digit4 line 1 * 1000000 + digit2 line 6 * 10000 + digit2 line 9 * 100 + digit2 line 12

module _ (d : Doubles) where
  open d use {Double, zero_d}

  pub record ParsedLine : Type 0 where
    pub log_module : Module
    pub bucket : ℕ
    pub has_spd : Bool
    pub spd_out_of_range : Bool
    pub spd : Double
    pub name_token : Bytes

  -- ParsedLine{}
  abbrev pub empty_line : ParsedLine
  empty_line = record {
    log_module = radar_track_node_state;
    bucket = 0;
    has_spd = false;
    spd_out_of_range = false;
    spd = zero_d;
    name_token = [];
  }

  abbrev set_spd : ParsedLine → Option Double × Bool → ParsedLine
  set_spd p (none, oor) = record p { spd_out_of_range = oor }
  set_spd p (some v, oor) = record p { has_spd = true; spd = v; spd_out_of_range = oor }

  -- The stages behind the module's name: the whitelist, the date, the speed.
  unfoldable pub parse_body : Bytes → Bytes → Bytes → Option Module → Reason × ParsedLine
  parse_body line token payload none = (unknown_module, record empty_line { name_token = token })
  parse_body line token payload (some m) =
      let p = record empty_line { name_token = token; log_module = m } in
      if bad_date line
      then (bad_timestamp, p)
      else (accepted, set_spd (record p { bucket = bucket_of line }) (find_spd d payload))

  unfoldable pub parse_stage : Bytes → Stage (Bytes × Bytes) → Reason × ParsedLine
  unfolding parse_body
  parse_stage line (stop r) = (r, empty_line)
  parse_stage line (go (token, payload)) = parse_body line token payload (lookup_module token)

  unfoldable pub parse_log_line : Bytes → Reason × ParsedLine
  unfolding parse_stage
  parse_log_line line = parse_stage line (parse_header line)
