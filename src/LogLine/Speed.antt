-- ===== src/LogLine/Speed.antt =====
-- `find_spd` of LogLine.cpp: the value of the first key `spd` of a payload, if it is a number.
use assignment_logger_analyz.Prelude.{
  ℕ, zero, suc, ◌+◌, ◌-◌, ltb, leb, ◌==◌, if◌then◌else◌, Bool, true, false, not, ◌&&◌, ◌||◌, Option,
  none, some, [], ◌∷◌, Bytes, codes, length, get_or, take, drop,
}
use assignment_logger_analyz.LogLine.Floats.{Doubles}

unfoldable pub is_digit : ℕ → Bool
is_digit c = leb b'0' c && leb c b'9'

unfoldable pub is_ident : ℕ → Bool
unfolding is_digit
is_ident c = (leb b'A' c && leb c b'Z') || (leb b'a' c && leb c b'z') || is_digit c || c == b'_'

unfoldable pub starts_with : Bytes → Bytes → Bool
starts_with [] s = true
starts_with (p ∷ ps) [] = false
starts_with (p ∷ ps) (c ∷ s) = p == c && starts_with ps s

-- std::string_view::find, from the text at `at` on.
unfoldable pub find_from : Bytes → ℕ → Bytes → Option ℕ
unfolding starts_with
find_from pat at [] = none
find_from pat at (c ∷ s) =
    let later = find_from pat (at + 1) s in if starts_with pat (c ∷ s) then some at else later

-- The digits at the front, counted, and the rest.
unfoldable pub span_digits : Bytes → ℕ × Bytes
unfolding is_digit
span_digits [] = (0, [])
span_digits (c ∷ s) =
    let (n, rest) = span_digits s in if is_digit c then (n + 1, rest) else (0, c ∷ s)

abbrev skip_sign : Bytes → Bytes
skip_sign [] = []
skip_sign (c ∷ s) = if c == b'+' || c == b'-' then s else c ∷ s

-- Digits behind a point, if there is one, added to those in front of it.
abbrev fraction : ℕ × Bytes → ℕ × Bytes
fraction (n, []) = (n, [])
fraction (n, c ∷ s) = if c == b'.' then (n + (span_digits s).0, (span_digits s).1) else (n, c ∷ s)

-- Sign, digits and point, with a digit at least and nothing behind them.
unfoldable pub is_number : Bytes → Bool
unfolding span_digits
is_number token =
    let (n, rest) = fraction (span_digits (skip_sign token)) in not (n == 0) && length rest == 0

module _ (d : Doubles) where
  open d use {Double, spd_min, spd_max, lt_d, strtod}

  -- The value, if the key has one in range, and the flag `out_of_range`.
  unfoldable pub read_speed : Bytes → Option Double × Bool
  unfolding is_number
  read_speed token =
      if length token == 0 || leb 64 (length token)
      then (none, false)
      else if not (is_number token)
      then (none, false)
      else let r = strtod token in
        if not r.whole || not r.finite
        then (none, false)
        else if r.erange || lt_d r.value spd_min || lt_d spd_max r.value
        then (none, true)
        else (some r.value, false)

  -- The text between `begin` and the next bracket, if there is one.
  abbrev speed_token : Bytes → ℕ → Option ℕ → Option Double × Bool
  speed_token payload begin none = (none, false)
  speed_token payload begin (some close) = read_speed (take (close - begin) (drop begin payload))

  -- `while (true)`, with fuel: each round moves `pos` on by four at least.
  unfoldable pub find_spd_loop : ℕ → Bytes → ℕ → Option Double × Bool
  unfolding find_from is_ident read_speed
  find_spd_loop zero payload pos = (none, false)
  find_spd_loop (suc fuel) payload pos = elim (find_from (codes "spd[") pos (drop pos payload)) [
    | none ↦ (none, false)
    | some at ↦
        let again = find_spd_loop fuel payload (at + 4) in
        if ltb 0 at && is_ident (get_or payload (at - 1) 0)
        then again
        else speed_token payload (at + 4) (find_from (codes "]") (at + 4) (drop (at + 4) payload))
  ]

  unfoldable pub find_spd : Bytes → Option Double × Bool
  unfolding find_spd_loop
  find_spd payload = find_spd_loop (length payload + 1) payload 0
