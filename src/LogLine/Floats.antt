-- ===== src/LogLine/Floats.antt =====
-- What the program uses of `double`, which has no model here: the operations are parameters.
use assignment_logger_analyz.Prelude.{ℕ, Bool, Bytes}

-- The result of `strtod` on a text: the value, whether all of it was read, whether the value is
-- finite, and whether `errno` is ERANGE.
pub record Strtod (Double : Type 0) : Type 0 where
  pub value : Double
  pub whole : Bool
  pub finite : Bool
  pub erange : Bool

pub record Doubles : Type 1 where
  pub Double : Type 0
  pub zero_d : Double
  -- kSpdMin and kSpdMax
  pub spd_min : Double
  pub spd_max : Double
  pub add_d : Double → Double → Double
  pub sub_d : Double → Double → Double
  pub mul_d : Double → Double → Double
  pub div_d : Double → Double → Double
  -- static_cast<double>
  pub of_nat : ℕ → Double
  pub lt_d : Double → Double → Bool
  -- fabs(a) >= fabs(b)
  pub abs_ge : Double → Double → Bool
  pub strtod : Bytes → Strtod Double
  -- snprintf with "%.<n>f"
  pub fixed : ℕ → Double → Bytes
