-- ===== src/Aggregator/RejectLog.antt =====
-- What an aggregator keeps of the lines that it rejects.
use assignment_logger_analyz.Prelude.{
  ℕ, zero, suc, ◌+◌, ltb, ◌==◌, if◌then◌else◌, Bool, true, false, List, [], ◌∷◌, Bytes, equal,
  length,
}
use assignment_logger_analyz.LogLine.{Reason, unknown_module, reason_index, reason_count}
use assignment_logger_analyz.Aggregator.Excerpt.{escape_excerpt}

pub record CorruptSample : Type 0 where
  pub count : ℕ
  pub first_line_no : ℕ
  pub first_byte_offset : ℕ
  pub excerpt : Bytes

abbrev pub no_sample : CorruptSample
no_sample = record { count = 0; first_line_no = 0; first_byte_offset = 0; excerpt = [] }

abbrev pub max_rejected_modules : ℕ
max_rejected_modules = 64

-- The map is an association list in the order of its keys.
pub record Rejects : Type 0 where
  pub corrupt : List CorruptSample
  pub modules : List (Bytes × ℕ)

abbrev pub no_rejects : Rejects
no_rejects = record {
  corrupt =
      no_sample ∷ no_sample ∷ no_sample ∷ no_sample ∷ no_sample ∷ no_sample ∷ no_sample ∷ no_sample
      ∷ no_sample ∷ [];
  modules = [];
}

-- The order of std::string.
unfoldable pub before : Bytes → Bytes → Bool
before [] [] = false
before [] (y ∷ ys) = true
before (x ∷ xs) [] = false
before (x ∷ xs) (y ∷ ys) = if x == y then before xs ys else ltb x y

-- ++map[key]
unfoldable pub count_module : Bytes → List (Bytes × ℕ) → List (Bytes × ℕ)
unfolding before equal
count_module key [] = (key, 1) ∷ []
count_module key ((k, n) ∷ m) =
    if equal k key
    then (k, n + 1) ∷ m
    else if before key k
    then (key, 1) ∷ (k, n) ∷ m
    else (k, n) ∷ count_module key m

-- ++it->second where the key is there
unfoldable pub count_known : Bytes → List (Bytes × ℕ) → List (Bytes × ℕ)
unfolding equal
count_known key [] = []
count_known key ((k, n) ∷ m) = if equal k key then (k, n + 1) ∷ m else (k, n) ∷ count_known key m

unfoldable pub update_sample : CorruptSample → ℕ → Bytes → ℕ → CorruptSample
unfolding escape_excerpt
update_sample c line_no line byte_offset =
    if c.count == 0
    then record {
      count = 1;
      first_line_no = line_no;
      first_byte_offset = byte_offset;
      excerpt = escape_excerpt line;
    }
    else record c { count = c.count + 1 }

unfoldable pub sample_at :
    ℕ → (CorruptSample → CorruptSample) → List CorruptSample → List CorruptSample
sample_at i f [] = []
sample_at zero f (c ∷ cs) = f c ∷ cs
sample_at (suc i) f (c ∷ cs) = c ∷ sample_at i f cs

unfoldable pub record_module : Reason → Bytes → List (Bytes × ℕ) → List (Bytes × ℕ)
unfolding count_module count_known
record_module unknown_module token m =
    if length token == 0
    then m
    else if ltb (length m) max_rejected_modules
    then count_module token m
    else count_known token m
record_module r token m = m

-- The guard `idx >= kReasonCount` holds of no reason.
unfoldable pub record_reject : Rejects → ℕ → Reason → Bytes → ℕ → Bytes → Rejects
unfolding update_sample sample_at record_module reason_index
record_reject j line_no r line byte_offset token =
    if ltb (reason_index r) reason_count
    then record {
      corrupt =
          sample_at (reason_index r) (λ c. update_sample c line_no line byte_offset) j.corrupt;
      modules = record_module r token j.modules;
    }
    else j
