-- ===== src/Aggregator/BucketTable.antt =====
-- The buckets of an aggregator: a vector sorted by key, and the place of the last access.
use assignment_logger_analyz.Prelude.{
  ℕ, zero, suc, ◌+◌, ltb, ◌==◌, if◌then◌else◌, Bool, true, false, ◌&&◌, List, [], ◌∷◌,
}

pub record BucketStat : Type 0 where
  pub module_count : List ℕ
  pub total : ℕ

abbrev pub empty_stat : BucketStat
empty_stat = record { module_count = 0 ∷ 0 ∷ 0 ∷ 0 ∷ 0 ∷ []; total = 0 }

abbrev pub max_buckets : ℕ
max_buckets = 10000

abbrev pub Entries : Type 0
Entries = List (ℕ × BucketStat)

pub record Buckets : Type 0 where
  pub entries : Entries
  pub last_key : ℕ
  pub last_index : ℕ
  pub has_last : Bool

abbrev pub no_buckets : Buckets
no_buckets = record { entries = []; last_key = 0; last_index = 0; has_last = false }

-- ++xs[i]
unfoldable pub inc_at : ℕ → List ℕ → List ℕ
inc_at i [] = []
inc_at zero (x ∷ xs) = (x + 1) ∷ xs
inc_at (suc i) (x ∷ xs) = x ∷ inc_at i xs

-- std::lower_bound: the first place whose key is not below `key`.
unfoldable pub lower_bound : Entries → ℕ → ℕ
lower_bound [] key = 0
lower_bound ((k, b) ∷ es) key = let later = lower_bound es key in if ltb k key then suc later else 0

-- `it != end() && it->first == key` for the place `i`.
unfoldable pub key_at : Entries → ℕ → ℕ → Bool
key_at [] i key = false
key_at ((k, b) ∷ es) zero key = k == key
key_at (e ∷ es) (suc i) key = key_at es i key

-- std::vector::emplace
unfoldable pub insert_at : ℕ → ℕ × BucketStat → Entries → Entries
insert_at zero e es = e ∷ es
insert_at (suc i) e [] = e ∷ []
insert_at (suc i) e (x ∷ es) = x ∷ insert_at i e es

-- The buckets after the access, and the place of the bucket that the source returns a reference to.
unfoldable pub bucket_for : Buckets → ℕ → Buckets × ℕ
unfolding lower_bound key_at insert_at
bucket_for b key =
    if b.has_last && b.last_key == key
    then (b, b.last_index)
    else let i = lower_bound b.entries key in
      (
        record {
          entries =
              if key_at b.entries i key then b.entries else insert_at i (key, empty_stat) b.entries;
          last_key = key;
          last_index = i;
          has_last = true;
        },
        i,
      )

unfoldable pub bump_at : Entries → ℕ → ℕ → Entries
unfolding inc_at
bump_at [] i mi = []
bump_at ((k, b) ∷ es) zero mi =
    (k, record { module_count = inc_at mi b.module_count; total = b.total + 1 }) ∷ es
bump_at (e ∷ es) (suc i) mi = e ∷ bump_at es i mi

-- `++b.module_count[mi]; ++b.total;`
unfoldable pub bump : Buckets → ℕ → ℕ → Buckets
unfolding bump_at
bump b i mi = record b { entries = bump_at b.entries i mi }
