-- ===== src/Csv/Quote.antt =====
-- `csv_quote` of 01.Sources/SERVER/src/analyze/CsvWriter.cpp.
use assignment_logger_analyz.Prelude.{
  ◌==◌, if◌then◌else◌, Bool, true, false, ◌||◌, [], ◌∷◌, ◌++◌, Bytes,
}

abbrev pub quote : Bytes
quote = b'"' ∷ []

-- The loop that sets `need`.
unfoldable pub needs_quote : Bytes → Bool
needs_quote [] = false
needs_quote (c ∷ s) =
    let rest = needs_quote s in
    if c == b',' || (c == b'"' || (c == b'\n' || c == b'\r')) then true else rest

-- The loop that doubles each quote.
unfoldable pub doubled : Bytes → Bytes
doubled [] = []
doubled (c ∷ s) = if c == b'"' then b'"' ∷ c ∷ doubled s else c ∷ doubled s

unfoldable pub csv_quote : Bytes → Bytes
unfolding needs_quote doubled
csv_quote s = if needs_quote s then quote ++ (doubled s ++ quote) else s
