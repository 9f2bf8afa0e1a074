-- ===== src/Tests/Texts.antt =====
-- The theorems on the command line, the report's fields and excerpts, at sample data.
use assignment_logger_analyz.Prelude.{◌≡◌, true, some, [], ◌∷◌, ◌++◌, Bytes, codes, arith}
use assignment_logger_analyz.Config.{from_zero, Strtol, default_config, parse_args}
use assignment_logger_analyz.Config.Ranges.{Accepts, parse_args-InRange}
use assignment_logger_analyz.Csv.Quote.{csv_quote}
use assignment_logger_analyz.Csv.Fields.{read_field, read_field-csv_quote}
use assignment_logger_analyz.Aggregator.Excerpt.{escape_excerpt}
use assignment_logger_analyz.Aggregator.Excerpt.Bounds.{Neat, escape_excerpt-Neat}

abbrev nine_thousand : Bytes → Strtol
nine_thousand text = record { value = from_zero 9000; no_error = true; whole = true }

parse_args-InRange_example :
    Accepts (parse_args nine_thousand (codes "--port" ∷ codes "9000" ∷ []) default_config)
parse_args-InRange_example =
    parse_args-InRange nine_thousand (codes "--port" ∷ codes "9000" ∷ []) default_config (record {
      port = (omega arith, omega arith);
      max_sessions = (omega arith, omega arith);
      idle = (omega arith, omega arith);
      upload = (omega arith, omega arith);
    })

read_field-csv_quote_example :
    read_field (csv_quote (b'a' ∷ b'\n' ∷ codes "b") ++ (b',' ∷ codes "c"))
    ≡ some (b'a' ∷ b'\n' ∷ codes "b", b',' ∷ codes "c")
read_field-csv_quote_example =
    read_field-csv_quote (b'a' ∷ b'\n' ∷ codes "b") (b',' ∷ codes "c") (λ i. true)

escape_excerpt-Neat_example : Neat 166 (escape_excerpt (7 ∷ b'x' ∷ []))
escape_excerpt-Neat_example = escape_excerpt-Neat (7 ∷ b'x' ∷ []) (omega arith, (omega arith, tt))
