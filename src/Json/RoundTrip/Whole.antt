-- ===== src/Json/RoundTrip/Whole.antt =====
-- `Parse(const std::string&)` (src/json/parser.cc) on the text that `operator<<` (src/json/json.h)
-- writes for a value.
use gabby.Base.{
  ℕ, ◌+◌, ◌*◌, Option, [], Bytes, length, ◌≡◌, refl, ap, ◌∙◌, arith, append-nil, ◌<◌, ◌^◌,
}
use gabby.Outcome.{ok, step}
use gabby.Json.Value.{Value, print}
use gabby.Json.Source.{view_source}
use gabby.Json.Parse.{parse_string, parse_all, value}
use gabby.Json.Total.Stream.{parse_view, value_only, parse_string-parse_view}
use gabby.Json.RoundTrip.Printable.{IsPrintable}
use gabby.Json.RoundTrip.Peeks.{before}
use gabby.Json.RoundTrip.Parse.{value-print}

module _ (show_double : ℕ → Bytes) (stod : Bytes → Option ℕ) where
  value-print_whole :
      (v : Value)
      → IsPrintable show_double stod v
      → value view_source stod
          (length (print show_double v) + 1)
          (2 * length (print show_double v) + 1)
          (before (print show_double v))
        ≡ ok (v, before [])
  value-print_whole v p = rw append-nil at (
      value-print show_double stod (length (print show_double v) + 1) v
        (2 * length (print show_double v) + 1) [] p refl (omega arith)
        (omega (arith, ap length (append-nil (print show_double v)))))

  parse_view-print :
      (v : Value)
      → IsPrintable show_double stod v
      → value_only (parse_view stod (print show_double v)) ≡ ok v
  unfolding parse_all
  parse_view-print v p = ap value_only (step _ (value-print_whole v p) refl)

  -- `Parse` gives back a value from its printed text, if no string of the value holds a quote, a
  -- backslash or a newline, no object has a key twice, each number is written as a JSON-like numeral
  -- that `std::stod` reads back, and the text is shorter than 2^31 bytes.
  pub parse_string-print :
      (v : Value)
      → IsPrintable show_double stod v
      → length (print show_double v) < 2 ^ 31
      → parse_string stod (print show_double v) ≡ ok v
  parse_string-print v p h =
      parse_string-parse_view stod (print show_double v) h ∙ parse_view-print v p
