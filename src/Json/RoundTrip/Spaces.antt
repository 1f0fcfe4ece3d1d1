-- ===== src/Json/RoundTrip/Spaces.antt =====
-- src/json/parser.cc on a printed value with whitespace in front of it.
use gabby.Base.{
  ℕ, zero, suc, ◌+◌, ◌*◌, ◌<◌, true, Option, [], ◌∷◌, ◌++◌, Bytes, isspace, length, length-append,
  ◌≡◌, refl, ap, ◌∙◌, arith, append-nil, All, ◌^◌,
}
use gabby.Outcome.{ok, step}
use gabby.Json.Value.{Value, print}
use gabby.Json.Source.{view_source}
use gabby.Json.Scan.{scan_skip_whitespace, scan}
use gabby.Json.Parse.{parse_string, parse_all, value, peek_token}
use gabby.Json.Total.Stream.{value_only, parse_string-parse_view}
use gabby.Json.RoundTrip.Tokens.{at, trim, skip_whitespace-at}
use gabby.Json.RoundTrip.Printable.{IsPrintable}
use gabby.Json.RoundTrip.Peeks.{before}
use gabby.Json.RoundTrip.Parse.{value-print}

abbrev pub IsSpaces : Bytes → Type 0
IsSpaces s = All (λ c. isspace c ≡ true) s

trim-spaces : (spaces s : Bytes) → IsSpaces spaces → trim (spaces ++ s) ≡ trim s
trim-spaces [] s p = refl
trim-spaces (c ∷ cs) s p = rw p.0 (trim-spaces cs s p.1)

module _ (stod : Bytes → Option ℕ) (limit : ℕ) (spaces s : Bytes) (p : IsSpaces spaces)
    (h : length (spaces ++ s) < limit) where
  scan-spaces :
      scan_skip_whitespace view_source stod limit (at (spaces ++ s))
      ≡ scan_skip_whitespace view_source stod limit (at s)
  unfolding scan_skip_whitespace scan
  scan-spaces =
      rw
        (
          skip_whitespace-at limit (spaces ++ s) h,
          trim-spaces spaces s p,
          skip_whitespace-at limit s (omega (arith, length-append spaces s)),
        )
        refl

  value-spaces :
      (f : ℕ)
      → value view_source stod limit f (before (spaces ++ s))
        ≡ value view_source stod limit f (before s)
  unfolding value peek_token
  value-spaces zero = refl
  value-spaces (suc f) = rw scan-spaces refl

module _ (show_double : ℕ → Bytes) (stod : Bytes → Option ℕ) where
  value-print_behind :
      (spaces : Bytes) (v : Value)
      → IsSpaces spaces
      → IsPrintable show_double stod v
      → (let size = length (spaces ++ print show_double v) in
          value view_source stod (size + 1) (2 * size + 1) (before (spaces ++ print show_double v))
          ≡ ok (v, before []))
  value-print_behind spaces v s p =
      let text = print show_double v in
      let size = length (spaces ++ text) in
      value-spaces stod (size + 1) spaces text s (omega arith) (2 * size + 1)
      ∙ rw append-nil at (
          value-print show_double stod (size + 1) v (2 * size + 1) [] p refl
            (omega (arith, length-append spaces text))
            (omega (arith, length-append spaces text, ap length (append-nil text))))

  -- `Parse` gives back a printable value from its printed text with whitespace in front of it,
  -- if that is shorter than 2^31 bytes.
  pub parse_string-spaces :
      (spaces : Bytes) (v : Value)
      → IsSpaces spaces
      → IsPrintable show_double stod v
      → length (spaces ++ print show_double v) < 2 ^ 31
      → parse_string stod (spaces ++ print show_double v) ≡ ok v
  unfolding parse_all
  parse_string-spaces spaces v s p h =
      parse_string-parse_view stod (spaces ++ print show_double v) h
      ∙ ap value_only (step _ (value-print_behind spaces v s p) refl)
