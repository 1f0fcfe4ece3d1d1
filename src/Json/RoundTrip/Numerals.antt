-- ===== src/Json/RoundTrip/Numerals.antt =====
-- The text of a number (src/json/parser.cc), and the loops of the scanner on its parts.
use gabby.Base.{
  ℕ, zero, suc, ◌<◌, ◌&&◌, not, Bool, true, false, Option, none, some, inl, inr, Bool-cases, [],
  ◌∷◌, ◌++◌, Bytes, ◌==◌, isdigit, isalnum, length, ◌≡◌, refl, opt_eq, arith, All, append_assoc,
  append-nil, ◌∙◌,
}
use gabby.Outcome.{ok, bind}
use gabby.Json.Source.{view_source}
use gabby.Json.Scan.{
  is_delim, peek, advance, in_mantissa, scan_mantissa, scan_fraction, scan_exponent, sign_test,
}
use gabby.Json.RoundTrip.Tokens.{at, head_of, peek-at, run_true, scan_word-at, IsWord}

-- The bytes that the integral and the fractional part take.
abbrev pub in_part : ℕ → Bool
in_part c = isalnum c && not (c == b'e')

abbrev pub IsPart : Bytes → Type 0
IsPart s = All (λ c. in_part c ≡ true) s

-- A number's text: `-`, a digit, more bytes of the integral part, `.` and the fractional part, `e`
-- with one byte for the sign and the exponent.
pub record Numeral : Type 0 where
  pub negative : Bool
  pub first : ℕ
  pub whole : Bytes
  pub fraction : Option Bytes
  pub exponent : Option (ℕ × Bytes)

abbrev pub fraction_text : Option Bytes → Bytes
fraction_text none = []
fraction_text (some s) = b'.' ∷ s

abbrev pub exponent_text : Option (ℕ × Bytes) → Bytes
exponent_text none = []
exponent_text (some (sign, s)) = b'e' ∷ sign ∷ s

abbrev pub body : Numeral → Bytes
body n = n.first ∷ (n.whole ++ (fraction_text n.fraction ++ exponent_text n.exponent))

abbrev pub sign_text : Bool → Bytes
sign_text true = b'-' ∷ []
sign_text false = []

abbrev pub text : Numeral → Bytes
text n = sign_text n.negative ++ body n

abbrev pub IsFraction : Option Bytes → Type 0
IsFraction none = Unit
IsFraction (some s) = IsPart s

abbrev pub IsExponent : Option (ℕ × Bytes) → Type 0
IsExponent none = Unit
IsExponent (some (sign, s)) = IsWord s

pub record IsNumeral (n : Numeral) : Type 0 where
  pub digit : isdigit n.first ≡ true
  pub whole_part : IsPart n.whole
  pub fraction_part : IsFraction n.fraction
  pub exponent_part : IsExponent n.exponent

-- What may follow a number: no byte of it, and neither a point nor an `e`.
abbrev pub ends_number : Option ℕ → Bool
ends_number none = true
ends_number (some c) = not (isalnum c) && not (c == b'.')

-- Where the loop of a part stops.
abbrev pub ends_part : Option ℕ → Bool
ends_part none = true
ends_part (some c) = not (in_part c)

ends_number-no_e : (m : Option ℕ) → ends_number m ≡ true → opt_eq m (some b'e') ≡ false
ends_number-no_e none d = refl
ends_number-no_e (some c) d = ground arith

ends_number-no_point : (m : Option ℕ) → ends_number m ≡ true → opt_eq m (some b'.') ≡ false
ends_number-no_point none d = refl
ends_number-no_point (some c) d = ground arith

ends_number-ends_part : (m : Option ℕ) → ends_number m ≡ true → ends_part m ≡ true
ends_number-ends_part none d = refl
ends_number-ends_part (some c) d = ground arith

pub ends_number-is_delim : (m : Option ℕ) → ends_number m ≡ true → is_delim m ≡ true
unfolding is_delim
ends_number-is_delim none d = refl
ends_number-is_delim (some c) d = ground arith

sign_test-true : (m : Option ℕ) → sign_test view_source m ≡ true
sign_test-true m = elim (Bool-cases (opt_eq m (some b'+'))) [ inl e ↦ rw e | inr e ↦ rw e ]

in_mantissa-at :
    (r : Bytes) → in_mantissa view_source (at r) ≡ ok (not (ends_part (head_of r)), at r)
unfolding in_mantissa peek is_delim
in_mantissa-at [] = refl
in_mantissa-at (c ∷ cs) = ground arith

pub scan_mantissa-at :
    (f : ℕ) (s w rest : Bytes)
    → IsPart s
    → ends_part (head_of rest) ≡ true
    → length s < f
    → scan_mantissa view_source f w (at (s ++ rest)) ≡ ok (w ++ s, at rest)
unfolding scan_mantissa advance
scan_mantissa-at zero s w rest p d h = absurd (omega arith)
scan_mantissa-at (suc f) [] w rest p d h = rw (in_mantissa-at, d, bind) (rw append-nil)
scan_mantissa-at (suc f) (c ∷ cs) w rest p d h =
    rw (in_mantissa-at, bind)
      (rw p.0 (scan_mantissa-at f cs (w ++ c ∷ []) rest p.1 d (omega arith) ∙ rw append_assoc))

pub scan_fraction-at :
    (f : ℕ) (o : Option Bytes) (w rest : Bytes)
    → IsFraction o
    → ends_part (head_of rest) ≡ true
    → opt_eq (head_of rest) (some b'.') ≡ false
    → length (fraction_text o) < f
    → scan_fraction view_source f w (at (fraction_text o ++ rest))
      ≡ ok (w ++ fraction_text o, at rest)
unfolding scan_fraction advance
scan_fraction-at f none w rest p d e h = rw (peek-at, e, bind) (rw append-nil)
scan_fraction-at f (some s) w rest p d e h =
    rw peek-at (scan_mantissa-at f s (w ++ b'.' ∷ []) rest p d (omega arith) ∙ rw append_assoc)

pub scan_exponent-at :
    (f : ℕ) (o : Option (ℕ × Bytes)) (w rest : Bytes)
    → IsExponent o
    → ends_number (head_of rest) ≡ true
    → length (exponent_text o) < f
    → scan_exponent view_source f w (at (exponent_text o ++ rest))
      ≡ ok (w ++ exponent_text o, at rest)
unfolding scan_exponent advance
scan_exponent-at f none w rest p d h =
    rw (peek-at, ends_number-no_e (head_of rest) d, bind) (rw append-nil)
scan_exponent-at f (some (sign, s)) w rest p d h =
    rw (peek-at, peek-at, bind)
      (run_true (sign_test view_source (some sign)) _ _ (sign_test-true (some sign)) (
        scan_word-at f s ((w ++ b'e' ∷ []) ++ sign ∷ []) rest p
          (ends_number-is_delim (head_of rest) d) (omega arith)
        ∙ rw (append_assoc, append_assoc)))

-- Where the fractional part ends, and where the integral part ends.
pub exponent-ends_part :
    (o : Option (ℕ × Bytes)) (rest : Bytes)
    → ends_number (head_of rest) ≡ true
    → (ends_part (head_of (exponent_text o ++ rest)) ≡ true)
      × (opt_eq (head_of (exponent_text o ++ rest)) (some b'.') ≡ false)
exponent-ends_part none rest d =
    (ends_number-ends_part (head_of rest) d, ends_number-no_point (head_of rest) d)
exponent-ends_part (some (sign, s)) rest d = (refl, refl)

pub fraction-ends_part :
    (o : Option Bytes) (rest : Bytes)
    → ends_part (head_of rest) ≡ true
    → ends_part (head_of (fraction_text o ++ rest)) ≡ true
fraction-ends_part none rest d = d
fraction-ends_part (some s) rest d = refl
