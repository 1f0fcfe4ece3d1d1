-- ===== src/Json/RoundTrip/Numbers.antt =====
-- The scanner on the bytes of one printed number.
use gabby.Base.{
  ℕ, ◌+◌, ◌<◌, Bool, true, false, Option, some, [], ◌∷◌, ◌++◌, Bytes, ◌==◌, isspace, isdigit,
  length, length-append, ◌≡◌, refl, opt_eq, arith, append_assoc, ap, ◌∙◌,
}
use gabby.Outcome.{ok, bind}
use gabby.Json.Source.{View, view_source}
use gabby.Json.Scan.{
  TokenType, double, token, number_token, advance, scan_mantissa, scan_fraction, scan_exponent,
  scan_number, scan_byte, push_next,
}
use gabby.Json.RoundTrip.Tokens.{at, head_of, scan_skip_whitespace-at, Scans}
use gabby.Json.RoundTrip.Numerals.{
  Numeral, fraction_text, exponent_text, body, sign_text, text, IsNumeral, ends_number, ends_part,
  scan_mantissa-at, scan_fraction-at, scan_exponent-at, exponent-ends_part, fraction-ends_part,
}

-- The body of a number, behind the bytes `w` that the scanner has pushed for its sign.
scan_body-at :
    (stod : Bytes → Option ℕ) (f : ℕ) (n : Numeral) (w rest : Bytes)
    → IsNumeral n
    → ends_number (head_of rest) ≡ true
    → length (body n) < f
    → bind (push_next view_source w (at (body n ++ rest))) (λ (first, t).
      bind (scan_mantissa view_source f first t) λ (whole, t).
        bind (scan_fraction view_source f whole t) λ (fraction, t).
          bind (scan_exponent view_source f fraction t) λ (s, t). number_token stod s t)
      ≡ number_token stod (w ++ body n) (at rest)
unfolding advance
scan_body-at stod f n w rest v d h =
    rw (append_assoc n.whole (fr ++ ex) rest, append_assoc fr ex rest)
      (rw
        (
          scan_mantissa-at f n.whole (w ++ n.first ∷ []) (fr ++ (ex ++ rest)) v.whole_part
              (fraction-ends_part n.fraction (ex ++ rest) stop.0) (omega (arith, sizes, sizes')),
          bind,
        )
        (rw
          (
            scan_fraction-at f n.fraction ((w ++ n.first ∷ []) ++ n.whole) (ex ++ rest)
                v.fraction_part stop.0 stop.1 (omega (arith, sizes, sizes')),
            bind,
          )
          (rw
            (
              scan_exponent-at f n.exponent (((w ++ n.first ∷ []) ++ n.whole) ++ fr) rest
                  v.exponent_part d (omega (arith, sizes, sizes')),
              bind,
            )
            (ap (λ s. number_token stod s (at rest)) (simp append_assoc)))))
  where
    fr : Bytes
    fr = fraction_text n.fraction

    ex : Bytes
    ex = exponent_text n.exponent

    stop :
        (ends_part (head_of (ex ++ rest)) ≡ true)
        × (opt_eq (head_of (ex ++ rest)) (some b'.') ≡ false)
    stop = exponent-ends_part n.exponent rest d

    sizes : length (n.whole ++ (fr ++ ex)) ≡ length n.whole + length (fr ++ ex)
    sizes = length-append n.whole (fr ++ ex)

    sizes' : length (fr ++ ex) ≡ length fr + length ex
    sizes' = length-append fr ex

digit-not_minus : (c : ℕ) → isdigit c ≡ true → (c == b'-') ≡ false
digit-not_minus c h = ground arith

scan_signed-at :
    (stod : Bytes → Option ℕ) (f : ℕ) (n : Numeral) (rest : Bytes)
    → IsNumeral n
    → ends_number (head_of rest) ≡ true
    → length (body n) < f
    → scan_number view_source stod f b'-' (at (b'-' ∷ (body n ++ rest)))
      ≡ number_token stod (b'-' ∷ body n) (at rest)
unfolding scan_number advance
scan_signed-at stod f n rest v d h = scan_body-at stod f n (b'-' ∷ []) rest v d h

scan_unsigned-at :
    (stod : Bytes → Option ℕ) (f : ℕ) (n : Numeral) (rest : Bytes)
    → IsNumeral n
    → ends_number (head_of rest) ≡ true
    → length (body n) < f
    → scan_number view_source stod f n.first (at (body n ++ rest))
      ≡ number_token stod (body n) (at rest)
unfolding scan_number advance
scan_unsigned-at stod f n rest v d h =
    rw (digit-not_minus n.first v.digit, bind) (scan_body-at stod f n [] rest v d h)

scan_byte-digit :
    (stod : Bytes → Option ℕ) (f c : ℕ) (v : View)
    → isdigit c ≡ true
    → scan_byte view_source stod f c v ≡ scan_number view_source stod f c v
unfolding scan_byte
scan_byte-digit stod f c v h = ground arith

digit-not_space : (c : ℕ) → isdigit c ≡ true → isspace c ≡ false
digit-not_space c h = ground arith

number_token-some :
    (stod : Bytes → Option ℕ) (s : Bytes) (value : ℕ) (v : View)
    → stod s ≡ some value
    → number_token stod s v ≡ ok (token TokenType.num (double value), v)
unfolding number_token
number_token-some stod s value v e = rw (e, number_token)

signed-Scans :
    (stod : Bytes → Option ℕ) (f value : ℕ) (n : Numeral) (rest : Bytes) (negative : Bool)
    → IsNumeral n
    → stod (sign_text negative ++ body n) ≡ some value
    → ends_number (head_of rest) ≡ true
    → Scans stod f (sign_text negative ++ body n) (token TokenType.num (double value)) rest
unfolding scan_byte
signed-Scans stod f value n rest true v e d h =
    scan_skip_whitespace-at stod f b'-' (body n ++ rest) rest _ refl (omega (arith, sizes)) h (
      scan_signed-at stod f n rest v d (omega (arith, sizes))
      ∙ number_token-some stod _ value (at rest) e)
  where
    sizes : length (body n ++ rest) ≡ length (body n) + length rest
    sizes = length-append (body n) rest
signed-Scans stod f value n rest false v e d h =
    scan_skip_whitespace-at stod f n.first _ rest _ (digit-not_space n.first v.digit)
      (omega (arith, sizes)) h
      (scan_byte-digit stod f n.first (at (body n ++ rest)) v.digit
        ∙ scan_unsigned-at stod f n rest v d (omega (arith, sizes))
        ∙ number_token-some stod _ value (at rest) e)
  where
    sizes : length (body n ++ rest) ≡ length (body n) + length rest
    sizes = length-append (body n) rest

-- The scanner reads a printed number whole, if `stod` accepts its text.
pub number-Scans :
    (stod : Bytes → Option ℕ) (f value : ℕ) (n : Numeral) (rest : Bytes)
    → IsNumeral n
    → stod (text n) ≡ some value
    → ends_number (head_of rest) ≡ true
    → Scans stod f (text n) (token TokenType.num (double value)) rest
number-Scans stod f value n rest = signed-Scans stod f value n rest n.negative
