-- ===== src/Json/Total/Scan.antt =====
-- Each loop of the scanner takes a byte a round, so that as much fuel as there are bytes is enough.
use gabby.Base.{
  ℕ, zero, suc, ◌+◌, ◌≤◌, ◌<◌, ◌||◌, not, Bool, true, false, Option, none, some, inl, inr,
  Bool-cases, Option-cases, [], ◌∷◌, ◌++◌, Bytes, codes, bytes_eq, ◌==◌, isspace, isdigit, isalpha,
  length, opt_eq, arith,
}
use gabby.Outcome.{Run, Ensures, holds, raised, Ensures-bind, Ensures-weaken}
use gabby.Json.Source.{View, view, view_source, Ending}
use gabby.Json.Scan.{
  TokenType, Token, is_delim, ends_string, escapes, word_token, number_token, skip_whitespace,
  skip_got, scan_string, in_mantissa, scan_mantissa, scan_word, scan_fraction, scan_exponent,
  scan_number, scan_byte, scan_peeked, scan, scan_skip_whitespace, sign_test, push_next,
  punctuation,
}
use gabby.Json.Total.Bytes.{
  size, Ends, Takes, Ends-bind, Takes-bind, Ends-Takes, Takes-Ends, Ends-pure, Ends-throw,
  Ends-elim, Ends-if, Takes-if, peek-Ends, advance-Takes,
}

skip_whitespace_at :
    (f : ℕ) (rest : Bytes) (missing : ℕ) (last : Ending)
    → length rest < f
    → Ensures (λ x. size x.1 ≤ length rest) (skip_whitespace view_source f (view rest missing last))
unfolding skip_whitespace
skip_whitespace_at zero rest missing last l = absurd (omega arith)
skip_whitespace_at (suc f) [] missing last l = holds (omega arith)
skip_whitespace_at (suc f) (c ∷ cs) missing last l = elim (Bool-cases (isspace c)) [
  | inl e ↦
      rw (e, skip_got)
        (Ensures-weaken (λ x p. omega arith) (skip_whitespace_at f cs missing last (omega arith)))
  | inr e ↦ rw (e, skip_got) (holds (omega arith))
]

pub skip_whitespace-Ends : (f : ℕ) {n : ℕ} → n < f → Ends n (skip_whitespace view_source f)
skip_whitespace-Ends f h v l =
    Ensures-weaken (λ x p. omega arith) (skip_whitespace_at f v.rest v.missing v.last (omega arith))

push_next-Takes : {n : ℕ} (w : Bytes) → Takes n (push_next view_source w)
push_next-Takes w = Takes-bind advance-Takes λ k e c. Ends-pure _

scan_string-Ends :
    (f n : ℕ) (escaped : Bool) (w : Bytes) → n < f → Ends n (scan_string view_source f escaped w)
unfolding scan_string
scan_string-Ends zero n escaped w h = absurd (omega arith)
scan_string-Ends (suc f) n escaped w h = Takes-Ends _ (
    Takes-bind advance-Takes λ k e c.
      Ends-elim (ends_string escaped c) (Ends-if (not (c == b'"')) (Ends-throw _) (Ends-pure _)) (
        Ends-elim (escapes escaped c) (scan_string-Ends f k true w (omega arith))
          (scan_string-Ends f k false (w ++ c ∷ []) (omega arith))))

in_mantissa-Ends : {n : ℕ} → Ends n (in_mantissa view_source)
unfolding in_mantissa
in_mantissa-Ends =
    Ends-bind peek-Ends
      λ m. Ends-elim (is_delim m) (Ends-pure _) (Ends-bind peek-Ends λ n. Ends-pure _)

scan_mantissa-Ends : (f n : ℕ) (w : Bytes) → n < f → Ends n (scan_mantissa view_source f w)
unfolding scan_mantissa
scan_mantissa-Ends zero n w h = absurd (omega arith)
scan_mantissa-Ends (suc f) n w h = Ends-bind in_mantissa-Ends λ more.
    Ends-elim more
      (Takes-Ends _
        (Takes-bind advance-Takes λ k e c. scan_mantissa-Ends f k (w ++ c ∷ []) (omega arith)))
      (Ends-pure _)

scan_word-Ends : (f n : ℕ) (w : Bytes) → n < f → Ends n (scan_word view_source f w)
unfolding scan_word
scan_word-Ends zero n w h = absurd (omega arith)
scan_word-Ends (suc f) n w h = Ends-bind peek-Ends λ m. Ends-elim (is_delim m) (Ends-pure _) (
    Takes-Ends _ (Takes-bind advance-Takes λ k e c. scan_word-Ends f k (w ++ c ∷ []) (omega arith)))

scan_fraction-Ends : (f n : ℕ) (w : Bytes) → n < f → Ends n (scan_fraction view_source f w)
unfolding scan_fraction
scan_fraction-Ends f n w h = Ends-bind peek-Ends λ m.
    Ends-elim (opt_eq m (some b'.'))
      (Ends-bind (Takes-Ends _ (push_next-Takes w)) λ t. scan_mantissa-Ends f n t h) (Ends-pure _)

scan_exponent-Ends : (f n : ℕ) (w : Bytes) → n < f → Ends n (scan_exponent view_source f w)
unfolding scan_exponent
scan_exponent-Ends f n w h = Ends-bind peek-Ends λ m.
    Ends-elim (opt_eq m (some b'e'))
      (Ends-bind (Takes-Ends _ (push_next-Takes w)) λ t. Ends-bind peek-Ends λ m'.
        Ends-elim (sign_test view_source m')
          (Ends-bind (Takes-Ends _ (push_next-Takes t)) λ u. scan_word-Ends f n u h)
          (scan_word-Ends f n t h))
      (Ends-pure _)

number_token-Ends : (stod : Bytes → Option ℕ) {n : ℕ} (w : Bytes) → Ends n (number_token stod w)
unfolding number_token
number_token-Ends stod w v l = elim (Option-cases (stod w)) [
  | inl e ↦ rw (e, number_token) raised
  | inr (d, e) ↦ rw (e, number_token) (holds l)
]

word_token-Ends : {n : ℕ} (c : ℕ) (w : Bytes) → Ends n (word_token c w)
unfolding word_token
word_token-Ends c w v l =
    elim (Bool-cases (bytes_eq w (codes "true") || bytes_eq w (codes "false"))) [
      | inl e ↦ rw e (holds l)
      | inr e ↦ rw e (elim (Bool-cases (bytes_eq w (codes "null"))) [
        | inl m ↦ rw m (holds l)
        | inr m ↦ rw m raised
      ])
    ]

scan_number-Takes :
    (stod : Bytes → Option ℕ) (f n c : ℕ) → n ≤ f → Takes n (scan_number view_source stod f c)
unfolding scan_number
scan_number-Takes stod f n c h =
    Ends-Takes (Ends-elim (c == b'-') (Takes-Ends _ (push_next-Takes [])) (Ends-pure [])) λ sign.
      Takes-bind (push_next-Takes sign) λ k e first.
        Ends-bind (scan_mantissa-Ends f k first (omega arith)) λ whole.
          Ends-bind (scan_fraction-Ends f k whole (omega arith)) λ fraction.
            Ends-bind (scan_exponent-Ends f k fraction (omega arith)) λ s. number_token-Ends stod s

punctuation-Takes : {n : ℕ} (t : TokenType) → Takes n (punctuation view_source t)
punctuation-Takes t = Takes-bind advance-Takes λ k e c. Ends-pure _

scan_byte-Takes :
    (stod : Bytes → Option ℕ) (f n c : ℕ) → n ≤ f → Takes n (scan_byte view_source stod f c)
unfolding scan_byte
scan_byte-Takes stod f n c h = Takes-if (c == b'[') (punctuation-Takes _) (
    Takes-if (c == b']') (punctuation-Takes _) (
      Takes-if (c == b'{') (punctuation-Takes _) (
        Takes-if (c == b'}') (punctuation-Takes _) (
          Takes-if (c == b',') (punctuation-Takes _) (
            Takes-if (c == b':') (punctuation-Takes _) (
              Takes-if (c == b'"')
                (Takes-bind advance-Takes λ k e _. scan_string-Ends f k false [] (omega arith))
                (Takes-if (c == b'-' || isdigit c) (scan_number-Takes stod f n c h) (
                  Takes-if (isalpha c)
                    (Takes-bind (push_next-Takes []) λ k e s.
                      Ends-bind (scan_word-Ends f k s (omega arith)) λ w. word_token-Ends c w)
                    (λ v l. raised)))))))))

-- A token weighs one, so that a token and the bytes behind it are no more than the bytes before.
abbrev pub weight : Option Token → ℕ
weight none = 0
weight (some tok) = 1

abbrev Yields : ℕ → Run View (Option Token) → Type 0
Yields n m = (v : View) → size v ≤ n → Ensures (λ (tok, t). weight tok + size t ≤ n) (m v)

weight_le : (tok : Option Token) → weight tok ≤ 1
weight_le none = omega arith
weight_le (some tok) = omega arith

scan_peeked-Yields :
    (stod : Bytes → Option ℕ) (f n : ℕ) (m : Option ℕ)
    → n ≤ f
    → Yields n (scan_peeked view_source stod f m)
unfolding scan_peeked
scan_peeked-Yields stod f n none h v l = holds (omega arith)
scan_peeked-Yields stod f n (some c) h v l =
    Ensures-weaken (λ (tok, t) p. omega (arith, weight_le tok)) (scan_byte-Takes stod f n c h v l)

scan-Yields : (stod : Bytes → Option ℕ) (f n : ℕ) → n < f → Yields n (scan view_source stod f)
unfolding scan
scan-Yields stod f n h v l = Ensures-bind (skip_whitespace-Ends f h v l) λ (_, v₁) l₁.
    Ensures-bind (peek-Ends v₁ l₁) λ (m, v₂) l₂. scan_peeked-Yields stod f n m (omega arith) v₂ l₂

-- With more fuel than bytes, `ScanSkipWhitespace` ends, and it takes a byte at least for a token.
pub scan_skip_whitespace-Yields :
    (stod : Bytes → Option ℕ) (f n : ℕ) → n < f → Yields n (scan_skip_whitespace view_source stod f)
unfolding scan_skip_whitespace
scan_skip_whitespace-Yields stod f n h v l =
    Ensures-bind (scan-Yields stod f n h v l) λ (tok, v₁) l₁.
      Ensures-bind
        (skip_whitespace-Ends f {n = size v₁} (omega (arith, weight_le tok)) v₁ (omega arith))
        λ (_, v₂) l₂. holds (omega arith)
