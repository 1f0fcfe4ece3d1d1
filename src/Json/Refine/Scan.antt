-- ===== src/Json/Refine/Scan.antt =====
-- Each operation of the upper half of `class Scanner` respects a refinement between sources.
use gabby.Base.{
  ℕ, zero, suc, ◌||◌, not, Bool, true, false, Option, none, some, inl, inr, Bool-cases,
  Option-cases, [], ◌∷◌, ◌++◌, Bytes, codes, bytes_eq, ◌==◌, isspace, isdigit, isalpha,
  if◌then◌else◌, ◌≡◌, opt_eq,
}
use gabby.Outcome.{Run}
use gabby.Json.Source.{Source, Ending, eof, again, failed}
use gabby.Json.Scan.{
  TokenType, is_delim, ends_string, escapes, peek_eof, advance_eof, word_token, number_token,
  skip_whitespace, peek, advance, scan_string, in_mantissa, scan_mantissa, scan_word, scan_fraction,
  scan_exponent, scan_number, scan_byte, scan_peeked, scan, scan_skip_whitespace, sign_test,
  skip_got, peek_got, advance_got, push_next, punctuation,
}
use gabby.Json.Refine.Simulation.{
  Alike, both, both_throw, Simulates, Alike-bind, Simulates-bind, Simulates-pure, Simulates-throw,
  Simulates-spent, GetsAlike, ends, gets, Refines,
}

module _ {S T : Type 0} (R : S → T → Type 0) where
  pub Simulates-if :
      {A : Type 0} (b : Bool) {m k : Run S A} {n l : Run T A}
      → Simulates R m n
      → Simulates R k l
      → Simulates R (if b then m else k) (if b then n else l)
  Simulates-if true h g = h
  Simulates-if false h g = g

  pub Simulates-elim :
      {A : Type 0} (b : Bool) {m k : Run S A} {n l : Run T A}
      → Simulates R m n
      → Simulates R k l
      → Simulates R (elim b [ true ↦ m | false ↦ k ]) (elim b [ true ↦ n | false ↦ l ])
  Simulates-elim true h g = h
  Simulates-elim false h g = g

  peek_eof-Simulates : (e : Ending) → Simulates R (peek_eof e) (peek_eof e)
  peek_eof-Simulates eof s t r = both r
  peek_eof-Simulates again s t r = both r
  peek_eof-Simulates (failed e) s t r = both_throw

  advance_eof-Simulates : (e : Ending) → Simulates R (advance_eof e) (advance_eof e)
  advance_eof-Simulates eof s t r = both_throw
  advance_eof-Simulates again s t r = both_throw
  advance_eof-Simulates (failed e) s t r = both_throw

  word_token-Simulates : (c : ℕ) (w : Bytes) → Simulates R (word_token c w) (word_token c w)
  unfolding word_token
  word_token-Simulates c w s t r =
      elim (Bool-cases (bytes_eq w (codes "true") || bytes_eq w (codes "false"))) [
        | inl e ↦ rw e (both r)
        | inr e ↦ rw e (elim (Bool-cases (bytes_eq w (codes "null"))) [
          | inl n ↦ rw n (both r)
          | inr n ↦ rw n both_throw
        ])
      ]

  number_token-Simulates :
      (stod : Bytes → Option ℕ) (w : Bytes)
      → Simulates R (number_token stod w) (number_token stod w)
  unfolding number_token
  number_token-Simulates stod w s t r = elim (Option-cases (stod w)) [
    | inl e ↦ rw (e, number_token) both_throw
    | inr (d, e) ↦ rw (e, number_token) (both r)
  ]

module _ {S T : Type 0} (R : S → T → Type 0) {src : Source S} {dst : Source T}
    (ref : Refines R src dst) where
  after_get :
      {A : Type 0} (f : Option ℕ → Run S A) (g : Option ℕ → Run T A) {p : Option ℕ × S}
      {q : Option ℕ × T}
      → GetsAlike R src dst p q
      → ((s : S) (t : T) → R s t → src.ending s ≡ dst.ending t → Alike R (f none s) (g none t))
      → ((c : ℕ) (s : S) (t : T)
          → R s t
          → Alike R (src.unget_char c s) (dst.unget_char c t)
          → Alike R (f (some c) s) (g (some c) t))
      → Alike R (f p.0 p.1) (g q.0 q.1)
  after_get f g (ends {s} {t} r e) h k = h s t r e
  after_get f g (gets {c} {s} {t} r u) h k = k c s t r u

  pub skip_whitespace-Simulates :
      (f : ℕ) → Simulates R (skip_whitespace src f) (skip_whitespace dst f)
  unfolding skip_whitespace
  skip_whitespace-Simulates zero = Simulates-spent R
  skip_whitespace-Simulates (suc f) = λ s t r.
      after_get (skip_got src (skip_whitespace src f)) (skip_got dst (skip_whitespace dst f))
        (ref.get_alike s t r) (λ s' t' r' e. both r')
        (λ c s' t' r' u. elim (Bool-cases (isspace c)) [
          | inl e ↦ rw (e, skip_got) (skip_whitespace-Simulates f s' t' r')
          | inr e ↦ rw (e, skip_got) u
        ])

  peek-Simulates : Simulates R (peek src) (peek dst)
  unfolding peek
  peek-Simulates s t r =
      after_get (peek_got src) (peek_got dst) (ref.get_alike s t r)
        (λ s' t' r' e. rw e (peek_eof-Simulates R (dst.ending t') s' t' r'))
        (λ c s' t' r' u. Alike-bind R u (λ _. Simulates-pure R _))

  advance-Simulates : Simulates R (advance src) (advance dst)
  unfolding advance
  advance-Simulates s t r =
      after_get (advance_got src) (advance_got dst) (ref.get_alike s t r)
        (λ s' t' r' e. rw e (advance_eof-Simulates R (dst.ending t') s' t' r'))
        (λ c s' t' r' u. both r')

  scan_string-Simulates :
      (f : ℕ) (escaped : Bool) (w : Bytes)
      → Simulates R (scan_string src f escaped w) (scan_string dst f escaped w)
  unfolding scan_string
  scan_string-Simulates zero escaped w = Simulates-spent R
  scan_string-Simulates (suc f) escaped w = Simulates-bind R advance-Simulates λ c.
      Simulates-elim R (ends_string escaped c)
        (Simulates-if R (not (c == b'"')) (Simulates-throw R _) (Simulates-pure R _))
        (Simulates-elim R (escapes escaped c) (scan_string-Simulates f true w)
          (scan_string-Simulates f false (w ++ c ∷ [])))

  in_mantissa-Simulates : Simulates R (in_mantissa src) (in_mantissa dst)
  unfolding in_mantissa
  in_mantissa-Simulates = Simulates-bind R peek-Simulates λ m.
      Simulates-elim R (is_delim m) (Simulates-pure R _)
        (Simulates-bind R peek-Simulates λ n. Simulates-pure R _)

  scan_mantissa-Simulates :
      (f : ℕ) (w : Bytes) → Simulates R (scan_mantissa src f w) (scan_mantissa dst f w)
  unfolding scan_mantissa
  scan_mantissa-Simulates zero w = Simulates-spent R
  scan_mantissa-Simulates (suc f) w = Simulates-bind R in_mantissa-Simulates λ more.
      Simulates-elim R more
        (Simulates-bind R advance-Simulates λ c. scan_mantissa-Simulates f (w ++ c ∷ []))
        (Simulates-pure R _)

  scan_word-Simulates : (f : ℕ) (w : Bytes) → Simulates R (scan_word src f w) (scan_word dst f w)
  unfolding scan_word
  scan_word-Simulates zero w = Simulates-spent R
  scan_word-Simulates (suc f) w = Simulates-bind R peek-Simulates λ m.
      Simulates-elim R (is_delim m) (Simulates-pure R _)
        (Simulates-bind R advance-Simulates λ c. scan_word-Simulates f (w ++ c ∷ []))

  push_next-Simulates : (w : Bytes) → Simulates R (push_next src w) (push_next dst w)
  push_next-Simulates w = Simulates-bind R advance-Simulates λ c. Simulates-pure R _

  scan_fraction-Simulates :
      (f : ℕ) (w : Bytes) → Simulates R (scan_fraction src f w) (scan_fraction dst f w)
  unfolding scan_fraction
  scan_fraction-Simulates f w = Simulates-bind R peek-Simulates λ m.
      Simulates-elim R (opt_eq m (some b'.'))
        (Simulates-bind R (push_next-Simulates w) λ t. scan_mantissa-Simulates f t)
        (Simulates-pure R _)

  scan_exponent-Simulates :
      (f : ℕ) (w : Bytes) → Simulates R (scan_exponent src f w) (scan_exponent dst f w)
  unfolding scan_exponent
  scan_exponent-Simulates f w = Simulates-bind R peek-Simulates λ m.
      Simulates-elim R (opt_eq m (some b'e'))
        (Simulates-bind R (push_next-Simulates w) λ t. Simulates-bind R peek-Simulates λ n.
          Simulates-elim R (sign_test src n)
            (Simulates-bind R (push_next-Simulates t) λ u. scan_word-Simulates f u)
            (scan_word-Simulates f t))
        (Simulates-pure R _)

  scan_number-Simulates :
      (stod : Bytes → Option ℕ) (f c : ℕ)
      → Simulates R (scan_number src stod f c) (scan_number dst stod f c)
  unfolding scan_number
  scan_number-Simulates stod f c =
      Simulates-bind R (Simulates-elim R (c == b'-') (push_next-Simulates []) (Simulates-pure R []))
        λ sign. Simulates-bind R (push_next-Simulates sign) λ first.
          Simulates-bind R (scan_mantissa-Simulates f first) λ whole.
            Simulates-bind R (scan_fraction-Simulates f whole) λ fraction.
              Simulates-bind R (scan_exponent-Simulates f fraction)
                λ s. number_token-Simulates R stod s

  punctuation-Simulates : (t : TokenType) → Simulates R (punctuation src t) (punctuation dst t)
  punctuation-Simulates t = Simulates-bind R advance-Simulates λ d. Simulates-pure R _

  scan_byte-Simulates :
      (stod : Bytes → Option ℕ) (f c : ℕ)
      → Simulates R (scan_byte src stod f c) (scan_byte dst stod f c)
  unfolding scan_byte
  scan_byte-Simulates stod f c = Simulates-if R (c == b'[') (punctuation-Simulates _) (
      Simulates-if R (c == b']') (punctuation-Simulates _) (
        Simulates-if R (c == b'{') (punctuation-Simulates _) (
          Simulates-if R (c == b'}') (punctuation-Simulates _) (
            Simulates-if R (c == b',') (punctuation-Simulates _) (
              Simulates-if R (c == b':') (punctuation-Simulates _) (
                Simulates-if R (c == b'"')
                  (Simulates-bind R advance-Simulates λ _. scan_string-Simulates f false [])
                  (Simulates-if R (c == b'-' || isdigit c) (scan_number-Simulates stod f c) (
                    Simulates-if R (isalpha c)
                      (Simulates-bind R (push_next-Simulates []) λ s.
                        Simulates-bind R (scan_word-Simulates f s) λ w. word_token-Simulates R c w)
                      (Simulates-throw R _)))))))))

  scan_peeked-Simulates :
      (stod : Bytes → Option ℕ) (f : ℕ) (m : Option ℕ)
      → Simulates R (scan_peeked src stod f m) (scan_peeked dst stod f m)
  unfolding scan_peeked
  scan_peeked-Simulates stod f none = Simulates-pure R none
  scan_peeked-Simulates stod f (some c) = scan_byte-Simulates stod f c

  scan-Simulates :
      (stod : Bytes → Option ℕ) (f : ℕ) → Simulates R (scan src stod f) (scan dst stod f)
  unfolding scan
  scan-Simulates stod f =
      Simulates-bind R (skip_whitespace-Simulates f)
        λ _. Simulates-bind R peek-Simulates λ m. scan_peeked-Simulates stod f m

  -- `ScanSkipWhitespace` from related states ends alike, in related states.
  pub scan_skip_whitespace-Simulates :
      (stod : Bytes → Option ℕ) (f : ℕ)
      → Simulates R (scan_skip_whitespace src stod f) (scan_skip_whitespace dst stod f)
  unfolding scan_skip_whitespace
  scan_skip_whitespace-Simulates stod f =
      Simulates-bind R (scan-Simulates stod f)
        λ tok. Simulates-bind R (skip_whitespace-Simulates f) λ _. Simulates-pure R tok
