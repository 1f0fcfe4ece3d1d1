-- ===== src/Json/RoundTrip/Tokens.antt =====
-- The scanner on the bytes of one printed token: brackets, commas, colons, strings and words.
use gabby.Base.{
  ℕ, zero, suc, ◌<◌, ◌&&◌, not, Bool, true, false, Option, none, some, inl, inr, Bool-cases, [],
  ◌∷◌, ◌++◌, Bytes, codes, ◌==◌, isspace, isalnum, length, length-append, if◌then◌else◌, ◌≡◌, refl,
  arith, All, all, All-all, append_assoc, append-nil, ◌∙◌,
}
use gabby.Outcome.{Outcome, ok, bind, Run}
use gabby.Json.Source.{View, view, view_source, eof}
use gabby.Json.Scan.{
  TokenType, Token, boolean, char, string, token, is_delim, ends_string, escapes, word_token,
  skip_whitespace, skip_got, peek, advance, scan_string, scan_word, scan_byte, scan_peeked, scan,
  scan_skip_whitespace,
}

-- To take a branch of a run.
module _ {S A : Type 0} {s : S} {r : Outcome (A × S)} where
  pub run_true :
      (b : Bool) (x y : Run S A)
      → b ≡ true
      → x s ≡ r
      → (let m : Run S A = elim b [ true ↦ x | false ↦ y ] in m s ≡ r)
  run_true true x y e p = p
  run_true false x y e p = cc

  pub run_false :
      (b : Bool) (x y : Run S A)
      → b ≡ false
      → y s ≡ r
      → (let m : Run S A = elim b [ true ↦ x | false ↦ y ] in m s ≡ r)
  run_false true x y e p = cc
  run_false false x y e p = p

abbrev pub at : Bytes → View
at r = view r 0 eof

-- the text without its leading whitespace
abbrev pub trim : Bytes → Bytes
trim [] = []
trim (c ∷ cs) = if isspace c then trim cs else c ∷ cs

abbrev pub head_of : Bytes → Option ℕ
head_of [] = none
head_of (c ∷ cs) = some c

pub skip_whitespace-at :
    (f : ℕ) (r : Bytes) → length r < f → skip_whitespace view_source f (at r) ≡ ok (tt, at (trim r))
unfolding skip_whitespace
skip_whitespace-at zero r h = absurd (omega arith)
skip_whitespace-at (suc f) [] h = refl
skip_whitespace-at (suc f) (c ∷ cs) h = elim (Bool-cases (isspace c)) [
  | inl e ↦ rw (e, skip_got) (skip_whitespace-at f cs (omega arith))
  | inr e ↦ rw (e, skip_got)
]

pub peek-at : (r : Bytes) → peek view_source (at r) ≡ ok (head_of r, at r)
unfolding peek
peek-at [] = refl
peek-at (c ∷ cs) = refl

pub advance-at : (c : ℕ) (r : Bytes) → advance view_source (at (c ∷ r)) ≡ ok (c, at r)
unfolding advance
advance-at c r = refl

module _ (stod : Bytes → Option ℕ) where
  -- On `c ∷ text` with `rest` behind it the scanner reads one token and the whitespace that follows.
  pub scan_skip_whitespace-at :
      (f c : ℕ) (r rest : Bytes) (tok : Option Token)
      → isspace c ≡ false
      → length rest < f
      → length (c ∷ r) < f
      → scan_byte view_source stod f c (at (c ∷ r)) ≡ ok (tok, at rest)
      → scan_skip_whitespace view_source stod f (at (c ∷ r)) ≡ ok (tok, at (trim rest))
  unfolding scan_skip_whitespace scan
  scan_skip_whitespace-at f c r rest tok e h k s =
      rw (skip_whitespace-at f (c ∷ r) k)
        (rw (e, trim) (rw peek-at (unfold scan_peeked in rw s (rw (skip_whitespace-at f rest h)))))

-- The bytes that a string literal holds as they are.
abbrev pub is_plain : ℕ → Bool
is_plain c = not (c == b'"') && (not (c == b'\\') && not (c == b'\n'))

abbrev pub IsPlain : Bytes → Type 0
IsPlain s = All (λ c. is_plain c ≡ true) s

pub tested-IsPlain : (s : Bytes) → all is_plain s ≡ true → IsPlain s
tested-IsPlain s h = All-all is_plain (λ c p. p) s h

plain_continues : (c : ℕ) → is_plain c ≡ true → ends_string false c ≡ false
unfolding ends_string
plain_continues c h = ground arith

plain_unescaped : (c : ℕ) → is_plain c ≡ true → escapes false c ≡ false
unfolding escapes
plain_unescaped c h = ground arith

quote_ends : ends_string false b'"' ≡ true
unfolding ends_string
quote_ends = refl

pub scan_string-at :
    (f : ℕ) (s w rest : Bytes)
    → IsPlain s
    → length s < f
    → scan_string view_source f false w (at (s ++ b'"' ∷ rest))
      ≡ ok (token TokenType.str (string (w ++ s)), at rest)
unfolding scan_string advance
scan_string-at zero s w rest p h = absurd (omega arith)
scan_string-at (suc f) [] w rest p h =
    run_true (ends_string false b'"') _ _ quote_ends (rw append-nil)
scan_string-at (suc f) (c ∷ cs) w rest p h =
    run_false (ends_string false c) _ _ (plain_continues c p.0) (
      run_false (escapes false c) _ _ (plain_unescaped c p.0)
        (scan_string-at f cs (w ++ c ∷ []) rest p.1 (omega arith) ∙ rw append_assoc))

abbrev pub IsWord : Bytes → Type 0
IsWord s = All (λ c. isalnum c ≡ true) s

not_delim : (c : ℕ) → isalnum c ≡ true → is_delim (some c) ≡ false
unfolding is_delim
not_delim c h = rw h

pub scan_word-at :
    (f : ℕ) (s w rest : Bytes)
    → IsWord s
    → is_delim (head_of rest) ≡ true
    → length s < f
    → scan_word view_source f w (at (s ++ rest)) ≡ ok (w ++ s, at rest)
unfolding scan_word peek advance
scan_word-at zero s w rest p d h = absurd (omega arith)
scan_word-at (suc f) [] w [] p d h = run_true (is_delim none) _ _ d (rw append-nil)
scan_word-at (suc f) [] w (r ∷ rs) p d h = run_true (is_delim (some r)) _ _ d (rw append-nil)
scan_word-at (suc f) (c ∷ cs) w rest p d h =
    run_false (is_delim (some c)) _ _ (not_delim c p.0)
      (scan_word-at f cs (w ++ c ∷ []) rest p.1 d (omega arith) ∙ rw append_assoc)

module _ (stod : Bytes → Option ℕ) (f : ℕ) where
  -- The scanner reads `tok` off the front of `text`, with the whitespace behind it.
  abbrev pub Scans : Bytes → Option Token → Bytes → Type 0
  Scans text tok rest =
      length (text ++ rest) < f
      → scan_skip_whitespace view_source stod f (at (text ++ rest)) ≡ ok (tok, at (trim rest))

  pub string-Scans :
      (s rest : Bytes)
      → IsPlain s
      → Scans (b'"' ∷ (s ++ b'"' ∷ [])) (token TokenType.str (string s)) rest
  unfolding scan_byte advance
  string-Scans s rest p h = rw append_assoc (
      scan_skip_whitespace-at stod f b'"' (s ++ b'"' ∷ rest) rest _ refl
        (omega (arith, length-append s (b'"' ∷ rest), room)) room
        (scan_string-at f s [] rest p (omega (arith, length-append s (b'"' ∷ rest), room))))
    where
      room : length (b'"' ∷ (s ++ b'"' ∷ rest)) < f
      room = rw append_assoc at h

  pub lbracket-Scans :
      (rest : Bytes) → Scans (b'[' ∷ []) (token TokenType.lbracket (char b'[')) rest
  unfolding scan_byte advance
  lbracket-Scans rest h = scan_skip_whitespace-at stod f b'[' rest rest _ refl (omega arith) h refl

  pub rbracket-Scans :
      (rest : Bytes) → Scans (b']' ∷ []) (token TokenType.rbracket (char b']')) rest
  unfolding scan_byte advance
  rbracket-Scans rest h = scan_skip_whitespace-at stod f b']' rest rest _ refl (omega arith) h refl

  pub lbrace-Scans : (rest : Bytes) → Scans (b'{' ∷ []) (token TokenType.lbrace (char b'{')) rest
  unfolding scan_byte advance
  lbrace-Scans rest h = scan_skip_whitespace-at stod f b'{' rest rest _ refl (omega arith) h refl

  pub rbrace-Scans : (rest : Bytes) → Scans (b'}' ∷ []) (token TokenType.rbrace (char b'}')) rest
  unfolding scan_byte advance
  rbrace-Scans rest h = scan_skip_whitespace-at stod f b'}' rest rest _ refl (omega arith) h refl

  pub comma-Scans : (rest : Bytes) → Scans (b',' ∷ []) (token TokenType.comma (char b',')) rest
  unfolding scan_byte advance
  comma-Scans rest h = scan_skip_whitespace-at stod f b',' rest rest _ refl (omega arith) h refl

  pub colon-Scans : (rest : Bytes) → Scans (b':' ∷ []) (token TokenType.colon (char b':')) rest
  unfolding scan_byte advance
  colon-Scans rest h = scan_skip_whitespace-at stod f b':' rest rest _ refl (omega arith) h refl

  -- A word that starts with the letter `c`, where `word_token` makes `tok` of it.
  word-Scans :
      (c : ℕ) (s rest : Bytes) (tok : Option Token)
      → isspace c ≡ false
      → IsWord s
      → is_delim (head_of rest) ≡ true
      → scan_byte view_source stod f c (at (c ∷ (s ++ rest)))
        ≡ bind (scan_word view_source f (c ∷ []) (at (s ++ rest))) (λ (w, t). word_token c w t)
      → ((t : View) → word_token c (c ∷ s) t ≡ ok (tok, t))
      → Scans (c ∷ s) tok rest
  word-Scans c s rest tok e p d scan_eq t_eq h =
      scan_skip_whitespace-at stod f c (s ++ rest) rest tok e (omega (arith, length-append s rest))
        h
        (scan_eq
          ∙ rw (scan_word-at f s (c ∷ []) rest p d (omega (arith, length-append s rest)), bind)
              (t_eq (at rest)))

  pub true-Scans :
      (rest : Bytes)
      → is_delim (head_of rest) ≡ true
      → Scans (codes "true") (token TokenType.bool (boolean true)) rest
  unfolding scan_byte advance word_token
  true-Scans rest d =
      word-Scans b't' (codes "rue") rest _ refl (refl, (refl, (refl, tt))) d refl (λ t. refl)

  pub false-Scans :
      (rest : Bytes)
      → is_delim (head_of rest) ≡ true
      → Scans (codes "false") (token TokenType.bool (boolean false)) rest
  unfolding scan_byte advance word_token
  false-Scans rest d =
      word-Scans b'f' (codes "alse") rest _ refl (refl, (refl, (refl, (refl, tt)))) d refl
        (λ t. refl)

  pub null-Scans :
      (rest : Bytes)
      → is_delim (head_of rest) ≡ true
      → Scans (codes "null") (token TokenType.nil (string (codes "null"))) rest
  unfolding scan_byte advance word_token
  null-Scans rest d =
      word-Scans b'n' (codes "ull") rest _ refl (refl, (refl, (refl, tt))) d refl (λ t. refl)
