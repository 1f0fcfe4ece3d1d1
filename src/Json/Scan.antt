-- ===== src/Json/Scan.antt =====
-- src/json/parser.cc: `is_delim` and the upper half of `class Scanner`, over any `Source`.
use gabby.Base.{
  ℕ, zero, suc, Bool, true, false, not, ◌&&◌, ◌||◌, Option, none, some, [], ◌∷◌, ◌++◌, Bytes, codes,
  bytes_eq, ◌==◌, isspace, isdigit, isalpha, isalnum, opt_eq, has_value, if◌then◌else◌,
}
use gabby.Outcome.{ok, out_of_fuel, Run, pure, throw, ◌>>=◌, ◌>>◌, parsing_error, system_error}
use gabby.Json.Source.{Ending, eof, again, failed, Source}

-- `enum class TokenType`
pub data TokenType : Type 0 where
  num str bool lbrace rbrace lbracket rbracket comma colon nil : TokenType

-- `std::variant<double, bool, char, std::string>`
pub data Cargo : Type 0 where
  double : ℕ → Cargo
  boolean : Bool → Cargo
  char : ℕ → Cargo
  string : Bytes → Cargo

-- `struct Token`
pub record Token : Type 0 where
  pub type : TokenType
  pub cargo : Cargo

-- `is_delim`
unfoldable pub is_delim : Option ℕ → Bool
is_delim none = true
is_delim (some c) = not (isalnum c)

-- `(c == '"' && !escaped) || c == '\n'`
unfoldable pub ends_string : Bool → ℕ → Bool
ends_string escaped c = c == b'"' && not escaped || c == b'\n'

-- `c == '\\' && !escaped`
unfoldable pub escapes : Bool → ℕ → Bool
escapes escaped c = c == b'\\' && not escaped

abbrev is_char : ℕ → Option ℕ → Bool
is_char c m = opt_eq m (some c)

-- `*Peek()`, reached only where the optional has a value
abbrev pub differs : ℕ → Option ℕ → Bool
differs c m = not (is_char c m)

-- `Token{.type = t, .cargo = c}`, as the optional that `Scan` returns
abbrev pub token : TokenType → Cargo → Option Token
token t c = some (record { type = t; cargo = c })

abbrev pub eagain : ℕ
eagain = 11

-- What `Peek` and `Advance` do at EOF.
abbrev pub peek_eof : {S : Type 0} → Ending → Run S (Option ℕ)
peek_eof eof = pure none
peek_eof again = pure none
peek_eof (failed e) = throw (system_error e)

abbrev pub advance_eof : {S : Type 0} → Ending → Run S ℕ
advance_eof eof = throw (parsing_error (codes "unexpected eof"))
advance_eof again = throw (system_error eagain)
advance_eof (failed e) = throw (system_error e)

-- `"bad token: {}"`
abbrev bad_token : ℕ → Bytes
bad_token c = codes "bad token: " ++ c ∷ []

-- The words: booleans and null. Any other word is a bad token, named by its first byte `c`.
unfoldable pub word_token : {S : Type 0} → ℕ → Bytes → Run S (Option Token)
unfolding bytes_eq
word_token c s =
    if bytes_eq s (codes "true") || bytes_eq s (codes "false")
    then pure (token TokenType.bool (boolean (bytes_eq s (codes "true"))))
    else if bytes_eq s (codes "null")
    then pure (token TokenType.nil (string (codes "null")))
    else throw (parsing_error (bad_token c))

-- `std::stod` with the handler round it; `stod` is the library's function on the bytes of a text.
unfoldable pub number_token : {S : Type 0} → (Bytes → Option ℕ) → Bytes → Run S (Option Token)
number_token stod s = elim (stod s) [
  | none ↦ throw (parsing_error (codes "bad number: " ++ s))
  | some d ↦ pure (token TokenType.num (double d))
]

module _ {S : Type 0} (src : Source S) where
  abbrev pub get : Run S (Option ℕ)
  get s = ok (src.get_char s)

  abbrev pub skip_got : Run S (Unit {0}) → Option ℕ → Run S (Unit {0})
  skip_got more none = pure tt
  skip_got more (some c) = elim (isspace c) [ true ↦ more | false ↦ src.unget_char c ]

  -- `Scanner::SkipWhitespace`. The fuel bounds the rounds of each loop of the scanner.
  unfoldable pub skip_whitespace : ℕ → Run S (Unit {0})
  skip_whitespace zero = λ _. out_of_fuel
  skip_whitespace (suc f) = get >>= skip_got (skip_whitespace f)

  abbrev pub peek_got : Option ℕ → Run S (Option ℕ)
  peek_got none = λ t. peek_eof (src.ending t) t
  peek_got (some c) = src.unget_char c >> pure (some c)

  -- `Scanner::Peek`
  unfoldable pub peek : Run S (Option ℕ)
  peek = get >>= peek_got

  abbrev pub advance_got : Option ℕ → Run S ℕ
  advance_got none = λ t. advance_eof (src.ending t) t
  advance_got (some c) = pure c

  -- `Scanner::Advance`
  unfoldable pub advance : Run S ℕ
  advance = get >>= advance_got

  -- The loop of a string, from behind its opening quote.
  unfoldable pub scan_string : ℕ → Bool → Bytes → Run S (Option Token)
  scan_string zero escaped s = λ _. out_of_fuel
  scan_string (suc f) escaped s = advance >>= λ c. elim (ends_string escaped c) [
    | true ↦
        if not (c == b'"')
        then throw (parsing_error (codes "unterminated string"))
        else pure (token TokenType.str (string s))
    | false ↦ elim (escapes escaped c) [
      | true ↦ scan_string f true s
      | false ↦ scan_string f false (s ++ c ∷ [])
    ]
  ]

  -- `!is_delim(Peek()) && *Peek() != 'e'`
  unfoldable pub in_mantissa : Run S Bool
  in_mantissa = peek >>= λ m. elim (is_delim m) [
    | true ↦ pure false
    | false ↦ peek >>= λ n. pure (differs b'e' n)
  ]

  -- `while (!is_delim(Peek()) && *Peek() != 'e') s.push_back(Advance());`
  unfoldable pub scan_mantissa : ℕ → Bytes → Run S Bytes
  scan_mantissa zero s = λ _. out_of_fuel
  scan_mantissa (suc f) s = in_mantissa >>= λ more. elim more [
    | true ↦ advance >>= λ c. scan_mantissa f (s ++ c ∷ [])
    | false ↦ pure s
  ]

  -- `while (!is_delim(Peek())) s.push_back(Advance());`
  unfoldable pub scan_word : ℕ → Bytes → Run S Bytes
  scan_word zero s = λ _. out_of_fuel
  scan_word (suc f) s = peek >>= λ m. elim (is_delim m) [
    | true ↦ pure s
    | false ↦ advance >>= λ c. scan_word f (s ++ c ∷ [])
  ]

  abbrev pub push_next : Bytes → Run S Bytes
  push_next s = advance >>= λ c. pure (s ++ c ∷ [])

  -- the decimal point and the fractional part
  unfoldable pub scan_fraction : ℕ → Bytes → Run S Bytes
  scan_fraction f s = peek >>= λ m. elim (opt_eq m (some b'.')) [
    | true ↦ push_next s >>= λ t. scan_mantissa f t
    | false ↦ pure s
  ]

  -- `maybe_c == std::optional('+') || std::optional('-')`: the right operand is an optional that has
  -- a value, which is true as a condition.
  abbrev pub sign_test : Option ℕ → Bool
  sign_test m = opt_eq m (some b'+') || has_value {A = ℕ} (some b'-')

  -- `e`, the sign and the exponent
  unfoldable pub scan_exponent : ℕ → Bytes → Run S Bytes
  scan_exponent f s = peek >>= λ m. elim (opt_eq m (some b'e')) [
    | true ↦ push_next s >>= λ t. peek >>= λ n. elim (sign_test n) [
      | true ↦ push_next t >>= λ u. scan_word f u
      | false ↦ scan_word f t
    ]
    | false ↦ pure s
  ]

  -- a number that starts with `c`
  unfoldable pub scan_number : (Bytes → Option ℕ) → ℕ → ℕ → Run S (Option Token)
  scan_number stod f c = (elim (c == b'-') [ true ↦ push_next [] | false ↦ pure [] ]) >>= λ sign.
      push_next sign >>= λ first. scan_mantissa f first >>= λ whole.
      scan_fraction f whole >>= λ fraction. scan_exponent f fraction >>= λ s. number_token stod s

  abbrev pub punctuation : TokenType → Run S (Option Token)
  punctuation t = advance >>= λ d. pure (token t (char d))

  -- the `switch` on the byte that was peeked, and the tests behind it
  unfoldable pub scan_byte : (Bytes → Option ℕ) → ℕ → ℕ → Run S (Option Token)
  scan_byte stod f c =
      if c == b'['
      then punctuation lbracket
      else if c == b']'
      then punctuation rbracket
      else if c == b'{'
      then punctuation lbrace
      else if c == b'}'
      then punctuation rbrace
      else if c == b','
      then punctuation comma
      else if c == b':'
      then punctuation colon
      else if c == b'"'
      then advance >> scan_string f false []
      else if c == b'-' || isdigit c
      then scan_number stod f c
      else if isalpha c
      then push_next [] >>= (λ s. scan_word f s >>= word_token c)
      else throw (parsing_error (bad_token c))

  unfoldable pub scan_peeked : (Bytes → Option ℕ) → ℕ → Option ℕ → Run S (Option Token)
  scan_peeked stod f none = pure none
  scan_peeked stod f (some c) = scan_byte stod f c

  -- `Scanner::Scan`
  unfoldable pub scan : (Bytes → Option ℕ) → ℕ → Run S (Option Token)
  unfolding scan_peeked
  scan stod f = skip_whitespace f >> (peek >>= scan_peeked stod f)

  -- `Scanner::ScanSkipWhitespace`
  unfoldable pub scan_skip_whitespace : (Bytes → Option ℕ) → ℕ → Run S (Option Token)
  scan_skip_whitespace stod f = scan stod f >>= λ tok. skip_whitespace f >> pure tok
