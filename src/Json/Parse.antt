-- ===== src/Json/Parse.antt =====
-- src/json/parser.cc: `class Parser` over any `Source`, and the three `Parse` functions.
use gabby.Base.{
  ℕ, zero, suc, ◌+◌, ◌*◌, Bool, true, false, Option, none, some, List, [], ◌∷◌, ◌++◌, Bytes, codes,
  bytes_eq, is_empty, length, if◌then◌else◌,
}
use gabby.Outcome.{
  Outcome, ok, throws, out_of_fuel, Run, pure, throw, bind, ◌>>=◌, ◌>>◌, parsing_error, std_error,
}
use gabby.Json.Value.{
  Value, Items, Fields, nil_value, array_value, object, no_items, item, no_fields, field,
}
use gabby.Json.Source.{
  Source, eof, File, Size, plus, minus, Scanner, scanner_source, get_char, unget_char,
  scanner_ending, to_int,
}
use gabby.Json.Scan.{
  TokenType, num, str, bool, lbrace, rbrace, lbracket, rbracket, comma, colon, nil, Cargo, double,
  boolean, string, Token, scan_skip_whitespace, skip_whitespace, peek, advance, scan, scan_byte,
  scan_string, scan_number, scan_peeked, scan_mantissa, in_mantissa, scan_fraction, scan_exponent,
  scan_word, number_token, word_token, is_delim, ends_string, escapes,
}

-- `to_string(TokenType)`
unfoldable pub token_name : TokenType → Bytes
token_name num = codes "NUM"
token_name str = codes "STR"
token_name bool = codes "BOOL"
token_name lbrace = codes "LBRACE"
token_name rbrace = codes "RBRACE"
token_name lbracket = codes "LBRACKET"
token_name rbracket = codes "RBRACKET"
token_name comma = codes "COMMA"
token_name colon = codes "COLON"
token_name nil = codes "NIL"

-- `==` of two token types
abbrev pub type_eq : TokenType → TokenType → Bool
type_eq num num = true
type_eq str str = true
type_eq bool bool = true
type_eq lbrace lbrace = true
type_eq rbrace rbrace = true
type_eq lbracket lbracket = true
type_eq rbracket rbracket = true
type_eq comma comma = true
type_eq colon colon = true
type_eq nil nil = true
type_eq _ _ = false

-- The two tests that end a loop: no token is left, or the closing bracket is next.
abbrev pub closes : TokenType → Option Token → Bool
closes t none = true
closes t (some tok) = type_eq tok.type t

-- `std::get<double>` and the like throw where the variant holds another alternative.
abbrev pub bad_variant : {S A : Type 0} → Run S A
bad_variant = throw (std_error (codes "std::get: wrong index for variant"))

abbrev pub get_double : {S : Type 0} → Cargo → Run S ℕ
get_double (double d) = pure d
get_double _ = bad_variant

abbrev pub get_bool : {S : Type 0} → Cargo → Run S Bool
get_bool (boolean b) = pure b
get_bool _ = bad_variant

abbrev pub get_string : {S : Type 0} → Cargo → Run S Bytes
get_string (string s) = pure s
get_string _ = bad_variant

-- A vector of values, and a map of them, as values hold them.
abbrev pub to_items : List Value → Items
to_items [] = no_items
to_items (v ∷ vs) = item v (to_items vs)

abbrev pub to_fields : List (Bytes × Value) → Fields
to_fields [] = no_fields
to_fields ((k, v) ∷ m) = field k v (to_fields m)

-- `values[key] = value` on the map
unfoldable pub assign : List (Bytes × Value) → Bytes → Value → List (Bytes × Value)
assign [] k v = (k, v) ∷ []
assign ((j, w) ∷ m) k v = if bytes_eq j k then (j, v) ∷ m else (j, w) ∷ assign m k v

-- `class Parser`, over the state `S` of its scanner
pub record Parser (S : Type 0) : Type 0 where
  pub scan : S
  pub lookahead : Option Token

abbrev pub with_scan : {S : Type 0} → S → Option Token → Parser S
with_scan s t = record { scan = s; lookahead = t }

abbrev pub unexpected_eof : {S A : Type 0} → Run S A
unexpected_eof = throw (parsing_error (codes "unexpected eof"))

abbrev pub next_of : {S : Type 0} → Option Token → Run S Token
next_of none = unexpected_eof
next_of (some tok) = pure tok

-- what `Eat` makes of the token that it took
abbrev pub expect : {S : Type 0} → TokenType → Token → Run S Token
expect t tok =
    if type_eq tok.type t
    then pure tok
    else throw
        (parsing_error (codes "want " ++ (token_name t ++ (codes ", got " ++ token_name tok.type))))

module _ {S : Type 0} (src : Source S) (stod : Bytes → Option ℕ) (limit : ℕ) where
  abbrev pub peek_with : Option Token → Run (Parser S) (Option Token)
  peek_with (some tok) p = ok (some tok, p)
  peek_with none p =
      bind (scan_skip_whitespace src stod limit p.scan) λ (tok, s). ok (tok, with_scan s tok)

  -- `Parser::Peek`. `limit` is the fuel of each loop of the scanner.
  unfoldable pub peek_token : Run (Parser S) (Option Token)
  peek_token p = peek_with p.lookahead p

  abbrev pub reset_lookahead : Run (Parser S) (Unit {0})
  reset_lookahead p = ok (tt, with_scan p.scan none)

  -- `Parser::Next`
  unfoldable pub next : Run (Parser S) Token
  next = peek_token >>= λ tok. reset_lookahead >> next_of tok

  -- `Parser::Eat`
  unfoldable pub eat : TokenType → Run (Parser S) Token
  eat t = next >>= expect t

  -- the `switch` of `Parser::Value`, over the loops of an array and of an object
  unfoldable pub value_of :
      Run (Parser S) (List Value)
      → Run (Parser S) (List (Bytes × Value))
      → TokenType
      → Run (Parser S) Value
  value_of items fields num = next >>= λ tok. get_double tok.cargo >>= λ d. pure (Value.number d)
  value_of items fields str = next >>= λ tok. get_string tok.cargo >>= λ s. pure (Value.string s)
  value_of items fields bool = next >>= λ tok. get_bool tok.cargo >>= λ b. pure (Value.boolean b)
  value_of items fields nil = next >> pure nil_value
  value_of items fields lbracket =
      eat lbracket >> (items >>= λ vs. eat rbracket >> pure (array_value (to_items vs)))
  value_of items fields lbrace = next >> (fields >>= λ m. eat rbrace >> pure (object (to_fields m)))
  value_of items fields t = throw (parsing_error (codes "bad value: " ++ token_name t))

  abbrev pub value_peeked :
      Run (Parser S) (List Value)
      → Run (Parser S) (List (Bytes × Value))
      → Option Token
      → Run (Parser S) Value
  value_peeked items fields none = unexpected_eof
  value_peeked items fields (some tok) = value_of items fields tok.type

  -- `if (!values.empty()) Eat(COMMA);`
  abbrev pub eat_separator : Bool → Run (Parser S) (Unit {0})
  eat_separator true = pure tt
  eat_separator false = eat comma >> pure tt

  unfoldable mutual
    -- `Parser::Value`. The fuel bounds the depth and the rounds of the recursion.
    pub value : ℕ → Run (Parser S) Value
    value zero = λ _. out_of_fuel
    value (suc f) = peek_token >>= value_peeked (items f []) (fields f [])

    -- the loop over the elements of an array
    pub items : ℕ → List Value → Run (Parser S) (List Value)
    items zero values = λ _. out_of_fuel
    items (suc f) values = peek_token >>= λ tok. elim (closes rbracket tok) [
      | true ↦ pure values
      | false ↦ eat_separator (is_empty values) >> (value f >>= λ v. items f (values ++ v ∷ []))
    ]

    -- the loop over the fields of an object
    pub fields : ℕ → List (Bytes × Value) → Run (Parser S) (List (Bytes × Value))
    fields zero values = λ _. out_of_fuel
    fields (suc f) values = peek_token >>= λ tok. elim (closes rbrace tok) [
      | true ↦ pure values
      | false ↦
          eat_separator (is_empty values)
          >> (eat str >>= λ k. get_string k.cargo >>= λ key.
              eat colon >> (value f >>= λ v. fields f (assign values key v)))
    ]

  -- `Parse(FILE*, int)`: the value, then the test that the scanner stands at the size
  unfoldable pub parse_all : ℕ → S → Outcome (Value × S)
  parse_all f s = bind (value f (with_scan s none)) λ (v, p).
      if src.at_size p.scan
      then ok (v, p.scan)
      else throws (parsing_error (codes "unexpected trailing data"))

-- No more bytes are read than the size says. Each loop of the scanner takes a byte a round, and the
-- parser makes at most two calls for a token.
abbrev pub bytes_at_most : Size → ℕ
bytes_at_most (plus n) = n
bytes_at_most (minus n) = 0

abbrev pub scan_fuel : Size → ℕ
scan_fuel size = bytes_at_most size + 1

abbrev pub parse_fuel : Size → ℕ
parse_fuel size = 2 * bytes_at_most size + 1

-- `Parse(FILE*, int)`
unfoldable pub parse_stream : (Bytes → Option ℕ) → File → Size → Outcome (Value × Scanner)
unfolding parse_all value value_of peek_token next eat assign token_name skip_whitespace peek
    advance scan_skip_whitespace scan scan_peeked scan_byte scan_string scan_number scan_mantissa
    in_mantissa scan_fraction scan_exponent scan_word number_token word_token is_delim ends_string
    escapes bytes_eq get_char unget_char scanner_ending
parse_stream stod file size =
    parse_all scanner_source stod (scan_fuel size) (parse_fuel size)
      (record { file = file; size = size; pos = 0; lookahead = none })

-- `Parse(const std::string&)`, which reads the text through `fmemopen`: a stream that ends with
-- the text. The model takes that call to succeed. The size of the text becomes an `int`.
unfoldable pub parse_string : (Bytes → Option ℕ) → Bytes → Outcome Value
unfolding parse_stream to_int
parse_string stod s =
    bind (parse_stream stod (record { bytes = s; ending = eof }) (to_int (length s))) λ (v, _). ok v
