-- ===== src/Json/RoundTrip/Peeks.antt =====
-- src/json/parser.cc on a printed value: `Peek`, `Next` and `Eat`, and the first token of the value.
use gabby.Base.{
  ℕ, zero, suc, ◌<◌, Bool, true, false, Option, none, some, List, [], ◌∷◌, ◌++◌, Bytes, codes,
  length, ◌≡◌, refl, ap, arith,
}
use gabby.Outcome.{ok, bind}
use gabby.Json.Value.{
  Value, Items, Fields, nil_value, boolean, number, string, array_value, object, no_items, item,
  no_fields, field, print,
}
use gabby.Json.Source.{View, view_source}
use gabby.Json.Scan.{TokenType, Token, char}
use gabby.Json.Parse.{Parser, with_scan, peek_token, next, eat, value, to_items, to_fields, type_eq}
use gabby.Json.RoundTrip.Tokens.{
  at, head_of, trim, Scans, string-Scans, lbracket-Scans, lbrace-Scans, true-Scans, false-Scans,
  null-Scans,
}
use gabby.Json.RoundTrip.Numbers.{number-Scans}
use gabby.Json.RoundTrip.Numerals.{
  Numeral, text, sign_text, body, ends_number, ends_number-is_delim,
}
use gabby.Json.RoundTrip.Printable.{IsPrintable}

abbrev pub from_items : Items → List Value
from_items no_items = []
from_items (item v xs) = v ∷ from_items xs

abbrev pub from_fields : Fields → List (Bytes × Value)
from_fields no_fields = []
from_fields (field k v fs) = (k, v) ∷ from_fields fs

pub to_items-from_items : (xs : Items) → to_items (from_items xs) ≡ xs
to_items-from_items no_items = refl
to_items-from_items (item v xs) = ap (item v) (to_items-from_items xs)

pub to_fields-from_fields : (fs : Fields) → to_fields (from_fields fs) ≡ fs
to_fields-from_fields no_fields = refl
to_fields-from_fields (field k v fs) = ap (field k v) (to_fields-from_fields fs)

-- The parser before text `r`, and the parser that holds the token in front of it.
abbrev pub before : Bytes → Parser View
before r = with_scan (at r) none

abbrev pub holding : Token → Bytes → Parser View
holding tok r = with_scan (at r) (some tok)

abbrev pub bracket : Token
bracket = record { type = TokenType.rbracket; cargo = char b']' }

abbrev pub brace : Token
brace = record { type = TokenType.rbrace; cargo = char b'}' }

module _ (stod : Bytes → Option ℕ) (limit : ℕ) where
  pub peek-Scans :
      (s rest : Bytes) (tok : Token)
      → Scans stod limit s (some tok) rest
      → length (s ++ rest) < limit
      → peek_token view_source stod limit (before (s ++ rest))
        ≡ ok (some tok, holding tok (trim rest))
  unfolding peek_token
  peek-Scans s rest tok scans h = rw (scans h, bind)

  pub next-Scans :
      (s rest : Bytes) (tok : Token)
      → Scans stod limit s (some tok) rest
      → length (s ++ rest) < limit
      → next view_source stod limit (before (s ++ rest)) ≡ ok (tok, before (trim rest))
  unfolding next
  next-Scans s rest tok scans h = rw (peek-Scans s rest tok scans h, bind)

  pub eat-Scans :
      (s rest : Bytes) (tok : Token)
      → type_eq tok.type tok.type ≡ true
      → Scans stod limit s (some tok) rest
      → length (s ++ rest) < limit
      → eat view_source stod limit tok.type (before (s ++ rest)) ≡ ok (tok, before (trim rest))
  unfolding eat
  eat-Scans s rest tok e scans h = rw (next-Scans s rest tok scans h, bind) (rw e)

  -- A peek before `Value` changes nothing.
  pub value-after_peek :
      (f : ℕ) (p : Parser View) (tok : Token) (r : Bytes)
      → peek_token view_source stod limit p ≡ ok (some tok, holding tok r)
      → value view_source stod limit f (holding tok r) ≡ value view_source stod limit f p
  unfolding value peek_token
  value-after_peek zero p tok r e = refl
  value-after_peek (suc f) p tok r e = rw (e, bind)

  pub next-holding :
      (tok : Token) (r : Bytes) → next view_source stod limit (holding tok r) ≡ ok (tok, before r)
  unfolding next peek_token
  next-holding tok r = refl

  pub eat-holding :
      (tok : Token) (r : Bytes)
      → type_eq tok.type tok.type ≡ true
      → eat view_source stod limit tok.type (holding tok r) ≡ ok (tok, before r)
  unfolding eat
  eat-holding tok r e = rw (next-holding, bind) (rw e)

  pub peek-holding :
      (tok : Token) (r : Bytes)
      → peek_token view_source stod limit (holding tok r) ≡ ok (some tok, holding tok r)
  unfolding peek_token
  peek-holding tok r = refl

module _ (stod : Bytes → Option ℕ) (limit : ℕ) where
  -- A printed value starts with a token that does not close an array.
  pub record FirstToken (r : Bytes) : Type 0 where
    pub tok : Token
    pub behind : Bytes
    pub peeked : peek_token view_source stod limit (before r) ≡ ok (some tok, holding tok behind)
    pub no_bracket : type_eq tok.type TokenType.rbracket ≡ false

  pub starts :
      (s rest : Bytes) (tok : Token)
      → Scans stod limit s (some tok) rest
      → type_eq tok.type TokenType.rbracket ≡ false
      → length (s ++ rest) < limit
      → FirstToken (s ++ rest)
  starts s rest tok scans e h = record {
    tok = tok;
    behind = trim rest;
    peeked = peek-Scans stod limit s rest tok scans h;
    no_bracket = e;
  }

module _ (show_double : ℕ → Bytes) (stod : Bytes → Option ℕ) (limit : ℕ) where
  pub first_token :
      (v : Value) (rest : Bytes)
      → IsPrintable show_double stod v
      → ends_number (head_of rest) ≡ true
      → length (print show_double v ++ rest) < limit
      → FirstToken stod limit (print show_double v ++ rest)
  unfolding print
  first_token nil_value rest p d h =
      starts stod limit (codes "null") rest _
        (null-Scans stod limit rest (ends_number-is_delim (head_of rest) d)) refl h
  first_token (boolean true) rest p d h =
      starts stod limit (codes "true") rest _
        (true-Scans stod limit rest (ends_number-is_delim (head_of rest) d)) refl h
  first_token (boolean false) rest p d h =
      starts stod limit (codes "false") rest _
        (false-Scans stod limit rest (ends_number-is_delim (head_of rest) d)) refl h
  first_token (number x) rest p d h = rw p.shown (
      starts stod limit (text p.numeral) rest _
        (number-Scans stod limit x p.numeral rest p.well_formed p.reads_back d) refl
        (rw p.shown at h))
  first_token (string s) rest p d h =
      starts stod limit (b'"' ∷ (s ++ b'"' ∷ [])) rest _ (string-Scans stod limit s rest p) refl h
  first_token (array_value xs) rest p d h =
      starts stod limit (b'[' ∷ []) _ _ (lbracket-Scans stod limit _) refl h
  first_token (object fs) rest p d h =
      starts stod limit (b'{' ∷ []) _ _ (lbrace-Scans stod limit _) refl h

  pub length-print_pos :
      (v : Value) → IsPrintable show_double stod v → 0 < length (print show_double v)
  unfolding print
  length-print_pos nil_value p = omega arith
  length-print_pos (boolean true) p = omega arith
  length-print_pos (boolean false) p = omega arith
  length-print_pos (number x) p = rw p.shown (numeral_pos p.numeral p.numeral.negative)
    where
      numeral_pos : (n : Numeral) (b : Bool) → 0 < length (sign_text b ++ body n)
      numeral_pos n true = omega arith
      numeral_pos n false = omega arith
  length-print_pos (string s) p = omega arith
  length-print_pos (array_value xs) p = omega arith
  length-print_pos (object fs) p = omega arith

-- One step of the parser at each place of a printed text, with the loops and the inner calls left
-- as they are.
