-- ===== src/Json/Refine/Parse.antt =====
-- Each operation of `class Parser` respects a refinement between sources.
use gabby.Base.{
  ℕ, zero, suc, Bool, true, false, Option, none, some, inl, inr, Bool-cases, List, [], ◌∷◌, ◌++◌,
  Bytes, codes, is_empty, if◌then◌else◌, ◌≡◌, refl, sym, subst,
}
use gabby.Outcome.{Exception, parsing_error, Run, Outcome, ok, throws, bind}
use gabby.Json.Value.{Value}
use gabby.Json.Source.{Source}
use gabby.Json.Scan.{
  TokenType, num, str, bool, lbrace, rbrace, lbracket, rbracket, comma, colon, nil, Token, Cargo,
  double, boolean, string,
}
use gabby.Json.Parse.{
  Parser, with_scan, peek_token, peek_with, next, next_of, eat, expect, type_eq, reset_lookahead,
  value_of, value_peeked, value, items, fields, eat_separator, get_double, get_bool, get_string,
  closes, assign, parse_all,
}
use gabby.Json.Refine.Simulation.{
  Alike, both, both_throw, both_spent, Simulates, Simulates-bind, Simulates-pure, Simulates-throw,
  Simulates-spent, Refines,
}
use gabby.Json.Refine.Scan.{Simulates-if, Simulates-elim, scan_skip_whitespace-Simulates}

module _ {S T : Type 0} (R : S → T → Type 0) where
  -- Parsers over related sources that hold the same token.
  pub record SameToken (p : Parser S) (q : Parser T) : Type 0 where
    pub scans : R p.scan q.scan
    pub held : p.lookahead ≡ q.lookahead

  get_double-Simulates : (c : Cargo) → Simulates SameToken (get_double c) (get_double c)
  get_double-Simulates (double d) = Simulates-pure SameToken d
  get_double-Simulates _ = Simulates-throw SameToken _

  get_bool-Simulates : (c : Cargo) → Simulates SameToken (get_bool c) (get_bool c)
  get_bool-Simulates (boolean b) = Simulates-pure SameToken b
  get_bool-Simulates _ = Simulates-throw SameToken _

  get_string-Simulates : (c : Cargo) → Simulates SameToken (get_string c) (get_string c)
  get_string-Simulates (string s) = Simulates-pure SameToken s
  get_string-Simulates _ = Simulates-throw SameToken _

  next_of-Simulates : (t : Option Token) → Simulates SameToken (next_of t) (next_of t)
  next_of-Simulates none = Simulates-throw SameToken _
  next_of-Simulates (some tok) = Simulates-pure SameToken tok

  expect-Simulates :
      (t : TokenType) (tok : Token) → Simulates SameToken (expect t tok) (expect t tok)
  expect-Simulates t tok =
      Simulates-if SameToken (type_eq tok.type t) (Simulates-pure SameToken _)
        (Simulates-throw SameToken _)

abbrev trailing : Exception
trailing = parsing_error (codes "unexpected trailing data")

module _ {S T : Type 0} (R : S → T → Type 0) {src : Source S} {dst : Source T}
    (ref : Refines R src dst) (stod : Bytes → Option ℕ) (limit : ℕ) where
  abbrev Same : Parser S → Parser T → Type 0
  Same = SameToken R

  scanned :
      {x : Outcome (Option Token × S)} {y : Outcome (Option Token × T)}
      → Alike R x y
      → Alike Same
          (bind x λ (tok, s). ok (tok, with_scan s tok))
          (bind y λ (tok, t). ok (tok, with_scan t tok))
  scanned (both r) = both (record { scans = r; held = refl })
  scanned both_throw = both_throw
  scanned both_spent = both_spent

  peek_with-Simulates :
      (o : Option Token) → Simulates Same (peek_with src stod limit o) (peek_with dst stod limit o)
  peek_with-Simulates (some tok) p q r = both r
  peek_with-Simulates none p q r =
      scanned (scan_skip_whitespace-Simulates R ref stod limit p.scan q.scan r.scans)

  peek_token-Simulates : Simulates Same (peek_token src stod limit) (peek_token dst stod limit)
  unfolding peek_token
  peek_token-Simulates p q r =
      subst
        (λ o. Alike Same (peek_with src stod limit o p) (peek_with dst stod limit q.lookahead q))
        (sym r.held) (peek_with-Simulates q.lookahead p q r)

  reset_lookahead-Simulates :
      Simulates Same (reset_lookahead src stod limit) (reset_lookahead dst stod limit)
  reset_lookahead-Simulates p q r = both (record { scans = r.scans; held = refl })

  next-Simulates : Simulates Same (next src stod limit) (next dst stod limit)
  unfolding next
  next-Simulates =
      Simulates-bind Same peek_token-Simulates
        λ tok. Simulates-bind Same reset_lookahead-Simulates λ _. next_of-Simulates R tok

  eat-Simulates : (t : TokenType) → Simulates Same (eat src stod limit t) (eat dst stod limit t)
  unfolding eat
  eat-Simulates t = Simulates-bind Same next-Simulates λ tok. expect-Simulates R t tok

  eat_separator-Simulates :
      (first : Bool)
      → Simulates Same (eat_separator src stod limit first) (eat_separator dst stod limit first)
  eat_separator-Simulates true = Simulates-pure Same tt
  eat_separator-Simulates false =
      Simulates-bind Same (eat-Simulates comma) λ _. Simulates-pure Same tt

  module _ {xs : Run (Parser S) (List Value)} {ys : Run (Parser T) (List Value)}
      {fs : Run (Parser S) (List (Bytes × Value))} {gs : Run (Parser T) (List (Bytes × Value))}
      (h : Simulates Same xs ys) (k : Simulates Same fs gs) where
    value_of-Simulates :
        (t : TokenType)
        → Simulates Same (value_of src stod limit xs fs t) (value_of dst stod limit ys gs t)
    unfolding value_of
    value_of-Simulates num =
        Simulates-bind Same next-Simulates
          λ tok. Simulates-bind Same (get_double-Simulates R tok.cargo) λ d. Simulates-pure Same _
    value_of-Simulates str =
        Simulates-bind Same next-Simulates
          λ tok. Simulates-bind Same (get_string-Simulates R tok.cargo) λ s. Simulates-pure Same _
    value_of-Simulates bool =
        Simulates-bind Same next-Simulates
          λ tok. Simulates-bind Same (get_bool-Simulates R tok.cargo) λ b. Simulates-pure Same _
    value_of-Simulates nil = Simulates-bind Same next-Simulates λ _. Simulates-pure Same _
    value_of-Simulates lbracket = Simulates-bind Same (eat-Simulates lbracket) λ _.
        Simulates-bind Same h
          λ vs. Simulates-bind Same (eat-Simulates rbracket) λ _. Simulates-pure Same _
    value_of-Simulates lbrace = Simulates-bind Same next-Simulates λ _.
        Simulates-bind Same k
          λ m. Simulates-bind Same (eat-Simulates rbrace) λ _. Simulates-pure Same _
    value_of-Simulates _ = Simulates-throw Same _

    value_peeked-Simulates :
        (o : Option Token)
        → Simulates Same (value_peeked src stod limit xs fs o) (value_peeked dst stod limit ys gs o)
    value_peeked-Simulates none = Simulates-throw Same _
    value_peeked-Simulates (some tok) = value_of-Simulates tok.type

  mutual
    unfolding value

    value-Simulates : (f : ℕ) → Simulates Same (value src stod limit f) (value dst stod limit f)
    value-Simulates zero = Simulates-spent Same
    value-Simulates (suc f) =
        Simulates-bind Same peek_token-Simulates
          λ o. value_peeked-Simulates (items-Simulates f []) (fields-Simulates f []) o

    items-Simulates :
        (f : ℕ) (vs : List Value)
        → Simulates Same (items src stod limit f vs) (items dst stod limit f vs)
    items-Simulates zero vs = Simulates-spent Same
    items-Simulates (suc f) vs = Simulates-bind Same peek_token-Simulates λ o.
        Simulates-elim Same (closes rbracket o) (Simulates-pure Same vs) (
          Simulates-bind Same (eat_separator-Simulates (is_empty vs))
            λ _. Simulates-bind Same (value-Simulates f) λ v. items-Simulates f (vs ++ v ∷ []))

    fields-Simulates :
        (f : ℕ) (m : List (Bytes × Value))
        → Simulates Same (fields src stod limit f m) (fields dst stod limit f m)
    fields-Simulates zero m = Simulates-spent Same
    fields-Simulates (suc f) m = Simulates-bind Same peek_token-Simulates λ o.
        Simulates-elim Same (closes rbrace o) (Simulates-pure Same m) (
          Simulates-bind Same (eat_separator-Simulates (is_empty m)) λ _.
            Simulates-bind Same (eat-Simulates str) λ tok.
              Simulates-bind Same (get_string-Simulates R tok.cargo) λ key.
                Simulates-bind Same (eat-Simulates colon) λ _.
                  Simulates-bind Same (value-Simulates f) λ v. fields-Simulates f (assign m key v))

  finished :
      {x : Outcome (Value × Parser S)} {y : Outcome (Value × Parser T)}
      → Alike Same x y
      → Alike R
          (bind x λ (v, p). if src.at_size p.scan then ok (v, p.scan) else throws trailing)
          (bind y λ (v, p). if dst.at_size p.scan then ok (v, p.scan) else throws trailing)
  finished (both {t} r) = rw (ref.size_alike _ _ r.scans) (elim (Bool-cases (dst.at_size t.scan)) [
    | inl e ↦ rw e (both r.scans)
    | inr e ↦ rw e both_throw
  ])
  finished both_throw = both_throw
  finished both_spent = both_spent

  -- Parsing from related sources ends alike: the same value or the same exception, and no assertion
  -- fails.
  pub parse_all-Simulates :
      (f : ℕ)
      → (s : S) (t : T) → R s t
      → Alike R (parse_all src stod limit f s) (parse_all dst stod limit f t)
  unfolding parse_all
  parse_all-Simulates f s t r = finished (value-Simulates f _ _ (record { scans = r; held = refl }))
