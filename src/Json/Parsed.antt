-- ===== src/Json/Parsed.antt =====
-- src/json/parser.cc: what `Parse` gives has no key twice in an object.
use gabby.Base.{
  ℕ, zero, suc, Bool, true, false, Option, none, some, List, [], ◌∷◌, ◌++◌, Bytes, is_empty,
  if◌then◌else◌, ◌≡◌, subst,
}
use gabby.Outcome.{
  Exception, Outcome, ok, throws, aborts, out_of_fuel, bind, Run, pure, ◌>>=◌, ◌>>◌,
}
use gabby.Json.Value.{Value}
use gabby.Json.Source.{Source, File, Size, Scanner, scanner_source}
use gabby.Json.Scan.{
  TokenType, num, str, bool, lbrace, rbrace, lbracket, rbracket, comma, colon, nil, Token,
}
use gabby.Json.Parse.{
  assign, to_items, Parser, peek_token, next, eat, get_double, get_string, get_bool, value_of,
  value_peeked, eat_separator, value, items, fields, closes, parse_all, parse_stream, scan_fuel,
  parse_fuel,
}
use gabby.Json.Maps.{
  HasMaps, ItemsHaveMaps, ListHasMaps, assign-IsMap, assign-FieldsHaveMaps, append-ItemsHaveMaps,
}

-- A run that ends in a value gives one with `P`.
data Yields {A S : Type 0} (P : A → Type 0) : Outcome (A × S) → Type 0 where
  good : {a : A} {s : S} → P a → Yields P (ok (a, s))
  threw : {e : _} → Yields P (throws e)
  aborted : Yields P aborts
  starved : Yields P out_of_fuel

Yields-bind :
    {A B S T : Type 0} {P : A → Type 0} {Q : B → Type 0} (m : Outcome (A × S))
    (f : A × S → Outcome (B × T))
    → Yields P m
    → ((a : A) (s : S) → P a → Yields Q (f (a, s)))
    → Yields Q (bind m f)
Yields-bind m f (good {a} {s} p) k = k a s p
Yields-bind m f threw k = threw
Yields-bind m f aborted k = aborted
Yields-bind m f starved k = starved

-- A call of which nothing is used.
Yields-any :
    {A B S T : Type 0} {Q : B → Type 0} (m : Outcome (A × S)) (f : A × S → Outcome (B × T))
    → ((a : A) (s : S) → Yields Q (f (a, s)))
    → Yields Q (bind m f)
Yields-any (ok (a, s)) f k = k a s
Yields-any (throws e) f k = threw
Yields-any aborts f k = aborted
Yields-any out_of_fuel f k = starved

Yields-if :
    {S : Type 0} {P : Value → Type 0} (b : Bool) (v : Value) (s : S) (e : Exception)
    → P v
    → Yields P (if b then ok (v, s) else throws e)
Yields-if true v s e p = good p
Yields-if false v s e p = threw

module _ {S : Type 0} (src : Source S) (stod : Bytes → Option ℕ) (limit : ℕ) where
  abbrev ItemsLoop : Run (Parser S) (List Value) → Type 0
  ItemsLoop xs = (p : Parser S) → Yields (λ vs. ItemsHaveMaps (to_items vs)) (xs p)

  abbrev FieldsLoop : Run (Parser S) (List (Bytes × Value)) → Type 0
  FieldsLoop fs = (p : Parser S) → Yields ListHasMaps (fs p)

  value_of-HasMaps :
      (xs : Run (Parser S) (List Value)) (fs : Run (Parser S) (List (Bytes × Value)))
      → ItemsLoop xs
      → FieldsLoop fs
      → (t : TokenType) (p : Parser S) → Yields HasMaps (value_of src stod limit xs fs t p)
  unfolding value_of
  value_of-HasMaps xs fs h g num p =
      Yields-any (next src stod limit p) _
        (λ tok q. Yields-any (get_double tok.cargo q) _ (λ d r. good tt))
  value_of-HasMaps xs fs h g str p =
      Yields-any (next src stod limit p) _
        (λ tok q. Yields-any (get_string tok.cargo q) _ (λ d r. good tt))
  value_of-HasMaps xs fs h g bool p =
      Yields-any (next src stod limit p) _
        (λ tok q. Yields-any (get_bool tok.cargo q) _ (λ d r. good tt))
  value_of-HasMaps xs fs h g nil p = Yields-any (next src stod limit p) _ (λ tok q. good tt)
  value_of-HasMaps xs fs h g lbracket p = Yields-any (eat src stod limit lbracket p) _ (λ tok q.
      Yields-bind (xs q) _ (h q)
        (λ vs r have. Yields-any (eat src stod limit rbracket r) _ (λ tok s. good have)))
  value_of-HasMaps xs fs h g lbrace p = Yields-any (next src stod limit p) _ (λ tok q.
      Yields-bind (fs q) _ (g q)
        (λ m r have. Yields-any (eat src stod limit rbrace r) _ (λ tok s. good have)))
  value_of-HasMaps xs fs h g rbrace p = threw
  value_of-HasMaps xs fs h g rbracket p = threw
  value_of-HasMaps xs fs h g comma p = threw
  value_of-HasMaps xs fs h g colon p = threw

  value_peeked-HasMaps :
      (xs : Run (Parser S) (List Value)) (fs : Run (Parser S) (List (Bytes × Value)))
      → ItemsLoop xs
      → FieldsLoop fs
      → (tok : Option Token) (p : Parser S)
      → Yields HasMaps (value_peeked src stod limit xs fs tok p)
  value_peeked-HasMaps xs fs h g none p = threw
  value_peeked-HasMaps xs fs h g (some tok) p = value_of-HasMaps xs fs h g tok.type p

  -- A round of each loop, over what `Value` and the rest of the loop give.
  items_round :
      (closed : Bool) (vs : List Value) (v : Run (Parser S) Value)
      (rest : List Value → Run (Parser S) (List Value))
      → ItemsHaveMaps (to_items vs)
      → ((p : Parser S) → Yields HasMaps (v p))
      → ((ws : List Value) → ItemsHaveMaps (to_items ws) → ItemsLoop (rest ws))
      → (p : Parser S)
      → Yields
          (λ ws. ItemsHaveMaps (to_items ws))
          ((elim closed as (λ b. Run (Parser S) (List Value)) [
            | true ↦ pure vs
            | false ↦ eat_separator src stod limit (is_empty vs) >> (v >>= λ w. rest (vs ++ w ∷ []))
          ])
            p)
  items_round true vs v rest have h g p = good have
  items_round false vs v rest have h g p =
      Yields-any (eat_separator src stod limit (is_empty vs) p) _ (λ u q.
        Yields-bind (v q) _ (h q)
          (λ w r has. g (vs ++ w ∷ []) (append-ItemsHaveMaps vs w have has) r))

  fields_round :
      (closed : Bool) (m : List (Bytes × Value)) (v : Run (Parser S) Value)
      (rest : List (Bytes × Value) → Run (Parser S) (List (Bytes × Value)))
      → ListHasMaps m
      → ((p : Parser S) → Yields HasMaps (v p))
      → ((n : List (Bytes × Value)) → ListHasMaps n → FieldsLoop (rest n))
      → (p : Parser S)
      → Yields ListHasMaps (
          (elim closed as (λ b. Run (Parser S) (List (Bytes × Value))) [
            | true ↦ pure m
            | false ↦
                eat_separator src stod limit (is_empty m)
                >> (eat src stod limit str >>= λ k. get_string k.cargo >>= λ key.
                    eat src stod limit colon >> (v >>= λ w. rest (assign m key w)))
          ])
            p)
  fields_round true m v rest have h g p = good have
  fields_round false m v rest (maps, have) h g p =
      Yields-any (eat_separator src stod limit (is_empty m) p) _ (λ u q.
        Yields-any (eat src stod limit str q) _ (λ k r.
          Yields-any (get_string k.cargo r) _ (λ key s.
            Yields-any (eat src stod limit colon s) _ (λ tok t.
              Yields-bind (v t) _ (h t) (λ w o has.
                g (assign m key w)
                  (assign-IsMap m key w maps, assign-FieldsHaveMaps m key w has have) o)))))

  mutual
    unfolding value items fields

    value-HasMaps : (f : ℕ) (p : Parser S) → Yields HasMaps (value src stod limit f p)
    value-HasMaps zero p = starved
    value-HasMaps (suc f) p = Yields-any (peek_token src stod limit p) _ (λ tok q.
        value_peeked-HasMaps _ _ (items-HasMaps f [] tt) (fields-HasMaps f [] (tt, tt)) tok q)

    items-HasMaps :
        (f : ℕ) (vs : List Value)
        → ItemsHaveMaps (to_items vs)
        → ItemsLoop (items src stod limit f vs)
    items-HasMaps zero vs have p = starved
    items-HasMaps (suc f) vs have p = Yields-any (peek_token src stod limit p) _ (λ tok q.
        items_round (closes rbracket tok) vs (value src stod limit f) (items src stod limit f) have
          (value-HasMaps f) (λ ws more. items-HasMaps f ws more) q)

    fields-HasMaps :
        (f : ℕ) (m : List (Bytes × Value)) → ListHasMaps m → FieldsLoop (fields src stod limit f m)
    fields-HasMaps zero m have p = starved
    fields-HasMaps (suc f) m have p = Yields-any (peek_token src stod limit p) _ (λ tok q.
        fields_round (closes rbrace tok) m (value src stod limit f) (fields src stod limit f) have
          (value-HasMaps f) (λ n more. fields-HasMaps f n more) q)

  parse_all-HasMaps : (f : ℕ) (s : S) → Yields HasMaps (parse_all src stod limit f s)
  unfolding parse_all
  parse_all-HasMaps f s =
      Yields-bind (value src stod limit f _) _ (value-HasMaps f _)
        (λ v p has. Yields-if (src.at_size p.scan) v p.scan _ has)

abbrev pair_ok : {S : Type 0} → Value → S → Outcome (Value × S)
pair_ok v s = ok (v, s)

ok-fst : {S : Type 0} (a v : Value) (s t : S) → pair_ok a s ≡ pair_ok v t → a ≡ v
ok-fst a v s t e = cc

yielded :
    {S : Type 0} {P : Value → Type 0} {m : Outcome (Value × S)}
    → Yields P m
    → (v : Value) (s : S) → m ≡ ok (v, s)
    → P v
yielded {P = P} (good {a = a} {s = u} p) v s e = subst P (ok-fst a v u s e) p
yielded threw v s e = cc
yielded aborted v s e = cc
yielded starved v s e = cc

-- `Parse` of any stream with any size, where it gives a value, gives one in which no object has a key
-- twice, whatever keys stand in the text.
pub parse_stream-HasMaps :
    (stod : Bytes → Option ℕ) (file : File) (size : Size) (v : Value) (s : Scanner)
    → parse_stream stod file size ≡ ok (v, s)
    → HasMaps v
unfolding parse_stream
parse_stream-HasMaps stod file size v s h =
    yielded
      (parse_all-HasMaps scanner_source stod (scan_fuel size) (parse_fuel size)
        (record { file = file; size = size; pos = 0; lookahead = none }))
      v s h
