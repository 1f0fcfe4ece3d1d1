-- ===== src/Json/Total/Parse.antt =====
-- Each call of the parser takes a token or goes one level down before it takes one, so that twice as
-- much fuel as there are bytes and tokens is enough.
use gabby.Base.{
  ℕ, zero, suc, ◌+◌, ◌-◌, ◌*◌, ◌≤◌, ◌<◌, Bool, true, false, Option, none, some, inl, inr,
  Bool-cases, List, [], ◌∷◌, ◌++◌, Bytes, codes, is_empty, if◌then◌else◌, ◌≡◌, refl, ap, arith,
}
use gabby.Outcome.{
  parsing_error, Run, pure, ok, throws, ◌>>=◌, Ensures, holds, raised, Ensures-bind, Ensures-weaken,
}
use gabby.Json.Value.{Value}
use gabby.Json.Source.{View, view_source}
use gabby.Json.Scan.{
  TokenType, num, str, bool, lbrace, rbrace, lbracket, rbracket, comma, colon, nil, Token, Cargo,
  double, boolean, string,
}
use gabby.Json.Parse.{
  Parser, peek_token, peek_with, next, next_of, eat, expect, type_eq, value_of, value_peeked, value,
  items, fields, eat_separator, get_double, get_bool, get_string, closes, assign, parse_all,
  with_scan,
}
use gabby.Json.Total.Scan.{weight, scan_skip_whitespace-Yields}
use gabby.Json.Total.Bytes.{size}

abbrev State : Type 0
State = Parser View

-- the bytes left, and the token held
abbrev measure : State → ℕ
measure p = weight p.lookahead + size p.scan

abbrev Ends : {A : Type 0} → ℕ → Run State A → Type 0
Ends n m = (p : State) → measure p ≤ n → Ensures (λ x. measure x.1 ≤ n) (m p)

abbrev Takes : {A : Type 0} → ℕ → Run State A → Type 0
Takes n m = (p : State) → measure p ≤ n → Ensures (λ x. measure x.1 < n) (m p)

module _ {A B : Type 0} {n : ℕ} {m : Run State A} {f : A → Run State B} where
  Ends-bind : Ends n m → ((a : A) → Ends n (f a)) → Ends n (m >>= f)
  Ends-bind h k v l = Ensures-bind (h v l) λ (a, t) p. k a t p

  Takes-bind : Takes n m → ((k : ℕ) → n ≡ suc k → (a : A) → Ends k (f a)) → Takes n (m >>= f)
  Takes-bind h g v l = Ensures-bind (h v l) λ (a, t) p. go a t (n - 1) (omega arith) (omega arith)
    where
      go :
          (a : A) (t : State) (k : ℕ)
          → n ≡ suc k
          → measure t ≤ k
          → Ensures (λ x. measure x.1 < n) (f a t)
      go a t k e p = Ensures-weaken (λ x q. omega arith) (g k e a t p)

  Ends-Takes : Ends n m → ((a : A) → Takes n (f a)) → Takes n (m >>= f)
  Ends-Takes h k v l = Ensures-bind (h v l) λ (a, t) p. k a t p

Takes-Ends : {A : Type 0} {n : ℕ} (m : Run State A) → Takes n m → Ends n m
Takes-Ends m h v l = Ensures-weaken (λ x p. omega arith) (h v l)

Ends-pure : {A : Type 0} {n : ℕ} (a : A) → Ends n (pure a)
Ends-pure a v l = holds l

Ends-elim :
    {A : Type 0} {n : ℕ} (b : Bool) {m k : Run State A}
    → Ends n m
    → Ends n k
    → Ends n (elim b [ true ↦ m | false ↦ k ])
Ends-elim true h g = h
Ends-elim false h g = g

expect-Ends : {n : ℕ} (t : TokenType) (tok : Token) → Ends n (expect t tok)
expect-Ends t tok v l = elim (Bool-cases (type_eq tok.type t)) [
  | inl e ↦ rw e (holds l)
  | inr e ↦ rw e raised
]

get_double-Ends : {n : ℕ} (c : Cargo) → Ends n (get_double c)
get_double-Ends (double d) v l = holds l
get_double-Ends _ v l = raised

get_bool-Ends : {n : ℕ} (c : Cargo) → Ends n (get_bool c)
get_bool-Ends (boolean b) v l = holds l
get_bool-Ends _ v l = raised

get_string-Ends : {n : ℕ} (c : Cargo) → Ends n (get_string c)
get_string-Ends (string s) v l = holds l
get_string-Ends _ v l = raised

module _ (stod : Bytes → Option ℕ) (limit : ℕ) where
  -- `Peek` leaves its token in the lookahead.
  peek_with-Ensures :
      (n : ℕ) (p : State) (o : Option Token)
      → p.lookahead ≡ o
      → measure p ≤ n
      → n < limit
      → Ensures
          (λ (tok, q). (measure q ≤ n) × (q.lookahead ≡ tok))
          (peek_with view_source stod limit o p)
  peek_with-Ensures n p (some tok) e l h = holds (l, e)
  peek_with-Ensures n p none e l h =
      Ensures-bind (scan_skip_whitespace-Yields stod limit n h p.scan (omega arith))
        λ (tok, s) k. holds (k, refl)

  peek_token-Ensures :
      (n : ℕ) (p : State)
      → measure p ≤ n
      → n < limit
      → Ensures
          (λ (tok, q). (measure q ≤ n) × (q.lookahead ≡ tok))
          (peek_token view_source stod limit p)
  unfolding peek_token
  peek_token-Ensures n p = peek_with-Ensures n p p.lookahead refl

  peek_token-Ends : {n : ℕ} → n < limit → Ends n (peek_token view_source stod limit)
  peek_token-Ends {n} h p l = Ensures-weaken (λ x y. y.0) (peek_token-Ensures n p l h)

  next-Takes : {n : ℕ} → n < limit → Takes n (next view_source stod limit)
  unfolding next
  next-Takes {n} h p l = Ensures-bind (peek_token-Ensures n p l h) λ (tok, q) y. taken tok q y.0 y.1
    where
      taken :
          (tok : Option Token) (q : State)
          → measure q ≤ n
          → q.lookahead ≡ tok
          → Ensures (λ x. measure x.1 < n) (next_of tok (with_scan q.scan none))
      taken none q k e = raised
      taken (some tok) q k e = holds (omega (arith, ap weight e))

  eat-Takes : {n : ℕ} (t : TokenType) → n < limit → Takes n (eat view_source stod limit t)
  unfolding eat
  eat-Takes t h = Takes-bind (next-Takes h) λ k e tok. expect-Ends t tok

  eat_separator-Ends :
      {n : ℕ} (first : Bool) → n < limit → Ends n (eat_separator view_source stod limit first)
  eat_separator-Ends true h = Ends-pure tt
  eat_separator-Ends false h = Takes-Ends _ (Takes-bind (eat-Takes comma h) λ k e _. Ends-pure tt)

  module _ {n : ℕ} (h : n < limit) {xs : Run State (List Value)}
      {fs : Run State (List (Bytes × Value))} (ends_items : (k : ℕ) → n ≡ suc k → Ends k xs)
      (ends_fields : (k : ℕ) → n ≡ suc k → Ends k fs) where
    value_of-Takes : (t : TokenType) → Takes n (value_of view_source stod limit xs fs t)
    unfolding value_of
    value_of-Takes num =
        Takes-bind (next-Takes h) λ k e tok. Ends-bind (get_double-Ends tok.cargo) λ d. Ends-pure _
    value_of-Takes str =
        Takes-bind (next-Takes h) λ k e tok. Ends-bind (get_string-Ends tok.cargo) λ s. Ends-pure _
    value_of-Takes bool =
        Takes-bind (next-Takes h) λ k e tok. Ends-bind (get_bool-Ends tok.cargo) λ b. Ends-pure _
    value_of-Takes nil = Takes-bind (next-Takes h) λ k e _. Ends-pure _
    value_of-Takes lbracket = Takes-bind (eat-Takes lbracket h) λ k e _.
        Ends-bind (ends_items k e)
          λ vs. Ends-bind (Takes-Ends _ (eat-Takes rbracket (omega arith))) λ _. Ends-pure _
    value_of-Takes lbrace = Takes-bind (next-Takes h) λ k e _.
        Ends-bind (ends_fields k e)
          λ m. Ends-bind (Takes-Ends _ (eat-Takes rbrace (omega arith))) λ _. Ends-pure _
    value_of-Takes _ = λ p l. raised

    value_peeked-Takes : (o : Option Token) → Takes n (value_peeked view_source stod limit xs fs o)
    value_peeked-Takes none = λ p l. raised
    value_peeked-Takes (some tok) = value_of-Takes tok.type

  mutual
    unfolding value

    value-Takes : (f n : ℕ) → n < limit → 2 * n < f → Takes n (value view_source stod limit f)
    value-Takes zero n h k = absurd (omega arith)
    value-Takes (suc f) n h k = Ends-Takes (peek_token-Ends h) λ o.
        value_peeked-Takes h (λ j e. items-Ends f j [] (omega arith) (omega arith))
          (λ j e. fields-Ends f j [] (omega arith) (omega arith)) o

    items-Ends :
        (f n : ℕ) (vs : List Value)
        → n < limit
        → suc (2 * n) < f
        → Ends n (items view_source stod limit f vs)
    items-Ends zero n vs h k = absurd (omega arith)
    items-Ends (suc f) n vs h k = Ends-bind (peek_token-Ends h) λ o.
        Ends-elim (closes rbracket o) (Ends-pure vs) (
          Ends-bind (eat_separator-Ends (is_empty vs) h) λ _. Takes-Ends _ (
            Takes-bind (value-Takes f n h (omega arith))
              λ j e v. items-Ends f j (vs ++ v ∷ []) (omega arith) (omega arith)))

    fields-Ends :
        (f n : ℕ) (m : List (Bytes × Value))
        → n < limit
        → suc (2 * n) < f
        → Ends n (fields view_source stod limit f m)
    fields-Ends zero n m h k = absurd (omega arith)
    fields-Ends (suc f) n m h k = Ends-bind (peek_token-Ends h) λ o.
        Ends-elim (closes rbrace o) (Ends-pure m) (
          Ends-bind (eat_separator-Ends (is_empty m) h) λ _.
            Ends-bind (Takes-Ends _ (eat-Takes str h)) λ tok.
              Ends-bind (get_string-Ends tok.cargo) λ key.
                Ends-bind (Takes-Ends _ (eat-Takes colon h)) λ _. Takes-Ends _ (
                  Takes-bind (value-Takes f n h (omega arith))
                    λ j e v. fields-Ends f j (assign m key v) (omega arith) (omega arith)))

  -- With more fuel than twice the bytes, the parser ends in a value or an exception.
  pub parse_all-Ensures :
      (f : ℕ) (v : View)
      → size v < limit
      → 2 * size v < f
      → Ensures (λ _. Unit {0}) (parse_all view_source stod limit f v)
  unfolding parse_all
  parse_all-Ensures f v h k =
      Ensures-bind (value-Takes f (size v) h k (with_scan v none) (omega arith))
        λ (w, p) l. finished w p
    where
      finished :
          (w : Value) (p : State)
          → Ensures {A = Value × View}
              (λ _. Unit {0})
              (if view_source.at_size p.scan
                then ok (w, p.scan)
                else throws (parsing_error (codes "unexpected trailing data")))
      finished w p = elim (Bool-cases (view_source.at_size p.scan)) [
        | inl e ↦ rw e (holds tt)
        | inr e ↦ rw e raised
      ]
