-- ===== src/Json/RoundTrip/Values.antt =====
-- The parser on printed values: by induction on the value, with any rest behind the text.
use gabby.Base.{
  ℕ, zero, suc, ◌<◌, true, false, Option, some, List, [], ◌∷◌, ◌++◌, Bytes, is_empty, length, ◌≡◌,
  refl, ◌∙◌, arith,
}
use gabby.Outcome.{ok, bind, step, Run}
use gabby.Json.Value.{Value, array_value, object}
use gabby.Json.Source.{View, view_source}
use gabby.Json.Scan.{TokenType, Token}
use gabby.Json.Parse.{
  Parser, eat, value_of, value, items, fields, assign, to_items, to_fields, type_eq,
}
use gabby.Json.RoundTrip.Tokens.{
  trim, run_false, IsPlain, Scans, string-Scans, lbracket-Scans, rbracket-Scans, lbrace-Scans,
  rbrace-Scans, comma-Scans, colon-Scans,
}
use gabby.Json.RoundTrip.Printable.{Absent, assign-Absent}
use gabby.Json.RoundTrip.Peeks.{
  before, holding, bracket, brace, peek-Scans, eat-Scans, value-after_peek, next-holding,
  eat-holding, FirstToken,
}

module _ (stod : Bytes → Option ℕ) (limit : ℕ) where
  pub value-array :
      (f : ℕ) (inner r : Bytes) (vs : List Value)
      → trim inner ≡ inner
      → suc (length inner) < limit
      → items view_source stod limit f [] (before inner) ≡ ok (vs, holding bracket r)
      → value view_source stod limit (suc f) (before (b'[' ∷ inner))
        ≡ ok (array_value (to_items vs), before r)
  unfolding value value_of
  value-array f inner r vs t h e =
      step _ (peek-Scans stod limit (b'[' ∷ []) inner _ (lbracket-Scans stod limit inner) h) (
        step _ (eat-holding stod limit _ (trim inner) refl)
          (rw t (step _ e (step _ (eat-holding stod limit bracket r refl) refl))))

  pub value-object :
      (f : ℕ) (inner r : Bytes) (m : List (Bytes × Value))
      → trim inner ≡ inner
      → suc (length inner) < limit
      → fields view_source stod limit f [] (before inner) ≡ ok (m, holding brace r)
      → value view_source stod limit (suc f) (before (b'{' ∷ inner))
        ≡ ok (object (to_fields m), before r)
  unfolding value value_of
  value-object f inner r m t h e =
      step _ (peek-Scans stod limit (b'{' ∷ []) inner _ (lbrace-Scans stod limit inner) h) (
        step _ (next-holding stod limit _ (trim inner))
          (rw t (step _ e (step _ (eat-holding stod limit brace r refl) refl))))

  -- a value behind a string token, or another token that is a value by itself
  pub items_first :
      (f : ℕ) (acc : List Value) (s r : Bytes) (v : Value)
      → is_empty acc ≡ true
      → FirstToken stod limit s
      → value view_source stod limit f (before s) ≡ ok (v, before r)
      → items view_source stod limit (suc f) acc (before s)
        ≡ items view_source stod limit f (acc ++ v ∷ []) (before r)
  unfolding value
  items_first f acc s r v e t read = step _ t.peeked (
      run_false (type_eq t.tok.type TokenType.rbracket) _ _ t.no_bracket (
        rw e
          (step _ (value-after_peek stod limit f (before s) t.tok t.behind t.peeked ∙ read) refl)))

  pub items_next :
      (f : ℕ) (acc : List Value) (s r : Bytes) (v : Value)
      → is_empty acc ≡ false
      → trim s ≡ s
      → suc (suc (length s)) < limit
      → value view_source stod limit f (before s) ≡ ok (v, before r)
      → items view_source stod limit (suc f) acc (before (b',' ∷ b' ' ∷ s))
        ≡ items view_source stod limit f (acc ++ v ∷ []) (before r)
  unfolding value
  items_next f acc s r v e t h read =
      step _ (peek-Scans stod limit (b',' ∷ []) (b' ' ∷ s) _ (comma-Scans stod limit (b' ' ∷ s)) h)
        (rw e
          (step _ (step _ (eat-holding stod limit _ (trim s) refl) refl) (rw t (step _ read refl))))

  -- what stands behind the separator: the key, the colon and the value
  field_read :
      (f : ℕ) (m : List (Bytes × Value)) (k s r : Bytes) (v : Value)
      → IsPlain k
      → Absent k m
      → trim s ≡ s
      → suc (suc (length s)) < limit
      → value view_source stod limit f (before s) ≡ ok (v, before r)
      → bind (eat view_source stod limit TokenType.colon (before (b':' ∷ b' ' ∷ s))) (λ (_, p).
        bind
          (value view_source stod limit f p)
          λ (w, q). fields view_source stod limit f (assign m k w) q)
        ≡ fields view_source stod limit f (m ++ (k, v) ∷ []) (before r)
  field_read f m k s r v plain absent t h read =
      step _
        (eat-Scans stod limit (b':' ∷ []) (b' ' ∷ s) _ refl (colon-Scans stod limit (b' ' ∷ s)) h)
        (rw t (step _ read (rw (assign-Absent m k v absent))))

  pub fields_first :
      (f : ℕ) (m : List (Bytes × Value)) (k s r : Bytes) (v : Value)
      → is_empty m ≡ true
      → IsPlain k
      → Absent k m
      → trim s ≡ s
      → length ((b'"' ∷ (k ++ b'"' ∷ [])) ++ b':' ∷ b' ' ∷ s) < limit
      → suc (suc (length s)) < limit
      → value view_source stod limit f (before s) ≡ ok (v, before r)
      → fields view_source stod limit
          (suc f)
          m
          (before ((b'"' ∷ (k ++ b'"' ∷ [])) ++ b':' ∷ b' ' ∷ s))
        ≡ fields view_source stod limit f (m ++ (k, v) ∷ []) (before r)
  unfolding value
  fields_first f m k s r v e plain absent t h h' read =
      step _
        (peek-Scans stod limit (b'"' ∷ (k ++ b'"' ∷ [])) (b':' ∷ b' ' ∷ s) _
          (string-Scans stod limit k (b':' ∷ b' ' ∷ s) plain) h)
        (rw e (
          step _ (eat-holding stod limit _ (b':' ∷ b' ' ∷ s) refl)
            (field_read f m k s r v plain absent t h' read)))

  pub fields_next :
      (f : ℕ) (m : List (Bytes × Value)) (k s r : Bytes) (v : Value)
      → is_empty m ≡ false
      → IsPlain k
      → Absent k m
      → trim s ≡ s
      → suc (suc (length ((b'"' ∷ (k ++ b'"' ∷ [])) ++ b':' ∷ b' ' ∷ s))) < limit
      → suc (suc (length s)) < limit
      → value view_source stod limit f (before s) ≡ ok (v, before r)
      → fields view_source stod limit
          (suc f)
          m
          (before (b',' ∷ b' ' ∷ ((b'"' ∷ (k ++ b'"' ∷ [])) ++ b':' ∷ b' ' ∷ s)))
        ≡ fields view_source stod limit f (m ++ (k, v) ∷ []) (before r)
  unfolding value
  fields_next f m k s r v e plain absent t h h' read =
      step _ (peek-Scans stod limit (b',' ∷ []) _ _ (comma-Scans stod limit _) h) (
        rw e (
          step _ (step _ (eat-holding stod limit _ _ refl) refl) (
            step _
              (eat-Scans stod limit (b'"' ∷ (k ++ b'"' ∷ [])) (b':' ∷ b' ' ∷ s) _ refl
                (string-Scans stod limit k (b':' ∷ b' ' ∷ s) plain) (omega arith))
              (field_read f m k s r v plain absent t h' read))))

  -- a value of one token
  pub value-leaf :
      (f : ℕ) (s rest : Bytes) (tok : Token) (v : Value)
      → Scans stod limit s (some tok) rest
      → ((xs : Run (Parser View) (List Value)) (fs : Run (Parser View) (List (Bytes × Value)))
          → value_of view_source stod limit xs fs tok.type (holding tok (trim rest))
            ≡ ok (v, before (trim rest)))
      → 0 < f
      → length (s ++ rest) < limit
      → value view_source stod limit f (before (s ++ rest)) ≡ ok (v, before (trim rest))
  unfolding value
  value-leaf zero s rest tok v scans read k h = absurd (omega arith)
  value-leaf (suc f) s rest tok v scans read k h =
      step _ (peek-Scans stod limit s rest tok scans h) (read _ _)

  pub items_end :
      (f : ℕ) (acc : List Value) (rest : Bytes)
      → suc (length rest) < limit
      → items view_source stod limit (suc f) acc (before (b']' ∷ rest))
        ≡ ok (acc, holding bracket (trim rest))
  unfolding value
  items_end f acc rest h =
      step _ (peek-Scans stod limit (b']' ∷ []) rest bracket (rbracket-Scans stod limit rest) h)
        refl

  pub fields_end :
      (f : ℕ) (m : List (Bytes × Value)) (rest : Bytes)
      → suc (length rest) < limit
      → fields view_source stod limit (suc f) m (before (b'}' ∷ rest))
        ≡ ok (m, holding brace (trim rest))
  unfolding value
  fields_end f m rest h =
      step _ (peek-Scans stod limit (b'}' ∷ []) rest brace (rbrace-Scans stod limit rest) h) refl
