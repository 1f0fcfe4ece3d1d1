-- ===== src/Json/RoundTrip/Places.antt =====
-- What stands behind each place of a printed value: the text of src/json/json.h as the parser meets it.
use gabby.Base.{
  ℕ, suc, ◌+◌, true, false, Option, List, [], ◌∷◌, ◌++◌, Bytes, is_empty, length, length-append,
  ◌≡◌, refl, ap, ◌∙◌, arith, append_assoc,
}
use gabby.Json.Value.{
  Items, Fields, no_items, item, no_fields, field, print, print_items, print_fields,
}
use gabby.Json.RoundTrip.Tokens.{head_of, trim}
use gabby.Json.RoundTrip.Numerals.{ends_number}
use gabby.Json.RoundTrip.Printable.{ItemsPrintable, trim-print}

module _ (show_double : ℕ → Bytes) (stod : Bytes → Option ℕ) (limit : ℕ) where
  -- What follows an element of an array or a field of an object ends a number.
  pub items_tail :
      (xs : Items) (rest : Bytes)
      → ends_number (head_of (print_items show_double xs false ++ b']' ∷ rest)) ≡ true
  unfolding print
  items_tail no_items rest = refl
  items_tail (item v xs) rest = refl

  pub items_trim :
      (xs : Items) (rest : Bytes)
      → trim (print_items show_double xs false ++ b']' ∷ rest)
        ≡ print_items show_double xs false ++ b']' ∷ rest
  unfolding print
  items_trim no_items rest = refl
  items_trim (item v xs) rest = refl

  pub fields_tail :
      (fs : Fields) (rest : Bytes)
      → ends_number (head_of (print_fields show_double fs false ++ b'}' ∷ rest)) ≡ true
  unfolding print
  fields_tail no_fields rest = refl
  fields_tail (field k v fs) rest = refl

  pub fields_trim :
      (fs : Fields) (rest : Bytes)
      → trim (print_fields show_double fs false ++ b'}' ∷ rest)
        ≡ print_fields show_double fs false ++ b'}' ∷ rest
  unfolding print
  fields_trim no_fields rest = refl
  fields_trim (field k v fs) rest = refl

  pub items_start :
      (xs : Items) (rest : Bytes)
      → ItemsPrintable show_double stod xs
      → trim (print_items show_double xs true ++ b']' ∷ rest)
        ≡ print_items show_double xs true ++ b']' ∷ rest
  unfolding print
  items_start no_items rest p = refl
  items_start (item v xs) rest p =
      rw (append_assoc (print show_double v) (print_items show_double xs false) (b']' ∷ rest))
        (trim-print show_double stod v (print_items show_double xs false ++ b']' ∷ rest) p.0)

module _ (show_double : ℕ → Bytes) where
  pub fields_start :
      (fs : Fields) (rest : Bytes)
      → trim (print_fields show_double fs true ++ b'}' ∷ rest)
        ≡ print_fields show_double fs true ++ b'}' ∷ rest
  unfolding print
  fields_start no_fields rest = refl
  fields_start (field k v fs) rest = refl

pub is_empty-append {ℓ} : {A : Type ℓ} (vs : List A) (v : A) → is_empty (vs ++ v ∷ []) ≡ false
is_empty-append [] v = refl
is_empty-append (w ∷ vs) v = refl

pub lengths :
    (a : Bytes) (c : ℕ) (rest : Bytes)
    → (length (a ++ c ∷ []) ≡ suc (length a))
      × ((length (a ++ c ∷ rest) ≡ length a + suc (length rest))
          × (length ((a ++ c ∷ []) ++ rest) ≡ length a + suc (length rest)))
lengths a c rest = (
  length-append a (c ∷ []) ∙ omega arith,
  (length-append a (c ∷ rest), rw append_assoc (length-append a (c ∷ rest))),
)

-- the text of a field, with what stands behind the value
pub field_shape :
    (k pv pf tail : Bytes)
    → (k ++ (b'"' ∷ b':' ∷ b' ' ∷ (pv ++ pf))) ++ tail
      ≡ (k ++ b'"' ∷ []) ++ b':' ∷ b' ' ∷ (pv ++ (pf ++ tail))
field_shape k pv pf tail = simp append_assoc

pub field_length :
    (k pv pf : Bytes)
    → length (b'"' ∷ (k ++ (b'"' ∷ b':' ∷ b' ' ∷ (pv ++ pf))))
      ≡ 4 + (length k + (length pv + length pf))
field_length k pv pf =
    ap suc (length-append k (b'"' ∷ b':' ∷ b' ' ∷ (pv ++ pf))) ∙ omega (arith, length-append pv pf)
