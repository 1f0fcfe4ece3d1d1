-- ===== src/Json/RoundTrip/Checked.antt =====
-- A test for the values that `operator<<` (src/json/json.h) writes as JSON text, over a test for their
-- numbers.
use gabby.Base.{
  ℕ, Bool, true, not, ◌&&◌, Option, none, some, has_value, all, and_left, and_right, ◌≡◌, refl,
}
use gabby.Json.Value.{
  Value, Items, Fields, nil_value, boolean, number, string, array_value, object, no_items, item,
  no_fields, field, find,
}
use gabby.Json.RoundTrip.Tokens.{is_plain, tested-IsPlain}
use gabby.Json.RoundTrip.Printable.{IsMap, HasText, ItemsHaveText, FieldsHaveText}

abbrev is_map : Fields → Bool
is_map no_fields = true
is_map (field k v fs) = not (has_value (find fs k)) && is_map fs

absent : (o : Option Value) → not (has_value o) ≡ true → o ≡ none
absent none h = refl
absent (some v) h = cc

is_map-IsMap : (fs : Fields) → is_map fs ≡ true → IsMap fs
is_map-IsMap no_fields h = tt
is_map-IsMap (field k v fs) h =
    (absent (find fs k) (and_left _ _ h), is_map-IsMap fs (and_right _ _ h))

module _ (written : ℕ → Bool) where
  abbrev mutual
    pub printable : Value → Bool
    printable nil_value = true
    printable (boolean b) = true
    printable (number d) = written d
    printable (string s) = all is_plain s
    printable (array_value xs) = items_printable xs
    printable (object fs) = is_map fs && fields_printable fs

    pub items_printable : Items → Bool
    items_printable no_items = true
    items_printable (item v xs) = printable v && items_printable xs

    pub fields_printable : Fields → Bool
    fields_printable no_fields = true
    fields_printable (field k v fs) = all is_plain k && (printable v && fields_printable fs)

  module _ (P : ℕ → Type 0) (sound : (d : ℕ) → written d ≡ true → P d) where
    mutual
      pub printable-HasText : (v : Value) → printable v ≡ true → HasText P v
      printable-HasText nil_value h = tt
      printable-HasText (boolean b) h = tt
      printable-HasText (number d) h = sound d h
      printable-HasText (string s) h = tested-IsPlain s h
      printable-HasText (array_value xs) h = items-Printable xs h
      printable-HasText (object fs) h =
          (is_map-IsMap fs (and_left _ _ h), fields-Printable fs (and_right _ _ h))

      items-Printable : (xs : Items) → items_printable xs ≡ true → ItemsHaveText P xs
      items-Printable no_items h = tt
      items-Printable (item v xs) h =
          (printable-HasText v (and_left _ _ h), items-Printable xs (and_right _ _ h))

      fields-Printable : (fs : Fields) → fields_printable fs ≡ true → FieldsHaveText P fs
      fields-Printable no_fields h = tt
      fields-Printable (field k v fs) h = (
        tested-IsPlain k (and_left _ _ h),
        (
          printable-HasText v (and_left _ _ (and_right (all is_plain k) _ h)),
          fields-Printable fs (and_right _ _ (and_right (all is_plain k) _ h)),
        ),
      )
