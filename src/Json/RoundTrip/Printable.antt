-- ===== src/Json/RoundTrip/Printable.antt =====
-- The values that `print` writes as JSON text: no string holds a quote, a backslash or a newline, each
-- number is written as a numeral that reads back, and no key stands twice in an object.
use gabby.Base.{
  ℕ, Bool, true, false, Option, none, some, inl, inr, Bool-cases, List, [], ◌∷◌, ◌++◌, Bytes,
  bytes_eq, bytes_eq_iff, ◌≡◌, refl, ap, arith,
}
use gabby.Json.Value.{
  Value, Items, Fields, nil_value, boolean, number, string, array_value, object, no_items, item,
  no_fields, field, find, print,
}
use gabby.Json.Parse.{assign}
use gabby.Json.RoundTrip.Tokens.{IsPlain, trim}
use gabby.Json.RoundTrip.Numerals.{Numeral, IsNumeral, text, sign_text, body}

-- No key of a map stands twice.
abbrev pub IsMap : Fields → Type 0
IsMap no_fields = Unit
IsMap (field k v fs) = (find fs k ≡ none) × IsMap fs

-- How a number is written, and that it reads back.
pub record Written (show_double : ℕ → Bytes) (stod : Bytes → Option ℕ) (d : ℕ) : Type 0 where
  pub numeral : Numeral
  pub well_formed : IsNumeral numeral
  pub shown : show_double d ≡ text numeral
  pub reads_back : stod (text numeral) ≡ some d

-- No string or key holds a quote, a backslash or a newline, no key stands twice, and `P` holds of the
-- numbers.
module _ (P : ℕ → Type 0) where
  abbrev mutual
    pub HasText : Value → Type 0
    HasText nil_value = Unit
    HasText (boolean b) = Unit
    HasText (number d) = P d
    HasText (string s) = IsPlain s
    HasText (array_value xs) = ItemsHaveText xs
    HasText (object fs) = IsMap fs × FieldsHaveText fs

    pub ItemsHaveText : Items → Type 0
    ItemsHaveText no_items = Unit
    ItemsHaveText (item v xs) = HasText v × ItemsHaveText xs

    pub FieldsHaveText : Fields → Type 0
    FieldsHaveText no_fields = Unit
    FieldsHaveText (field k v fs) = IsPlain k × (HasText v × FieldsHaveText fs)

module _ (show_double : ℕ → Bytes) (stod : Bytes → Option ℕ) where
  abbrev pub IsPrintable : Value → Type 0
  IsPrintable = HasText (Written show_double stod)

  abbrev pub ItemsPrintable : Items → Type 0
  ItemsPrintable = ItemsHaveText (Written show_double stod)

  abbrev pub FieldsPrintable : Fields → Type 0
  FieldsPrintable = FieldsHaveText (Written show_double stod)

  numeral-trim :
      (n : Numeral) (negative : Bool) (rest : Bytes)
      → IsNumeral n
      → trim ((sign_text negative ++ body n) ++ rest) ≡ (sign_text negative ++ body n) ++ rest
  numeral-trim n true rest v = refl
  numeral-trim n false rest v = ground arith

  -- A printed value starts with no whitespace.
  pub trim-print :
      (v : Value) (rest : Bytes)
      → IsPrintable v
      → trim (print show_double v ++ rest) ≡ print show_double v ++ rest
  unfolding print
  trim-print nil_value rest p = refl
  trim-print (boolean true) rest p = refl
  trim-print (boolean false) rest p = refl
  trim-print (number d) rest p =
      rw p.shown (numeral-trim p.numeral p.numeral.negative rest p.well_formed)
  trim-print (string s) rest p = refl
  trim-print (array_value xs) rest p = refl
  trim-print (object fs) rest p = refl

abbrev pub Absent : Bytes → List (Bytes × Value) → Type 0
Absent k [] = Unit
Absent k ((j, w) ∷ m) = (bytes_eq j k ≡ false) × Absent k m

-- No key of the fields stands in the map.
abbrev pub Apart : List (Bytes × Value) → Fields → Type 0
Apart m no_fields = Unit
Apart m (field k v fs) = Absent k m × Apart m fs

pub assign-Absent :
    (m : List (Bytes × Value)) (k : Bytes) (v : Value)
    → Absent k m
    → assign m k v ≡ m ++ (k, v) ∷ []
unfolding assign
assign-Absent [] k v h = refl
assign-Absent ((j, w) ∷ m) k v h = rw h.0 (ap (◌∷◌ (j, w)) (assign-Absent m k v h.1))

bytes_eq_sym : (a b : Bytes) → bytes_eq a b ≡ false → bytes_eq b a ≡ false
bytes_eq_sym a b h = ground (arith, bytes_eq_iff a b, bytes_eq_iff b a)

Absent-append :
    (m : List (Bytes × Value)) (j k : Bytes) (v : Value)
    → Absent j m
    → bytes_eq k j ≡ false
    → Absent j (m ++ (k, v) ∷ [])
Absent-append [] j k v h e = (e, tt)
Absent-append ((i, w) ∷ m) j k v h e = (h.0, Absent-append m j k v h.1 e)

pub Apart-append :
    (m : List (Bytes × Value)) (k : Bytes) (v : Value) (fs : Fields)
    → Apart m fs
    → find fs k ≡ none
    → Apart (m ++ (k, v) ∷ []) fs
unfolding find
Apart-append m k v no_fields h e = tt
Apart-append m k v (field j w fs) h e = elim (Bool-cases (bytes_eq j k)) [
  | inl same ↦ cc (rw same at e)
  | inr other ↦ (
    Absent-append m j k v h.0 (bytes_eq_sym j k other),
    Apart-append m k v fs h.1 (rw other at e),
  )
]

pub Apart-nil : (fs : Fields) → Apart [] fs
Apart-nil no_fields = tt
Apart-nil (field k v fs) = (tt, Apart-nil fs)
