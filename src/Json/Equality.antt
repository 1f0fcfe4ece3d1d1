-- ===== src/Json/Equality.antt =====
-- src/json/json.h, `==`: every value that holds no NaN is equal to itself.
use gabby.Base.{
  bytes_eq_comm, ℕ, Bool, true, false, ◌&&◌, none, Bytes, bytes_eq, bytes_eq_refl, ==_iff, ◌≡◌,
  refl, ◌∙◌, Bool-cases, inl, inr,
}
use gabby.Json.Value.{
  Value, nil_value, boolean, number, string, array_value, object, Items, no_items, item, Fields,
  no_fields, field, equals, equals_swapped, items_equal, items_equal_swapped, fields_found,
  found_equals, all_fields, items_size, fields_size, find, found_and, is_nan, double_eq, bool_eq,
}
use gabby.Json.RoundTrip.Printable.{IsMap}

-- Every number is one, and no object has a key twice.
abbrev mutual
  pub IsComparable : Value → Type 0
  IsComparable nil_value = Unit
  IsComparable (boolean b) = Unit
  IsComparable (number d) = is_nan d ≡ false
  IsComparable (string s) = Unit
  IsComparable (array_value xs) = ItemsComparable xs
  IsComparable (object fs) = IsMap fs × FieldsComparable fs

  pub ItemsComparable : Items → Type 0
  ItemsComparable no_items = Unit
  ItemsComparable (item v xs) = IsComparable v × ItemsComparable xs

  pub FieldsComparable : Fields → Type 0
  FieldsComparable no_fields = Unit
  FieldsComparable (field k v fs) = IsComparable v × FieldsComparable fs

double_eq_refl : (d : ℕ) → is_nan d ≡ false → double_eq d d ≡ true
unfolding double_eq
double_eq_refl d h = rw (h, (==_iff d d).1 refl) refl

bool_eq_refl : (b : Bool) → bool_eq b b ≡ true
unfolding bool_eq
bool_eq_refl true = refl
bool_eq_refl false = refl

-- Two keys of one object differ.
keys_apart :
    (gs : Fields) (j k : Bytes) (v : Value)
    → find (field k v gs) j ≡ none
    → (bytes_eq j k ≡ false) × (find gs j ≡ none)
unfolding find
keys_apart gs j k v h = elim (Bool-cases (bytes_eq k j)) [
  | inl same ↦ cc (rw same at h)
  | inr apart ↦ (bytes_eq_comm j k ∙ apart, rw apart at h)
]

-- A field makes no difference to the search for other keys.
all_fields-behind :
    (gs fs : Fields) (j : Bytes) (w : Value)
    → find gs j ≡ none
    → all_fields gs (λ k v. found_equals (field j w fs) k v)
      ≡ all_fields gs (λ k v. found_equals fs k v)
unfolding all_fields found_equals
all_fields-behind no_fields fs j w h = refl
all_fields-behind (field k v gs) fs j w h =
    let (apart, rest) = keys_apart gs j k v h in rw (apart, all_fields-behind gs fs j w rest) refl

fields_found-behind :
    (gs fs : Fields) (j : Bytes) (w : Value)
    → find gs j ≡ none
    → fields_found gs (field j w fs) ≡ fields_found gs fs
unfolding fields_found find
fields_found-behind no_fields fs j w h = refl
fields_found-behind (field k v gs) fs j w h =
    let (apart, rest) = keys_apart gs j k v h in rw (apart, fields_found-behind gs fs j w rest) refl

and_true : {a b : Bool} → a ≡ true → b ≡ true → (a && b) ≡ true
and_true p q = rw (p, q) refl

found_equals-own :
    (fs : Fields) (k : Bytes) (v : Value)
    → equals v v ≡ true
    → found_equals (field k v fs) k v ≡ true
unfolding found_equals
found_equals-own fs k v e = rw (bytes_eq_refl k) e

found_and-own :
    (fs : Fields) (k : Bytes) (v : Value)
    → equals_swapped v v ≡ true
    → found_and (find (field k v fs) k) (λ w. equals_swapped v w) ≡ true
unfolding find
found_and-own fs k v e = rw (bytes_eq_refl k) e

-- An object finds its own field first, and then the fields behind it.
all_fields-own :
    (fs : Fields) (k : Bytes) (v : Value)
    → equals v v ≡ true
    → find fs k ≡ none
    → all_fields fs (λ k v. found_equals fs k v) ≡ true
    → all_fields (field k v fs) (λ j w. found_equals (field k v fs) j w) ≡ true
unfolding all_fields found_equals
all_fields-own fs k v e absent h =
    and_true (found_equals-own fs k v e) (all_fields-behind fs fs k v absent ∙ h)

fields_found-own :
    (fs : Fields) (k : Bytes) (v : Value)
    → equals_swapped v v ≡ true
    → find fs k ≡ none
    → fields_found fs fs ≡ true
    → fields_found (field k v fs) (field k v fs) ≡ true
unfolding fields_found find
fields_found-own fs k v e absent h =
    and_true (found_and-own fs k v e) (fields_found-behind fs fs k v absent ∙ h)

mutual
  unfolding equals equals_swapped items_equal items_equal_swapped

  equals-same : (v : Value) → IsComparable v → equals v v ≡ true
  equals-same nil_value p = refl
  equals-same (boolean b) p = bool_eq_refl b
  equals-same (number d) p = double_eq_refl d p
  equals-same (string s) p = bytes_eq_refl s
  equals-same (array_value xs) p =
      and_true ((==_iff (items_size xs) (items_size xs)).1 refl) (items_equal_swapped-same xs p)
  equals-same (object fs) (m, p) =
      and_true ((==_iff (fields_size fs) (fields_size fs)).1 refl) (all_fields-same fs m p)

  equals_swapped-same : (v : Value) → IsComparable v → equals_swapped v v ≡ true
  equals_swapped-same nil_value p = refl
  equals_swapped-same (boolean b) p = bool_eq_refl b
  equals_swapped-same (number d) p = double_eq_refl d p
  equals_swapped-same (string s) p = bytes_eq_refl s
  equals_swapped-same (array_value xs) p =
      and_true ((==_iff (items_size xs) (items_size xs)).1 refl) (items_equal-same xs p)
  equals_swapped-same (object fs) (m, p) =
      and_true ((==_iff (fields_size fs) (fields_size fs)).1 refl) (fields_found-same fs m p)

  items_equal-same : (xs : Items) → ItemsComparable xs → items_equal xs xs ≡ true
  items_equal-same no_items p = refl
  items_equal-same (item v xs) (p, q) = and_true (equals-same v p) (items_equal-same xs q)

  items_equal_swapped-same : (xs : Items) → ItemsComparable xs → items_equal_swapped xs xs ≡ true
  items_equal_swapped-same no_items p = refl
  items_equal_swapped-same (item v xs) (p, q) =
      and_true (equals_swapped-same v p) (items_equal_swapped-same xs q)

  all_fields-same :
      (fs : Fields)
      → IsMap fs
      → FieldsComparable fs
      → all_fields fs (λ k v. found_equals fs k v) ≡ true
  all_fields-same no_fields m p = refl
  all_fields-same (field k v fs) (absent, m) (p, q) =
      all_fields-own fs k v (equals-same v p) absent (all_fields-same fs m q)

  fields_found-same : (fs : Fields) → IsMap fs → FieldsComparable fs → fields_found fs fs ≡ true
  fields_found-same no_fields m p = refl
  fields_found-same (field k v fs) (absent, m) (p, q) =
      fields_found-own fs k v (equals_swapped-same v p) absent (fields_found-same fs m q)

-- A value that holds no NaN, and in whose objects no key stands twice, is equal to itself, whichever of
-- the two operands `eq` is called on.
pub equals_refl : (v : Value) → IsComparable v → (equals v v ≡ true) × (equals_swapped v v ≡ true)
equals_refl v p = (equals-same v p, equals_swapped-same v p)
