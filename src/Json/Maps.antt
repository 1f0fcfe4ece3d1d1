-- ===== src/Json/Maps.antt =====
-- src/json/parser.cc, `values[key] = value`: the map of an object has no key twice.
use gabby.Base.{
  bytes_eq_comm, false, none, some, inl, inr, Bool-cases, List, [], ◌∷◌, ◌++◌, Bytes, bytes_eq,
  if◌then◌else◌, ◌≡◌, refl, ap, ◌∙◌,
}
use gabby.Json.Value.{
  Value, nil_value, boolean, number, string, array_value, object, Items, no_items, item, Fields,
  no_fields, field, find,
}
use gabby.Json.Parse.{assign, to_items, to_fields}
use gabby.Json.Keys.{find-assign}
use gabby.Json.RoundTrip.Printable.{IsMap}

-- No object of the value has a key twice.
abbrev mutual
  pub HasMaps : Value → Type 0
  HasMaps nil_value = Unit
  HasMaps (boolean b) = Unit
  HasMaps (number d) = Unit
  HasMaps (string s) = Unit
  HasMaps (array_value xs) = ItemsHaveMaps xs
  HasMaps (object fs) = IsMap fs × FieldsHaveMaps fs

  pub ItemsHaveMaps : Items → Type 0
  ItemsHaveMaps no_items = Unit
  ItemsHaveMaps (item v xs) = HasMaps v × ItemsHaveMaps xs

  pub FieldsHaveMaps : Fields → Type 0
  FieldsHaveMaps no_fields = Unit
  FieldsHaveMaps (field k v fs) = HasMaps v × FieldsHaveMaps fs

abbrev pub ListHasMaps : List (Bytes × Value) → Type 0
ListHasMaps m = IsMap (to_fields m) × FieldsHaveMaps (to_fields m)

pub assign-IsMap :
    (m : List (Bytes × Value)) (k : Bytes) (v : Value)
    → IsMap (to_fields m)
    → IsMap (to_fields (assign m k v))
unfolding assign find
assign-IsMap [] k v p = (refl, tt)
assign-IsMap ((j, w) ∷ m) k v (absent, p) = elim (Bool-cases (bytes_eq j k)) [
  | inl e ↦ rw e (absent, p)
  | inr e ↦ rw e (still_absent (bytes_eq_comm k j ∙ e), assign-IsMap m k v p)
]
  where
    still_absent : bytes_eq k j ≡ false → find (to_fields (assign m k v)) j ≡ none
    still_absent apart =
        find-assign m k j v ∙ ap (λ b. if b then some v else find (to_fields m) j) apart ∙ absent

pub assign-FieldsHaveMaps :
    (m : List (Bytes × Value)) (k : Bytes) (v : Value)
    → HasMaps v
    → FieldsHaveMaps (to_fields m)
    → FieldsHaveMaps (to_fields (assign m k v))
unfolding assign
assign-FieldsHaveMaps [] k v p q = (p, tt)
assign-FieldsHaveMaps ((j, w) ∷ m) k v p (r, q) = elim (Bool-cases (bytes_eq j k)) [
  | inl e ↦ rw e (p, q)
  | inr e ↦ rw e (r, assign-FieldsHaveMaps m k v p q)
]

pub append-ItemsHaveMaps :
    (vs : List Value) (v : Value)
    → ItemsHaveMaps (to_items vs)
    → HasMaps v
    → ItemsHaveMaps (to_items (vs ++ v ∷ []))
append-ItemsHaveMaps [] v p q = (q, tt)
append-ItemsHaveMaps (w ∷ vs) v (r, p) q = (r, append-ItemsHaveMaps vs v p q)
