-- ===== src/Json/Symmetry.antt =====
-- src/json/json.h, `==`: the operands may change sides.
use gabby.Base.{
  ℕ, Bool, true, false, ◌&&◌, subst, some, inl, inr, Bool-cases, Bytes, bytes_eq, bytes_eq_comm,
  ◌==◌, ==_iff, ◌≡◌, refl, sym, ◌∙◌,
}
use gabby.Json.Value.{
  Value, nil_value, boolean, number, string, array_value, object, Items, no_items, item, Fields,
  no_fields, field, equals, equals_swapped, items_equal, items_equal_swapped, fields_found,
  all_fields, items_size, fields_size, find,
}
use gabby.Json.RoundTrip.Printable.{IsMap}
use gabby.Json.Maps.{HasMaps, ItemsHaveMaps, FieldsHaveMaps}
use gabby.Json.Covers.{covers, Covers-flip, covers-Covers, Covers-covers}
use gabby.Json.Swap.{
  ==_comm, bool_eq_comm, double_eq_comm, and_ext, found_equals-find, found_and-ext, all_fields-ext,
  swapped,
}

find-HasMaps :
    (gs : Fields) (k : Bytes) {w : Value} → FieldsHaveMaps gs → find gs k ≡ some w → HasMaps w
unfolding find
find-HasMaps no_fields k p h = cc
find-HasMaps (field j u gs) k {w} (p, q) h = elim (Bool-cases (bytes_eq j k)) [
  | inl e ↦ subst_maps (rw e at h)
  | inr e ↦ find-HasMaps gs k q (rw e at h)
]
  where
    one_value : some u ≡ some w → u ≡ w
    one_value e = cc (e)

    subst_maps : some u ≡ some w → HasMaps w
    subst_maps e = subst HasMaps (one_value e) p

bool_ext : (a b : Bool) → (a ≡ true → b ≡ true) → (b ≡ true → a ≡ true) → a ≡ b
bool_ext true b f g = sym (f refl)
bool_ext false true f g = g refl
bool_ext false false f g = refl

-- Two maps of one size cover each other.
covers-flip :
    (fs gs : Fields)
    → IsMap fs
    → IsMap gs
    → fields_size fs ≡ fields_size gs
    → covers (λ w v. equals v w) gs fs ≡ covers equals fs gs
covers-flip fs gs m n e =
    bool_ext (covers (λ w v. equals v w) gs fs) (covers equals fs gs)
      (λ h. Covers-covers equals fs gs m (
        Covers-flip (λ w v. equals v w) gs fs n (sym e)
          (covers-Covers (λ w v. equals v w) gs fs h)))
      (λ h.
        Covers-covers (λ w v. equals v w) gs fs n
          (Covers-flip equals fs gs m e (covers-Covers equals fs gs h)))

-- The test of the sizes comes first.
sized_ext : (a b : ℕ) {c d : Bool} → (a ≡ b → c ≡ d) → ((b == a) && c) ≡ ((a == b) && d)
sized_ext a b f = elim (Bool-cases (a == b)) [
  | inl e ↦ rw (==_comm b a, e) (f ((==_iff a b).0 e))
  | inr e ↦ rw (==_comm b a, e) refl
]

mutual
  unfolding equals equals_swapped items_equal items_equal_swapped fields_found all_fields

  straight : (v w : Value) → HasMaps v → HasMaps w → equals v w ≡ equals_swapped v w
  straight nil_value nil_value p q = refl
  straight (boolean a) (boolean b) p q = bool_eq_comm b a
  straight (number a) (number b) p q = double_eq_comm b a
  straight (string a) (string b) p q = bytes_eq_comm b a
  straight (array_value xs) (array_value ys) p q =
      sized_ext (items_size xs) (items_size ys) (λ _. straight_items xs ys p q)
  straight (object fs) (object gs) (m, p) (n, q) = sized_ext (fields_size fs) (fields_size gs) (λ e.
      all_fields-ext gs _ _ (λ k v. found_equals-find fs k v)
      ∙ (covers-flip fs gs m n e ∙ straight_fields fs gs p q))
  straight _ _ p q = refl

  straight_items :
      (xs ys : Items)
      → ItemsHaveMaps xs
      → ItemsHaveMaps ys
      → items_equal_swapped xs ys ≡ items_equal xs ys
  straight_items no_items no_items p q = refl
  straight_items no_items (item y ys) p q = refl
  straight_items (item x xs) no_items p q = refl
  straight_items (item x xs) (item y ys) (p, p') (q, q') =
      and_ext (sym (straight x y p q)) (straight_items xs ys p' q')

  straight_fields :
      (fs gs : Fields)
      → FieldsHaveMaps fs
      → FieldsHaveMaps gs
      → covers equals fs gs ≡ fields_found fs gs
  straight_fields no_fields gs p q = refl
  straight_fields (field k v fs) gs (p, p') q =
      and_ext (found_and-ext (find gs k) _ _ (λ w h. straight v w p (find-HasMaps gs k q h)))
        (straight_fields fs gs p' q)

-- Two values in whose objects no key stands twice are equal in the one order of the operands exactly
-- where they are in the other.
pub equals_comm : (v w : Value) → HasMaps v → HasMaps w → equals v w ≡ equals w v
equals_comm v w p q = straight v w p q ∙ swapped v w
