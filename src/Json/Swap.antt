-- ===== src/Json/Swap.antt =====
-- src/json/json.h, `==`: `equals_swapped` is `equals` with its operands on the other sides.
use gabby.Base.{
  ℕ, Bool, true, false, ◌&&◌, ◌||◌, not, Option, none, some, inl, inr, Bool-cases, Bytes, bytes_eq,
  ◌==◌, ==_iff, ◌≡◌, refl, sym, ap, ◌∙◌,
}
use gabby.Json.Value.{
  Value, nil_value, boolean, number, string, array_value, object, Items, no_items, item, Fields,
  no_fields, field, equals, equals_swapped, items_equal, items_equal_swapped, fields_found,
  found_equals, all_fields, items_size, fields_size, find, found_and, double_eq, bool_eq, is_nan,
  magnitude,
}
use gabby.Json.Covers.{covers}

pub ==_comm : (a b : ℕ) → (a == b) ≡ (b == a)
==_comm a b = elim (Bool-cases (a == b)) [
  | inl p ↦ p ∙ sym ((==_iff b a).1 (sym ((==_iff a b).0 p)))
  | inr p ↦ elim (Bool-cases (b == a)) [
    | inl q ↦ cc ((==_iff a b).1 (sym ((==_iff b a).0 q)))
    | inr q ↦ p ∙ sym q
  ]
]

pub bool_eq_comm : (a b : Bool) → bool_eq a b ≡ bool_eq b a
unfolding bool_eq
bool_eq_comm true true = refl
bool_eq_comm true false = refl
bool_eq_comm false true = refl
bool_eq_comm false false = refl

and_comm : (x y : Bool) → (x && y) ≡ (y && x)
and_comm true true = refl
and_comm true false = refl
and_comm false true = refl
and_comm false false = refl

and_swap : (x y : Bool) {a b : Bool} → a ≡ b → (x && y && a) ≡ (y && x && b)
and_swap true true e = e
and_swap true false e = refl
and_swap false true e = refl
and_swap false false e = refl

or_ext : {a b c d : Bool} → a ≡ b → c ≡ d → (a || c) ≡ (b || d)
or_ext p q = rw (p, q) refl

pub double_eq_comm : (a b : ℕ) → double_eq a b ≡ double_eq b a
unfolding double_eq
double_eq_comm a b =
    and_swap (not (is_nan a)) (not (is_nan b))
      (or_ext (==_comm a b) (and_comm (magnitude a == 0) (magnitude b == 0)))

pub and_ext : {a b c d : Bool} → a ≡ b → c ≡ d → (a && c) ≡ (b && d)
and_ext p q = rw (p, q) refl

-- The loop over an object, by what `find` gives.
pub found_equals-find :
    (gs : Fields) (k : Bytes) (v : Value)
    → found_equals gs k v ≡ found_and (find gs k) (λ w. equals w v)
unfolding found_equals find
found_equals-find no_fields k v = refl
found_equals-find (field j w gs) k v = elim (Bool-cases (bytes_eq j k)) [
  | inl e ↦ rw e refl
  | inr e ↦ rw e (found_equals-find gs k v)
]

pub found_and-ext :
    (o : Option Value) (f g : Value → Bool)
    → ((w : Value) → o ≡ some w → f w ≡ g w)
    → found_and o f ≡ found_and o g
found_and-ext none f g h = refl
found_and-ext (some w) f g h = h w refl

pub all_fields-ext :
    (gs : Fields) (f g : Bytes → Value → Bool)
    → ((k : Bytes) (v : Value) → f k v ≡ g k v)
    → all_fields gs f ≡ all_fields gs g
unfolding all_fields
all_fields-ext no_fields f g h = refl
all_fields-ext (field k v gs) f g h = and_ext (h k v) (all_fields-ext gs f g h)

pub fields_found-all : (fs gs : Fields) → fields_found fs gs ≡ covers equals_swapped fs gs
unfolding fields_found all_fields
fields_found-all no_fields gs = refl
fields_found-all (field k v fs) gs =
    ap (λ b. found_and (find gs k) (λ w. equals_swapped v w) && b) (fields_found-all fs gs)

-- `equals_swapped` is `equals` with its operands on the other sides.
mutual
  unfolding equals equals_swapped items_equal items_equal_swapped found_equals find

  swap : (v w : Value) → equals v w ≡ equals_swapped w v
  swap nil_value nil_value = refl
  swap (boolean a) (boolean b) = refl
  swap (number a) (number b) = refl
  swap (string a) (string b) = refl
  swap (array_value xs) (array_value ys) =
      ap (λ b. (items_size ys == items_size xs) && b) (swap_items xs ys)
  swap (object fs) (object gs) =
      ap (λ b. (fields_size gs == fields_size fs) && b)
        (all_fields-ext gs _ _ (λ k v. swap_found fs k v) ∙ sym (fields_found-all gs fs))
  swap _ _ = refl

  pub swapped : (v w : Value) → equals_swapped v w ≡ equals w v
  swapped nil_value nil_value = refl
  swapped (boolean a) (boolean b) = refl
  swapped (number a) (number b) = refl
  swapped (string a) (string b) = refl
  swapped (array_value xs) (array_value ys) =
      ap (λ b. (items_size xs == items_size ys) && b) (swapped_items xs ys)
  swapped (object fs) (object gs) =
      ap (λ b. (fields_size fs == fields_size gs) && b) (swapped_fields fs gs)
  swapped _ _ = refl

  swap_items : (xs ys : Items) → items_equal_swapped xs ys ≡ items_equal ys xs
  swap_items (item x xs) (item y ys) = and_ext (swapped x y) (swap_items xs ys)
  swap_items no_items no_items = refl
  swap_items no_items (item y ys) = refl
  swap_items (item x xs) no_items = refl

  swap_found :
      (fs : Fields) (k : Bytes) (v : Value)
      → found_equals fs k v ≡ found_and (find fs k) (λ w. equals_swapped v w)
  swap_found no_fields k v = refl
  swap_found (field j w fs) k v = elim (Bool-cases (bytes_eq j k)) [
    | inl e ↦ rw e (swap w v)
    | inr e ↦ rw e (swap_found fs k v)
  ]

  swapped_items : (xs ys : Items) → items_equal xs ys ≡ items_equal_swapped ys xs
  swapped_items (item x xs) (item y ys) = and_ext (swap x y) (swapped_items xs ys)
  swapped_items no_items no_items = refl
  swapped_items no_items (item y ys) = refl
  swapped_items (item x xs) no_items = refl

  swapped_fields :
      (fs gs : Fields) → fields_found fs gs ≡ all_fields fs (λ k v. found_equals gs k v)
  swapped_fields no_fields gs = refl
  swapped_fields (field k v fs) gs =
      and_ext (found_and-ext (find gs k) _ _ (λ w _. swapped v w) ∙ sym (found_equals-find gs k v))
        (swapped_fields fs gs)
