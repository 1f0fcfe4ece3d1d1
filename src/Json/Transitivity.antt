-- ===== src/Json/Transitivity.antt =====
-- src/json/json.h, `==`: equality goes on from one value to the next.
use gabby.Base.{
  and_left, and_right, ℕ, Bool, true, false, ◌&&◌, ◌||◌, not, some, inl, inr, Bool-cases, Bytes,
  bytes_eq, bytes_eq_iff, ◌==◌, ==_iff, subst, ◌≡◌, refl, sym, ◌∙◌, arith,
}
use gabby.Json.Value.{
  Value, nil_value, boolean, number, string, array_value, object, Items, no_items, item, Fields,
  no_fields, field, equals, equals_swapped, items_equal, items_equal_swapped, found_equals,
  all_fields, items_size, fields_size, find, bool_eq, double_eq, is_nan, magnitude,
}
use gabby.Json.Covers.{covers, covers-Covers, found_and-true}
use gabby.Json.Swap.{found_equals-find, all_fields-ext, fields_found-all}

abbrev Transitive : (Value → Value → Bool) → Value → Type 0
Transitive eq x = (y z : Value) → eq x y ≡ true → eq y z ≡ true → eq x z ≡ true

-- Equality goes on from a value, whichever of the operands `eq` is called on.
abbrev Leads : Value → Type 0
Leads x = Transitive equals x × Transitive equals_swapped x

abbrev ItemsLead : Items → Type 0
ItemsLead no_items = Unit
ItemsLead (item x xs) = Leads x × ItemsLead xs

abbrev FieldsLead : Fields → Type 0
FieldsLead no_fields = Unit
FieldsLead (field k x fs) = Leads x × FieldsLead fs

and_both : {a b : Bool} → a ≡ true → b ≡ true → (a && b) ≡ true
and_both p q = rw (p, q) refl

-- Sizes that agree in turn, and what the tests behind them say.
sized :
    (a b c : ℕ) {d e f : Bool}
    → ((a == b) && d) ≡ true
    → ((b == c) && e) ≡ true
    → (a ≡ b → b ≡ c → d ≡ true → e ≡ true → f ≡ true)
    → ((a == c) && f) ≡ true
sized a b c p q step =
    let first = (==_iff a b).0 (and_left _ _ p) in
    let second = (==_iff b c).0 (and_left _ _ q) in
    and_both ((==_iff a c).1 (first ∙ second))
      (step first second (and_right _ _ p) (and_right _ _ q))

bool_eq_trans : (a b c : Bool) → bool_eq a b ≡ true → bool_eq b c ≡ true → bool_eq a c ≡ true
unfolding bool_eq
bool_eq_trans true true c p q = q
bool_eq_trans true false c p q = cc
bool_eq_trans false true c p q = cc
bool_eq_trans false false c p q = q

bytes_eq_trans : (a b c : Bytes) → bytes_eq a b ≡ true → bytes_eq b c ≡ true → bytes_eq a c ≡ true
bytes_eq_trans a b c p q = (bytes_eq_iff a c).1 ((bytes_eq_iff a b).0 p ∙ (bytes_eq_iff b c).0 q)

-- Equal, or both of one kind.
alike_trans :
    (a b c : ℕ) (z : ℕ → Bool)
    → (a == b || (z a && z b)) ≡ true
    → (b == c || (z b && z c)) ≡ true
    → (a == c || (z a && z c)) ≡ true
alike_trans a b c z p q = elim (Bool-cases (a == b)) [
  | inl e ↦ subst (λ i. (i == c || (z i && z c)) ≡ true) (sym ((==_iff a b).0 e)) q
  | inr e ↦ elim (Bool-cases (b == c)) [
    | inl f ↦ subst (λ i. (a == i || (z a && z i)) ≡ true) ((==_iff b c).0 f) p
    | inr f ↦ both (rw e at p) (rw f at q)
  ]
]
  where
    both : (z a && z b) ≡ true → (z b && z c) ≡ true → (a == c || (z a && z c)) ≡ true
    both h k = rw (and_left (z a) (z b) h, and_right (z b) (z c) k) (ground arith)

guarded :
    (a b c : Bool) {d e f : Bool}
    → (a && b && d) ≡ true
    → (b && c && e) ≡ true
    → (d ≡ true → e ≡ true → f ≡ true)
    → (a && c && f) ≡ true
guarded a b c {d} {e} p q step =
    and_both
      (and_both (and_left a b (and_left (a && b) d p)) (and_right b c (and_left (b && c) e q)))
      (step (and_right (a && b) d p) (and_right (b && c) e q))

double_eq_trans : (a b c : ℕ) → double_eq a b ≡ true → double_eq b c ≡ true → double_eq a c ≡ true
unfolding double_eq
double_eq_trans a b c p q =
    guarded (not (is_nan a)) (not (is_nan b)) (not (is_nan c)) p q
      (alike_trans a b c (λ d. magnitude d == 0))

find-Leads : (fs : Fields) (k : Bytes) {x : Value} → FieldsLead fs → find fs k ≡ some x → Leads x
unfolding find
find-Leads no_fields k p h = cc
find-Leads (field j u fs) k {x} (p, q) h = elim (Bool-cases (bytes_eq j k)) [
  | inl e ↦ moved (rw e at h)
  | inr e ↦ find-Leads fs k q (rw e at h)
]
  where
    one_value : some u ≡ some x → u ≡ x
    one_value e = cc (e)

    moved : some u ≡ some x → Leads x
    moved e = subst Leads (one_value e) p

items_equal_trans :
    (xs ys zs : Items)
    → ItemsLead xs
    → items_size xs ≡ items_size ys
    → items_equal xs ys ≡ true
    → items_equal ys zs ≡ true
    → items_equal xs zs ≡ true
unfolding items_equal items_size
items_equal_trans no_items ys zs l e p q = refl
items_equal_trans (item x xs) no_items zs l e p q = absurd (omega arith)
items_equal_trans (item x xs) (item y ys) no_items l e p q = refl
items_equal_trans (item x xs) (item y ys) (item z zs) (l, ls) e p q =
    and_both (l.0 y z (and_left _ _ p) (and_left _ _ q))
      (items_equal_trans xs ys zs ls (omega arith) (and_right _ _ p) (and_right _ _ q))

items_equal_swapped_trans :
    (xs ys zs : Items)
    → ItemsLead xs
    → items_size xs ≡ items_size ys
    → items_equal_swapped xs ys ≡ true
    → items_equal_swapped ys zs ≡ true
    → items_equal_swapped xs zs ≡ true
unfolding items_equal_swapped items_size
items_equal_swapped_trans no_items ys zs l e p q = refl
items_equal_swapped_trans (item x xs) no_items zs l e p q = absurd (omega arith)
items_equal_swapped_trans (item x xs) (item y ys) no_items l e p q = refl
items_equal_swapped_trans (item x xs) (item y ys) (item z zs) (l, ls) e p q =
    and_both (l.1 y z (and_left _ _ p) (and_left _ _ q))
      (items_equal_swapped_trans xs ys zs ls (omega arith) (and_right _ _ p) (and_right _ _ q))

-- What is found under a key in the map between is found in the last one.
covers_trans :
    (fs gs hs : Fields)
    → FieldsLead fs
    → covers equals_swapped fs gs ≡ true
    → covers equals_swapped gs hs ≡ true
    → covers equals_swapped fs hs ≡ true
unfolding all_fields
covers_trans no_fields gs hs l p q = refl
covers_trans (field k x fs) gs hs (l, ls) p q =
    let (y, (at_y, xy)) = found_and-true (find gs k) (equals_swapped x) (and_left _ _ p) in
    let (z, (at_z, yz)) = covers-Covers equals_swapped gs hs q k y at_y in
    and_both (rw at_z (l.1 y z xy yz)) (covers_trans fs gs hs ls (and_right _ _ p) q)

-- The other way round: each field of `hs` has its counterpart in `gs`, and that has its own in `fs`.
covers_back_trans :
    (fs gs hs : Fields)
    → FieldsLead fs
    → covers (λ w v. equals v w) gs fs ≡ true
    → covers (λ w v. equals v w) hs gs ≡ true
    → covers (λ w v. equals v w) hs fs ≡ true
unfolding all_fields
covers_back_trans fs gs no_fields l p q = refl
covers_back_trans fs gs (field k z hs) l p q =
    let (y, (at_y, yz)) = found_and-true (find gs k) (λ v. equals v z) (and_left _ _ q) in
    let (x, (at_x, xy)) = covers-Covers (λ w v. equals v w) gs fs p k y at_y in
    and_both (rw at_x ((find-Leads fs k l at_x).0 y z xy yz))
      (covers_back_trans fs gs hs l p (and_right _ _ q))

-- the loop of `equals` over an object, by what `find` gives
all_found :
    (fs gs : Fields) → all_fields gs (λ k v. found_equals fs k v) ≡ covers (λ w v. equals v w) gs fs
all_found fs gs = all_fields-ext gs _ _ (λ k v. found_equals-find fs k v)

mutual
  unfolding equals equals_swapped

  items_lead : (xs : Items) → ItemsLead xs
  items_lead no_items = tt
  items_lead (item x xs) = ((goes_on x, goes_on_swapped x), items_lead xs)

  fields_lead : (fs : Fields) → FieldsLead fs
  fields_lead no_fields = tt
  fields_lead (field k x fs) = ((goes_on x, goes_on_swapped x), fields_lead fs)

  goes_on : (x y z : Value) → equals x y ≡ true → equals y z ≡ true → equals x z ≡ true
  goes_on nil_value nil_value z p q = q
  goes_on (boolean a) (boolean b) (boolean c) p q = bool_eq_trans c b a q p
  goes_on (number a) (number b) (number c) p q = double_eq_trans c b a q p
  goes_on (string a) (string b) (string c) p q = bytes_eq_trans c b a q p
  goes_on (array_value xs) (array_value ys) (array_value zs) p q =
      sized (items_size zs) (items_size ys) (items_size xs) q p
        (λ _ e k h. items_equal_swapped_trans xs ys zs (items_lead xs) (sym e) h k)
  goes_on (object fs) (object gs) (object hs) p q =
      sized (fields_size hs) (fields_size gs) (fields_size fs) q p (λ _ _ k h.
        all_found fs hs
        ∙ covers_back_trans fs gs hs (fields_lead fs) (sym (all_found fs gs) ∙ h)
            (sym (all_found gs hs) ∙ k))
  goes_on _ _ _ p q = cc

  goes_on_swapped :
      (x y z : Value)
      → equals_swapped x y ≡ true
      → equals_swapped y z ≡ true
      → equals_swapped x z ≡ true
  goes_on_swapped nil_value nil_value z p q = q
  goes_on_swapped (boolean a) (boolean b) (boolean c) p q = bool_eq_trans a b c p q
  goes_on_swapped (number a) (number b) (number c) p q = double_eq_trans a b c p q
  goes_on_swapped (string a) (string b) (string c) p q = bytes_eq_trans a b c p q
  goes_on_swapped (array_value xs) (array_value ys) (array_value zs) p q =
      sized (items_size xs) (items_size ys) (items_size zs) p q
        (λ e _ h k. items_equal_trans xs ys zs (items_lead xs) e h k)
  goes_on_swapped (object fs) (object gs) (object hs) p q =
      sized (fields_size fs) (fields_size gs) (fields_size hs) p q (λ _ _ h k.
        fields_found-all fs hs
        ∙ covers_trans fs gs hs (fields_lead fs) (sym (fields_found-all fs gs) ∙ h)
            (sym (fields_found-all gs hs) ∙ k))
  goes_on_swapped _ _ _ p q = cc

-- If a value is equal to a second one, and that to a third, the first is equal to the third, also where
-- an object has a key twice or a number is no number.
pub equals_trans : (x y z : Value) → equals x y ≡ true → equals y z ≡ true → equals x z ≡ true
equals_trans = goes_on
