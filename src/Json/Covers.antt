-- ===== src/Json/Covers.antt =====
-- src/json/json.h, the loop of `ObjectValue::eq`: each field of one map has its counterpart in another.
use gabby.Base.{
  and_left, and_right, suc, Bool, true, false, Option, none, some, inl, inr, Bool-cases, Bytes,
  bytes_eq, bytes_eq_iff, bytes_eq_refl, if◌then◌else◌, ◌≡◌, refl, sym, ap, ◌∙◌, arith,
}
use gabby.Json.Value.{Value, Fields, no_fields, field, find, fields_size, all_fields, found_and}
use gabby.Json.RoundTrip.Printable.{IsMap}

-- Under each key of `fs` stands a value of `gs` with which that of `fs` agrees.
abbrev pub Covers : (Value → Value → Bool) → Fields → Fields → Type 0
Covers agree fs gs =
    (k : Bytes) (v : Value)
    → find fs k ≡ some v
    → (w : Value) × ((find gs k ≡ some w) × (agree v w ≡ true))

-- the map without its first field under a key
remove : Fields → Bytes → Fields
remove no_fields k = no_fields
remove (field j v fs) k = if bytes_eq j k then fs else field j v (remove fs k)

find-here :
    (fs : Fields) (k j : Bytes) (v : Value) → bytes_eq k j ≡ true → find (field k v fs) j ≡ some v
unfolding find
find-here fs k j v e = rw e refl

find-behind :
    (fs : Fields) (k j : Bytes) (v : Value)
    → bytes_eq k j ≡ false
    → find (field k v fs) j ≡ find fs j
unfolding find
find-behind fs k j v e = rw e refl

find-remove : (fs : Fields) (k j : Bytes) → bytes_eq k j ≡ false → find (remove fs k) j ≡ find fs j
unfolding remove find
find-remove no_fields k j e = refl
find-remove (field i v fs) k j e = elim (Bool-cases (bytes_eq i k)) [
  | inl same ↦
      rw same (sym (find-behind fs i j v (ap (λ t. bytes_eq t j) ((bytes_eq_iff i k).0 same) ∙ e)))
  | inr other ↦ rw other (ap (λ o. if bytes_eq i j then some v else o) (find-remove fs k j e))
]

size-remove :
    (fs : Fields) (k : Bytes) {v : Value}
    → find fs k ≡ some v
    → suc (fields_size (remove fs k)) ≡ fields_size fs
unfolding remove find fields_size
size-remove no_fields k h = cc
size-remove (field i w fs) k h = elim (Bool-cases (bytes_eq i k)) [
  | inl same ↦ rw same refl
  | inr other ↦ rw other (ap suc (size-remove fs k (rw other at h)))
]

-- A key that a map lacks is no key of one of its fields.
apart :
    (fs : Fields) (k j : Bytes) {v : Value}
    → find fs k ≡ none
    → find fs j ≡ some v
    → bytes_eq k j ≡ false
apart fs k j absent h = elim (Bool-cases (bytes_eq k j)) [
  | inl e ↦ cc ((bytes_eq_iff k j).0 e)
  | inr e ↦ e
]

Covers-tail :
    (agree : Value → Value → Bool) (fs gs : Fields) (k : Bytes) (v : Value)
    → find fs k ≡ none
    → Covers agree (field k v fs) gs
    → Covers agree fs gs
Covers-tail agree fs gs k v absent c j u h =
    c j u (find-behind fs k j v (apart fs k j absent h) ∙ h)

absurd_find : (j : Bytes) {u : Value} {A : Type 0} → find no_fields j ≡ some u → A
unfolding find
absurd_find j h = cc

-- The fields behind the first have their counterparts in what is left of `gs` without its key.
Covers-remove :
    (agree : Value → Value → Bool) (fs gs : Fields) (k : Bytes) (v : Value)
    → find fs k ≡ none
    → Covers agree (field k v fs) gs
    → Covers agree fs (remove gs k)
Covers-remove agree fs gs k v absent c j u h =
    let (x, (found, p)) = Covers-tail agree fs gs k v absent c j u h in
    (x, (find-remove gs k j (apart fs k j absent h) ∙ found, p))

-- A map has the counterparts of `gs` where it has them of `gs` without a key, and of that key.
Covers-field :
    (agree : Value → Value → Bool) (fs gs : Fields) (k : Bytes) (v w : Value)
    → find gs k ≡ some w
    → agree v w ≡ true
    → Covers (λ x y. agree y x) (remove gs k) fs
    → Covers (λ x y. agree y x) gs (field k v fs)
Covers-field agree fs gs k v w found agrees c j u h = elim (Bool-cases (bytes_eq k j)) [
  | inl e ↦ (v, (find-here fs k j v e, ap (agree v) (one_value e) ∙ agrees))
  | inr e ↦
      let (x, (at_j, p)) = c j u (find-remove gs k j e ∙ h) in
      (x, (find-behind fs k j v e ∙ at_j, p))
]
  where
    one_value : bytes_eq k j ≡ true → u ≡ w
    one_value e = cc ((bytes_eq_iff k j).0 e)

-- Two maps of one size: where each field of the one has its counterpart in the other, each field of the
-- other has it in the one.
pub Covers-flip :
    (agree : Value → Value → Bool) (fs gs : Fields)
    → IsMap fs
    → fields_size fs ≡ fields_size gs
    → Covers agree fs gs
    → Covers (λ w v. agree v w) gs fs
unfolding fields_size
Covers-flip agree no_fields no_fields m e c j u h = absurd_find j h
Covers-flip agree no_fields (field k w gs) m e c j u h = absurd (omega arith)
Covers-flip agree (field k v fs) gs (absent, m) e c j u h =
    let (w, (found, agrees)) = c k v (find-here fs k k v (bytes_eq_refl k)) in
    Covers-field agree fs gs k v w found agrees
      (Covers-flip agree fs (remove gs k) m (smaller w found)
        (Covers-remove agree fs gs k v absent c))
      j u h
  where
    smaller : (w : Value) → find gs k ≡ some w → fields_size fs ≡ fields_size (remove gs k)
    smaller w found = let less = size-remove gs k found in omega arith

-- The loop over the fields of `fs`, searching `gs`.
abbrev pub covers : (Value → Value → Bool) → Fields → Fields → Bool
covers agree fs gs = all_fields fs (λ k v. found_and (find gs k) (λ w. agree v w))

pub found_and-true :
    (o : Option Value) (test : Value → Bool)
    → found_and o test ≡ true
    → (w : Value) × ((o ≡ some w) × (test w ≡ true))
found_and-true none test h = cc
found_and-true (some w) test h = (w, (refl, h))

pub covers-Covers :
    (agree : Value → Value → Bool) (fs gs : Fields) → covers agree fs gs ≡ true → Covers agree fs gs
unfolding all_fields find
covers-Covers agree no_fields gs h k v found = cc
covers-Covers agree (field j u fs) gs h k v found = elim (Bool-cases (bytes_eq j k)) [
  | inl e ↦ found_and-true (find gs k) (agree v) (
      ap (λ i. found_and (find gs i) (agree v)) (sym ((bytes_eq_iff j k).0 e))
      ∙ (ap (λ x. found_and (find gs j) (agree x)) (sym (one_value e)) ∙ and_left _ _ h))
  | inr e ↦ covers-Covers agree fs gs (and_right _ _ h) k v (rw e at found)
]
  where
    one_value : bytes_eq j k ≡ true → u ≡ v
    one_value e = cc (find-here fs j k u e, found)

pub Covers-covers :
    (agree : Value → Value → Bool) (fs gs : Fields)
    → IsMap fs
    → Covers agree fs gs
    → covers agree fs gs ≡ true
unfolding all_fields
Covers-covers agree no_fields gs m c = refl
Covers-covers agree (field k v fs) gs (absent, m) c =
    let (w, (found, agrees)) = c k v (find-here fs k k v (bytes_eq_refl k)) in
    rw (found, agrees) (Covers-covers agree fs gs m (Covers-tail agree fs gs k v absent c))
