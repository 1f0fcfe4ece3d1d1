-- ===== src/Json/Keys.antt =====
-- src/json/parser.cc, `values[key] = value` in `Parser::Value`, and src/json/json.h, `find` on the map.
use gabby.Base.{
  true, false, Option, some, inl, inr, Bool-cases, List, [], ◌∷◌, Bytes, bytes_eq, bytes_eq_iff,
  if◌then◌else◌, ◌≡◌, refl, sym, ap, ◌∙◌,
}
use gabby.Json.Value.{Value, find}
use gabby.Json.Parse.{assign, to_fields}

-- the map after the fields of a text are assigned in turn
abbrev pub assigns : List (Bytes × Value) → List (Bytes × Value) → List (Bytes × Value)
assigns m [] = m
assigns m ((k, v) ∷ ps) = assigns (assign m k v) ps

-- what stands last under a key in a list of fields, or else `o`
abbrev pub last_of : Option Value → List (Bytes × Value) → Bytes → Option Value
last_of o [] j = o
last_of o ((k, v) ∷ ps) j = last_of (if bytes_eq k j then some v else o) ps j

replaced :
    (i k j : Bytes) (w v : Value) (o : Option Value)
    → bytes_eq i k ≡ true
    → (if bytes_eq i j then some v else o)
      ≡ (if bytes_eq k j then some v else (if bytes_eq i j then some w else o))
replaced i k j w v o same =
    rw ((bytes_eq_iff i k).0 same)
      (elim (Bool-cases (bytes_eq k j)) [ inl e ↦ rw e refl | inr e ↦ rw e refl ])

kept :
    (i k j : Bytes) (w v : Value) (o : Option Value)
    → bytes_eq i k ≡ false
    → (if bytes_eq i j then some w else (if bytes_eq k j then some v else o))
      ≡ (if bytes_eq k j then some v else (if bytes_eq i j then some w else o))
kept i k j w v o other = elim (Bool-cases (bytes_eq i j)) [
  | inr e ↦ rw e refl
  | inl e ↦ elim (Bool-cases (bytes_eq k j)) [
    | inr e' ↦ rw (e, e') refl
    | inl e' ↦
        cc (
          sym other ∙ (bytes_eq_iff i k).1 ((bytes_eq_iff i j).0 e ∙ sym ((bytes_eq_iff k j).0 e')))
  ]
]

pub find-assign :
    (m : List (Bytes × Value)) (k j : Bytes) (v : Value)
    → find (to_fields (assign m k v)) j ≡ (if bytes_eq k j then some v else find (to_fields m) j)
unfolding find assign
find-assign [] k j v = refl
find-assign ((i, w) ∷ m) k j v = elim (Bool-cases (bytes_eq i k)) [
  | inl same ↦ rw same (replaced i k j w v (find (to_fields m) j) same)
  | inr other ↦ rw other (
      ap (λ o. if bytes_eq i j then some w else o) (find-assign m k j v)
      ∙ kept i k j w v (find (to_fields m) j) other)
]

-- A key that stands more than once in the text of an object has the value that stands last; a key that
-- does not stand there keeps what the map had.
pub find-assigns :
    (m ps : List (Bytes × Value)) (j : Bytes)
    → find (to_fields (assigns m ps)) j ≡ last_of (find (to_fields m) j) ps j
find-assigns m [] j = refl
find-assigns m ((k, v) ∷ ps) j =
    find-assigns (assign m k v) ps j ∙ ap (λ o. last_of o ps j) (find-assign m k j v)
