-- ===== src/Json/RoundTrip/Reread.antt =====
-- src/json/json.h and src/json/parser.cc: what is read back from the printed text of a value whose numbers
-- are written with fewer digits than they have, as `operator<<` of a double writes them.
use gabby.Base.{
  ℕ, Option, none, some, inl, inr, Bool-cases, Bytes, bytes_eq, Bool, true, false, ◌≡◌, refl,
}
use gabby.Json.Value.{
  Value, Items, Fields, nil_value, boolean, number, string, array_value, object, no_items, item,
  no_fields, field, find, print, print_items, print_fields,
}
use gabby.Json.RoundTrip.Printable.{
  IsMap, Written, HasText, ItemsHaveText, FieldsHaveText, IsPrintable, ItemsPrintable,
  FieldsPrintable,
}

module _ (show_double : ℕ → Bytes) (stod : Bytes → Option ℕ) where
  -- the number that is read from the text of one
  abbrev pub rounded : ℕ → ℕ
  rounded d = elim (stod (show_double d)) [ none ↦ d | some e ↦ e ]

  -- The text of a number is a numeral, and the number that is read from it has the same text: printing
  -- with a fixed number of digits changes nothing the second time.
  pub record Rereads (d : ℕ) : Type 0 where
    pub reads : Written show_double stod (rounded d)
    pub same_text : show_double (rounded d) ≡ show_double d

  -- the value with every number rounded so
  abbrev mutual
    pub reread : Value → Value
    reread nil_value = nil_value
    reread (boolean b) = boolean b
    reread (number d) = number (rounded d)
    reread (string s) = string s
    reread (array_value xs) = array_value (reread_items xs)
    reread (object fs) = object (reread_fields fs)

    pub reread_items : Items → Items
    reread_items no_items = no_items
    reread_items (item v xs) = item (reread v) (reread_items xs)

    pub reread_fields : Fields → Fields
    reread_fields no_fields = no_fields
    reread_fields (field k v fs) = field k (reread v) (reread_fields fs)

  find-reread : (fs : Fields) (k : Bytes) → find fs k ≡ none → find (reread_fields fs) k ≡ none
  unfolding find
  find-reread no_fields k h = refl
  find-reread (field j v fs) k h = elim (Bool-cases (bytes_eq j k)) [
    | inl e ↦ cc (rw e at h)
    | inr e ↦ rw e (find-reread fs k (rw e at h))
  ]

  reread-IsMap : (fs : Fields) → IsMap fs → IsMap (reread_fields fs)
  reread-IsMap no_fields m = tt
  reread-IsMap (field k v fs) (absent, m) = (find-reread fs k absent, reread-IsMap fs m)

  mutual
    pub reread-IsPrintable :
        (v : Value) → HasText Rereads v → IsPrintable show_double stod (reread v)
    reread-IsPrintable nil_value p = tt
    reread-IsPrintable (boolean b) p = tt
    reread-IsPrintable (number d) p = p.reads
    reread-IsPrintable (string s) p = p
    reread-IsPrintable (array_value xs) p = reread_items-Printable xs p
    reread-IsPrintable (object fs) (m, p) = (reread-IsMap fs m, reread_fields-Printable fs p)

    reread_items-Printable :
        (xs : Items) → ItemsHaveText Rereads xs → ItemsPrintable show_double stod (reread_items xs)
    reread_items-Printable no_items p = tt
    reread_items-Printable (item v xs) (p, q) =
        (reread-IsPrintable v p, reread_items-Printable xs q)

    reread_fields-Printable :
        (fs : Fields)
        → FieldsHaveText Rereads fs
        → FieldsPrintable show_double stod (reread_fields fs)
    reread_fields-Printable no_fields p = tt
    reread_fields-Printable (field k v fs) (plain, (p, q)) =
        (plain, (reread-IsPrintable v p, reread_fields-Printable fs q))

  mutual
    unfolding print print_items print_fields

    pub print-reread :
        (v : Value) → HasText Rereads v → print show_double (reread v) ≡ print show_double v
    print-reread nil_value p = refl
    print-reread (boolean b) p = refl
    print-reread (number d) p = p.same_text
    print-reread (string s) p = refl
    print-reread (array_value xs) p = rw (items_text xs true p) refl
    print-reread (object fs) (m, p) = rw (fields_text fs true p) refl

    items_text :
        (xs : Items) (first : Bool)
        → ItemsHaveText Rereads xs
        → print_items show_double (reread_items xs) first ≡ print_items show_double xs first
    items_text no_items first p = refl
    items_text (item v xs) first (p, q) = rw (print-reread v p, items_text xs false q) refl

    fields_text :
        (fs : Fields) (first : Bool)
        → FieldsHaveText Rereads fs
        → print_fields show_double (reread_fields fs) first ≡ print_fields show_double fs first
    fields_text no_fields first p = refl
    fields_text (field k v fs) first (plain, (p, q)) =
        rw (print-reread v p, fields_text fs false q) refl
