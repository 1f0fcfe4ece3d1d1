-- ===== src/Json/RoundTrip/Parse.antt =====
-- `Parse` reads back what `print` writes: the induction on the value.
use gabby.Base.{
  ℕ, zero, suc, ◌*◌, ◌<◌, Bool, true, false, Option, List, [], ◌∷◌, ◌++◌, Bytes, codes, is_empty,
  length, length-append, ◌≡◌, refl, ap, ◌∙◌, arith, append_assoc, append-nil,
}
use gabby.Outcome.{ok, step}
use gabby.Json.Value.{
  Value, Items, Fields, nil_value, boolean, number, string, array_value, object, no_items, item,
  no_fields, field, print, print_items, print_fields,
}
use gabby.Json.Source.{view_source}
use gabby.Json.Parse.{value, value_of, items, fields}
use gabby.Json.RoundTrip.Tokens.{head_of, trim, string-Scans, true-Scans, false-Scans, null-Scans}
use gabby.Json.RoundTrip.Numbers.{number-Scans}
use gabby.Json.RoundTrip.Numerals.{text, ends_number, ends_number-is_delim}
use gabby.Json.RoundTrip.Printable.{
  IsMap, IsPrintable, ItemsPrintable, FieldsPrintable, trim-print, Apart, Apart-append, Apart-nil,
}
use gabby.Json.RoundTrip.Peeks.{
  from_items, from_fields, to_items-from_items, to_fields-from_fields, before, holding, bracket,
  brace, next-holding, first_token, length-print_pos,
}
use gabby.Json.RoundTrip.Values.{
  value-array, value-object, items_first, items_next, fields_first, fields_next, value-leaf,
  items_end, fields_end,
}
use gabby.Json.RoundTrip.Places.{
  items_tail, items_trim, fields_tail, fields_trim, items_start, fields_start, is_empty-append,
  lengths, field_shape, field_length,
}

module _ (show_double : ℕ → Bytes) (stod : Bytes → Option ℕ) (limit : ℕ) where
  mutual
    unfolding print value_of

    pub value-print :
        (v : Value) (f : ℕ) (rest : Bytes)
        → IsPrintable show_double stod v
        → ends_number (head_of rest) ≡ true
        → 2 * length (print show_double v) < f
        → length (print show_double v ++ rest) < limit
        → value view_source stod limit f (before (print show_double v ++ rest))
          ≡ ok (v, before (trim rest))
    value-print nil_value f rest p d k h =
        value-leaf stod limit f (codes "null") rest _ _
          (null-Scans stod limit rest (ends_number-is_delim (head_of rest) d))
          (λ i j. step _ (next-holding stod limit _ _) refl) (omega arith) h
    value-print (boolean true) f rest p d k h =
        value-leaf stod limit f (codes "true") rest _ _
          (true-Scans stod limit rest (ends_number-is_delim (head_of rest) d))
          (λ i j. step _ (next-holding stod limit _ _) refl) (omega arith) h
    value-print (boolean false) f rest p d k h =
        value-leaf stod limit f (codes "false") rest _ _
          (false-Scans stod limit rest (ends_number-is_delim (head_of rest) d))
          (λ i j. step _ (next-holding stod limit _ _) refl) (omega arith) h
    value-print (number x) f rest p d k h = rw p.shown (
        value-leaf stod limit f (text p.numeral) rest _ _
          (number-Scans stod limit x p.numeral rest p.well_formed p.reads_back d)
          (λ i j. step _ (next-holding stod limit _ _) refl) (omega arith) (rw p.shown at h))
    value-print (string s) f rest p d k h =
        value-leaf stod limit f (b'"' ∷ (s ++ b'"' ∷ [])) rest _ _
          (string-Scans stod limit s rest p) (λ i j. step _ (next-holding stod limit _ _) refl)
          (omega arith) h
    value-print (array_value xs) zero rest p d k h = absurd (omega arith)
    value-print (array_value xs) (suc f) rest p d k h =
        rw (append_assoc (print_items show_double xs true) (b']' ∷ []) rest) (
          value-array stod limit f (print_items show_double xs true ++ b']' ∷ rest) (trim rest)
            (from_items xs) (items_start show_double stod limit xs rest p)
            (omega (arith, lengths (print_items show_double xs true) b']' rest))
            (items-print xs f [] true rest refl p
              (omega (arith, lengths (print_items show_double xs true) b']' rest))
              (omega (arith, lengths (print_items show_double xs true) b']' rest)))
          ∙ ap (λ ys. ok (array_value ys, before (trim rest))) (to_items-from_items xs))
    value-print (object fs) zero rest p d k h = absurd (omega arith)
    value-print (object fs) (suc f) rest p d k h =
        rw (append_assoc (print_fields show_double fs true) (b'}' ∷ []) rest) (
          value-object stod limit f (print_fields show_double fs true ++ b'}' ∷ rest) (trim rest)
            (from_fields fs) (fields_start show_double fs rest)
            (omega (arith, lengths (print_fields show_double fs true) b'}' rest))
            (fields-print fs f [] true rest refl p.0 (Apart-nil fs) p.1
              (omega (arith, lengths (print_fields show_double fs true) b'}' rest))
              (omega (arith, lengths (print_fields show_double fs true) b'}' rest)))
          ∙ ap (λ m. ok (object m, before (trim rest))) (to_fields-from_fields fs))

    items-print :
        (xs : Items) (f : ℕ) (acc : List Value) (first : Bool) (rest : Bytes)
        → is_empty acc ≡ first
        → ItemsPrintable show_double stod xs
        → suc (2 * length (print_items show_double xs first)) < f
        → length (print_items show_double xs first ++ b']' ∷ rest) < limit
        → items view_source stod limit f acc
            (before (print_items show_double xs first ++ b']' ∷ rest))
          ≡ ok (acc ++ from_items xs, holding bracket (trim rest))
    items-print xs zero acc first rest e p k h = absurd (omega arith)
    items-print no_items (suc f) acc first rest e p k h =
        items_end stod limit f acc rest h ∙ rw append-nil
    items-print (item v xs) (suc f) acc true rest e p k h =
        let tail = print_items show_double xs false ++ b']' ∷ rest in
        let whole =
          append_assoc (print show_double v) (print_items show_double xs false) (b']' ∷ rest) in
        let size = length-append (print show_double v) (print_items show_double xs false) in
        let pos = length-print_pos show_double stod limit v p.0 in
        let fits : length (print show_double v ++ tail) < limit = rw whole at h in
        rw whole (
          items_first stod limit f acc (print show_double v ++ tail) tail v e
            (first_token show_double stod limit v tail p.0
              (items_tail show_double stod limit xs rest) fits)
            (value-print v f tail p.0 (items_tail show_double stod limit xs rest)
                (omega (arith, size, pos, k)) (omega (arith, fits))
              ∙ ap (λ r. ok (v, before r)) (items_trim show_double stod limit xs rest))
          ∙ items-print xs f (acc ++ v ∷ []) false rest (is_empty-append acc v) p.1
              (omega (arith, size, pos, k))
              (omega (arith, fits, length-append (print show_double v) tail))
          ∙ rw append_assoc)
    items-print (item v xs) (suc f) acc false rest e p k h =
        let tail = print_items show_double xs false ++ b']' ∷ rest in
        let whole =
          append_assoc (print show_double v) (print_items show_double xs false) (b']' ∷ rest) in
        let size = length-append (print show_double v) (print_items show_double xs false) in
        let pos = length-print_pos show_double stod limit v p.0 in
        let fits : suc (suc (length (print show_double v ++ tail))) < limit = rw whole at h in
        rw whole (
          items_next stod limit f acc (print show_double v ++ tail) tail v e
            (trim-print show_double stod v tail p.0) fits
            (value-print v f tail p.0 (items_tail show_double stod limit xs rest)
                (omega (arith, size, pos, k)) (omega (arith, fits))
              ∙ ap (λ r. ok (v, before r)) (items_trim show_double stod limit xs rest))
          ∙ items-print xs f (acc ++ v ∷ []) false rest (is_empty-append acc v) p.1
              (omega (arith, size, pos, k))
              (omega (arith, fits, length-append (print show_double v) tail))
          ∙ rw append_assoc)

    fields-print :
        (fs : Fields) (f : ℕ) (m : List (Bytes × Value)) (first : Bool) (rest : Bytes)
        → is_empty m ≡ first
        → IsMap fs
        → Apart m fs
        → FieldsPrintable show_double stod fs
        → suc (2 * length (print_fields show_double fs first)) < f
        → length (print_fields show_double fs first ++ b'}' ∷ rest) < limit
        → fields view_source stod limit f m
            (before (print_fields show_double fs first ++ b'}' ∷ rest))
          ≡ ok (m ++ from_fields fs, holding brace (trim rest))
    fields-print fs zero m first rest e u a p k h = absurd (omega arith)
    fields-print no_fields (suc f) m first rest e u a p k h =
        fields_end stod limit f m rest h ∙ rw append-nil
    fields-print (field key v fs) (suc f) m true rest e u a p k h =
        let tail = print_fields show_double fs false ++ b'}' ∷ rest in
        let quoted = b'"' ∷ (key ++ b'"' ∷ []) in
        let s = print show_double v ++ tail in
        let shape =
          field_shape key (print show_double v) (print_fields show_double fs false) (b'}' ∷ rest) in
        let size = field_length key (print show_double v) (print_fields show_double fs false) in
        let fits : length (quoted ++ b':' ∷ b' ' ∷ s) < limit = rw shape at h in
        let fits_s : suc (suc (length s)) < limit =
          omega (arith, fits, length-append quoted (b':' ∷ b' ' ∷ s)) in
        rw shape (
          fields_first stod limit f m key s tail v e p.0 a.0
            (trim-print show_double stod v tail p.1.0) fits fits_s
            (value-print v f tail p.1.0 (fields_tail show_double stod limit fs rest)
                (omega (arith, size, k)) (omega (arith, fits_s))
              ∙ ap (λ r. ok (v, before r)) (fields_trim show_double stod limit fs rest))
          ∙ fields-print fs f (m ++ (key, v) ∷ []) false rest (is_empty-append m (key, v)) u.1
              (Apart-append m key v fs a.1 u.0) p.1.1 (omega (arith, size, k))
              (omega (arith, fits_s, length-append (print show_double v) tail))
          ∙ rw append_assoc)
    fields-print (field key v fs) (suc f) m false rest e u a p k h =
        let tail = print_fields show_double fs false ++ b'}' ∷ rest in
        let quoted = b'"' ∷ (key ++ b'"' ∷ []) in
        let s = print show_double v ++ tail in
        let shape =
          field_shape key (print show_double v) (print_fields show_double fs false) (b'}' ∷ rest) in
        let size = field_length key (print show_double v) (print_fields show_double fs false) in
        let fits : suc (suc (length (quoted ++ b':' ∷ b' ' ∷ s))) < limit = rw shape at h in
        let fits_s : suc (suc (length s)) < limit =
          omega (arith, fits, length-append quoted (b':' ∷ b' ' ∷ s)) in
        rw shape (
          fields_next stod limit f m key s tail v e p.0 a.0
            (trim-print show_double stod v tail p.1.0) fits fits_s
            (value-print v f tail p.1.0 (fields_tail show_double stod limit fs rest)
                (omega (arith, size, k)) (omega (arith, fits_s))
              ∙ ap (λ r. ok (v, before r)) (fields_trim show_double stod limit fs rest))
          ∙ fields-print fs f (m ++ (key, v) ∷ []) false rest (is_empty-append m (key, v)) u.1
              (Apart-append m key v fs a.1 u.0) p.1.1 (omega (arith, size, k))
              (omega (arith, fits_s, length-append (print show_double v) tail))
          ∙ rw append_assoc)
