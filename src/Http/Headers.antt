-- ===== src/Http/Headers.antt =====
-- src/http/server.cc, the map of headers that `ParseRequest` fills by `insert`.
use gabby.Base.{
  true, false, Option, none, some, inl, inr, Bool-cases, List, [], ◌∷◌, ◌++◌, Bytes, bytes_eq,
  bytes_eq_iff, if◌then◌else◌, ◌≡◌, refl, sym, ap, ◌∙◌, append_assoc, append-nil,
}
use gabby.Http.Request.{header, insert}
use gabby.Http.RequestText.{inserts}

abbrev or_else : Option Bytes → Option Bytes → Option Bytes
or_else none o = o
or_else (some v) o = some v

header-append :
    (m : List (Bytes × Bytes)) (h : Bytes × Bytes) (k : Bytes)
    → bytes_eq h.0 k ≡ false
    → header (m ++ h ∷ []) k ≡ header m k
unfolding header
header-append [] h k e = rw e refl
header-append ((j, w) ∷ m) h k e =
    ap (λ r. if bytes_eq j k then some w else r) (header-append m h k e)

header-behind_same :
    (m : List (Bytes × Bytes)) (h : Bytes × Bytes) (j w k : Bytes)
    → bytes_eq j h.0 ≡ true
    → header ((j, w) ∷ m) k ≡ header ((j, w) ∷ (m ++ h ∷ [])) k
unfolding header
header-behind_same m h j w k same = elim (Bool-cases (bytes_eq j k)) [
  | inl e ↦ rw e refl
  | inr e ↦ rw e (sym (header-append m h k (rw ((bytes_eq_iff j h.0).0 same) at e)))
]

header-insert :
    (m : List (Bytes × Bytes)) (h : Bytes × Bytes) (k : Bytes)
    → header (insert m h) k ≡ header (m ++ h ∷ []) k
unfolding header insert
header-insert [] h k = refl
header-insert ((j, w) ∷ m) h k = elim (Bool-cases (bytes_eq j h.0)) [
  | inl same ↦ rw same (header-behind_same m h j w k same)
  | inr other ↦ rw other (ap (λ r. if bytes_eq j k then some w else r) (header-insert m h k))
]

header_append :
    (m hs : List (Bytes × Bytes)) (k : Bytes)
    → header (m ++ hs) k ≡ or_else (header m k) (header hs k)
unfolding header
header_append [] hs k = refl
header_append ((j, w) ∷ m) hs k = elim (Bool-cases (bytes_eq j k)) [
  | inl e ↦ rw e refl
  | inr e ↦ rw e (header_append m hs k)
]

header-snoc :
    (m n : List (Bytes × Bytes)) (h : Bytes × Bytes) (k : Bytes)
    → header m k ≡ header n k
    → header (m ++ h ∷ []) k ≡ header (n ++ h ∷ []) k
header-snoc m n h k e =
    header_append m (h ∷ []) k
    ∙ ap (λ o. or_else o (header (h ∷ []) k)) e
    ∙ sym (header_append n (h ∷ []) k)

header-congr :
    (m n hs : List (Bytes × Bytes)) (k : Bytes)
    → ((k : Bytes) → header m k ≡ header n k)
    → header (inserts m hs) k ≡ header (n ++ hs) k
header-congr m n [] k same = same k ∙ ap (λ l. header l k) (sym (append-nil n))
header-congr m n (h ∷ hs) k same =
    header-congr (insert m h) (n ++ h ∷ []) hs k
      (λ j. header-insert m h j ∙ header-snoc m n h j (same j))
    ∙ ap (λ l. header l k) (append_assoc n (h ∷ []) hs)

-- Of two header lines with one name the first counts.
pub header-inserts :
    (hs : List (Bytes × Bytes)) (k : Bytes) → header (inserts [] hs) k ≡ header hs k
header-inserts hs k = header-congr [] [] hs k λ j. refl
