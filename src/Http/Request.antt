-- ===== src/Http/Request.antt =====
-- src/http/server.cc, `ParseMethod`, `ParsePath`, `ParseHeader` and `ParseRequest`.
use gabby.Base.{
  ℕ, zero, suc, ◌+◌, ◌&&◌, Bool, false, Option, none, some, List, [], ◌∷◌, Bytes, codes, ◌==◌,
  length, take, drop, is_empty, bytes_eq, if◌then◌else◌,
}
use gabby.Outcome.{Exception, Outcome, ok, throws, bind, out_of_fuel, bad_request, Run}
use gabby.Json.Source.{File}
use gabby.Http.Types.{Method, get, post, Request}
use gabby.Http.Lines.{read_line}

-- `find(char)` of a string; `none` is `npos`
unfoldable pub find_byte : ℕ → Bytes → Option ℕ
find_byte c [] = none
find_byte c (d ∷ ds) =
    if d == c then some 0 else elim (find_byte c ds) [ none ↦ none | some i ↦ some (suc i) ]

-- Does the text start with `c` and `d`?
abbrev pub starts_with : ℕ → ℕ → Bytes → Bool
starts_with c d (x ∷ y ∷ s) = x == c && y == d
starts_with c d _ = false

-- `find` of a string of two bytes
unfoldable pub find_pair : ℕ → ℕ → Bytes → Option ℕ
find_pair c d [] = none
find_pair c d (x ∷ s) =
    if starts_with c d (x ∷ s)
    then some 0
    else elim (find_pair c d s) [ none ↦ none | some i ↦ some (suc i) ]

-- what is found, or the exception where it is `npos`
abbrev pub found {ℓ} : {A : Type ℓ} → Exception → Option ℕ → (ℕ → Outcome A) → Outcome A
found e none k = throws e
found e (some i) k = k i

-- `ParseMethod`
unfoldable pub parse_method : Bytes → Outcome Method
unfolding find_byte bytes_eq
parse_method line = found (bad_request (codes "missing http method")) (find_byte b' ' line) λ to.
    if bytes_eq (take to line) (codes "GET")
    then ok get
    else if bytes_eq (take to line) (codes "POST")
    then ok post
    else throws (bad_request (codes "invalid http method"))

-- `ParsePath`; `find(" ", from + 1)` looks at what stands behind the first space.
unfoldable pub parse_path : Bytes → Outcome Bytes
unfolding find_byte
parse_path line = found (bad_request (codes "missing http path")) (find_byte b' ' line) λ from.
    found (bad_request (codes "missing http path")) (find_byte b' ' (drop (from + 1) line))
      λ to. ok (take to (drop (from + 1) line))

-- `ParseHeader`
unfoldable pub parse_header : Bytes → Outcome (Bytes × Bytes)
unfolding find_pair
parse_header line =
    found (bad_request (codes "missing colon in http header")) (find_pair b':' b' ' line)
      λ delim. ok (take delim line, drop (delim + 2) line)

-- `find` of a map
unfoldable pub header : List (Bytes × Bytes) → Bytes → Option Bytes
header [] k = none
header ((j, v) ∷ hs) k = if bytes_eq j k then some v else header hs k

-- `insert` of a map, which keeps what stands under the key
unfoldable pub insert : List (Bytes × Bytes) → Bytes × Bytes → List (Bytes × Bytes)
insert [] h = h ∷ []
insert ((j, w) ∷ hs) h = if bytes_eq j h.0 then (j, w) ∷ hs else (j, w) ∷ insert hs h

-- The loop over the header lines.
unfoldable pub read_headers : ℕ → List (Bytes × Bytes) → Run File (List (Bytes × Bytes))
unfolding read_line parse_header insert
read_headers zero hs file = out_of_fuel
read_headers (suc f) hs file = bind (read_line file) λ (line, rest).
    if is_empty line
    then ok (hs, rest)
    else bind (parse_header line) λ h. read_headers f (insert hs h) rest

-- Each line takes a byte at least.
abbrev pub header_fuel : File → ℕ
header_fuel file = suc (length file.bytes)

-- `ParseRequest`
unfoldable pub parse_request : Bytes → File → Outcome Request
unfolding read_line read_headers parse_method parse_path
parse_request addr file = bind (read_line file) λ (line, rest).
    if is_empty line
    then throws (bad_request (codes "missing request line"))
    else bind (parse_method line) λ m. bind (parse_path line) λ p.
      bind (read_headers (header_fuel rest) [] rest)
        λ (hs, body). ok (record { addr = addr; method = m; path = p; headers = hs; stream = body })
