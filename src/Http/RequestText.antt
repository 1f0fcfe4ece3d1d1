-- ===== src/Http/RequestText.antt =====
-- src/http/server.cc, `ParseRequest` on the text of a request.
use gabby.Base.{
  ℕ, zero, suc, ◌+◌, ◌≤◌, ◌<◌, true, not, all, All-all, false, Option, some, List, [], ◌∷◌, ◌++◌,
  Bytes, ◌==◌, length, length-append, drop, is_empty, ◌≡◌, refl, ap, ◌∙◌, arith, All, append_assoc,
}
use gabby.Outcome.{Exception, Outcome, ok, step}
use gabby.Json.Source.{Ending}
use gabby.Http.Types.{Method, get, post, method_text}
use gabby.Http.Lines.{read_line}
use gabby.Http.Framing.{file, IsLine, crlf, read_line-crlf, take-append}
use gabby.Http.Request.{
  header_fuel, found, find_byte, find_pair, parse_method, parse_path, parse_header, insert,
  read_headers, parse_request,
}
use gabby.Http.Writer.{header_line}
use gabby.Http.ResponseText.{headers_text}

-- No byte of the text is `c`.
abbrev pub Without : ℕ → Bytes → Type 0
Without c s = All (λ d. (d == c) ≡ false) s

pub tested-Without : (c : ℕ) (s : Bytes) → all (λ d. not (d == c)) s ≡ true → Without c s
tested-Without c s h = All-all (λ d. not (d == c)) (λ d p. ground arith) s h

-- the first line of a request, without its ending
unfoldable pub request_line : Method → Bytes → Bytes → Bytes
unfolding method_text
request_line m path version = method_text m ++ (b' ' ∷ (path ++ b' ' ∷ version))

-- A header whose line `ReadLine` and `ParseHeader` take apart again.
pub record IsHeader (h : Bytes × Bytes) : Type 0 where
  pub key_line : IsLine h.0
  pub value_line : IsLine h.1
  pub no_colon : Without b':' h.0
  pub fits : length h.0 + length h.1 ≤ 251

pub record IsRequestLine (path version : Bytes) : Type 0 where
  pub path_line : IsLine path
  pub version_line : IsLine version
  pub no_space : Without b' ' path
  pub fits : length path + length version ≤ 247

-- the text of a request: the line, the headers, an empty line and the body
abbrev pub request_text : Method → Bytes → Bytes → List (Bytes × Bytes) → Bytes → Bytes
request_text m path version hs body =
    request_line m path version ++ crlf (headers_text hs ++ crlf body)

-- the map after the headers are inserted in turn
abbrev pub inserts : List (Bytes × Bytes) → List (Bytes × Bytes) → List (Bytes × Bytes)
inserts m [] = m
inserts m (h ∷ hs) = inserts (insert m h) hs

find_byte-at : (c : ℕ) (s t : Bytes) → Without c s → find_byte c (s ++ c ∷ t) ≡ some (length s)
unfolding find_byte
find_byte-at c [] t p = ground arith
find_byte-at c (d ∷ s) t p = rw (p.0, find_byte-at c s t p.1) refl

find_pair-at :
    (c d : ℕ) (s t : Bytes) → Without c s → find_pair c d (s ++ c ∷ d ∷ t) ≡ some (length s)
unfolding find_pair
find_pair-at c d [] t p = ground arith
find_pair-at c d (x ∷ []) t p = rw (p.0, find_pair-at c d [] t tt) refl
find_pair-at c d (x ∷ y ∷ s) t p = rw (p.0, find_pair-at c d (y ∷ s) t p.1) refl

drop-pair : (c d : ℕ) (s t : Bytes) (n : ℕ) → n ≡ length s + 2 → drop n (s ++ c ∷ d ∷ t) ≡ t
drop-pair c d [] t zero e = absurd (omega arith)
drop-pair c d [] t (suc zero) e = absurd (omega arith)
drop-pair c d [] t (suc (suc zero)) e = refl
drop-pair c d [] t (suc (suc (suc n))) e = absurd (omega arith)
drop-pair c d (x ∷ s) t zero e = absurd (omega arith)
drop-pair c d (x ∷ s) t (suc n) e = drop-pair c d s t n (omega arith)

parse_method-line : (m : Method) (t : Bytes) → parse_method (method_text m ++ (b' ' ∷ t)) ≡ ok m
unfolding parse_method method_text
parse_method-line get t = refl
parse_method-line post t = refl

parse_method-request_line :
    (m : Method) (path version : Bytes) → parse_method (request_line m path version) ≡ ok m
unfolding request_line
parse_method-request_line m path version = parse_method-line m (path ++ b' ' ∷ version)

pub found-some {ℓ} :
    {A : Type ℓ} (x : Exception) {o : Option ℕ} {i : ℕ} (k : ℕ → Outcome A) {r : Outcome A}
    → o ≡ some i
    → k i ≡ r
    → found x o k ≡ r
found-some x k e h = rw e h

parse_path-line :
    (m : Method) (path version : Bytes)
    → Without b' ' path
    → parse_path (request_line m path version) ≡ ok path
unfolding parse_path request_line find_byte method_text
parse_path-line get path version p =
    found-some _ _ (find_byte-at b' ' path version p)
      (ap ok (take-append path (b' ' ∷ version) (length path) refl))
parse_path-line post path version p =
    found-some _ _ (find_byte-at b' ' path version p)
      (ap ok (take-append path (b' ' ∷ version) (length path) refl))

parse_header-line : (k v : Bytes) → Without b':' k → parse_header (k ++ b':' ∷ b' ' ∷ v) ≡ ok (k, v)
unfolding parse_header
parse_header-line k v p = found-some _ _ (find_pair-at b':' b' ' k v p) (
    rw
      (take-append k (b':' ∷ b' ' ∷ v) (length k) refl, drop-pair b':' b' ' k v (length k + 2) refl)
      refl)

IsLine-append : (s t : Bytes) → IsLine s → IsLine t → IsLine (s ++ t)
IsLine-append [] t p q = q
IsLine-append (c ∷ s) t p q = (p.0, IsLine-append s t p.1 q)

space-IsLine : (t : Bytes) → IsLine t → IsLine (b' ' ∷ t)
space-IsLine t p = ((refl, refl), p)

method-IsLine : (m : Method) → IsLine (method_text m)
unfolding method_text
method-IsLine get = ((refl, refl), ((refl, refl), ((refl, refl), tt)))
method-IsLine post = ((refl, refl), ((refl, refl), ((refl, refl), ((refl, refl), tt))))

request_line-IsLine :
    (m : Method) (path version : Bytes)
    → IsRequestLine path version
    → IsLine (request_line m path version)
unfolding request_line
request_line-IsLine m path version p =
    IsLine-append (method_text m) _ (method-IsLine m)
      (space-IsLine _ (IsLine-append path _ p.path_line (space-IsLine version p.version_line)))

length-request_line :
    (m : Method) (path version : Bytes)
    → length (request_line m path version) ≤ length path + length version + 6
unfolding request_line method_text
length-request_line get path version = omega (arith, length-append path (b' ' ∷ version))
length-request_line post path version = omega (arith, length-append path (b' ' ∷ version))

is_empty-append : (s : Bytes) (c : ℕ) (t : Bytes) → is_empty (s ++ c ∷ t) ≡ false
is_empty-append [] c t = refl
is_empty-append (d ∷ s) c t = refl

headers_text-shape :
    (k v hs tail : Bytes)
    → (header_line k v ++ hs) ++ tail ≡ (k ++ b':' ∷ b' ' ∷ v) ++ crlf (hs ++ tail)
headers_text-shape k v hs tail = simp append_assoc

header-IsLine : (k v : Bytes) → IsLine k → IsLine v → IsLine (k ++ b':' ∷ b' ' ∷ v)
header-IsLine k v p q = IsLine-append k _ p ((refl, refl), ((refl, refl), q))

read_headers-text :
    (f : ℕ) (m hs : List (Bytes × Bytes)) (body : Bytes) (e : Ending)
    → All IsHeader hs
    → length hs < f
    → read_headers f m (file (headers_text hs ++ crlf body) e) ≡ ok (inserts m hs, file body e)
unfolding read_headers
read_headers-text zero m hs body e p h = absurd (omega arith)
read_headers-text (suc f) m [] body e p h = refl
read_headers-text (suc f) m ((k, v) ∷ hs) body e p h =
    step _
      (ap (λ bs. read_line (file bs e)) (headers_text-shape k v (headers_text hs) (crlf body))
        ∙ read_line-crlf (k ++ b':' ∷ b' ' ∷ v) _ e (header-IsLine k v p.0.key_line p.0.value_line)
            (omega (arith, p.0.fits, length-append k (b':' ∷ b' ' ∷ v))))
      (rw (is_empty-append k b':' (b' ' ∷ v)) (
        step _ (parse_header-line k v p.0.no_colon)
          (read_headers-text f (insert m (k, v)) hs body e p.1 (omega arith))))

length-headers_text : (hs : List (Bytes × Bytes)) → length hs ≤ length (headers_text hs)
length-headers_text [] = omega arith
length-headers_text ((k, v) ∷ hs) = omega (
  arith,
  length-headers_text hs,
  length-append (header_line k v) (headers_text hs),
  length-append k (b':' ∷ b' ' ∷ (v ++ crlf [])),
)

request_line-not_empty :
    (m : Method) (path version : Bytes) → is_empty (request_line m path version) ≡ false
unfolding request_line method_text
request_line-not_empty get path version = refl
request_line-not_empty post path version = refl

-- `ParseRequest` takes the text of a request apart into the method, the path and the headers, inserted
-- in turn, and leaves the stream at the body, if the path and the version fit on a line with the
-- method, no space stands in the path and no colon in the name of a header, and no header line is
-- longer than 253 bytes.
pub parse_request-request_text :
    (addr : Bytes) (m : Method) (path version : Bytes) (hs : List (Bytes × Bytes)) (body : Bytes)
    (e : Ending)
    → IsRequestLine path version
    → All IsHeader hs
    → parse_request addr (file (request_text m path version hs body) e)
      ≡ ok (record {
        addr = addr;
        method = m;
        path = path;
        headers = inserts [] hs;
        stream = file body e;
      })
unfolding parse_request
parse_request-request_text addr m path version hs body e p q =
    step _
      (read_line-crlf (request_line m path version) (headers_text hs ++ crlf body) e
        (request_line-IsLine m path version p)
        (omega (arith, p.fits, length-request_line m path version)))
      (rw (request_line-not_empty m path version) (
        step _ (parse_method-request_line m path version) (
          step _ (parse_path-line m path version p.no_space) (
            step _
              (read_headers-text (header_fuel (file (headers_text hs ++ crlf body) e)) [] hs body e
                q
                (omega
                  (arith, length-headers_text hs, length-append (headers_text hs) (crlf body))))
              refl))))
