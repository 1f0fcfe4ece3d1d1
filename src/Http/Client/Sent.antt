-- ===== src/Http/Client/Sent.antt =====
-- src/http/test_client.cc: what the client puts on the wire, however `write` cuts it up.
use gabby.Http.Digits.{length-decimal}
use gabby.Base.{
  List, [], ◌∷◌, ◌++◌, Bytes, codes, length, take, drop, take-drop, is_empty, decimal, ◌≡◌, refl,
  sym, ap, subst, ◌∙◌, append_assoc, append-nil, All, if◌then◌else◌, arith, ℕ, ◌<◌, ◌^◌, ltb, true,
  length-append,
}
use gabby.Outcome.{ok, Run, pure, ◌>>◌}
use gabby.Http.Types.{Method, method_text}
use gabby.Http.Framing.{crlf}
use gabby.Http.Writer.{header_line}
use gabby.Http.ResponseText.{headers_text}
use gabby.Http.RequestText.{request_line, request_text}
use gabby.Http.Client.{
  Answer, accepts, refuses, ClientSocket, socket, write_rest, write, write_header, write_headers,
  write_length, write_body, write_request,
}

-- No call of `write` fails.
abbrev pub Accepts : Answer → Type 0
Accepts (accepts n) = Unit
Accepts (refuses e) = ⊥

-- Where no call of `write` fails, the run ends and sends just these bytes.
pub record Sends (m : Run ClientSocket (Unit {0})) (text : Bytes) : Type 0 where
  pub run :
      (sent : Bytes) (answers : List Answer)
      → All Accepts answers
      → (left : List Answer) × (All Accepts left
          × (m (socket sent answers) ≡ ok (tt, socket (sent ++ text) left)))

Sends-nothing : Sends (pure tt) []
Sends-nothing = record {
  run =
      λ sent answers p. (answers, (p, ap (λ s. ok (tt, socket s answers)) (sym (append-nil sent))));
}

Sends-then :
    {m n : Run ClientSocket (Unit {0})} {a b : Bytes}
    → Sends m a
    → Sends n b
    → Sends (m >> n) (a ++ b)
Sends-then {a = a} {b = b} f g = record {
  run = λ sent answers p.
      let (left, (q, e)) = f.run sent answers p in
      let (rest, (r, h)) = g.run (sent ++ a) left q in
      (rest, (r, rw e (h ∙ ap (λ s. ok (tt, socket s rest)) (append_assoc sent a b))));
}

write_rest-accepted :
    (answers : List Answer) (body sent : Bytes)
    → All Accepts answers
    → (left : List Answer) × (All Accepts left
        × (write_rest answers body sent ≡ ok (tt, socket (sent ++ body) left)))
unfolding write_rest
write_rest-accepted [] body sent p = ([], (tt, refl))
write_rest-accepted (accepts n ∷ more) [] sent p =
    (accepts n ∷ more, (p, ap (λ s. ok (tt, socket s (accepts n ∷ more))) (sym (append-nil sent))))
write_rest-accepted (accepts n ∷ more) (c ∷ cs) sent p =
    let (left, (q, e)) = write_rest-accepted more (drop n (c ∷ cs)) (sent ++ take n (c ∷ cs)) p.1 in
    (
      left,
      (
        q,
        e
            ∙ ap (λ s. ok (tt, socket s left))
                (append_assoc sent (take n (c ∷ cs)) (drop n (c ∷ cs))
                  ∙ ap (λ s. sent ++ s) (take-drop n (c ∷ cs))),
      ),
    )
write_rest-accepted (refuses e ∷ more) body sent p = absurd p.0

fits : (n : ℕ) → n < 2 ^ 31 → ltb n (2 ^ 31) ≡ true
fits n h = ground arith

Sends-write : (body : Bytes) → length body < 2 ^ 31 → Sends (write body) body
unfolding write
Sends-write [] h = record { run = Sends-nothing.run }
Sends-write (c ∷ cs) h = record {
  run =
      λ sent answers p. rw (fits (length (c ∷ cs)) h) (write_rest-accepted answers (c ∷ cs) sent p);
}

-- the headers as the client writes them
abbrev pub doubled : List (Bytes × Bytes) → List (Bytes × Bytes)
doubled [] = []
doubled (h ∷ hs) = h ∷ h ∷ doubled hs

abbrev pub IsShortHeader : Bytes × Bytes → Type 0
IsShortHeader (key, value) = length (header_line key value) < 2 ^ 31

Sends-header :
    (key value : Bytes)
    → IsShortHeader (key, value)
    → Sends (write_header key value) (header_line key value)
unfolding write_header
Sends-header key value h = Sends-write (header_line key value) h

Sends-twice :
    (key value : Bytes)
    → IsShortHeader (key, value)
    → Sends
        (write_header key value >> write (header_line key value))
        (header_line key value ++ header_line key value)
Sends-twice key value h =
    Sends-then (Sends-header key value h) (Sends-write (header_line key value) h)

Sends-headers :
    (headers : List (Bytes × Bytes))
    → All IsShortHeader headers
    → Sends (write_headers headers) (headers_text (doubled headers))
unfolding write_headers
Sends-headers [] p = Sends-nothing
Sends-headers ((key, value) ∷ headers) p =
    subst (Sends _) (append_assoc (header_line key value) (header_line key value) _)
      (Sends-then (Sends-twice key value p.0) (Sends-headers headers p.1))

-- The length of the body and the body, if it is not empty.
abbrev pub length_header : Bytes → List (Bytes × Bytes)
length_header body =
    if is_empty body then [] else (codes "Content-Length", decimal (length body)) ∷ []

length_line : (n : ℕ) → n < 2 ^ 31 → IsShortHeader (codes "Content-Length", decimal n)
length_line n h = omega (arith, length-decimal n h, length-append (decimal n) (b'\r' ∷ b'\n' ∷ []))

Sends-length :
    (body : Bytes)
    → length body < 2 ^ 31
    → Sends (write_length body) (headers_text (doubled (length_header body)))
unfolding write_length
Sends-length [] h = Sends-nothing
Sends-length (c ∷ cs) h =
    let size = decimal (length (c ∷ cs)) in
    subst (Sends _) (sym (ap (λ t. header_line (codes "Content-Length") size ++ t) (append-nil _)))
      (Sends-twice (codes "Content-Length") size (length_line (length (c ∷ cs)) h))

Sends-body : (body : Bytes) → length body < 2 ^ 31 → Sends (write_body body) body
unfolding write_body
Sends-body [] h = Sends-nothing
Sends-body (c ∷ cs) h = Sends-write (c ∷ cs) h

headers_text-append :
    (hs ks : List (Bytes × Bytes)) → headers_text (hs ++ ks) ≡ headers_text hs ++ headers_text ks
headers_text-append [] ks = refl
headers_text-append ((k, v) ∷ hs) ks =
    ap (λ t. header_line k v ++ t) (headers_text-append hs ks)
    ∙ sym (append_assoc (header_line k v) (headers_text hs) (headers_text ks))

-- the pieces that are written, and the text of the request
request_shape :
    (m : Bytes) (path : Bytes) (hs ks : List (Bytes × Bytes)) (body : Bytes)
    → (m ++ (b' ' ∷ (path ++ codes " HTTP/1.1\r\n")))
        ++ (headers_text hs ++ (headers_text ks ++ crlf body))
      ≡ (m ++ (b' ' ∷ (path ++ b' ' ∷ codes "HTTP/1.1")))
        ++ crlf (headers_text (hs ++ ks) ++ crlf body)
request_shape m path hs ks body = simp (append_assoc, headers_text-append)

-- The request line, each header and the body are shorter than 2^31 bytes.
pub record IsShort (method : Method) (path : Bytes) (headers : List (Bytes × Bytes)) (body : Bytes)
    : Type 0 where
  pub line : length (method_text method ++ (b' ' ∷ (path ++ codes " HTTP/1.1\r\n"))) < 2 ^ 31
  pub heads : All IsShortHeader headers
  pub data_size : length body < 2 ^ 31

pub Sends-request :
    (method : Method) (path : Bytes) (headers : List (Bytes × Bytes)) (body : Bytes)
    → IsShort method path headers body
    → Sends (write_request method path headers body) (
        request_text method path
          (codes "HTTP/1.1")
          (doubled headers ++ doubled (length_header body))
          body)
unfolding write_request request_line
Sends-request method path headers body short =
    subst (Sends _)
      (request_shape (method_text method) path (doubled headers) (doubled (length_header body))
        body)
      (Sends-then (Sends-write _ short.line) (
        Sends-then (Sends-headers headers short.heads) (
          Sends-then (Sends-length body short.data_size)
            (Sends-then (Sends-write (crlf []) (omega arith)) (Sends-body body short.data_size)))))
