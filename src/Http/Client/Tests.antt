-- ===== src/Http/Client/Tests.antt =====
-- A call of the client over connections that are reset, aborted and slow.
use gabby.Http.Client.Sent.{IsShort}
use gabby.Base.{
  ℕ, zero, suc, ◌<◌, some, ◌≡◌, refl, List, [], ◌∷◌, ◌++◌, Bytes, codes, decimal, arith,
}
use gabby.Outcome.{ok, throws, std_error}
use gabby.Json.Source.{eof}
use gabby.Http.Types.{get, method_text}
use gabby.Http.RequestText.{request_line}
use gabby.Http.Client.{
  Connection, Incoming, accepts, refuses, econnreset, econnaborted, attempt, call, find_text,
  empty_line,
}
use gabby.Http.Client.Reply.{IsOpen, Carries, Resets, call_text, call-reply, call-gives_up}

-- What was sent comes back, in one chunk.
abbrev echo : Bytes → Incoming
echo sent = record { chunks = sent ∷ []; ending = eof }

abbrev connections : ℕ → Connection
connections zero = record {
  failures = [];
  answers = accepts 3 ∷ refuses econnreset ∷ [];
  reply = echo;
}
connections (suc i) = record {
  failures = econnaborted ∷ [];
  answers = accepts 0 ∷ accepts 7 ∷ [];
  reply = echo;
}

abbrev headers : List (Bytes × Bytes)
headers = (codes "A", codes "b") ∷ []

sent_text :
    call_text get (codes "/x") headers (codes "hi")
    ≡ codes "GET /x HTTP/1.1\r\nA: b\r\nA: b\r\n"
      ++ codes "Content-Length: 2\r\nContent-Length: 2\r\n\r\nhi"
unfolding decimal request_line
sent_text = refl

first_resets : (j : ℕ) → j < 1 → Resets get (codes "/x") headers (codes "hi") connections j
unfolding attempt
first_resets zero h = refl
first_resets (suc j) h = absurd (omega arith)

second-IsOpen : IsOpen (connections 1)
second-IsOpen = record { connects = (refl, tt); writes = (tt, (tt, tt)) }

echo-Carries :
    Carries
      (echo (call_text get (codes "/x") headers (codes "hi")))
      (call_text get (codes "/x") headers (codes "hi"))
unfolding decimal request_line
echo-Carries = record { nonempty = (refl, tt); whole = refl; ends = refl }

request-IsShort : IsShort get (codes "/x") headers (codes "hi")
unfolding method_text
request-IsShort = record { line = omega arith; heads = (omega arith, tt); data_size = omega arith }

call-reply_example :
    call connections get (codes "/x") headers (codes "hi")
    ≡ ok (call_text get (codes "/x") headers (codes "hi"))
call-reply_example =
    call-reply get (codes "/x") headers (codes "hi") connections 1 _ (omega arith) first_resets
      request-IsShort second-IsOpen echo-Carries

-- Every connection is reset.
abbrev resets : ℕ → Connection
resets i = record { failures = []; answers = refuses econnreset ∷ []; reply = echo }

three_resets :
    call resets get (codes "/x") [] [] ≡ throws (std_error (codes "exceeded max retries"))
unfolding attempt
three_resets = call-gives_up get (codes "/x") [] [] resets refl refl refl

-- The text in front of the empty line is skipped over.
split_found : find_text empty_line (codes "HTTP\r\nA: b\r\n\r\nx\r\n\r\n") ≡ some 10
unfolding find_text
split_found = refl
