-- ===== src/Http/Client.antt =====
-- src/http/test_client.cc: the client that the tests of the server and of the service talk to it with.
pub mod Sent
pub mod Reply
mod Tests
use gabby.Base.{
  ℕ, zero, suc, Option, none, some, List, [], ◌∷◌, ◌++◌, Bytes, codes, ◌==◌, Bool, true, false,
  ◌&&◌, length, take, drop, is_empty, decimal, if◌then◌else◌, ltb, ◌^◌,
}
use gabby.Outcome.{
  Exception, Outcome, ok, throws, aborts, out_of_fuel, bind, Run, pure, ◌>>=◌, ◌>>◌, std_error,
  system_error,
}
use gabby.Json.Value.{Value, print}
use gabby.Json.Source.{Ending, eof, again, failed}
use gabby.Json.Scan.{eagain}
use gabby.Json.Parse.{parse_string}
use gabby.Http.Types.{Method, post, method_text}
use gabby.Http.Request.{found}
use gabby.Http.Writer.{header_line}

-- What `write` answers to a call: it takes some of the bytes, or it fails with an errno.
pub data Answer : Type 0 where
  accepts refuses : ℕ → Answer

-- What `read` gives until it gives nothing: the chunks, and what then stops it.
pub record Incoming : Type 0 where
  pub chunks : List Bytes
  pub ending : Ending

-- `class UnbufferedClientSocket`: the bytes that have been sent, and the answers of `write` to the
-- next calls. Behind the last answer it takes all that it is given.
pub record ClientSocket : Type 0 where
  pub sent : Bytes
  pub answers : List Answer

-- One connection: the errnos with which `connect` fails before it succeeds, the answers of `write`,
-- and what comes back for what was sent.
pub record Connection : Type 0 where
  pub failures : List ℕ
  pub answers : List Answer
  pub reply : Bytes → Incoming

-- The numbers of Linux.
abbrev pub econnaborted : ℕ
econnaborted = 103

abbrev pub econnreset : ℕ
econnreset = 104

abbrev pub socket : Bytes → List Answer → ClientSocket
socket sent answers = record { sent = sent; answers = answers }

-- The constructor: the loop round `connect`.
unfoldable pub connect : List ℕ → Outcome (Unit {0})
connect [] = ok tt
connect (e ∷ es) =
    let rest = connect es in if e == econnaborted then rest else throws (system_error e)

-- The loop of `Write`, on the bytes that are left.
unfoldable pub write_rest : List Answer → Bytes → Bytes → Outcome (Unit {0} × ClientSocket)
write_rest [] body sent = ok (tt, socket (sent ++ body) [])
write_rest (accepts n ∷ more) body sent =
    let rest = write_rest more (drop n body) (sent ++ take n body) in
    if is_empty body then ok (tt, socket sent (accepts n ∷ more)) else rest
write_rest (refuses e ∷ more) body sent =
    if is_empty body then ok (tt, socket sent (refuses e ∷ more)) else throws (system_error e)

-- `UnbufferedClientSocket::Write`. An `int` counts the bytes: for 2^31 or more it overflows on the way,
-- which is undefined, and the model aborts.
unfoldable pub write : Bytes → Run ClientSocket (Unit {0})
unfolding write_rest
write body s =
    if is_empty body
    then ok (tt, s)
    else if ltb (length body) (2 ^ 31)
    then write_rest s.answers body s.sent
    else aborts

-- `UnbufferedClientSocket::ReadAll`
unfoldable pub read_all : List Bytes → Ending → Bytes → Outcome Bytes
read_all [] eof body = ok body
read_all [] again body = throws (system_error eagain)
read_all [] (failed e) body = throws (system_error e)
read_all (c ∷ cs) ending body =
    let rest = read_all cs ending (body ++ c) in if is_empty c then ok body else rest

-- `WriteHeader`
unfoldable pub write_header : Bytes → Bytes → Run ClientSocket (Unit {0})
unfolding write
write_header key value = write (header_line key value)

-- the loop over the headers, which writes each of them twice
unfoldable pub write_headers : List (Bytes × Bytes) → Run ClientSocket (Unit {0})
unfolding write write_header
write_headers [] = pure tt
write_headers ((key, value) ∷ headers) =
    write_header key value >> write (header_line key value) >> write_headers headers

-- the two tests of `data.empty()`
unfoldable pub write_length : Bytes → Run ClientSocket (Unit {0})
unfolding write write_header
write_length body =
    if is_empty body
    then pure tt
    else write_header (codes "Content-Length") (decimal (length body))
      >> write (header_line (codes "Content-Length") (decimal (length body)))

unfoldable pub write_body : Bytes → Run ClientSocket (Unit {0})
unfolding write
write_body body = if is_empty body then pure tt else write body

-- what `Call` writes
unfoldable pub write_request :
    Method → Bytes → List (Bytes × Bytes) → Bytes → Run ClientSocket (Unit {0})
unfolding write write_headers write_length write_body method_text
write_request method path headers body =
    write (method_text method ++ (b' ' ∷ (path ++ codes " HTTP/1.1\r\n")))
    >> (write_headers headers
        >> (write_length body >> (write (b'\r' ∷ b'\n' ∷ []) >> write_body body)))

-- the `try` block of `Call`
unfoldable pub attempt : Connection → Method → Bytes → List (Bytes × Bytes) → Bytes → Outcome Bytes
unfolding connect write_request read_all
attempt c method path headers body = bind (connect c.failures) λ _.
    bind (write_request method path headers body (socket [] c.answers))
      λ (_, s). read_all (c.reply s.sent).chunks (c.reply s.sent).ending []

-- the `catch` clause, with what the loop does next
abbrev pub retried : Outcome Bytes → Outcome Bytes → Outcome Bytes
retried (throws (system_error e)) next = if e == econnreset then next else throws (system_error e)
retried r next = r

-- the loop of `Call`, with the attempts that are left; `i` is the connection that comes next
unfoldable pub attempts :
    ℕ → (ℕ → Connection) → ℕ → Method → Bytes → List (Bytes × Bytes) → Bytes → Outcome Bytes
unfolding attempt
attempts zero connections i method path headers body =
    throws (std_error (codes "exceeded max retries"))
attempts (suc n) connections i method path headers body =
    retried (attempt (connections i) method path headers body)
      (attempts n connections (suc i) method path headers body)

-- `Call`, with `kNumRetries`
unfoldable pub call :
    (ℕ → Connection) → Method → Bytes → List (Bytes × Bytes) → Bytes → Outcome Bytes
unfolding attempts
call connections = attempts 3 connections 0

-- Does a text start with `t`?
abbrev pub is_prefix : Bytes → Bytes → Bool
is_prefix [] s = true
is_prefix (c ∷ t) [] = false
is_prefix (c ∷ t) (d ∷ s) = c == d && is_prefix t s

-- `find` of a string; `none` is `npos`
unfoldable pub find_text : Bytes → Bytes → Option ℕ
find_text t [] = if is_empty t then some 0 else none
find_text t (c ∷ s) =
    if is_prefix t (c ∷ s)
    then some 0
    else elim (find_text t s) [ none ↦ none | some i ↦ some (suc i) ]

-- the end of the headers
abbrev pub empty_line : Bytes
empty_line = b'\r' ∷ b'\n' ∷ b'\r' ∷ b'\n' ∷ []

-- `PostJson`; `substr(split)` starts with the empty line.
unfoldable pub post_json :
    (ℕ → Bytes) → (Bytes → Option ℕ) → (ℕ → Connection) → Bytes → Value → Outcome Value
unfolding call print find_text parse_string
post_json show_double stod connections path body =
    bind (call connections post path [] (print show_double body)) λ result.
      found (std_error (codes "invalid http response")) (find_text empty_line result)
        λ split. parse_string stod (drop split result)
