-- ===== src/Service/Completion.antt =====
-- src/service.cc, `ChatCompletions`: from the request that `ParseRequest` leaves to the response.
use gabby.Base.{
  true, Option, some, none, List, [], ◌++◌, Bytes, codes, length, has_value, ◌≡◌, refl, ap, ◌∙◌,
  ◌<◌, ◌^◌, append-nil,
}
use gabby.Outcome.{Exception, bad_request, Outcome, ok, throws, aborts, out_of_fuel, bind, step}
use gabby.Json.Value.{Value, print}
use gabby.Json.Source.{Ending, Size, plus}
use gabby.Json.Parse.{parse_stream}
use gabby.Json.Total.Stream.{value_only, parse_stream-parse_string}
use gabby.Json.RoundTrip.Printable.{IsPrintable}
use gabby.Json.RoundTrip.Whole.{parse_string-print}
use gabby.Http.Types.{Method, post, Request, ok_status}
use gabby.Http.Framing.{file}
use gabby.Http.Request.{header}
use gabby.Http.Writer.{Writer, writer, store, write_status, write_data, ◌then◌}
use gabby.Http.ResponseText.{
  open_sink, open_writer, head_text, response_text, write_status-open, write_data-open_first,
  after-ok,
}
use gabby.Http.Headers.{header-inserts}
use gabby.Http.RequestText.{inserts}
use gabby.Http.Server.{finish}
use gabby.Http.Delivery.{connection_close}
use gabby.Service.{
  Platform, completion, chat_completions, check_method, get_int_header, get_header, answer_to,
  or_throw, given,
}

-- the request as `ParseRequest` leaves it
abbrev pub received : Bytes → Method → Bytes → List (Bytes × Bytes) → Bytes → Ending → Request
received addr m path hs body e = record {
  addr = addr;
  method = m;
  path = path;
  headers = inserts [] hs;
  stream = file body e;
}

-- The request body is read back from the stream.
body-read :
    (env : Platform) (q : Value) (e : Ending)
    → IsPrintable env.show_double env.stod q
    → length (print env.show_double q) < 2 ^ 31
    → value_only (
        parse_stream env.stod
          (file (print env.show_double q) e)
          (plus (length (print env.show_double q))))
      ≡ ok q
body-read env q e p short =
    rw append-nil at (parse_stream-parse_string env.stod (print env.show_double q) [] e short)
    ∙ parse_string-print env.show_double env.stod q p short

bind-value_only :
    {S : Type 0} (x : Outcome (Value × S)) (q : Value) {B : Type 0} (f : Value → Outcome B)
    → value_only x ≡ ok q
    → bind x (λ (v, s). f v) ≡ f q
bind-value_only (ok (v, s)) q f h = ap (λ r. bind r f) h
bind-value_only (throws x) q f h = cc
bind-value_only aborts q f h = cc
bind-value_only out_of_fuel q f h = cc

or_throw-some {ℓ} :
    {A : Type ℓ} (x : Exception) {o : Option A} {a : A} → o ≡ some a → or_throw x o ≡ ok a
or_throw-some x h = ap (or_throw x) h

get_header-found :
    (req : Request) (key v : Bytes) → header req.headers key ≡ some v → get_header req key ≡ ok v
unfolding get_header
get_header-found req key v h = or_throw-some (bad_request (codes "missing header: " ++ key)) h

get_int_header-found :
    (stoi : Bytes → Option Size) (req : Request) (key v : Bytes) (n : Size)
    → header req.headers key ≡ some v
    → stoi v ≡ some n
    → get_int_header stoi req key ≡ ok n
unfolding get_int_header
get_int_header-found stoi req key v n h k =
    step
      (λ v.
        or_throw (bad_request (codes "invalid value for header " ++ (key ++ (codes ": " ++ v))))
          (stoi v))
      (get_header-found req key v h) (or_throw-some _ k)

pub completion-answer :
    (env : Platform) (addr path : Bytes) (hs : List (Bytes × Bytes)) (size : Bytes) (q : Value)
    (e : Ending)
    → header hs (codes "Content-Length") ≡ some size
    → env.stoi size ≡ some (plus (length (print env.show_double q)))
    → IsPrintable env.show_double env.stod q
    → length (print env.show_double q) < 2 ^ 31
    → completion env (received addr post path hs (print env.show_double q) e) ≡ answer_to env q
unfolding completion check_method
completion-answer env addr path hs size q e h k p short =
    let req = received addr post path hs (print env.show_double q) e in
    step (λ n. bind (parse_stream env.stod req.stream n) λ (json, _). answer_to env json)
      (get_int_header-found env.stoi req (codes "Content-Length") size _
        (header-inserts hs (codes "Content-Length") ∙ h) k)
      (bind-value_only _ q (answer_to env) (body-read env q e p short))

pub finish-ok : (w : Writer) → has_value w.status ≡ true → finish (ok tt, w) ≡ ok w
unfolding finish
finish-ok w h = rw h refl

-- A JSON text written with the status 200.
pub answer-open :
    (s : Bytes)
    → (write_status ok_status then write_data s) (writer (open_sink []))
      ≡ (ok tt, open_writer (response_text ok_status [] s) (some ok_status) connection_close true)
unfolding store
answer-open s =
    after-ok (write_data s) (write_status-open [] none [] ok_status)
    ∙ write_data-open_first (head_text ok_status) ok_status _ s

pub chat_completions-completion :
    (env : Platform) (req : Request) (o : Outcome Value)
    → completion env req ≡ o
    → chat_completions env req (writer (open_sink []))
      ≡ given o
          (λ v. write_status ok_status then write_data (print env.show_double v))
          (writer (open_sink []))
unfolding chat_completions
chat_completions-completion env req o h = rw h refl
