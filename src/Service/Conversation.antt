-- ===== src/Service/Conversation.antt =====
-- src/http/test_client.cc, `PostJson`, and src/service.cc behind src/http/server.cc: a client and the
-- service, from the JSON value that is asked to the JSON value that is answered.
use gabby.Base.{
  ℕ, ◌^◌, ◌<◌, Bool, true, false, Option, none, some, if◌then◌else◌, List, [], ◌∷◌, ◌++◌, Bytes,
  codes, bytes_eq, length, drop, is_empty, decimal, ◌≡◌, refl, sym, ap, ◌∙◌, arith, All, subst,
}
use gabby.Outcome.{Outcome, Exception, ok, throws, step, std_error}
use gabby.Json.Value.{Value, print}
use gabby.Json.Source.{Ending, plus}
use gabby.Json.RoundTrip.Printable.{IsPrintable, HasText}
use gabby.Json.RoundTrip.Reread.{Rereads, reread, print-reread, reread-IsPrintable}
use gabby.Json.RoundTrip.Peeks.{length-print_pos}
use gabby.Json.RoundTrip.Spaces.{parse_string-spaces}
use gabby.Http.Types.{
  StatusCode, post, ok_status, bad_request_status, not_found_status, request_timeout,
  internal_server_error, status_number, status_text, method_text,
}
use gabby.Http.Framing.{file, tested-IsLine}
use gabby.Http.Request.{header}
use gabby.Http.Writer.{Writer, status_line}
use gabby.Http.ResponseText.{open_sink, response_text, head_text}
use gabby.Http.RequestText.{IsRequestLine, IsHeader, request_text, tested-Without, found-some}
use gabby.Config.{ServerConfig}
use gabby.Http.Connection.{System, task}
use gabby.Http.Task.{Succeeds, task-handle}
use gabby.Http.Server.{handle, caught}
use gabby.Http.Digits.{decimal-IsLine, length-decimal}
use gabby.Http.Client.{Connection, Incoming, find_text, empty_line, post_json, call}
use gabby.Json.Parse.{parse_string}
use gabby.Http.Client.Sent.{doubled}
use gabby.Http.Client.Reply.{IsOpen, Carries, Resets, call_text, call-reply}
use gabby.Service.{Platform, answer_to, service}
use gabby.Service.Answers.{handle-chat, handle-chat_refused}

abbrev pub chat_path : Bytes
chat_path = codes "/v1/chat/completions"

-- Where the service runs: its patterns and its model, the answers of the system calls for a connection
-- and the limits it is given, the address of the client, and what stands behind the bytes that it sends.
pub record Host : Type 0 where
  pub regex_match : Bytes → Bytes → Bool
  pub platform : Platform
  pub system : System
  pub config : ServerConfig
  pub addr : Bytes
  pub ending : Ending

-- the task of the worker that gets the connection, with the bytes that the client sends
abbrev pub answered : Host → Bytes → Outcome (Option Writer)
answered h sent =
    task h.system h.config (service h.regex_match h.platform) h.addr (λ limit. file sent h.ending)
      (open_sink [])

-- The other end of a connection is the service: what the worker writes for the bytes that were sent
-- comes back.
pub record Serves (h : Host) (reply : Bytes → Incoming) : Type 0 where
  pub carried :
      (sent : Bytes) (w : Writer)
      → answered h sent ≡ ok (some w)
      → Carries (reply sent) w.stream.taken

-- the header with the length of the body, as often as the client writes it
abbrev length_twice : Bytes → List (Bytes × Bytes)
length_twice size = (codes "Content-Length", size) ∷ (codes "Content-Length", size) ∷ []

length-IsHeader : (n : ℕ) → n < 2 ^ 31 → IsHeader (codes "Content-Length", decimal n)
length-IsHeader n h = record {
  key_line = tested-IsLine (codes "Content-Length") refl;
  value_line = decimal-IsLine n;
  no_colon = tested-Without b':' (codes "Content-Length") refl;
  fits = omega (arith, length-decimal n h);
}

pub chat-IsRequestLine : IsRequestLine chat_path (codes "HTTP/1.1")
chat-IsRequestLine = record {
  path_line = tested-IsLine chat_path refl;
  version_line = tested-IsLine (codes "HTTP/1.1") refl;
  no_space = tested-Without b' ' chat_path refl;
  fits = omega arith;
}

first_length : (size : Bytes) → header (length_twice size) (codes "Content-Length") ≡ some size
unfolding header bytes_eq
first_length size = refl

call_text-chat :
    (body : Bytes)
    → is_empty body ≡ false
    → call_text post chat_path [] body
      ≡ request_text post chat_path (codes "HTTP/1.1") (length_twice (decimal (length body))) body
call_text-chat body h =
    ap
      (λ b.
        request_text post chat_path (codes "HTTP/1.1")
          (doubled (if b then [] else (codes "Content-Length", decimal (length body)) ∷ [])) body)
      h

not_empty : (s : Bytes) → 0 < length s → is_empty s ≡ false
not_empty [] h = absurd (omega arith)
not_empty (c ∷ s) h = refl

-- The empty line behind the headers of an answer is the first.
find_text-answer : (s : Bytes) → find_text empty_line (response_text ok_status [] s) ≡ some 34
unfolding find_text status_line decimal status_number status_text
find_text-answer s = refl

drop-answer : (s : Bytes) → drop 34 (response_text ok_status [] s) ≡ empty_line ++ s
unfolding status_line decimal status_number status_text
drop-answer s = refl

post_json-answer :
    (show_double : ℕ → Bytes) (stod : Bytes → Option ℕ) (connections : ℕ → Connection) (q r : Value)
    → HasText (Rereads show_double stod) r
    → length (empty_line ++ print show_double r) < 2 ^ 31
    → call connections post chat_path [] (print show_double q)
      ≡ ok (response_text ok_status [] (print show_double r))
    → post_json show_double stod connections chat_path q ≡ ok (reread show_double stod r)
unfolding post_json
post_json-answer show_double stod connections q r p short h = step _ h (
    found-some _ _ (find_text-answer (print show_double r)) (
      ap (parse_string stod) (drop-answer (print show_double r))
      ∙ (ap (λ t. parse_string stod (empty_line ++ t)) (sym (print-reread show_double stod r p))
          ∙ parse_string-spaces show_double stod empty_line (reread show_double stod r)
              (refl, (refl, (refl, (refl, tt)))) (reread-IsPrintable show_double stod r p)
              (subst (λ t. length (empty_line ++ t) < 2 ^ 31)
                (sym (print-reread show_double stod r p)) short))))

-- A response of a status alone has no empty line.
find_text-status : (c : StatusCode) → find_text empty_line (head_text c) ≡ none
unfolding find_text status_line decimal status_number status_text
find_text-status ok_status = refl
find_text-status bad_request_status = refl
find_text-status not_found_status = refl
find_text-status request_timeout = refl
find_text-status internal_server_error = refl

post_json-status :
    (show_double : ℕ → Bytes) (stod : Bytes → Option ℕ) (connections : ℕ → Connection) (q : Value)
    (c : StatusCode)
    → call connections post chat_path [] (print show_double q) ≡ ok (head_text c)
    → post_json show_double stod connections chat_path q
      ≡ throws (std_error (codes "invalid http response"))
unfolding post_json
post_json-status show_double stod connections q c h = step _ h (rw (find_text-status c) refl)

-- What one `PostJson` to the chat path of the service rests on: after at most two connections that are
-- reset, one that leads to the service and on which neither `write` nor the worker's system calls and its flush fail; a
-- printable value, whose text is shorter than 2^31 bytes and whose length `std::stoi` reads back; and
-- patterns that tell the paths apart.
pub record Asks (h : Host) (connections : ℕ → Connection) (n : ℕ) (q : Value) : Type 0 where
  pub few : n < 3
  pub resets :
      (j : ℕ) → j < n → Resets post chat_path [] (print h.platform.show_double q) connections j
  pub is_open : IsOpen (connections n)
  pub serves : Serves h (connections n).reply
  pub succeeds : Succeeds h.system h.config
  pub miss : h.regex_match (codes "/healthz") chat_path ≡ false
  pub hit : h.regex_match chat_path chat_path ≡ true
  pub short : length (print h.platform.show_double q) < 2 ^ 31
  pub size_read :
      h.platform.stoi (decimal (length (print h.platform.show_double q)))
      ≡ some (plus (length (print h.platform.show_double q)))
  pub printable : IsPrintable h.platform.show_double h.platform.stod q

line_short : length (method_text post ++ (b' ' ∷ (chat_path ++ codes " HTTP/1.1\r\n"))) < 2 ^ 31
unfolding method_text
line_short = omega arith

module _ (h : Host) (connections : ℕ → Connection) (n : ℕ) (q : Value)
    (asks : Asks h connections n q) where
  abbrev env : Platform
  env = h.platform

  abbrev body : Bytes
  body = print env.show_double q

  abbrev sent_size : Bytes
  sent_size = decimal (length body)

  sent-IsHeader : All IsHeader (length_twice sent_size)
  sent-IsHeader = let one = length-IsHeader (length body) asks.short in (one, (one, tt))

  -- `Call` gives what the service writes.
  call-served :
      (w : Writer)
      → handle h.system.fflush
          (service h.regex_match env)
          h.addr
          (file
            (request_text post chat_path (codes "HTTP/1.1") (length_twice sent_size) body)
            h.ending)
          (open_sink [])
        ≡ ok w
      → call connections post chat_path [] body ≡ ok w.stream.taken
  call-served w e =
      let nonempty =
        not_empty body (length-print_pos env.show_double env.stod 0 q asks.printable) in
      call-reply post chat_path [] body connections n _ asks.few asks.resets
        (record { line = line_short; heads = tt; data_size = asks.short }) asks.is_open
        (asks.serves.carried _ w (
          ap (answered h) (call_text-chat body nonempty)
          ∙ task-handle h.system h.config _ h.addr _ _ w asks.succeeds e))

  -- `PostJson` to the chat path gives back, as a JSON value, the service's answer to the JSON value that
  -- it was given, with each number as it is read from its printed text: the 1111111111 under "created",
  -- which is printed as 1.11111e+09, comes back as 1111110000. The answer has strings without quotes,
  -- backslashes and newlines and no key twice, its numbers are printed as numerals, and a number so read
  -- is printed as it was before; the value that is asked is printable. The text of the value and that of
  -- the answer, with four bytes in front, are shorter than 2^31 bytes, and `std::stoi` reads the length
  -- of the first back. The connection, after at most two that are reset, leads to the service, neither
  -- `write` nor a system call of the worker nor the flush fails on it, and the patterns tell the paths
  -- apart.
  pub post_json-chat :
      (r : Value)
      → answer_to env q ≡ ok r
      → HasText (Rereads env.show_double env.stod) r
      → length (empty_line ++ print env.show_double r) < 2 ^ 31
      → post_json env.show_double env.stod connections chat_path q
        ≡ ok (reread env.show_double env.stod r)
  post_json-chat r x p short = post_json-answer env.show_double env.stod connections q r p short (
      call-served _ (
        handle-chat h.system.fflush asks.succeeds.flushes h.regex_match env h.addr
          (codes "HTTP/1.1") (length_twice sent_size) sent_size q r h.ending chat-IsRequestLine
          sent-IsHeader asks.miss asks.hit (first_length sent_size) asks.size_read asks.printable
          asks.short x))

  -- Where the service has no answer to the value but an exception, `PostJson` throws, since the response
  -- is a status alone, without an empty line behind the headers: the client does not learn the status.
  -- The value and the connections are as for a value that is answered.
  pub post_json-refused :
      (x : Exception)
      → answer_to env q ≡ throws x
      → post_json env.show_double env.stod connections chat_path q
        ≡ throws (std_error (codes "invalid http response"))
  post_json-refused x refused = post_json-status env.show_double env.stod connections q (caught x) (
      call-served _ (
        handle-chat_refused h.system.fflush asks.succeeds.flushes h.regex_match env h.addr
          (codes "HTTP/1.1") (length_twice sent_size) sent_size q x h.ending chat-IsRequestLine
          sent-IsHeader asks.miss asks.hit (first_length sent_size) asks.size_read asks.printable
          asks.short refused))
