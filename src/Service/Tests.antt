-- ===== src/Service/Tests.antt =====
-- A conversation with the service, with stand-ins for the library's functions.
use gabby.Base.{
  ◌<◌, ◌^◌, ◌≡◌, refl, true, false, some, List, [], ◌∷◌, Bytes, codes, bytes_eq, length, All, arith,
}
use gabby.Outcome.{ok}
use gabby.Json.Value.{
  Value, string, array_value, object, no_items, item, no_fields, field, find, print,
}
use gabby.Json.Source.{plus, eof}
use gabby.Json.RoundTrip.Printable.{IsPrintable}
use gabby.Json.RoundTrip.Tokens.{IsPlain, tested-IsPlain}
use gabby.Http.Request.{header}
use gabby.Http.Types.{post, ok_status}
use gabby.Http.Framing.{file, tested-IsLine}
use gabby.Http.ResponseText.{open_sink, open_writer, response_text}
use gabby.Http.RequestText.{IsHeader, request_text, tested-Without}
use gabby.Http.Server.{handle}
use gabby.Http.Delivery.{connection_close}
use gabby.Json.Iterator.{Arrays}
use gabby.Json.Value.{items_size}
use gabby.Service.Roles.{search_for_role, search_for_role-find_message_for_role}
use gabby.Service.{find_message_for_role, Platform, answer_to, service}
use gabby.Service.Answers.{handle-chat}
use gabby.Service.Conversation.{chat-IsRequestLine}
use gabby.Service.Reading.{read_all, read_all-bytes}
use gabby.Json.Source.{again}

-- `stoi` reads every text as the size of the body below, `show_double` writes every double as `7`, and
-- the
-- generator repeats what the user says.
abbrev env : Platform
env = record {
  stod = λ s. some (length s);
  stoi = λ s. some (plus 84);
  show_double = λ d. codes "7";
  zero_double = 0;
  generate = λ q. record { role = codes "assistant"; content = q.user_message.content };
}

abbrev message : Bytes → Bytes → Value
message role content =
    object (field (codes "role") (string role) (field (codes "content") (string content) no_fields))

abbrev conversation : Value
conversation = object (
    field (codes "messages")
      (array_value (
        item (message (codes "system") (codes "s"))
          (item (message (codes "user") (codes "u")) no_items)))
      no_fields)

answer : (r : Value) × (answer_to env conversation ≡ ok r)
unfolding answer_to
answer = (_, refl)

message-IsPrintable :
    (role content : Bytes)
    → IsPlain role
    → IsPlain content
    → IsPrintable env.show_double env.stod (message role content)
unfolding find bytes_eq
message-IsPrintable role content p q = (
  (refl, (refl, tt)),
  (tested-IsPlain (codes "role") refl, (p, (tested-IsPlain (codes "content") refl, (q, tt)))),
)

conversation-IsPrintable : IsPrintable env.show_double env.stod conversation
unfolding find
conversation-IsPrintable = (
  (refl, tt),
  (
    tested-IsPlain (codes "messages") refl,
    (
      (
        message-IsPrintable (codes "system") (codes "s") (tested-IsPlain (codes "system") refl)
            (tested-IsPlain (codes "s") refl),
        (
          message-IsPrintable (codes "user") (codes "u") (tested-IsPlain (codes "user") refl)
              (tested-IsPlain (codes "u") refl),
          tt,
        ),
      ),
      tt,
    ),
  ),
)

abbrev headers : List (Bytes × Bytes)
headers = (codes "Content-Length", codes "84") ∷ []

headers-IsHeader : All IsHeader headers
headers-IsHeader = (
  record {
    key_line = tested-IsLine (codes "Content-Length") refl;
    value_line = tested-IsLine (codes "84") refl;
    no_colon = tested-Without b':' (codes "Content-Length") refl;
    fits = omega arith;
  },
  tt,
)

not_health : bytes_eq (codes "/healthz") (codes "/v1/chat/completions") ≡ false
unfolding bytes_eq
not_health = refl

is_chat : bytes_eq (codes "/v1/chat/completions") (codes "/v1/chat/completions") ≡ true
unfolding bytes_eq
is_chat = refl

size_header : header headers (codes "Content-Length") ≡ some (codes "84")
unfolding header bytes_eq
size_header = refl

body_size : env.stoi (codes "84") ≡ some (plus (length (print env.show_double conversation)))
unfolding print
body_size = refl

conversation_short : length (print env.show_double conversation) < 2 ^ 31
unfolding print
conversation_short = omega arith

handle-chat_example :
    handle
      (λ s. s)
      (service bytes_eq env)
      (codes "::1")
      (file
        (request_text post
          (codes "/v1/chat/completions")
          (codes "HTTP/1.1")
          headers
          (print env.show_double conversation))
        eof)
      (open_sink [])
    ≡ ok (
        open_writer
          (response_text ok_status [] (print env.show_double answer.0))
          (some ok_status)
          connection_close
          true)
handle-chat_example =
    handle-chat (λ s. s) (λ s. refl) bytes_eq env (codes "::1") (codes "HTTP/1.1") headers
      (codes "84") conversation answer.0 eof chat-IsRequestLine headers-IsHeader not_health is_chat
      size_header body_size conversation-IsPrintable conversation_short answer.1

-- a stream that times out behind three bytes
read_all-bytes_example : read_all (file (codes "abc") again) ≡ ok (codes "abc")
read_all-bytes_example = read_all-bytes (file (codes "abc") again)

-- Two messages, and a third element that is no object and is not reached.
abbrev arrays : Arrays
arrays a =
    item (message (codes "system") (codes "s"))
      (item (message (codes "user") (codes "u")) (item (string (codes "x")) no_items))

three_elements : items_size (arrays 7) < 2 ^ 31
unfolding items_size
three_elements = omega arith

enough_rounds : items_size (arrays 7) < 4
unfolding items_size
enough_rounds = omega arith

search_finds_user :
    search_for_role arrays 4 (codes "user") 7
    ≡ ok (record { role = codes "user"; content = codes "u" })
unfolding search_for_role bytes_eq
search_finds_user = refl

search_for_role-find_message_for_role_example :
    search_for_role arrays 4 (codes "user") 7 ≡ find_message_for_role (codes "user") (arrays 7)
search_for_role-find_message_for_role_example =
    search_for_role-find_message_for_role arrays 7 (codes "user") three_elements 4 enough_rounds
