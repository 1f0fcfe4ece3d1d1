-- ===== src/Service/ClientTests.antt =====
-- A client that asks the service over a connection that cuts the bytes up.
use gabby.Base.{
  ◌++◌, ℕ, zero, suc, Bool, ◌||◌, ◌==◌, ltb, isdigit, All-all, subst, sym, ◌+◌, ◌-◌, ◌*◌, ◌<◌, true,
  false, Option, none, some, List, [], ◌∷◌, Bytes, codes, bytes_eq, decimal, is_empty,
  if◌then◌else◌, ◌≡◌, refl, arith, append-nil, ap, length, ◌^◌,
}
use gabby.Outcome.{key_not_found, std_error, Outcome, ok, throws}
use gabby.Json.Value.{
  Value, string, array_value, object, no_items, item, no_fields, field, find, print,
}
use gabby.Json.RoundTrip.Reread.{Rereads, reread}
use gabby.Http.Client.{empty_line}
use gabby.Json.Source.{plus, eof, again}
use gabby.Json.RoundTrip.Printable.{IsPrintable, Written, HasText}
use gabby.Json.RoundTrip.Checked.{printable-HasText}
use gabby.Http.Types.{post}
use gabby.Http.Writer.{Writer}
use gabby.Http.Client.{
  Connection, Incoming, accepts, refuses, econnreset, econnaborted, attempt, post_json,
}
use gabby.Http.Client.Reply.{IsOpen, Carries, Resets}
use gabby.Config.{default_config}
use gabby.Service.{Platform, answer_to}
use gabby.Service.Conversation.{
  Host, answered, chat_path, Serves, Asks, post_json-chat, post_json-refused,
}

-- Numbers are whole and not negative here: their pattern is the number.
abbrev read_decimal : ℕ → Bytes → ℕ
read_decimal n [] = n
read_decimal n (c ∷ cs) = read_decimal (10 * n + (c - b'0')) cs

-- Six digits of the time in the answer are printed.
abbrev rounded_text : Bytes
rounded_text = codes "1.11111e+09"

abbrev show : ℕ → Bytes
show d = if d == 1111111111 || d == 1111110000 then rounded_text else decimal d

abbrev stod : Bytes → Option ℕ
stod s = some (if bytes_eq s rounded_text then 1111110000 else read_decimal 0 s)

abbrev env : Platform
env = record {
  stod = stod;
  stoi = λ s. some (plus (read_decimal 0 s));
  show_double = show;
  zero_double = 0;
  generate = λ q. record { role = codes "assistant"; content = q.user_message.content };
}

abbrev message : Bytes → Bytes → Value
message role content =
    object (field (codes "role") (string role) (field (codes "content") (string content) no_fields))

abbrev conversation : Value
conversation = object (
    field (codes "messages")
      (array_value (
        item (message (codes "system") (codes "s"))
          (item (message (codes "user") (codes "u")) no_items)))
      no_fields)

answer : (r : Value) × (answer_to env conversation ≡ ok r)
unfolding answer_to
answer = (_, refl)

-- The numbers of the answer, whole and written without an exponent.
written : ℕ → Bool
written d = ltb d 2 || d == 1111111111

zero-Written : Written show stod 0
unfolding decimal bytes_eq
zero-Written = record {
  numeral = record { negative = false; first = b'0'; whole = []; fraction = none; exponent = none };
  well_formed = record { digit = refl; whole_part = tt; fraction_part = tt; exponent_part = tt };
  shown = refl;
  reads_back = refl;
}

one-Written : Written show stod 1
unfolding decimal bytes_eq
one-Written = record {
  numeral = record { negative = false; first = b'1'; whole = []; fraction = none; exponent = none };
  well_formed = record { digit = refl; whole_part = tt; fraction_part = tt; exponent_part = tt };
  shown = refl;
  reads_back = refl;
}

created-Written : Written show stod 1111110000
unfolding bytes_eq
created-Written = record {
  numeral = record {
    negative = false;
    first = b'1';
    whole = [];
    fraction = some (codes "11111");
    exponent = some (b'+', codes "09");
  };
  well_formed = record {
    digit = refl;
    whole_part = tt;
    fraction_part = All-all isdigit (λ c h. h) (codes "11111") refl;
    exponent_part = (refl, (refl, tt));
  };
  shown = refl;
  reads_back = refl;
}

zero-Rereads : Rereads show stod 0
unfolding decimal bytes_eq
zero-Rereads = record { reads = zero-Written; same_text = refl }

one-Rereads : Rereads show stod 1
unfolding decimal bytes_eq
one-Rereads = record { reads = one-Written; same_text = refl }

created-Rereads : Rereads show stod 1111111111
unfolding bytes_eq
created-Rereads = record { reads = created-Written; same_text = refl }

written-Rereads : (d : ℕ) → written d ≡ true → Rereads show stod d
unfolding written
written-Rereads zero h = zero-Rereads
written-Rereads (suc zero) h = one-Rereads
written-Rereads (suc (suc d)) h =
    let e : 1111111111 ≡ suc (suc d) = ground arith in subst (Rereads show stod) e created-Rereads

nowhere : ℕ → Bool
nowhere d = false

nowhere-Written : (d : ℕ) → nowhere d ≡ true → Written show stod d
unfolding nowhere
nowhere-Written d h = cc

conversation-IsPrintable : IsPrintable show stod conversation
unfolding find bytes_eq
conversation-IsPrintable =
    printable-HasText nowhere (Written show stod) nowhere-Written conversation refl

answer-HasText : HasText (Rereads show stod) answer.0
unfolding answer find written
answer-HasText = printable-HasText written (Rereads show stod) written-Rereads answer.0 refl

answer_short : length (empty_line ++ print show answer.0) < 2 ^ 31
unfolding answer print decimal
answer_short = omega arith

-- The service at the other end; the stream of the connection times out behind the request.
abbrev chunks_of : Bytes → List Bytes
chunks_of [] = []
chunks_of (c ∷ s) = (c ∷ []) ∷ (if is_empty s then [] else s ∷ [])

abbrev incoming : Outcome (Option Writer) → Incoming
incoming (ok (some w)) = record { chunks = chunks_of w.stream.taken; ending = eof }
incoming r = record { chunks = []; ending = eof }

abbrev host : Host
host = record {
  regex_match = bytes_eq;
  platform = env;
  system = record { set_receive = λ t. none; set_send = λ t. none; fdopen = none; fflush = λ s. s };
  config = (default_config 1).server_config;
  addr = codes "::1";
  ending = again;
}

abbrev reply : Bytes → Incoming
reply sent = incoming (answered host sent)

chunks-Carries : (s : Bytes) → Carries (record { chunks = chunks_of s; ending = eof }) s
chunks-Carries [] = record { nonempty = tt; whole = refl; ends = refl }
chunks-Carries (c ∷ []) = record { nonempty = (refl, tt); whole = refl; ends = refl }
chunks-Carries (c ∷ d ∷ s) = record {
  nonempty = (refl, (refl, tt));
  whole = ap (λ t. c ∷ d ∷ t) (append-nil s);
  ends = refl;
}

reply-Serves : Serves host reply
reply-Serves = record {
  carried = λ sent w h.
      subst (λ r. Carries (incoming r) w.stream.taken) (sym h) (chunks-Carries w.stream.taken);
}

-- The first connection is reset while the request is written, and the second is aborted once before it
-- opens; `write` takes 1 byte, then 0, then 20, and then all.
abbrev connections : ℕ → Connection
connections zero = record { failures = []; answers = refuses econnreset ∷ []; reply = reply }
connections (suc i) = record {
  failures = econnaborted ∷ [];
  answers = accepts 1 ∷ accepts 0 ∷ accepts 20 ∷ [];
  reply = reply;
}

only_zero : (P : ℕ → Type 0) → P 0 → (j : ℕ) → j < 1 → P j
only_zero P p zero h = p
only_zero P p (suc j) h = absurd (omega arith)

second-IsOpen : IsOpen (connections 1)
second-IsOpen = record { connects = (refl, tt); writes = (tt, (tt, (tt, tt))) }

not_health : bytes_eq (codes "/healthz") chat_path ≡ false
unfolding bytes_eq
not_health = refl

is_chat : bytes_eq chat_path chat_path ≡ true
unfolding bytes_eq
is_chat = refl

conversation-Asks : Asks host connections 1 conversation
unfolding attempt print decimal bytes_eq
conversation-Asks = record {
  few = omega arith;
  resets = only_zero (Resets post chat_path [] (print show conversation) connections) refl;
  is_open = second-IsOpen;
  serves = reply-Serves;
  succeeds = record { receives = refl; sends = refl; opens = refl; flushes = λ s. refl };
  miss = not_health;
  hit = is_chat;
  short = omega arith;
  size_read = refl;
  printable = conversation-IsPrintable;
}

post_json-chat_example :
    post_json show stod connections chat_path conversation ≡ ok (reread show stod answer.0)
post_json-chat_example =
    post_json-chat host connections 1 conversation conversation-Asks answer.0 answer.1
      answer-HasText answer_short

-- A request without messages.
abbrev empty_request : Value
empty_request = object no_fields

no_messages : answer_to env empty_request ≡ throws (key_not_found (codes "messages"))
unfolding answer_to
no_messages = refl

empty_request-Asks : Asks host connections 1 empty_request
unfolding attempt print decimal bytes_eq
empty_request-Asks = record {
  few = omega arith;
  resets = only_zero (Resets post chat_path [] (print show empty_request) connections) refl;
  is_open = second-IsOpen;
  serves = reply-Serves;
  succeeds = record { receives = refl; sends = refl; opens = refl; flushes = λ s. refl };
  miss = not_health;
  hit = is_chat;
  short = omega arith;
  size_read = refl;
  printable = (tt, tt);
}

post_json-refused_example :
    post_json show stod connections chat_path empty_request
    ≡ throws (std_error (codes "invalid http response"))
post_json-refused_example =
    post_json-refused host connections 1 empty_request empty_request-Asks
      (key_not_found (codes "messages")) no_messages
