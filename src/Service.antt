-- ===== src/Service.antt =====
-- src/service.cc and src/inference/generator.h: the handlers of the inference service.
pub mod Completion
pub mod Answers
pub mod Reading
pub mod Roles
pub mod Conversation
mod Tests
mod ClientTests
use gabby.Base.{
  ℕ, Bool, true, false, Option, none, some, List, [], ◌∷◌, ◌++◌, Bytes, codes, bytes_eq,
  if◌then◌else◌,
}
use gabby.Outcome.{
  Exception, Outcome, ok, throws, aborts, out_of_fuel, bind, bad_request, not_found,
}
use gabby.Json.Value.{
  Value, Items, Fields, nil_value, number, string, array_value, object, no_items, item, no_fields,
  field, find, print, as_object, as_array, as_string, at, push_back,
}
use gabby.Json.Source.{Size, File}
use gabby.Json.Parse.{parse_stream, parse_string}
use gabby.Http.Types.{Method, get, post, Request, ok_status}
use gabby.Http.Request.{header}
use gabby.Http.Writer.{Call, write_status, write_data, ◌then◌}
use gabby.Http.Server.{Handler}
use gabby.Http.Router.{Route, route, build}

-- `struct Message` and `struct inference::Request`
pub record Message : Type 0 where
  pub role : Bytes
  pub content : Bytes

pub record Question : Type 0 where
  pub system_message : Message
  pub user_message : Message

abbrev pub or_throw {ℓ} : {A : Type ℓ} → Exception → Option A → Outcome A
or_throw e none = throws e
or_throw e (some a) = ok a

-- `GetHeader`
unfoldable pub get_header : Request → Bytes → Outcome Bytes
unfolding header
get_header req key =
    or_throw (bad_request (codes "missing header: " ++ key)) (header req.headers key)

-- `GetIntHeader`; `std::stoi` gives nothing where it throws.
unfoldable pub get_int_header : (Bytes → Option Size) → Request → Bytes → Outcome Size
unfolding get_header
get_int_header stoi req key = bind (get_header req key) λ v.
    or_throw (bad_request (codes "invalid value for header " ++ (key ++ (codes ": " ++ v))))
      (stoi v)

abbrev method_eq : Method → Method → Bool
method_eq get get = true
method_eq post post = true
method_eq _ _ = false

abbrev contains : List Method → Method → Bool
contains [] m = false
contains (n ∷ ns) m = if method_eq n m then true else contains ns m

-- `CheckMethod`
unfoldable pub check_method : List Method → Method → Outcome (Unit {0})
check_method supported m = if contains supported m then ok tt else throws not_found

-- `val->as_object().at(key)->as_string()`
unfoldable pub text_at : Bytes → Value → Outcome Bytes
unfolding as_object at as_string
text_at key v = bind (as_object v) λ fs. bind (at fs key) as_string

-- `inference::Message{...}` at the end of `FindMessageForRole`
unfoldable pub message_of : Value → Outcome Message
unfolding text_at
message_of v =
    bind (text_at (codes "role") v)
      λ r. bind (text_at (codes "content") v) λ c. ok (record { role = r; content = c })

-- `FindMessageForRole`
unfoldable pub find_message_for_role : Bytes → Items → Outcome Message
unfolding message_of
find_message_for_role role no_items =
    throws (bad_request (codes "role " ++ (role ++ codes " not found")))
find_message_for_role role (item v msgs) =
    let rest = find_message_for_role role msgs in
    bind (text_at (codes "role") v) λ r. if bytes_eq r role then message_of v else rest

-- `ExtractRequest`
unfoldable pub extract_request : Value → Outcome Question
unfolding find_message_for_role as_object at as_array
extract_request v = bind (as_object v) λ fs. bind (at fs (codes "messages")) λ m.
    bind (as_array m) λ msgs. bind (find_message_for_role (codes "system") msgs) λ system.
      bind (find_message_for_role (codes "user") msgs)
        λ user. ok (record { system_message = system; user_message = user })

-- The text in `StubResponse`
unfoldable pub stub_text : Bytes
stub_text =
    codes "\n"
    ++ codes "    {\n"
    ++ codes "        \"id\": \"gabby-completion-123\",\n"
    ++ codes "        \"object\": \"chat.completion\",\n"
    ++ codes "        \"created\": 1111111111,\n"
    ++ codes "        \"model\": \"gabby-model\",\n"
    ++ codes "        \"system_fingerprint\": \"fp_1111111111\",\n"
    ++ codes "        \"choices\": [\n"
    ++ codes "        ],\n"
    ++ codes "        \"usage\": {\n"
    ++ codes "            \"prompt_tokens\": 1,\n"
    ++ codes "            \"completion_tokens\": 1,\n"
    ++ codes "            \"total_tokens\": 1,\n"
    ++ codes "            \"completion_tokens_details\": {\n"
    ++ codes "                \"reasoning_tokens\": 1,\n"
    ++ codes "                \"accepted_prediction_tokens\": 0,\n"
    ++ codes "                \"rejected_prediction_tokens\": 0\n"
    ++ codes "            }\n"
    ++ codes "        }\n"
    ++ codes "    }\n"

-- `json::Value::Object({...})` of a choice, with `zero_double` for the number 0
unfoldable pub choice : ℕ → Message → Value
choice zero_double answer = object (
    field (codes "index") (number zero_double) (
      field (codes "logprobs") nil_value (
        field (codes "finish_reason") (string (codes "stop")) (
          field (codes "message")
            (object (
              field (codes "role") (string answer.role)
                (field (codes "content") (string answer.content) no_fields)))
            no_fields))))

-- A change of the value under a key that the map has: `at(key)` is a reference.
unfoldable pub update : Bytes → Value → Fields → Fields
update key v no_fields = no_fields
update key v (field k w fs) = if bytes_eq k key then field k v fs else field k w (update key v fs)

-- `MakeResponse`
unfoldable pub make_response : (Bytes → Option ℕ) → ℕ → Message → Outcome Value
unfolding parse_string stub_text choice update as_object at as_array push_back
make_response stod zero_double answer = bind (parse_string stod stub_text) λ response.
    bind (as_object response) λ fs. bind (at fs (codes "choices")) λ choices.
      bind (as_array choices) λ xs. ok (
        object
          (update (codes "choices") (array_value (push_back xs (choice zero_double answer))) fs))

abbrev pub given : {A : Type 0} → Outcome A → (A → Call) → Call
given (ok a) k w = k a w
given (throws e) k w = (throws e, w)
given aborts k w = (aborts, w)
given out_of_fuel k w = (out_of_fuel, w)

-- `HealthCheck`
unfoldable pub health_check : Handler
unfolding write_status
health_check req = write_status ok_status

-- What the service takes from the C++ library and from the model it serves.
pub record Platform : Type 0 where
  pub stod : Bytes → Option ℕ
  pub stoi : Bytes → Option Size
  pub show_double : ℕ → Bytes
  pub zero_double : ℕ
  pub generate : Question → Message

-- the answer to a JSON request
unfoldable pub answer_to : Platform → Value → Outcome Value
unfolding extract_request make_response
answer_to env json =
    bind (extract_request json)
      λ question. make_response env.stod env.zero_double (env.generate question)

-- the part of `ChatCompletions` before the response is written
unfoldable pub completion : Platform → Request → Outcome Value
unfolding check_method get_int_header parse_stream answer_to
completion env req = bind (check_method (post ∷ []) req.method) λ _.
    bind (get_int_header env.stoi req (codes "Content-Length"))
      λ n. bind (parse_stream env.stod req.stream n) λ (json, _). answer_to env json

-- `ChatCompletions`
unfoldable pub chat_completions : Platform → Handler
unfolding completion write_status write_data print
chat_completions env req =
    given (completion env req) λ v. write_status ok_status then write_data (print env.show_double v)

-- `InferenceService::Start`, the routes
unfoldable pub routes : Platform → List Route
unfolding route health_check chat_completions
routes env =
    route (route [] (codes "/healthz") health_check) (codes "/v1/chat/completions")
      (chat_completions env)

unfoldable pub service : (Bytes → Bytes → Bool) → Platform → Handler
unfolding routes build
service regex_match env = build regex_match (routes env)
