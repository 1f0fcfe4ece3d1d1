-- ===== src/Service/Answers.antt =====
-- src/service.cc behind src/http/server.cc: what the service answers on the wire.
use gabby.Base.{
  Bool, true, false, some, List, [], ◌∷◌, Bytes, codes, length, ◌≡◌, refl, ap, ◌∙◌, All, ◌<◌, ◌^◌,
}
use gabby.Outcome.{Exception, Outcome, ok, throws, bind}
use gabby.Json.Value.{Value, print}
use gabby.Json.Source.{Ending, plus}
use gabby.Json.RoundTrip.Printable.{IsPrintable}
use gabby.Http.Types.{post, ok_status}
use gabby.Http.Framing.{file}
use gabby.Http.Request.{header}
use gabby.Http.Writer.{writer, write_status, write_data, ◌then◌, Sink, Flushes, flush}
use gabby.Http.ResponseText.{open_sink, open_writer, response_text}
use gabby.Http.RequestText.{IsRequestLine, IsHeader, request_text, parse_request-request_text}
use gabby.Http.Server.{handle, finish, caught, flushed}
use gabby.Http.Router.{route, build}
use gabby.Http.Delivery.{dispatch-first, connection_close, only_status, finish-throws}
use gabby.Service.{Platform, chat_completions, health_check, routes, service, answer_to, given}
use gabby.Service.Completion.{
  received, completion-answer, finish-ok, answer-open, chat_completions-completion,
}

module _ (fflush : Sink → Sink) (flushes : Flushes fflush) (regex_match : Bytes → Bytes → Bool)
    (env : Platform) where
  -- What becomes of the answer to the body of a well-formed request for a chat, be it a value or an
  -- exception.
  pub handle-completion :
      (addr version : Bytes) (hs : List (Bytes × Bytes)) (size : Bytes) (q : Value)
      (o : Outcome Value) (e : Ending)
      → IsRequestLine (codes "/v1/chat/completions") version
      → All IsHeader hs
      → regex_match (codes "/healthz") (codes "/v1/chat/completions") ≡ false
      → regex_match (codes "/v1/chat/completions") (codes "/v1/chat/completions") ≡ true
      → header hs (codes "Content-Length") ≡ some size
      → env.stoi size ≡ some (plus (length (print env.show_double q)))
      → IsPrintable env.show_double env.stod q
      → length (print env.show_double q) < 2 ^ 31
      → answer_to env q ≡ o
      → handle fflush
          (service regex_match env)
          addr
          (file
            (request_text post (codes "/v1/chat/completions") version hs (print env.show_double q))
            e)
          (open_sink [])
        ≡ (bind
            (finish (
              given o
                (λ v. write_status ok_status then write_data (print env.show_double v))
                (writer (open_sink []))))
            λ w. ok (flush fflush w))
  unfolding handle service build routes route
  handle-completion addr version hs size q o e line headers miss hit h k p short x =
      let path = codes "/v1/chat/completions" in
      let req = received addr post path hs (print env.show_double q) e in
      rw
        (parse_request-request_text addr post path version hs (print env.show_double q) e line
          headers)
        (ap (λ r. bind (finish r) λ w. ok (flush fflush w))
          (ap (λ call. call (writer (open_sink [])))
              (dispatch-first regex_match
                (record { pat = codes "/healthz"; handler = health_check } ∷ [])
                (record { pat = path; handler = chat_completions env }) [] req (miss, tt) hit)
            ∙ chat_completions-completion env req o
                (completion-answer env addr path hs size q e h k p short ∙ x)))

  -- A well-formed `POST /v1/chat/completions` that ends with its body, and whose `Content-Length` is the
  -- length of that body, is answered with status 200 and the JSON text of the answer to the body, if the
  -- body is the text, shorter than 2^31 bytes, of a printable value and has an answer. The stream that is
  -- written takes every byte, the flush delivers them, and the pattern of the health check does not match
  -- the path.
  pub handle-chat :
      (addr version : Bytes) (hs : List (Bytes × Bytes)) (size : Bytes) (q r : Value) (e : Ending)
      → IsRequestLine (codes "/v1/chat/completions") version
      → All IsHeader hs
      → regex_match (codes "/healthz") (codes "/v1/chat/completions") ≡ false
      → regex_match (codes "/v1/chat/completions") (codes "/v1/chat/completions") ≡ true
      → header hs (codes "Content-Length") ≡ some size
      → env.stoi size ≡ some (plus (length (print env.show_double q)))
      → IsPrintable env.show_double env.stod q
      → length (print env.show_double q) < 2 ^ 31
      → answer_to env q ≡ ok r
      → handle fflush
          (service regex_match env)
          addr
          (file
            (request_text post (codes "/v1/chat/completions") version hs (print env.show_double q))
            e)
          (open_sink [])
        ≡ ok (
            open_writer
              (response_text ok_status [] (print env.show_double r))
              (some ok_status)
              connection_close
              true)
  handle-chat addr version hs size q r e line headers miss hit h k p short x =
      handle-completion addr version hs size q (ok r) e line headers miss hit h k p short x
      ∙ flushed fflush _ flushes
          (ap finish (answer-open (print env.show_double r)) ∙ finish-ok _ refl)

  -- A well-formed request for a chat with a printable body that has no answer, but an exception, gets
  -- the status of the exception and nothing else.
  pub handle-chat_refused :
      (addr version : Bytes) (hs : List (Bytes × Bytes)) (size : Bytes) (q : Value) (x : Exception)
      (e : Ending)
      → IsRequestLine (codes "/v1/chat/completions") version
      → All IsHeader hs
      → regex_match (codes "/healthz") (codes "/v1/chat/completions") ≡ false
      → regex_match (codes "/v1/chat/completions") (codes "/v1/chat/completions") ≡ true
      → header hs (codes "Content-Length") ≡ some size
      → env.stoi size ≡ some (plus (length (print env.show_double q)))
      → IsPrintable env.show_double env.stod q
      → length (print env.show_double q) < 2 ^ 31
      → answer_to env q ≡ throws x
      → handle fflush
          (service regex_match env)
          addr
          (file
            (request_text post (codes "/v1/chat/completions") version hs (print env.show_double q))
            e)
          (open_sink [])
        ≡ ok (only_status (caught x))
  handle-chat_refused addr version hs size q x e line headers miss hit h k p short refused =
      handle-completion addr version hs size q (throws x) e line headers miss hit h k p short
        refused
      ∙ flushed fflush _ flushes (finish-throws x)
