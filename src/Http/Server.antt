-- ===== src/Http/Server.antt =====
-- src/http/server.cc, `HttpServer::Handle`: one connection, from the request to the response.
use gabby.Base.{none, some, Bytes, has_value, if◌then◌else◌, ◌≡◌, ap, ◌∙◌}
use gabby.Outcome.{
  Exception, type_error, parsing_error, key_not_found, Outcome, ok, throws, aborts, out_of_fuel,
  bind,
}
use gabby.Json.Source.{File}
use gabby.Http.Types.{StatusCode, bad_request_status, internal_server_error, Request, http_status}
use gabby.Http.Request.{parse_request}
use gabby.Http.Writer.{Sink, Writer, writer, Call, must_send, flush, Flushes}

-- `using Handler`
abbrev pub Handler : Type 0
Handler = Request → Call

-- The three `catch` clauses: `json::JSONError`, `HttpException`, and any other exception.
unfoldable pub caught : Exception → StatusCode
unfolding http_status
caught (type_error want got) = bad_request_status
caught (parsing_error what) = bad_request_status
caught (key_not_found key) = bad_request_status
caught e = elim (http_status e) [ none ↦ internal_server_error | some c ↦ c ]

-- The log line at the end of the `try` block reads `*resp.status()`, which is undefined where no
-- status has been sent: the model aborts.
abbrev log_request : Writer → Outcome Writer
log_request w = if has_value w.status then ok w else aborts

unfoldable pub finish : Outcome (Unit {0}) × Writer → Outcome Writer
unfolding caught must_send
finish (ok u, w) = log_request w
finish (throws e, w) = ok (must_send (caught e) w)
finish (aborts, w) = aborts
finish (out_of_fuel, w) = out_of_fuel

abbrev pub serve : Handler → Writer → Outcome Request → Outcome (Unit {0}) × Writer
serve handler w (ok req) = handler req w
serve handler w (throws e) = (throws e, w)
serve handler w aborts = (aborts, w)
serve handler w out_of_fuel = (out_of_fuel, w)

-- `HttpServer::Handle`, after the timeouts are set and the stream is open. One `FILE*` is read, as
-- `file`, and then written, as `sink`; that the one use gets in the way of the other is left to
-- `fflush`. The writer that is given holds what has been delivered.
unfoldable pub handle : (Sink → Sink) → Handler → Bytes → File → Sink → Outcome Writer
unfolding finish parse_request flush
handle fflush handler addr file sink =
    bind (finish (serve handler (writer sink) (parse_request addr file))) λ w. ok (flush fflush w)

pub flushed :
    (fflush : Sink → Sink) (w : Writer) {x : Outcome Writer}
    → Flushes fflush
    → x ≡ ok w
    → (bind x λ v. ok (flush fflush v)) ≡ ok w
unfolding flush
flushed fflush w f e =
    ap (λ x. bind x λ v. ok (flush fflush v)) e
    ∙ ap (λ s. ok (record w { stream = s })) (f w.stream)
