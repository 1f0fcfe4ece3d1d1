-- ===== src/Http/Delivery.antt =====
-- src/http/server.cc, `HttpServer::Handle`, and src/http/router.cc: what the client gets.
use gabby.Base.{
  Bool, true, false, none, some, List, [], ◌∷◌, ◌++◌, Bytes, codes, ◌≡◌, refl, ap, ◌∙◌, All,
}
use gabby.Outcome.{Exception, ok, throws}
use gabby.Json.Source.{Ending}
use gabby.Http.Types.{StatusCode, not_found_status, Method, Request}
use gabby.Http.Framing.{file}
use gabby.Http.Writer.{Writer, writer, Sink, must_send, write_status, store, Flushes}
use gabby.Http.ResponseText.{open_sink, open_writer, head_text, write_status-open}
use gabby.Http.RequestText.{
  IsRequestLine, IsHeader, request_text, inserts, parse_request-request_text,
}
use gabby.Http.Server.{caught, finish, handle, flushed}
use gabby.Http.Router.{Route, dispatch, build}

abbrev pub connection_close : List (Bytes × Bytes)
connection_close = (codes "Connection", codes "close") ∷ []

-- A response of a status alone, on a stream that has taken nothing before.
abbrev pub only_status : StatusCode → Writer
only_status c = open_writer (head_text c) (some c) connection_close false

pub finish-throws :
    (e : Exception) → finish (throws e, writer (open_sink [])) ≡ ok (only_status (caught e))
unfolding finish must_send store
finish-throws e = ap (λ r. ok (r.1)) (write_status-open [] none [] (caught e))

module _ (regex_match : Bytes → Bytes → Bool) where
  abbrev pub Misses : Bytes → List Route → Type 0
  Misses path routes = All (λ r. regex_match r.pat path ≡ false) routes

  -- A request goes to the first route whose pattern matches its path.
  pub dispatch-first :
      (front : List Route) (r : Route) (back : List Route) (req : Request)
      → Misses req.path front
      → regex_match r.pat req.path ≡ true
      → dispatch regex_match (front ++ r ∷ back) req ≡ r.handler req
  unfolding dispatch
  dispatch-first [] r back req p h = rw h refl
  dispatch-first (q ∷ front) r back req p h = rw p.0 (dispatch-first front r back req p.1 h)

  dispatch-none :
      (routes : List Route) (req : Request)
      → Misses req.path routes
      → dispatch regex_match routes req ≡ write_status not_found_status
  unfolding dispatch
  dispatch-none [] req p = refl
  dispatch-none (q ∷ routes) req p = rw p.0 (dispatch-none routes req p.1)

  -- A well-formed request without a body for a path that no route matches is answered with status 404
  -- alone, where the stream takes every byte and the flush delivers them.
  pub handle-no_route :
      (fflush : Sink → Sink) (routes : List Route) (addr : Bytes) (m : Method)
      (path version : Bytes) (hs : List (Bytes × Bytes)) (e : Ending)
      → Flushes fflush
      → IsRequestLine path version
      → All IsHeader hs
      → Misses path routes
      → handle fflush
          (build regex_match routes)
          addr
          (file (request_text m path version hs []) e)
          (open_sink [])
        ≡ ok (only_status not_found_status)
  unfolding handle build finish store
  handle-no_route fflush routes addr m path version hs e f p q miss =
      flushed fflush (only_status not_found_status) f (
        rw (parse_request-request_text addr m path version hs [] e p q) (
          ap finish (
            ap (λ call. call (writer (open_sink [])))
              (dispatch-none routes
                (record {
                  addr = addr;
                  method = m;
                  path = path;
                  headers = inserts [] hs;
                  stream = file [] e;
                })
                miss)
            ∙ write_status-open [] none [] not_found_status)))
