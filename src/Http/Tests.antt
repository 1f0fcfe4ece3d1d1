-- ===== src/Http/Tests.antt =====
-- Concrete requests and responses of src/http, and the theorems on them.
use gabby.Base.{
  ◌≡◌, refl, true, false, some, none, List, [], ◌∷◌, ◌++◌, Bytes, codes, All, arith, bytes_eq,
}
use gabby.Outcome.{ok, throws, aborts, bad_request, not_found, timeout}
use gabby.Json.Source.{eof, again, File}
use gabby.Http.Types.{ok_status, not_found_status, get, Request}
use gabby.Http.Lines.{read_line}
use gabby.Http.Framing.{file, crlf}
use gabby.Http.Request.{header, parse_request}
use gabby.Http.Writer.{takes, times_out, fails, Sink, writer}
use gabby.Http.Response.{Op, status, head, body, perform_all}
use gabby.Http.ResponseText.{
  open_sink, open_writer, stores, response, response_text, perform_all-open,
}
use gabby.Http.Headers.{header-inserts}
use gabby.Http.Exact.{IsFramed, read_line_iff}
use gabby.Base.{◌↔◌}
use gabby.Http.RequestText.{
  IsRequestLine, IsHeader, request_text, inserts, parse_request-request_text,
}
use gabby.Http.Server.{Handler, handle}
use gabby.Http.Router.{Route, dispatch, build}
use gabby.Http.Refusals.{Settles, Anything, parse_request-Settles}
use gabby.Http.Delivery.{only_status, connection_close, dispatch-first, handle-no_route}
use gabby.Http.Writer.{write_status, ◌then◌}
use gabby.Http.Connection.{System, timeval, task, timeval-magnitude}
use gabby.Json.Source.{plus}
use gabby.Config.{default_config}
use gabby.Base.{◌+◌, ◌*◌, ◌<◌}

-- A line that starts with NUL fails the assertion of `ReadLine`.
nul_line : read_line (file (0 ∷ crlf []) eof) ≡ aborts
unfolding read_line
nul_line = refl

bare_newline :
    read_line (file (codes "GET / HTTP/1.1\n") eof)
    ≡ throws (bad_request (codes "invalid line ending"))
unfolding read_line
bare_newline = refl

read_line_iff_example :
    (read_line (file (codes "GET / HTTP/1.1" ++ crlf (codes "x")) eof)
      ≡ ok (codes "GET / HTTP/1.1", file (codes "x") eof))
    ↔ IsFramed
        (file (codes "GET / HTTP/1.1" ++ crlf (codes "x")) eof)
        (codes "GET / HTTP/1.1")
        (file (codes "x") eof)
read_line_iff_example =
    read_line_iff (file (codes "GET / HTTP/1.1" ++ crlf (codes "x")) eof) (file (codes "x") eof)
      (codes "GET / HTTP/1.1")

abbrev headers : List (Bytes × Bytes)
headers = (codes "A", codes "1") ∷ (codes "A", codes "2") ∷ []

headers-IsHeader : All IsHeader headers
headers-IsHeader = (
  record {
    key_line = ((refl, refl), tt);
    value_line = ((refl, refl), tt);
    no_colon = (refl, tt);
    fits = omega arith;
  },
  (
    record {
      key_line = ((refl, refl), tt);
      value_line = ((refl, refl), tt);
      no_colon = (refl, tt);
      fits = omega arith;
    },
    tt,
  ),
)

root-IsRequestLine : IsRequestLine (codes "/x") (codes "H")
root-IsRequestLine = record {
  path_line = ((refl, refl), ((refl, refl), tt));
  version_line = ((refl, refl), tt);
  no_space = (refl, (refl, tt));
  fits = omega arith;
}

abbrev wire : File
wire = file (request_text get (codes "/x") (codes "H") headers (codes "body")) eof

abbrev request : Request
request = record {
  addr = codes "::1";
  method = get;
  path = codes "/x";
  headers = inserts [] headers;
  stream = file (codes "body") eof;
}

parse_request-request_text_example : parse_request (codes "::1") wire ≡ ok request
parse_request-request_text_example =
    parse_request-request_text (codes "::1") get (codes "/x") (codes "H") headers (codes "body") eof
      root-IsRequestLine headers-IsHeader

first_header_counts : header (inserts [] headers) (codes "A") ≡ header headers (codes "A")
first_header_counts = header-inserts headers (codes "A")

-- A stream that takes two bytes, then times out, then fails.
abbrev slow : Sink
slow = record { taken = []; answers = takes 2 ∷ times_out ∷ fails ∷ [] }

abbrev calls : List Op
calls = body (codes "x") ∷ status ok_status ∷ head (codes "A") (codes "1") ∷ body (codes "y") ∷ []

perform_all-open_example :
    perform_all (response ok_status headers (codes "x") (codes "y" ∷ [])) (writer (open_sink []))
    ≡ open_writer
        (response_text ok_status headers (codes "xy"))
        (some ok_status)
        (stores connection_close headers)
        true
perform_all-open_example = perform_all-open ok_status headers (codes "x") (codes "y" ∷ [])

-- Handlers that throw at once and behind a status.
abbrev refuses : Handler
refuses req w = (throws not_found, w)

abbrev refuses_late : Handler
refuses_late req = write_status ok_status then (λ w. (throws not_found, w))

abbrev cut_off : File
cut_off = file (codes "GET /") again

cut_off_times_out : parse_request (codes "::1") cut_off ≡ throws timeout
unfolding parse_request
cut_off_times_out = refl

parse_request-Settles_example : Settles Anything (parse_request (codes "::1") cut_off)
parse_request-Settles_example = parse_request-Settles (codes "::1") cut_off

-- Patterns that match only themselves.
abbrev routes : List Route
routes =
    record { pat = codes "/y"; handler = refuses }
    ∷ record { pat = codes "/x"; handler = refuses_late }
    ∷ []

different : bytes_eq (codes "/y") (codes "/x") ≡ false
unfolding bytes_eq
different = refl

same : bytes_eq (codes "/x") (codes "/x") ≡ true
unfolding bytes_eq
same = refl

first_route_taken : dispatch bytes_eq routes request ≡ refuses_late request
first_route_taken =
    dispatch-first bytes_eq (record { pat = codes "/y"; handler = refuses } ∷ [])
      (record { pat = codes "/x"; handler = refuses_late }) [] request (different, tt) same

handle-no_route_example :
    handle
      (λ s. s)
      (build bytes_eq (record { pat = codes "/y"; handler = refuses } ∷ []))
      (codes "::1")
      (file (request_text get (codes "/x") (codes "H") headers []) again)
      (open_sink [])
    ≡ ok (only_status not_found_status)
handle-no_route_example =
    handle-no_route bytes_eq (λ s. s) (record { pat = codes "/y"; handler = refuses } ∷ [])
      (codes "::1") get (codes "/x") (codes "H") headers again (λ s. refl) root-IsRequestLine
      headers-IsHeader (different, tt)

-- The receiving side takes its time limit, the sending side refuses it.
abbrev system : System
system = record { set_receive = λ t. none; set_send = λ t. some 33; fdopen = none; fflush = λ s. s }

no_time_limit :
    task system
      (default_config 1).server_config
      refuses
      (codes "::1")
      (λ limit. file (crlf []) eof)
      (open_sink [])
    ≡ ok none
unfolding task
no_time_limit = refl

timeval-magnitude_example :
    ((timeval (plus 2500)).usec < 1000000)
    × ((timeval (plus 2500)).negative ≡ false)
    × ((timeval (plus 2500)).sec * 1000000 + (timeval (plus 2500)).usec ≡ 2500 * 1000)
timeval-magnitude_example = timeval-magnitude (plus 2500)
