-- ===== src/Http/Writer.antt =====
-- src/http/server.cc, `class SocketWriter` and `MustSend`: the response, written to a stream that may
-- refuse bytes.
use gabby.Base.{
  ℕ, ◌+◌, Bool, true, false, Option, none, some, List, [], ◌∷◌, ◌++◌, Bytes, codes, length, take,
  is_empty, has_value, decimal, bytes_eq, ◌==◌, if◌then◌else◌, ◌≡◌, ◌%◌, ◌^◌,
}
use gabby.Outcome.{Outcome, ok, throws, aborts, out_of_fuel, internal_error, timeout}
use gabby.Http.Types.{StatusCode, ok_status, status_number, status_text}

-- What `fwrite` answers to a call: it takes some of the bytes, it times out (EAGAIN) or it fails.
pub data Answer : Type 0 where
  takes : ℕ → Answer
  times_out fails : Answer

-- The stream: the bytes that it has taken, and its answers to the next calls. Behind the last
-- answer it takes all that it is given.
pub record Sink : Type 0 where
  pub taken : Bytes
  pub answers : List Answer

-- `class SocketWriter`; `bytes_written` is the 32-bit pattern of the `int`.
pub record Writer : Type 0 where
  pub stream : Sink
  pub status : Option StatusCode
  pub headers : List (Bytes × Bytes)
  pub sending_data : Bool
  pub bytes_written : ℕ

-- `SocketWriter(stream)`
abbrev pub writer : Sink → Writer
writer s = record {
  stream = s;
  status = none;
  headers = [];
  sending_data = false;
  bytes_written = 0;
}

-- A call of the writer, which leaves a writer also where it throws.
abbrev pub Call : Type 0
Call = Writer → Outcome (Unit {0}) × Writer

abbrev pub after : Outcome (Unit {0}) × Writer → Call → Outcome (Unit {0}) × Writer
after (ok u, w) k = k w
after (throws e, w) k = (throws e, w)
after (aborts, w) k = (aborts, w)
after (out_of_fuel, w) k = (out_of_fuel, w)

infixl 5 ◌then◌
abbrev pub ◌then◌ : Call → Call → Call
m then k = λ w. after (m w) k

-- What `fwrite` returns, and whether it timed out.
pub record Fwrite : Type 0 where
  pub count : ℕ
  pub again : Bool
  pub stream : Sink

abbrev pub answer : Bytes → Bytes → List Answer → Fwrite
answer s taken [] = record {
  count = length s;
  again = false;
  stream = record { taken = taken ++ s; answers = [] };
}
answer s taken (takes n ∷ more) = record {
  count = length (take n s);
  again = false;
  stream = record { taken = taken ++ take n s; answers = more };
}
answer s taken (times_out ∷ more) = record {
  count = 0;
  again = true;
  stream = record { taken = taken; answers = more };
}
answer s taken (fails ∷ more) = record {
  count = 0;
  again = false;
  stream = record { taken = taken; answers = more };
}

abbrev pub sent : Bytes → Writer → Fwrite → Outcome (Unit {0}) × Writer
sent s w f =
    if f.count == 0
    then (
      throws (if f.again then timeout else internal_error (codes "failed to write data")),
      record w { stream = f.stream },
    )
    else (
      ok tt,
      record w { stream = f.stream; bytes_written = (w.bytes_written + length s) % 2 ^ 32 },
    )

-- `Write`
unfoldable pub write : Bytes → Call
write s w = if is_empty s then (ok tt, w) else sent s w (answer s w.stream.taken w.stream.answers)

-- `m[key] = value` of a map
unfoldable pub store : List (Bytes × Bytes) → Bytes → Bytes → List (Bytes × Bytes)
store [] k v = (k, v) ∷ []
store ((j, w) ∷ hs) k v = if bytes_eq j k then (j, v) ∷ hs else (j, w) ∷ store hs k v

unfoldable pub status_line : StatusCode → Bytes
unfolding decimal status_number status_text
status_line c =
    codes "HTTP/1.1 "
    ++ (decimal (status_number c) ++ (b' ' ∷ (status_text c ++ b'\r' ∷ b'\n' ∷ [])))

abbrev pub header_line : Bytes → Bytes → Bytes
header_line k v = k ++ (b':' ∷ b' ' ∷ (v ++ b'\r' ∷ b'\n' ∷ []))

-- what a call that has been written leaves in the writer's fields
unfoldable pub record_header : Bytes → Bytes → Call
unfolding store
record_header k v w = (ok tt, record w { headers = store w.headers k v })

abbrev pub record_status : StatusCode → Call
record_status c w = (ok tt, record w { status = some c })

abbrev pub record_sending : Call
record_sending w = (ok tt, record w { sending_data = true })

-- the guard of `WriteStatus` and `WriteHeader`
abbrev pub unless_sending : Call → Call
unless_sending m w =
    if w.sending_data
    then (throws (internal_error (codes "failed to send http status")), w)
    else m w

-- `WriteHeader`
unfoldable pub write_header : Bytes → Bytes → Call
unfolding write record_header
write_header k v = unless_sending (write (header_line k v) then record_header k v)

-- `WriteStatus`
unfoldable pub write_status : StatusCode → Call
unfolding write_header status_line
write_status c = unless_sending (
    write (status_line c)
    then write_header (codes "Connection") (codes "close")
    then record_status c)

-- `WriteData` sends `StatusCode::OK` if no status has been sent
unfoldable pub default_status : Call
unfolding write_status
default_status w = if has_value w.status then (ok tt, w) else write_status ok_status w

-- `WriteData`
unfoldable pub write_data : Bytes → Call
unfolding default_status
write_data s w =
    if w.sending_data
    then write s w
    else (default_status then write (b'\r' ∷ b'\n' ∷ []) then record_sending then write s) w

-- `SocketWriter::Flush`, and the end of the stream in the destructor; `fflush` is what the library makes
-- of a stream that was read before it was written. Behind input that is buffered and has not been read
-- it fails on a socket, and what was written is lost.
unfoldable pub flush : (Sink → Sink) → Writer → Writer
flush fflush w = record w { stream = fflush w.stream }

-- All that was written is delivered.
abbrev pub Flushes : (Sink → Sink) → Type 0
Flushes fflush = (s : Sink) → fflush s ≡ s

-- `MustSend`: a failure is logged, and the response is as the failed call left it.
unfoldable pub must_send : StatusCode → Writer → Writer
unfolding write_status
must_send c w = if has_value w.status then w else (write_status c w).1
