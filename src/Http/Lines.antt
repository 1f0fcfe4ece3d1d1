-- ===== src/Http/Lines.antt =====
-- src/http/server.cc, `ReadLine`: one line of a request, through the C library's `fgets`.
use gabby.Base.{
  ℕ, zero, suc, ◌-◌, ◌&&◌, not, Bool, true, false, Option, none, some, [], ◌∷◌, Bytes, codes, ◌==◌,
  leb, length, take, opt_eq, if◌then◌else◌,
}
use gabby.Outcome.{Exception, Outcome, ok, throws, aborts, out_of_fuel, bad_request, timeout, Run}
use gabby.Json.Source.{Ending, eof, again, failed, File}

abbrev pub k_max_line_len : ℕ
k_max_line_len = 256

-- What `fgets` leaves: the bytes put into the buffer, the bytes behind them, and whether it met the
-- end of the stream or an error.
pub record Got : Type 0 where
  pub buf : Bytes
  pub rest : Bytes
  pub hit_end : Bool

abbrev put : ℕ → Got → Got
put c g = record g { buf = c ∷ g.buf }

-- `fgets` with room for `n` bytes and the NUL behind them: it stops after a newline.
unfoldable pub fgets : ℕ → Bytes → Got
fgets zero bs = record { buf = []; rest = bs; hit_end = false }
fgets (suc n) [] = record { buf = []; rest = []; hit_end = true }
fgets (suc n) (c ∷ cs) =
    let more = fgets n cs in
    if c == b'\n' then record { buf = c ∷ []; rest = cs; hit_end = false } else put c more

-- The bytes that `strnlen` counts: those before the first NUL.
unfoldable pub c_string : Bytes → Bytes
c_string [] = []
c_string (c ∷ cs) = if c == 0 then [] else c ∷ c_string cs

unfoldable pub byte_at : Bytes → ℕ → Option ℕ
byte_at [] n = none
byte_at (c ∷ cs) zero = some c
byte_at (c ∷ cs) (suc n) = byte_at cs n

unfoldable pub ending_error : Ending → Exception
ending_error again = timeout
ending_error (failed e) = bad_request (codes "failed to read from stream")
ending_error eof = bad_request (codes "unexpected eof")

-- the tests on the line in the buffer
unfoldable pub check_line : Bytes → Outcome Bytes
unfolding byte_at
check_line text =
    let read = length text in
    if read == 0
    then aborts
    else if not (opt_eq (byte_at text (read - 1)) (some b'\n'))
    then throws (bad_request (codes "header line too long"))
    else if leb 2 read && opt_eq (byte_at text (read - 2)) (some b'\r')
    then ok (take (read - 2) text)
    else throws (bad_request (codes "invalid line ending"))

abbrev pub checked : File → Outcome Bytes → Outcome (Bytes × File)
checked file (ok line) = ok (line, file)
checked file (throws e) = throws e
checked file aborts = aborts
checked file out_of_fuel = out_of_fuel

-- `ReadLine`
unfoldable pub read_line : Run File Bytes
unfolding check_line fgets c_string ending_error
read_line file =
    let got = fgets (k_max_line_len - 1) file.bytes in
    if got.hit_end
    then throws (ending_error file.ending)
    else checked (record { bytes = got.rest; ending = file.ending }) (check_line (c_string got.buf))
