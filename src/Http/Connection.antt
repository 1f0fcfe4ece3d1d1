-- ===== src/Http/Connection.antt =====
-- src/http/server.cc: the sockets of a server, and `HttpServer::Handle` as the task of a worker: its
-- time limits, its stream, and the exceptions that it ends in.
use gabby.Base.{
  ℕ, ◌+◌, ◌*◌, ◌/◌, ◌%◌, ◌<◌, ◌≡◌, refl, Bool, true, false, Option, none, some, Bytes, arith,
}
use gabby.Outcome.{Outcome, ok, throws, aborts, out_of_fuel, bind, system_error}
use gabby.Json.Source.{Size, plus, minus, File}
use gabby.Http.Writer.{Sink, Writer}
use gabby.Http.Server.{Handler, handle}
use gabby.Config.{ServerConfig}

-- `struct timeval`; both of its numbers have the sign of the milliseconds, since `/` and `%` round
-- towards 0.
pub record Timeval : Type 0 where
  pub negative : Bool
  pub sec : ℕ
  pub usec : ℕ

abbrev parts_of : Bool → ℕ → Timeval
parts_of negative n = record { negative = negative; sec = n / 1000; usec = (n % 1000) * 1000 }

-- the two assignments in `SetTimeout`
unfoldable pub timeval : Size → Timeval
timeval (plus n) = parts_of false n
timeval (minus n) = parts_of true (n + 1)

-- What the system calls for a connection answer: the errno of one that fails, and what `fflush` makes of
-- the stream.
pub record System : Type 0 where
  pub set_receive : Timeval → Option ℕ
  pub set_send : Timeval → Option ℕ
  pub fdopen : Option ℕ
  pub fflush : Sink → Sink

abbrev pub or_errno : Option ℕ → Outcome (Unit {0})
or_errno none = ok tt
or_errno (some errno) = throws (system_error errno)

-- `SetTimeout`
unfoldable pub set_timeout : (Timeval → Option ℕ) → Size → Outcome (Unit {0})
unfolding timeval
set_timeout setsockopt millis = or_errno (setsockopt (timeval millis))

-- `HttpServer::Handle`. What the stream gives depends on the time limit for reading. A read that blocks
-- for ever, as it may where the limit is 0, gives no `File`, and is no case of the model.
unfoldable pub handle_client :
    System → ServerConfig → Handler → Bytes → (Timeval → File) → Sink → Outcome Writer
unfolding set_timeout handle
handle_client sys config handler addr stream sink =
    bind (set_timeout sys.set_receive config.read_timeout_millis) λ _.
      bind (set_timeout sys.set_send config.write_timeout_millis) λ _.
        bind (or_errno sys.fdopen)
          λ _. handle sys.fflush handler addr (stream (timeval config.read_timeout_millis)) sink

abbrev pub logged : Outcome Writer → Outcome (Option Writer)
logged (ok w) = ok (some w)
logged (throws e) = ok none
logged aborts = aborts
logged out_of_fuel = out_of_fuel

-- The task that `Accept` offers to the pool: an exception is logged. It gives the writer of the
-- response, where it came to that.
unfoldable pub task :
    System → ServerConfig → Handler → Bytes → (Timeval → File) → Sink → Outcome (Option Writer)
unfolding handle_client
task sys config handler addr stream sink =
    logged (handle_client sys config handler addr stream sink)

-- What a system call answers: a value, or a negative number with its errno.
pub data Answered (A : Type 0) : Type 0 where
  gives : A → Answered A
  fails_with : ℕ → Answered A

abbrev or_fail : {A : Type 0} → Answered A → Outcome A
or_fail (gives a) = ok a
or_fail (fails_with errno) = throws (system_error errno)

-- `ServerSocket`; whether `setsockopt` succeeds is not looked at.
unfoldable pub server_socket : Answered ℕ → Outcome ℕ
server_socket socket = or_fail socket

-- `MakePipe`: the end for reading and the one for writing
unfoldable pub make_pipe : Answered (ℕ × ℕ) → Outcome (ℕ × ℕ)
make_pipe pipe = or_fail pipe

-- the number of milliseconds, without its sign
abbrev pub magnitude : Size → ℕ
magnitude (plus n) = n
magnitude (minus n) = n + 1

abbrev pub is_minus : Size → Bool
is_minus (plus n) = false
is_minus (minus n) = true

-- The two parts of a time limit have the sign of the milliseconds of the configuration; the
-- microseconds are less than a second, and together the parts are exactly as long.
pub timeval-magnitude :
    (millis : Size)
    → ((timeval millis).usec < 1000000)
      × ((timeval millis).negative ≡ is_minus millis)
      × ((timeval millis).sec * 1000000 + (timeval millis).usec ≡ magnitude millis * 1000)
unfolding timeval
timeval-magnitude (plus n) = (omega arith, refl, omega arith)
timeval-magnitude (minus n) = (omega arith, refl, omega arith)
