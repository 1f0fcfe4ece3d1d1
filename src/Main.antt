-- ===== src/Main.antt =====
-- src/main.cc, `Run`, up to the call of `Wait`, and the constructor of `InferenceService`
-- (src/service.cc).
use gabby.Pool.Model.{create}
use gabby.Base.{
  ℕ, ◌+◌, ◌==◌, Bool, true, false, Option, none, some, List, [], Bytes, codes, if◌then◌else◌,
}
use gabby.Outcome.{Outcome, ok, throws, aborts, out_of_fuel, bind, Run, pure, ◌>>=◌, ◌>>◌}
use gabby.Json.Source.{Size, to_int}
use gabby.Http.Connection.{Answered, server_socket, make_pipe, or_errno}
use gabby.Inference.Files.{Disk, Held}
use gabby.Inference.Loading.{
  InferenceConfig, load_config, Listing, find_default_model_dir, Llama3Generator,
}
use gabby.Config.{Config, Parsed, parsed, uncaught, dies, parse_config}
pub mod Starts
mod Tests

-- What the program finds on the machine: the files and directories, `std::stoi`, one processor less
-- than it has, the variable HOME, the answers of `socket` and `pipe`, the errno where `bind` fails, and
-- what C++ leaves open.
pub record Machine : Type 0 where
  pub disk : Disk
  pub list_dir : Bytes → Listing
  pub stoi : Bytes → Option Size
  pub threads : ℕ
  pub home : Option Bytes
  pub socket : Answered ℕ
  pub pipe : Answered (ℕ × ℕ)
  pub bind_error : Option ℕ
  pub wide_shift : ℕ → ℕ → ℕ
  pub max_size : ℕ

-- How `Run` goes on: `Start` returns, and `Wait` waits for the end of the service, `Die` ends the process with a message, an exception or a
-- fault ends it, or the model's fuel does not say.
pub data Exit : Type 0 where
  serves : Config → Llama3Generator → Held → Exit
  dies_with : Bytes → Exit
  terminates unknown : Exit

-- `Own` of so many descriptors
abbrev own : ℕ → Run Held (Unit {0})
own n h = ok (tt, record h { descriptors = h.descriptors + n })

abbrev calls : {A : Type 0} → Outcome A → Run Held A
calls m h = bind m λ a. ok (a, h)

-- `InferenceService(config)`: the server's socket and pipe, and then the model
unfoldable pub new_service : Machine → Config → Run Held Llama3Generator
unfolding server_socket make_pipe
new_service m c = do
  sock ← calls (server_socket m.socket)
  own 1
  ends ← calls (make_pipe m.pipe)
  own 2
  config ← load_config m.wide_shift m.max_size m.disk c.model_dir
  pure (record { config = config })

abbrev value_of : Outcome Bytes → Option Bytes
value_of (ok a) = some a
value_of (throws e) = none
value_of aborts = none
value_of out_of_fuel = none

-- `Start`, as far as it decides whether the program goes on: the pool is made, in which the number of
-- threads becomes an `int`, and the listener binds its port. An exception in the listener ends the
-- process as one in `Start` does.
unfoldable pub start_server : Machine → Config → Outcome (Unit {0})
unfolding create to_int
start_server m c = bind (create (to_int c.server_config.worker_threads)) λ _. or_errno m.bind_error

abbrev pub with_start : Outcome (Unit {0}) → Config → Llama3Generator → Held → Exit
with_start (ok u) c g h = serves c g h
with_start (throws e) c g h = terminates
with_start aborts c g h = terminates
with_start out_of_fuel c g h = unknown

abbrev pub with_service : Machine → Config → Outcome (Llama3Generator × Held) → Exit
with_service m c (ok (g, h)) = with_start (start_server m c) c g h
with_service m c (throws e) = terminates
with_service m c aborts = terminates
with_service m c out_of_fuel = unknown

abbrev pub nothing_held : Held
nothing_held = record { descriptors = 0; mappings = 0 }

abbrev pub with_config : Machine → Parsed Config → Exit
with_config m (parsed c) = with_service m c (new_service m c nothing_held)
with_config m uncaught = terminates
with_config m (dies s) = dies_with s

-- `Run`
unfoldable pub run : Machine → List Bytes → Exit
unfolding parse_config find_default_model_dir start_server
run m args = with_config m (
    parse_config m.stoi m.threads (value_of (find_default_model_dir m.home m.disk.join m.list_dir))
      args)

-- `signame`, with the numbers of the signals
unfoldable pub signame : ℕ → Bytes
signame signal =
    if signal == 2 then codes "SIGINT" else if signal == 15 then codes "SIGTERM" else []
