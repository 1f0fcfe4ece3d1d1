-- ===== src/Config.antt =====
-- src/main.cc, `ParseConfig`, with `ServerConfig` (src/http/server.h) and `LogLevel`
-- (src/utils/logging.h).
pub mod Flags
mod Tests
use Prim.Native.Nat.{◌%◌, ◌^◌}
use gabby.Base.{
  ℕ, ◌-◌, zero, suc, ◌+◌, ◌<◌, Bool, true, false, Option, none, some, List, [], ◌∷◌, ◌++◌, Bytes,
  codes, bytes_eq, is_empty, leb, if◌then◌else◌,
}
use gabby.Outcome.{Outcome, ok, throws, std_error, bind}
use gabby.Json.Source.{Size, plus, minus}

-- `enum LogLevel`
pub data LogLevel : Type 0 where
  off error info warn debug : LogLevel

unfoldable pub level_number : LogLevel → ℕ
level_number off = 0
level_number error = 1
level_number info = 2
level_number warn = 3
level_number debug = 4

-- `Logger::~Logger`: is a line of the level printed?
unfoldable pub is_logged : (line global : LogLevel) → Bool
unfolding level_number
is_logged line global = leb (level_number line) (level_number global)

-- `struct ServerConfig`; an `int` is a `Size`, and the number of workers is an
-- `unsigned int`.
pub record ServerConfig : Type 0 where
  pub port : Size
  pub read_timeout_millis : Size
  pub write_timeout_millis : Size
  pub worker_threads : ℕ

-- `struct Config`
pub record Config : Type 0 where
  pub log_level : LogLevel
  pub server_config : ServerConfig
  pub model_dir : Bytes

-- How the program goes on: with a value, an uncaught exception, or `Die` with a message.
pub data Parsed (A : Type 0) : Type 0 where
  parsed : A → Parsed A
  uncaught : Parsed A
  dies : Bytes → Parsed A

-- `DefaultConfig`, with `std::thread::hardware_concurrency() - 1` as a parameter
unfoldable pub default_config : ℕ → Config
default_config threads = record {
  log_level = off;
  server_config = record {
    port = plus 8080;
    read_timeout_millis = plus 5000;
    write_timeout_millis = plus 10000;
    worker_threads = threads;
  };
  model_dir = [];
}

-- What a flag does to the configuration: it takes a number or a text, or it stands alone.
pub data Flag : Type 0 where
  int_flag : (Size → Config → Config) → Flag
  str_flag : (Bytes → Config → Config) → Flag
  level_flag : LogLevel → Flag
  invalid : Flag

-- the conversion of an `int` to `unsigned int`
unfoldable pub as_unsigned : Size → ℕ
as_unsigned (plus n) = n % 2 ^ 32
as_unsigned (minus n) = 2 ^ 32 - 1 - n % 2 ^ 32

abbrev pub set_port : Size → Config → Config
set_port n c = record c { server_config = record c.server_config { port = n } }

abbrev pub set_read : Size → Config → Config
set_read n c = record c { server_config = record c.server_config { read_timeout_millis = n } }

abbrev pub set_write : Size → Config → Config
set_write n c = record c { server_config = record c.server_config { write_timeout_millis = n } }

abbrev pub set_workers : Size → Config → Config
set_workers n c = record c {
  server_config = record c.server_config { worker_threads = as_unsigned n };
}

abbrev pub set_model_dir : Bytes → Config → Config
set_model_dir dir c = record c { model_dir = dir }

-- the chain of tests in the loop
unfoldable pub flag_of : Bytes → Flag
unfolding bytes_eq
flag_of arg =
    if bytes_eq arg (codes "--port")
    then int_flag set_port
    else if bytes_eq arg (codes "--read_timeout_millis")
    then int_flag set_read
    else if bytes_eq arg (codes "--write_timeout_millis")
    then int_flag set_write
    else if bytes_eq arg (codes "--info")
    then level_flag info
    else if bytes_eq arg (codes "--warn")
    then level_flag warn
    else if bytes_eq arg (codes "--debug")
    then level_flag debug
    else if bytes_eq arg (codes "--workers")
    then int_flag set_workers
    else if bytes_eq arg (codes "--model-dir")
    then str_flag set_model_dir
    else invalid

abbrev missing_argument : Bytes → Bytes
missing_argument flag = codes "missing argument for " ++ flag

-- `std::stoi` throws where it finds no number or one out of range.
abbrev pub given_int : Option Size → (Size → Parsed Config) → Parsed Config
given_int none k = uncaught
given_int (some n) k = k n

module _ (stoi : Bytes → Option Size) where
  -- The loop over the arguments. `ParseIntFlag` and `ParseStrFlag` look at the one behind the flag.
  unfoldable pub parse_flags : List Bytes → Config → Parsed Config
  unfolding flag_of
  parse_flags [] c = parsed c
  parse_flags (arg ∷ []) c = elim (flag_of arg) [
    | int_flag set ↦ dies (missing_argument arg)
    | str_flag set ↦ dies (missing_argument arg)
    | level_flag l ↦ parsed (record c { log_level = l })
    | invalid ↦ dies (codes "invalid argument: " ++ arg)
  ]
  parse_flags (arg ∷ v ∷ args) c = elim (flag_of arg) [
    | int_flag set ↦ given_int (stoi v) λ n. parse_flags args (set n c)
    | str_flag set ↦ parse_flags args (set v c)
    | level_flag l ↦ parse_flags (v ∷ args) (record c { log_level = l })
    | invalid ↦ dies (codes "invalid argument: " ++ arg)
  ]

  -- The model directory, where no flag gave one: `FindDefaultModelDir` finds one or throws.
  abbrev with_model_dir : Option Bytes → Parsed Config → Parsed Config
  with_model_dir found (parsed c) =
      if is_empty c.model_dir
      then (elim found [ none ↦ uncaught | some dir ↦ parsed (set_model_dir dir c) ])
      else parsed c
  with_model_dir found uncaught = uncaught
  with_model_dir found (dies s) = dies s

  -- `ParseConfig`, on the arguments behind the program's name
  unfoldable pub parse_config : ℕ → Option Bytes → List Bytes → Parsed Config
  unfolding parse_flags default_config
  parse_config threads found args = with_model_dir found (parse_flags args (default_config threads))
