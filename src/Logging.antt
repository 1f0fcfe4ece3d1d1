-- ===== src/Logging.antt =====
-- src/utils/logging.h and logging.cc: log levels, log lines and the text of a system error.
use gabby.Base.{
  ℕ, zero, suc, ◌+◌, Bool, true, false, Option, none, some, List, [], ◌∷◌, ◌++◌, Bytes, codes,
  decimal, leb, ◌==◌, if◌then◌else◌,
}
use gabby.Config.{LogLevel, off, error, info, warn, debug, is_logged}
pub mod Paths
pub mod Scopes
pub mod Lines
mod Tests

-- `operator<<(std::ostream&, LogLevel)`
unfoldable pub level_text : LogLevel → Bytes
level_text off = codes "OFF"
level_text error = codes "ERROR"
level_text info = codes "INFO"
level_text debug = codes "DEBUG"
level_text warn = codes "WARN"

abbrev pub behind_here : Bool → Bytes → Option Bytes → Option Bytes
behind_here here bs (some r) = some r
behind_here true bs none = some bs
behind_here false bs none = none

-- `strrchr`, on a text without a NUL byte: what stands behind the last such byte
unfoldable pub behind_last : ℕ → Bytes → Option Bytes
behind_last c [] = none
behind_last c (b ∷ bs) = behind_here (b == c) bs (behind_last c bs)

abbrev pub or_whole : Bytes → Option Bytes → Bytes
or_whole s none = s
or_whole s (some r) = r

-- `basename`
unfoldable pub basename : Bytes → Bytes
unfolding behind_last
basename filename = or_whole filename (behind_last b'/' filename)

-- The text that `Logger` starts a line with; `now` is the time as `std::format` writes it.
unfoldable pub log_prefix : (now filename : Bytes) (line : ℕ) (level : LogLevel) → Bytes
unfolding basename decimal level_text
log_prefix now filename line level =
    now
    ++ codes " "
    ++ basename filename
    ++ codes ":"
    ++ decimal line
    ++ codes " "
    ++ level_text level
    ++ codes ": "

-- The global level, and the text on `std::cerr`.
pub record Log : Type 0 where
  pub level : LogLevel
  pub printed : Bytes

-- A use of `LOG(level)`: the constructor of `Logger`, the text of the line, the destructor
unfoldable pub log : (now filename : Bytes) (line : ℕ) → LogLevel → Bytes → Log → Log
unfolding log_prefix is_logged
log now filename line level text l =
    if is_logged level l.level
    then record l {
      printed = l.printed ++ (log_prefix now filename line level ++ text ++ codes "\n");
    }
    else l

-- `SetGlobalLogLevel`
unfoldable pub set_global_log_level : LogLevel → Log → Log
set_global_log_level level l = record l { level = level }

-- The text of a `SystemError`; `strerror` is the C library's.
unfoldable pub what : (ℕ → Bytes) → (file : Bytes) → (line errno : ℕ) → Bytes
unfolding decimal
what strerror file line errno = file ++ codes ":" ++ decimal line ++ codes ": " ++ strerror errno

-- What a block of code does with the log: it logs lines, it sets the level, and it holds a
-- `ScopedLogLevel` for an inner block.
mutual
  pub data Action : Type 0 where
    line_of : (now filename : Bytes) → ℕ → LogLevel → Bytes → Action
    scope : LogLevel → Block → Action

  pub data Block : Type 0 where
    done : Block
    and_then : Action → Block → Block

abbrev mutual
  -- A `ScopedLogLevel` sets the level in its constructor and puts back the one before in its
  -- destructor.
  pub perform : Action → Log → Log
  perform (line_of now filename line level text) l = log now filename line level text l
  perform (scope level b) l =
      set_global_log_level l.level (perform_all b (set_global_log_level level l))

  pub perform_all : Block → Log → Log
  perform_all done l = l
  perform_all (and_then a b) l = perform_all b (perform a l)
