-- ===== src/Logging/Tests.antt =====
-- Log lines, and the theorems on them at concrete values.
use gabby.Base.{[], codes, decimal, ◌≡◌, refl}
use gabby.Config.{error, warn, is_logged}
use gabby.Logging.{
  Log, log, log_prefix, basename, Block, line_of, scope, done, and_then, perform_all,
  set_global_log_level, level_text, what,
}
use gabby.Logging.Paths.{IsLastPart, basename-IsLastPart}
use gabby.Logging.Scopes.{perform_all-level}

basename-IsLastPart_example : IsLastPart (codes "/src/main.cc") (basename (codes "/src/main.cc"))
basename-IsLastPart_example = basename-IsLastPart (codes "/src/main.cc")

abbrev quiet : Log
quiet = record { level = error; printed = [] }

-- a warning, an inner block with the level WARN, and a warning again
abbrev lines : Block
lines = and_then (line_of (codes "t") (codes "a/b.cc") 7 warn (codes "x")) (
    and_then (scope warn (and_then (line_of (codes "t") (codes "a/b.cc") 8 warn (codes "y")) done))
      (and_then (line_of (codes "t") (codes "a/b.cc") 9 warn (codes "z")) done))

inner_line : (perform_all lines quiet).printed ≡ codes "t b.cc:8 WARN: y\n"
unfolding log log_prefix basename level_text decimal is_logged set_global_log_level
inner_line = refl

level_restored : (perform_all lines quiet).level ≡ error
level_restored = perform_all-level lines quiet

system_error_text :
    what (λ errno. codes "No such file") (codes "pointers.cc") 13 2
    ≡ codes "pointers.cc:13: No such file"
unfolding what
system_error_text = refl
