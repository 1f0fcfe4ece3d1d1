-- ===== src/Logging/Scopes.antt =====
-- src/utils/logging.h, `ScopedLogLevel`: the level behind a block.
use gabby.Base.{Bool, true, false, ◌≡◌, refl, ◌∙◌, if◌then◌else◌}
use gabby.Config.{is_logged}
use gabby.Logging.{
  Log, log, set_global_log_level, Action, Block, line_of, scope, done, and_then, perform,
  perform_all,
}

if-level : (b : Bool) (l m : Log) → m.level ≡ l.level → (if b then m else l).level ≡ l.level
if-level true l m e = e
if-level false l m e = refl

perform-level : (a : Action) (l : Log) → (perform a l).level ≡ l.level
unfolding log set_global_log_level
perform-level (line_of now filename line level text) l = if-level (is_logged level l.level) l _ refl
perform-level (scope level b) l = refl

-- Behind a block of code, whatever lines it logs and however its scoped log levels are nested, the
-- global level is what it was before.
pub perform_all-level : (b : Block) (l : Log) → (perform_all b l).level ≡ l.level
perform_all-level done l = refl
perform_all-level (and_then a b) l = perform_all-level b (perform a l) ∙ perform-level a l
