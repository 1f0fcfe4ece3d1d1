-- ===== src/Http/Task.antt =====
-- src/http/server.cc, the task of a worker where the system calls for the connection succeed.
use gabby.Base.{none, some, Bytes, ◌≡◌, ap}
use gabby.Outcome.{ok, step}
use gabby.Json.Source.{File}
use gabby.Http.Writer.{Sink, Writer, Flushes}
use gabby.Http.Server.{Handler, handle}
use gabby.Http.Connection.{
  System, timeval, set_timeout, or_errno, logged, handle_client, task, Timeval,
}
use gabby.Config.{ServerConfig}

-- The socket takes both time limits, `fdopen` gives a stream, and `fflush` delivers what is written.
pub record Succeeds (sys : System) (config : ServerConfig) : Type 0 where
  pub receives : sys.set_receive (timeval config.read_timeout_millis) ≡ none
  pub sends : sys.set_send (timeval config.write_timeout_millis) ≡ none
  pub opens : sys.fdopen ≡ none
  pub flushes : Flushes sys.fflush

-- The task then gives the response of `Handle`.
pub task-handle :
    (sys : System) (config : ServerConfig) (handler : Handler) (addr : Bytes)
    (stream : Timeval → File) (sink : Sink) (w : Writer)
    → Succeeds sys config
    → handle sys.fflush handler addr (stream (timeval config.read_timeout_millis)) sink ≡ ok w
    → task sys config handler addr stream sink ≡ ok (some w)
unfolding task handle_client set_timeout
task-handle sys config handler addr stream sink w p h = ap logged (
    step _ (ap or_errno p.receives) (step _ (ap or_errno p.sends) (step _ (ap or_errno p.opens) h)))
