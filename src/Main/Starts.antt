-- ===== src/Main/Starts.antt =====
-- src/main.cc: from a command line to a service.
use gabby.Json.Value.{Value}
use gabby.Config.{Config}
