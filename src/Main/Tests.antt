-- ===== src/Main/Tests.antt =====
-- A command line that starts the service on a disk with a model.
use gabby.Outcome.{std_error, throws}
use gabby.Base.{none, some, List, [], ◌∷◌, codes, length, ◌≡◌, refl}
use gabby.Json.Source.{plus}
use gabby.Http.Connection.{gives}
use gabby.Inference.Loading.{entries}
use gabby.Inference.Sample.{wide_shift, disk, model_dir}
use gabby.Config.{default_config, parse_config, parse_flags}
use gabby.Config.Flags as Flags
use gabby.Config.Flags.{Setting}
use gabby.Main.{Machine, terminates, run, signame, start_server, throws}

abbrev machine : Machine
machine = record {
  disk = disk;
  list_dir = λ dir. entries [];
  stoi = λ s. some (plus (length s));
  threads = 3;
  home = none;
  socket = gives 3;
  pipe = gives (4, 5);
  bind_error = none;
  wide_shift = wide_shift;
  max_size = 100;
}

-- `--port 80 --debug --model-dir m`
abbrev settings : List Setting
settings = Flags.port (codes "80") (plus 2) ∷ Flags.log_debug ∷ Flags.model_dir (codes "m") ∷ []

-- Without a model directory and without HOME the program ends in an exception.
no_model : run machine [] ≡ terminates
unfolding run parse_config parse_flags default_config
no_model = refl

ctrl_c : signame 2 ≡ codes "SIGINT"
unfolding signame
ctrl_c = refl

-- With no worker `Start` throws.
no_worker :
    start_server machine (default_config 0)
    ≡ throws (std_error (codes "minimum thread pool size is 1"))
unfolding start_server default_config
no_worker = refl
