-- ===== src/Inference/Loading.antt =====
-- src/inference/config.cc and generator.cc: the directory of the model, its files, and the generator
-- made of them.
use gabby.Base.{ℕ, Option, none, some, List, [], ◌∷◌, ◌++◌, Bytes, codes}
use gabby.Outcome.{Outcome, ok, throws, Run, pure, ◌>>=◌, std_error}
use gabby.Json.Value.{Value}
use gabby.Service.{Message, Question}
use gabby.Inference.Files.{Disk, Held, parse_file}
use gabby.Inference.Tensors.{Safetensors, load_file}

-- `struct InferenceConfig`
pub record InferenceConfig : Type 0 where
  pub config : Value
  pub gen_config : Value
  pub special_tokens_map : Value
  pub tok_config : Value
  pub tok : Value
  pub tensors : Safetensors

-- `LoadConfig`
unfoldable pub load_config : (ℕ → ℕ → ℕ) → ℕ → Disk → Bytes → Run Held InferenceConfig
load_config wide_shift max_size d dir = do
  config ← parse_file d (d.join dir (codes "config.json"))
  gen_config ← parse_file d (d.join dir (codes "generation_config.json"))
  special_tokens_map ← parse_file d (d.join dir (codes "special_tokens_map.json"))
  tok_config ← parse_file d (d.join dir (codes "tokenizer_config.json"))
  tok ← parse_file d (d.join dir (codes "tokenizer.json"))
  tensors ← load_file wide_shift max_size d (d.join dir (codes "model.safetensors"))
  pure (record {
    config = config;
    gen_config = gen_config;
    special_tokens_map = special_tokens_map;
    tok_config = tok_config;
    tok = tok;
    tensors = tensors;
  })

-- What `std::filesystem::directory_iterator` gives: an error with its text, or the paths of the
-- entries.
pub data Listing : Type 0 where
  denied : Bytes → Listing
  entries : List Bytes → Listing

-- `kUserRelativeSnapshotDir`
abbrev pub snapshot_dir : Bytes
snapshot_dir =
    codes ".cache/huggingface/hub/models--meta-llama--Llama-3.2-1B-Instruct/" ++ codes "snapshots"

abbrev first_entry : Bytes → Listing → Outcome Bytes
first_entry dir (denied what) =
    throws (std_error (codes "can't access model dir at " ++ dir ++ codes ": " ++ what))
first_entry dir (entries []) = throws (std_error (codes "no snapshots found in " ++ dir))
first_entry dir (entries (e ∷ es)) = ok e

-- `FindDefaultModelDir`, with the variable HOME, the paths below a directory, and the directories
unfoldable pub find_default_model_dir :
    Option Bytes → (Bytes → Bytes → Bytes) → (Bytes → Listing) → Outcome Bytes
find_default_model_dir none join list_dir = throws (std_error (codes "env var HOME is unset"))
find_default_model_dir (some home) join list_dir =
    first_entry (join home snapshot_dir) (list_dir (join home snapshot_dir))

-- `Llama3Generator`
pub record Llama3Generator : Type 0 where
  pub config : InferenceConfig

-- `Llama3Generator::Generate`
unfoldable pub generate : Llama3Generator → Question → Message
generate g req = record { role = codes "assistant"; content = codes "hey this is gabby, how are u" }
