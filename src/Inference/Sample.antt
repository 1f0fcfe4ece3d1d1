-- ===== src/Inference/Sample.antt =====
-- A disk with the files of a model in one directory, for the tests.
use gabby.Base.{
  ℕ, zero, true, Option, none, some, [], ◌∷◌, ◌++◌, Bytes, codes, bytes_eq, ◌≡◌, refl, arith,
  if◌then◌else◌,
}
use gabby.Json.Value.{
  Value, boolean, array_value, object, no_items, item, no_fields, field, find, print,
}
use gabby.Json.RoundTrip.Printable.{IsPrintable}
use gabby.Inference.Files.{Disk, Held}
use gabby.Inference.RoundTrip.{file_text, loaded}
use gabby.Inference.Loading.{InferenceConfig}
use gabby.Inference.Directory.{IsPrinted, IsModelDir}

-- a shift by 32 or more that takes the count modulo 32
abbrev pub wide_shift : ℕ → ℕ → ℕ
wide_shift zero i = 0
wide_shift b i = b

pub zero_shift : (i : ℕ) → wide_shift 0 i ≡ 0
zero_shift i = refl

abbrev pub show_double : ℕ → Bytes
show_double d = codes "7"

-- `[true]` and `{"w": [true]}`
abbrev pub value : Value
value = array_value (item (boolean true) no_items)

abbrev pub header : Value
header = object (field (codes "w") value no_fields)

abbrev pub tensors : Bytes
tensors = 1 ∷ 2 ∷ 3 ∷ []

unfoldable pub contents : Bytes → Option Bytes
unfolding bytes_eq print
contents path =
    if bytes_eq path (codes "m/model.safetensors")
    then some (file_text show_double header tensors)
    else some (print show_double value)

abbrev pub disk : Disk
disk = record {
  contents = contents;
  open_error = λ path. none;
  behind = λ path i. none;
  join = λ dir name. dir ++ codes "/" ++ name;
  stod = λ s. none;
}

abbrev pub nothing_held : Held
nothing_held = record { descriptors = 0; mappings = 0 }

abbrev pub one_held : Held
one_held = record { descriptors = 1; mappings = 1 }

pub header-IsPrintable : IsPrintable show_double disk.stod header
unfolding find
header-IsPrintable = ((refl, tt), ((refl, tt), ((tt, tt), tt)))

pub printed :
    (path : Bytes)
    → contents path ≡ some (print show_double value)
    → IsPrinted show_double disk path value
unfolding print
printed path e = record { file = (e, refl); printable = (tt, tt); small = omega arith }

-- the model in the directory `m`
abbrev pub model : InferenceConfig
model = record {
  config = value;
  gen_config = value;
  special_tokens_map = value;
  tok_config = value;
  tok = value;
  tensors = loaded show_double disk (codes "m/model.safetensors") header tensors;
}

pub model_dir :
    IsModelDir show_double 100 disk (codes "m") value value value value value header tensors
unfolding contents print
model_dir = record {
  config_file = printed (codes "m/config.json") refl;
  gen_config_file = printed (codes "m/generation_config.json") refl;
  special_tokens_map_file = printed (codes "m/special_tokens_map.json") refl;
  tok_config_file = printed (codes "m/tokenizer_config.json") refl;
  tok_file = printed (codes "m/tokenizer.json") refl;
  tensors_file = (refl, refl);
  printable = header-IsPrintable;
  small = omega arith;
  fits = omega arith;
}
