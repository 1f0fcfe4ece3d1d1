-- ===== src/Inference/Directory.antt =====
-- src/inference/config.cc, `LoadConfig`: what a directory must hold, and what is loaded from it.
use gabby.Base.{ℕ, ◌+◌, ◌^◌, ◌<◌, ◌≤◌, Option, none, some, Bytes, codes, length, ◌≡◌, refl}
use gabby.Outcome.{ok, bind-eq-ok}
use gabby.Json.Value.{Value, print}
use gabby.Json.RoundTrip.Printable.{IsPrintable}
use gabby.Json.RoundTrip.Whole.{parse_string-print}
use gabby.Inference.Files.{Disk, Held, parse_file, fopen, open_fd}
use gabby.Inference.Tensors.{Safetensors, load_file}
use gabby.Inference.RoundTrip.{IsFile, parse_file-ok, file_text, loaded, load_file-file_text}
use gabby.Inference.Loading.{InferenceConfig, load_config}

-- a file that is there and can be opened
abbrev pub IsThere : Disk → Bytes → Type 0
IsThere d path = (text : Bytes) × IsFile d path text

parse_file-IsThere :
    (d : Disk) (path : Bytes) (c : Option Bytes) (o : Option ℕ)
    → d.contents path ≡ c
    → d.open_error path ≡ o
    → (v : Value) (h h' : Held) → parse_file d path h ≡ ok (v, h')
    → IsThere d path
unfolding parse_file fopen
parse_file-IsThere d path (some text) none e f v h h' eq = (text, (e, f))
parse_file-IsThere d path none none e f v h h' eq = cc (rw (f, e) at eq)
parse_file-IsThere d path c (some errno) e f v h h' eq = cc (rw f at eq)

load_file-IsThere :
    (wide_shift : ℕ → ℕ → ℕ) (max_size : ℕ) (d : Disk) (path : Bytes) (c : Option Bytes)
    (o : Option ℕ)
    → d.contents path ≡ c
    → d.open_error path ≡ o
    → (v : Safetensors) (h h' : Held) → load_file wide_shift max_size d path h ≡ ok (v, h')
    → IsThere d path
unfolding load_file open_fd
load_file-IsThere wide_shift max_size d path (some text) none e f v h h' eq = (text, (e, f))
load_file-IsThere wide_shift max_size d path none o e f v h h' eq = cc (rw e at eq)
load_file-IsThere wide_shift max_size d path (some text) (some errno) e f v h h' eq =
    cc (rw (e, f) at eq)

-- the six files of a model
abbrev pub HasFiles : Disk → Bytes → Type 0
HasFiles d dir =
    IsThere d (d.join dir (codes "config.json"))
    × IsThere d (d.join dir (codes "generation_config.json"))
    × IsThere d (d.join dir (codes "special_tokens_map.json"))
    × IsThere d (d.join dir (codes "tokenizer_config.json"))
    × IsThere d (d.join dir (codes "tokenizer.json"))
    × IsThere d (d.join dir (codes "model.safetensors"))

-- `LoadConfig` gives a configuration only where all six files are there and can be opened.
pub load_config-HasFiles :
    (wide_shift : ℕ → ℕ → ℕ) (max_size : ℕ) (d : Disk) (dir : Bytes) (h h' : Held)
    (c : InferenceConfig)
    → load_config wide_shift max_size d dir h ≡ ok (c, h')
    → HasFiles d dir
unfolding load_config
load_config-HasFiles wide_shift max_size d dir h h' c eq =
    let (a1, e1, r1) = bind-eq-ok (parse_file d (d.join dir (codes "config.json")) h) _ eq in
    let (a2, e2, r2) =
      bind-eq-ok (parse_file d (d.join dir (codes "generation_config.json")) a1.1) _ r1 in
    let (a3, e3, r3) =
      bind-eq-ok (parse_file d (d.join dir (codes "special_tokens_map.json")) a2.1) _ r2 in
    let (a4, e4, r4) =
      bind-eq-ok (parse_file d (d.join dir (codes "tokenizer_config.json")) a3.1) _ r3 in
    let (a5, e5, r5) = bind-eq-ok (parse_file d (d.join dir (codes "tokenizer.json")) a4.1) _ r4 in
    let (a6, e6, r6) =
      bind-eq-ok (load_file wide_shift max_size d (d.join dir (codes "model.safetensors")) a5.1) _
        r5 in
    (
      json _ e1,
      json _ e2,
      json _ e3,
      json _ e4,
      json _ e5,
      load_file-IsThere wide_shift max_size d _ _ _ refl refl a6.0 _ a6.1 e6,
    )
  where
    json :
        {path : Bytes} {a : Value × Held} (h : Held) → parse_file d path h ≡ ok a → IsThere d path
    json {path} {a} h e = parse_file-IsThere d path _ _ refl refl a.0 h a.1 e

-- A file with the printed text of a value, of less than 2^31 bytes.
pub record IsPrinted (show_double : ℕ → Bytes) (d : Disk) (path : Bytes) (v : Value) : Type 0 where
  pub file : IsFile d path (print show_double v)
  pub printable : IsPrintable show_double d.stod v
  pub small : length (print show_double v) < 2 ^ 31

parse_file-print :
    (show_double : ℕ → Bytes) (d : Disk) (path : Bytes) (v : Value) (h : Held)
    → IsPrinted show_double d path v
    → parse_file d path h ≡ ok (v, h)
parse_file-print show_double d path v h f =
    parse_file-ok d path (print show_double v) v h f.file
      (parse_string-print show_double d.stod v f.printable f.small)

-- The files of the directory `dir` hold five values, and a header and the tensors.
pub record IsModelDir (show_double : ℕ → Bytes) (max_size : ℕ) (d : Disk) (dir : Bytes)
    (config gen_config special_tokens_map tok_config tok header : Value) (tensors : Bytes)
    : Type 0 where
  pub config_file : IsPrinted show_double d (d.join dir (codes "config.json")) config
  pub gen_config_file :
      IsPrinted show_double d (d.join dir (codes "generation_config.json")) gen_config
  pub special_tokens_map_file :
      IsPrinted show_double d (d.join dir (codes "special_tokens_map.json")) special_tokens_map
  pub tok_config_file :
      IsPrinted show_double d (d.join dir (codes "tokenizer_config.json")) tok_config
  pub tok_file : IsPrinted show_double d (d.join dir (codes "tokenizer.json")) tok
  pub tensors_file :
      IsFile d (d.join dir (codes "model.safetensors")) (file_text show_double header tensors)
  pub printable : IsPrintable show_double d.stod header
  pub small : length (print show_double header) < 2 ^ 31
  pub fits : length (print show_double header) ≤ max_size

module _ (wide_shift : ℕ → ℕ → ℕ) (zero_shift : (i : ℕ) → wide_shift 0 i ≡ 0) (max_size : ℕ)
    (show_double : ℕ → Bytes) where
  -- From the directory of a model, `LoadConfig` gives the five values of its JSON files and the
  -- tensors with their header. One descriptor stays open, that of the mapped file; those of the JSON
  -- files are closed.
  pub load_config-IsModelDir :
      (d : Disk) (dir : Bytes) (config gen_config special_tokens_map tok_config tok header : Value)
      (tensors : Bytes) (h : Held)
      → IsModelDir show_double max_size d dir config gen_config special_tokens_map tok_config tok
          header tensors
      → load_config wide_shift max_size d dir h
        ≡ ok (
          record {
            config = config;
            gen_config = gen_config;
            special_tokens_map = special_tokens_map;
            tok_config = tok_config;
            tok = tok;
            tensors = loaded show_double d (d.join dir (codes "model.safetensors")) header tensors;
          },
          record { descriptors = h.descriptors + 1; mappings = h.mappings + 1 },
        )
  unfolding load_config
  load_config-IsModelDir d dir config gen_config special_tokens_map tok_config tok header tensors h
        f =
      rw
        (
          parse_file-print show_double d _ config h f.config_file,
          parse_file-print show_double d _ gen_config h f.gen_config_file,
          parse_file-print show_double d _ special_tokens_map h f.special_tokens_map_file,
          parse_file-print show_double d _ tok_config h f.tok_config_file,
          parse_file-print show_double d _ tok h f.tok_file,
          (load_file-file_text wide_shift zero_shift max_size show_double d _ header tensors h
              (f.tensors_file).0 (f.tensors_file).1 f.printable f.small f.fits).0,
        )
        refl
