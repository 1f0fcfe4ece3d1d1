-- ===== src/Config/Flags.antt =====
-- src/main.cc, `ParseConfig` on the flags of a command line.
use gabby.Base.{Option, some, List, [], ◌∷◌, Bytes, codes, bytes_eq, ◌≡◌, refl, ◌∙◌, All}
use gabby.Json.Source.{Size}
use gabby.Config.{
  Config, LogLevel, info, warn, debug, Parsed, parsed, level_flag, parse_flags, given_int, flag_of,
  set_port, set_read, set_write, set_workers, set_model_dir,
}

-- One setting on a command line, a number with its text.
pub data Setting : Type 0 where
  port read_timeout write_timeout workers : (text : Bytes) (n : Size) → Setting
  model_dir : Bytes → Setting
  log_info log_warn log_debug : Setting

abbrev pub arguments : List Setting → List Bytes
arguments [] = []
arguments (port v n ∷ ss) = codes "--port" ∷ v ∷ arguments ss
arguments (read_timeout v n ∷ ss) = codes "--read_timeout_millis" ∷ v ∷ arguments ss
arguments (write_timeout v n ∷ ss) = codes "--write_timeout_millis" ∷ v ∷ arguments ss
arguments (workers v n ∷ ss) = codes "--workers" ∷ v ∷ arguments ss
arguments (model_dir dir ∷ ss) = codes "--model-dir" ∷ dir ∷ arguments ss
arguments (log_info ∷ ss) = codes "--info" ∷ arguments ss
arguments (log_warn ∷ ss) = codes "--warn" ∷ arguments ss
arguments (log_debug ∷ ss) = codes "--debug" ∷ arguments ss

abbrev pub applied : Setting → Config → Config
applied (port v n) = set_port n
applied (read_timeout v n) = set_read n
applied (write_timeout v n) = set_write n
applied (workers v n) = set_workers n
applied (model_dir dir) = set_model_dir dir
applied log_info = λ c. record c { log_level = info }
applied log_warn = λ c. record c { log_level = warn }
applied log_debug = λ c. record c { log_level = debug }

-- the settings in turn: of two for one field the last one counts
abbrev pub applied_all : List Setting → Config → Config
applied_all [] c = c
applied_all (s ∷ ss) c = applied_all ss (applied s c)

given_int-some :
    {o : Option Size} {n : Size} (k : Size → Parsed Config) {r : Parsed Config}
    → o ≡ some n
    → k n ≡ r
    → given_int o k ≡ r
given_int-some k h e = rw h e

module _ (stoi : Bytes → Option Size) where
  -- `std::stoi` reads the number of a setting from its text.
  abbrev pub Reads : Setting → Type 0
  Reads (port v n) = stoi v ≡ some n
  Reads (read_timeout v n) = stoi v ≡ some n
  Reads (write_timeout v n) = stoi v ≡ some n
  Reads (workers v n) = stoi v ≡ some n
  Reads (model_dir dir) = Unit
  Reads log_info = Unit
  Reads log_warn = Unit
  Reads log_debug = Unit

  -- A flag that stands alone is carried out before the arguments behind it.
  level_first :
      (arg : Bytes) (l : LogLevel) (args : List Bytes) (c : Config)
      → flag_of arg ≡ level_flag l
      → parse_flags stoi (arg ∷ args) c ≡ parse_flags stoi args (record c { log_level = l })
  unfolding parse_flags
  level_first arg l [] c h = rw (h, parse_flags) refl
  level_first arg l (v ∷ args) c h = rw (h, parse_flags) refl

  -- The loop of `ParseConfig` carries out the settings of a command line in turn, from any
  -- configuration, if each number is one that `std::stoi` reads.
  pub parse_flags-arguments :
      (ss : List Setting) (c : Config)
      → All Reads ss
      → parse_flags stoi (arguments ss) c ≡ parsed (applied_all ss c)
  unfolding parse_flags flag_of bytes_eq
  parse_flags-arguments [] c p = refl
  parse_flags-arguments (port v n ∷ ss) c p =
      given_int-some (λ n. parse_flags stoi (arguments ss) (set_port n c)) p.0
        (parse_flags-arguments ss (set_port n c) p.1)
  parse_flags-arguments (read_timeout v n ∷ ss) c p =
      given_int-some (λ n. parse_flags stoi (arguments ss) (set_read n c)) p.0
        (parse_flags-arguments ss (set_read n c) p.1)
  parse_flags-arguments (write_timeout v n ∷ ss) c p =
      given_int-some (λ n. parse_flags stoi (arguments ss) (set_write n c)) p.0
        (parse_flags-arguments ss (set_write n c) p.1)
  parse_flags-arguments (workers v n ∷ ss) c p =
      given_int-some (λ n. parse_flags stoi (arguments ss) (set_workers n c)) p.0
        (parse_flags-arguments ss (set_workers n c) p.1)
  parse_flags-arguments (model_dir dir ∷ ss) c p =
      parse_flags-arguments ss (set_model_dir dir c) p.1
  parse_flags-arguments (log_info ∷ ss) c p =
      level_first (codes "--info") info (arguments ss) c refl
      ∙ parse_flags-arguments ss (record c { log_level = info }) p.1
  parse_flags-arguments (log_warn ∷ ss) c p =
      level_first (codes "--warn") warn (arguments ss) c refl
      ∙ parse_flags-arguments ss (record c { log_level = warn }) p.1
  parse_flags-arguments (log_debug ∷ ss) c p =
      level_first (codes "--debug") debug (arguments ss) c refl
      ∙ parse_flags-arguments ss (record c { log_level = debug }) p.1
