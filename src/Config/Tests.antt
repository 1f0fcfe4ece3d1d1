-- ===== src/Config/Tests.antt =====
-- A command line of `ParseConfig`.
use gabby.Base.{◌≡◌, refl, true, Option, some, List, [], ◌∷◌, Bytes, codes, bytes_eq, length}
use gabby.Json.Source.{Size, plus}
use gabby.Config.{default_config, parsed, dies, parse_flags, flag_of, is_logged, info, warn}
use gabby.Config.Flags.{
  Setting, port, model_dir, log_debug, arguments, applied_all, parse_flags-arguments,
}

-- A stand-in for `std::stoi`: the length of the text.
abbrev stoi : Bytes → Option Size
stoi s = some (plus (length s))

missing :
    parse_flags stoi (codes "--port" ∷ []) (default_config 3)
    ≡ dies (codes "missing argument for --port")
unfolding parse_flags flag_of bytes_eq
missing = refl

abbrev settings : List Setting
settings =
    port (codes "80") (plus 2)
    ∷ log_debug
    ∷ model_dir (codes "m")
    ∷ port (codes "8080") (plus 4)
    ∷ []

parse_flags-arguments_example :
    parse_flags stoi (arguments settings) (default_config 3)
    ≡ parsed (applied_all settings (default_config 3))
parse_flags-arguments_example =
    parse_flags-arguments stoi settings (default_config 3) (refl, (tt, (tt, (refl, tt))))

-- `--warn` prints the lines of the level INFO too.
info_at_warn : is_logged info warn ≡ true
unfolding is_logged
info_at_warn = refl
