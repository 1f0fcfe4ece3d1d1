-- ===== src/Inference/Tests.antt =====
-- The files of a model on a disk of one directory.
use gabby.Base.{none, some, [], ◌∷◌, Bytes, codes, drop, ◌≡◌, refl, arith}
use gabby.Outcome.{ok, throws, aborts, std_error}
use gabby.Json.Value.{print}
use gabby.Inference.Files.{Disk, open_fd}
use gabby.Inference.Tensors.{load_file, size_loop, read_byte, shifted}
use gabby.Inference.Files.{mmap}
use gabby.Inference.RoundTrip.{file_text, loaded, load_file-file_text}
use gabby.Inference.Loading.{load_config, find_default_model_dir, entries}
use gabby.Inference.Directory.{HasFiles, load_config-HasFiles, load_config-IsModelDir}
use gabby.Inference.Sample.{
  wide_shift, zero_shift, show_double, value, header, tensors, contents, disk, nothing_held,
  one_held, header-IsPrintable, model, model_dir,
}

load_file-file_text_example :
    (load_file wide_shift 100 disk (codes "m/model.safetensors") nothing_held
      ≡ ok (loaded show_double disk (codes "m/model.safetensors") header tensors, one_held))
    × (drop 21 (file_text show_double header tensors) ≡ tensors)
unfolding contents print
load_file-file_text_example =
    load_file-file_text wide_shift zero_shift 100 show_double disk (codes "m/model.safetensors")
      header tensors nothing_held refl refl header-IsPrintable (omega arith) (omega arith)

model_loaded : load_config wide_shift 100 disk (codes "m") nothing_held ≡ ok (model, one_held)
model_loaded =
    load_config-IsModelDir wide_shift zero_shift 100 show_double disk (codes "m") value value value
      value value header tensors nothing_held model_dir

load_config-IsModelDir_example :
    load_config wide_shift 100 disk (codes "m") nothing_held ≡ ok (model, one_held)
load_config-IsModelDir_example =
    load_config-IsModelDir wide_shift zero_shift 100 show_double disk (codes "m") value value value
      value value header tensors nothing_held model_dir

load_config-HasFiles_example : HasFiles disk (codes "m")
load_config-HasFiles_example =
    load_config-HasFiles wide_shift 100 disk (codes "m") nothing_held one_held model model_loaded

-- A file of no bytes, and one whose size is larger than a string can be.
abbrev bad_disk : Bytes → Disk
bad_disk bytes = record disk { contents = λ path. some bytes }

empty_file : load_file wide_shift 100 (bad_disk []) (codes "t") nothing_held ≡ aborts
unfolding load_file open_fd mmap size_loop read_byte
empty_file = refl

-- The fourth byte of the size has its highest bit set: the `int` is negative, and the size is
-- 2^64 - 2^31.
negative_size :
    size_loop wide_shift
      (record { bytes = 0 ∷ 0 ∷ 0 ∷ 128 ∷ 0 ∷ 0 ∷ 0 ∷ 0 ∷ []; behind = λ i. none })
      8
      0
      0
    ≡ ok 18446744071562067968
unfolding size_loop read_byte shifted
negative_size = refl

no_home :
    find_default_model_dir none disk.join (λ dir. entries [])
    ≡ throws (std_error (codes "env var HOME is unset"))
unfolding find_default_model_dir
no_home = refl
