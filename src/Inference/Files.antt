-- ===== src/Inference/Files.antt =====
-- src/utils/pointers.cc and `ParseFile` of src/json/parser.cc: files that are opened, mapped and
-- parsed, and the descriptors that stay open.
use gabby.Base.{ℕ, ◌+◌, ◌-◌, Option, none, some, [], Bytes, codes, length}
use gabby.Outcome.{ok, throws, bind, Run, pure, throw, ◌>>=◌, ◌>>◌, system_error, std_error}
use gabby.Json.Value.{Value}
use gabby.Json.Source.{eof, to_int}
use gabby.Json.Parse.{parse_stream}

-- What the operating system and the libraries give: the contents of the files, the errno of an `open`
-- that fails, the byte that a read behind the end of a mapped file gives (or a fault), the paths below
-- a directory, and `std::stod`.
pub record Disk : Type 0 where
  pub contents : Bytes → Option Bytes
  pub open_error : Bytes → Option ℕ
  pub behind : Bytes → ℕ → Option ℕ
  pub join : Bytes → Bytes → Bytes
  pub stod : Bytes → Option ℕ

-- The descriptors that are open and the mappings that stand.
pub record Held : Type 0 where
  pub descriptors : ℕ
  pub mappings : ℕ

-- An `OwnedMmap`
pub record Mapping : Type 0 where
  pub bytes : Bytes
  pub behind : ℕ → Option ℕ

abbrev size_of : Option Bytes → Run Held ℕ
size_of none = throw (std_error (codes "filesystem error: cannot get file size"))
size_of (some bytes) = pure (length bytes)

-- `std::filesystem::file_size`
abbrev pub file_size : Disk → Bytes → Run Held ℕ
file_size d path = size_of (d.contents path)

abbrev opened : Option ℕ → Run Held (Unit {0})
opened (some errno) h = throws (system_error errno)
opened none h = ok (tt, record h { descriptors = h.descriptors + 1 })

-- `Fopen`: a stream, with its descriptor
unfoldable pub fopen : Disk → Bytes → Run Held (Unit {0})
fopen d path = opened (d.open_error path)

-- `Open`: a descriptor
unfoldable pub open_fd : Disk → Bytes → Run Held (Unit {0})
open_fd d path = opened (d.open_error path)

-- the deleter of an `OwnedFd` or an `OwnedStream`
unfoldable pub close : Run Held (Unit {0})
close h = ok (tt, record h { descriptors = h.descriptors - 1 })

abbrev bytes_at : Option Bytes → Bytes
bytes_at none = []
bytes_at (some bytes) = bytes

-- `Mmap`: the descriptor is released, so that nobody closes it. What `mmap` returns is not tested:
-- where it fails, as for an empty file, the reads fault.
unfoldable pub mmap : Disk → Bytes → Run Held Mapping
mmap d path h = ok (
  record { bytes = bytes_at (d.contents path); behind = d.behind path },
  record h { mappings = h.mappings + 1 },
)

abbrev parse_open : Disk → Bytes → ℕ → Run Held Value
parse_open d path size h =
    bind
      (parse_stream d.stod (record { bytes = bytes_at (d.contents path); ending = eof })
        (to_int size))
      λ (v, s). ok (v, h)

-- `ParseFile`
unfoldable pub parse_file : Disk → Bytes → Run Held Value
parse_file d path = do
  fopen d path
  size ← file_size d path
  v ← parse_open d path size
  close
  pure v
