-- ===== src/Inference/Tensors.antt =====
-- src/inference/safetensors.cc: the header of a file of tensors.
use Prim.Native.Nat.{bit_or}
use gabby.Base.{
  Bool, true, false, ℕ, zero, suc, ◌+◌, ◌-◌, ◌*◌, ◌%◌, ◌^◌, Option, none, some, [], ◌∷◌, Bytes,
  codes, ltb, shift_left, if◌then◌else◌,
}
use gabby.Outcome.{Outcome, ok, throws, aborts, bind, Run, pure, ◌>>=◌, ◌>>◌, std_error}
use gabby.Json.Value.{Value}
use gabby.Json.Parse.{parse_string}
use gabby.Inference.Files.{Disk, Held, Mapping, file_size, open_fd, mmap}

-- `class Safetensors`
pub record Safetensors : Type 0 where
  pub mem : Mapping
  pub header : Value
  pub data_offset : ℕ

abbrev read_from : Bytes → ℕ → (ℕ → Option ℕ) → Option ℕ
read_from [] i behind = behind i
read_from (b ∷ bs) zero behind = some b
read_from (b ∷ bs) (suc i) behind = read_from bs i behind

abbrev fault : Option ℕ → Outcome ℕ
fault none = aborts
fault (some b) = ok b

-- `data.get()[i]`: behind the end of the file, index `k + length` gives `behind k` or a fault.
unfoldable pub read_byte : Mapping → ℕ → Outcome ℕ
read_byte m i = fault (read_from m.bytes i m.behind)

-- `data.get()[i] << (8 * i)`, an `int` of 32 bits that is converted to `uint64_t`. A shift by 32 or more
-- is undefined: `wide_shift` says what the compiler makes of it.
unfoldable pub shifted : (ℕ → ℕ → ℕ) → ℕ → ℕ → ℕ
shifted wide_shift b i =
    let v = shift_left b (8 * i) % 2 ^ 32 in
    let narrow = if ltb v (2 ^ 31) then v else v + (2 ^ 64 - 2 ^ 32) in
    if ltb i 4 then narrow else wide_shift b i

module _ (wide_shift : ℕ → ℕ → ℕ) where
  -- The loop over the first eight bytes, with `n` of them to go.
  unfoldable pub size_loop : Mapping → ℕ → ℕ → ℕ → Outcome ℕ
  unfolding read_byte shifted
  size_loop m zero i acc = ok acc
  size_loop m (suc n) i acc =
      bind (read_byte m i) λ b. size_loop m n (suc i) (bit_or acc (shifted wide_shift b i))

-- The bytes from `i` on, one after the other.
unfoldable pub copy : Mapping → ℕ → ℕ → Outcome Bytes
unfolding read_byte
copy m i zero = ok []
copy m i (suc n) = bind (read_byte m i) λ b. bind (copy m (suc i) n) λ bs. ok (b ∷ bs)

abbrev pub string_if : (too_long : Bool) → Mapping → ℕ → Outcome Bytes
string_if true m n = throws (std_error (codes "basic_string::_M_create"))
string_if false m n = copy m 8 n

-- `std::string s(first, last)` of so many bytes, which throws `std::length_error` for a text that is
-- larger than a string can be.
unfoldable pub string_of : ℕ → Mapping → ℕ → Outcome Bytes
string_of max_size m n = string_if (ltb max_size n) m n

abbrev lift : {A : Type 0} → Outcome A → Run Held A
lift m h = bind m λ a. ok (a, h)

-- `Safetensors::LoadFile`
unfoldable pub load_file : (ℕ → ℕ → ℕ) → ℕ → Disk → Bytes → Run Held Safetensors
load_file wide_shift max_size d path = do
  size ← file_size d path
  open_fd d path
  mem ← mmap d path
  header_size ← lift (size_loop wide_shift mem 8 0 0)
  s ← lift (string_of max_size mem header_size)
  header ← lift (parse_string d.stod s)
  pure (record { mem = mem; header = header; data_offset = (8 + header_size) % 2 ^ 64 })
