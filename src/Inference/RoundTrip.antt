-- ===== src/Inference/RoundTrip.antt =====
-- src/inference: what is loaded from files that hold printed values.
use gabby.Base.{
  ℕ, ◌+◌, ◌-◌, ◌%◌, ◌^◌, ◌<◌, ◌≤◌, false, Option, none, some, [], ◌∷◌, ◌++◌, Bytes, length,
  length-append, append_assoc, drop, ltb, ◌≡◌, refl, sym, ap, ◌∙◌, arith,
}
use gabby.Outcome.{ok, bind-eq-ok}
use gabby.Json.Value.{Value, print}
use gabby.Json.Source.{eof, Scanner, to_int}
use gabby.Json.Parse.{parse_string, parse_stream}
use gabby.Json.RoundTrip.Printable.{IsPrintable}
use gabby.Json.RoundTrip.Whole.{parse_string-print}
use gabby.Inference.Files.{Disk, Held, Mapping, parse_file, close, fopen, open_fd, mmap}
use gabby.Inference.Tensors.{Safetensors, string_if, string_of, load_file}
use gabby.Inference.Header.{le64, size_loop-le64, copy-middle}

drop-append : (a b : Bytes) → drop (length a) (a ++ b) ≡ b
drop-append [] b = refl
drop-append (x ∷ a) b = drop-append a b

drop-text : (a b c : Bytes) → drop (length a + length b) (a ++ (b ++ c)) ≡ c
drop-text a b c = rw (sym (append_assoc a b c), sym (length-append a b)) (drop-append (a ++ b) c)

-- A text that a string can hold is copied from behind the size.
string_of-text :
    (max_size : ℕ) (m : Mapping) (text rest : Bytes)
    → m.bytes ≡ le64 (length text) ++ (text ++ rest)
    → length text ≤ max_size
    → string_of max_size m (length text) ≡ ok text
unfolding string_of
string_of-text max_size m text rest e h =
    ap (λ b. string_if b m (length text)) small
    ∙ (copy-middle m 8 (le64 (length text)) text rest e refl)
  where
    small : ltb max_size (length text) ≡ false
    small = ground arith

-- the file of tensors with a value for its header
abbrev pub file_text : (ℕ → Bytes) → Value → Bytes → Bytes
file_text show_double v tensors =
    le64 (length (print show_double v)) ++ (print show_double v ++ tensors)

abbrev mapped : (ℕ → Bytes) → Disk → Bytes → Value → Bytes → Mapping
mapped show_double d path v tensors = record {
  bytes = file_text show_double v tensors;
  behind = d.behind path;
}

abbrev pub loaded : (ℕ → Bytes) → Disk → Bytes → Value → Bytes → Safetensors
loaded show_double d path v tensors = record {
  mem = mapped show_double d path v tensors;
  header = v;
  data_offset = 8 + length (print show_double v);
}

module _ (wide_shift : ℕ → ℕ → ℕ) (zero_shift : (i : ℕ) → wide_shift 0 i ≡ 0) (max_size : ℕ)
    (show_double : ℕ → Bytes) where
  -- A file of a size below 2^31, the printed header of its size and the tensors, is loaded with its
  -- header, and the offset at which the tensors stand. Its descriptor stays open and its mapping
  -- stands. Hypotheses: the file can be opened, the header is a value that `Parse` reads back, a string
  -- can hold its text, and a shift of 0 by 32 or more gives 0.
  pub load_file-file_text :
      (d : Disk) (path : Bytes) (v : Value) (tensors : Bytes) (h : Held)
      → d.contents path ≡ some (file_text show_double v tensors)
      → d.open_error path ≡ none
      → IsPrintable show_double d.stod v
      → length (print show_double v) < 2 ^ 31
      → length (print show_double v) ≤ max_size
      → load_file wide_shift max_size d path h
          ≡ ok (
            loaded show_double d path v tensors,
            record { descriptors = h.descriptors + 1; mappings = h.mappings + 1 },
          )
        × (drop (loaded show_double d path v tensors).data_offset (file_text show_double v tensors)
            ≡ tensors)
  unfolding load_file open_fd mmap
  load_file-file_text d path v tensors h e o p small fits = (
    rw
        (
          e,
          o,
          size_loop-le64 wide_shift zero_shift (mapped show_double d path v tensors)
              (length (print show_double v)) (print show_double v ++ tensors) refl small,
          string_of-text max_size (mapped show_double d path v tensors) (print show_double v)
              tensors refl fits,
          parse_string-print show_double d.stod v p (omega (arith, small)),
          no_wrap,
        )
        refl,
    drop-text (le64 (length (print show_double v))) (print show_double v) tensors,
  )
    where
      no_wrap : (8 + length (print show_double v)) % 2 ^ 64 ≡ 8 + length (print show_double v)
      no_wrap = omega arith

-- `Parse` of a text gives what `Parse` of a file with the text gives.
parse_stream-ok :
    (stod : Bytes → Option ℕ) (text : Bytes) (v : Value)
    → parse_string stod text ≡ ok v
    → (s : Scanner) × (parse_stream stod
          (record { bytes = text; ending = eof })
          (to_int (length text))
        ≡ ok (v, s))
unfolding parse_string
parse_stream-ok stod text v h =
    let (a, e, f) =
      bind-eq-ok (parse_stream stod (record { bytes = text; ending = eof }) (to_int (length text)))
        (λ (w, s). ok w) h in
    (a.1, e ∙ ap (λ w. ok (w, a.1)) (same a.0 f))
  where
    same : (w : Value) → ok w ≡ ok v → w ≡ v
    same w f = cc

-- A file that is there, with a text, and can be opened.
abbrev pub IsFile : Disk → Bytes → Bytes → Type 0
IsFile d path text = (d.contents path ≡ some text) × (d.open_error path ≡ none)

pub parse_file-ok :
    (d : Disk) (path text : Bytes) (v : Value) (h : Held)
    → IsFile d path text
    → parse_string d.stod text ≡ ok v
    → parse_file d path h ≡ ok (v, h)
unfolding parse_file fopen close
parse_file-ok d path text v h (e, o) p =
    let (s, f) = parse_stream-ok d.stod text v p in rw (e, o, f, back) refl
  where
    back : h.descriptors + 1 - 1 ≡ h.descriptors
    back = omega arith
