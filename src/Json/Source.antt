-- ===== src/Json/Source.antt =====
-- src/json/parser.h and parser.cc, the lower half of `class Scanner`: bytes from a `FILE*`, a size
-- limit and one byte of lookahead. The upper half takes these operations as the record `Source`.
use gabby.Base.{
  ℕ, ◌+◌, ◌-◌, ◌%◌, ◌^◌, ltb, if◌then◌else◌, Bool, true, false, Option, none, some, [], ◌∷◌, Bytes,
  ◌==◌, leb,
}
use gabby.Outcome.{Run, ok, aborts}

-- What `fgetc` meets when the bytes are used up: the end of the file, a read that timed out
-- (EAGAIN), or another error with its errno.
pub data Ending : Type 0 where
  eof again : Ending
  failed : ℕ → Ending

-- The unread part of a `FILE*`.
pub record File : Type 0 where
  pub bytes : Bytes
  pub ending : Ending

-- The size that the caller gives is an `int`; `minus n` is the size -(n + 1).
pub data Size : Type 0 where
  plus minus : ℕ → Size

-- the conversion of a size to the `int` that `Parse` takes
unfoldable pub to_int : ℕ → Size
to_int n = if ltb (n % 2 ^ 32) (2 ^ 31) then plus (n % 2 ^ 32) else minus (2 ^ 32 - 1 - n % 2 ^ 32)

abbrev pub size_le : Size → ℕ → Bool
size_le (plus n) p = leb n p
size_le (minus n) p = true

abbrev pub size_eq : Size → ℕ → Bool
size_eq (plus n) p = n == p
size_eq (minus n) p = false

-- `class Scanner`
pub record Scanner : Type 0 where
  pub file : File
  pub size : Size
  pub pos : ℕ
  pub lookahead : Option ℕ

-- The operations on which the rest of the scanner is built. `ending` is what the stream's error
-- flag and errno say after `get_char` gave EOF; `at_size` is the test `pos() == size`.
pub record Source (S : Type 0) : Type 0 where
  pub get_char : S → Option ℕ × S
  pub unget_char : ℕ → Run S (Unit {0})
  pub ending : S → Ending
  pub at_size : S → Bool

-- `fgetc`
abbrev fgetc : Bytes → Option ℕ × Bytes
fgetc [] = (none, [])
fgetc (c ∷ cs) = (some c, cs)

abbrev read_file : Scanner → Option ℕ × Bytes → Option ℕ × Scanner
read_file s (none, bs) = (none, s)
read_file s (some c, bs) =
    (some c, record s { file = record { bytes = bs; ending = s.file.ending }; pos = s.pos + 1 })

-- `Scanner::GetChar`
unfoldable pub get_char : Scanner → Option ℕ × Scanner
get_char s = elim s.lookahead [
  | some c ↦ (some c, record s { lookahead = none; pos = s.pos + 1 })
  | none ↦ elim (size_le s.size s.pos) [
    | true ↦ (none, s)
    | false ↦ read_file s (fgetc s.file.bytes)
  ]
]

-- `Scanner::UngetChar`, with its assertion
unfoldable pub unget_char : ℕ → Run Scanner (Unit {0})
unget_char c s = elim s.lookahead [
  | some d ↦ aborts
  | none ↦ ok (tt, record s { pos = s.pos - 1; lookahead = some c })
]

-- The error flag is cleared by each `GetChar`, so it is not set where the size stopped the read.
unfoldable pub scanner_ending : Scanner → Ending
scanner_ending s = elim (size_le s.size s.pos) [ true ↦ eof | false ↦ s.file.ending ]

abbrev pub scanner_source : Source Scanner
scanner_source = record {
  get_char = get_char;
  unget_char = unget_char;
  ending = scanner_ending;
  at_size = λ s. size_eq s.size s.pos;
}

-- The abstract source: the bytes that can still be read, how many fewer than the size they are, and
-- what stands behind them.
pub record View : Type 0 where
  pub rest : Bytes
  pub missing : ℕ
  pub last : Ending

abbrev pub view : Bytes → ℕ → Ending → View
view rest missing last = record { rest = rest; missing = missing; last = last }

abbrev view_get : Bytes → ℕ → Ending → Option ℕ × View
view_get [] n e = (none, view [] n e)
view_get (c ∷ cs) n e = (some c, view cs n e)

abbrev view_at_size : Bytes → ℕ → Bool
view_at_size [] n = n == 0
view_at_size (c ∷ cs) n = false

abbrev pub view_source : Source View
view_source = record {
  get_char = λ v. view_get v.rest v.missing v.last;
  unget_char = λ c v. ok (tt, record v { rest = c ∷ v.rest });
  ending = λ v. v.last;
  at_size = λ v. view_at_size v.rest v.missing;
}
