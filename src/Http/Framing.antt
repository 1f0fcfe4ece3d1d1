-- ===== src/Http/Framing.antt =====
-- src/http/server.cc, `ReadLine` on a line that ends with CR and LF.
use gabby.Base.{
  ℕ, zero, suc, ◌+◌, ◌-◌, ◌≤◌, false, true, not, ◌&&◌, Bool, all, All-all, [], ◌∷◌, ◌++◌, Bytes,
  ◌==◌, length, length-append, take, ◌≡◌, refl, ap, arith, All,
}
use gabby.Outcome.{ok}
use gabby.Json.Source.{Ending, File}
use gabby.Http.Lines.{fgets, c_string, byte_at, check_line, read_line}

abbrev pub file : Bytes → Ending → File
file bs e = record { bytes = bs; ending = e }

-- Bytes that can stand in a line: neither a newline nor NUL.
abbrev pub IsLine : Bytes → Type 0
IsLine s = All (λ c. ((c == b'\n') ≡ false) × ((c == 0) ≡ false)) s

abbrev pub stands_in_line : ℕ → Bool
stands_in_line c = not (c == b'\n') && not (c == 0)

pub tested-IsLine : (s : Bytes) → all stands_in_line s ≡ true → IsLine s
tested-IsLine s h = All-all stands_in_line (λ c p. (ground arith, ground arith)) s h

-- a line with its ending, and what stands behind
abbrev pub crlf : Bytes → Bytes
crlf rest = b'\r' ∷ b'\n' ∷ rest

fgets-crlf :
    (n : ℕ) (line rest : Bytes)
    → IsLine line
    → length line + 2 ≤ n
    → fgets n (line ++ crlf rest) ≡ record { buf = line ++ crlf []; rest = rest; hit_end = false }
unfolding fgets
fgets-crlf zero line rest p h = absurd (omega arith)
fgets-crlf (suc zero) line rest p h = absurd (omega arith)
fgets-crlf (suc (suc n)) [] rest p h = refl
fgets-crlf (suc n) (c ∷ cs) rest p h = rw (p.0.0, fgets-crlf n cs rest p.1 (omega arith)) refl

c_string-crlf : (line : Bytes) → IsLine line → c_string (line ++ crlf []) ≡ line ++ crlf []
unfolding c_string
c_string-crlf [] p = refl
c_string-crlf (c ∷ cs) p = rw p.0.1 (ap (◌∷◌ c) (c_string-crlf cs p.1))

byte_at-append : (xs ys : Bytes) (i n : ℕ) → n ≡ length xs + i → byte_at (xs ++ ys) n ≡ byte_at ys i
unfolding byte_at
byte_at-append [] ys i n e = ap (byte_at ys) (omega arith)
byte_at-append (x ∷ xs) ys i zero e = absurd (omega arith)
byte_at-append (x ∷ xs) ys i (suc n) e = byte_at-append xs ys i n (omega arith)

pub take-append : (xs ys : Bytes) (n : ℕ) → n ≡ length xs → take n (xs ++ ys) ≡ xs
take-append [] ys zero e = refl
take-append [] ys (suc n) e = absurd (omega arith)
take-append (x ∷ xs) ys zero e = absurd (omega arith)
take-append (x ∷ xs) ys (suc n) e = ap (◌∷◌ x) (take-append xs ys n (omega arith))

-- The tests of `ReadLine`, with the length of the text as a number of its own.
check_line-crlf_sized :
    (line : Bytes) (n : ℕ)
    → length (line ++ crlf []) ≡ n
    → n ≡ length line + 2
    → check_line (line ++ crlf []) ≡ ok line
unfolding check_line
check_line-crlf_sized line n e h =
    rw
      (
        e,
        byte_at-append line (crlf []) 1 (n - 1) (omega arith),
        byte_at-append line (crlf []) 0 (n - 2) (omega arith),
        take-append line (crlf []) (n - 2) (omega arith),
      )
      (ground arith)

check_line-crlf : (line : Bytes) → check_line (line ++ crlf []) ≡ ok line
check_line-crlf line =
    check_line-crlf_sized line (length (line ++ crlf [])) refl (length-append line (crlf []))

-- A line of at most 253 bytes before its ending is read whole, and no byte behind it is.
pub read_line-crlf :
    (line rest : Bytes) (e : Ending)
    → IsLine line
    → length line ≤ 253
    → read_line (file (line ++ crlf rest) e) ≡ ok (line, file rest e)
unfolding read_line
read_line-crlf line rest e p h =
    rw (fgets-crlf 255 line rest p (omega arith), c_string-crlf line p, check_line-crlf line) refl
