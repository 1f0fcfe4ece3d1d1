-- ===== src/Http/Refusals.antt =====
-- src/http/server.cc, `ParseRequest` on any stream: how it can end.
use gabby.Base.{
  ℕ, zero, suc, ◌+◌, ◌-◌, ◌≤◌, ◌<◌, Bool, true, false, not, ◌&&◌, Option, none, some, inl, inr, ◌⊎◌,
  Bool-cases, List, [], ◌∷◌, Bytes, codes, ◌==◌, leb, length, take, drop, opt_eq, is_empty,
  bytes_eq, if◌then◌else◌, ◌≡◌, refl, arith,
}
use gabby.Outcome.{Exception, Outcome, ok, throws, aborts, bind, bad_request}
use gabby.Json.Source.{Ending, eof, again, failed, File}
use gabby.Http.Types.{bad_request_status, request_timeout}
use gabby.Http.Lines.{fgets, c_string, byte_at, check_line, read_line, ending_error, checked}
use gabby.Http.Request.{
  found, find_byte, find_pair, parse_method, parse_path, parse_header, read_headers, insert,
  header_fuel, parse_request,
}
use gabby.Http.Server.{caught}

-- The client is answered with 400 or 408.
abbrev pub IsRefusal : Exception → Type 0
IsRefusal e = (caught e ≡ bad_request_status) ⊎ (caught e ≡ request_timeout)

-- The code ends in a value with `P`, in a refusal, or in a failed assertion.
pub data Settles {A : Type 0} (P : A → Type 0) : Outcome A → Type 0 where
  accepted : {a : A} → P a → Settles P (ok a)
  refused : {e : Exception} → IsRefusal e → Settles P (throws e)
  asserted : Settles P aborts

Settles-bind :
    {A B : Type 0} {P : A → Type 0} {Q : B → Type 0} {m : Outcome A} {f : A → Outcome B}
    → Settles P m
    → ((a : A) → P a → Settles Q (f a))
    → Settles Q (bind m f)
Settles-bind (accepted {a} p) k = k a p
Settles-bind (refused r) k = refused r
Settles-bind asserted k = asserted

Settles-if :
    {A : Type 0} {P : A → Type 0} (b : Bool) {x y : Outcome A}
    → (b ≡ true → Settles P x)
    → (b ≡ false → Settles P y)
    → Settles P (if b then x else y)
Settles-if true h k = h refl
Settles-if false h k = k refl

bad : {A : Type 0} {P : A → Type 0} (what : Bytes) → Settles P (throws (bad_request what))
unfolding caught
bad what = refused (inl refl)

abbrev pub Anything : {A : Type 0} → A → Type 0
Anything a = Unit

found-Settles :
    {A : Type 0} (what : Bytes) (o : Option ℕ) {k : ℕ → Outcome A}
    → ((i : ℕ) → Settles Anything (k i))
    → Settles Anything (found (bad_request what) o k)
found-Settles what none h = bad what
found-Settles what (some i) h = h i

length-fgets : (n : ℕ) (bs : Bytes) → length bs ≡ length (fgets n bs).buf + length (fgets n bs).rest
unfolding fgets
length-fgets zero bs = omega arith
length-fgets (suc n) [] = refl
length-fgets (suc n) (c ∷ cs) = elim (Bool-cases (c == b'\n')) [
  | inl e ↦ rw e (omega arith)
  | inr e ↦ rw e (omega (arith, length-fgets n cs))
]

pub length-c_string : (bs : Bytes) → length (c_string bs) ≤ length bs
unfolding c_string
length-c_string [] = omega arith
length-c_string (c ∷ cs) = elim (Bool-cases (c == 0)) [
  | inl e ↦ rw e (omega arith)
  | inr e ↦ rw e (omega (arith, length-c_string cs))
]

check_line-Settles : (text : Bytes) → Settles (λ _. 0 < length text) (check_line text)
unfolding check_line
check_line-Settles text =
    Settles-if (length text == 0) (λ _. asserted)
      λ some_text.
        Settles-if (not (opt_eq (byte_at text (length text - 1)) (some b'\n'))) (λ _. bad _)
          λ _.
            Settles-if (leb 2 (length text) && opt_eq (byte_at text (length text - 2)) (some b'\r'))
              (λ _. accepted (ground arith)) (λ _. bad _)

ending_error-IsRefusal : (e : Ending) → IsRefusal (ending_error e)
unfolding ending_error caught
ending_error-IsRefusal eof = inl refl
ending_error-IsRefusal again = inr refl
ending_error-IsRefusal (failed n) = inl refl

checked-Settles :
    {P : Bytes × File → Type 0} {x : Outcome Bytes} {Q : Bytes → Type 0} (file : File)
    → Settles Q x
    → ((line : Bytes) → Q line → P (line, file))
    → Settles P (checked file x)
checked-Settles file (accepted q) k = accepted (k _ q)
checked-Settles file (refused r) k = refused r
checked-Settles file asserted k = asserted

read_line-Settles :
    (file : File) → Settles (λ r. length r.1.bytes < length file.bytes) (read_line file)
unfolding read_line
read_line-Settles file =
    Settles-if (fgets 255 file.bytes).hit_end (λ _. refused (ending_error-IsRefusal file.ending))
      λ _. checked-Settles _ (check_line-Settles (c_string (fgets 255 file.bytes).buf)) λ line pos.
        omega (arith, pos, length-fgets 255 file.bytes, length-c_string (fgets 255 file.bytes).buf)

parse_header-Settles : (line : Bytes) → Settles Anything (parse_header line)
unfolding parse_header
parse_header-Settles line = found-Settles _ (find_pair b':' b' ' line) λ i. accepted tt

parse_path-Settles : (line : Bytes) → Settles Anything (parse_path line)
unfolding parse_path
parse_path-Settles line =
    found-Settles _ (find_byte b' ' line)
      λ from. found-Settles _ (find_byte b' ' (drop (from + 1) line)) λ to. accepted tt

parse_method-Settles : (line : Bytes) → Settles Anything (parse_method line)
unfolding parse_method
parse_method-Settles line = found-Settles _ (find_byte b' ' line) λ to.
    Settles-if (bytes_eq (take to line) (codes "GET")) (λ _. accepted tt)
      λ _. Settles-if (bytes_eq (take to line) (codes "POST")) (λ _. accepted tt) (λ _. bad _)

read_headers-Settles :
    (f : ℕ) (hs : List (Bytes × Bytes)) (file : File)
    → length file.bytes < f
    → Settles Anything (read_headers f hs file)
unfolding read_headers
read_headers-Settles zero hs file h = absurd (omega arith)
read_headers-Settles (suc f) hs file h = Settles-bind (read_line-Settles file) λ (line, rest) less.
    Settles-if (is_empty line) (λ _. accepted tt)
      λ _.
        Settles-bind (parse_header-Settles line)
          λ h' _. read_headers-Settles f (insert hs h') rest (omega arith)

-- `ParseRequest` ends on every stream: with a request, with an exception that is answered with status
-- 400 or 408, or in a failed assertion.
pub parse_request-Settles :
    (addr : Bytes) (file : File) → Settles Anything (parse_request addr file)
unfolding parse_request
parse_request-Settles addr file = Settles-bind (read_line-Settles file) λ (line, rest) less.
    Settles-if (is_empty line) (λ _. bad _)
      λ _. Settles-bind (parse_method-Settles line) λ m _.
        Settles-bind (parse_path-Settles line) λ p _.
          Settles-bind (read_headers-Settles (header_fuel rest) [] rest (omega arith))
            λ r _. accepted tt
