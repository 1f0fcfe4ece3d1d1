-- ===== src/Json/Total/Stream.antt =====
-- `Parse(FILE*, int)` and `Parse(const std::string&)`, from the refinement and the bounds on fuel.
use gabby.Base.{
  ℕ, zero, suc, ◌+◌, ◌-◌, ◌*◌, ◌≤◌, true, Option, none, [], ◌∷◌, ◌++◌, Bytes, codes, length, take,
  drop, leb, if◌then◌else◌, ◌≡◌, refl, sym, ap, arith, inl, inr, Bool-cases, length-append,
  append-nil, ◌∙◌, ◌<◌, ◌^◌,
}
use gabby.Outcome.{Outcome, ok, throws, bind, Ensures, holds, raised, parsing_error}
use gabby.Json.Value.{Value}
use gabby.Json.Source.{
  Ending, eof, File, Size, plus, minus, Scanner, View, view, view_source, to_int,
}
use gabby.Json.Parse.{parse_all, parse_stream, parse_string, scan_fuel, parse_fuel}
use gabby.Json.Refine.Simulation.{Alike, both, both_throw, both_spent}
use gabby.Json.Refine.Parse.{parse_all-Simulates}
use gabby.Json.Refine.Stream.{Shows, fresh, Behind, cut, short, scanner-Refines}
use gabby.Json.Total.Parse.{parse_all-Ensures}

-- The first `n` bytes of a stream, or all of them if there are fewer.
abbrev pub below : ℕ → File → View
below n file =
    view (take n file.bytes) (n - length file.bytes)
      (if leb n (length file.bytes) then eof else file.ending)

take-drop : (n : ℕ) (bs : Bytes) → bs ≡ take n bs ++ drop n bs
take-drop zero bs = refl
take-drop (suc n) [] = refl
take-drop (suc n) (c ∷ cs) = ap (◌∷◌ c) (take-drop n cs)

length-take_missing : (n : ℕ) (bs : Bytes) → n ≡ 0 + length (take n bs) + (n - length bs)
length-take_missing zero bs = omega arith
length-take_missing (suc n) [] = omega arith
length-take_missing (suc n) (c ∷ cs) = omega (arith, length-take_missing n cs)

drop-nil : (n : ℕ) (bs : Bytes) → length bs ≤ n → drop n bs ≡ []
drop-nil zero [] h = refl
drop-nil zero (c ∷ cs) h = absurd (omega arith)
drop-nil (suc n) [] h = refl
drop-nil (suc n) (c ∷ cs) h = drop-nil n cs (omega arith)

below-Behind :
    (n : ℕ) (file : File)
    → Behind (n - length file.bytes) (drop n file.bytes) file.ending (below n file).last
below-Behind n file = elim (Bool-cases (leb n (length file.bytes))) [
  | inl e ↦ rw e (cut (ground arith) refl)
  | inr e ↦ rw e (short (ground arith) (drop-nil n file.bytes (ground arith)) refl)
]

-- A scanner at the start of a stream shows the bytes below the size.
start-Shows :
    (n : ℕ) (file : File)
    → Shows (record { file = file; size = plus n; pos = 0; lookahead = none }) (below n file)
start-Shows n file =
    fresh (take-drop n file.bytes) (length-take_missing n file.bytes) (below-Behind n file)

-- The abstract parser: it runs on the first `n` bytes of the stream, with the fuel of `parse_stream`.
abbrev pub parse_below : (Bytes → Option ℕ) → File → ℕ → Outcome (Value × View)
parse_below stod file n =
    parse_all view_source stod (scan_fuel (plus n)) (parse_fuel (plus n)) (below n file)

-- `Parse(FILE*, int)` ends as the parser over the list of the bytes below the size does: with the
-- same value or the same exception, in a scanner that shows the bytes that the list parser left.
pub parse_stream-parse_below :
    (stod : Bytes → Option ℕ) (file : File) (n : ℕ)
    → Alike Shows (parse_stream stod file (plus n)) (parse_below stod file n)
unfolding parse_stream
parse_stream-parse_below stod file n =
    parse_all-Simulates Shows scanner-Refines stod (scan_fuel (plus n)) (parse_fuel (plus n))
      (record { file = file; size = plus n; pos = 0; lookahead = none }) (below n file)
      (start-Shows n file)

length-take-le : (n : ℕ) (bs : Bytes) → length (take n bs) ≤ n
length-take-le zero bs = omega arith
length-take-le (suc n) [] = omega arith
length-take-le (suc n) (c ∷ cs) = omega (arith, length-take-le n cs)

parse_below-Ensures :
    (stod : Bytes → Option ℕ) (file : File) (n : ℕ)
    → Ensures (λ _. Unit {0}) (parse_below stod file n)
parse_below-Ensures stod file n =
    parse_all-Ensures stod (n + 1) (2 * n + 1) (below n file)
      (omega (arith, length-take-le n file.bytes)) (omega (arith, length-take-le n file.bytes))

Alike-Ensures :
    {x : Outcome (Value × Scanner)} {y : Outcome (Value × View)}
    → Alike Shows x y
    → Ensures (λ _. Unit {0}) y
    → Ensures (λ _. Unit {0}) x
Alike-Ensures (both r) h = holds tt
Alike-Ensures both_throw h = raised
Alike-Ensures both_spent h = elim h [ ]

parse_stream-minus :
    (stod : Bytes → Option ℕ) (file : File) (n : ℕ)
    → parse_stream stod file (minus n) ≡ throws (parsing_error (codes "unexpected eof"))
unfolding parse_stream
parse_stream-minus stod file n = refl

-- `Parse(FILE*, int)` ends in a value or an exception for every stream and every size, a negative one
-- included: no loop goes on for ever, and the assertion of `UngetChar` never fails.
pub parse_stream-Ensures :
    (stod : Bytes → Option ℕ) (file : File) (size : Size)
    → Ensures (λ _. Unit {0}) (parse_stream stod file size)
parse_stream-Ensures stod file (plus n) =
    Alike-Ensures (parse_stream-parse_below stod file n) (parse_below-Ensures stod file n)
parse_stream-Ensures stod file (minus n) = rw (parse_stream-minus stod file n) raised

abbrev pub value_only : {S : Type 0} → Outcome (Value × S) → Outcome Value
value_only x = bind x λ (v, _). ok v

Alike-value_only :
    {x : Outcome (Value × Scanner)} {y : Outcome (Value × View)}
    → Alike Shows x y
    → value_only x ≡ value_only y
Alike-value_only (both r) = refl
Alike-value_only both_throw = refl
Alike-value_only both_spent = refl

take-append : (s beyond : Bytes) → take (length s) (s ++ beyond) ≡ s
take-append [] beyond = refl
take-append (c ∷ cs) beyond = ap (◌∷◌ c) (take-append cs beyond)

le-leb : (a b : ℕ) → leb a (a + b) ≡ true
le-leb a b = ground arith

below-append :
    (s beyond : Bytes) (e : Ending)
    → below (length s) (record { bytes = s ++ beyond; ending = e }) ≡ view s 0 eof
below-append s beyond e =
    rw (take-append s beyond, length-append s beyond)
      (ground (arith, le-leb (length s) (length beyond)))

-- The parser over the bytes of a text.
abbrev pub parse_view : (Bytes → Option ℕ) → Bytes → Outcome (Value × View)
parse_view stod s =
    parse_all view_source stod (scan_fuel (plus (length s))) (parse_fuel (plus (length s)))
      (view s 0 eof)

parse_stream-parse_view :
    (stod : Bytes → Option ℕ) (s beyond : Bytes) (e : Ending)
    → value_only (parse_stream stod (record { bytes = s ++ beyond; ending = e }) (plus (length s)))
      ≡ value_only (parse_view stod s)
parse_stream-parse_view stod s beyond e =
    Alike-value_only (parse_stream-parse_below stod _ (length s))
    ∙ ap (λ v. value_only (parse_all view_source stod (length s + 1) (2 * length s + 1) v))
        (below-append s beyond e)

pub to_int-small : (n : ℕ) → n < 2 ^ 31 → to_int n ≡ plus n
unfolding to_int
to_int-small n h = ground arith

pub parse_string-parse_view :
    (stod : Bytes → Option ℕ) (s : Bytes)
    → length s < 2 ^ 31
    → parse_string stod s ≡ value_only (parse_view stod s)
unfolding parse_string
parse_string-parse_view stod s h =
    ap (λ n. value_only (parse_stream stod (record { bytes = s; ending = eof }) n))
      (to_int-small (length s) h)
    ∙ rw append-nil at (parse_stream-parse_view stod s [] eof)

-- `Parse(FILE*, int)` reads no further than its size: with the length of `s` for the size, which an `int`
-- holds, it ends on a stream that starts with `s` as `Parse(const std::string&)` does on `s`, whatever
-- stands behind.
pub parse_stream-parse_string :
    (stod : Bytes → Option ℕ) (s beyond : Bytes) (e : Ending)
    → length s < 2 ^ 31
    → value_only (parse_stream stod (record { bytes = s ++ beyond; ending = e }) (plus (length s)))
      ≡ parse_string stod s
parse_stream-parse_string stod s beyond e h =
    parse_stream-parse_view stod s beyond e ∙ sym (parse_string-parse_view stod s h)
