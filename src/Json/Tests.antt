-- ===== src/Json/Tests.antt =====
-- Runs of the scanner and the parser on concrete texts, and the theorems on src/json at concrete
-- values.
use gabby.Base.{
  ℕ, ◌≡◌, refl, true, false, Option, some, none, List, [], ◌∷◌, ◌++◌, Bytes, bytes_eq, codes,
  length, arith, ◌<◌, ◌^◌,
}
use gabby.Outcome.{ok, throws, parsing_error, Ensures}
use gabby.Json.Value.{
  Value, nil_value, number, boolean, string, array_value, object, no_items, item, no_fields, field,
  find, print,
}
use gabby.Json.Source.{File, again, plus, minus}
use gabby.Json.Parse.{parse_string, parse_stream, to_fields}
use gabby.Json.Equality.{IsComparable, equals_refl}
use gabby.Json.Value.{equals, equals_swapped}
use gabby.Json.Maps.{HasMaps}
use gabby.Json.Symmetry.{equals_comm}
use gabby.Json.Transitivity.{equals_trans}
use gabby.Json.Iterator.{advance_by}
use gabby.Json.Parsed.{parse_stream-HasMaps}
use gabby.Json.Source.{eof, Scanner}
use gabby.Json.Keys.{assigns, last_of, find-assigns}
use gabby.Json.Refine.Simulation.{Alike}
use gabby.Json.Refine.Stream.{Shows}
use gabby.Json.Total.Stream.{
  value_only, parse_below, parse_stream-parse_below, parse_stream-Ensures,
  parse_stream-parse_string,
}
use gabby.Json.RoundTrip.Printable.{Written, IsPrintable}
use gabby.Json.RoundTrip.Whole.{parse_string-print}

-- A stand-in for `std::stod`: the length of the text.
abbrev stod : Bytes → Option ℕ
stod s = some (length s)

nested :
    parse_string stod (codes " [1, {\"a\\\"\": true}] ")
    ≡ ok (
        array_value
          (item (number 1) (item (object (field (codes "a\"") (boolean true) no_fields)) no_items)))
unfolding parse_string
nested = refl

trailing :
    parse_string stod (codes "1 2") ≡ throws (parsing_error (codes "unexpected trailing data"))
unfolding parse_string
trailing = refl

-- The byte behind `e` is taken for a sign whatever it is, here the comma.
exponent_swallows : parse_string stod (codes "[1e,2]") ≡ ok (array_value (item (number 4) no_items))
unfolding parse_string
exponent_swallows = refl

-- Every double is written as `7`.
abbrev show_double : ℕ → Bytes
show_double d = codes "7"

seven : Written show_double stod 1
seven = record {
  numeral = record { negative = false; first = b'7'; whole = []; fraction = none; exponent = none };
  well_formed = record { digit = refl; whole_part = tt; fraction_part = tt; exponent_part = tt };
  shown = refl;
  reads_back = refl;
}

-- `[7, {"k": "v"}]`
abbrev sample : Value
sample =
    array_value
      (item (number 1) (item (object (field (codes "k") (string (codes "v")) no_fields)) no_items))

sample-IsPrintable : IsPrintable show_double stod sample
unfolding find
sample-IsPrintable = (seven, (((refl, tt), ((refl, tt), ((refl, tt), tt))), tt))

sample_short : length (print show_double sample) < 2 ^ 31
unfolding print
sample_short = omega arith

parse_string-print_example : parse_string stod (print show_double sample) ≡ ok sample
parse_string-print_example =
    parse_string-print show_double stod sample sample-IsPrintable sample_short

abbrev stalled : File
stalled = record { bytes = codes "[tru"; ending = again }

parse_stream-Ensures_example : Ensures (λ _. Unit {0}) (parse_stream stod stalled (minus 0))
parse_stream-Ensures_example = parse_stream-Ensures stod stalled (minus 0)

parse_stream-parse_below_example :
    Alike Shows (parse_stream stod stalled (plus 3)) (parse_below stod stalled 3)
parse_stream-parse_below_example = parse_stream-parse_below stod stalled 3

parse_stream-parse_string_example :
    value_only (
      parse_stream stod (record { bytes = codes "true" ++ codes "false"; ending = again }) (plus 4))
    ≡ parse_string stod (codes "true")
parse_stream-parse_string_example =
    parse_stream-parse_string stod (codes "true") (codes "false") again (omega arith)

-- `{"a": true, "a": "v"}`
abbrev twice : List (Bytes × Value)
twice = (codes "a", boolean true) ∷ (codes "a", string (codes "v")) ∷ []

last_one_counts :
    find (to_fields (assigns [] twice)) (codes "a")
    ≡ last_of (find (to_fields []) (codes "a")) twice (codes "a")
last_one_counts = find-assigns [] twice (codes "a")

sample-IsComparable : IsComparable sample
unfolding find
sample-IsComparable = (refl, (((refl, tt), (tt, tt)), tt))

sample_reflexive : (equals sample sample ≡ true) × (equals_swapped sample sample ≡ true)
sample_reflexive = equals_refl sample sample-IsComparable

-- Two objects with the same fields in another order.
abbrev one_way : Value
one_way = object (field (codes "a") (number 1) (field (codes "b") nil_value no_fields))

abbrev other_way : Value
other_way = object (field (codes "b") nil_value (field (codes "a") (number 1) no_fields))

orders_equal : equals one_way other_way ≡ true
unfolding equals bytes_eq
orders_equal = refl

one_way-HasMaps : HasMaps one_way
unfolding find bytes_eq
one_way-HasMaps = ((refl, (refl, tt)), (tt, (tt, tt)))

other_way-HasMaps : HasMaps other_way
unfolding find bytes_eq
other_way-HasMaps = ((refl, (refl, tt)), (tt, (tt, tt)))

equals_comm_example : equals one_way other_way ≡ equals other_way one_way
equals_comm_example = equals_comm one_way other_way one_way-HasMaps other_way-HasMaps

back_equal : equals other_way one_way ≡ true
unfolding equals bytes_eq
back_equal = refl

equals_trans_example : equals one_way one_way ≡ true
equals_trans_example = equals_trans one_way other_way one_way orders_equal back_equal

-- `it++` gives the iterator and leaves it where it is.
postfix_stays :
    advance_by 0 (record { index = 2; array = 7 })
    ≡ (record { index = 2; array = 7 }, record { index = 2; array = 7 })
unfolding advance_by
postfix_stays = refl

-- A NaN, with the highest bits of its fraction set.
nan_differs : equals (number 9221120237041090560) (number 9221120237041090560) ≡ false
unfolding equals
nan_differs = refl

-- An object with a key twice: the value behind counts.
abbrev key_twice : File
key_twice = record { bytes = codes "{\"a\": null, \"a\": true}"; ending = eof }

abbrev once : Value
once = object (field (codes "a") (boolean true) no_fields)

abbrev at_size : Scanner
at_size = record {
  file = record { bytes = []; ending = eof };
  size = plus 22;
  pos = 22;
  lookahead = none;
}

parsed_twice : parse_stream stod key_twice (plus 22) ≡ ok (once, at_size)
unfolding parse_stream
parsed_twice = refl

stalled_maps : HasMaps once
stalled_maps = parse_stream-HasMaps stod key_twice (plus 22) once at_size parsed_twice
