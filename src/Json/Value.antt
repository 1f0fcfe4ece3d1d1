-- ===== src/Json/Value.antt =====
-- src/json/json.h and json.cc: JSON values, their equality, printing and downcasts. A double is its
-- 64-bit pattern. A map is the list of its fields in the order in which it iterates.
use gabby.Base.{
  ℕ, zero, suc, ◌*◌, ◌%◌, ◌^◌, Bool, true, false, not, ◌&&◌, ◌||◌, Option, none, some, [], ◌∷◌,
  ◌++◌, Bytes, codes, bytes_eq, decimal, ◌==◌, leb, ltb, if◌then◌else◌,
}
use gabby.Outcome.{
  JsonType, num, bool, str, array, obj, nil, Outcome, ok, throws, aborts, type_error, key_not_found,
  std_error,
}

-- The classes below `Value`. `Items` is the `std::vector<ValuePtr>` of an array, `Fields` the
-- `std::unordered_map<std::string, ValuePtr>` of an object.
mutual
  pub data Value : Type 0 where
    nil_value : Value
    boolean : Bool → Value
    number : ℕ → Value
    string : Bytes → Value
    array_value : Items → Value
    object : Fields → Value

  pub data Items : Type 0 where
    no_items : Items
    item : Value → Items → Items

  pub data Fields : Type 0 where
    no_fields : Fields
    field : Bytes → Value → Fields → Fields

-- `Value::type`
unfoldable pub type_of : Value → JsonType
type_of nil_value = nil
type_of (boolean b) = bool
type_of (number d) = num
type_of (string s) = str
type_of (array_value xs) = array
type_of (object fs) = obj

-- `operator<<(std::ostream&, Type)`
unfoldable pub type_name : JsonType → Bytes
type_name num = codes "NUM"
type_name bool = codes "BOOL"
type_name str = codes "BOOL"
type_name array = codes "ARRAY"
type_name obj = codes "OBJ"
type_name nil = codes "NIL"

-- `==` of two doubles, on their bit patterns: no NaN equals anything, and the zeros are equal.
abbrev pub magnitude : ℕ → ℕ
magnitude d = d % 2 ^ 63

abbrev pub is_nan : ℕ → Bool
is_nan d = ltb (2047 * 2 ^ 52) (magnitude d)

unfoldable pub double_eq : ℕ → ℕ → Bool
double_eq a b =
    not (is_nan a) && not (is_nan b) && (a == b || (magnitude a == 0 && magnitude b == 0))

unfoldable pub bool_eq : Bool → Bool → Bool
bool_eq true b = b
bool_eq false b = not b

unfoldable pub items_size : Items → ℕ
items_size no_items = 0
items_size (item v xs) = suc (items_size xs)

unfoldable pub fields_size : Fields → ℕ
fields_size no_fields = 0
fields_size (field k v fs) = suc (fields_size fs)

-- `std::unordered_map::find`
unfoldable pub find : Fields → Bytes → Option Value
find no_fields k = none
find (field j v fs) k = if bytes_eq j k then some v else find fs k

-- The loop over the fields of an object, with the test for one field.
unfoldable pub all_fields : Fields → (Bytes → Value → Bool) → Bool
all_fields no_fields test = true
all_fields (field k v fs) test = test k v && all_fields fs test

abbrev pub found_and : Option Value → (Value → Bool) → Bool
found_and none test = false
found_and (some w) test = test w

-- `equals l r` is `l == r`, and `equals_swapped l r` is `r == l`. The source dispatches on the left
-- operand by a call of `eq` on the right one, so that operands change sides at each level.
unfoldable mutual
  unfolding items_size fields_size all_fields bool_eq double_eq find

  pub equals : Value → Value → Bool
  equals nil_value nil_value = true
  equals (boolean a) (boolean b) = bool_eq b a
  equals (number a) (number b) = double_eq b a
  equals (string a) (string b) = bytes_eq b a
  equals (array_value xs) (array_value ys) =
      items_size ys == items_size xs && items_equal_swapped xs ys
  equals (object fs) (object gs) =
      fields_size gs == fields_size fs && all_fields gs (λ k v. found_equals fs k v)
  equals _ _ = false

  pub equals_swapped : Value → Value → Bool
  equals_swapped nil_value nil_value = true
  equals_swapped (boolean a) (boolean b) = bool_eq a b
  equals_swapped (number a) (number b) = double_eq a b
  equals_swapped (string a) (string b) = bytes_eq a b
  equals_swapped (array_value xs) (array_value ys) =
      items_size xs == items_size ys && items_equal xs ys
  equals_swapped (object fs) (object gs) = fields_size fs == fields_size gs && fields_found fs gs
  equals_swapped _ _ = false

  -- the loop over an array, with the elements of `xs` left of `==`
  pub items_equal : Items → Items → Bool
  items_equal (item x xs) (item y ys) = equals x y && items_equal xs ys
  items_equal _ _ = true

  pub items_equal_swapped : Items → Items → Bool
  items_equal_swapped (item x xs) (item y ys) = equals_swapped x y && items_equal_swapped xs ys
  items_equal_swapped _ _ = true

  -- one round of the loop over an object: `fs` is searched for `k`, and what is found compared to `v`
  pub found_equals : Fields → Bytes → Value → Bool
  found_equals no_fields k v = false
  found_equals (field j w fs) k v = if bytes_eq j k then equals w v else found_equals fs k v

  -- the loop over an object `fs`, searching `gs`
  pub fields_found : Fields → Fields → Bool
  fields_found no_fields gs = true
  fields_found (field k v fs) gs =
      found_and (find gs k) (λ w. equals_swapped v w) && fields_found fs gs

-- `print`. `show_double` is `operator<<(std::ostream&, double)`; the flag is `first`.
module _ (show_double : ℕ → Bytes) where
  unfoldable mutual
    pub print : Value → Bytes
    print nil_value = codes "null"
    print (boolean b) = if b then codes "true" else codes "false"
    print (number d) = show_double d
    print (string s) = b'"' ∷ (s ++ b'"' ∷ [])
    print (array_value xs) = b'[' ∷ (print_items xs true ++ b']' ∷ [])
    print (object fs) = b'{' ∷ (print_fields fs true ++ b'}' ∷ [])

    pub print_items : Items → Bool → Bytes
    print_items no_items first = []
    print_items (item v xs) first =
        (if first then [] else codes ", ") ++ (print v ++ print_items xs false)

    pub print_fields : Fields → Bool → Bytes
    print_fields no_fields first = []
    print_fields (field k v fs) first =
        (if first then [] else codes ", ")
        ++ (b'"' ∷ (k ++ (b'"' ∷ b':' ∷ b' ' ∷ (print v ++ print_fields fs false))))

-- The downcasts: each subclass overrides its own, and `Value` throws.
unfoldable pub as_number : Value → Outcome ℕ
unfolding type_of
as_number (number d) = ok d
as_number v = throws (type_error num (type_of v))

unfoldable pub as_boolean : Value → Outcome Bool
unfolding type_of
as_boolean (boolean b) = ok b
as_boolean v = throws (type_error bool (type_of v))

unfoldable pub as_string : Value → Outcome Bytes
unfolding type_of
as_string (string s) = ok s
as_string v = throws (type_error str (type_of v))

unfoldable pub as_array : Value → Outcome Items
unfolding type_of
as_array (array_value xs) = ok xs
as_array v = throws (type_error array (type_of v))

unfoldable pub as_object : Value → Outcome Fields
unfolding type_of
as_object (object fs) = ok fs
as_object v = throws (type_error obj (type_of v))

unfoldable pub as_nil : Value → Outcome (Unit {0})
unfolding type_of
as_nil nil_value = ok tt
as_nil v = throws (type_error nil (type_of v))

-- `ObjectValue::at`
unfoldable pub at : Fields → Bytes → Outcome Value
unfolding find
at fs key = elim (find fs key) [ none ↦ throws (key_not_found key) | some v ↦ ok v ]

-- `ArrayValue::push_back`
unfoldable pub push_back : Items → Value → Items
push_back no_items v = item v no_items
push_back (item w xs) v = item w (push_back xs v)

unfoldable pub nth : Items → ℕ → Option Value
nth no_items i = none
nth (item v xs) zero = some v
nth (item v xs) (suc i) = nth xs i

-- `ArrayValue::operator[]`
unfoldable pub element : Items → ℕ → Outcome Value
unfolding nth items_size
element xs i =
    if leb (items_size xs) i
    then throws (std_error (codes "out of range: " ++ decimal i))
    else elim (nth xs i) [ none ↦ aborts | some v ↦ ok v ]
