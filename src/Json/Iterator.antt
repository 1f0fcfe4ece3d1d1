-- ===== src/Json/Iterator.antt =====
-- src/json/json.h, `class ArrayValue::iterator`, and `std::find_if` on two such iterators.
use gabby.Base.{
  ℕ, zero, suc, ◌+◌, ◌-◌, ◌^◌, ◌%◌, ◌<◌, Bool, true, false, ◌&&◌, Option, some, ◌==◌, ltb, leb,
  if◌then◌else◌, ◌≡◌, refl, ap, arith,
}
use gabby.Outcome.{Outcome, ok, out_of_fuel, bind}
use gabby.Json.Value.{Value, Items, no_items, item, items_size, nth, element}

-- The arrays of the program, by their addresses: two iterators are of one array where the addresses
-- are one, whatever the arrays hold.
abbrev pub Arrays : Type 0
Arrays = ℕ → Items

-- `int index_` is its 32-bit pattern, and `ArrayValue* array_` an address.
pub record Iterator : Type 0 where
  pub index : ℕ
  pub array : ℕ

-- `begin()` and `end()`; `end()` takes the size for an `int`.
unfoldable pub begin : ℕ → Iterator
begin a = record { index = 0; array = a }

unfoldable pub end : Arrays → ℕ → Iterator
unfolding items_size
end arrays a = record { index = items_size (arrays a) % 2 ^ 32; array = a }

-- an `int` as a `size_t`
abbrev pub widen : ℕ → ℕ
widen i = if ltb i (2 ^ 31) then i else i + (2 ^ 64 - 2 ^ 32)

-- `operator*`
unfoldable pub deref : Arrays → Iterator → Outcome Value
unfolding element
deref arrays it = element (arrays it.array) (widen it.index)

-- `++it`; C++ leaves open what it does at the largest `int`, and here it wraps around.
unfoldable pub advance : Iterator → Iterator
advance it = record it { index = (it.index + 1) % 2 ^ 32 }

-- `operator++(int by)`: the old iterator, and what `it` is afterwards. `it++` calls it with 0.
unfoldable pub advance_by : ℕ → Iterator → Iterator × Iterator
advance_by by it = (it, record it { index = (it.index + by) % 2 ^ 32 })

-- `==`
unfoldable pub same : Iterator → Iterator → Bool
same a b = (a.array == b.array) && (a.index == b.index)

-- `std::find_if`, with fuel for its rounds
unfoldable pub find_if :
    Arrays → (Value → Outcome Bool) → ℕ → Iterator → Iterator → Outcome Iterator
unfolding same deref advance
find_if arrays test zero it last = out_of_fuel
find_if arrays test (suc fuel) it last =
    let rest = find_if arrays test fuel (advance it) last in
    if same it last
    then ok it
    else bind (deref arrays it) λ v. bind (test v) λ b. if b then ok it else rest

abbrev pub skip : ℕ → Items → Items
skip zero xs = xs
skip (suc i) no_items = no_items
skip (suc i) (item v xs) = skip i xs

pub skip-nth :
    (i : ℕ) (xs : Items) {v : Value} {rest : Items}
    → skip i xs ≡ item v rest
    → (nth xs i ≡ some v) × ((skip (suc i) xs ≡ rest) × (i < items_size xs))
unfolding nth items_size
skip-nth zero no_items h = cc
skip-nth zero (item w xs) h = (ap first h, (ap behind h, omega arith))
  where
    first : Items → Option Value
    first no_items = some w
    first (item v ys) = some v

    behind : Items → Items
    behind no_items = xs
    behind (item v ys) = ys
skip-nth (suc i) no_items h = cc
skip-nth (suc i) (item w xs) h = let (n, (s, b)) = skip-nth i xs h in (n, (s, omega arith))

abbrev pub at_index : ℕ → ℕ → Iterator
at_index a i = record { index = i; array = a }

module _ (arrays : Arrays) (a : ℕ) (short : items_size (arrays a) < 2 ^ 31) where
  pub deref-at_index :
      (i : ℕ) {v : Value} {rest : Items}
      → skip i (arrays a) ≡ item v rest
      → deref arrays (at_index a i) ≡ ok v
  unfolding deref element
  deref-at_index i h =
      let (found, (_, below)) = skip-nth i (arrays a) h in
      rw (small i below, inside i below, found) refl
    where
      small : (i : ℕ) → i < items_size (arrays a) → ltb i (2 ^ 31) ≡ true
      small i below = ground arith

      inside : (i : ℕ) → i < items_size (arrays a) → leb (items_size (arrays a)) i ≡ false
      inside i below = ground arith

  pub same-end : (i : ℕ) → i ≡ items_size (arrays a) → same (at_index a i) (end arrays a) ≡ true
  unfolding same end
  same-end i e = ground arith

  pub before-end : (i : ℕ) → i < items_size (arrays a) → same (at_index a i) (end arrays a) ≡ false
  unfolding same end
  before-end i h = ground arith

  advance-at_index :
      (i : ℕ) → i < items_size (arrays a) → advance (at_index a i) ≡ at_index a (suc i)
  unfolding advance
  advance-at_index i h = ap (at_index a) (omega arith)

  -- The loop stops at the end.
  pub find_if-end :
      (test : Value → Outcome Bool) (fuel i : ℕ)
      → i ≡ items_size (arrays a)
      → find_if arrays test (suc fuel) (at_index a i) (end arrays a) ≡ ok (at_index a i)
  unfolding find_if
  find_if-end test fuel i e = rw (same-end i e) refl

  -- One round of the loop tests the element at hand and goes on to the next.
  pub find_if-next :
      (test : Value → Outcome Bool) (fuel i : ℕ) {v : Value} {rest : Items}
      → skip i (arrays a) ≡ item v rest
      → find_if arrays test (suc fuel) (at_index a i) (end arrays a)
        ≡ bind (test v) (λ b.
          if b
          then ok (at_index a i)
          else find_if arrays test fuel (at_index a (suc i)) (end arrays a))
  unfolding find_if
  find_if-next test fuel i h =
      let (_, (_, below)) = skip-nth i (arrays a) h in
      rw (before-end i below, deref-at_index i h, advance-at_index i below) refl
