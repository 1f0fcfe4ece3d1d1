-- ===== src/Http/Digits.antt =====
-- The number in a header: `std::format("{}", n)` of the length of a body (src/http/test_client.cc).
use gabby.Base.{
  ℕ, zero, suc, ◌+◌, ◌*◌, ◌^◌, ◌/◌, ◌%◌, ◌≤◌, ◌<◌, true, inl, inr, Bool-cases, [], ◌∷◌, Bytes, ltb,
  isdigit, length, decimal, digits_onto, ◌≡◌, arith, All,
}
use gabby.Http.Framing.{IsLine}

abbrev IsDigits : Bytes → Type 0
IsDigits s = All (λ c. isdigit c ≡ true) s

digits_onto-IsDigits : (f n : ℕ) (acc : Bytes) → IsDigits acc → IsDigits (digits_onto f n acc)
digits_onto-IsDigits zero n acc p = p
digits_onto-IsDigits (suc f) n acc p = elim (Bool-cases (ltb n 10)) [
  | inl e ↦ rw e (digit n (ground arith), p)
  | inr e ↦
      rw e
        (digits_onto-IsDigits f (n / 10) ((b'0' + n % 10) ∷ acc) (digit (n % 10) (omega arith), p))
]
  where
    digit : (d : ℕ) → d < 10 → isdigit (b'0' + d) ≡ true
    digit d h = ground arith

abbrev power : ℕ → ℕ
power zero = 1
power (suc k) = 10 * power k

length-digits_onto :
    (k f n : ℕ) (acc : Bytes)
    → n < power (suc k)
    → length (digits_onto f n acc) ≤ suc k + length acc
length-digits_onto k zero n acc h = omega arith
length-digits_onto zero (suc f) n acc h =
    let e : ltb n 10 ≡ true = ground arith in rw e (omega arith)
length-digits_onto (suc k) (suc f) n acc h = elim (Bool-cases (ltb n 10)) [
  | inl e ↦ rw e (omega arith)
  | inr e ↦ rw e (
      let shorter = length-digits_onto k f (n / 10) ((b'0' + n % 10) ∷ acc) (omega arith) in
      omega arith)
]

IsDigits-IsLine : (s : Bytes) → IsDigits s → IsLine s
IsDigits-IsLine [] p = tt
IsDigits-IsLine (c ∷ s) p = ((ground arith, ground arith), IsDigits-IsLine s p.1)

-- A number is written with bytes that can stand in a line, and one that fits into an `int` with at most
-- ten of them.
pub decimal-IsLine : (n : ℕ) → IsLine (decimal n)
unfolding decimal
decimal-IsLine n = IsDigits-IsLine _ (digits_onto-IsDigits (suc n) n [] tt)

pub length-decimal : (n : ℕ) → n < 2 ^ 31 → length (decimal n) ≤ 10
unfolding decimal
length-decimal n h = length-digits_onto 9 (suc n) n [] (omega arith)
