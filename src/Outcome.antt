-- ===== src/Outcome.antt =====
-- Exceptions and outcomes: what a call of the program ends in, and the monad of fallible code over
-- a state. The classes are those of src/json/json.h, src/http/types.h and src/utils/logging.h.
use gabby.Base.{ℕ, ◌≡◌, refl, Bytes}

-- json/json.h, `enum class Type`
pub data JsonType : Type 0 where
  num bool str array obj nil : JsonType

-- One constructor for each exception class. `std_error` is any other `std::exception`.
pub data Exception : Type 0 where
  type_error : (want got : JsonType) → Exception
  parsing_error : Bytes → Exception
  key_not_found : Bytes → Exception
  internal_error : Bytes → Exception
  bad_request : Bytes → Exception
  timeout : Exception
  not_found : Exception
  system_error : ℕ → Exception
  std_error : Bytes → Exception

-- `aborts`: a failed `assert` or `std::terminate`. `out_of_fuel` has no counterpart in the program.
pub data Outcome {ℓ} (A : Type ℓ) : Type ℓ where
  ok : A → Outcome A
  throws : Exception → Outcome A
  aborts : Outcome A
  out_of_fuel : Outcome A

abbrev pub bind {ℓ κ} : {A : Type ℓ} {B : Type κ} → Outcome A → (A → Outcome B) → Outcome B
bind (ok a) f = f a
bind (throws e) f = throws e
bind aborts f = aborts
bind out_of_fuel f = out_of_fuel

-- Code that reads and writes a state of type `S`.
abbrev pub Run : Type 0 → Type 0 → Type 0
Run S A = S → Outcome (A × S)

module _ {S : Type 0} where
  abbrev pub pure : {A : Type 0} → A → Run S A
  pure a s = ok (a, s)

  abbrev pub throw : {A : Type 0} → Exception → Run S A
  throw e s = throws e

  infixl 5 ◌>>=◌ ◌>>◌
  abbrev pub ◌>>=◌ : {A B : Type 0} → Run S A → (A → Run S B) → Run S B
  m >>= f = λ s. bind (m s) (λ (a, t). f a t)

  abbrev pub ◌>>◌ : {A B : Type 0} → Run S A → Run S B → Run S B
  m >> k = m >>= λ _. k

pub bind-eq-ok {ℓ κ} :
    {A : Type ℓ} {B : Type κ} (m : Outcome A) (f : A → Outcome B) {b : B}
    → bind m f ≡ ok b
    → (a : A) × (m ≡ ok a) × (f a ≡ ok b)
bind-eq-ok (ok a) f h = (a, refl, h)
bind-eq-ok (throws e) f h = cc
bind-eq-ok aborts f h = cc
bind-eq-ok out_of_fuel f h = cc

-- The run ends in a value with `P` or in an exception: it neither aborts nor runs out of fuel.
pub data Ensures {ℓ κ} {A : Type ℓ} (P : A → Type κ) : Outcome A → Type (ℓ ⊔ κ) where
  holds : {a : A} → P a → Ensures P (ok a)
  raised : {e : Exception} → Ensures P (throws e)

module _ {ℓ κ} {A : Type ℓ} {P : A → Type κ} where
  pub Ensures-bind {ℓ' κ'} :
      {B : Type ℓ'} {Q : B → Type κ'} {m : Outcome A} {f : A → Outcome B}
      → Ensures P m
      → ((a : A) → P a → Ensures Q (f a))
      → Ensures Q (bind m f)
  Ensures-bind (holds {a} h) k = k a h
  Ensures-bind raised k = raised

  pub Ensures-weaken {κ'} :
      {Q : A → Type κ'} {m : Outcome A} → ((a : A) → P a → Q a) → Ensures P m → Ensures Q m
  Ensures-weaken k (holds {a} h) = holds (k a h)
  Ensures-weaken k raised = raised

-- To step over a call whose outcome is known.
pub step {ℓ κ} :
    {A : Type ℓ} {B : Type κ} {m : Outcome A} (f : A → Outcome B) {a : A} {r : Outcome B}
    → m ≡ ok a
    → f a ≡ r
    → bind m f ≡ r
step f e h = rw e h
