-- ===== src/Json/Refine/Simulation.antt =====
-- Simulation: two runs, from related states, that end alike and in related states.
use gabby.Base.{ℕ, Option, none, some, ◌≡◌}
use gabby.Outcome.{Exception, Outcome, ok, throws, out_of_fuel, Run, pure, throw, bind, ◌>>=◌}
use gabby.Json.Source.{Source}

module _ {S T : Type 0} (R : S → T → Type 0) where
  -- Neither run aborts.
  pub data Alike {A : Type 0} : Outcome (A × S) → Outcome (A × T) → Type 0 where
    both : {a : A} {s : S} {t : T} → R s t → Alike (ok (a, s)) (ok (a, t))
    both_throw : {e : Exception} → Alike (throws e) (throws e)
    both_spent : Alike out_of_fuel out_of_fuel

  abbrev pub Simulates : {A : Type 0} → Run S A → Run T A → Type 0
  Simulates m n = (s : S) (t : T) → R s t → Alike (m s) (n t)

  pub Alike-bind :
      {A B : Type 0} {x : Outcome (A × S)} {y : Outcome (A × T)} {k : A → Run S B} {l : A → Run T B}
      → Alike x y
      → ((a : A) → Simulates (k a) (l a))
      → Alike (bind x (λ (a, s). k a s)) (bind y (λ (a, t). l a t))
  Alike-bind (both {a} {s} {t} r) h = h a s t r
  Alike-bind both_throw h = both_throw
  Alike-bind both_spent h = both_spent

  pub Simulates-bind :
      {A B : Type 0} {m : Run S A} {n : Run T A} {k : A → Run S B} {l : A → Run T B}
      → Simulates m n
      → ((a : A) → Simulates (k a) (l a))
      → Simulates (m >>= k) (n >>= l)
  Simulates-bind h g s t r = Alike-bind (h s t r) g

  pub Simulates-pure : {A : Type 0} (a : A) → Simulates (pure a) (pure a)
  Simulates-pure a s t r = both r

  pub Simulates-throw : {A : Type 0} (e : Exception) → Simulates {A = A} (throw e) (throw e)
  Simulates-throw e s t r = both_throw

  pub Simulates-spent : {A : Type 0} → Simulates {A = A} (λ _. out_of_fuel) (λ _. out_of_fuel)
  Simulates-spent s t r = both_spent

  -- What `get_char` gives from related states: EOF on both sides for the same reason, or the same
  -- byte, which both sides can take back.
  pub data GetsAlike (src : Source S) (dst : Source T) : Option ℕ × S → Option ℕ × T → Type 0 where
    ends :
        {s : S} {t : T}
        → R s t
        → src.ending s ≡ dst.ending t
        → GetsAlike src dst (none, s) (none, t)
    gets :
        {c : ℕ} {s : S} {t : T}
        → R s t
        → Alike (src.unget_char c s) (dst.unget_char c t)
        → GetsAlike src dst (some c, s) (some c, t)

  -- The interface of a refinement between two sources.
  pub record Refines (src : Source S) (dst : Source T) : Type 0 where
    pub get_alike : (s : S) (t : T) → R s t → GetsAlike src dst (src.get_char s) (dst.get_char t)
    pub size_alike : (s : S) (t : T) → R s t → src.at_size s ≡ dst.at_size t
