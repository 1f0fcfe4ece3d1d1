-- ===== src/Testing/Verdict.antt =====
-- src/test/test_main.cc, the exit status of the test program.
use gabby.Base.{
  ℕ, suc, ◌==◌, Bool, true, false, ◌&&◌, some, List, [], ◌∷◌, all, All, if◌then◌else◌, ◌≡◌, refl,
  ap, ◌∙◌, arith,
}
use gabby.Base.{◌++◌, append-nil, append_assoc, sym, none}
use gabby.Testing.{
  register, register_all, Step, checks, throws_exception, throws_other, crashes, TestCase, run_body,
  settled, run_safe, success, run_all, main,
}

-- The step is a macro whose condition holds.
abbrev pub holds : Step → Bool
holds (checks b note) = b
holds _ = false

abbrev pub Completes : Step → Type 0
Completes crashes = ⊥
Completes _ = Unit

-- A test that has not run yet, and does not abort the process.
pub record IsFresh (t : TestCase) : Type 0 where
  pub no_failures : t.failures ≡ 0
  pub completes : All Completes t.body

-- The verdict on a body that starts with `n` failures.
abbrev pub verdict : List Step → ℕ → Bool
verdict body n = (n == 0) && all holds body

pub no_verdict : (n : ℕ) (b : Bool) → ((suc n == 0) && b) ≡ ((n == 0) && false)
no_verdict n b = ground arith

pub late_verdict : (n : ℕ) → (suc n == 0) ≡ ((n == 0) && false)
late_verdict n = ground arith

pub empty_verdict : (n : ℕ) → (n == 0) ≡ ((n == 0) && true)
empty_verdict n = ground arith

run_body-verdict :
    (t : TestCase) (body : List Step) (n : ℕ)
    → All Completes body
    → (u : TestCase) × ((settled t (run_body body n) ≡ some u) × (success u ≡ verdict body n))
unfolding run_body success
run_body-verdict t [] n p = (_, (refl, empty_verdict n))
run_body-verdict t (checks true note ∷ body) n p = run_body-verdict t body n p.1
run_body-verdict t (checks false note ∷ body) n p =
    let (u, (e, h)) = run_body-verdict t body (suc n) p.1 in
    (u, (e, h ∙ no_verdict n (all holds body)))
run_body-verdict t (throws_exception what ∷ body) n p = (_, (refl, late_verdict n))
run_body-verdict t (throws_other ∷ body) n p = (_, (refl, late_verdict n))
run_body-verdict t (crashes ∷ body) n p = absurd p.0

-- every macro of the test holds, and it throws nothing
abbrev pub passes : TestCase → Bool
passes t = all holds t.body

pub run_safe-passes :
    (t : TestCase) → IsFresh t → (u : TestCase) × ((run_safe t ≡ some u) × (success u ≡ passes t))
unfolding run_safe
run_safe-passes t f =
    let (u, (e, h)) = run_body-verdict t t.body t.failures f.completes in
    (u, (e, h ∙ ap (λ n. (n == 0) && passes t) f.no_failures))

tally : (n : ℕ) (b c : Bool) → (((if b then n else suc n) == 0) && c) ≡ ((n == 0) && (b && c))
tally n true c = refl
tally n false c = ground arith

run_all-passes :
    (tests : List TestCase) (n : ℕ)
    → All IsFresh tests
    → (m : ℕ) × ((run_all tests n ≡ some m) × ((m == 0) ≡ ((n == 0) && all passes tests)))
unfolding run_all
run_all-passes [] n p = (n, (refl, empty_verdict n))
run_all-passes (t ∷ ts) n p =
    let (u, (e, h)) = run_safe-passes t p.0 in
    let (m, (r, k)) = run_all-passes ts (if success u then n else suc n) p.1 in
    (
      m,
      (
        rw e r,
        k ∙ (tally n (success u) (all passes ts) ∙ ap (λ b. (n == 0) && (b && all passes ts)) h),
      ),
    )

register_all-some : (first ts : List TestCase) → register_all (some first) ts ≡ some (first ++ ts)
unfolding register
register_all-some first [] = ap some (sym (append-nil first))
register_all-some first (t ∷ ts) =
    register_all-some (first ++ t ∷ []) ts ∙ ap some (append_assoc first (t ∷ []) ts)

register_all-none : (t : TestCase) (ts : List TestCase) → register_all none (t ∷ ts) ≡ some (t ∷ ts)
unfolding register
register_all-none t ts = register_all-some (t ∷ []) ts

main-some :
    (tests : List TestCase)
    → All IsFresh tests
    → main (some tests) ≡ some (if all passes tests then 0 else 1)
unfolding main
main-some tests p =
    let (m, (r, k)) = run_all-passes tests 0 p in rw r (ap (λ b. some (if b then 0 else 1)) k)

-- The test program of one test or more, where no test aborts the process, ends with the status 0 if in
-- every test all the macros hold and nothing is thrown, and else with the status 1: a failure in one test
-- neither hides those behind it nor is hidden by them.
pub main-passes :
    (t : TestCase) (ts : List TestCase)
    → All IsFresh (t ∷ ts)
    → main (register_all none (t ∷ ts)) ≡ some (if all passes (t ∷ ts) then 0 else 1)
main-passes t ts p = ap main (register_all-none t ts) ∙ main-some (t ∷ ts) p
