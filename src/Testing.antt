-- ===== src/Testing.antt =====
-- src/test/test.h and src/test/test_main.cc: the test framework.
pub mod Verdict
pub mod Report
mod Tests
use gabby.Base.{
  ℕ, suc, ◌-◌, ◌^◌, Bool, true, false, not, Option, none, some, List, [], ◌∷◌, ◌++◌, Bytes, codes,
  ◌==◌, leb, ltb, if◌then◌else◌,
}
use gabby.Outcome.{Outcome, ok, bind, Run}
use gabby.Http.Client.{find_text}

-- What a macro has to say where it fails: its place in the source, and its message.
pub record Note : Type 0 where
  pub file : Bytes
  pub line : ℕ
  pub message : Bytes

-- What the body of a test does, as far as the framework sees it: a macro finds its condition to hold
-- or not, an exception is thrown, derived from `std::exception`, with its `what()`, or not, or the
-- process is aborted.
pub data Step : Type 0 where
  checks : Bool → Note → Step
  throws_exception : Bytes → Step
  throws_other crashes : Step

-- `class TestCase`, with the body that a `TEST` gives it
pub record TestCase : Type 0 where
  pub suite : Bytes
  pub testcase : Bytes
  pub body : List Step
  pub failures : ℕ

abbrev noted : Bytes → ℕ → Bytes → Note
noted file line message = record { file = file; line = line; message = message }

-- `EXPECT_TRUE` and `EXPECT_FALSE` at a place in the source, of the text and the value of the condition
unfoldable pub expect_true : Bytes → ℕ → Bytes → Bool → Step
expect_true file line text want = checks want (noted file line (codes "FAIL: " ++ text))

unfoldable pub expect_false : Bytes → ℕ → Bytes → Bool → Step
expect_false file line text want =
    checks (not want) (noted file line (codes "FAIL: !(" ++ (text ++ codes ")")))

-- the message of the macros that compare, from the texts of their arguments
abbrev unequal : Bytes → Bytes → Bytes
unequal want got = codes "FAIL: " ++ (want ++ (codes " != " ++ got))

-- `EXPECT_EQ`, of the texts of `got` and `want` and the value of `(got) != (want)`
unfoldable pub expect_eq : Bytes → ℕ → Bytes → Bytes → Bool → Step
expect_eq file line got want differs = checks (not differs) (noted file line (unequal want got))

-- `EXPECT_FLOAT_EQ`, of the texts and the value of `abs((want) - (got)) > eps`
unfoldable pub expect_float_eq : Bytes → ℕ → Bytes → Bytes → Bool → Step
expect_float_eq file line got want exceeds =
    checks (not exceeds) (noted file line (unequal want got))

-- `find` of a string as the `size_t` that it is
abbrev position : Option ℕ → ℕ
position none = 2 ^ 64 - 1
position (some i) = i

-- `EXPECT_SUBSTR`, which compares the position with 0
unfoldable pub expect_substr : Bytes → ℕ → Bytes → Bytes → Bytes → Step
unfolding find_text expect_true
expect_substr file line text haystack needle =
    expect_true file line text (leb 0 (position (find_text needle haystack)))

-- how the call of `Run` in `RunSafe` ends
pub data Ended : Type 0 where
  returned thrown aborted : Ended

-- `Run`: a macro that fails calls `fail`, and the test goes on.
unfoldable pub run_body : List Step → ℕ → Ended × ℕ
run_body [] failures = (returned, failures)
run_body (checks holds note ∷ more) failures =
    run_body more (if holds then failures else suc failures)
run_body (throws_exception what ∷ more) failures = (thrown, failures)
run_body (throws_other ∷ more) failures = (thrown, failures)
run_body (crashes ∷ more) failures = (aborted, failures)

-- both `catch` clauses call `fail`
abbrev pub settled : TestCase → Ended × ℕ → Option TestCase
settled t (returned, failures) = some (record t { failures = failures })
settled t (thrown, failures) = some (record t { failures = suc failures })
settled t (aborted, failures) = none

-- `RunSafe`; nothing is given where the process is aborted.
unfoldable pub run_safe : TestCase → Option TestCase
unfolding run_body
run_safe t = settled t (run_body t.body t.failures)

-- `success`
unfoldable pub success : TestCase → Bool
success t = t.failures == 0

abbrev pub counted : Option TestCase → ℕ → Option ℕ
counted none failures = none
counted (some t) failures = some (if success t then failures else suc failures)

abbrev pub then_all : Option ℕ → (ℕ → Option ℕ) → Option ℕ
then_all none k = none
then_all (some n) k = k n

-- the loop of `main` over the tests
unfoldable pub run_all : List TestCase → ℕ → Option ℕ
unfolding run_safe success
run_all [] failures = some failures
run_all (t ∷ ts) failures = then_all (counted (run_safe t) failures) (run_all ts)

abbrev pub status : Option ℕ → Option ℕ
status none = none
status (some failures) = some (if failures == 0 then 0 else 1)

-- `kTestCases`, a pointer to the tests that is null at first, and the constructor that `TEST` defines
unfoldable pub register : Option (List TestCase) → TestCase → Option (List TestCase)
register none t = some (t ∷ [])
register (some tests) t = some (tests ++ t ∷ [])

-- the constructors of all the tests, in the order in which they run
abbrev pub register_all : Option (List TestCase) → List TestCase → Option (List TestCase)
register_all registered [] = registered
register_all registered (t ∷ ts) = register_all (register registered t) ts

-- `main`: the exit status, 0 for EXIT_SUCCESS and 1 for EXIT_FAILURE; with no test `kTestCases` is null,
-- and nothing is given.
unfoldable pub main : Option (List TestCase) → Option ℕ
unfolding run_all
main none = none
main (some tests) = status (run_all tests 0)

-- `GlobalConfig`: `std::call_once` runs `LoadConfig` until it returns once.
unfoldable pub global_config : {C : Type 0} → Outcome C → Run (Option C) C
global_config load (some c) = ok (c, some c)
global_config load none = bind load λ c. ok (c, some c)
