-- ===== src/Testing/Report.antt =====
-- src/test/test.h and src/test/test_main.cc, the lines that the test program prints.
use gabby.Base.{
  ℕ, suc, ◌==◌, Bool, Option, none, some, List, [], ◌∷◌, ◌++◌, Bytes, codes, decimal, length,
  if◌then◌else◌,
}
use gabby.Testing.{
  Note, Step, checks, throws_exception, throws_other, crashes, TestCase, counted, run_safe, success,
}
use gabby.Testing.Verdict.{holds, passes}

-- A text that is written to `std::cerr` or to `std::cout`.
pub data Line : Type 0 where
  err out : Bytes → Line

-- "TEST: {}:{}: {}\n"
abbrev test_line : Bytes → Bytes → Bytes → Bytes
test_line a b message =
    codes "TEST: " ++ (a ++ (codes ":" ++ (b ++ (codes ": " ++ (message ++ codes "\n")))))

-- `error` with a place in the source
unfoldable pub error_at : Note → Line
unfolding decimal
error_at note = err (test_line note.file (decimal note.line) note.message)

-- `error` and `log`, which name the test
unfoldable pub error : TestCase → Bytes → Line
error t message = err (test_line t.suite t.testcase message)

unfoldable pub log : TestCase → Bytes → Line
log t message = out (test_line t.suite t.testcase message)

-- the end of `RunSafe`
unfoldable pub log_verdict : TestCase → Bool → Line
unfolding log
log_verdict t succeeded = log t (if succeeded then codes "ok" else codes "failure!")

-- the lines of `RunSafe`, on what is left of the body
unfoldable pub run_safe_lines : TestCase → List Step → ℕ → List Line
unfolding error_at error log_verdict
run_safe_lines t [] failures = log_verdict t (failures == 0) ∷ []
run_safe_lines t (checks holds note ∷ more) failures =
    (if holds then [] else error_at note ∷ [])
    ++ run_safe_lines t more (if holds then failures else suc failures)
run_safe_lines t (throws_exception what ∷ more) failures =
    error t (codes "caught exception: " ++ what) ∷ log_verdict t (suc failures == 0) ∷ []
run_safe_lines t (throws_other ∷ more) failures =
    error t (codes "caught unknown exception") ∷ log_verdict t (suc failures == 0) ∷ []
run_safe_lines t (crashes ∷ more) failures = []

abbrev and_then : Option ℕ → (ℕ → List Line) → List Line
and_then none k = []
and_then (some n) k = k n

abbrev pub last_line : ℕ → Line
last_line failures =
    out (if failures == 0 then codes "succcess\n" else decimal failures ++ codes " failures\n")

-- the lines of the loop of `main`, and the line behind it
unfoldable pub run_all_lines : List TestCase → ℕ → List Line
unfolding run_safe_lines run_safe success
run_all_lines [] failures = last_line failures ∷ []
run_all_lines (t ∷ ts) failures =
    run_safe_lines t t.body t.failures
    ++ and_then (counted (run_safe t) failures) (run_all_lines ts)

abbrev pub first_line : List TestCase → Line
first_line tests = out (codes "running " ++ (decimal (length tests) ++ codes " tests\n"))

-- `main`, where `kTestCases` is not null
unfoldable pub main_lines : List TestCase → List Line
unfolding run_all_lines
main_lines tests = first_line tests ∷ run_all_lines tests 0

-- what is written to `std::cout`
abbrev pub outs : List Line → List Line
outs [] = []
outs (err b ∷ ls) = outs ls
outs (out b ∷ ls) = out b ∷ outs ls

-- the tests of the list that fail, and those before
abbrev pub failed_of : List TestCase → ℕ → ℕ
failed_of [] n = n
failed_of (t ∷ ts) n = failed_of ts (if passes t then n else suc n)

abbrev pub verdict_lines : List TestCase → List Line
verdict_lines [] = []
verdict_lines (t ∷ ts) = log_verdict t (passes t) ∷ verdict_lines ts
