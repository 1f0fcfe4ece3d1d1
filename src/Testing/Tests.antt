-- ===== src/Testing/Tests.antt =====
-- A run of the test program on three tests.
use gabby.Base.{true, false, some, [], ◌∷◌, codes, ◌≡◌, refl}
use gabby.Base.{none, ℕ}
use gabby.Testing.{
  register_all, global_config, TestCase, Step, throws_exception, expect_true, expect_false,
  expect_eq, expect_substr, main,
}
use gabby.Outcome.{ok, throws, not_found}
use gabby.Testing.Report.{out, err, main_lines}
use gabby.Testing.Verdict.{IsFresh, main-passes}

abbrev holding : Step
holding = expect_true (codes "a.cc") 3 (codes "true") true

abbrev good : TestCase
good = record {
  suite = codes "Suite";
  testcase = codes "Good";
  body = holding ∷ expect_false (codes "a.cc") 4 (codes "x") false ∷ [];
  failures = 0;
}

abbrev bad : TestCase
bad = record {
  suite = codes "Suite";
  testcase = codes "Bad";
  body =
      expect_eq (codes "a.cc") 7 (codes "y") (codes "3") true
      ∷ holding
      ∷ throws_exception (codes "not found")
      ∷ [];
  failures = 0;
}

good-IsFresh : IsFresh good
unfolding expect_true expect_false
good-IsFresh = record { no_failures = refl; completes = (tt, (tt, tt)) }

bad-IsFresh : IsFresh bad
unfolding expect_true expect_eq
bad-IsFresh = record { no_failures = refl; completes = (tt, (tt, (tt, tt))) }

main-passes_example : main (register_all none (good ∷ bad ∷ good ∷ [])) ≡ some 1
unfolding expect_true expect_false expect_eq
main-passes_example =
    main-passes good (bad ∷ good ∷ []) (good-IsFresh, (bad-IsFresh, (good-IsFresh, tt)))

all_good : main (some (good ∷ good ∷ [])) ≡ some 0
unfolding main expect_true expect_false
all_good = refl

-- The macro holds though the text is not there.
substr_holds :
    expect_substr (codes "a.cc") 3 (codes "t") (codes "haystack") (codes "needle")
    ≡ expect_true (codes "a.cc") 3 (codes "t") true
unfolding expect_substr expect_true
substr_holds = refl

-- The first call loads, and the second does not.
loads_once : global_config {C = ℕ} (ok 3) none ≡ ok (3, some 3)
unfolding global_config
loads_once = refl

loaded : global_config {C = ℕ} (throws not_found) (some 3) ≡ ok (3, some 3)
unfolding global_config
loaded = refl

-- One line for each test on the output, and those of the failures on the other.
printed :
    main_lines (good ∷ bad ∷ [])
    ≡ out (codes "running 2 tests\n")
      ∷ out (codes "TEST: Suite:Good: ok\n")
      ∷ err (codes "TEST: a.cc:7: FAIL: 3 != y\n")
      ∷ err (codes "TEST: Suite:Bad: caught exception: not found\n")
      ∷ out (codes "TEST: Suite:Bad: failure!\n")
      ∷ out (codes "1 failures\n")
      ∷ []
unfolding main_lines expect_true expect_false expect_eq
printed = refl
