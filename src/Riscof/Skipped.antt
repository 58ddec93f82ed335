-- ===== src/Riscof/Skipped.antt =====
-- riscof/filter_test_list.py: the filtered list against the list of tests.
use mlogv.Prelude.{
  ℕ, Option, none, some, text_eq, text_eq_iff, ◌≡◌, ap, true, List, [], ◌∷◌, Text, arith,
  if◌then◌else◌,
}
use mlogv.Config.{split}
use mlogv.Riscof.{any_in, kept_tests, filtered_tests}

abbrev pub get_test : {A : Type 0} → List (Text × A) → Text → Option A
get_test [] testname = none
get_test ((name, value) ∷ tests) testname =
    if text_eq name testname then some value else get_test tests testname

kept_tests-lookup :
    {A : Type 0} (skip : List Text) (tests : List (Text × A)) (testname : Text)
    → get_test (kept_tests skip tests) testname
      ≡ (if any_in skip testname then none else get_test tests testname)
unfolding kept_tests
kept_tests-lookup skip [] testname = ground arith
kept_tests-lookup skip ((name, value) ∷ tests) testname =
    let same = text_eq_iff name testname in
    let moved : text_eq name testname ≡ true → any_in skip name ≡ any_in skip testname =
      λ h. ap (any_in skip) (same.0 h) in
    ground (arith, kept_tests-lookup skip tests testname, moved)

-- If `skip_tests` is not empty, then a test is in the filtered list, with its value, exactly where it is
-- in the list and no part of `skip_tests` between the commas is in its name.
filtered_tests-lookup :
    {A : Type 0} (c : ℕ) (s : Text) (tests : List (Text × A)) (testname : Text)
    → get_test (filtered_tests (c ∷ s) tests) testname
      ≡ (if any_in (split b',' (c ∷ s)) testname then none else get_test tests testname)
unfolding filtered_tests
filtered_tests-lookup c s tests testname = kept_tests-lookup (split b',' (c ∷ s)) tests testname
