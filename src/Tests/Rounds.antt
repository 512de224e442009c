-- ===== src/Tests/Rounds.antt =====
-- The judging of two groups of tests.
use simlib.Common.{
  ℕ, ◌+◌, ◌*◌, ◌≡◌, refl, true, false, some, none, Option, List, [], ◌∷◌, Bytes, codes, ◌==◌,
  if◌then◌else◌, Bool-cases, inl, inr,
}
use simlib.Ctype.{is_alpha, is_digit}
use simlib.StringView.Text.{extract_trailing}
use simlib.Number.{ℤ, pos, negsuc}
use simlib.Simfile.Groups.{Test, TestGroup}
use simlib.Conver.Limits.{Verdict, ok, wa}
use simlib.Rounds.{TestReport, ReportGroup, Judge, selected, process_tests, is_skipped}
use simlib.Rounds.Complete.{Reported, GroupsJudged, Extends, process_tests_complete}

abbrev test_of : Bytes → Test
test_of name = record {
  name = name;
  input = [];
  output = none;
  time_limit = 100;
  memory_limit = 1024;
}

abbrev groups : List TestGroup
groups =
    record { tests = test_of (codes "0") ∷ []; score = pos 0 }
    ∷ record { tests = test_of (codes "1a") ∷ test_of (codes "1b") ∷ []; score = pos 40 }
    ∷ []

abbrev of_final : List TestGroup
of_final = record { tests = test_of (codes "1a") ∷ test_of (codes "1b") ∷ []; score = pos 40 } ∷ []

-- The world counts the tests that were judged. The first of them fails, and a ratio is 0 or 1.
abbrev verdict_of : ℕ → Verdict
verdict_of w = if w == 0 then wa else ok

abbrev report_of : ℕ → Test → TestReport
report_of w t = record {
  name = t.name;
  status = verdict_of w;
  runtime = 10;
  time_limit = t.time_limit;
  memory_consumed = 1;
  memory_limit = t.memory_limit;
  comment = [];
}

abbrev score_part : ℤ → ℕ → ℤ
score_part (pos n) ratio = pos (n * ratio)
score_part (negsuc n) ratio = negsuc n

abbrev judge : Judge ℕ ℕ
judge = record {
  full_ratio = 1;
  no_ratio = 0;
  cut = λ report ratio. ratio;
  score_of = score_part;
  is_tiny = λ ratio. ratio == 0;
  judge_on_test = λ w t ratio. (report_of w t, if w == 0 then 0 else ratio, w + 1);
}

never_skips : (w : ℕ) (t : Test) (r : ℕ) → is_skipped (judge.judge_on_test w t r).0.status ≡ false
never_skips w t r = elim (Bool-cases (w == 0)) [ inl e ↦ rw e refl | inr e ↦ rw e refl ]

final_groups : selected true groups ≡ some of_final
unfolding selected extract_trailing is_alpha is_digit
final_groups = refl

process_tests_complete_example :
    (partial : Option (List ReportGroup)) × (report : List ReportGroup) × (w' : ℕ) × (process_tests
        ℕ ℕ judge true true 0 groups
      ≡ some (partial, report, w'))
    × Reported of_final report
    × GroupsJudged report
    × ((first : List ReportGroup) → partial ≡ some first → Extends first report)
    × (true ≡ false → partial ≡ none)
process_tests_complete_example =
    process_tests_complete ℕ ℕ judge true never_skips true 0 groups of_final final_groups
