-- ===== src/Rounds.antt =====
-- JudgeWorker::process_tests of src/sim/judge_worker.cc: the two rounds over the groups of tests. What
-- judges a test, and the arithmetic on ratios, which is in floating point, are given; the log is left
-- out.
pub mod Complete
use simlib.Common.{
  ℕ, zero, suc, Bool, true, false, not, ◌&&◌, ◌||◌, List, [], ◌∷◌, Bytes, Option, none, some, codes,
  if◌then◌else◌,
}
use simlib.StringView.Text.{str_eq}
use simlib.Number.{ℤ, pos, negsuc}
use simlib.Simfile.{split}
use simlib.Simfile.Groups.{Test, TestGroup}
use simlib.Conver.Limits.{Verdict, skipped, ok, wa, tle, mle, rte, checker_error}

-- JudgeReport::Test
pub record TestReport : Type 0 where
  pub name : Bytes
  pub status : Verdict
  pub runtime : ℕ
  pub time_limit : ℕ
  pub memory_consumed : ℕ
  pub memory_limit : ℕ
  pub comment : Bytes

-- JudgeReport::Group
pub record ReportGroup : Type 0 where
  pub tests : List TestReport
  pub score : ℤ
  pub max_score : ℤ

abbrev pub skipped_report : Test → TestReport
skipped_report test = record {
  name = test.name;
  status = skipped;
  runtime = 0;
  time_limit = test.time_limit;
  memory_consumed = 0;
  memory_limit = test.memory_limit;
  comment = [];
}

abbrev pub is_skipped : Verdict → Bool
is_skipped skipped = true
is_skipped ok = false
is_skipped wa = false
is_skipped tle = false
is_skipped mle = false
is_skipped rte = false
is_skipped checker_error = false

-- The groups of a round: group "0" is of the initial report, the others of the final one. `none` is a
-- group without tests, whose first test is read all the same.
unfoldable pub selected : Bool → List TestGroup → Option (List TestGroup)
unfolding split str_eq
selected final [] = some []
selected final (group ∷ groups) =
    let rest = selected final groups in
    elim group.tests [
      | [] ↦ none
      | test ∷ tests ↦
          let is_zero = str_eq (split test.name).0 (codes "0") in
          elim rest [
            | none ↦ none
            | some others ↦
                if (if is_zero then final else not final)
                then some others
                else some (group ∷ others)
          ]
    ]

-- What is given: the ratios 1 and 0, the cut of a ratio by the runtime, the score of a ratio, whether a
-- ratio is below 1e-6, and judge_on_test, which also changes the world.
pub record Judge (World Ratio : Type 0) : Type 0 where
  pub full_ratio : Ratio
  pub no_ratio : Ratio
  pub cut : TestReport → Ratio → Ratio
  pub score_of : ℤ → Ratio → ℤ
  pub is_tiny : Ratio → Bool
  pub judge_on_test : World → Test → Ratio → TestReport × Ratio × World

abbrev pub is_zero_score : ℤ → Bool
is_zero_score (pos zero) = true
is_zero_score (pos (suc n)) = false
is_zero_score (negsuc n) = false

module _ (World Ratio : Type 0) (judge : Judge World Ratio) (has_callback : Bool) where
  -- The tests of a group in the first round: their reports, the ratio, and whether some were skipped.
  unfoldable pub first_tests :
      ℤ → Bool → Ratio → World → List Test → List TestReport × Ratio × Bool × World
  first_tests max_score skip_tests ratio w [] = ([], ratio, false, w)
  first_tests max_score true ratio w (test ∷ tests) =
      let (reports, last, some_skipped, w') = first_tests max_score true ratio w tests in
      (skipped_report test ∷ reports, last, true, w')
  first_tests max_score false ratio w (test ∷ tests) =
      let (report, ratio', w') = judge.judge_on_test w test ratio in
      let cut_ratio = judge.cut report ratio' in
      let skip_tests =
        if judge.is_tiny cut_ratio && is_zero_score (judge.score_of max_score cut_ratio)
        then has_callback
        else false in
      let (reports, last, some_skipped, w'') =
        first_tests max_score skip_tests cut_ratio w' tests in
      (report ∷ reports, last, some_skipped, w'')

  unfoldable pub first_round : World → List TestGroup → List ReportGroup × Bool × World
  unfolding first_tests
  first_round w [] = ([], false, w)
  first_round w (group ∷ groups) =
      let (reports, ratio, some_skipped, w') =
        first_tests group.score false judge.full_ratio w group.tests in
      let (others, more_skipped, w'') = first_round w' groups in
      (
        record {
          tests = reports;
          score = judge.score_of group.score ratio;
          max_score = group.score;
        }
            ∷ others,
        some_skipped || more_skipped,
        w'',
      )

  -- The second round. `none` is a report that is not there.
  unfoldable pub second_tests :
      Ratio → World → List Test → List TestReport → Option (List TestReport × World)
  second_tests ratio w [] reports = some (reports, w)
  second_tests ratio w (test ∷ tests) [] = none
  second_tests ratio w (test ∷ tests) (report ∷ reports) =
      let (report', ratio', w') = judge.judge_on_test w test ratio in
      let kept = second_tests ratio w tests reports in
      let judged = second_tests ratio' w' tests reports in
      if is_skipped report.status
      then elim judged [ none ↦ none | some (rest, w'') ↦ some (report' ∷ rest, w'') ]
      else elim kept [ none ↦ none | some (rest, w'') ↦ some (report ∷ rest, w'') ]

  unfoldable pub second_round :
      World → List TestGroup → List ReportGroup → Option (List ReportGroup × World)
  unfolding second_tests
  second_round w [] reports = some (reports, w)
  second_round w (group ∷ groups) [] = none
  second_round w (group ∷ groups) (report ∷ reports) =
      elim (second_tests judge.no_ratio w group.tests report.tests) [
        | none ↦ none
        | some (tests, w') ↦ elim (second_round w' groups reports) [
          | none ↦ none
          | some (rest, w'') ↦ some (record report { tests = tests } ∷ rest, w'')
        ]
      ]

  -- The partial report, if one is passed to the callback, the report, and the world afterwards.
  unfoldable pub process_tests :
      Bool → World → List TestGroup → Option (Option (List ReportGroup) × List ReportGroup × World)
  unfolding selected first_round second_round
  process_tests final w tgroups = elim (selected final tgroups) [
    | none ↦ none
    | some groups ↦
        let (report, test_were_skipped, w') = first_round w groups in
        let second = second_round w' groups report in
        if not test_were_skipped
        then some (none, report, w')
        else if not has_callback
        then none
        else elim second [ none ↦ none | some (done, w'') ↦ some (some report, done, w'') ]
  ]
