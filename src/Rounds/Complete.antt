-- ===== src/Rounds/Complete.antt =====
-- What the report of process_tests of src/sim/judge_worker.cc holds after its rounds.
use simlib.Common.{
  suc, ◌≡◌, refl, sym, ◌∙◌, ap, subst, Bool, true, false, ◌||◌, List, [], ◌∷◌, Option, none, some,
  if◌then◌else◌, length, All, arith, Bool-cases, inl, inr,
}
use mathlib.Core.Bool.{false≢true}
use simlib.Number.{ℤ}
use simlib.Simfile.Groups.{Test, TestGroup}
use simlib.Rounds.{
  TestReport, ReportGroup, is_skipped, Judge, first_tests, first_round, second_tests, second_round,
  selected, process_tests,
}

abbrev pub AllJudged : List TestReport → Type 0
AllJudged = All (λ t. is_skipped t.status ≡ false)

-- The reports of the second list are those of the first, but for the skipped ones.
abbrev pub Kept : List TestReport → List TestReport → Type 0
Kept [] [] = Unit
Kept [] (s ∷ ss) = ⊥
Kept (r ∷ rs) [] = ⊥
Kept (r ∷ rs) (s ∷ ss) = (is_skipped r.status ≡ false → s ≡ r) × Kept rs ss

-- One report for each test, and the greatest score of the group.
abbrev pub Reported : List TestGroup → List ReportGroup → Type 0
Reported [] [] = Unit
Reported [] (r ∷ rs) = ⊥
Reported (g ∷ gs) [] = ⊥
Reported (g ∷ gs) (r ∷ rs) =
    (length r.tests ≡ length g.tests) × (r.max_score ≡ g.score) × Reported gs rs

abbrev pub GroupsJudged : List ReportGroup → Type 0
GroupsJudged = All (λ r. AllJudged r.tests)

-- The second report adds to the first: the scores stay, and the reports of tests that were judged.
abbrev pub Extends : List ReportGroup → List ReportGroup → Type 0
Extends [] [] = Unit
Extends [] (s ∷ ss) = ⊥
Extends (r ∷ rs) [] = ⊥
Extends (r ∷ rs) (s ∷ ss) =
    (s.score ≡ r.score) × (s.max_score ≡ r.max_score) × Kept r.tests s.tests × Extends rs ss

some-injective : {a b : List ReportGroup} → some a ≡ some b → a ≡ b
some-injective h = cc

module _ (World Ratio : Type 0) (judge : Judge World Ratio) (has_callback : Bool)
    (judges : (w : World) (t : Test) (r : Ratio)
      → is_skipped (judge.judge_on_test w t r).0.status ≡ false) where
  length-first_tests :
      (tests : List Test) (m : ℤ) (skip_tests : Bool) (ratio : Ratio) (w : World)
      → length (first_tests World Ratio judge has_callback m skip_tests ratio w tests).0
        ≡ length tests
  unfolding first_tests
  length-first_tests [] m skip_tests ratio w = refl
  length-first_tests (t ∷ tests) m true ratio w = ap suc (length-first_tests tests m true ratio w)
  length-first_tests (t ∷ tests) m false ratio w = ap suc (length-first_tests tests m _ _ _)

  -- Where no test was skipped.
  first_tests-AllJudged :
      (tests : List Test) (m : ℤ) (skip_tests : Bool) (ratio : Ratio) (w : World)
      → (first_tests World Ratio judge has_callback m skip_tests ratio w tests).2 ≡ false
      → AllJudged (first_tests World Ratio judge has_callback m skip_tests ratio w tests).0
  unfolding first_tests
  first_tests-AllJudged [] m skip_tests ratio w h = tt
  first_tests-AllJudged (t ∷ tests) m true ratio w h = absurd (false≢true (sym h))
  first_tests-AllJudged (t ∷ tests) m false ratio w h =
      (judges w t ratio, first_tests-AllJudged tests m _ _ _ h)

  unset : (b callback : Bool) → callback ≡ false → (if b then callback else false) ≡ false
  unset true callback h = h
  unset false callback h = refl

  without_callback :
      (tests : List Test) (m : ℤ) (skip_tests : Bool) (ratio : Ratio) (w : World)
      → has_callback ≡ false
      → skip_tests ≡ false
      → (first_tests World Ratio judge has_callback m skip_tests ratio w tests).2 ≡ false
  unfolding first_tests
  without_callback [] m skip_tests ratio w h s = refl
  without_callback (t ∷ tests) m true ratio w h s = absurd (false≢true (sym s))
  without_callback (t ∷ tests) m false ratio w h s =
      without_callback tests m _ _ _ h (unset _ has_callback h)

  second_tests-done :
      (ratio : Ratio) (w : World) (tests : List Test) (reports : List TestReport)
      → length reports ≡ length tests
      → (done : List TestReport) × (w' : World) × (second_tests World Ratio judge has_callback ratio
            w tests reports
          ≡ some (done, w'))
        × AllJudged done
        × Kept reports done
        × (length done ≡ length tests)
  unfolding second_tests
  second_tests-done ratio w [] [] h = ([], w, refl, tt, tt, refl)
  second_tests-done ratio w [] (r ∷ rs) h = absurd (omega arith)
  second_tests-done ratio w (t ∷ tests) [] h = absurd (omega arith)
  second_tests-done ratio w (t ∷ tests) (r ∷ rs) h = elim (Bool-cases (is_skipped r.status)) [
    | inl was ↦
        let (report, ratio', w1) = judge.judge_on_test w t ratio in
        let (done, w', e, all, kept, len) = second_tests-done ratio' w1 tests rs (omega arith) in
        (
          report ∷ done,
          w',
          rw (was, e) refl,
          (judges w t ratio, all),
          (λ not_was. absurd (false≢true (sym not_was ∙ was)), kept),
          ap suc len,
        )
    | inr was_not ↦
        let (done, w', e, all, kept, len) = second_tests-done ratio w tests rs (omega arith) in
        (r ∷ done, w', rw (was_not, e) refl, (was_not, all), (λ h. refl, kept), ap suc len)
  ]

  first_round-Reported :
      (groups : List TestGroup) (w : World)
      → Reported groups (first_round World Ratio judge has_callback w groups).0
  unfolding first_round
  first_round-Reported [] w = tt
  first_round-Reported (g ∷ groups) w = (
    length-first_tests g.tests g.score false judge.full_ratio w,
    refl,
    first_round-Reported groups _,
  )

  first_round-GroupsJudged :
      (groups : List TestGroup) (w : World)
      → (first_round World Ratio judge has_callback w groups).1 ≡ false
      → GroupsJudged (first_round World Ratio judge has_callback w groups).0
  unfolding first_round
  first_round-GroupsJudged [] w h = tt
  first_round-GroupsJudged (g ∷ groups) w h =
      let both = neither _ _ h in
      (
        first_tests-AllJudged g.tests g.score false judge.full_ratio w both.0,
        first_round-GroupsJudged groups _ both.1,
      )
    where
      neither : (a b : Bool) → (a || b) ≡ false → (a ≡ false) × (b ≡ false)
      neither true b e = absurd (false≢true (sym e))
      neither false b e = (refl, e)

  first_round-without_callback :
      (groups : List TestGroup) (w : World)
      → has_callback ≡ false
      → (first_round World Ratio judge has_callback w groups).1 ≡ false
  unfolding first_round
  first_round-without_callback [] w h = refl
  first_round-without_callback (g ∷ groups) w h =
      rw (without_callback g.tests g.score false judge.full_ratio w h refl)
        (first_round-without_callback groups _ h)

  second_round-done :
      (groups : List TestGroup) (reports : List ReportGroup) (w : World)
      → Reported groups reports
      → (done : List ReportGroup) × (w' : World) × (second_round World Ratio judge has_callback w
            groups reports
          ≡ some (done, w'))
        × Reported groups done
        × GroupsJudged done
        × Extends reports done
  unfolding second_round
  second_round-done [] [] w h = ([], w, refl, tt, tt, tt)
  second_round-done [] (r ∷ rs) w h = absurd h
  second_round-done (g ∷ gs) [] w h = absurd h
  second_round-done (g ∷ gs) (r ∷ rs) w (len, score, h) =
      let (tests, w1, e, all, kept, len') =
        second_tests-done judge.no_ratio w g.tests r.tests len in
      let (done, w2, e', reported, judged, ext) = second_round-done gs rs w1 h in
      (
        record r { tests = tests } ∷ done,
        w2,
        rw (e, e', second_round) refl,
        (len', score, reported),
        (all, judged),
        (refl, refl, kept, ext),
      )

  -- If every group of a round has a test, and the judging of a test never ends in SKIPPED, then
  -- process_tests succeeds. Its report has a group for each group of the round, with the group's score
  -- as the greatest, and one report for each test, none of which is SKIPPED. If a partial report was
  -- passed to the callback, the scores and the tests that were judged in it are the same in the
  -- report. Without a callback there is no partial report.
  pub process_tests_complete :
      (final : Bool) (w : World) (tgroups groups : List TestGroup)
      → selected final tgroups ≡ some groups
      → (partial : Option (List ReportGroup)) × (report : List ReportGroup) × (w' : World)
        × (process_tests World Ratio judge has_callback final w tgroups
            ≡ some (partial, report, w'))
        × Reported groups report
        × GroupsJudged report
        × ((first : List ReportGroup) → partial ≡ some first → Extends first report)
        × (has_callback ≡ false → partial ≡ none)
  unfolding process_tests
  process_tests_complete final w tgroups groups e =
      let first = first_round World Ratio judge has_callback w groups in
      let reported = first_round-Reported groups w in
      elim (Bool-cases first.1) [
        | inr all_done ↦ (
          none,
          first.0,
          first.2,
          rw (e, all_done, process_tests) refl,
          reported,
          first_round-GroupsJudged groups w all_done,
          λ r h. absurd (cc h),
          λ h. refl,
        )
        | inl some_skipped ↦ elim (Bool-cases has_callback) [
          | inr none_there ↦
              absurd
                (false≢true (sym (first_round-without_callback groups w none_there) ∙ some_skipped))
          | inl there ↦
              let (done, w', e', reported', judged, ext) =
                second_round-done groups first.0 first.2 reported in
              (
                some first.0,
                done,
                w',
                rw (e, some_skipped, e', there, process_tests) refl,
                reported',
                judged,
                λ r h. subst (λ s. Extends s done) (some-injective h) ext,
                λ h. absurd (false≢true (sym h ∙ there)),
              )
        ]
      ]
