-- ===== src/Conver/Limits.antt =====
-- The time limits: the end of Conver::construct_simfile and reset_time_limits_using_jugde_reports of
-- src/sim/conver.cc, with normalize_time_limits of include/simlib/sim/conver.hh. Times are in
-- nanoseconds; what is computed in floating point is given.
use simlib.Common.{
  ℕ, ◌+◌, ◌*◌, ◌/◌, Bool, true, false, ◌||◌, List, [], ◌∷◌, ◌++◌, Bytes, Option, none, some,
  if◌then◌else◌, ◌⊎◌, inl, inr,
}
use simlib.StringView.Text.{str_eq, str_lt}
use simlib.Number.{ℤ, pos, negsuc}
use simlib.Simfile.Groups.{Test, TestGroup}
use simlib.Conver.{Tests}
use simlib.Conver.Scores.{Groups, or_else}

abbrev pub tests_with : (Test → ℕ) → List Test → List Test
tests_with limit [] = []
tests_with limit (t ∷ ts) = record t { time_limit = limit t } ∷ tests_with limit ts

abbrev pub with_limits : (Test → ℕ) → List TestGroup → List TestGroup
with_limits limit [] = []
with_limits limit (g ∷ gs) = record g { tests = tests_with limit g.tests } ∷ with_limits limit gs

-- `floor_to_10ms(time_limit + 5ms)`
abbrev pub rounded : ℕ → ℕ
rounded time_limit = (time_limit + 5000000) / 10000000 * 10000000

unfoldable pub normalize_time_limits : List TestGroup → List TestGroup
normalize_time_limits groups = with_limits (λ t. rounded t.time_limit) groups

abbrev pub is_unlimited : Option ℕ → Bool
is_unlimited none = true
is_unlimited (some _) = false

unfoldable pub any_unlimited : Tests → Bool
any_unlimited [] = false
any_unlimited ((name, test) ∷ tests) = is_unlimited test.time_limit || any_unlimited tests

unfoldable pub any_group_unlimited : Groups → Bool
unfolding any_unlimited
any_group_unlimited [] = false
any_group_unlimited ((gid, group) ∷ groups) =
    any_unlimited group.tests || any_group_unlimited groups

pub data Status : Type 0 where
  complete need_model_solution_judge_report : Status

-- Whether the main solution is to run, and "Override the time limits".
abbrev pub overridden : Bool → Option ℕ → Groups → List TestGroup → Bool × List TestGroup
overridden reset_using_main_solution none groups exported =
    (reset_using_main_solution || any_group_unlimited groups, exported)
overridden reset_using_main_solution (some limit) groups exported =
    (reset_using_main_solution, with_limits (λ t. limit) exported)

-- From the export of the tests, whose groups are `exported`, to the end. `sol_time_limit` is what
-- time_limit_to_solution_runtime makes of max_time_limit.
unfoldable pub time_limits : Bool → Option ℕ → ℕ → Groups → List TestGroup → Status × List TestGroup
unfolding normalize_time_limits any_group_unlimited
time_limits reset_using_main_solution global_time_limit sol_time_limit groups exported =
    let (run_main_solution, limited) =
      overridden reset_using_main_solution global_time_limit groups exported in
    if run_main_solution
    then (need_model_solution_judge_report, with_limits (λ t. sol_time_limit) limited)
    else (complete, normalize_time_limits limited)

-- JudgeReport::Test::Status
pub data Verdict : Type 0 where
  ok wa tle mle rte checker_error skipped : Verdict

-- What is read of a JudgeReport::Test.
pub record ReportTest : Type 0 where
  pub name : Bytes
  pub status : Verdict
  pub runtime : ℕ

abbrev pub passes : Verdict → Bool
passes ok = true
passes wa = true
passes tle = false
passes mle = false
passes rte = false
passes checker_error = false
passes skipped = false

pub data ResetError : Type 0 where
  negative_min_time_limit negative_coefficient : ResetError
  error_on_test : Bytes → Verdict → ResetError

-- `std::map<StringView, nanoseconds>`
abbrev pub Limits : Type 0
Limits = List (Bytes × ℕ)

unfoldable pub find_limit : Limits → Bytes → Option ℕ
unfolding str_eq
find_limit [] name = none
find_limit ((key, limit) ∷ tls) name =
    let rest = find_limit tls name in if str_eq key name then some limit else rest

unfoldable pub put_limit : Limits → Bytes → ℕ → Limits
unfolding str_eq str_lt
put_limit [] name limit = (name, limit) ∷ []
put_limit ((key, old) ∷ tls) name limit =
    let rest = put_limit tls name limit in
    if str_eq key name
    then (key, limit) ∷ tls
    else if str_lt name key
    then (name, limit) ∷ (key, old) ∷ tls
    else (key, old) ∷ rest

-- `centiseconds` is what solution_runtime_to_time_limit, rounded down to hundredths of a second, makes
-- of a runtime.
module _ (centiseconds : ℕ → ℕ) where
  abbrev pub reported : ℕ → ℕ
  reported runtime = centiseconds runtime * 10000000

  -- "Map every test to its time limit", for the tests of one group after another.
  unfoldable pub map_limits : List ReportTest → Limits → ResetError ⊎ Limits
  unfolding put_limit
  map_limits [] tls = inr tls
  map_limits (t ∷ ts) tls =
      let rest = map_limits ts (put_limit tls t.name (reported t.runtime)) in
      if passes t.status then rest else inl (error_on_test t.name t.status)

  abbrev pub assigned : Limits → Test → ℕ
  assigned tls t = or_else (find_limit tls t.name) t.time_limit

  -- A report is the tests of its groups. Whether the coefficient is below zero is given.
  unfoldable pub reset_time_limits_using_judge_reports :
      ℤ → Bool → List ReportTest → List ReportTest → List TestGroup → ResetError ⊎ List TestGroup
  unfolding map_limits find_limit normalize_time_limits
  reset_time_limits_using_judge_reports (negsuc n) is_negative jrep1 jrep2 tgroups =
      inl negative_min_time_limit
  reset_time_limits_using_judge_reports (pos n) is_negative jrep1 jrep2 tgroups =
      if is_negative then inl negative_coefficient else elim (map_limits (jrep1 ++ jrep2) []) [
        | inl error ↦ inl error
        | inr tls ↦ inr (normalize_time_limits (with_limits (assigned tls) tgroups))
      ]
