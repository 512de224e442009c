-- ===== src/Conver/Reset.antt =====
-- What reset_time_limits_using_jugde_reports of src/sim/conver.cc sets.
use simlib.Common.{
  All, ◌≢◌, ◌≤◌, ◌<◌, ◌/◌, ◌*◌, ◌+◌, ℕ, ◌*◌, Bool, true, false, List, [], ◌∷◌, ◌++◌, Bytes, Option,
  none, some, ◌≡◌, refl, sym, ◌∙◌, if◌then◌else◌, ◌⊎◌, inl, inr, Bool-cases, arith,
}
use simlib.StringView.Text.{str_eq, str_lt}
use simlib.StringView.Order.{str_eq_iff}
use mathlib.Core.Bool.{false≢true}
use simlib.Number.{pos}
use simlib.Simfile.Groups.{Test, TestGroup}
use simlib.Conver.Limits.{
  ok, wa, tle, mle, rte, checker_error, skipped, tests_with, with_limits, rounded,
  normalize_time_limits, Verdict, ReportTest, passes, error_on_test, Limits, find_limit, put_limit,
  map_limits, assigned, reset_time_limits_using_judge_reports,
}

find_limit-put_limit :
    (tls : Limits) (key : Bytes) (limit : ℕ) (name : Bytes)
    → find_limit (put_limit tls key limit) name
      ≡ (if str_eq key name then some limit else find_limit tls name)
unfolding find_limit put_limit
find_limit-put_limit [] key limit name = refl
find_limit-put_limit ((k, old) ∷ tls) key limit name = elim (Bool-cases (str_eq k key)) [
  | inl same ↦
      let e = (str_eq_iff k key).0 same in
      rw (same, e) (elim (Bool-cases (str_eq key name)) [ inl h ↦ rw h refl | inr h ↦ rw h refl ])
  | inr other ↦ elim (Bool-cases (str_lt key k)) [
    | inl before ↦ rw (other, before) refl
    | inr after ↦
        let ih = find_limit-put_limit tls key limit name in
        rw (other, after)
          (elim (Bool-cases (str_eq k name)) [
            | inl here ↦
                let e = (str_eq_iff k name).0 here in
                let apart : str_eq key name ≡ false = elim (Bool-cases (str_eq key name)) [
                  | inl both ↦
                      let e' : k ≡ key = e ∙ sym ((str_eq_iff key name).0 both) in
                      absurd (false≢true (sym other ∙ (str_eq_iff k key).1 e'))
                  | inr h ↦ h
                ] in
                rw (here, apart) refl
            | inr there ↦ rw (there, ih) refl
          ])
  ]
]

-- OK and WA are the verdicts on which a runtime is taken over.
abbrev pub Accepted : Verdict → Type 0
Accepted status = (status ≡ ok) ⊎ (status ≡ wa)

passes-Accepted : (status : Verdict) → Accepted status → passes status ≡ true
passes-Accepted status (inl e) = rw e refl
passes-Accepted status (inr e) = rw e refl

passes-false : (status : Verdict) → status ≢ ok → status ≢ wa → passes status ≡ false
passes-false ok not_ok not_wa = absurd (not_ok refl)
passes-false wa not_ok not_wa = absurd (not_wa refl)
passes-false tle not_ok not_wa = refl
passes-false mle not_ok not_wa = refl
passes-false rte not_ok not_wa = refl
passes-false checker_error not_ok not_wa = refl
passes-false skipped not_ok not_wa = refl

abbrev pub AllAccepted : List ReportTest → Type 0
AllAccepted = All (λ t. Accepted t.status)

-- The limit that the last test of a name gives, in nanoseconds.
abbrev pub last_limit : (ℕ → ℕ) → List ReportTest → Bytes → Option ℕ
last_limit centiseconds [] name = none
last_limit centiseconds (t ∷ ts) name = elim (last_limit centiseconds ts name) [
  | some limit ↦ some limit
  | none ↦ if str_eq t.name name then some (centiseconds t.runtime * 10000000) else none
]

abbrev first_of : Option ℕ → Option ℕ → Option ℕ
first_of (some a) b = some a
first_of none b = b

first_of-none : (a : Option ℕ) → first_of a none ≡ a
first_of-none (some a) = refl
first_of-none none = refl

-- What becomes of a test's limit: that of the reports, else its own, rounded to the nearest hundredth
-- of a second, and up from the middle.
abbrev pub LimitAfter : Option ℕ → ℕ → ℕ → Type 0
LimitAfter (some limit) own time_limit = time_limit ≡ limit
LimitAfter none own time_limit =
    (k : ℕ) × (time_limit ≡ k * 10000000)
    × (time_limit ≤ own + 5000000)
    × (own + 5000000 < time_limit + 10000000)

module _ (centiseconds : ℕ → ℕ) where
  -- The tests and the groups, where nothing but the time limits differs.
  abbrev pub ResetTests : List ReportTest → List Test → List Test → Type 0
  ResetTests ts [] [] = Unit
  ResetTests ts [] (u ∷ us) = ⊥
  ResetTests ts (t ∷ tests) [] = ⊥
  ResetTests ts (t ∷ tests) (u ∷ us) =
      (u ≡ record t { time_limit = u.time_limit })
      × LimitAfter (last_limit centiseconds ts t.name) t.time_limit u.time_limit
      × ResetTests ts tests us

  abbrev pub ResetGroups : List ReportTest → List TestGroup → List TestGroup → Type 0
  ResetGroups ts [] [] = Unit
  ResetGroups ts [] (h ∷ hs) = ⊥
  ResetGroups ts (g ∷ groups) [] = ⊥
  ResetGroups ts (g ∷ groups) (h ∷ hs) =
      (h.score ≡ g.score) × ResetTests ts g.tests h.tests × ResetGroups ts groups hs

  map_limits-last :
      (ts : List ReportTest) (tls : Limits)
      → AllAccepted ts
      → (tls' : Limits) × (map_limits centiseconds ts tls ≡ inr tls')
        × ((name : Bytes)
            → find_limit tls' name
              ≡ first_of (last_limit centiseconds ts name) (find_limit tls name))
  unfolding map_limits
  map_limits-last [] tls h = (tls, refl, λ name. refl)
  map_limits-last (t ∷ ts) tls h =
      let passed = passes-Accepted t.status h.0 in
      let limit = centiseconds t.runtime * 10000000 in
      let (tls', e, found) = map_limits-last ts (put_limit tls t.name limit) h.1 in
      (
        tls',
        rw (passed, e, map_limits) refl,
        λ name.
            found name
            ∙ rw (find_limit-put_limit tls t.name limit name) (
                joined (last_limit centiseconds ts name) (str_eq t.name name) limit
                  (find_limit tls name)),
      )
    where
      joined :
          (last : Option ℕ) (same : Bool) (limit : ℕ) (old : Option ℕ)
          → first_of last (if same then some limit else old)
            ≡ first_of
                (elim last [ some l ↦ some l | none ↦ if same then some limit else none ])
                old
      joined (some l) same limit old = refl
      joined none true limit old = refl
      joined none false limit old = refl

  map_limits-refuses :
      (before : List ReportTest) (t : ReportTest) (after : List ReportTest) (tls : Limits)
      → AllAccepted before
      → t.status ≢ ok
      → t.status ≢ wa
      → map_limits centiseconds (before ++ t ∷ after) tls ≡ inl (error_on_test t.name t.status)
  unfolding map_limits
  map_limits-refuses [] t after tls h not_ok not_wa =
      rw (passes-false t.status not_ok not_wa, map_limits) refl
  map_limits-refuses (b ∷ before) t after tls h not_ok not_wa =
      let rest =
        map_limits-refuses before t after (put_limit tls b.name (centiseconds b.runtime * 10000000))
          h.1 not_ok not_wa in
      rw (passes-Accepted b.status h.0, rest, map_limits) refl

  last_limit-Whole :
      (ts : List ReportTest) (name : Bytes)
      → (last_limit centiseconds ts name ≡ none)
        ⊎ ((c : ℕ) × (last_limit centiseconds ts name ≡ some (c * 10000000)))
  last_limit-Whole [] name = inl refl
  last_limit-Whole (t ∷ ts) name = elim (last_limit-Whole ts name) [
    | inr (c, e) ↦ inr (c, rw e refl)
    | inl e ↦ elim (Bool-cases (str_eq t.name name)) [
      | inl same ↦ inr (centiseconds t.runtime, rw (e, same) refl)
      | inr other ↦ inl (rw (e, other) refl)
    ]
  ]

  rounded-LimitAfter :
      (ts : List ReportTest) (tls : Limits) (t : Test)
      → find_limit tls t.name ≡ last_limit centiseconds ts t.name
      → LimitAfter
          (last_limit centiseconds ts t.name)
          t.time_limit
          (rounded (assigned centiseconds tls t))
  rounded-LimitAfter ts tls t h = elim (last_limit-Whole ts t.name) [
    | inl e ↦
        rw (h, e, assigned) ((t.time_limit + 5000000) / 10000000, refl, omega arith, omega arith)
    | inr (c, e) ↦ rw (h, e, assigned) (omega arith)
  ]

  module _ (ts : List ReportTest) (tls : Limits)
      (found : (name : Bytes) → find_limit tls name ≡ last_limit centiseconds ts name) where
    tests_with-ResetTests :
        (tests : List Test)
        → ResetTests ts tests
            (tests_with (λ t. rounded t.time_limit) (tests_with (assigned centiseconds tls) tests))
    tests_with-ResetTests [] = tt
    tests_with-ResetTests (t ∷ tests) =
        (refl, rounded-LimitAfter ts tls t (found t.name), tests_with-ResetTests tests)

    with_limits-ResetGroups :
        (groups : List TestGroup)
        → ResetGroups ts groups
            (normalize_time_limits (with_limits (assigned centiseconds tls) groups))
    unfolding normalize_time_limits
    with_limits-ResetGroups [] = tt
    with_limits-ResetGroups (g ∷ groups) =
        (refl, tests_with-ResetTests g.tests, with_limits-ResetGroups groups)

  -- With a minimum and a coefficient that are not below zero: if every test of both reports is OK or WA,
  -- resetting the time limits succeeds. A test that is in the reports has the limit of its last
  -- runtime, the other tests have their own rounded to the nearest hundredth of a second, and nothing
  -- else changes. Otherwise it fails on the first test that is neither, with its name and verdict.
  pub reset_time_limits-last_limit :
      (n : ℕ) (jrep1 jrep2 : List ReportTest) (tgroups : List TestGroup)
      → let reset =
          reset_time_limits_using_judge_reports centiseconds (pos n) false jrep1 jrep2 tgroups in
        let tests = jrep1 ++ jrep2 in
        (AllAccepted tests
          → (groups : List TestGroup) × (reset ≡ inr groups) × ResetGroups tests tgroups groups)
        × ((before : List ReportTest) (t : ReportTest) (after : List ReportTest)
            → tests ≡ before ++ t ∷ after
            → AllAccepted before
            → t.status ≢ ok
            → t.status ≢ wa
            → reset ≡ inl (error_on_test t.name t.status))
  unfolding reset_time_limits_using_judge_reports
  reset_time_limits-last_limit n jrep1 jrep2 tgroups = (
    λ good.
        let tests = jrep1 ++ jrep2 in
        let (tls, e, found) = map_limits-last tests [] good in
        (
          normalize_time_limits (with_limits (assigned centiseconds tls) tgroups),
          rw e refl,
          with_limits-ResetGroups tests tls
              (λ name. found name ∙ first_of-none (last_limit centiseconds tests name)) tgroups,
        ),
    λ before t after split h not_ok not_wa.
        rw (split, map_limits-refuses before t after [] h not_ok not_wa) refl,
  )
