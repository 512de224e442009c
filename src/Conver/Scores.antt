-- ===== src/Conver/Scores.antt =====
-- The groups of tests in Conver::construct_simfile of src/sim/conver.cc: how the tests are divided, how
-- the groups are scored, and what the Simfile is given.
use simlib.Common.{
  ℕ, zero, suc, ◌+◌, ◌-◌, ◌/◌, ◌%◌, ◌^◌, Bool, true, false, not, ◌&&◌, List, [], ◌∷◌, Bytes, Option,
  none, some, codes, ltb, if◌then◌else◌,
}
use simlib.StringView.Text.{str_eq, remove_leading}
use simlib.StringCompare.{str_num_compare, is_zero}
use simlib.Number.{ℤ, pos, negsuc}
use simlib.Path.{is_empty}
use simlib.Simfile.{loaded, throws, parse_scoring_item, split, test_name_compare}
use simlib.Simfile.Groups.{Test, TestGroup}
use simlib.Conver.{TestProperties, Tests}

pub record TestsGroup : Type 0 where
  pub score : Option ℤ
  pub tests : Tests

-- `std::map<StringView, TestsGroup, StrNumCompare>`, in the order of the ids.
abbrev pub Groups : Type 0
Groups = List (Bytes × TestsGroup)

-- `std::multimap` by TestNameComparator: behind the tests that do not come after the new one.
unfoldable pub emplace_test : Bytes → TestProperties → Tests → Tests
unfolding test_name_compare
emplace_test name test [] = (name, test) ∷ []
emplace_test name test ((key, old) ∷ tests) =
    let rest = emplace_test name test tests in
    if test_name_compare name key then (name, test) ∷ (key, old) ∷ tests else (key, old) ∷ rest

-- `try_emplace` of the id and `emplace` of the test.
unfoldable pub add_to_group : Bytes → Bytes → TestProperties → Groups → Groups
unfolding str_num_compare emplace_test
add_to_group gid name test [] = (gid, record { score = none; tests = (name, test) ∷ [] }) ∷ []
add_to_group gid name test ((key, group) ∷ groups) =
    let rest = add_to_group gid name test groups in
    if str_num_compare gid key
    then (gid, record { score = none; tests = (name, test) ∷ [] }) ∷ (key, group) ∷ groups
    else if str_num_compare key gid
    then (key, group) ∷ rest
    else (key, record group { tests = emplace_test name test group.tests }) ∷ groups

-- "Fill tests_groups", without the tests that have no group id.
unfoldable pub fill_groups : Tests → Groups → Groups
unfolding split add_to_group
fill_groups [] groups = groups
fill_groups ((name, test) ∷ tests) groups =
    let (gid, tid) = split name in
    let gid' = if str_eq tid (codes "ocen") then codes "0" else gid in
    fill_groups tests (if is_empty gid then groups else add_to_group gid' name test groups)

-- The write of a score, where `find` finds the group.
unfoldable pub set_score : Bytes → ℤ → Groups → Groups
unfolding str_num_compare
set_score gid score [] = []
set_score gid score ((key, group) ∷ groups) =
    let rest = set_score gid score groups in
    if not (str_num_compare key gid) && not (str_num_compare gid key)
    then (key, record group { score = some score }) ∷ groups
    else (key, group) ∷ rest

-- "Load scoring": an item that cannot be read, or of no group, is passed over.
unfoldable pub load_scores : List Bytes → Groups → Groups
unfolding parse_scoring_item set_score
load_scores [] groups = groups
load_scores (str ∷ strs) groups = elim (parse_scoring_item str) [
  | throws _ ↦ load_scores strs groups
  | loaded (gid, score) ↦ load_scores strs (set_score gid score groups)
]

-- `meta::max(group.score.value_or(0), 0)`
abbrev pub positive : Option ℤ → ℕ
positive none = 0
positive (some (pos n)) = n
positive (some (negsuc n)) = 0

-- The sum in 64 bits.
unfoldable pub max_score : Groups → ℕ
max_score [] = 0
max_score ((gid, group) ∷ groups) = (positive group.score + max_score groups) % 2 ^ 64

abbrev pub is_unscored : Option ℤ → Bool
is_unscored none = true
is_unscored (some _) = false

unfoldable pub unscored_tests : Groups → ℕ
unscored_tests [] = 0
unscored_tests ((gid, group) ∷ groups) =
    let rest = unscored_tests groups in if is_unscored group.score then suc rest else rest

-- "Group 0 always has score equal to 0": the first group has the id zero and no score.
abbrev pub zero_unscored : Groups → Bool
zero_unscored [] = false
zero_unscored ((gid, group) ∷ groups) =
    is_empty (remove_leading is_zero gid) && is_unscored group.score

abbrev pub with_group_zero : Groups → Groups
with_group_zero [] = []
with_group_zero ((gid, group) ∷ groups) = (gid, record group { score = some (pos 0) }) ∷ groups

-- "Distribute scoring", of what is left among the groups that are left. `none` is a division by zero.
unfoldable pub distribute : ℕ → ℕ → Groups → Option Groups
distribute left unscored [] = some []
distribute left unscored ((gid, group) ∷ groups) = elim group.score [
  | some _ ↦ elim (distribute left unscored groups) [
    | none ↦ none
    | some rest ↦ some ((gid, group) ∷ rest)
  ]
  | none ↦ elim unscored [
    | zero ↦ none
    | suc others ↦
        let share = left / suc others in
        elim (distribute (left - share) others groups) [
          | none ↦ none
          | some rest ↦ some ((gid, record group { score = some (pos share) }) ∷ rest)
        ]
  ]
]

-- "Distribute score among tests with no score set"
unfoldable pub scored : Groups → Option Groups
unfolding max_score unscored_tests distribute
scored groups =
    let to_give = if ltb 100 (max_score groups) then 0 else 100 - max_score groups in
    let unscored = unscored_tests groups in
    if not (ltb 0 unscored)
    then some groups
    else if zero_unscored groups
    then distribute to_give (unscored - 1) (with_group_zero groups)
    else distribute to_give unscored groups

abbrev pub or_else {ℓ} : {A : Type ℓ} → Option A → A → A
or_else (some a) d = a
or_else none d = d

-- "Export tests to the Simfile". The values that the source takes are there by then.
unfoldable pub export_test : Bool → Bytes × TestProperties → Test
export_test interactive (name, test) = record {
  name = name;
  input = or_else test.input [];
  output = if interactive then none else some (or_else test.output []);
  time_limit = or_else test.time_limit 0;
  memory_limit = or_else test.memory_limit 0;
}

abbrev pub export_tests : Bool → Tests → List Test
export_tests interactive [] = []
export_tests interactive (t ∷ tests) = export_test interactive t ∷ export_tests interactive tests

unfoldable pub export_groups : Bool → Groups → List TestGroup
unfolding export_test
export_groups interactive [] = []
export_groups interactive ((gid, group) ∷ groups) =
    record { tests = export_tests interactive group.tests; score = or_else group.score (pos 0) }
    ∷ export_groups interactive groups
