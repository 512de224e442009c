-- ===== src/Simfile/Groups.antt =====
-- Simfile::load_tests: the tests of the `limits` array in their groups, and the scores of these.
use simlib.Common.{
  ℕ, zero, suc, ◌+◌, ◌-◌, ◌*◌, ◌/◌, ◌^◌, ◌&&◌, ◌||◌, not, Bool, true, false, List, [], ◌∷◌, ◌++◌,
  Bytes, Option, none, some, codes, length, leb, if◌then◌else◌,
}
use simlib.Ctype.{is_space}
use simlib.StringView.Text.{remove_leading, str_eq}
use simlib.StringTraits.{is_real}
use simlib.StringCompare.{str_num_compare}
use simlib.Number.{ℤ, pos, str2num_range}
use simlib.SimpleParser.{extract_next_non_empty}
use simlib.Simfile.{
  Error, division_by_zero, missing, missing_memory_limit, missing_group_id, invalid_time_limit,
  nonpositive_time_limit, zero_time_limit, invalid_test_memory_limit, no_test_of_group,
  redefined_scoring, missing_scoring, Result, loaded, throws, and_then, check_if_arr, max_mebibytes,
  mebibytes, split, parse_scoring_item, test_name_compare, load_global_memory_limit_only,
}
use simlib.Path.{is_empty}
use simlib.ConfigFile.{Variable, Vars, get_var}
pub mod Scoring
pub mod Ordered

-- `in` and `out` are loaded from another array, and empty until then.
pub record Test : Type 0 where
  pub name : Bytes
  pub input : Bytes
  pub output : Option Bytes
  pub time_limit : ℕ
  pub memory_limit : ℕ

pub record TestGroup : Type 0 where
  pub tests : List Test
  pub score : ℤ

-- `std::map<StringView, TestGroup, StrNumCompare>`: in the order of the keys, where two keys are one
-- if neither is less.
abbrev pub TestsGroups : Type 0
TestsGroups = List (Bytes × TestGroup)

unfoldable pub add_test : TestsGroups → Bytes → Test → TestsGroups
add_test [] gid test = (gid, record { tests = test ∷ []; score = pos 0 }) ∷ []
add_test ((key, group) ∷ groups) gid test =
    if str_num_compare gid key
    then (gid, record { tests = test ∷ []; score = pos 0 }) ∷ (key, group) ∷ groups
    else if str_num_compare key gid
    then (key, group) ∷ add_test groups gid test
    else (key, record group { tests = group.tests ++ test ∷ [] }) ∷ groups

unfoldable pub find_group : TestsGroups → Bytes → Bool
find_group [] gid = false
find_group ((key, group) ∷ groups) gid =
    (not (str_num_compare gid key) && not (str_num_compare key gid)) || find_group groups gid

-- What stod and the rounding to nanoseconds make of a text that is_real accepts.
pub data TimeLimit : Type 0 where
  not_positive rounds_to_zero : TimeLimit
  nanoseconds : ℕ → TimeLimit

module _ (read_time : Bytes → TimeLimit) where
  -- The end of parse_limits_item, behind the time limit.
  abbrev pub memory_part : Bytes → ℕ → Bytes → Result (Bytes × ℕ × Option ℕ)
  memory_part test_name time_limit sp =
      if is_empty (remove_leading is_space sp)
      then loaded (test_name, time_limit, none)
      else elim (str2num_range (2 ^ 64 - 1) (remove_leading is_space sp) 1 max_mebibytes) [
        | none ↦ throws (invalid_test_memory_limit test_name)
        | some n ↦ loaded (test_name, time_limit, some (mebibytes n))
      ]

  -- A test's name, its time limit and its memory limit, if there is one.
  unfoldable pub parse_limits_item : Bytes → Result (Bytes × ℕ × Option ℕ)
  parse_limits_item item =
      let (test_name, sp₁) = extract_next_non_empty is_space item in
      let (x, sp₂) = extract_next_non_empty is_space sp₁ in
      if not (is_real x) then throws (invalid_time_limit test_name) else elim (read_time x) [
        | not_positive ↦ throws (nonpositive_time_limit test_name)
        | rounds_to_zero ↦ throws (zero_time_limit test_name)
        | nanoseconds tl ↦ memory_part test_name tl sp₂
      ]

  -- `memory_limit = global_mem_limit.value()` where the item has none.
  abbrev pub or_global : Bytes → Option ℕ → Option ℕ → Result ℕ
  or_global test_name (some n) global_mem_limit = loaded n
  or_global test_name none (some n) = loaded n
  or_global test_name none none = throws (missing_memory_limit test_name)

  -- tid == "ocen" belongs to the same group as tests with gid == "0"
  abbrev pub group_id : Bytes × Bytes → Bytes
  group_id (gid, tid) = if str_eq tid (codes "ocen") then codes "0" else gid

  abbrev pub new_test : Bytes → ℕ → ℕ → Test
  new_test name time_limit memory_limit = record {
    name = name;
    input = [];
    output = none;
    time_limit = time_limit;
    memory_limit = memory_limit;
  }

  unfoldable pub limits_loop : Option ℕ → List Bytes → TestsGroups → Result TestsGroups
  unfolding parse_limits_item split
  limits_loop global_mem_limit [] groups = loaded groups
  limits_loop global_mem_limit (str ∷ strs) groups =
      and_then (parse_limits_item str) λ (test_name, time_limit, memory_limit).
        and_then (or_global test_name memory_limit global_mem_limit) λ limit.
          if is_empty (split test_name).0
          then throws (missing_group_id test_name)
          else limits_loop global_mem_limit strs
              (add_test groups (group_id (split test_name)) (new_test test_name time_limit limit))

-- "Calculate scoring automatically": of `total_score`, among `groups_no` groups.
unfoldable pub auto_scores : ℕ → ℕ → TestsGroups → Result TestsGroups
auto_scores total_score groups_no [] = loaded []
auto_scores total_score groups_no ((gid, group) ∷ groups) = elim (str_eq gid (codes "0")) [
  | true ↦ and_then (auto_scores total_score groups_no groups) λ rest. loaded ((gid, group) ∷ rest)
  | false ↦ elim groups_no [
    | zero ↦ throws division_by_zero
    | suc others ↦
        let score = total_score / suc others in
        and_then (auto_scores (total_score - score) others groups)
          λ rest. loaded ((gid, record group { score = pos score }) ∷ rest)
  ]
]

-- `tests_groups.size() - tests_groups.count("0")`
abbrev pub groups_no : TestsGroups → ℕ
groups_no groups = length groups - (if find_group groups (codes "0") then 1 else 0)

-- `std::map<StringView, int64_t>`, whose keys are compared as strings.
unfoldable pub find_score : List (Bytes × ℤ) → Bytes → Option ℤ
find_score [] gid = none
find_score ((key, score) ∷ scores) gid =
    if str_eq key gid then some score else find_score scores gid

unfoldable pub scoring_loop :
    TestsGroups → List Bytes → List (Bytes × ℤ) → Result (List (Bytes × ℤ))
unfolding find_group find_score
scoring_loop groups [] gid_to_score = loaded gid_to_score
scoring_loop groups (str ∷ strs) gid_to_score = and_then (parse_scoring_item str) λ (gid, score).
    if not (find_group groups gid)
    then throws (no_test_of_group gid)
    else elim (find_score gid_to_score gid) [
      | some old ↦ throws (redefined_scoring gid)
      | none ↦ scoring_loop groups strs ((gid, score) ∷ gid_to_score)
    ]

-- "Assign scoring to each group"
unfoldable pub assign_scores : List (Bytes × ℤ) → TestsGroups → Result TestsGroups
unfolding find_score
assign_scores gid_to_score [] = loaded []
assign_scores gid_to_score ((gid, group) ∷ groups) = elim (find_score gid_to_score gid) [
  | none ↦ throws (missing_scoring gid)
  | some score ↦
      and_then (assign_scores gid_to_score groups)
        λ rest. loaded ((gid, record group { score = score }) ∷ rest)
]

unfoldable pub load_scoring : Vars → TestsGroups → Result TestsGroups
unfolding auto_scores scoring_loop assign_scores
load_scoring config groups =
    let scoring = get_var config (codes "scoring") in
    check_if_arr scoring (codes "scoring") (
      if not scoring.set
      then auto_scores 100 (groups_no groups) groups
      else and_then (scoring_loop groups scoring.arr [])
          λ gid_to_score. assign_scores gid_to_score groups)

-- `sort` by TestNameComparator
unfoldable pub insert_test : Test → List Test → List Test
insert_test test [] = test ∷ []
insert_test test (other ∷ tests) =
    if test_name_compare other.name test.name
    then other ∷ insert_test test tests
    else test ∷ other ∷ tests

unfoldable pub sort_tests : List Test → List Test
unfolding insert_test
sort_tests [] = []
sort_tests (test ∷ tests) = insert_test test (sort_tests tests)

abbrev pub sorted_groups : TestsGroups → List TestGroup
sorted_groups [] = []
sorted_groups ((gid, group) ∷ groups) =
    record group { tests = sort_tests group.tests } ∷ sorted_groups groups

-- The global memory limit and the groups.
unfoldable pub load_tests : (Bytes → TimeLimit) → Vars → Result (Option ℕ × List TestGroup)
unfolding limits_loop load_scoring
load_tests read_time config = and_then (load_global_memory_limit_only config) λ global_mem_limit.
    let limits = get_var config (codes "limits") in
    check_if_arr limits (codes "limits") (
      if not limits.set
      then throws (missing (codes "limits"))
      else and_then (limits_loop read_time global_mem_limit limits.arr []) λ groups.
        and_then (load_scoring config groups)
          λ scored. loaded (global_mem_limit, sorted_groups scored))
