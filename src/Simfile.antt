-- ===== src/Simfile.antt =====
-- The Simfile of a problem package (src/sim/simfile.cc, include/simlib/sim/simfile.hh): the fields that
-- are single variables, and the items of its arrays.
use simlib.Common.{
  ℕ, zero, suc, ◌+◌, ◌-◌, ◌*◌, ◌/◌, ◌^◌, ◌&&◌, ◌||◌, not, Bool, true, false, List, [], ◌∷◌, ◌++◌,
  Bytes, Option, none, some, codes, drop, ltb, leb, if◌then◌else◌,
}
use simlib.Ctype.{is_alpha, is_digit, is_space}
use simlib.StringView.Text.{extract_trailing, remove_leading, str_eq, str_lt}
use simlib.StringTraits.{is_digit_str}
use simlib.StringCompare.{str_num_compare, is_digit_not_greater_than, is_zero}
use simlib.Number.{ℤ, str2num_signed, str2num_unsigned}
use simlib.SimpleParser.{extract_next_non_empty}
use simlib.Path.{slash, is_empty, path_absolute}
use simlib.ConfigFile.{Variable, Vars, get_var, as_bool}
pub mod Fields
pub mod Groups
pub mod Files

-- The messages of std::runtime_error, with the texts they quote; and the division by zero of the
-- automatic scoring, which is no exception: its assertion fails, or without assertions it is undefined.
pub data Error : Type 0 where
  has_to_be_array cannot_be_array missing cannot_be_empty : Bytes → Error
  checker_is_not_set invalid_memory_limit too_big_memory_limit : Error
  invalid_group redefined_scoring missing_scoring no_test_of_group : Bytes → Error
  invalid_scoring : Bytes → Bytes → Error
  excess_part : Bytes → Bytes → Error
  missing_memory_limit missing_group_id invalid_time_limit nonpositive_time_limit : Bytes → Error
  zero_time_limit invalid_test_memory_limit : Bytes → Error
  division_by_zero : Error
  missing_input missing_output excess_output redefined_test no_files : Bytes → Error

pub data Result {ℓ} (A : Type ℓ) : Type ℓ where
  loaded : A → Result A
  throws : Error → Result A

abbrev pub and_then {ℓ κ} : {A : Type ℓ} {B : Type κ} → Result A → (A → Result B) → Result B
and_then (loaded a) f = f a
and_then (throws e) f = throws e

-- CHECK_IF_ARR and CHECK_IF_NOT_ARR
abbrev pub check_if_arr {ℓ} : {A : Type ℓ} → Variable → Bytes → Result A → Result A
check_if_arr var name rest =
    if not var.array && var.set then throws (has_to_be_array name) else rest

abbrev pub check_if_not_arr {ℓ} : {A : Type ℓ} → Variable → Bytes → Result A → Result A
check_if_not_arr var name rest = if var.array then throws (cannot_be_array name) else rest

-- `path_absolute(path).erase(0, 1)`
unfoldable pub secured : Bytes → Bytes
secured path = drop 1 (path_absolute path slash)

unfoldable pub load_name : Vars → Result Bytes
load_name config =
    let var = get_var config (codes "name") in
    check_if_not_arr var (codes "name")
      (if not var.set then throws (missing (codes "name")) else loaded var.str)

unfoldable pub load_label : Vars → Result Bytes
load_label config =
    let var = get_var config (codes "label") in
    check_if_not_arr var (codes "label")
      (if not var.set then throws (missing (codes "label")) else loaded var.str)

-- The message names `label`, as in the source.
unfoldable pub load_interactive : Vars → Result Bool
load_interactive config =
    let var = get_var config (codes "interactive") in
    check_if_not_arr var (codes "label")
      (if is_empty var.str then loaded false else loaded (as_bool var))

-- The flag that load_interactive loads, and the checker, none for the default one.
unfoldable pub load_checker : Vars → Result (Bool × Option Bytes)
unfolding load_interactive secured
load_checker config = and_then (load_interactive config) λ interactive.
    let var = get_var config (codes "checker") in
    check_if_not_arr var (codes "checker") (
      if not var.set || is_empty var.str
      then (if interactive then throws checker_is_not_set else loaded (interactive, none))
      else loaded (interactive, some (secured var.str)))

unfoldable pub load_statement : Vars → Result Bytes
unfolding secured
load_statement config =
    let var = get_var config (codes "statement") in
    check_if_not_arr var (codes "statement") (
      if not var.set
      then throws (missing (codes "statement"))
      else if is_empty var.str
      then throws (cannot_be_empty (codes "statement"))
      else loaded (secured var.str))

abbrev pub secured_all : List Bytes → List Bytes
secured_all [] = []
secured_all (path ∷ paths) = secured path ∷ secured_all paths

unfoldable pub load_solutions : Vars → Result (List Bytes)
unfolding secured
load_solutions config =
    let var = get_var config (codes "solutions") in
    check_if_arr var (codes "solutions") (elim var.arr [
      | [] ↦ throws (missing (codes "solutions"))
      | path ∷ paths ↦ loaded (secured_all (path ∷ paths))
    ])

-- `std::numeric_limits<uint64_t>::max() >> 20`
abbrev pub max_mebibytes : ℕ
max_mebibytes = 2 ^ 44 - 1

-- `<< 20`, of a number that was tested to stay below 2 ^ 64
abbrev pub mebibytes : ℕ → ℕ
mebibytes n = n * 2 ^ 20

-- The `value()` of a string of digits in range, which is there.
abbrev pub in_bytes : Option ℕ → Result (Option ℕ)
in_bytes none = throws invalid_memory_limit
in_bytes (some n) =
    if leb (mebibytes n) 0 then throws invalid_memory_limit else loaded (some (mebibytes n))

unfoldable pub load_global_memory_limit_only : Vars → Result (Option ℕ)
load_global_memory_limit_only config =
    let ml = get_var config (codes "memory_limit") in
    check_if_not_arr ml (codes "memory_limit") (
      if ml.set
      then (if not (is_digit_not_greater_than max_mebibytes ml.str)
          then (if not (is_digit_str ml.str)
              then throws invalid_memory_limit
              else throws too_big_memory_limit)
          else in_bytes (str2num_unsigned (2 ^ 64 - 1) ml.str))
      else loaded none)

-- A group id and the score of the group.
unfoldable pub parse_scoring_item : Bytes → Result (Bytes × ℤ)
parse_scoring_item item =
    let (gid, sp) = extract_next_non_empty is_space item in
    if not (is_digit_str gid)
    then throws (invalid_group gid)
    else elim (str2num_signed (2 ^ 63 - 1) (remove_leading is_space sp)) [
      | none ↦ throws (invalid_scoring gid (remove_leading is_space sp))
      | some score ↦ loaded (gid, score)
    ]

-- A test's name, its input file and its output file.
unfoldable pub parse_test_files_item : Bytes → Result (Bytes × Bytes × Bytes)
parse_test_files_item item =
    let (name, sp₁) = extract_next_non_empty is_space item in
    let (input, sp₂) = extract_next_non_empty is_space sp₁ in
    let (output, sp₃) = extract_next_non_empty is_space sp₂ in
    if not (is_empty (remove_leading is_space sp₃))
    then throws (excess_part name (remove_leading is_space sp₃))
    else loaded (name, input, output)

-- TestNameComparator::split: the group id and the test id.
unfoldable pub split : Bytes → Bytes × Bytes
split test_name =
    let (tid, front) = extract_trailing is_alpha test_name in
    let (gid, front') = extract_trailing is_digit front in (gid, tid)

-- TestNameComparator::operator()
unfoldable pub test_name_compare : Bytes → Bytes → Bool
unfolding split
test_name_compare a b =
    let (xgid, xtid) = split a in
    let (ygid, ytid) = split b in
    if str_eq xtid (codes "ocen")
    then (if str_eq ytid (codes "ocen")
        then str_num_compare xgid ygid
        else not (is_empty (remove_leading is_zero ygid)))
    else if str_eq ytid (codes "ocen")
    then is_empty (remove_leading is_zero xgid)
    else if str_eq xgid ygid
    then str_lt xtid ytid
    else str_num_compare xgid ygid
