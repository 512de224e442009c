-- ===== src/Conver.antt =====
-- Conver::construct_simfile of src/sim/conver.cc (include/simlib/sim/conver.hh): the tests of a package,
-- from the Simfile's arrays and from the files that are there. What report_ collects is left out.
pub mod Scores
pub mod Items
pub mod Complete
pub mod Loaded
pub mod Found
pub mod Memory
pub mod Shares
pub mod Divided
pub mod Limits
pub mod Reset
use simlib.Common.{
  ℕ, ◌+◌, ◌*◌, ◌%◌, ◌^◌, Bool, true, false, not, ◌&&◌, ◌||◌, List, [], ◌∷◌, ◌++◌, Bytes, Option,
  none, some, codes, ◌==◌, if◌then◌else◌, take, drop, length,
}
use simlib.StringView.Text.{extract_trailing, rfind, str_eq, str_lt}
use simlib.StringTraits.{has_suffix}
use simlib.ConfigFile.{Vars, get_var}
use simlib.Path.{is_empty}
use simlib.Simfile.{
  Result, loaded, throws, and_then, missing, missing_memory_limit, parse_test_files_item, split,
  load_global_memory_limit_only,
}
use simlib.Simfile.Groups.{TimeLimit, parse_limits_item}
use simlib.Package.{PackageContents, exists, for_each_with_prefix, remove_with_prefix}

pub record TestProperties : Type 0 where
  pub input : Option Bytes
  pub output : Option Bytes
  pub time_limit : Option ℕ
  pub memory_limit : Option ℕ

abbrev pub no_properties : TestProperties
no_properties = record { input = none; output = none; time_limit = none; memory_limit = none }

-- `std::map<StringView, TestProperties>`, in the order of the names.
abbrev pub Tests : Type 0
Tests = List (Bytes × TestProperties)

unfoldable pub find_test : Tests → Bytes → Option TestProperties
unfolding str_eq
find_test [] name = none
find_test ((key, test) ∷ tests) name =
    let rest = find_test tests name in if str_eq key name then some test else rest

-- `insert_or_assign`, and a write to the test of a name.
unfoldable pub put_test : Tests → Bytes → TestProperties → Tests
unfolding str_eq str_lt
put_test [] name test = (name, test) ∷ []
put_test ((key, old) ∷ tests) name test =
    let rest = put_test tests name test in
    if str_eq key name
    then (key, test) ∷ tests
    else if str_lt name key
    then (name, test) ∷ (key, old) ∷ tests
    else (key, old) ∷ rest

unfoldable pub try_emplace : Tests → Bytes → Tests
unfolding find_test put_test
try_emplace tests name = elim (find_test tests name) [
  | none ↦ put_test tests name no_properties
  | some _ ↦ tests
]

-- "Load tests and limits form variable `limits`": an item that cannot be read, or whose test has no
-- group id, is passed over.
unfoldable pub load_limits : (Bytes → TimeLimit) → List Bytes → Tests → Tests
unfolding parse_limits_item split put_test
load_limits read_time [] tests = tests
load_limits read_time (str ∷ strs) tests = elim (parse_limits_item read_time str) [
  | throws _ ↦ load_limits read_time strs tests
  | loaded (test_name, time_limit, memory_limit) ↦ load_limits read_time strs (
      if is_empty (split test_name).0
      then tests
      else put_test tests test_name
          (record no_properties { time_limit = some time_limit; memory_limit = memory_limit }))
]

-- `path.substr(0, path.rfind('.')).extract_trailing([](char c) { return c != '/'; })`
unfoldable pub test_name_of : Bytes → Bytes
unfolding rfind extract_trailing
test_name_of path = elim (rfind path b'.' 0) [
  | none ↦ (extract_trailing (λ c. not (c == b'/')) path).0
  | some dot ↦ (extract_trailing (λ c. not (c == b'/')) (take dot path)).0
]

module _ (seek_for_new_tests interactive : Bool) where
  abbrev pub with_new : Tests → Bytes → Tests
  with_new tests name = if seek_for_new_tests then try_emplace tests name else tests

  -- "Match test file with the test", for a path without the main directory.
  unfoldable pub match_file : Bytes → Tests → Tests
  unfolding test_name_of find_test put_test has_suffix
  match_file path tests =
      if not (has_suffix path (codes ".in") || (has_suffix path (codes ".out") && not interactive))
      then tests
      else let test_name = test_name_of path in
        let tests' = with_new tests test_name in
        elim (find_test tests' test_name) [
          | none ↦ tests'
          | some test ↦ put_test tests' test_name (
              if has_suffix path (codes ".in")
              then record test { input = some path }
              else record test { output = some path })
        ]

  -- "Process test files found in the package", which all lie in the main directory.
  unfoldable pub match_files : Bytes → List Bytes → Tests → Tests
  unfolding match_file
  match_files main_dir [] tests = tests
  match_files main_dir (path ∷ paths) tests =
      match_files main_dir paths (match_file (drop (length main_dir) path) tests)

  module _ (pc : PackageContents) (main_dir : Bytes) where
    abbrev pub found_input : Bytes → Option Bytes
    found_input input = if exists pc (main_dir ++ input) then some input else none

    abbrev pub found_output : Bytes → Option Bytes
    found_output output =
        if interactive || is_empty output
        then none
        else if exists pc (main_dir ++ output)
        then some output
        else none

    abbrev pub or_old : Option Bytes → Option Bytes → Option Bytes
    or_old (some file) old = some file
    or_old none old = old

    -- `input.value()` in the report of an output file that an interactive problem has no use for, where
    -- the input file was not found.
    abbrev pub reads_no_value : Bytes → Bytes → Bool
    reads_no_value input output =
        interactive
        && not (is_empty output)
        && elim (found_input input) [ none ↦ true | some _ ↦ false ]

    -- An item of `tests_files` with a name and an input file. `none` is std::bad_optional_access.
    unfoldable pub set_files : Bytes → Bytes → Bytes → Tests → Option Tests
    unfolding find_test put_test exists
    set_files test_name input output tests =
        let tests' = with_new tests test_name in
        if reads_no_value input output
        then none
        else some (elim (find_test tests' test_name) [
          | none ↦ tests'
          | some test ↦ put_test tests' test_name (record test {
            input = or_old (found_input input) test.input;
            output = or_old (found_output output) test.output;
          })
        ])

    -- "Load test files". `none` is the exception of an item, or the failure of throw_assert.
    unfoldable pub load_files : List Bytes → Tests → Option Tests
    unfolding set_files parse_test_files_item
    load_files [] tests = some tests
    load_files (str ∷ strs) tests = elim (parse_test_files_item str) [
      | throws _ ↦ load_files strs tests
      | loaded (test_name, input, output) ↦
          let passed = load_files strs tests in
          let taken : Option Tests = elim (set_files test_name input output tests) [
            | none ↦ none
            | some tests' ↦ load_files strs tests'
          ] in
          if is_empty test_name
          then passed
          else if is_empty input
          then (if is_empty output then passed else none)
          else taken
    ]

module _ (interactive : Bool) where
  -- "Remove tests that have at most one file set"
  abbrev pub is_complete : TestProperties → Bool
  is_complete test = elim test.input [
    | none ↦ false
    | some _ ↦ interactive || elim test.output [ none ↦ false | some _ ↦ true ]
  ]

  unfoldable pub filter_complete : Tests → Tests
  filter_complete [] = []
  filter_complete ((name, test) ∷ tests) =
      let rest = filter_complete tests in if is_complete test then (name, test) ∷ rest else rest

-- "Update the memory limits": the option is in MiB and holds for every test; without it a test that
-- has no limit takes the global one.
abbrev pub with_memory : ℕ → Tests → Tests
with_memory limit [] = []
with_memory limit ((name, test) ∷ tests) =
    (name, record test { memory_limit = some limit }) ∷ with_memory limit tests

abbrev pub own_or_global : Option ℕ → Option ℕ → Option ℕ
own_or_global (some own) global_mem_limit = some own
own_or_global none global_mem_limit = global_mem_limit

-- The write of the limit that a test has already changes nothing.
unfoldable pub fill_memory : Option ℕ → Tests → Result Tests
fill_memory global_mem_limit [] = loaded []
fill_memory global_mem_limit ((name, test) ∷ tests) =
    elim (own_or_global test.memory_limit global_mem_limit) [
      | none ↦ throws (missing_memory_limit name)
      | some limit ↦
          and_then (fill_memory global_mem_limit tests)
            λ rest. loaded ((name, record test { memory_limit = some limit }) ∷ rest)
    ]

-- The global memory limit and the tests. That no limit is in the options and the Simfile is ignored
-- is an error of its own, told by the variable's name.
unfoldable pub memory_limits : Option ℕ → Bool → Vars → Tests → Result (Option ℕ × Tests)
unfolding fill_memory load_global_memory_limit_only
memory_limits memory_limit ignore_simfile config tests = elim memory_limit [
  | some mebibytes ↦
      let bytes = mebibytes * 2 ^ 20 % 2 ^ 64 in loaded (some bytes, with_memory bytes tests)
  | none ↦
      if ignore_simfile
      then throws (missing (codes "memory_limit"))
      else and_then (load_global_memory_limit_only config) λ global_mem_limit.
        and_then (fill_memory global_mem_limit tests) λ filled. loaded (global_mem_limit, filled)
]

-- The contents in which the tests are searched: without "utils/", "check/" and "checker/".
abbrev pub searched : PackageContents → Bytes → PackageContents
searched pc main_dir =
    remove_with_prefix
      (remove_with_prefix (remove_with_prefix pc (main_dir ++ codes "utils/"))
        (main_dir ++ codes "check/"))
      (main_dir ++ codes "checker/")

-- A variable that is an array and not to be ignored.
abbrev pub items_of : Bool → Vars → Bytes → List Bytes
items_of ignore_simfile config name =
    let var = get_var config name in
    if not ignore_simfile && (var.set && var.array) then var.arr else []

-- The tests of construct_simfile, up to the removal of those that miss a file.
unfoldable pub found_tests :
    (Bytes → TimeLimit) → Bool → Bool → Bool → Vars → PackageContents → Bytes → Option Tests
unfolding load_limits match_files load_files filter_complete for_each_with_prefix
found_tests read_time ignore_simfile seek_for_new_tests interactive config pc main_dir =
    let limited = load_limits read_time (items_of ignore_simfile config (codes "limits")) [] in
    let matched =
      match_files seek_for_new_tests interactive main_dir (for_each_with_prefix pc []) limited in
    elim (load_files seek_for_new_tests interactive pc main_dir
      (items_of ignore_simfile config (codes "tests_files")) matched) [
        | none ↦ none
        | some tests ↦ some (filter_complete interactive tests)
      ]
