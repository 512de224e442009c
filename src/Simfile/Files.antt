-- ===== src/Simfile/Files.antt =====
-- Simfile::load_tests_files, validate_files and dump. Which paths are regular files is the file system's
-- to say, and so a parameter.
use simlib.Common.{
  ℕ, ◌/◌, ◌^◌, ◌&&◌, ◌||◌, not, Bool, true, false, List, [], ◌∷◌, ◌++◌, Bytes, Option, none, some,
  codes, leb, if◌then◌else◌, ◌==◌,
}
use simlib.StringView.Text.{str_eq}
use simlib.Number.{ℤ, to_string, to_string_signed}
use simlib.Path.{is_empty}
use simlib.ConfigFile.{Variable, Vars, get_var}
use simlib.ConfigFile.Escape.{escape_string}
use simlib.Simfile.{
  Error, missing, missing_input, missing_output, excess_output, redefined_test, no_files, Result,
  loaded, throws, and_then, check_if_arr, secured, load_interactive, parse_test_files_item, split,
}
use simlib.Simfile.Groups.{Test, TestGroup}
pub mod Items

-- `std::map<StringView, pair<StringView, StringView>>`
abbrev pub Files : Type 0
Files = List (Bytes × (Bytes × Bytes))

unfoldable pub find_files : Files → Bytes → Option (Bytes × Bytes)
find_files [] name = none
find_files ((key, files) ∷ others) name =
    if str_eq key name then some files else find_files others name

-- `files.emplace(...)` and its check
abbrev pub emplaced : Files → Bytes → Bytes × Bytes → Result Files
emplaced files name pair = elim (find_files files name) [
  | some old ↦ throws (redefined_test name)
  | none ↦ loaded ((name, pair) ∷ files)
]

-- One entry of the array.
unfoldable pub add_files : Bool → Files → Bytes → Result Files
unfolding find_files
add_files interactive files str =
    and_then (parse_test_files_item str) λ (test_name, in_file, out_file).
      if is_empty test_name
      then loaded files
      else if is_empty in_file
      then throws (missing_input test_name)
      else if interactive && not (is_empty out_file)
      then throws (excess_output test_name)
      else if not interactive && is_empty out_file
      then throws (missing_output test_name)
      else emplaced files test_name (in_file, out_file)

unfoldable pub files_loop : Bool → List Bytes → Files → Result Files
unfolding add_files
files_loop interactive [] files = loaded files
files_loop interactive (str ∷ strs) files =
    and_then (add_files interactive files str) λ files'. files_loop interactive strs files'

-- "Assign to each test its files"
unfoldable pub assign_files : Bool → Files → List Test → Result (List Test)
unfolding find_files secured
assign_files interactive files [] = loaded []
assign_files interactive files (test ∷ tests) = elim (find_files files test.name) [
  | none ↦ throws (no_files test.name)
  | some (in_file, out_file) ↦ and_then (assign_files interactive files tests) λ rest. loaded (
      record test {
        input = secured in_file;
        output = if interactive then none else some (secured out_file);
      }
      ∷ rest)
]

unfoldable pub assign_groups : Bool → Files → List TestGroup → Result (List TestGroup)
unfolding assign_files
assign_groups interactive files [] = loaded []
assign_groups interactive files (group ∷ groups) =
    and_then (assign_files interactive files group.tests) λ tests.
      and_then (assign_groups interactive files groups)
        λ rest. loaded (record group { tests = tests } ∷ rest)

-- The flag that load_interactive loads, and the groups.
unfoldable pub load_tests_files : Vars → List TestGroup → Result (Bool × List TestGroup)
unfolding files_loop assign_groups
load_tests_files config tgroups = and_then (load_interactive config) λ interactive.
    let tests_files = get_var config (codes "tests_files") in
    check_if_arr tests_files (codes "tests_files") (
      if not tests_files.set
      then throws (missing (codes "tests_files"))
      else and_then (files_loop interactive tests_files.arr []) λ files.
        and_then (assign_groups interactive files tgroups) λ groups. loaded (interactive, groups))

-- The fields of Simfile, as far as dump writes them.
pub record Simfile : Type 0 where
  pub name : Option Bytes
  pub label : Option Bytes
  pub statement : Option Bytes
  pub interactive : Bool
  pub checker : Option Bytes
  pub solutions : List Bytes
  pub global_mem_limit : Option ℕ
  pub tgroups : List TestGroup

abbrev pub line : Bytes → Bytes
line item = b'\t' ∷ (escape_string item ++ b'\n' ∷ [])

-- `concat(p.gid, ' ', group.score)`
abbrev pub scoring_item : Bytes → ℤ → Bytes
scoring_item gid score = gid ++ b' ' ∷ to_string_signed score

-- The group's id, by its first test.
abbrev pub first_gid : Bytes × Bytes → Bytes
first_gid (gid, tid) = if str_eq tid (codes "ocen") then codes "0" else gid

abbrev pub scoring_line : List Test → ℤ → Bytes
scoring_line [] score = []
scoring_line (test ∷ tests) score = line (scoring_item (first_gid (split test.name)) score)

abbrev pub scoring_lines : List TestGroup → Bytes
scoring_lines [] = []
scoring_lines (group ∷ groups) = scoring_line group.tests group.score ++ scoring_lines groups

unfoldable pub append_scoring_value : Bytes → Simfile → Bytes
append_scoring_value res simfile = res ++ codes "[\n" ++ scoring_lines simfile.tgroups ++ codes "]"

unfoldable pub dump_scoring_value : Simfile → Bytes
unfolding append_scoring_value
dump_scoring_value simfile = append_scoring_value [] simfile

-- `concat(test.name, ' ', test.in)`, with the output file if there is one to be.
abbrev pub out_of : Option Bytes → Bytes
out_of none = []
out_of (some out) = out

abbrev pub files_item : Bool → Test → Bytes
files_item interactive test =
    test.name ++ b' ' ∷ (test.input ++ (if not interactive then b' ' ∷ out_of test.output else []))

abbrev pub files_lines : Bool → List Test → Bytes
files_lines interactive [] = []
files_lines interactive (test ∷ tests) =
    (if not (is_empty test.input) && (interactive || not (is_empty (out_of test.output)))
      then line (files_item interactive test)
      else [])
    ++ files_lines interactive tests

-- `checker->empty() or not is_regular_file(...)`
abbrev pub valid_checker : (Bytes → Bool) → Bytes → Option Bytes → Bool
valid_checker is_regular_file package_path none = true
valid_checker is_regular_file package_path (some checker) =
    not (is_empty checker || not (is_regular_file (package_path ++ b'/' ∷ checker)))

abbrev pub valid_file : (Bytes → Bool) → Bytes → Option Bytes → Bool
valid_file is_regular_file package_path none = true
valid_file is_regular_file package_path (some path) = is_regular_file (package_path ++ b'/' ∷ path)

unfoldable pub valid_solutions : (Bytes → Bool) → Bytes → List Bytes → Bool
valid_solutions is_regular_file package_path [] = true
valid_solutions is_regular_file package_path (str ∷ strs) =
    if not (is_regular_file (package_path ++ b'/' ∷ str))
    then false
    else valid_solutions is_regular_file package_path strs

unfoldable pub valid_tests : (Bytes → Bool) → Bytes → List Test → Bool
valid_tests is_regular_file package_path [] = true
valid_tests is_regular_file package_path (test ∷ tests) =
    if not (is_regular_file (package_path ++ b'/' ∷ test.input))
    then false
    else if not (valid_file is_regular_file package_path test.output)
    then false
    else valid_tests is_regular_file package_path tests

unfoldable pub valid_groups : (Bytes → Bool) → Bytes → List TestGroup → Bool
unfolding valid_tests
valid_groups is_regular_file package_path [] = true
valid_groups is_regular_file package_path (group ∷ groups) =
    valid_tests is_regular_file package_path group.tests
    && valid_groups is_regular_file package_path groups

-- validate_files: false where it throws.
unfoldable pub validate_files : (Bytes → Bool) → Bytes → Simfile → Bool
unfolding valid_solutions valid_groups
validate_files is_regular_file package_path simfile =
    if not (valid_checker is_regular_file package_path simfile.checker)
    then false
    else if not (valid_file is_regular_file package_path simfile.statement)
    then false
    else if not (valid_solutions is_regular_file package_path simfile.solutions)
    then false
    else valid_groups is_regular_file package_path simfile.tgroups
