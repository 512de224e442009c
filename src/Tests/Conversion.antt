-- ===== src/Tests/Conversion.antt =====
-- The conversion of a small package.
use simlib.Common.{
  ℕ, ◌++◌, none, not, ◌&&◌, ◌⊎◌, Option, Bool, ◌≡◌, refl, true, false, some, none, List, [], ◌∷◌,
  Bytes, codes, All, arith,
}
use simlib.ConfigFile.{Vars, null_var, get_var}
use simlib.Ctype.{is_space}
use simlib.SimpleParser.{extract_next_non_empty}
use simlib.Number.{pos, to_string, str2num_unsigned}
use simlib.StringTraits.{has_prefix, is_digit_str}
use simlib.StringView.Text.{str_eq, remove_leading}
use simlib.StringCompare.{is_digit_not_greater_than, str_num_compare}
use simlib.Simfile.{throws, missing_memory_limit, load_global_memory_limit_only, loaded}
use simlib.Simfile.Groups.{TimeLimit, nanoseconds}
use simlib.Package.{
  exists, PackageContents, empty_contents, load_from_zip, add_entry, main_dir, remove_with_prefix,
}
use simlib.Package.Spans.{IsValid}
use simlib.Package.Zip.{empty-IsValid, load_from_zip-exists}
use simlib.Conver.{
  items_of, TestProperties, no_properties, Tests, searched, found_tests, memory_limits,
  test_name_of, try_emplace,
}
use simlib.Conver.Complete.{IsComplete}
use simlib.Conver.Loaded.{AnyReadsNoValue}
use simlib.Conver.Found.{found_tests-IsComplete}
use simlib.Conver.Memory.{Limited, in_options, IsGlobal, GetsLimit, HasOwn, memory_limits-Limited}
use simlib.Conver.Scores.{Groups, scored, fill_groups}
use simlib.Conver.Shares.{total, sharing, shared_total, AllScored, SameTests, scored-shared_total}
use simlib.Conver.Divided.{with_id, in_groups, GroupsAll, fill_groups-in_groups}

abbrev archive : List Bytes
archive =
    codes "p/" ∷ codes "p/1a.in" ∷ codes "p/1a.out" ∷ codes "p/2.in" ∷ codes "p/utils/3.in" ∷ []

abbrev problem : PackageContents
problem =
    add_entry
      (add_entry
        (add_entry (add_entry (add_entry empty_contents (codes "p/")) (codes "p/1a.in"))
          (codes "p/1a.out"))
        (codes "p/2.in"))
      (codes "p/utils/3.in")

archive_loads : load_from_zip archive empty_contents ≡ some problem
unfolding load_from_zip has_prefix
archive_loads = refl

problem-IsValid : IsValid problem
problem-IsValid =
    (load_from_zip-exists archive empty_contents problem empty-IsValid archive_loads).0

abbrev half_second : Bytes → TimeLimit
half_second x = nanoseconds 500000000

abbrev one_test : Tests
one_test =
    (
      codes "1a",
      record no_properties { input = some (codes "1a.in"); output = some (codes "1a.out") },
    )
    ∷ []

name_of : test_name_of (codes "tests/a.b/1a.in") ≡ codes "1a"
unfolding test_name_of
name_of = refl

-- The test without an output file is removed, and "utils/" is not searched.
found :
    found_tests half_second false true false [] (searched problem (codes "p/")) (codes "p/")
    ≡ some one_test
unfolding found_tests add_entry get_var remove_with_prefix has_prefix try_emplace
found = refl

abbrev in_problem : PackageContents
in_problem = searched problem (main_dir problem)

found_tests-IsComplete_example :
    let found = found_tests half_second false true false [] in_problem (main_dir problem) in
    (((tests : Tests) × (found ≡ some tests)
        × All (λ t. IsComplete in_problem (main_dir problem) true false t.1) tests)
      ⊎ ((found ≡ none)
          × AnyReadsNoValue in_problem
              (main_dir problem)
              true
              false
              (items_of false [] (codes "tests_files"))))
    × (AnyReadsNoValue in_problem
          (main_dir problem)
          true
          false
          (items_of false [] (codes "tests_files"))
        → found ≡ none)
    × ((path : Bytes)
        → exists in_problem path ≡ (
            not (has_prefix path (main_dir problem ++ codes "checker/"))
            && (not (has_prefix path (main_dir problem ++ codes "check/"))
                && (not (has_prefix path (main_dir problem ++ codes "utils/"))
                    && exists problem path))))
found_tests-IsComplete_example =
    found_tests-IsComplete problem problem-IsValid half_second false true false []

-- An interactive problem with an output file for an input file that is not there.
abbrev of_missing_input : Vars
of_missing_input =
    (
      codes "tests_files",
      record null_var { set = true; array = true; arr = codes "9 9.in 9.out" ∷ [] },
    )
    ∷ []

no_value :
    found_tests half_second false true true of_missing_input
      (searched problem (codes "p/"))
      (codes "p/")
    ≡ none
unfolding found_tests add_entry get_var remove_with_prefix has_prefix try_emplace str_eq
    remove_leading extract_next_non_empty is_space
no_value = refl

abbrev config : Vars
config = (codes "memory_limit", record null_var { set = true; str = codes "64" }) ∷ []

abbrev limited : Tests
limited =
    (
      codes "1a",
      record no_properties {
        input = some (codes "1a.in");
        output = some (codes "1a.out");
        memory_limit = some 67108864;
      },
    )
    ∷ []

limits : memory_limits none false config one_test ≡ loaded (some 67108864, limited)
unfolding memory_limits get_var str_eq is_digit_not_greater_than is_digit_str str_num_compare
    remove_leading to_string str2num_unsigned
limits = refl

memory_limits-Limited_example :
    ((ignore_simfile : Bool) (g : Option ℕ) (tests' : Tests)
      → memory_limits none ignore_simfile config one_test ≡ loaded (g, tests')
      → IsGlobal none config g × Limited (in_options none) g one_test tests')
    × ((mebibytes : ℕ) (ignore_simfile : Bool)
        → (loads : Option ℕ × Tests) × (memory_limits
              (some mebibytes)
              ignore_simfile
              config
              one_test
            ≡ loaded loads))
    × ((g : Option ℕ)
        → load_global_memory_limit_only config ≡ loaded g
        → All (GetsLimit g) one_test
        → (tests' : Tests) × (memory_limits none false config one_test ≡ loaded (g, tests')))
    × ((before : Tests) (name : Bytes) (test : TestProperties) (after : Tests)
        → load_global_memory_limit_only config ≡ loaded none
        → one_test ≡ before ++ (name, test) ∷ after
        → All HasOwn before
        → test.memory_limit ≡ none
        → memory_limits none false config one_test ≡ throws (missing_memory_limit name))
memory_limits-Limited_example = memory_limits-Limited none config one_test

no_limit : memory_limits none false [] one_test ≡ throws (missing_memory_limit (codes "1a"))
unfolding memory_limits get_var
no_limit = refl

abbrev groups : Groups
groups =
    (codes "0", record { score = none; tests = one_test })
    ∷ (codes "1", record { score = none; tests = [] })
    ∷ (codes "2", record { score = some (pos 30); tests = [] })
    ∷ (codes "3", record { score = none; tests = [] })
    ∷ []

shares :
    scored groups
    ≡ some (
        (codes "0", record { score = some (pos 0); tests = one_test })
        ∷ (codes "1", record { score = some (pos 35); tests = [] })
        ∷ (codes "2", record { score = some (pos 30); tests = [] })
        ∷ (codes "3", record { score = some (pos 35); tests = [] })
        ∷ [])
unfolding scored remove_leading
shares = refl

scored-shared_total_example :
    (result : Groups) × (scored groups ≡ some result)
    × AllScored result
    × SameTests groups result
    × (total result ≡ shared_total (sharing groups) (total groups))
scored-shared_total_example = scored-shared_total groups (omega arith)

abbrev IsGiven : Bytes × TestProperties → Type 0
IsGiven t =
    t.1 ≡ record no_properties { input = some (codes "1a.in"); output = some (codes "1a.out") }

fill_groups-in_groups_example :
    (in_groups (fill_groups one_test []) ≡ with_id one_test)
    × GroupsAll IsGiven (fill_groups one_test [])
fill_groups-in_groups_example = fill_groups-in_groups IsGiven one_test (refl, tt)
