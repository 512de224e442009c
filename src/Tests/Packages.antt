-- ===== src/Tests/Packages.antt =====
-- Simfiles, at small configurations.
use simlib.Common.{Bytes, ◌*◌, All, ◌^◌, ◌<◌, ◌≡◌, refl, true, none, [], ◌∷◌, codes, arith}
use simlib.Ctype.{is_space, is_digit, is_alpha}
use simlib.StringView.Text.{str_eq, extract_trailing, trailing_from}
use simlib.StringTraits.{is_real}
use simlib.SimpleParser.{extract_next_non_empty}
use simlib.Number.{str2num_range, pos, negsuc}
use simlib.ConfigFile.{Vars, find_var, get_var, null_var}
use simlib.Simfile.{
  loaded, throws, division_by_zero, parse_scoring_item, parse_test_files_item, split,
}
use simlib.Simfile.Groups.{
  TestsGroups, TestGroup, TimeLimit, nanoseconds, groups_no, load_scoring, limits_loop, add_test,
}
use simlib.Simfile.Groups.Ordered.{Ordered, IsGroup, limits_loop-Ordered}
use simlib.Simfile.Groups.Scoring.{counted, paid, unscored, to_pay, load_scoring-auto}
use simlib.Simfile.Files.{scoring_item}
use simlib.Simfile.Files.Items.{parse_scoring_item-scoring_item, parse_test_files_item-files}

split_of : split (codes "test1abc") ≡ (codes "1", codes "abc")
unfolding split extract_trailing trailing_from is_alpha is_digit
split_of = refl

abbrev limited : Vars
limited = (codes "memory_limit", record null_var { set = true; str = codes "64" }) ∷ []

abbrev empty_group : TestGroup
empty_group = record { tests = []; score = pos 0 }

abbrev two_groups : TestsGroups
two_groups = (codes "00", empty_group) ∷ (codes "1", empty_group) ∷ []

load_scoring-auto_example :
    (counted two_groups ≡ groups_no two_groups
      → (result : TestsGroups) × (load_scoring limited two_groups ≡ loaded result)
        × (paid result ≡ to_pay 100 (groups_no two_groups))
        × (unscored result ≡ unscored two_groups))
    × (groups_no two_groups < counted two_groups
        → load_scoring limited two_groups ≡ throws division_by_zero)
load_scoring-auto_example =
    load_scoring-auto limited two_groups (unfold get_var find_var str_eq in refl)

parse_scoring_item-scoring_item_example :
    parse_scoring_item (scoring_item (codes "12") (negsuc 4)) ≡ loaded (codes "12", negsuc 4)
parse_scoring_item-scoring_item_example =
    parse_scoring_item-scoring_item (codes "12") (negsuc 4) (λ e. cc) (unfold is_digit in refl)
      (omega arith)

parse_test_files_item-files_example :
    (parse_test_files_item (codes "sim1a in/1 out/1")
      ≡ loaded (codes "sim1a", codes "in/1", codes "out/1"))
    × (parse_test_files_item (codes "sim1a in/1") ≡ loaded (codes "sim1a", codes "in/1", []))
parse_test_files_item-files_example =
    parse_test_files_item-files (codes "sim1a") (codes "in/1") (codes "out/1")
      (λ e. cc, unfold is_space in refl) (λ e. cc, unfold is_space in refl)
      (λ e. cc, unfold is_space in refl)

abbrev half_second : Bytes → TimeLimit
half_second x = nanoseconds 500000000

abbrev one_test : TestsGroups
one_test =
    (
      codes "1",
      record {
        tests =
            record {
              name = codes "sim1a";
              input = [];
              output = none;
              time_limit = 500000000;
              memory_limit = 64 * 2 ^ 20;
            }
            ∷ [];
        score = pos 0;
      },
    )
    ∷ []

one_item : limits_loop half_second none (codes "sim1a 0.5 64" ∷ []) [] ≡ loaded one_test
unfolding limits_loop is_real extract_next_non_empty is_space str2num_range extract_trailing
    is_alpha add_test str_eq
one_item = refl

limits_loop-Ordered_example : Ordered one_test × All (IsGroup half_second) one_test
limits_loop-Ordered_example =
    limits_loop-Ordered half_second none (codes "sim1a 0.5 64" ∷ []) [] one_test tt tt one_item
