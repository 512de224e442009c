-- ===== src/Tests/Judging.antt =====
-- The output of a checker, at small texts.
use simlib.Common.{ℕ, ◌≡◌, refl, true, some, none, Option, List, [], ◌∷◌, ◌++◌, Bytes, codes, arith}
use simlib.Ctype.{is_space}
use simlib.StringView.Text.{compare_views}
use simlib.Checker.{
  Pread, bytes, end_of_file, interrupted, output, obtain_checker_output, ExitStat, Options, error,
  exit_to_checker_status, output_to_checker_status,
}
use simlib.Checker.Obtained.{
  Reads, at_end, again, some_more, IsOutput, obtain_checker_output-expected,
}
use simlib.Checker.Verdicts.{ReadsLines, exit_to_checker_status-lines}

abbrev chunks : List Pread
chunks = bytes (codes "OK") ∷ interrupted ∷ bytes (codes " ") ∷ end_of_file ∷ []

obtained : obtain_checker_output 8 chunks ≡ output (codes "OK")
unfolding obtain_checker_output is_space
obtained = refl

obtained_cut : obtain_checker_output 5 (bytes (codes "WRONG") ∷ []) ≡ output (codes "WR...")
unfolding obtain_checker_output
obtained_cut = refl

chunks-Reads : Reads (codes "OK ") 8 chunks
chunks-Reads =
    some_more (codes "OK") (codes " ") 8 (interrupted ∷ bytes (codes " ") ∷ end_of_file ∷ [])
      (omega arith)
      (again (codes " ") 6 (bytes (codes " ") ∷ end_of_file ∷ [])
        (some_more (codes " ") [] 6 (end_of_file ∷ []) (omega arith) (at_end 5 [])))

obtain_checker_output-expected_example :
    (result : Bytes) × (obtain_checker_output 8 chunks ≡ output result)
    × IsOutput 8 (codes "OK ") result
obtain_checker_output-expected_example =
    obtain_checker_output-expected 8 (codes "OK ") chunks chunks-Reads

abbrev percent : Bytes → Option ℕ
percent s = some 50

abbrev exited : ExitStat
exited = record { exited_with_0 = true; runtime = 0; vm_peak = 0; message = [] }

abbrev no_limits : Options
no_limits = record { real_time_limit = none; memory_limit = none }

-- An invalid second line is passed over behind "WRONG", and behind "OK" the error is told of the first.
invalid_line2 :
    output_to_checker_status ℕ 0 100 percent
      (codes "checker")
      (codes "OK" ++ 10 ∷ (codes "x" ++ 10 ∷ []))
    ≡ record {
      status = error;
      ratio = 0;
      message =
          codes "First line of the checker is invalid: `OK` - it has to be either `OK` or `WRONG`";
    }
unfolding output_to_checker_status compare_views
invalid_line2 = refl

exit_to_checker_status-lines_example :
    ReadsLines ℕ 0 100 percent (codes "OK") (codes "50") (codes "fine") (
      exit_to_checker_status ℕ 0 100 percent exited no_limits
        (codes "checker")
        (codes "OK" ++ 10 ∷ (codes "50" ++ 10 ∷ codes "fine")))
exit_to_checker_status-lines_example =
    exit_to_checker_status-lines ℕ 0 100 percent exited no_limits (codes "checker") (codes "OK")
      (codes "50") (codes "fine") refl refl refl
