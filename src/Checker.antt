-- ===== src/Checker.antt =====
-- The output of a checker: obtain_checker_output of src/sim/checker.cc and exit_to_checker_status of
-- src/sim/judge_worker.cc.
pub mod Obtained
pub mod Percentage
pub mod Verdicts
use simlib.Common.{
  ℕ, ◌+◌, ◌-◌, Bool, true, false, not, ◌&&◌, ◌||◌, List, [], ◌∷◌, ◌++◌, Bytes, Option, none, some,
  codes, ltb, leb, ◌==◌, if◌then◌else◌, take, drop, length,
}
use simlib.Ctype.{is_space}
use simlib.StringView.Text.{str_eq, remove_trailing}
use simlib.StringTraits.{is_real, has_prefix}
use simlib.SimpleParser.{extract_next}
use simlib.Path.{is_empty}

-- What a call of pread gives: some bytes (k > 0), the end of the file, EINTR, or another error.
pub data Pread : Type 0 where
  bytes : Bytes → Pread
  end_of_file interrupted failed : Pread

-- `pending` is that the calls so far do not end the loop.
pub data Outcome : Type 0 where
  output : Bytes → Outcome
  read_error pending : Outcome

-- "Replace last 3 characters with "...""
abbrev pub cut_output : ℕ → Bytes → Bytes
cut_output max_length res =
    if leb 3 max_length then take (max_length - 3) res ++ codes "..." else res

-- The loop, where `res` is what is read so far, of the length `pos`.
unfoldable pub read_loop : ℕ → Bytes → List Pread → Outcome
unfolding remove_trailing
read_loop max_length res [] = pending
read_loop max_length res (bytes b ∷ calls) =
    let rest = read_loop max_length (res ++ b) calls in
    if ltb (length (res ++ b)) max_length then rest else output (cut_output max_length (res ++ b))
read_loop max_length res (end_of_file ∷ calls) = output (remove_trailing is_space res)
read_loop max_length res (interrupted ∷ calls) =
    let rest = read_loop max_length res calls in
    if ltb (length res) max_length then rest else output (cut_output max_length res)
read_loop max_length res (failed ∷ calls) = read_error

unfoldable pub obtain_checker_output : ℕ → List Pread → Outcome
unfolding read_loop
obtain_checker_output max_length calls = read_loop max_length [] calls

pub data Status : Type 0 where
  ok wrong error : Status

-- What is read of Sandbox::ExitStat: whether the process exited with 0.
pub record ExitStat : Type 0 where
  pub exited_with_0 : Bool
  pub runtime : ℕ
  pub vm_peak : ℕ
  pub message : Bytes

-- What is read of Sandbox::Options.
pub record Options : Type 0 where
  pub real_time_limit : Option ℕ
  pub memory_limit : Option ℕ

pub record CheckerStatus {ℓ} (Ratio : Type ℓ) : Type ℓ where
  pub status : Status
  pub ratio : Ratio
  pub message : Bytes

abbrev pub at_least : ℕ → Option ℕ → Bool
at_least n none = false
at_least n (some limit) = leb limit n

abbrev pub above : ℕ → Option ℕ → Bool
above n none = false
above n (some limit) = ltb limit n

-- Floating point is given: 0, 1, and a hundredth of what strtod reads, if it reads a number.
module _ {ℓ} (Ratio : Type ℓ) (no_score full_score : Ratio)
    (strtod_percent : Bytes → Option Ratio) where
  abbrev pub error_of : Bytes → CheckerStatus Ratio
  error_of message = record { status = error; ratio = no_score; message = message }

  abbrev pub is_invalid_line2 : Bytes → Bool
  is_invalid_line2 line2 =
      not (is_empty line2) && (has_prefix line2 (codes "-") || not (is_real line2))

  abbrev pub wrong_second_line : Bytes → Bytes → CheckerStatus Ratio
  wrong_second_line output_name line2 = error_of (
      codes "Second line of the "
      ++ output_name
      ++ codes " is invalid: `"
      ++ line2
      ++ codes
          "` - it has to be either empty or a real number representing the percentage of the score that solution will receive")

  abbrev pub wrong_first_line : Bytes → Bytes → CheckerStatus Ratio
  wrong_first_line output_name line1 = error_of (
      codes "First line of the "
      ++ output_name
      ++ codes " is invalid: `"
      ++ line1
      ++ codes "` - it has to be either `OK` or `WRONG`")

  abbrev pub with_ratio : Bytes → Bytes → Bytes → CheckerStatus Ratio
  with_ratio output_name line2 comment =
      if is_empty line2
      then record { status = ok; ratio = full_score; message = comment }
      else elim (strtod_percent line2) [
        | none ↦ wrong_second_line output_name line2
        | some ratio ↦ record { status = ok; ratio = ratio; message = comment }
      ]

  -- The verdict on the first two lines. The result of wrong_second_line is dropped where line2 is
  -- invalid.
  abbrev pub verdict : Bytes → Bytes → Bytes → Bytes → CheckerStatus Ratio
  verdict output_name line1 line2 comment =
      if not (is_invalid_line2 line2) && str_eq line1 (codes "OK")
      then with_ratio output_name line2 comment
      else if str_eq line1 (codes "WRONG")
      then record { status = wrong; ratio = no_score; message = comment }
      else wrong_first_line output_name line1

  -- `chout.erase(chout.begin(), chout.end() - parser.size())`
  abbrev pub comment_of : Bytes → Bytes → Bytes
  comment_of chout parser = drop (length chout - length parser) chout

  -- "Checker exited with 0"
  unfoldable pub output_to_checker_status : Bytes → Bytes → CheckerStatus Ratio
  unfolding extract_next str_eq is_real has_prefix
  output_to_checker_status output_name chout =
      let (line1, parser) = extract_next (λ c. c == 10) chout in
      let (line2, parser') = extract_next (λ c. c == 10) parser in
      verdict output_name line1 line2 (comment_of chout parser')

  unfoldable pub exit_to_checker_status : ExitStat → Options → Bytes → Bytes → CheckerStatus Ratio
  unfolding output_to_checker_status
  exit_to_checker_status es opts output_name chout =
      if es.exited_with_0
      then output_to_checker_status output_name chout
      else if at_least es.runtime opts.real_time_limit
      then error_of (codes "Time limit exceeded")
      else if str_eq es.message (codes "Memory limit exceeded")
          || above es.vm_peak opts.memory_limit
      then error_of (codes "Memory limit exceeded")
      else if is_empty es.message
      then error_of (codes "Runtime error")
      else error_of (codes "Runtime error" ++ codes " (" ++ es.message ++ codes ")")
