-- ===== src/Tests/Times.antt =====
-- Times as text, and the time limits of a small problem.
use simlib.Common.{
  ◌≢◌, some, ℕ, ◌+◌, ◌*◌, ◌/◌, ◌%◌, ◌-◌, ◌^◌, ◌≡◌, inl, inr, refl, true, false, none, List, [], ◌∷◌,
  ◌++◌, Bytes, codes, arith, length,
}
use simlib.Number.{to_string_signed, pos, negsuc, to_string}
use simlib.Number.Value.{value}
use simlib.Simfile.Groups.{TestGroup}
use simlib.Time.{
  with_fraction, timespec_to_string, timeval_to_string, duration_to_string, is_power_of_10,
}
use simlib.Time.Digits.{Shows, to_string-Shows}
use simlib.Time.Durations.{shown, duration_to_string-value}
use simlib.Conver.Limits.{ok, wa, ReportTest, error_on_test, reset_time_limits_using_judge_reports}
use simlib.Conver.Reset.{AllAccepted, ResetGroups, reset_time_limits-last_limit}

trimmed : timespec_to_string record { tv_sec = 3; tv_nsec = 120000000 } 9 true ≡ some (codes "3.12")
unfolding timespec_to_string to_string
trimmed = refl

no_places : timeval_to_string record { tv_sec = 3; tv_usec = 999999 } 0 false ≡ some (codes "3")
unfolding timeval_to_string to_string
no_places = refl

-- UINT_MAX places are -1 for the source, which leaves out the point and all behind it, and one less
-- costs a digit of the seconds.
all_places :
    timespec_to_string record { tv_sec = 13; tv_nsec = 5 } 4294967295 false ≡ some (codes "13")
unfolding timespec_to_string to_string
all_places = refl

all_places_less_one :
    timespec_to_string record { tv_sec = 13; tv_nsec = 5 } 4294967294 true ≡ some (codes "1")
unfolding timespec_to_string to_string
all_places_less_one = refl

half : duration_to_string 1000 (pos 1500) true ≡ codes "1.5"
unfolding duration_to_string to_string to_string_signed
half = refl

-- Below zero the digits behind the point are no digits, and the sign is lost where no second is left.
negative_half : duration_to_string 1000 (negsuc 499) true ≡ codes "0.+"
unfolding duration_to_string to_string to_string_signed
negative_half = refl

to_string-Shows_example :
    ((fraction : Bytes) × (timespec_to_string record { tv_sec = 3; tv_nsec = 120000000 } 2 true
        ≡ some (with_fraction (to_string 3) fraction))
      × Shows 9 2 120000000 true fraction)
    × ((fraction : Bytes) × (timeval_to_string record { tv_sec = 1; tv_usec = 500000 } 2 true
          ≡ some (with_fraction (to_string 1) fraction))
        × Shows 6 2 500000 true fraction)
to_string-Shows_example =
    to_string-Shows record { tv_sec = 3; tv_nsec = 120000000 }
      record { tv_sec = 1; tv_usec = 500000 } 2 true (omega arith) (omega arith) (omega arith)

duration_to_string-value_example :
    (fraction : Bytes) × (duration_to_string (10 ^ 3) (pos 1500) true
      ≡ shown true (to_string (1500 / 10 ^ 3)) fraction)
    × Shows 3 3 (1500 % 10 ^ 3) true fraction
    × (value 0 (to_string (1500 / 10 ^ 3)) * 10 ^ 3 + value 0 fraction * 10 ^ (3 - length fraction)
        ≡ 1500)
duration_to_string-value_example = duration_to_string-value 3 1500 true

thousand : is_power_of_10 (pos 1000) ≡ true
unfolding is_power_of_10
thousand = refl

-- One hundredth of a second for each ms of runtime.
abbrev tenfold : ℕ → ℕ
tenfold runtime = runtime / 1000000

abbrev first_report : List ReportTest
first_report = record { name = codes "1a"; status = ok; runtime = 9000000 } ∷ []

abbrev final_report : List ReportTest
final_report = record { name = codes "1a"; status = wa; runtime = 7000000 } ∷ []

abbrev problem : List TestGroup
problem =
    record {
      tests =
          record {
            name = codes "1a";
            input = codes "1a.in";
            output = none;
            time_limit = 1000000000;
            memory_limit = 1048576;
          }
          ∷ record {
            name = codes "2";
            input = codes "2.in";
            output = none;
            time_limit = 6000000;
            memory_limit = 1048576;
          }
          ∷ [];
      score = pos 100;
    }
    ∷ []

reset_time_limits-last_limit_example :
    let reset =
      reset_time_limits_using_judge_reports tenfold
        (pos 300000000)
        false
        first_report
        final_report
        problem in
    let tests = first_report ++ final_report in
    (AllAccepted tests
      → (groups : List TestGroup) × (reset ≡ inr groups) × ResetGroups tenfold tests problem groups)
    × ((before : List ReportTest) (t : ReportTest) (after : List ReportTest)
        → tests ≡ before ++ t ∷ after
        → AllAccepted before
        → t.status ≢ ok
        → t.status ≢ wa
        → reset ≡ inl (error_on_test t.name t.status))
reset_time_limits-last_limit_example =
    reset_time_limits-last_limit tenfold 300000000 first_report final_report problem

reset_of :
    reset_time_limits_using_judge_reports tenfold
      (pos 300000000)
      false
      first_report
      final_report
      problem
    ≡ inr (
        record {
          tests =
              record {
                name = codes "1a";
                input = codes "1a.in";
                output = none;
                time_limit = 70000000;
                memory_limit = 1048576;
              }
              ∷ record {
                name = codes "2";
                input = codes "2.in";
                output = none;
                time_limit = 10000000;
                memory_limit = 1048576;
              }
              ∷ [];
          score = pos 100;
        }
        ∷ [])
unfolding reset_time_limits_using_judge_reports
reset_of = refl
