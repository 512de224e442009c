-- ===== src/Time/Durations.antt =====
-- to_string of a duration, of include/simlib/time.hh.
use simlib.Common.{
  ℕ, suc, ◌+◌, ◌-◌, ◌*◌, ◌/◌, ◌%◌, ◌^◌, ◌<◌, ◌≡◌, refl, ◌∙◌, ap, subst, take, Bool, true, false, [],
  ◌∷◌, ◌++◌, Bytes, arith, length, leb, leb→le, Bool-cases, inl, inr, if◌then◌else◌,
}
use Prim.Native.Nat.{min}
use native.Mathlib.Nat.{pow-suc, pow-le-pow_right, mod-lt, div-add-mod'}
use simlib.Number.{pos, to_string, to_string_signed}
use simlib.Number.Value.{value, value_upper}
use simlib.Number.Print.{to_string-value}
use simlib.Time.{fraction_loop, truncated, with_fraction, duration_to_string}
use simlib.Time.Digits.{Shows, take-length_all, length-fraction_loop, truncated-Shows}
use simlib.Time.Powers.{power-pos}

-- `to_string(Period::den).size() - 1`
length-to_string_power : (k : ℕ) → length (to_string (10 ^ k)) ≡ suc k
length-to_string_power k =
    let (val, digits, first, bound) = to_string-value (10 ^ k) in
    let upper : 10 ^ k < (0 + 1) * 10 ^ length (to_string (10 ^ k)) =
      rw val at (value_upper 0 (to_string (10 ^ k)) digits) in
    let at_most = bound (suc k) (omega arith) (rw pow-suc (omega (arith, power-pos k))) in
    elim (Bool-cases (leb (length (to_string (10 ^ k))) k)) [
      | inl short ↦
          let le = pow-le-pow_right {n = 10} (omega arith) (leb→le _ _ short) in
          absurd (omega (arith, upper, le))
      | inr long ↦ ground arith
    ]

-- Without trim_zeros the point stands even where no digit follows it.
abbrev pub shown : Bool → Bytes → Bytes → Bytes
shown true seconds fraction = with_fraction seconds fraction
shown false seconds fraction = seconds ++ b'.' ∷ fraction

abbrev text : Bool → Bytes → Bytes → Bytes
text trim_zeros seconds fraction =
    if trim_zeros
    then with_fraction seconds (truncated true fraction)
    else seconds ++ b'.' ∷ fraction

text-shown :
    (trim_zeros : Bool) (seconds fraction : Bytes)
    → text trim_zeros seconds fraction ≡ shown trim_zeros seconds (truncated trim_zeros fraction)
unfolding truncated
text-shown true seconds fraction = refl
text-shown false seconds fraction = refl

-- The digits of the part below a second.
exact :
    (k n : ℕ) (trim_zeros : Bool)
    → let fraction = truncated trim_zeros (fraction_loop false k (n % 10 ^ k) []) in
      Shows k k (n % 10 ^ k) trim_zeros fraction
      × (value 0 (to_string (n / 10 ^ k)) * 10 ^ k + value 0 fraction * 10 ^ (k - length fraction)
          ≡ n)
exact k n trim_zeros =
    let digits = fraction_loop false k (n % 10 ^ k) [] in
    let len : length digits ≡ k = omega (arith, length-fraction_loop k (n % 10 ^ k) []) in
    let all : take (min k k) digits ≡ digits =
      ap (λ m. take m digits) (omega (arith, len)) ∙ take-length_all digits in
    let shows =
      subst (λ s. Shows k k (n % 10 ^ k) trim_zeros (truncated trim_zeros s)) all
        (truncated-Shows k k (n % 10 ^ k) trim_zeros (mod-lt n (power-pos k))) in
    let none_left : k - min k k ≡ 0 = omega arith in
    let one : 10 ^ (k - min k k) ≡ 1 = rw none_left refl in
    (
      shows,
      rw ((to_string-value (n / 10 ^ k)).0)
          (omega (arith, div-add-mod' n (10 ^ k), shows.not_above, shows.near, one)),
    )

-- The text of a duration that is not negative, in units of a 10 ^ k-th part of a second, is its
-- seconds, a point and a fraction, which together give the duration exactly: k digits without
-- trim_zeros, and with it no zero at the end and no point where no digit is left.
pub duration_to_string-value :
    (k n : ℕ) (trim_zeros : Bool)
    → (fraction : Bytes) × (duration_to_string (10 ^ k) (pos n) trim_zeros
        ≡ shown trim_zeros (to_string (n / 10 ^ k)) fraction)
      × Shows k k (n % 10 ^ k) trim_zeros fraction
      × (value 0 (to_string (n / 10 ^ k)) * 10 ^ k + value 0 fraction * 10 ^ (k - length fraction)
          ≡ n)
unfolding duration_to_string to_string_signed to_string
duration_to_string-value k n trim_zeros =
    let places : length (to_string (10 ^ k)) - 1 ≡ k = omega (arith, length-to_string_power k) in
    let (shows, sum) = exact k n trim_zeros in
    (
      truncated trim_zeros (fraction_loop false k (n % 10 ^ k) []),
      ap (λ p. text trim_zeros (to_string (n / 10 ^ k)) (fraction_loop false p (n % 10 ^ k) []))
            places
          ∙ text-shown trim_zeros (to_string (n / 10 ^ k)) (fraction_loop false k (n % 10 ^ k) []),
      shows,
      sum,
    )
