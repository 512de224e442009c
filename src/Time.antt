-- ===== src/Time.antt =====
-- Times as text, of include/simlib/time.hh: timespec_to_string, timeval_to_string and to_string of a
-- duration, and is_power_of_10.
pub mod Digits
pub mod Powers
pub mod Durations
use simlib.Common.{
  ℕ, ◌^◌, Option, none, some, zero, suc, ◌+◌, ◌-◌, ◌/◌, ◌%◌, Bool, true, false, not, List, [], ◌∷◌,
  ◌++◌, Bytes, ltb, ◌==◌, if◌then◌else◌, take, length,
}
use Prim.Native.Nat.{min}
use simlib.StringView.Text.{remove_trailing}
use simlib.Number.{ℤ, pos, negsuc, signed, to_string, to_string_signed}

-- `for (i = res.len_ + n - 1; i >= res.len_; --i) { res[i] = '0' + x % 10; x /= 10; }`: the digits
-- are written from the last one on. Under `minus` the source's x is the negation of this one, and
-- so is its remainder.
unfoldable pub fraction_loop : Bool → ℕ → ℕ → Bytes → Bytes
fraction_loop minus zero x res = res
fraction_loop minus (suc n) x res =
    fraction_loop minus n (x / 10) ((if minus then b'0' - x % 10 else b'0' + x % 10) ∷ res)

-- "Truncate trailing zeros"
unfoldable pub truncated : Bool → Bytes → Bytes
unfolding remove_trailing
truncated trim_zeros fraction =
    if trim_zeros then remove_trailing (λ c. c == b'0') fraction else fraction

-- The length that is set at the end: without the '.' where nothing is behind it.
abbrev pub with_fraction : Bytes → Bytes → Bytes
with_fraction seconds [] = seconds
with_fraction seconds (c ∷ fraction) = seconds ++ b'.' ∷ c ∷ fraction

-- A normalized time: the fraction is not negative, and tv_sec is what its cast to uint64_t gives.
pub record Timespec : Type 0 where
  pub tv_sec : ℕ
  pub tv_nsec : ℕ

pub record Timeval : Type 0 where
  pub tv_sec : ℕ
  pub tv_usec : ℕ

-- What is left where `int(prec)` is below zero, -`under`, so that the new length counts from the end of
-- the seconds and the '.': `i` is below res.len_ and does not move, and res.len_ becomes i + 1. `none`
-- is where i + 1, or i that trim_zeros compares, is below zero too, so that the unsigned number is past
-- the buffer, or for 2 ^ 31 the subtraction overflows.
abbrev pub cut_before : Bool → Bytes → ℕ → Option Bytes
cut_before trim_zeros seconds under =
    let len = length seconds + 1 in
    if ltb len (if trim_zeros then under + 1 else under)
    then none
    else some (take (len - under) (seconds ++ b'.' ∷ []))

-- The digits behind the seconds, of which there are `n`, cut to `prec`, a uint that is cast to int.
unfoldable pub with_prec : ℕ → Bytes → ℕ → ℕ → Bool → Option Bytes
unfolding fraction_loop truncated
with_prec n seconds x prec trim_zeros =
    if ltb prec (2 ^ 31)
    then some (
        with_fraction seconds
          (truncated trim_zeros (take (min n prec) (fraction_loop false n x []))))
    else cut_before trim_zeros seconds (2 ^ 32 - prec)

unfoldable pub timespec_to_string : Timespec → ℕ → Bool → Option Bytes
unfolding with_prec
timespec_to_string x prec trim_zeros = with_prec 9 (to_string x.tv_sec) x.tv_nsec prec trim_zeros

unfoldable pub timeval_to_string : Timeval → ℕ → Bool → Option Bytes
unfolding with_prec
timeval_to_string x prec trim_zeros = with_prec 6 (to_string x.tv_sec) x.tv_usec prec trim_zeros

abbrev pub is_negative : ℤ → Bool
is_negative (pos n) = false
is_negative (negsuc n) = true

abbrev pub magnitude : ℤ → ℕ
magnitude (pos n) = n
magnitude (negsuc n) = suc n

-- to_string of a duration in units of a second's `den`-th part, for a signed Rep. duration_cast
-- truncates towards zero.
unfoldable pub duration_to_string : ℕ → ℤ → Bool → Bytes
unfolding fraction_loop truncated
duration_to_string den dur trim_zeros =
    let minus = is_negative dur in
    let dec_dur = to_string_signed (signed minus (magnitude dur / den)) in
    let prec = length (to_string den) - 1 in
    let fraction = fraction_loop minus prec (magnitude dur % den) [] in
    if trim_zeros
    then with_fraction dec_dur (truncated true fraction)
    else dec_dur ++ b'.' ∷ fraction

-- The loop of is_power_of_10, on fuel, of which x itself is enough.
unfoldable pub power_loop : ℕ → ℕ → Bool
power_loop zero x = x == 1
power_loop (suc fuel) x =
    let rest = power_loop fuel (x / 10) in
    if ltb 1 x then (if not (x % 10 == 0) then false else rest) else x == 1

unfoldable pub is_power_of_10 : ℤ → Bool
unfolding power_loop
is_power_of_10 (negsuc n) = false
is_power_of_10 (pos zero) = false
is_power_of_10 (pos (suc n)) = power_loop (suc n) (suc n)
