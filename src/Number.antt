-- ===== src/Number.antt =====
-- Decimal numbers: to_string of include/simlib/to_string.hh and str2num of
-- include/simlib/string_transform.hh, for the integral types. A type is given by its greatest
-- value `max`; a signed one goes down to -(max + 1).
pub mod Value
pub mod Print
pub mod Parse
use simlib.Common.{
  ℕ, zero, suc, ◌+◌, ◌-◌, ◌*◌, ◌/◌, ◌<◌, Bool, true, false, not, ◌&&◌, List, [], ◌∷◌, ◌++◌, Option,
  none, some, Bytes, ltb, leb, ◌==◌, if◌then◌else◌, reverse, codes,
}
use mathlib.Core.Option
use simlib.Ctype.{is_digit}

-- An integer: `negsuc n` is -(n + 1).
pub data ℤ : Type 0 where
  pos : ℕ → ℤ
  negsuc : ℕ → ℤ

-- The integer of a magnitude, negated under `minus`.
abbrev pub signed : Bool → ℕ → ℤ
signed false n = pos n
signed true zero = pos 0
signed true (suc n) = negsuc n

-- `while (x) { x2 = x / 10; res += x - x2 * 10 + '0'; x = x2; }`, on fuel: the digits in the order
-- they are written, the last one first. For a negative x the source writes x2 * 10 - x, which is
-- the digit of the magnitude, since the division truncates.
unfoldable pub digits_loop : ℕ → ℕ → Bytes
digits_loop zero x = []
digits_loop (suc f) x = elim (x == 0) [
  | true ↦ []
  | false ↦ (x - x / 10 * 10 + b'0') ∷ digits_loop f (x / 10)
]

-- The loop of swaps at the end is `reverse`. The fuel is the number itself.
unfoldable pub to_string : ℕ → Bytes
unfolding digits_loop
to_string x = if x == 0 then b'0' ∷ [] else reverse (digits_loop x x)

unfoldable pub to_string_signed : ℤ → Bytes
unfolding digits_loop to_string
to_string_signed (pos n) = to_string n
to_string_signed (negsuc n) = reverse (digits_loop (suc n) (suc n) ++ b'-' ∷ [])

-- The loop of str2num. `acc` is the magnitude of `*res` and `limit` the greatest magnitude of that
-- sign, so that a test against it is `__builtin_mul_overflow` or `__builtin_add_overflow`.
unfoldable pub str2num_loop : ℕ → ℕ → Bytes → Option ℕ
unfolding is_digit
str2num_loop limit acc [] = some acc
str2num_loop limit acc (c ∷ s) =
    if not (is_digit c)
    then none
    else if ltb limit (acc * 10)
    then none
    else if ltb limit (acc * 10 + (c - b'0'))
    then none
    else str2num_loop limit (acc * 10 + (c - b'0')) s

-- The first digit, for which nothing can overflow.
unfoldable pub str2num_digits : ℕ → Bytes → Option ℕ
unfolding str2num_loop
str2num_digits limit [] = none
str2num_digits limit (c ∷ s) = if not (is_digit c) then none else str2num_loop limit (c - b'0') s

-- `T` unsigned
unfoldable pub str2num_unsigned : ℕ → Bytes → Option ℕ
unfolding str2num_digits
str2num_unsigned max str = str2num_digits max str

-- `T` signed
unfoldable pub str2num_signed : ℕ → Bytes → Option ℤ
unfolding str2num_digits
str2num_signed max [] = none
str2num_signed max (c ∷ s) =
    if c == b'-'
    then Option.map (signed true) (str2num_digits (max + 1) s)
    else Option.map (signed false) (str2num_digits max (c ∷ s))

-- `bool`, read as uint8_t
unfoldable pub str2num_bool : Bytes → Option Bool
unfolding str2num_unsigned
str2num_bool str = elim (str2num_unsigned 255 str) [
  | none ↦ none
  | some n ↦ if leb n 1 then some (not (n == 0)) else none
]

-- With a range, for an unsigned type.
unfoldable pub str2num_range : ℕ → Bytes → ℕ → ℕ → Option ℕ
unfolding str2num_unsigned
str2num_range max str min_val max_val = elim (str2num_unsigned max str) [
  | none ↦ none
  | some n ↦ if ltb n min_val then none else (if ltb max_val n then none else some n)
]
