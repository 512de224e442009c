-- ===== src/StringCompare.antt =====
-- include/simlib/string_compare.hh and src/string_compare.cc: comparisons of strings.
pub mod Num
pub mod Equal
use simlib.Common.{
  ℕ, zero, suc, ◌+◌, ◌-◌, Bool, true, false, not, ◌&&◌, ◌||◌, List, [], ◌∷◌, Option, none, some,
  Bytes, ltb, leb, ◌==◌, if◌then◌else◌, length, get_or, take, drop,
}
use Prim.Native.Nat.{min, bit_or, bit_xor, Ordering}
use simlib.Ctype.{is_digit, to_lower}
use simlib.StringTraits.{is_digit_str}
use simlib.StringView.Text.{remove_leading, leading, str_lt, str_eq, find, compare_views}
use simlib.Number.{to_string}

-- The loop over `i < len`; `b_longer` is what the source returns behind it, `b.size() > len`.
unfoldable pub special_less_loop : (ℕ → ℕ) → Bool → Bytes → Bytes → ℕ → Bool
special_less_loop f b_longer a b zero = b_longer
special_less_loop f b_longer (x ∷ a) (y ∷ b) (suc n) =
    let rest = special_less_loop f b_longer a b n in
    if not (f x == f y) then ltb (f x) (f y) else rest
special_less_loop f b_longer a b (suc n) = b_longer

unfoldable pub special_less : (ℕ → ℕ) → Bytes → Bytes → Bool
unfolding special_less_loop
special_less f a b =
    let len = min (length a) (length b) in special_less_loop f (ltb len (length b)) a b len

unfoldable pub special_equal_loop : (ℕ → ℕ) → Bytes → Bytes → Bool
special_equal_loop f (x ∷ a) (y ∷ b) = if not (f x == f y) then false else special_equal_loop f a b
special_equal_loop f a b = true

unfoldable pub special_equal : (ℕ → ℕ) → Bytes → Bytes → Bool
unfolding special_equal_loop
special_equal f a b = if not (length a == length b) then false else special_equal_loop f a b

unfoldable pub lower_equal : Bytes → Bytes → Bool
unfolding special_equal to_lower
lower_equal a b = special_equal to_lower a b

abbrev pub is_zero : ℕ → Bool
is_zero c = c == b'0'

unfoldable pub str_num_compare : Bytes → Bytes → Bool
str_num_compare a b =
    let a' = remove_leading is_zero a in
    let b' = remove_leading is_zero b in
    if length a' == length b' then str_lt a' b' else ltb (length a') (length b')

unfoldable pub slow_equal_loop : Bytes → Bytes → ℕ → ℕ → ℕ
slow_equal_loop str1 str2 zero rc = rc
slow_equal_loop (a ∷ str1) (b ∷ str2) (suc len) rc =
    slow_equal_loop str1 str2 len (bit_or rc (bit_xor a b))
slow_equal_loop str1 str2 (suc len) rc = rc

-- The overload for views.
unfoldable pub slow_equal : Bytes → Bytes → Bool
unfolding slow_equal_loop
slow_equal str1 str2 =
    slow_equal_loop str1 str2 (min (length str1) (length str2)) 0 == 0 && length str1 == length str2

-- `MAX_VAL` and `MIN_VAL` are printed by to_string.
unfoldable pub is_digit_not_greater_than : ℕ → Bytes → Bool
is_digit_not_greater_than max_val s = is_digit_str s && not (str_num_compare (to_string max_val) s)

unfoldable pub is_digit_not_less_than : ℕ → Bytes → Bool
is_digit_not_less_than min_val s = is_digit_str s && not (str_num_compare s (to_string min_val))

-- `compare(str, beg, end, s)`, its bounds cut to the string.
unfoldable pub compare_range : Bytes → ℕ → ℕ → Bytes → Ordering
compare_range str beg end s =
    let end' = if ltb (length str) end then length str else end in
    let beg' = if ltb end' beg then end' else beg in
    compare_views (take (end' - beg') (drop beg' str)) s

-- `compare_to`: up to the first `c`, or the end of the string where there is none.
unfoldable pub compare_to : Bytes → ℕ → ℕ → Bytes → Ordering
compare_to str pos c s = elim (find str c pos) [
  | none ↦ compare_range str pos (length str) s
  | some end ↦ compare_range str pos end s
]
