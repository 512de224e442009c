-- ===== src/StringView/Text.antt =====
-- include/simlib/string_view.hh: the members of a view that read its characters, as functions of
-- the bytes that it shows. A search returns `none` for `npos`.
use simlib.Common.{
  ℕ, zero, suc, ◌+◌, Bool, true, false, ◌&&◌, [], ◌∷◌, Option, none, some, Bytes, ltb, ◌==◌,
  if◌then◌else◌, length, get_or, take, drop,
}
use Prim.Native.Nat.{min, compare, Ordering}

-- `find(c, beg)`: from `i` on, over the characters that are left.
unfoldable pub find_loop : ℕ → Bytes → ℕ → Option ℕ
find_loop c [] i = none
find_loop c (x ∷ s) i = if x == c then some i else find_loop c s (i + 1)

unfoldable pub find : Bytes → ℕ → ℕ → Option ℕ
unfolding find_loop
find s c beg = find_loop c (drop beg s) beg

-- `rfind(c, beg)`: `for (endi = len; endi > beg;) if (str[--endi] == c) return endi;`
unfoldable pub rfind_loop : Bytes → ℕ → ℕ → ℕ → Option ℕ
rfind_loop s c beg zero = none
rfind_loop s c beg (suc endi) =
    let rest = rfind_loop s c beg endi in
    if ltb beg (suc endi) then (if get_or s endi 0 == c then some endi else rest) else none

unfoldable pub rfind : Bytes → ℕ → ℕ → Option ℕ
unfolding rfind_loop
rfind s c beg = rfind_loop s c beg (length s)

-- The characters up to the first for which `f` fails, and those from there on.
unfoldable pub remove_leading : (ℕ → Bool) → Bytes → Bytes
remove_leading f [] = []
remove_leading f (c ∷ s) = if f c then remove_leading f s else c ∷ s

unfoldable pub leading : (ℕ → Bool) → Bytes → Bytes
leading f [] = []
leading f (c ∷ s) = if f c then c ∷ leading f s else []

unfoldable pub extract_leading : (ℕ → Bool) → Bytes → Bytes × Bytes
unfolding leading remove_leading
extract_leading f s = (leading f s, remove_leading f s)

-- `for (i = len; i > 0 && f(str[i - 1]); --i)`
unfoldable pub trailing_from : (ℕ → Bool) → Bytes → ℕ → ℕ
trailing_from f s zero = 0
trailing_from f s (suc i) =
    let rest = trailing_from f s i in if f (get_or s i 0) then rest else suc i

unfoldable pub remove_trailing : (ℕ → Bool) → Bytes → Bytes
unfolding trailing_from
remove_trailing f s = take (trailing_from f s (length s)) s

unfoldable pub extract_trailing : (ℕ → Bool) → Bytes → Bytes × Bytes
unfolding trailing_from
extract_trailing f s = let i = trailing_from f s (length s) in (drop i s, take i s)

-- std::char_traits<char>::compare, which compares the characters as `unsigned char`.
unfoldable pub char_compare : Bytes → Bytes → ℕ → Ordering
char_compare s t zero = Ordering.eq
char_compare (a ∷ s) (b ∷ t) (suc n) = elim (compare a b) [
  | Ordering.eq ↦ char_compare s t n
  | o ↦ o
]
char_compare s t (suc n) = Ordering.eq

-- The sign of the result of `compare`.
unfoldable pub compare_views : Bytes → Bytes → Ordering
unfolding char_compare
compare_views s t = elim (char_compare s t (min (length s) (length t))) [
  | Ordering.eq ↦
      if length s == length t
      then Ordering.eq
      else (if ltb (length s) (length t) then Ordering.lt else Ordering.gt)
  | o ↦ o
]

abbrev pub is_eq : Ordering → Bool
is_eq Ordering.eq = true
is_eq _ = false

abbrev pub is_lt : Ordering → Bool
is_lt Ordering.lt = true
is_lt _ = false

-- operator== and operator<
unfoldable pub str_eq : Bytes → Bytes → Bool
unfolding char_compare
str_eq s t = length s == length t && is_eq (char_compare s t (length s))

unfoldable pub str_lt : Bytes → Bytes → Bool
unfolding compare_views
str_lt s t = is_lt (compare_views s t)
