-- ===== src/StringView/Kmp.antt =====
-- include/simlib/string_view.hh: find of a string, by the algorithm of Knuth, Morris and Pratt. The
-- characters come by index; the array `p` is the list of its entries that are filled.
pub mod Border
pub mod Find
use simlib.Common.{
  ℕ, zero, suc, ◌+◌, ◌-◌, Bool, not, ◌&&◌, List, [], ◌∷◌, ◌++◌, Option, none, some, Bytes, ltb,
  ◌==◌, if◌then◌else◌, length, get_or,
}

-- The character at an index that is inside.
abbrev pub at : List ℕ → ℕ → ℕ
at s i = get_or s i 0

-- `while (k > 0 && c != s[k]) k = p[k - 1];`, which takes `k` rounds at most: the first number bounds
-- the rounds.
unfoldable pub fall_back : Bytes → List ℕ → ℕ → ℕ → ℕ → ℕ
fall_back s p c zero k = k
fall_back s p c (suc rounds) k =
    let next = fall_back s p c rounds (at p (k - 1)) in
    if ltb 0 k && not (c == at s k) then next else k

-- The loop that fills `p`, for `n` more entries from `i` on.
unfoldable pub fill : Bytes → ℕ → ℕ → List ℕ → ℕ → List ℕ
unfolding fall_back
fill s zero i p k = p
fill s (suc n) i p k =
    let k' = fall_back s p (at s i) k k in
    let k'' = if at s i == at s k' then suc k' else k' in fill s n (i + 1) (p ++ k'' ∷ []) k''

-- `auto p = ...; p[0] = 0;` and the loop: `p` for a string that is not empty.
unfoldable pub prefix_table : Bytes → List ℕ
unfolding fill
prefix_table s = fill s (length s - 1) 1 (0 ∷ []) 0

-- The search through the `n` characters of `str` that are left, from `i` on.
unfoldable pub scan : Bytes → List ℕ → Bytes → ℕ → ℕ → ℕ → Option ℕ
unfolding fall_back
scan s p str zero i k = none
scan s p str (suc n) i k =
    let k' = fall_back s p (at str i) k k in
    let matched = scan s p str n (i + 1) (suc k') in
    let unmatched = scan s p str n (i + 1) k' in
    if at str i == at s k'
    then (if suc k' == length s then some (i + 1 - length s) else matched)
    else unmatched

unfoldable pub find_str : Bytes → Bytes → Option ℕ
unfolding prefix_table scan
find_str str s = if length s == 0 then some 0 else scan s (prefix_table s) str (length str) 0 0
