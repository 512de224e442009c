-- ===== src/StringTraits.antt =====
-- include/simlib/string_traits.hh: tests on whole strings.
pub mod Laws
use simlib.Common.{
  ℕ, ◌+◌, ◌-◌, Bool, true, false, not, ◌&&◌, ◌||◌, List, [], ◌∷◌, Option, none, some, Bytes, leb,
  ◌==◌, if◌then◌else◌, length, take, drop, all_of,
}
use simlib.Ctype.{is_digit, is_alpha, is_alnum}
use simlib.StringView.Text.{find, compare_views, is_eq}

-- `str.compare(0, prefix.size(), prefix) == 0`
unfoldable pub has_prefix : Bytes → Bytes → Bool
has_prefix str prefix = is_eq (compare_views (take (length prefix) str) prefix)

unfoldable pub has_suffix : Bytes → Bytes → Bool
has_suffix str suffix =
    leb (length suffix) (length str)
    && is_eq (compare_views (take (length suffix) (drop (length str - length suffix) str)) suffix)

-- The tests on a character, for a non-empty string throughout.
abbrev pub nonempty_all : (ℕ → Bool) → Bytes → Bool
nonempty_all f [] = false
nonempty_all f (c ∷ s) = all_of f (c ∷ s)

unfoldable pub is_digit_str : Bytes → Bool
unfolding is_digit
is_digit_str = nonempty_all is_digit

unfoldable pub is_alpha_str : Bytes → Bool
unfolding is_alpha
is_alpha_str = nonempty_all is_alpha

unfoldable pub is_alnum_str : Bytes → Bool
unfolding is_alnum
is_alnum_str = nonempty_all is_alnum

unfoldable pub is_word : ℕ → Bool
unfolding is_alnum
is_word c = is_alnum c || (c == b'_' || c == b'-')

unfoldable pub is_word_str : Bytes → Bool
unfolding is_word
is_word_str = nonempty_all is_word

-- The sign, where there is one, is dropped.
unfoldable pub without_minus : Bytes → Bytes
without_minus [] = []
without_minus (c ∷ s) = if c == b'-' then s else c ∷ s

unfoldable pub is_integer : Bytes → Bool
unfolding is_digit_str without_minus
is_integer [] = false
is_integer (c ∷ s) = is_digit_str (without_minus (c ∷ s))

-- The part from the first dot on decides: `dot_pos >= str.size()` is the case of no dot.
unfoldable pub is_real : Bytes → Bool
unfolding is_digit_str without_minus find
is_real [] = false
is_real (c ∷ s) =
    let str = without_minus (c ∷ s) in
    elim (find str b'.' 0) [
      | none ↦ is_digit_str str
      | some dot_pos ↦ is_digit_str (take dot_pos str) && is_digit_str (drop (dot_pos + 1) str)
    ]
