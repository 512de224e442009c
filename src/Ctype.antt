-- ===== src/Ctype.antt =====
-- include/simlib/ctype.hh: the character classes. A `char` is its byte, a number below 256; the
-- tests compare with ASCII bounds, and a negative `char` (a byte from 128 on) is in no class, so
-- the unsigned byte gives the same answers.
pub mod Laws
use simlib.Common.{ℕ, ◌+◌, ◌-◌, Bool, ◌&&◌, ◌||◌, leb, ◌==◌, if◌then◌else◌}

unfoldable pub is_digit : ℕ → Bool
is_digit c = leb b'0' c && leb c b'9'

unfoldable pub is_alpha : ℕ → Bool
is_alpha c = (leb b'A' c && leb c b'Z') || (leb b'a' c && leb c b'z')

unfoldable pub is_alnum : ℕ → Bool
unfolding is_alpha is_digit
is_alnum c = is_alpha c || is_digit c

unfoldable pub is_xdigit : ℕ → Bool
unfolding is_digit
is_xdigit c = is_digit c || ((leb b'A' c && leb c b'F') || (leb b'a' c && leb c b'f'))

unfoldable pub is_lower : ℕ → Bool
is_lower c = leb b'a' c && leb c b'z'

unfoldable pub is_upper : ℕ → Bool
is_upper c = leb b'A' c && leb c b'Z'

unfoldable pub is_cntrl : ℕ → Bool
is_cntrl c = (leb 0 c && leb c 0x1f) || c == 0x7f

unfoldable pub is_space : ℕ → Bool
is_space c = c == 0x09 || ((leb 0x0a c && leb c 0x0d) || c == b' ')

unfoldable pub is_blank : ℕ → Bool
is_blank c = c == 0x09 || c == b' '

unfoldable pub is_graph : ℕ → Bool
is_graph c = leb 0x21 c && leb c 0x7e

unfoldable pub is_print : ℕ → Bool
is_print c = leb 0x20 c && leb c 0x7e

unfoldable pub is_punct : ℕ → Bool
is_punct c =
    (leb 0x21 c && leb c 0x2f)
    || ((leb 0x3a c && leb c 0x40) || ((leb 0x5b c && leb c 0x60) || (leb 0x7b c && leb c 0x7e)))

unfoldable pub to_lower : ℕ → ℕ
unfolding is_upper
to_lower c = if is_upper c then b'a' + (c - b'A') else c

unfoldable pub to_upper : ℕ → ℕ
unfolding is_lower
to_upper c = if is_lower c then b'A' + (c - b'a') else c
