-- ===== src/SimpleParser.antt =====
-- include/simlib/simple_parser.hh: a view from which fields are cut off. A parser is the bytes that
-- are left; an operation returns what it extracts and the parser after it.
pub mod Fields
use simlib.Common.{ℕ, suc, ◌+◌, Bool, true, false, [], ◌∷◌, Bytes, ◌==◌, if◌then◌else◌, take, drop}
use simlib.StringView.Text.{remove_leading, is_eq}
use simlib.StringCompare.{compare_to}

unfoldable pub is_next : Bytes → Bytes → ℕ → Bool
is_next parser s delimiter = is_eq (compare_to parser 0 delimiter s)

-- `while (pos < size() and not is_delimiter((*this)[pos])) ++pos;`
unfoldable pub next_pos : (ℕ → Bool) → Bytes → ℕ
next_pos is_delimiter [] = 0
next_pos is_delimiter (c ∷ s) = if is_delimiter c then 0 else suc (next_pos is_delimiter s)

-- `remove_prefix(pos + 1)` removes no more than there is.
unfoldable pub extract_next : (ℕ → Bool) → Bytes → Bytes × Bytes
unfolding next_pos
extract_next is_delimiter parser =
    let pos = next_pos is_delimiter parser in (take pos parser, drop (pos + 1) parser)

unfoldable pub extract_next_non_empty : (ℕ → Bool) → Bytes → Bytes × Bytes
unfolding extract_next remove_leading
extract_next_non_empty is_delimiter parser =
    extract_next is_delimiter (remove_leading is_delimiter parser)
