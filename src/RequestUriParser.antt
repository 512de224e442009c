-- ===== src/RequestUriParser.antt =====
-- include/simlib/request_uri_parser.hh: the arguments of a request URI and its query. A parser is the
-- bytes that are left; an operation returns what it extracts and the parser after it.
pub mod Laws
use simlib.Common.{
  ℕ, suc, ◌+◌, ◌-◌, Bool, true, false, not, ◌&&◌, ◌||◌, [], ◌∷◌, Bytes, ◌==◌, if◌then◌else◌, take,
  drop,
}

-- `while (pos < buff.size() && buff[pos] != '/' && buff[pos] != '?') ++pos;`, from `pos` on.
unfoldable pub arg_end : Bytes → ℕ
arg_end [] = 0
arg_end (c ∷ s) = if not (c == b'/') && not (c == b'?') then suc (arg_end s) else 0

unfoldable pub extract_next_arg : Bytes → Bytes × Bytes
unfolding arg_end
extract_next_arg [] = ([], [])
extract_next_arg (c ∷ s) =
    if not (c == b'/')
    then ([], c ∷ s)
    else let pos = 1 + arg_end s in (take (pos - 1) (drop 1 (c ∷ s)), drop pos (c ∷ s))

unfoldable pub extract_query : Bytes → Bytes × Bytes
extract_query [] = ([], [])
extract_query (c ∷ s) = if not (c == b'?') then ([], c ∷ s) else (s, [])
