-- ===== src/ConfigFile/Escape.antt =====
-- The writers of src/config_file.cc: is_string_literal and the escapes of a string.
use simlib.Common.{
  ℕ, ◌/◌, ◌%◌, Bool, false, not, ◌||◌, [], ◌∷◌, ◌++◌, Bytes, ◌==◌, if◌then◌else◌, all_of,
}
use simlib.Ctype.{is_space, is_cntrl, is_print}
use simlib.StringTransform.{dec2hex}

-- `str.back()` of a string that is not empty
abbrev pub back : ℕ → Bytes → ℕ
back c [] = c
back c (d ∷ s) = back d s

-- The first of the four tests on the first character, and the loop.
unfoldable pub opens_literal : ℕ → Bool
unfolding is_space
opens_literal c = not ((c == b'[' || (c == b'\'' || (c == b'"' || c == b'#'))) || is_space c)

unfoldable pub in_literal : ℕ → Bool
in_literal c = not (c == b'\n' || (c == b']' || (c == b',' || c == b'#')))

unfoldable pub is_string_literal : Bytes → Bool
unfolding opens_literal in_literal
is_string_literal [] = false
is_string_literal (c ∷ s) =
    if not (opens_literal c) || is_space (back c s) then false else all_of in_literal (c ∷ s)

unfoldable pub single_quoted_body : Bytes → Bytes
single_quoted_body [] = []
single_quoted_body (c ∷ s) =
    if c == b'\'' then c ∷ b'\'' ∷ single_quoted_body s else c ∷ single_quoted_body s

unfoldable pub escape_to_single_quoted_string : Bytes → Bytes
unfolding single_quoted_body
escape_to_single_quoted_string str = b'\'' ∷ (single_quoted_body str ++ b'\'' ∷ [])

abbrev backslashed : ℕ → Bytes
backslashed c = b'\\' ∷ c ∷ []

-- What the `switch` appends for one character; `func` says which others are written in hexadecimal.
unfoldable pub double_escaped : (ℕ → Bool) → ℕ → Bytes
double_escaped func c =
    if c == b'\\'
    then backslashed b'\\'
    else if c == 0x00
    then backslashed b'0'
    else if c == b'"'
    then backslashed b'"'
    else if c == b'?'
    then backslashed b'?'
    else if c == 0x07
    then backslashed b'a'
    else if c == 0x08
    then backslashed b'b'
    else if c == 0x0c
    then backslashed b'f'
    else if c == 0x0a
    then backslashed b'n'
    else if c == 0x0d
    then backslashed b'r'
    else if c == 0x09
    then backslashed b't'
    else if c == 0x0b
    then backslashed b'v'
    else if func c
    then b'\\' ∷ b'x' ∷ dec2hex (c / 16) ∷ dec2hex (c % 16) ∷ []
    else c ∷ []

unfoldable pub double_quoted_body : (ℕ → Bool) → Bytes → Bytes
unfolding double_escaped
double_quoted_body func [] = []
double_quoted_body func (c ∷ s) = double_escaped func c ++ double_quoted_body func s

unfoldable pub escape_to_double_quoted_string_impl : Bytes → (ℕ → Bool) → Bytes
unfolding double_quoted_body
escape_to_double_quoted_string_impl str func = b'"' ∷ (double_quoted_body func str ++ b'"' ∷ [])

unfoldable pub escape_to_double_quoted_string : Bytes → Bytes
escape_to_double_quoted_string str = escape_to_double_quoted_string_impl str is_cntrl

abbrev pub not_print : ℕ → Bool
not_print c = not (is_print c)

unfoldable pub full_escape_to_double_quoted_string : Bytes → Bytes
full_escape_to_double_quoted_string str = escape_to_double_quoted_string_impl str not_print

-- The loop that looks for a character that must be escaped.
unfoldable pub needs_escape : (ℕ → Bool) → Bytes → Bool
needs_escape func [] = false
needs_escape func (c ∷ s) = (c == b'\'' || func c) || needs_escape func s

-- escape_string and full_escape_string differ in the class of characters alone.
unfoldable pub escape_with : (ℕ → Bool) → Bytes → Bytes
unfolding needs_escape is_string_literal
escape_with func str =
    if needs_escape func str
    then escape_to_double_quoted_string_impl str func
    else if is_string_literal str
    then str
    else escape_to_single_quoted_string str

unfoldable pub escape_string : Bytes → Bytes
escape_string str = escape_with is_cntrl str

unfoldable pub full_escape_string : Bytes → Bytes
full_escape_string str = escape_with not_print str
