-- ===== src/StringTransform.antt =====
-- include/simlib/string_transform.hh: hexadecimal digits, URI, HTML and JSON escapes, padding.
-- An InplaceBuff or a std::string that is appended to is the list of its bytes.
pub mod Hex
pub mod Uri
pub mod Escapes
pub mod Padding
use simlib.Common.{
  ℕ, suc, ◌+◌, ◌-◌, ◌*◌, ◌/◌, ◌%◌, Bool, true, false, not, ◌&&◌, ◌||◌, List, [], ◌∷◌, ◌++◌, Bytes,
  ltb, leb, ◌==◌, if◌then◌else◌, length, codes, replicate, map,
}
use simlib.Ctype.{is_digit, is_alpha, is_alnum, is_xdigit, is_cntrl, to_lower}

-- `to_lower` of a string
unfoldable pub to_lower_str : Bytes → Bytes
unfolding to_lower
to_lower_str = map to_lower

-- The argument is a hexadecimal digit, as the source asserts.
unfoldable pub hex2dec : ℕ → ℕ
hex2dec c = if ltb c b'A' then c - b'0' else (10 + c) - (if leb b'a' c then b'a' else b'A')

-- The argument is at most 15, as the source asserts.
unfoldable pub dec2hex : ℕ → ℕ
dec2hex x = if ltb 9 x then b'a' - 10 + x else x + b'0'

unfoldable pub dec2_hex : ℕ → ℕ
dec2_hex x = if ltb 9 x then b'A' - 10 + x else x + b'0'

unfoldable pub to_hex : Bytes → Bytes
unfolding dec2hex
to_hex [] = []
to_hex (c ∷ s) = dec2hex (c / 16) ∷ dec2hex (c % 16) ∷ to_hex s

-- The table of `encode_uri`.
unfoldable pub is_safe : ℕ → Bool
is_safe c =
    (leb b'a' c && leb c b'z')
    || ((leb b'A' c && leb c b'Z')
        || ((leb b'0' c && leb c b'9') || (c == b'-' || (c == b'_' || (c == b'.' || c == b'~')))))

unfoldable pub encode_uri : Bytes → Bytes
unfolding is_safe dec2_hex
encode_uri [] = []
encode_uri (c ∷ s) =
    if is_safe c
    then c ∷ encode_uri s
    else b'%' ∷ dec2_hex (c / 16) ∷ dec2_hex (c % 16) ∷ encode_uri s

-- A character that begins no escape.
abbrev pub plain : ℕ → ℕ
plain c = if c == b'+' then b' ' else c

-- Two hexadecimal digits; the `|` of a multiple of 16 and a digit is their sum.
abbrev pub hex_byte : ℕ → ℕ → ℕ
hex_byte a b = hex2dec a * 16 + hex2dec b

unfoldable pub decode_uri : Bytes → Bytes
decode_uri [] = []
decode_uri (c ∷ []) = plain c ∷ []
decode_uri (c ∷ a ∷ []) = plain c ∷ plain a ∷ []
decode_uri (c ∷ a ∷ b ∷ s) = elim (c == b'%' && (is_xdigit a && is_xdigit b)) [
  | true ↦ hex_byte a b ∷ decode_uri s
  | false ↦ plain c ∷ decode_uri (a ∷ b ∷ s)
]

-- `append_as_html_escaped` of one character: what it appends.
unfoldable pub html_escaped : ℕ → Bytes
html_escaped c =
    if c == b'&'
    then codes "&amp;"
    else if c == b'"'
    then codes "&quot;"
    else if c == b'\''
    then codes "&apos;"
    else if c == b'<'
    then codes "&lt;"
    else if c == b'>'
    then codes "&gt;"
    else c ∷ []

unfoldable pub append_as_html_escaped : Bytes → Bytes → Bytes
unfolding html_escaped
append_as_html_escaped str [] = str
append_as_html_escaped str (c ∷ s) = append_as_html_escaped (str ++ html_escaped c) s

unfoldable pub html_escape : Bytes → Bytes
unfolding append_as_html_escaped
html_escape str = append_as_html_escaped [] str

-- What `safe_append` of append_stringified_json appends for one character.
unfoldable pub json_escaped : ℕ → Bytes
unfolding is_cntrl dec2hex
json_escaped c =
    if c == b'"'
    then b'\\' ∷ b'"' ∷ []
    else if c == b'\n'
    then b'\\' ∷ b'n' ∷ []
    else if c == b'\\'
    then b'\\' ∷ b'\\' ∷ []
    else if is_cntrl c
    then codes "\\u00" ++ (dec2hex (c / 16) ∷ dec2hex (c % 16) ∷ [])
    else c ∷ []

abbrev pub safe_append : Bytes → Bytes → Bytes
safe_append str [] = str
safe_append str (c ∷ s) = safe_append (str ++ json_escaped c) s

-- One or more arguments, already made strings.
abbrev pub safe_append_all : Bytes → List Bytes → Bytes
safe_append_all str [] = str
safe_append_all str (a ∷ args) = safe_append_all (safe_append str a) args

unfoldable pub append_stringified_json : Bytes → List Bytes → Bytes
unfolding json_escaped
append_stringified_json str args = safe_append_all (str ++ b'"' ∷ []) args ++ b'"' ∷ []

unfoldable pub json_stringify : List Bytes → Bytes
unfolding append_stringified_json
json_stringify args = append_stringified_json [] args

pub data Adjustment : Type 0 where
  left right : Adjustment

-- `resize` and `fill` after the string, or before it.
abbrev pub padded : Adjustment → Bytes → ℕ → ℕ → Bytes
padded left str n filler = str ++ replicate n filler
padded right str n filler = replicate n filler ++ str

unfoldable pub padded_string : Bytes → ℕ → Adjustment → ℕ → Bytes
padded_string str len adj filler =
    if leb len (length str) then str else padded adj str (len - length str) filler
