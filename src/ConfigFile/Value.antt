-- ===== src/ConfigFile/Value.antt =====
-- extract_value of src/config_file.cc: a quoted string, or a literal, at the front of the buffer.
use simlib.Common.{
  ℕ, zero, suc, ◌+◌, Bool, true, false, not, ◌&&◌, ◌||◌, [], ◌∷◌, ◌++◌, Option, none, some, Bytes,
  ◌==◌, if◌then◌else◌, get_or, take, drop, length,
}
use simlib.Ctype.{is_space, is_xdigit}
use simlib.StringTransform.{hex_byte}
use simlib.StringView.Text.{leading}

-- Why throw_parse_error is called.
pub data Reason : Type 0 where
  missing_single_quote : Reason
  missing_double_quote : Reason
  invalid_hexadecimal_digit : Reason
  unknown_escape_sequence : Reason
  invalid_beginning : Reason
  invalid_name : Reason
  incomplete_directive : Bytes → Reason
  invalid_assignment_operator : Reason
  missing_bracket : Reason
  unknown_sequence : Reason

-- A result with the buffer after it; an error with the buffer at the throw; or a fault: a read
-- outside the buffer, or a loop that its fuel did not suffice for.
pub data Parsed {ℓ} (A : Type ℓ) : Type ℓ where
  ok : A → Bytes → Parsed A
  err : Reason → Bytes → Parsed A
  fault : Parsed A

-- Whether the character before was a quote, whose meaning the next one decides.
pub data SingleMode : Type 0 where
  inside quote : SingleMode

unfoldable pub single_quoted : SingleMode → Bytes → Bytes → Parsed Bytes
single_quoted m res [] = fault
single_quoted inside res (c ∷ s) = elim (c == b'\n') [
  | true ↦ err missing_single_quote (c ∷ s)
  | false ↦ elim (c == b'\'') [
    | true ↦ single_quoted quote res s
    | false ↦ single_quoted inside (res ++ c ∷ []) s
  ]
]
single_quoted quote res (c ∷ s) = elim (c == b'\'') [
  | true ↦ single_quoted inside (res ++ c ∷ []) s
  | false ↦ ok res (c ∷ s)
]

-- The characters for which the `switch` appends one character.
unfoldable pub simple_escape : ℕ → Option ℕ
simple_escape c =
    if c == b'\'' || (c == b'"' || (c == b'?' || c == b'\\'))
    then some c
    else if c == b't'
    then some 0x09
    else if c == b'a'
    then some 0x07
    else if c == b'b'
    then some 0x08
    else if c == b'f'
    then some 0x0c
    else if c == b'n'
    then some 0x0a
    else if c == b'r'
    then some 0x0d
    else if c == b'v'
    then some 0x0b
    else none

-- Where in the loop body the next character is read: at the top, behind a backslash, behind `\x`,
-- and behind the first of the two digits.
pub data DoubleMode : Type 0 where
  top escape hex_first : DoubleMode
  hex_second : ℕ → DoubleMode

unfoldable pub double_quoted : DoubleMode → Bytes → Bytes → Parsed Bytes
double_quoted m res [] = fault
double_quoted top res (c ∷ s) = elim (c == b'\n') [
  | true ↦ err missing_double_quote (c ∷ s)
  | false ↦ elim (c == b'"') [
    | true ↦ ok res s
    | false ↦ elim (c == b'\\') [
      | true ↦ double_quoted escape res s
      | false ↦ double_quoted top (res ++ c ∷ []) s
    ]
  ]
]
double_quoted escape res (c ∷ s) = elim (simple_escape c) [
  | some v ↦ double_quoted top (res ++ v ∷ []) s
  | none ↦ elim (c == b'x') [
    | true ↦ double_quoted hex_first res s
    | false ↦ err unknown_escape_sequence (c ∷ s)
  ]
]
double_quoted hex_first res (c ∷ s) = elim (is_xdigit c) [
  | true ↦ double_quoted (hex_second c) res s
  | false ↦ err invalid_hexadecimal_digit (c ∷ s)
]
double_quoted (hex_second a) res (c ∷ s) = elim (is_xdigit c) [
  | true ↦ double_quoted top (res ++ hex_byte a c ∷ []) s
  | false ↦ err invalid_hexadecimal_digit (c ∷ s)
]

-- The characters that end a literal.
unfoldable pub ends_literal : Bool → ℕ → Bool
ends_literal is_in_array c = c == b'\n' || (c == b'#' || (is_in_array && (c == b']' || c == b',')))

-- `while (is_space(buff[i])) --i;`; `none` where `i` would fall below 0.
unfoldable pub trim : Bytes → ℕ → Option ℕ
trim buff zero = if is_space (get_or buff 0 0) then none else some 0
trim buff (suc i) = if is_space (get_or buff (suc i) 0) then trim buff i else some (suc i)

-- A literal. The scan reads from the second character on and must find its end in the buffer.
unfoldable pub literal : Bool → Bytes → Parsed Bytes
literal is_in_array [] = fault
literal is_in_array (c ∷ s) =
    let i = length (leading (λ d. not (ends_literal is_in_array d)) s) in
    elim (drop i s) [
      | [] ↦ fault
      | d ∷ rest ↦ elim (trim (c ∷ s) i) [
        | none ↦ fault
        | some j ↦ ok (take (j + 1) (c ∷ s)) (drop (j + 1) (c ∷ s))
      ]
    ]

unfoldable pub extract_value : Bool → Bytes → Parsed Bytes
extract_value is_in_array [] = fault
extract_value is_in_array (c ∷ s) =
    if c == b'\''
    then single_quoted inside [] s
    else if c == b'"'
    then double_quoted top [] s
    else if c == b'[' || (is_in_array && (c == b',' || c == b']'))
    then err invalid_beginning (c ∷ s)
    else literal is_in_array (c ∷ s)
