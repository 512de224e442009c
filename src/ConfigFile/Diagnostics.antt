-- ===== src/ConfigFile/Diagnostics.antt =====
-- The place and the excerpt of a ParseError: throw_parse_error of load_config_from_string.
use simlib.Common.{
  ℕ, zero, suc, ◌+◌, ◌-◌, ◌/◌, ◌%◌, not, Bool, true, false, [], ◌∷◌, ◌++◌, Bytes, codes, leb, ◌==◌,
  if◌then◌else◌, length, take, drop, get_or, replicate,
}
use simlib.Ctype.{is_print}
use simlib.StringTransform.{dec2hex}
pub mod Place

-- `while (x and config[--x] != '\n') { }`
unfoldable pub last_newline : Bytes → ℕ → ℕ
last_newline config zero = zero
last_newline config (suc x) = if get_or config x 0 == b'\n' then x else last_newline config x

-- `std::count` of newlines
unfoldable pub newlines : Bytes → ℕ
newlines [] = 0
newlines (c ∷ s) = (if c == b'\n' then 1 else 0) + newlines s

-- `curr_pos() - buff.empty()`
abbrev pub error_pos : ℕ → Bool → ℕ
error_pos curr_pos empty = curr_pos - (if empty then 1 else 0)

unfoldable pub line_at : Bytes → ℕ → ℕ
unfolding last_newline newlines
line_at config pos = 1 + newlines (take (last_newline config pos + 1) config)

unfoldable pub col_at : Bytes → ℕ → ℕ
unfolding line_at
col_at config pos = pos - last_newline config pos + (if line_at config pos == 1 then 1 else 0)

-- What append_char appends.
unfoldable pub shown_char : ℕ → Bytes
shown_char c =
    if is_print c then c ∷ [] else b'\\' ∷ b'x' ∷ dec2hex (c / 16) ∷ dec2hex (c % 16) ∷ []

unfoldable pub shown_chars : Bytes → Bytes
unfolding shown_char
shown_chars [] = []
shown_chars (c ∷ s) = shown_char c ++ shown_chars s

abbrev pub context : ℕ
context = 32

unfoldable pub left_part : Bytes → ℕ → Bytes
unfolding shown_chars col_at
left_part config pos =
    if leb (col_at config pos) (context + 1)
    then (let x = last_newline config pos in shown_chars (take (pos - x) (drop x config)))
    else codes "..." ++ shown_chars (take context (drop (pos - context) config))

-- From the character behind the faulty one on, of which `n` more are shown.
unfoldable pub right_part : ℕ → Bytes → Bytes
unfolding shown_char
right_part n [] = []
right_part zero (c ∷ s) = if not (c == b'\n') then codes "..." else []
right_part (suc n) (c ∷ s) = if not (c == b'\n') then shown_char c ++ right_part n s else []

abbrev pub stress : ℕ → ℕ → Bytes
stress padding stress_len =
    b'\n' ∷ (replicate padding b' ' ++ (b'^' ∷ replicate (stress_len - 1) b'~'))

unfoldable pub diagnostics : Bytes → ℕ → Bytes
unfolding left_part right_part
diagnostics config pos =
    let left = left_part config pos in
    let c = get_or config pos 0 in
    if not (c == b'\n')
    then left
      ++ (shown_char c
          ++ (right_part context (drop (pos + 1) config)
              ++ stress (length left) (length (shown_char c))))
    else left ++ stress (length left) 1
