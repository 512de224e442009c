-- ===== src/StringTransform/Escapes.antt =====
-- html_escape and json_stringify of include/simlib/string_transform.hh against readers.
use mathlib.Core.List.{flatten}
use simlib.Common.{
  ℕ, ◌≡◌, refl, ap, sym, ◌∙◌, true, false, arith, IsByte, Bytes, All, [], ◌∷◌, ◌++◌, List, all_of,
  ◌||◌, ◌==◌, Bool, not, if◌then◌else◌, codes, append_assoc, append-nil, length, Option, none, some,
  all_of-append, ◌+◌, ◌-◌, ◌*◌, ◌/◌, ◌%◌, ◌≤◌, ltb, lt→ltb, leb, ◌<◌, ◌&&◌,
}
use simlib.Ctype.{is_cntrl}
use simlib.StringView.Text.{str_eq, char_compare}
use simlib.StringTransform.{
  html_escaped, append_as_html_escaped, html_escape, json_escaped, safe_append, safe_append_all,
  append_stringified_json, json_stringify, dec2hex,
}

abbrev pub prepend_to : ℕ → Option Bytes → Option Bytes
prepend_to c none = none
prepend_to c (some s) = some (c ∷ s)

-- The five entities that are read, by the name between `&` and `;`. No other name is one.
abbrev pub entity : Bytes → Option ℕ
entity e =
    if str_eq e (codes "amp")
    then some b'&'
    else if str_eq e (codes "quot")
    then some b'"'
    else if str_eq e (codes "apos")
    then some b'\''
    else if str_eq e (codes "lt")
    then some b'<'
    else if str_eq e (codes "gt")
    then some b'>'
    else none

abbrev pub prepend_entity : Option ℕ → Option Bytes → Option Bytes
prepend_entity none s = none
prepend_entity (some c) s = prepend_to c s

pub data HtmlMode : Type 0 where
  text : HtmlMode
  name : Bytes → HtmlMode

-- A reader of character data. An unknown entity, and one that is not ended, are errors.
pub html_read : HtmlMode → Bytes → Option Bytes
html_read text [] = some []
html_read (name e) [] = none
html_read text (c ∷ s) = elim (c == b'&') [
  | true ↦ html_read (name []) s
  | false ↦ prepend_to c (html_read text s)
]
html_read (name e) (c ∷ s) = elim (c == b';') [
  | true ↦ prepend_entity (entity e) (html_read text s)
  | false ↦ html_read (name (e ++ c ∷ [])) s
]

html_read-escaped :
    (c : ℕ) (t : Bytes) → html_read text (html_escaped c ++ t) ≡ prepend_to c (html_read text t)
unfolding html_escaped html_read str_eq char_compare
html_read-escaped c t = ground arith

-- Each character replaced by what an escape makes of it.
abbrev each : (ℕ → Bytes) → Bytes → Bytes
each f [] = []
each f (c ∷ s) = f c ++ each f s

append_as_html_escaped-each :
    (str s : Bytes) → append_as_html_escaped str s ≡ str ++ each html_escaped s
unfolding append_as_html_escaped
append_as_html_escaped-each str [] = sym (append-nil str)
append_as_html_escaped-each str (c ∷ s) =
    append_as_html_escaped-each (str ++ html_escaped c) s
    ∙ append_assoc str (html_escaped c) (each html_escaped s)

html_read-each : (s : Bytes) → html_read text (each html_escaped s) ≡ some s
html_read-each [] = unfold html_read in refl
html_read-each (c ∷ s) =
    html_read-escaped c (each html_escaped s) ∙ ap (prepend_to c) (html_read-each s)

-- No character that opens or closes a tag or an attribute's value.
abbrev pub is_html_safe : ℕ → Bool
is_html_safe c = not (c == b'<' || (c == b'>' || (c == b'"' || c == b'\'')))

html_escaped-safe : (c : ℕ) → all_of is_html_safe (html_escaped c) ≡ true
unfolding html_escaped
html_escaped-safe c = ground arith

all_of-each :
    (f : ℕ → Bool) (esc : ℕ → Bytes)
    → ((c : ℕ) → all_of f (esc c) ≡ true)
    → (s : Bytes) → all_of f (each esc s) ≡ true
all_of-each f esc h [] = refl
all_of-each f esc h (c ∷ s) = all_of-append f (esc c) (each esc s) ∙ rw (h c, all_of-each f esc h s)

-- The text html_escape writes holds no `<`, `>` or quote, and a reader that replaces the five
-- entities, and takes no other, gets the string back.
pub html_read-html_escape :
    (s : Bytes)
    → (html_read text (html_escape s) ≡ some s) × (all_of is_html_safe (html_escape s) ≡ true)
unfolding html_escape
html_read-html_escape s =
    rw (append_as_html_escaped-each [] s)
      (html_read-each s, all_of-each is_html_safe html_escaped html_escaped-safe s)

pub data JsonMode : Type 0 where
  chars : JsonMode
  escape : JsonMode
  unicode : Bytes → JsonMode

-- The letters of JSON's short escapes.
abbrev pub json_letter : ℕ → Option ℕ
json_letter c =
    if c == b'"' || (c == b'\\' || c == b'/')
    then some c
    else if c == b'b'
    then some 8
    else if c == b'f'
    then some 12
    else if c == b'n'
    then some 10
    else if c == b'r'
    then some 13
    else if c == b't'
    then some 9
    else none

-- A hexadecimal digit of either case.
abbrev pub json_digit : ℕ → Option ℕ
json_digit c =
    if leb b'0' c && leb c b'9'
    then some (c - b'0')
    else if leb b'a' c && leb c b'f'
    then some (c - b'a' + 10)
    else if leb b'A' c && leb c b'F'
    then some (c - b'A' + 10)
    else none

abbrev pub next_digit : Option ℕ → ℕ → Option ℕ
next_digit none c = none
next_digit (some n) c = elim (json_digit c) [ none ↦ none | some d ↦ some (n * 16 + d) ]

-- The character of a code point of one byte. The others are not read.
abbrev pub ascii : Option ℕ → Option ℕ
ascii none = none
ascii (some n) = if ltb n 128 then some n else none

abbrev pub prepend : ℕ → Option (Bytes × Bytes) → Option (Bytes × Bytes)
prepend c none = none
prepend c (some (s, rest)) = some (c ∷ s, rest)

abbrev pub prepend_read : Option ℕ → Option (Bytes × Bytes) → Option (Bytes × Bytes)
prepend_read none s = none
prepend_read (some c) s = prepend c s

abbrev pub json_code : Bytes → ℕ → Option ℕ
json_code (a ∷ b ∷ d ∷ e) c =
    ascii (next_digit (next_digit (next_digit (next_digit (some 0) a) b) d) c)
json_code e c = none

-- A reader of a string behind its opening quote: the string, and what follows the closing quote. An
-- escape is one of the letters of JSON, or `u` and four hexadecimal digits of a code point below 128.
-- Any other escape, a control character and a missing quote are errors.
pub json_read : JsonMode → Bytes → Option (Bytes × Bytes)
json_read m [] = none
json_read chars (c ∷ s) = elim (c == b'"') [
  | true ↦ some ([], s)
  | false ↦ elim (c == b'\\') [
    | true ↦ json_read escape s
    | false ↦ if is_cntrl c then none else prepend c (json_read chars s)
  ]
]
json_read escape (c ∷ s) = elim (c == b'u') [
  | true ↦ json_read (unicode []) s
  | false ↦ prepend_read (json_letter c) (json_read chars s)
]
json_read (unicode e) (c ∷ s) = elim (length e == 3) [
  | true ↦ prepend_read (json_code e c) (json_read chars s)
  | false ↦ json_read (unicode (e ++ c ∷ [])) s
]

json_digit-dec2hex : (x : ℕ) → x ≤ 15 → json_digit (dec2hex x) ≡ some x
unfolding dec2hex
json_digit-dec2hex x h = ground arith

next_digit-digit : (n c d : ℕ) → json_digit c ≡ some d → next_digit (some n) c ≡ some (n * 16 + d)
next_digit-digit n c d e = rw (e, next_digit) refl

-- The digits of a control character.
json_code-cntrl :
    (c : ℕ)
    → is_cntrl c ≡ true
    → json_code (b'0' ∷ b'0' ∷ dec2hex (c / 16) ∷ []) (dec2hex (c % 16)) ≡ some c
unfolding is_cntrl
json_code-cntrl c h =
    let small : c < 128 = ground arith in
    let high =
      next_digit-digit 0 (dec2hex (c / 16)) (c / 16) (json_digit-dec2hex (c / 16) (omega arith)) in
    let low =
      next_digit-digit (0 * 16 + c / 16) (dec2hex (c % 16)) (c % 16)
        (json_digit-dec2hex (c % 16) (omega arith)) in
    let whole : (0 * 16 + c / 16) * 16 + c % 16 ≡ c = omega arith in
    ap (λ n. ascii (next_digit n (dec2hex (c % 16)))) high
    ∙ ap ascii (low ∙ ap some whole)
    ∙ rw (lt→ltb c 128 small) refl

abbrev pub read_json_string : Bytes → Option (Bytes × Bytes)
read_json_string [] = none
read_json_string (c ∷ s) = if c == b'"' then json_read chars s else none

json_read-escaped :
    (c : ℕ) (t : Bytes)
    → IsByte c
    → json_read chars (json_escaped c ++ t) ≡ prepend c (json_read chars t)
unfolding json_escaped json_read
json_read-escaped c t h = ground (arith, json_code-cntrl c)

safe_append-each : (str s : Bytes) → safe_append str s ≡ str ++ each json_escaped s
safe_append-each str [] = sym (append-nil str)
safe_append-each str (c ∷ s) =
    safe_append-each (str ++ json_escaped c) s
    ∙ append_assoc str (json_escaped c) (each json_escaped s)

each-append : (f : ℕ → Bytes) (s t : Bytes) → each f (s ++ t) ≡ each f s ++ each f t
each-append f [] t = refl
each-append f (c ∷ s) t =
    ap (λ u. f c ++ u) (each-append f s t) ∙ sym (append_assoc (f c) (each f s) (each f t))

safe_append_all-each :
    (args : List Bytes) (str : Bytes)
    → safe_append_all str args ≡ str ++ each json_escaped (flatten args)
unfolding flatten
safe_append_all-each [] str = sym (append-nil str)
safe_append_all-each (a ∷ args) str =
    safe_append_all-each args (safe_append str a)
    ∙ rw (safe_append-each str a) (
        append_assoc str (each json_escaped a) (each json_escaped (flatten args))
        ∙ ap (λ u. str ++ u) (sym (each-append json_escaped a (flatten args))))

json_read-each :
    (s rest : Bytes)
    → All IsByte s
    → json_read chars (each json_escaped s ++ b'"' ∷ rest) ≡ some (s, rest)
json_read-each [] rest h = unfold json_read in refl
json_read-each (c ∷ s) rest h =
    ap (json_read chars) (append_assoc (json_escaped c) (each json_escaped s) (b'"' ∷ rest))
    ∙ json_read-escaped c (each json_escaped s ++ b'"' ∷ rest) h.0
    ∙ ap (prepend c) (json_read-each s rest h.1)

-- For arguments that are bytes, what json_stringify writes, with anything behind it, reads as one
-- JSON string, the arguments joined, and what is behind it is left.
pub read_json_string-json_stringify :
    (args : List Bytes) (rest : Bytes)
    → All IsByte (flatten args)
    → read_json_string (json_stringify args ++ rest) ≡ some (flatten args, rest)
unfolding json_stringify append_stringified_json
read_json_string-json_stringify args rest h =
    ap (λ t. read_json_string ((t ++ b'"' ∷ []) ++ rest)) (safe_append_all-each args (b'"' ∷ []))
    ∙ ap (json_read chars) (append_assoc (each json_escaped (flatten args)) (b'"' ∷ []) rest)
    ∙ json_read-each (flatten args) rest h
