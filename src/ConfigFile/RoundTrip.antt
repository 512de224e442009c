-- ===== src/ConfigFile/RoundTrip.antt =====
-- extract_value of src/config_file.cc on what the writers of that file write.
use simlib.Common.{
  ℕ, zero, suc, ◌+◌, ◌≡◌, ◌≢◌, refl, sym, ap, ◌∙◌, Bool, true, false, not, [], ◌∷◌, ◌++◌, Bytes,
  arith, All, IsByte, length, Bool-cases, inl, inr, ◌==◌, if◌then◌else◌, some, get_or, ◌||◌, ◌&&◌,
  append_assoc, append-nil, all_of, &&-true, take-length, drop-length, ◌/◌, ◌%◌,
}
use simlib.Ctype.{is_space, is_cntrl, is_print}
use simlib.StringTransform.Hex.{hex_byte-dec2hex, hex2dec-dec2hex}
use simlib.StringView.Text.{leading}
use simlib.ConfigFile.Value.{
  ok, err, Reason, inside, single_quoted, simple_escape, top, double_quoted, ends_literal, trim,
  literal, extract_value, unknown_escape_sequence,
}
use simlib.ConfigFile.Escape.{
  back, opens_literal, in_literal, is_string_literal, single_quoted_body,
  escape_to_single_quoted_string, double_escaped, double_quoted_body,
  escape_to_double_quoted_string_impl, not_print, needs_escape, escape_with, escape_string,
  full_escape_string,
}

-- A character of a double-quoted string, with anything behind it.
double_quoted-escaped :
    (func : ℕ → Bool) (c : ℕ) (res rest : Bytes)
    → IsByte c
    → c ≢ 0
    → double_quoted top res (double_escaped func c ++ rest) ≡ double_quoted top (res ++ c ∷ []) rest
unfolding double_escaped double_quoted simple_escape
double_quoted-escaped func c res rest h nz =
    let hex = hex_byte-dec2hex c h in
    let d = hex2dec-dec2hex (c / 16) (omega arith) in
    let e = hex2dec-dec2hex (c % 16) (omega arith) in ground arith

abbrev IsText : ℕ → Type 0
IsText c = IsByte c × (c ≢ 0)

double_quoted-body :
    (func : ℕ → Bool) (s res rest : Bytes)
    → All IsText s
    → double_quoted top res (double_quoted_body func s ++ rest) ≡ double_quoted top (res ++ s) rest
unfolding double_quoted_body
double_quoted-body func [] res rest h = ap (λ r. double_quoted top r rest) (sym (append-nil res))
double_quoted-body func (c ∷ s) res rest h =
    ap (double_quoted top res)
      (append_assoc (double_escaped func c) (double_quoted_body func s) rest)
    ∙ double_quoted-escaped func c res (double_quoted_body func s ++ rest) h.0.0 h.0.1
    ∙ double_quoted-body func s (res ++ c ∷ []) rest h.1
    ∙ ap (λ r. double_quoted top r rest) (append_assoc res (c ∷ []) s)

double_quoted-end : (res rest : Bytes) → double_quoted top res (b'"' ∷ rest) ≡ ok res rest
unfolding double_quoted
double_quoted-end res rest = refl

-- For a string of bytes without NUL, extract_value reads back what escape_to_double_quoted_string_impl
-- writes, whichever characters it is told to write in hexadecimal, and leaves what is behind it.
pub extract_value-double_quoted :
    (func : ℕ → Bool) (b : Bool) (s rest : Bytes)
    → All IsText s
    → extract_value b (escape_to_double_quoted_string_impl s func ++ rest) ≡ ok s rest
unfolding extract_value escape_to_double_quoted_string_impl
extract_value-double_quoted func b s rest h =
    ap (double_quoted top []) (append_assoc (double_quoted_body func s) (b'"' ∷ []) rest)
    ∙ double_quoted-body func s [] (b'"' ∷ rest) h
    ∙ double_quoted-end s rest

double_quoted-nul :
    (func : ℕ → Bool) (res rest : Bytes)
    → double_quoted top res (double_escaped func 0 ++ rest)
      ≡ err unknown_escape_sequence (b'0' ∷ rest)
unfolding double_escaped double_quoted simple_escape
double_quoted-nul func res rest = refl

double_quoted_body-append :
    (func : ℕ → Bool) (s t : Bytes)
    → double_quoted_body func (s ++ t) ≡ double_quoted_body func s ++ double_quoted_body func t
unfolding double_quoted_body
double_quoted_body-append func [] t = refl
double_quoted_body-append func (c ∷ s) t =
    ap (λ u. double_escaped func c ++ u) (double_quoted_body-append func s t)
    ∙ sym (
        append_assoc (double_escaped func c) (double_quoted_body func s)
          (double_quoted_body func t))

-- A string that holds a NUL, behind bytes that are none, is not read back from its double-quoted
-- form: extract_value fails with an unknown escape sequence at the `0` that is written for the NUL.
pub extract_value-nul :
    (func : ℕ → Bool) (b : Bool) (s t rest : Bytes)
    → All IsText s
    → extract_value b (escape_to_double_quoted_string_impl (s ++ 0 ∷ t) func ++ rest)
      ≡ err unknown_escape_sequence (b'0' ∷ (double_quoted_body func t ++ (b'"' ∷ rest)))
unfolding extract_value escape_to_double_quoted_string_impl
extract_value-nul func b s t rest h =
    let body = double_quoted_body func t in
    let behind = body ++ (b'"' ∷ rest) in
    ap (double_quoted top []) (
      append_assoc (double_quoted_body func (s ++ 0 ∷ t)) (b'"' ∷ []) rest
      ∙ ap (λ u. u ++ (b'"' ∷ rest)) (double_quoted_body-append func s (0 ∷ t))
      ∙ append_assoc (double_quoted_body func s) (double_quoted_body func (0 ∷ t)) (b'"' ∷ rest)
      ∙ ap (λ u. double_quoted_body func s ++ u)
          (unfold double_quoted_body in append_assoc (double_escaped func 0) body (b'"' ∷ rest)))
    ∙ double_quoted-body func s [] (double_escaped func 0 ++ behind) h
    ∙ double_quoted-nul func s behind

single_quoted-body :
    (s res : Bytes) (d : ℕ) (rest : Bytes)
    → all_of (λ c. not (c == b'\n')) s ≡ true
    → d ≢ b'\''
    → single_quoted inside res (single_quoted_body s ++ (b'\'' ∷ d ∷ rest))
      ≡ ok (res ++ s) (d ∷ rest)
unfolding single_quoted single_quoted_body
single_quoted-body [] res d rest h ne = ground (arith, append-nil res)
single_quoted-body (c ∷ s) res d rest h ne =
    ground (arith, single_quoted-body s (res ++ c ∷ []) d rest, append_assoc res (c ∷ []) s)

-- For a string without a newline, extract_value reads back what escape_to_single_quoted_string writes
-- and leaves what is behind it, if that does not begin with a further quote.
pub extract_value-single_quoted :
    (b : Bool) (s : Bytes) (d : ℕ) (rest : Bytes)
    → all_of (λ c. not (c == b'\n')) s ≡ true
    → d ≢ b'\''
    → extract_value b (escape_to_single_quoted_string s ++ d ∷ rest) ≡ ok s (d ∷ rest)
unfolding extract_value escape_to_single_quoted_string
extract_value-single_quoted b s d rest h ne =
    ap (single_quoted inside []) (append_assoc (single_quoted_body s) (b'\'' ∷ []) (d ∷ rest))
    ∙ single_quoted-body s [] d rest h ne

leading-literal :
    (b : Bool) (s : Bytes) (d : ℕ) (rest : Bytes)
    → all_of in_literal s ≡ true
    → ends_literal b d ≡ true
    → leading (λ c. not (ends_literal b c)) (s ++ d ∷ rest) ≡ s
unfolding leading
leading-literal b [] d rest h e = rw e
leading-literal b (c ∷ s) d rest h e =
    let both = &&-true (in_literal c) (all_of in_literal s) h in
    rw (inner b c both.0, leading) (ap (◌∷◌ c) (leading-literal b s d rest both.1 e))
  where
    inner : (b : Bool) (c : ℕ) → in_literal c ≡ true → ends_literal b c ≡ false
    inner b c h = unfold in_literal ends_literal in ground arith

get_or-back : (c : ℕ) (s rest : Bytes) → get_or (c ∷ (s ++ rest)) (length s) 0 ≡ back c s
get_or-back c [] rest = refl
get_or-back c (d ∷ s) rest = get_or-back d s rest

trim-last : (buff : Bytes) (i : ℕ) → is_space (get_or buff i 0) ≡ false → trim buff i ≡ some i
unfolding trim
trim-last buff zero h = rw h
trim-last buff (suc i) h = rw h

literal-read :
    (b : Bool) (c : ℕ) (s : Bytes) (d : ℕ) (rest : Bytes)
    → all_of in_literal (c ∷ s) ≡ true
    → is_space (back c s) ≡ false
    → ends_literal b d ≡ true
    → literal b (c ∷ (s ++ d ∷ rest)) ≡ ok (c ∷ s) (d ∷ rest)
unfolding literal
literal-read b c s d rest h sp e =
    let both = &&-true (in_literal c) (all_of in_literal s) h in
    let t = trim-last (c ∷ (s ++ d ∷ rest)) (length s) (rw (get_or-back c s (d ∷ rest)) sp) in
    let one : length s + 1 ≡ suc (length s) = omega arith in
    let scan = leading-literal b s d rest both.1 e in
    rw (scan, drop-length s (d ∷ rest), literal)
      (rw scan (rw t (rw (one, take-length s (d ∷ rest)) (rw (drop-length s (d ∷ rest))))))

-- A string that is_string_literal accepts is read by extract_value as it stands where what follows
-- ends a literal: a newline or a `#`, and in an array also a comma or a closing bracket.
pub extract_value-literal :
    (b : Bool) (s : Bytes) (d : ℕ) (rest : Bytes)
    → is_string_literal s ≡ true
    → ends_literal b d ≡ true
    → extract_value b (s ++ d ∷ rest) ≡ ok s (d ∷ rest)
unfolding extract_value is_string_literal
extract_value-literal b [] d rest h e = cc
extract_value-literal b (c ∷ s) d rest h e =
    elim (Bool-cases (not (opens_literal c) || is_space (back c s))) [
      | inl bad ↦ cc (rw bad at h)
      | inr good ↦
          let inner = rw good at h in
          rw (first b c (opens c (back c s) good) inner)
            (literal-read b c s d rest inner (ground arith) e)
    ]
  where
    opens : (c e : ℕ) → not (opens_literal c) || is_space e ≡ false → opens_literal c ≡ true
    opens c e h = ground arith

    first :
        (b : Bool) (c : ℕ)
        → opens_literal c ≡ true
        → (in_literal c && all_of in_literal s) ≡ true
        → (if c == b'\''
            then single_quoted inside [] (s ++ d ∷ rest)
            else if c == b'"'
            then double_quoted top [] (s ++ d ∷ rest)
            else if c == b'[' || (b && (c == b',' || c == b']'))
            then err Reason.invalid_beginning (c ∷ (s ++ d ∷ rest))
            else literal b (c ∷ (s ++ d ∷ rest)))
          ≡ literal b (c ∷ (s ++ d ∷ rest))
    first b c h k = unfold opens_literal in_literal in ground arith

needs_escape-none :
    (func : ℕ → Bool) (s : Bytes)
    → func b'\n' ≡ true
    → needs_escape func s ≡ false
    → all_of (λ c. not (c == b'\n')) s ≡ true
unfolding needs_escape
needs_escape-none func [] nl h = refl
needs_escape-none func (c ∷ s) nl h =
    rw (no_newline c (ground arith)) (needs_escape-none func s nl (ground arith))
  where
    no_newline : (c : ℕ) → func c ≡ false → not (c == b'\n') ≡ true
    no_newline c h = elim (Bool-cases (c == b'\n')) [
      | inr e ↦ rw e
      | inl e ↦ let e' : c ≡ b'\n' = ground arith in cc (rw e' at h, nl)
    ]

ends-ne-quote : (b : Bool) (d : ℕ) → ends_literal b d ≡ true → d ≢ b'\''
unfolding ends_literal
ends-ne-quote b d h e = ground arith

escape_with-read :
    (func : ℕ → Bool) (b : Bool) (s : Bytes) (d : ℕ) (rest : Bytes)
    → func b'\n' ≡ true
    → All IsText s
    → ends_literal b d ≡ true
    → extract_value b (escape_with func s ++ d ∷ rest) ≡ ok s (d ∷ rest)
unfolding escape_with
escape_with-read func b s d rest nl h e = elim (Bool-cases (needs_escape func s)) [
  | inl double ↦ rw double (extract_value-double_quoted func b s (d ∷ rest) h)
  | inr plain ↦ elim (Bool-cases (is_string_literal s)) [
    | inl lit ↦ rw (plain, lit) (extract_value-literal b s d rest lit e)
    | inr other ↦
        rw (plain, other)
          (extract_value-single_quoted b s d rest (needs_escape-none func s nl plain)
            (ends-ne-quote b d e))
  ]
]

-- For a string of bytes without NUL, extract_value reads back what escape_string and
-- full_escape_string write, in an array and outside one, whichever of the three notations they choose,
-- where what follows ends a literal, and leaves that.
pub extract_value-escape_string :
    (b : Bool) (s : Bytes) (d : ℕ) (rest : Bytes)
    → All (λ c. IsByte c × (c ≢ 0)) s
    → ends_literal b d ≡ true
    → (extract_value b (escape_string s ++ d ∷ rest) ≡ ok s (d ∷ rest))
      × (extract_value b (full_escape_string s ++ d ∷ rest) ≡ ok s (d ∷ rest))
unfolding escape_string full_escape_string
extract_value-escape_string b s d rest h e = (
  escape_with-read is_cntrl b s d rest (unfold is_cntrl in refl) h e,
  escape_with-read not_print b s d rest (unfold is_print in refl) h e,
)
