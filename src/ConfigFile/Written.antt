-- ===== src/ConfigFile/Written.antt =====
-- One line of a configuration text, `name: value`, as load_config_from_string reads it.
use simlib.Common.{
  ℕ, ◌-◌, ◌≡◌, ◌≢◌, refl, ap, ◌∙◌, Bool, true, false, List, [], ◌∷◌, ◌++◌, Bytes, arith, All,
  IsByte, length, Bool-cases, inl, inr, ◌==◌, if◌then◌else◌, all_of, &&-true,
}
use simlib.Ctype.{is_space, is_cntrl}
use simlib.StringView.Text.{leading, remove_leading}
use simlib.ConfigFile.Value.{ok, extract_value, ends_literal}
use simlib.ConfigFile.Escape.{
  escape_string, escape_with, is_string_literal, opens_literal, escape_to_double_quoted_string_impl,
  escape_to_single_quoted_string, needs_escape,
}
use simlib.ConfigFile.RoundTrip.{extract_value-escape_string}
use simlib.ConfigFile.Load.{
  is_ws, is_name, load_value, next, old_var, after_value, assign, operator_and_value, directive,
  load_line,
}
use simlib.ConfigFile.{Variable, Vars, unset, put_var}

leading-append :
    (f : ℕ → Bool) (s : Bytes) (d : ℕ) (t : Bytes)
    → all_of f s ≡ true
    → f d ≡ false
    → (leading f (s ++ d ∷ t) ≡ s) × (remove_leading f (s ++ d ∷ t) ≡ d ∷ t)
unfolding leading remove_leading
leading-append f [] d t h e = (rw e, rw e)
leading-append f (c ∷ s) d t h e =
    let both = &&-true (f c) (all_of f s) h in
    let ih = leading-append f s d t both.1 e in
    (rw (both.0, leading) (ap (◌∷◌ c) ih.0), rw (both.0, remove_leading) ih.1)

-- The first character of a written value begins no comment, no array and no new line.
abbrev Starts : ℕ → Type 0
Starts c = (is_space c ≡ false) × ((c == b'[') ≡ false) × ((c == b'#') ≡ false)

abbrev Begins : Bytes → Type 0
Begins [] = ⊥
Begins (c ∷ t) = Starts c

literal-Begins : (s : Bytes) → is_string_literal s ≡ true → Begins s
unfolding is_string_literal
literal-Begins [] h = absurd (cc h)
literal-Begins (c ∷ t) h = unfold opens_literal in (ground arith, ground arith, ground arith)

escape_string-Begins : (s : Bytes) → Begins (escape_string s)
unfolding escape_string escape_with escape_to_double_quoted_string_impl
    escape_to_single_quoted_string
escape_string-Begins s = elim (Bool-cases (needs_escape is_cntrl s)) [
  | inl e ↦ rw (e, Begins) (unfold is_space in (refl, refl, refl))
  | inr e ↦ elim (Bool-cases (is_string_literal s)) [
    | inl k ↦ rw (e, k, Begins) (literal-Begins s k)
    | inr k ↦ rw (e, k, Begins) (unfold is_space in (refl, refl, refl))
  ]
]

-- A value that has been written, read into a variable.
abbrev pub written : ℕ → Variable → Bytes → Bytes → Variable
written size old v rest = record (if old.set then unset old else old) {
  set = true;
  array = false;
  str = v;
  beg = size - length (escape_string v ++ b'\n' ∷ rest);
  end = size - length (b'\n' ∷ rest);
}

load_value-written :
    (size : ℕ) (old : Variable) (v rest : Bytes)
    → All (λ c. IsByte c × (c ≢ 0)) v
    → load_value size old (escape_string v ++ b'\n' ∷ rest)
      ≡ (written size old v rest, ok tt (b'\n' ∷ rest))
load_value-written size old v rest h =
    go (escape_string v) (escape_string-Begins v)
      (extract_value-escape_string false v b'\n' rest h (unfold ends_literal in refl)).0
  where
    go :
        (w : Bytes)
        → Begins w
        → extract_value false (w ++ b'\n' ∷ rest) ≡ ok v (b'\n' ∷ rest)
        → load_value size old (w ++ b'\n' ∷ rest) ≡ (
          record (if old.set then unset old else old) {
            set = true;
            array = false;
            str = v;
            beg = size - length (w ++ b'\n' ∷ rest);
            end = size - length (b'\n' ∷ rest);
          },
          ok tt (b'\n' ∷ rest),
        )
    go [] b e = absurd b
    go (c ∷ t) (sp, br, cm) e =
        unfold load_value in (let nl : (c == b'\n') ≡ false = no_newline c sp in rw (br, nl, cm, e))
      where
        no_newline : (c : ℕ) → is_space c ≡ false → (c == b'\n') ≡ false
        no_newline c h = unfold is_space in ground arith

-- A name, and the value that is written for it.
abbrev pub Entry : Type 0
Entry = Bytes × Bytes

pub record IsEntry (e : Entry) : Type 0 where
  pub name_nonempty : e.0 ≢ []
  pub name_chars : all_of is_name e.0 ≡ true
  pub text : All (λ c. IsByte c × (c ≢ 0)) e.1

-- `name: value` on a line of its own.
abbrev pub line_of : Entry → Bytes → Bytes
line_of (name, v) rest = name ++ b':' ∷ b' ' ∷ (escape_string v ++ b'\n' ∷ rest)

abbrev pub config_of : List Entry → Bytes → Bytes
config_of [] rest = rest
config_of (e ∷ entries) rest = line_of e (config_of entries rest)

Begins-no_ws : (w rest : Bytes) → Begins w → remove_leading is_ws (w ++ rest) ≡ w ++ rest
Begins-no_ws [] rest b = absurd b
Begins-no_ws (c ∷ w) rest b = unfold remove_leading is_ws in ground arith

ws_stays : (c : ℕ) (t : Bytes) → is_ws c ≡ false → remove_leading is_ws (c ∷ t) ≡ c ∷ t
unfolding remove_leading
ws_stays c t h = rw h

ws_skips : (t : Bytes) → remove_leading is_ws (b' ' ∷ t) ≡ remove_leading is_ws t
unfolding remove_leading is_ws
ws_skips t = refl

after_value-newline :
    (vars : Vars) (rest : Bytes) → after_value vars (ok tt (b'\n' ∷ rest)) ≡ next vars rest
after_value-newline vars rest = unfold after_value remove_leading is_ws in refl

assign-written :
    (size : ℕ) (vars : Vars) (name v rest : Bytes)
    → All (λ c. IsByte c × (c ≢ 0)) v
    → assign size true vars name (escape_string v ++ b'\n' ∷ rest)
      ≡ next (put_var vars name (written size (old_var vars name) v rest)) rest
unfolding assign
assign-written size vars name v rest h =
    rw (load_value-written size (old_var vars name) v rest h) (after_value-newline _ rest)

operator-written :
    (size : ℕ) (vars : Vars) (name v rest : Bytes)
    → All (λ c. IsByte c × (c ≢ 0)) v
    → operator_and_value size true vars name (b':' ∷ b' ' ∷ (escape_string v ++ b'\n' ∷ rest))
      ≡ next (put_var vars name (written size (old_var vars name) v rest)) rest
unfolding operator_and_value
operator-written size vars name v rest h =
    ap (assign size true vars name) (
      ws_skips (escape_string v ++ b'\n' ∷ rest)
      ∙ Begins-no_ws (escape_string v) (b'\n' ∷ rest) (escape_string-Begins v))
    ∙ assign-written size vars name v rest h

name_first :
    (n : ℕ) → is_name n ≡ true → (is_ws n ≡ false) × ((n == b'\n') ≡ false) × ((n == b'#') ≡ false)
unfolding is_name is_ws
name_first n h = (ground arith, ground arith, ground arith)

first_char :
    (size : ℕ) (vars : Vars) (n : ℕ) (t : Bytes)
    → is_name n ≡ true
    → load_line size true vars (n ∷ t) ≡ directive size true vars (n ∷ t)
unfolding load_line
first_char size vars n t h =
    let (ws, nl, cm) = name_first n h in rw (ws_stays n t ws, nl, cm, load_line)

colon_name : is_name b':' ≡ false
unfolding is_name
colon_name = refl

colon_ws : is_ws b':' ≡ false
unfolding is_ws
colon_ws = refl

directive-written :
    (size : ℕ) (vars : Vars) (n : ℕ) (ns t : Bytes)
    → all_of is_name (n ∷ ns) ≡ true
    → directive size true vars (n ∷ (ns ++ b':' ∷ t))
      ≡ operator_and_value size true vars (n ∷ ns) (b':' ∷ t)
unfolding directive
directive-written size vars n ns t h =
    let cut = leading-append is_name (n ∷ ns) b':' t h colon_name in
    rw (cut.0, directive)
      (rw cut.1 (ap (operator_and_value size true vars (n ∷ ns)) (ws_stays b':' t colon_ws)))

pub load_line-written :
    (size : ℕ) (vars : Vars) (e : Entry) (rest : Bytes)
    → IsEntry e
    → load_line size true vars (line_of e rest)
      ≡ next (put_var vars e.0 (written size (old_var vars e.0) e.1 rest)) rest
load_line-written size vars ([], v) rest h = absurd (h.name_nonempty refl)
load_line-written size vars (n ∷ ns, v) rest h =
    first_char size vars n _ (&&-true (is_name n) (all_of is_name ns) h.name_chars).0
    ∙ directive-written size vars n ns _ h.name_chars
    ∙ operator-written size vars (n ∷ ns) v rest h.text
