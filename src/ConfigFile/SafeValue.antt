-- ===== src/ConfigFile/SafeValue.antt =====
-- extract_value of src/config_file.cc: the bounds of its reads, and what it takes.
use simlib.Common.{
  ℕ, zero, suc, ◌+◌, ◌<◌, ◌≤◌, ◌≡◌, ◌≢◌, refl, Bool, true, false, not, [], ◌∷◌, ◌++◌, Bytes, arith,
  length, Bool-cases, inl, inr, ◌==◌, drop, some, get_or, length-drop, Option-cases, ◌||◌, ◌&&◌,
}
use simlib.Ctype.{is_space, is_xdigit}
use simlib.StringTransform.{hex_byte}
use simlib.StringView.Text.{leading}
use simlib.ConfigFile.Lines.{Lines, Lines-tail, drop-Lines}
use simlib.ConfigFile.Value.{
  Parsed, ok, err, fault, SingleMode, inside, quote, single_quoted, simple_escape, DoubleMode, top,
  escape, hex_first, hex_second, double_quoted, ends_literal, trim, literal, extract_value,
}

-- No fault; the buffer after it still ends with a newline and is no longer than `n`.
abbrev pub Within {ℓ} : {A : Type ℓ} → ℕ → Parsed A → Type 0
Within n (ok a rest) = Lines rest × (length rest ≤ n)
Within n (err why rest) = Lines rest × (length rest ≤ n)
Within n fault = ⊥

Within-suc : (n : ℕ) (r : Parsed Bytes) → Within n r → Within (suc n) r
Within-suc n (ok a rest) h = (h.0, omega arith)
Within-suc n (err why rest) h = (h.0, omega arith)
Within-suc n fault h = absurd h

single_quoted-Within :
    (m : SingleMode) (res s : Bytes) → Lines s → Within (length s) (single_quoted m res s)
unfolding single_quoted
single_quoted-Within inside res [] h = absurd h
single_quoted-Within quote res [] h = absurd h
single_quoted-Within inside res (c ∷ s) h = elim (Bool-cases (c == b'\n')) [
  | inl nl ↦ rw (nl, single_quoted) (h, omega arith)
  | inr other ↦
      let h' = Lines-tail c s h (λ e. ground arith) in
      elim (Bool-cases (c == b'\'')) [
        | inl q ↦
            rw (other, q, single_quoted) (Within-suc _ _ (single_quoted-Within quote res s h'))
        | inr p ↦
            rw (other, p, single_quoted)
              (Within-suc _ _ (single_quoted-Within inside (res ++ c ∷ []) s h'))
      ]
]
single_quoted-Within quote res (c ∷ s) h = elim (Bool-cases (c == b'\'')) [
  | inl q ↦
      rw (q, single_quoted)
        (Within-suc _ _
          (single_quoted-Within inside (res ++ c ∷ []) s (Lines-tail c s h (λ e. ground arith))))
  | inr p ↦ rw (p, single_quoted) (h, omega arith)
]

escape-ne-newline : (c : ℕ) {v : ℕ} → simple_escape c ≡ some v → c ≢ b'\n'
unfolding simple_escape
escape-ne-newline c h e = ground arith

xdigit-ne-newline : (c : ℕ) → is_xdigit c ≡ true → c ≢ b'\n'
unfolding is_xdigit
xdigit-ne-newline c h e = ground arith

double_quoted-Within :
    (m : DoubleMode) (res s : Bytes) → Lines s → Within (length s) (double_quoted m res s)
unfolding double_quoted
double_quoted-Within top res [] h = absurd h
double_quoted-Within escape res [] h = absurd h
double_quoted-Within hex_first res [] h = absurd h
double_quoted-Within (hex_second a) res [] h = absurd h
double_quoted-Within top res (c ∷ s) h = elim (Bool-cases (c == b'\n')) [
  | inl nl ↦ rw (nl, double_quoted) (h, omega arith)
  | inr other ↦
      let h' = Lines-tail c s h (λ e. ground arith) in
      elim (Bool-cases (c == b'"')) [
        | inl q ↦ rw (other, q, double_quoted) (h', omega arith)
        | inr p ↦ elim (Bool-cases (c == b'\\')) [
          | inl b ↦
              rw (other, p, b, double_quoted)
                (Within-suc _ _ (double_quoted-Within escape res s h'))
          | inr plain ↦
              rw (other, p, plain, double_quoted)
                (Within-suc _ _ (double_quoted-Within top (res ++ c ∷ []) s h'))
        ]
      ]
]
double_quoted-Within escape res (c ∷ s) h = elim (Option-cases (simple_escape c)) [
  | inr (v, e) ↦
      rw (e, double_quoted)
        (Within-suc _ _
          (double_quoted-Within top (res ++ v ∷ []) s (Lines-tail c s h (escape-ne-newline c e))))
  | inl e ↦ elim (Bool-cases (c == b'x')) [
    | inl x ↦
        rw (e, x, double_quoted)
          (Within-suc _ _
            (double_quoted-Within hex_first res s (Lines-tail c s h (λ nl. ground arith))))
    | inr other ↦ rw (e, other, double_quoted) (h, omega arith)
  ]
]
double_quoted-Within hex_first res (c ∷ s) h = elim (Bool-cases (is_xdigit c)) [
  | inl d ↦
      rw (d, double_quoted)
        (Within-suc _ _
          (double_quoted-Within (hex_second c) res s (Lines-tail c s h (xdigit-ne-newline c d))))
  | inr other ↦ rw (other, double_quoted) (h, omega arith)
]
double_quoted-Within (hex_second a) res (c ∷ s) h = elim (Bool-cases (is_xdigit c)) [
  | inl d ↦
      rw (d, double_quoted)
        (Within-suc _ _ (
          double_quoted-Within top (res ++ hex_byte a c ∷ []) s
            (Lines-tail c s h (xdigit-ne-newline c d))))
  | inr other ↦ rw (other, double_quoted) (h, omega arith)
]

-- The scan of a literal stops within the buffer, at the newline at the latest.
literal_stops :
    (b : Bool) (s : Bytes) → Lines s → length (leading (λ d. not (ends_literal b d)) s) < length s
unfolding leading
literal_stops b [] h = absurd h
literal_stops b (c ∷ s) h = elim (Bool-cases (ends_literal b c)) [
  | inl stop ↦ rw (stop, leading) (omega arith)
  | inr on ↦
      rw (on, leading)
        (let ih = literal_stops b s (Lines-tail c s h (λ e. cc (newline_ends b, rw e at on))) in
          omega arith)
]
  where
    newline_ends : (b : Bool) → ends_literal b b'\n' ≡ true
    newline_ends b = unfold ends_literal in refl

-- The trimming stops at the first character at the latest, which is no white-space.
trim-some :
    (c : ℕ) (s : Bytes) (i : ℕ) → is_space c ≡ false → (j : ℕ) × (trim (c ∷ s) i ≡ some j) × (j ≤ i)
unfolding trim
trim-some c s zero h = (0, rw h, omega arith)
trim-some c s (suc i) h = elim (Bool-cases (is_space (get_or s i 0))) [
  | inl space ↦ let (j, e, le) = trim-some c s i h in (j, rw (space, trim) e, omega arith)
  | inr other ↦ (suc i, rw (other, trim), omega arith)
]

drop-cons : (n : ℕ) (s : Bytes) → n < length s → (d : ℕ) × (t : Bytes) × (drop n s ≡ d ∷ t)
drop-cons n [] h = absurd (omega arith)
drop-cons zero (c ∷ s) h = (c, s, refl)
drop-cons (suc n) (c ∷ s) h = drop-cons n s (omega arith)

literal-Within :
    (b : Bool) (c : ℕ) (s : Bytes)
    → is_space c ≡ false
    → Lines (c ∷ s)
    → c ≢ b'\n'
    → Within (length s) (literal b (c ∷ s))
unfolding literal
literal-Within b c s sp h ne =
    let i = length (leading (λ d. not (ends_literal b d)) s) in
    let lt = literal_stops b s (Lines-tail c s h ne) in
    let (d, t, e) = drop-cons i s lt in
    let (j, e', le) = trim-some c s i sp in
    let l : j + 1 ≡ suc j = omega arith in
    rw (e, e', literal)
      (rw l (drop-Lines (suc j) (c ∷ s) (omega arith) h, omega (arith, length-drop j s)))

-- No fault; an accepted value takes at least one character, and leaves a buffer that ends with a
-- newline, as an error does.
abbrev pub Progress {ℓ} : {A : Type ℓ} → ℕ → Parsed A → Type 0
Progress n (ok a rest) = Lines rest × (length rest ≤ n)
Progress n (err why rest) = Lines rest × (length rest ≤ suc n)
Progress n fault = ⊥

Within-Progress : (n : ℕ) (r : Parsed Bytes) → Within n r → Progress n r
Within-Progress n (ok a rest) h = h
Within-Progress n (err why rest) h = (h.0, omega arith)
Within-Progress n fault h = absurd h

pub extract_value-Progress :
    (b : Bool) (c : ℕ) (s : Bytes)
    → is_space c ≡ false
    → Lines (c ∷ s)
    → Progress (length s) (extract_value b (c ∷ s))
unfolding extract_value
extract_value-Progress b c s sp h =
    let ne : c ≢ b'\n' = λ e. cc (rw e at sp, newline_space) in
    let h' = Lines-tail c s h ne in
    elim (Bool-cases (c == b'\'')) [
      | inl q ↦ rw (q, extract_value) (Within-Progress _ _ (single_quoted-Within inside [] s h'))
      | inr p ↦ elim (Bool-cases (c == b'"')) [
        | inl q ↦ rw (p, q, extract_value) (Within-Progress _ _ (double_quoted-Within top [] s h'))
        | inr p' ↦ elim (Bool-cases (c == b'[' || (b && (c == b',' || c == b']')))) [
          | inl bad ↦ rw (p, p', bad, extract_value) (h, omega arith)
          | inr fine ↦
              rw (p, p', fine, extract_value) (Within-Progress _ _ (literal-Within b c s sp h ne))
        ]
      ]
    ]
  where
    newline_space : is_space b'\n' ≡ true
    newline_space = unfold is_space in refl
