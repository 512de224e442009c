-- ===== src/Checker/Percentage.antt =====
-- What the second line of a checker's output may be: the numbers that is_real of string_traits.hh
-- takes, without those below zero.
use simlib.Common.{
  ℕ, suc, ◌+◌, ◌≤◌, ◌≡◌, ◌≢◌, ◌↔◌, ◌⊎◌, refl, sym, ◌∙◌, ap, subst, Bool, true, false, not, ◌&&◌,
  ◌||◌, [], ◌∷◌, ◌++◌, Bytes, Option, none, some, codes, arith, ◌==◌, length, take, drop,
  Bool-cases, All, all_of, inl, inr, &&-true,
}
use mathlib.Core.Bool.{false≢true}
use simlib.Ctype.{is_digit}
use simlib.StringView.Text.{find, find_loop}
use simlib.StringTraits.{is_real, is_digit_str, has_prefix, without_minus}
use simlib.StringTraits.Laws.{has_prefix-append}

-- The digits `0` to `9`, at least one.
abbrev pub Digits : Bytes → Type 0
Digits s = (s ≢ []) × All (λ c. (b'0' ≤ c) × (c ≤ b'9')) s

-- A real number that is not below zero: digits, or digits on both sides of a point.
abbrev pub Percentage : Bytes → Type 0
Percentage s =
    Digits s
    ⊎ ((whole : Bytes) × (part : Bytes) × (s ≡ whole ++ b'.' ∷ part) × Digits whole × Digits part)

is_digit-range : (c : ℕ) → (is_digit c ≡ true) ↔ ((b'0' ≤ c) × (c ≤ b'9'))
unfolding is_digit
is_digit-range c = (λ e. (ground arith, ground arith), λ h. ground arith)

all_digits : (s : Bytes) → (all_of is_digit s ≡ true) ↔ All (λ c. (b'0' ≤ c) × (c ≤ b'9')) s
all_digits [] = (λ e. tt, λ h. refl)
all_digits (c ∷ s) = (
  λ e.
      let both = &&-true (is_digit c) (all_of is_digit s) e in
      ((is_digit-range c).0 both.0, (all_digits s).0 both.1),
  λ h. rw ((is_digit-range c).1 h.0, (all_digits s).1 h.1) refl,
)

is_digit_str-Digits : (s : Bytes) → (is_digit_str s ≡ true) ↔ Digits s
unfolding is_digit_str
is_digit_str-Digits [] = (λ e. cc, λ h. absurd (h.0 refl))
is_digit_str-Digits (c ∷ s) =
    (λ e. (λ z. cc, (all_digits (c ∷ s)).0 e), λ h. (all_digits (c ∷ s)).1 h.1)

-- The first point of a text splits it.
find_loop-split :
    (s : Bytes) (i : ℕ)
    → (find_loop b'.' s i ≡ none)
      ⊎ ((front : Bytes) × (rest : Bytes) × (s ≡ front ++ b'.' ∷ rest)
          × (find_loop b'.' s i ≡ some (i + length front)))
unfolding find_loop
find_loop-split [] i = inl refl
find_loop-split (c ∷ s) i = elim (Bool-cases (c == b'.')) [
  | inl here ↦
      let e : c ≡ b'.' = ground arith in
      let at_i : i ≡ i + 0 = omega arith in inr ([], s, ap (λ d. d ∷ s) e, rw here (ap some at_i))
  | inr other ↦ elim (find_loop-split s (i + 1)) [
    | inl nowhere ↦ inl (rw other nowhere)
    | inr (front, rest, e, found) ↦
        let place : (i + 1) + length front ≡ i + suc (length front) = omega arith in
        inr (c ∷ front, rest, ap (λ t. c ∷ t) e, rw other (found ∙ ap some place))
  ]
]

find_loop-digits :
    (whole part : Bytes) (i : ℕ)
    → All (λ c. (b'0' ≤ c) × (c ≤ b'9')) whole
    → find_loop b'.' (whole ++ b'.' ∷ part) i ≡ some (i + length whole)
unfolding find_loop
find_loop-digits [] part i h = let at_i : i ≡ i + 0 = omega arith in ap some at_i
find_loop-digits (c ∷ whole) part i h =
    let other : (c == b'.') ≡ false = ground (arith, h.0.0) in
    let place : (i + 1) + length whole ≡ i + suc (length whole) = omega arith in
    rw other (find_loop-digits whole part (i + 1) h.1 ∙ ap some place)

point_no_digit :
    (front rest : Bytes) → All (λ c. (b'0' ≤ c) × (c ≤ b'9')) (front ++ b'.' ∷ rest) → ⊥
point_no_digit [] rest h = omega (arith, h.0.0)
point_no_digit (c ∷ front) rest h = point_no_digit front rest h.1

split_at_point :
    (front rest : Bytes)
    → (take (length front) (front ++ b'.' ∷ rest) ≡ front)
      × (drop (length front + 1) (front ++ b'.' ∷ rest) ≡ rest)
split_at_point front rest =
    let behind : length front + 1 ≡ suc (length front) = omega arith in
    (take_front front rest, rw behind (drop_front front rest))
  where
    take_front : (s t : Bytes) → take (length s) (s ++ b'.' ∷ t) ≡ s
    take_front [] t = refl
    take_front (c ∷ s) t = ap (λ r. c ∷ r) (take_front s t)

    drop_front : (s t : Bytes) → drop (suc (length s)) (s ++ b'.' ∷ t) ≡ t
    drop_front [] t = refl
    drop_front (c ∷ s) t = drop_front s t

-- Without a sign, is_real tests the text at its first point.
abbrev real_at : Bytes → Option ℕ → Bool
real_at s none = is_digit_str s
real_at s (some dot_pos) = is_digit_str (take dot_pos s) && is_digit_str (drop (dot_pos + 1) s)

real_at-Percentage : (s : Bytes) → (real_at s (find_loop b'.' s 0) ≡ true) ↔ Percentage s
real_at-Percentage s = (to, from)
  where
    to : real_at s (find_loop b'.' s 0) ≡ true → Percentage s
    to e = elim (find_loop-split s 0) [
      | inl nowhere ↦ inl ((is_digit_str-Digits s).0 (rw nowhere at e))
      | inr (front, rest, shape, found) ↦
          let place : 0 + length front ≡ length front = omega arith in
          let parts = split_at_point front rest in
          let both = &&-true _ _ (rw (found, place, shape, parts.0, parts.1) at e) in
          inr (
            front,
            rest,
            shape,
            (is_digit_str-Digits front).0 both.0,
            (is_digit_str-Digits rest).0 both.1,
          )
    ]

    from : Percentage s → real_at s (find_loop b'.' s 0) ≡ true
    from (inl digits) = elim (find_loop-split s 0) [
      | inl nowhere ↦ rw nowhere ((is_digit_str-Digits s).1 digits)
      | inr (front, rest, shape, found) ↦
          absurd
            (point_no_digit front rest (subst (All (λ c. (b'0' ≤ c) × (c ≤ b'9'))) shape digits.1))
    ]
    from (inr (whole, part, shape, front, rest)) =
        let place : 0 + length whole ≡ length whole = omega arith in
        let found = find_loop-digits whole part 0 front.1 in
        let parts = split_at_point whole part in
        subst (λ t. real_at t (find_loop b'.' t 0) ≡ true) (sym shape)
          (rw
            (
              found,
              place,
              parts.0,
              parts.1,
              (is_digit_str-Digits whole).1 front,
              (is_digit_str-Digits part).1 rest,
            )
            refl)

is_real-real_at :
    (c : ℕ) (s : Bytes)
    → (c == b'-') ≡ false
    → is_real (c ∷ s) ≡ real_at (c ∷ s) (find_loop b'.' (c ∷ s) 0)
unfolding is_real without_minus find
is_real-real_at c s plain =
    let same : without_minus (c ∷ s) ≡ c ∷ s = rw (plain, without_minus) refl in
    at_point (without_minus (c ∷ s)) (find_loop b'.' (without_minus (c ∷ s)) 0)
    ∙ ap (λ t. real_at t (find_loop b'.' t 0)) same
  where
    at_point :
        (t : Bytes) (o : Option ℕ)
        → elim o as (λ x. Bool) [
          | none ↦ is_digit_str t
          | some dot_pos ↦ is_digit_str (take dot_pos t) && is_digit_str (drop (dot_pos + 1) t)
        ]
          ≡ real_at t o
    at_point t none = refl
    at_point t (some i) = refl

not-false : (b : Bool) → not b ≡ false → b ≡ true
not-false true e = refl
not-false false e = sym e

first_digit : (c : ℕ) (s : Bytes) → Percentage (c ∷ s) → b'0' ≤ c
first_digit c s (inl digits) = digits.1.0.0
first_digit c s (inr ([], part, shape, front, rest)) = absurd (front.0 refl)
first_digit c s (inr (d ∷ whole, part, shape, front, rest)) =
    let e : c ≡ d = cc in omega (arith, e, front.1.0.0)

-- What the test of the second line accepts, where there is one.
pub accepts-Percentage :
    (c : ℕ) (s : Bytes)
    → ((has_prefix (c ∷ s) (codes "-") || not (is_real (c ∷ s))) ≡ false) ↔ Percentage (c ∷ s)
accepts-Percentage c s = elim (Bool-cases (c == b'-')) [
  | inl minus ↦
      let e : c ≡ b'-' = ground arith in
      let leads = (has_prefix-append (c ∷ s) (codes "-")).0.1 (s, ap (λ d. d ∷ s) e) in
      (
        λ h. absurd (false≢true (sym (rw leads at h))),
        λ p. absurd (omega (arith, e, first_digit c s p)),
      )
  | inr plain ↦ elim (Bool-cases (has_prefix (c ∷ s) (codes "-"))) [
    | inl leads ↦
        let (rest, shape) = (has_prefix-append (c ∷ s) (codes "-")).0.0 leads in
        let e : c ≡ b'-' = cc in absurd (ground (arith, e, plain))
    | inr none_there ↦
        let real = is_real-real_at c s plain in
        let numbers = real_at-Percentage (c ∷ s) in
        rw (none_there, real) (λ e. numbers.0 (not-false _ e), λ p. rw (numbers.1 p) refl)
  ]
]
