-- ===== src/Number/Print.antt =====
-- to_string of include/simlib/to_string.hh against the number that the digits denote.
use simlib.Common.{
  ℕ, zero, suc, ◌+◌, ◌-◌, ◌*◌, ◌/◌, ◌^◌, ◌<◌, ◌≤◌, ◌≡◌, ◌≢◌, refl, ◌∙◌, true, [], ◌∷◌, ◌++◌, Bytes,
  arith, length, all_of, all_of-append, reverse, ◌==◌, Bool-cases, inl, inr, length-append, get_or,
  ◌⊎◌,
}
use mathlib.Core.List.{reverse-cons}
use native.Mathlib.Nat.{pow-suc, pow-zero}
use simlib.Ctype.{is_digit}
use simlib.Number.{digits_loop, to_string}
use simlib.Number.Value.{value, value-append}

abbrev digit_of : ℕ → ℕ
digit_of x = x - x / 10 * 10 + b'0'

reverse_digits :
    (f x : ℕ)
    → x ≢ 0
    → reverse (digits_loop (suc f) x) ≡ reverse (digits_loop f (x / 10)) ++ digit_of x ∷ []
unfolding digits_loop
reverse_digits f x h = elim (Bool-cases (x == 0)) [
  | inl none_left ↦ absurd (h (ground arith))
  | inr more ↦ rw (more, digits_loop) (reverse-cons (digit_of x) (digits_loop f (x / 10)))
]

-- With as much fuel as the number, or more, the loop ends by its test.
digits-zero : (f : ℕ) → digits_loop f 0 ≡ []
unfolding digits_loop
digits-zero zero = refl
digits-zero (suc f) = refl

value-digits : (f x : ℕ) → x ≤ f → value 0 (reverse (digits_loop f x)) ≡ x
value-digits zero x h = unfold digits_loop in omega arith
value-digits (suc f) x h = elim (Bool-cases (x == 0)) [
  | inl none_left ↦ let e : x ≡ 0 = ground arith in rw (e, digits-zero (suc f))
  | inr more ↦ rw (reverse_digits f x (ground arith)) (
      value-append 0 (reverse (digits_loop f (x / 10))) (digit_of x)
      ∙ omega (arith, value-digits f (x / 10) (ground arith)))
]

digits-is_digit : (f x : ℕ) → all_of is_digit (reverse (digits_loop f x)) ≡ true
digits-is_digit zero x = unfold digits_loop in refl
digits-is_digit (suc f) x = elim (Bool-cases (x == 0)) [
  | inl none_left ↦ let e : x ≡ 0 = ground arith in rw (e, digits-zero (suc f))
  | inr more ↦ rw (reverse_digits f x (ground arith)) (
      all_of-append is_digit (reverse (digits_loop f (x / 10))) (digit_of x ∷ [])
      ∙ rw (digits-is_digit f (x / 10), digit x))
]
  where
    digit : (x : ℕ) → is_digit (digit_of x) ≡ true
    digit x = unfold is_digit in ground arith

length-digits : (f x k : ℕ) → x < 10 ^ k → length (reverse (digits_loop f x)) ≤ k
length-digits zero x k h = unfold digits_loop in omega arith
length-digits (suc f) zero k h = rw (digits-zero (suc f)) (omega arith)
length-digits (suc f) (suc x) zero h = absurd (let h' = rw (pow-zero 10) at h in omega arith)
length-digits (suc f) (suc x) (suc k) h = rw (reverse_digits f (suc x) (omega arith)) (
    let h' = rw (pow-suc 10 k) at h in
    omega (
      arith,
      length-append (reverse (digits_loop f (suc x / 10))) (digit_of (suc x) ∷ []),
      length-digits f (suc x / 10) k (omega arith),
    ))

-- The first digit of a number other than zero is not `0`.
first-digits : (f x : ℕ) → x ≤ f → x ≢ 0 → get_or (reverse (digits_loop f x)) 0 b'0' ≢ b'0'
first-digits zero x h ne = absurd (ne (omega arith))
first-digits (suc f) x h ne = elim (Bool-cases (x / 10 == 0)) [
  | inl one ↦
      let e : x / 10 ≡ 0 = ground arith in
      rw (reverse_digits f x ne, e, digits-zero f) (λ z. ne (omega arith))
  | inr more ↦ rw (reverse_digits f x ne) (
      longer (reverse (digits_loop f (x / 10))) (digit_of x)
        (first-digits f (x / 10) (omega arith) (ground arith)))
]
  where
    longer : (s : Bytes) (c : ℕ) → get_or s 0 b'0' ≢ b'0' → get_or (s ++ c ∷ []) 0 b'0' ≢ b'0'
    longer [] c h = absurd (h refl)
    longer (d ∷ s) c h = h

-- to_string of an unsigned number is digits that denote the number, without a leading zero unless the
-- number is 0, and at most `k` of them for a number below 10 ^ k with `k` positive.
pub to_string-value :
    (x : ℕ)
    → (value 0 (to_string x) ≡ x)
      × (all_of is_digit (to_string x) ≡ true)
      × ((x ≡ 0) ⊎ (get_or (to_string x) 0 b'0' ≢ b'0'))
      × ((k : ℕ) → 0 < k → x < 10 ^ k → length (to_string x) ≤ k)
unfolding to_string
to_string-value x = elim (Bool-cases (x == 0)) [
  | inl nothing ↦
      let e : x ≡ 0 = ground arith in
      rw (e) (refl, unfold is_digit in refl, inl refl, λ k p h. omega arith)
  | inr more ↦ rw more (
    value-digits x x (omega arith),
    digits-is_digit x x,
    inr (first-digits x x (omega arith) (ground arith)),
    λ k p h. length-digits x x k h,
  )
]
