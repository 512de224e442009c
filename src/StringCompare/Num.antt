-- ===== src/StringCompare/Num.antt =====
-- StrNumCompare and the bounds on digit strings against the numbers that the digits denote.
use simlib.Common.{
  ℕ, ◌+◌, ◌-◌, ◌*◌, ◌^◌, ◌<◌, ◌≤◌, ◌≡◌, ◌≢◌, refl, sym, ap, ◌∙◌, true, false, not, ◌&&◌, [], ◌∷◌,
  Bytes, arith, length, ◌==◌, Bool-cases, inl, inr, ==_iff, &&-true, if◌then◌else◌, ltb, all_of,
  leb, ◌⊎◌,
}
use Prim.Native.Nat.{compare, Ordering}
use native.Mathlib.Nat.{mul-le-mul_right, pow-le-pow_right}
use simlib.Ctype.{is_digit}
use simlib.StringTraits.{is_digit_str}
use simlib.StringView.Text.{remove_leading, str_lt, is_lt}
use simlib.StringView.Order.{lex, compare_views-order}
use simlib.Number.{to_string}
use simlib.Number.Value.{value, value_lower, value_upper}
use simlib.Number.Print.{to_string-value}
use simlib.StringCompare.{
  str_num_compare, is_zero, is_digit_not_greater_than, is_digit_not_less_than,
}

compare-lt : (a b : ℕ) → a < b → compare a b ≡ Ordering.lt
compare-lt a b h = ground arith

compare-gt : (a b : ℕ) → b < a → compare a b ≡ Ordering.gt
compare-gt a b h = ground arith

-- A smaller number in front, with as many digits behind it.
value-lt :
    (m n : ℕ) (s t : Bytes)
    → m < n
    → length s ≡ length t
    → all_of is_digit s ≡ true
    → value m s < value n t
value-lt m n s t h l ds =
    let e = ap (λ k. 10 ^ k) l in
    let up = rw e at (value_upper m s ds) in
    let step = mul-le-mul_right (10 ^ length t) h in omega (arith, value_lower n t)

digit-sub : (c d : ℕ) → is_digit c ≡ true → is_digit d ≡ true → c < d → c - b'0' < d - b'0'
unfolding is_digit
digit-sub c d p q h = ground arith

-- Equally long digit strings compare like the numbers.
lex-value :
    (acc : ℕ) (s t : Bytes)
    → length s ≡ length t
    → all_of is_digit s ≡ true
    → all_of is_digit t ≡ true
    → lex s t ≡ compare (value acc s) (value acc t)
lex-value acc [] [] l p q = ground arith
lex-value acc [] (d ∷ t) l p q = absurd (omega arith)
lex-value acc (c ∷ s) [] l p q = absurd (omega arith)
lex-value acc (c ∷ s) (d ∷ t) l p q =
    let p' = &&-true (is_digit c) (all_of is_digit s) p in
    let q' = &&-true (is_digit d) (all_of is_digit t) q in
    let l' : length s ≡ length t = omega arith in
    let m = acc * 10 + (c - b'0') in
    let n = acc * 10 + (d - b'0') in
    elim (order c d) [
      | inl less ↦
          rw (compare-lt c d less, lex)
            (sym (
              compare-lt _ _
                (value-lt m n s t (omega (arith, digit-sub c d p'.0 q'.0 less)) l' p'.1)))
      | inr (inl same) ↦ ground (arith, lex-value n s t l' p'.1 q'.1)
      | inr (inr more) ↦
          rw (compare-gt c d more, lex)
            (sym (
              compare-gt _ _
                (value-lt n m t s (omega (arith, digit-sub d c q'.0 p'.0 more)) (sym l') q'.1)))
    ]
  where
    order : (a b : ℕ) → (a < b) ⊎ ((a ≡ b) ⊎ (b < a))
    order a b = omega arith

abbrev NoLeadingZero : Bytes → Type 0
NoLeadingZero [] = Unit
NoLeadingZero (c ∷ s) = c ≢ b'0'

value-remove_leading :
    (s : Bytes)
    → all_of is_digit s ≡ true
    → (value 0 (remove_leading is_zero s) ≡ value 0 s)
      × (all_of is_digit (remove_leading is_zero s) ≡ true)
      × NoLeadingZero (remove_leading is_zero s)
unfolding remove_leading
value-remove_leading [] h = (refl, refl, tt)
value-remove_leading (c ∷ s) h = elim (Bool-cases (c == b'0')) [
  | inl zero_digit ↦
      let ih = value-remove_leading s (&&-true (is_digit c) (all_of is_digit s) h).1 in
      let e : c ≡ b'0' = ground arith in
      rw (zero_digit, remove_leading) (ih.0 ∙ ap (λ n. value n s) (omega arith), ih.1, ih.2)
  | inr other ↦ rw (other, remove_leading) (refl, h, λ e. ground arith)
]

-- With no leading zero a longer string of digits denotes a greater number.
value-shorter :
    (s t : Bytes)
    → all_of is_digit s ≡ true
    → all_of is_digit t ≡ true
    → NoLeadingZero t
    → length s < length t
    → value 0 s < value 0 t
value-shorter s [] p q nz l = absurd (omega arith)
value-shorter s (d ∷ t) p q nz l =
    let first : 1 ≤ 0 * 10 + (d - b'0') = first_pos d t q nz in
    let big = mul-le-mul_right (10 ^ length t) first in
    let grows =
      pow-le-pow_right {n = 10} (omega arith) {i = length s} {j = length t} (omega arith) in
    omega (arith, value_upper 0 s p, value_lower (0 * 10 + (d - b'0')) t)
  where
    first_pos :
        (d : ℕ) (t : Bytes) → all_of is_digit (d ∷ t) ≡ true → d ≢ b'0' → 1 ≤ 0 * 10 + (d - b'0')
    first_pos d t q nz = unfold is_digit in ground arith

str_lt-lex : (s t : Bytes) → str_lt s t ≡ is_lt (lex s t)
unfolding str_lt
str_lt-lex s t = ap is_lt (compare_views-order s t []).0

is_lt-compare : (a b : ℕ) → is_lt (compare a b) ≡ ltb a b
is_lt-compare a b = ground arith

ltb-true : (a b : ℕ) → a < b → ltb a b ≡ true
ltb-true a b h = ground arith

ltb-false : (a b : ℕ) → b < a → ltb a b ≡ false
ltb-false a b h = ground arith

-- For two strings of digits, StrNumCompare tells whether the number of the first is less than that of
-- the second, whatever zeros they begin with.
pub str_num_compare-value :
    (a b : Bytes)
    → all_of is_digit a ≡ true
    → all_of is_digit b ≡ true
    → str_num_compare a b ≡ ltb (value 0 a) (value 0 b)
unfolding str_num_compare
str_num_compare-value a b p q =
    let (va, da, na) = value-remove_leading a p in
    let (vb, db, nb) = value-remove_leading b q in
    rw (← va, ← vb) (stripped (remove_leading is_zero a) (remove_leading is_zero b) da db na nb)
  where
    order : (m n : ℕ) → (m < n) ⊎ ((m ≡ n) ⊎ (n < m))
    order m n = omega arith

    stripped :
        (s t : Bytes)
        → all_of is_digit s ≡ true
        → all_of is_digit t ≡ true
        → NoLeadingZero s
        → NoLeadingZero t
        → (if length s == length t then str_lt s t else ltb (length s) (length t))
          ≡ ltb (value 0 s) (value 0 t)
    stripped s t p q ns nt = elim (order (length s) (length t)) [
      | inr (inl same) ↦
          rw ((==_iff (length s) (length t)).1 same)
            (str_lt-lex s t ∙ ap is_lt (lex-value 0 s t same p q) ∙ is_lt-compare _ _)
      | inl less ↦
          let e : (length s == length t) ≡ false = ground arith in
          rw e (ltb-true _ _ less ∙ sym (ltb-true _ _ (value-shorter s t p q nt less)))
      | inr (inr more) ↦
          let e : (length s == length t) ≡ false = ground arith in
          rw e (ltb-false _ _ more ∙ sym (ltb-false _ _ (value-shorter t s q p ns more)))
    ]

digits_of : (s : Bytes) → is_digit_str s ≡ true → all_of is_digit s ≡ true
digits_of [] h = refl
digits_of (c ∷ s) h = unfold is_digit_str in h

-- is_digit_not_greater_than and is_digit_not_less_than hold exactly where the string is one or more
-- digits, however many, whose number is at most, or at least, the bound.
pub is_digit_bounds :
    (bound : ℕ) (s : Bytes)
    → (is_digit_not_greater_than bound s ≡ (is_digit_str s && leb (value 0 s) bound))
      × (is_digit_not_less_than bound s ≡ (is_digit_str s && leb bound (value 0 s)))
unfolding is_digit_not_greater_than is_digit_not_less_than
is_digit_bounds bound s = elim (Bool-cases (is_digit_str s)) [
  | inl digits ↦
      let (v, d, _, _) = to_string-value bound in
      let ds = digits_of s digits in
      rw
        (
          digits,
          str_num_compare-value (to_string bound) s d ds,
          str_num_compare-value s (to_string bound) ds d,
          v,
        )
        (not-ltb bound (value 0 s), not-ltb (value 0 s) bound)
  | inr other ↦ rw other (refl, refl)
]
  where
    not-ltb : (m n : ℕ) → not (ltb m n) ≡ leb n m
    not-ltb m n = ground arith
