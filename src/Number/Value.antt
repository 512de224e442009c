-- ===== src/Number/Value.antt =====
-- The number that a string of decimal digits denotes, and how its size and order show in the digits.
use simlib.Common.{
  ℕ, ◌+◌, ◌-◌, ◌*◌, ◌^◌, ◌<◌, ◌≤◌, ◌≡◌, refl, true, [], ◌∷◌, ◌++◌, Bytes, arith, length, all_of,
  &&-true,
}
use native.Mathlib.Nat.{pow-suc, pow-zero, mul-le-mul_right}
use simlib.Ctype.{is_digit}

-- `acc` is the number that the digits before denote.
abbrev pub value : ℕ → Bytes → ℕ
value acc [] = acc
value acc (c ∷ s) = value (acc * 10 + (c - b'0')) s

pub value-append :
    (acc : ℕ) (s : Bytes) (c : ℕ) → value acc (s ++ c ∷ []) ≡ value acc s * 10 + (c - b'0')
value-append acc [] c = refl
value-append acc (d ∷ s) c = value-append (acc * 10 + (d - b'0')) s c

pub le-value : (acc : ℕ) (s : Bytes) → acc ≤ value acc s
le-value acc [] = omega arith
le-value acc (c ∷ s) = omega (arith, le-value (acc * 10 + (c - b'0')) s)

digit-le : (c : ℕ) → is_digit c ≡ true → c - b'0' ≤ 9
unfolding is_digit
digit-le c h = ground arith

pub value_lower : (acc : ℕ) (s : Bytes) → acc * 10 ^ length s ≤ value acc s
value_lower acc [] = rw pow-zero (omega arith)
value_lower acc (c ∷ s) =
    let ih = value_lower (acc * 10 + (c - b'0')) s in rw pow-suc (omega (arith, ih))

pub value_upper :
    (acc : ℕ) (s : Bytes) → all_of is_digit s ≡ true → value acc s < (acc + 1) * 10 ^ length s
value_upper acc [] h = rw pow-zero (omega arith)
value_upper acc (c ∷ s) h =
    let both = &&-true (is_digit c) (all_of is_digit s) h in
    rw pow-suc (
      omega (
        arith,
        value_upper (acc * 10 + (c - b'0')) s both.1,
        mul-le-mul_right (10 ^ length s) (digit-le c both.0),
      ))
