-- ===== src/Number/Parse.antt =====
-- str2num of include/simlib/string_transform.hh against the number that the digits denote.
use simlib.Common.{
  ℕ, suc, ◌+◌, ◌-◌, ◌*◌, ◌<◌, ◌≤◌, ◌≡◌, ◌≢◌, refl, ◌∙◌, Bool, true, false, [], ◌∷◌, Bytes, arith,
  length, all_of, ◌==◌, Bool-cases, inl, inr, leb, if◌then◌else◌, Option, none, some, le→leb,
}
use mathlib.Core.List.{reverse-append}
use mathlib.Core.Option
use simlib.Ctype.{is_digit}
use simlib.StringTraits.{is_digit_str, nonempty_all}
use simlib.Number.{
  str2num_loop, str2num_digits, str2num_unsigned, str2num_signed, to_string, to_string_signed, ℤ,
  pos, negsuc, signed, digits_loop,
}
use simlib.Number.Value.{value, le-value}
use simlib.Number.Print.{to_string-value}

-- What a string stands for in a type whose greatest magnitude is `limit`.
abbrev pub in_limit : ℕ → Bool → ℕ → Option ℕ
in_limit limit digits v = if digits then (if leb v limit then some v else none) else none

str2num_loop-value :
    (limit acc : ℕ) (s : Bytes)
    → acc ≤ limit
    → str2num_loop limit acc s ≡ in_limit limit (all_of is_digit s) (value acc s)
unfolding str2num_loop
str2num_loop-value limit acc [] h = rw (le→leb acc limit h)
str2num_loop-value limit acc (c ∷ s) h =
    ground (
      arith,
      str2num_loop-value limit (acc * 10 + (c - b'0')) s,
      le-value (acc * 10 + (c - b'0')) s,
    )

str2num_digits-value :
    (limit : ℕ) (s : Bytes)
    → 9 ≤ limit
    → str2num_digits limit s ≡ in_limit limit (is_digit_str s) (value 0 s)
unfolding str2num_digits is_digit_str
str2num_digits-value limit [] h = refl
str2num_digits-value limit (c ∷ s) h =
    let e : 0 * 10 + (c - b'0') ≡ c - b'0' = omega arith in
    rw e (ground (arith, str2num_loop-value limit (c - b'0') s))

-- For an unsigned type with greatest number `max`, at least 9, str2num gives the value of the digits
-- where the string is one or more digits, leading zeros allowed, and their value is at most `max`,
-- and nothing otherwise: no overflow is missed and none is reported in vain.
pub str2num_unsigned-value :
    (max : ℕ) (s : Bytes)
    → 9 ≤ max
    → str2num_unsigned max s
      ≡ (if is_digit_str s then (if leb (value 0 s) max then some (value 0 s) else none) else none)
unfolding str2num_unsigned
str2num_unsigned-value max s h = str2num_digits-value max s h

-- For a signed type with greatest number `max`, at least 9, and a nonempty string: without a minus in
-- front str2num gives the value of the digits where it is at most `max`, with one the negated value
-- of the others where it is at most max + 1, and nothing where these are not one or more digits or
-- the value does not fit.
pub str2num_signed-value :
    (max : ℕ) (c : ℕ) (s : Bytes)
    → 9 ≤ max
    → str2num_signed max (c ∷ s) ≡ (
        if c == b'-'
        then Option.map (signed true) (in_limit (max + 1) (is_digit_str s) (value 0 s))
        else Option.map (signed false) (in_limit max (is_digit_str (c ∷ s)) (value 0 (c ∷ s))))
unfolding str2num_signed
str2num_signed-value max c s h =
    rw (str2num_digits-value (max + 1) s (omega arith), str2num_digits-value max (c ∷ s) h)

nonempty : (s : Bytes) (f : ℕ → Bool) → all_of f s ≡ true → 0 < length s → nonempty_all f s ≡ true
nonempty [] f h l = absurd (omega arith)
nonempty (c ∷ s) f h l = h

in_limit-fits : (limit v : ℕ) → v ≤ limit → in_limit limit true v ≡ some v
in_limit-fits limit v h = rw (le→leb v limit h)

nonzero-is_digit_str :
    (s : Bytes) → all_of is_digit s ≡ true → value 0 s ≢ 0 → is_digit_str s ≡ true
unfolding is_digit_str
nonzero-is_digit_str [] h ne = absurd (ne refl)
nonzero-is_digit_str (c ∷ s) h ne = h

pub to_string-is_digit_str : (x : ℕ) → is_digit_str (to_string x) ≡ true
to_string-is_digit_str x = elim (Bool-cases (x == 0)) [
  | inl nothing ↦ let e : x ≡ 0 = ground arith in rw e (unfold to_string is_digit_str in refl)
  | inr more ↦
      let h = to_string-value x in nonzero-is_digit_str (to_string x) h.1 (λ e. ground (arith, h.0))
]

-- For an unsigned type with greatest number `max`, at least 9, str2num reads back what to_string
-- writes of a number of the type.
pub str2num_unsigned-to_string :
    (max x : ℕ) → 9 ≤ max → x ≤ max → str2num_unsigned max (to_string x) ≡ some x
str2num_unsigned-to_string max x h le =
    str2num_unsigned-value max (to_string x) h
    ∙ rw (to_string-is_digit_str x, (to_string-value x).0) (in_limit-fits max x le)

to_string_signed-negsuc : (n : ℕ) → to_string_signed (negsuc n) ≡ b'-' ∷ to_string (suc n)
unfolding to_string_signed to_string
to_string_signed-negsuc n =
    let e : (suc n == 0) ≡ false = ground arith in
    rw e (reverse-append (digits_loop (suc n) (suc n)) (b'-' ∷ []))

-- A string of digits has no minus.
signed-unsigned :
    (max : ℕ) (s : Bytes)
    → 9 ≤ max
    → is_digit_str s ≡ true
    → str2num_signed max s ≡ Option.map (signed false) (str2num_unsigned max s)
unfolding str2num_signed str2num_unsigned
signed-unsigned max [] h d = refl
signed-unsigned max (c ∷ s) h d = rw (no_minus c s d)
  where
    no_minus : (c : ℕ) (s : Bytes) → is_digit_str (c ∷ s) ≡ true → c == b'-' ≡ false
    no_minus c s d = unfold is_digit_str in ground arith

-- The least and the greatest number of a signed type.
abbrev pub InRange : ℕ → ℤ → Type 0
InRange max (pos n) = n ≤ max
InRange max (negsuc n) = n ≤ max

-- For a signed type with greatest number `max`, at least 9, str2num reads back what to_string writes
-- of a number of the type, the least one -(max + 1) included.
pub str2num_signed-to_string :
    (max : ℕ) (z : ℤ) → 9 ≤ max → InRange max z → str2num_signed max (to_string_signed z) ≡ some z
str2num_signed-to_string max (pos n) h le =
    unfold to_string_signed in
    (signed-unsigned max (to_string n) h (to_string-is_digit_str n)
      ∙ rw (str2num_unsigned-to_string max n h le))
str2num_signed-to_string max (negsuc n) h le = rw to_string_signed-negsuc (
    str2num_signed-value max b'-' (to_string (suc n)) h
    ∙ rw (to_string-is_digit_str (suc n), (to_string-value (suc n)).0)
        (rw (in_limit-fits (max + 1) (suc n) (omega arith))))
