-- ===== src/Time/Digits.antt =====
-- What the texts of times show, of include/simlib/time.hh.
use simlib.Common.{
  lt→ltb, some, ℕ, zero, suc, ◌+◌, ◌-◌, ◌*◌, ◌/◌, ◌%◌, ◌^◌, ◌≤◌, ◌<◌, ◌≡◌, ◌≢◌, ◌⊎◌, inl, inr, refl,
  sym, ◌∙◌, ap, Bool, true, false, [], ◌∷◌, ◌++◌, Bytes, arith, ◌==◌, take, drop, length,
  length-take, length-drop, take-append-drop, all_of, all_of-append, &&-true, get_or, Bool-cases,
}
use Prim.Native.Nat.{min}
use native.Mathlib.Nat.{pow-suc, pow-zero}
use simlib.Ctype.{is_digit}
use simlib.StringView.Text.{remove_trailing, trailing_from}
use simlib.Number.{to_string}
use simlib.Number.Value.{value, value_upper}
use simlib.Time.{
  Timespec, Timeval, fraction_loop, truncated, with_fraction, with_prec, timespec_to_string,
  timeval_to_string,
}

pub length-fraction_loop : (n x : ℕ) (s : Bytes) → length (fraction_loop false n x s) ≡ n + length s
unfolding fraction_loop
length-fraction_loop zero x s = omega arith
length-fraction_loop (suc n) x s =
    omega (arith, length-fraction_loop n (x / 10) ((b'0' + x % 10) ∷ s))

is_digit-mod : (x : ℕ) → is_digit (b'0' + x % 10) ≡ true
unfolding is_digit
is_digit-mod x = ground arith

fraction_loop-is_digit :
    (n x : ℕ) (s : Bytes)
    → all_of is_digit s ≡ true
    → all_of is_digit (fraction_loop false n x s) ≡ true
unfolding fraction_loop
fraction_loop-is_digit zero x s h = h
fraction_loop-is_digit (suc n) x s h =
    fraction_loop-is_digit n (x / 10) ((b'0' + x % 10) ∷ s) (rw (is_digit-mod x) h)

value-fraction_loop :
    (n x a : ℕ) (s : Bytes)
    → x < 10 ^ n
    → value a (fraction_loop false n x s) ≡ value (a * 10 ^ n + x) s
unfolding fraction_loop
value-fraction_loop zero x a s h = ap (λ v. value v s) (rw pow-zero (omega arith))
value-fraction_loop (suc n) x a s h =
    let room : x < 10 ^ n * 10 = rw pow-suc at h in
    let ih = value-fraction_loop n (x / 10) a ((b'0' + x % 10) ∷ s) (omega arith) in
    ih ∙ ap (λ v. value v s) (rw pow-suc (omega arith))

value_split : (a : ℕ) (s t : Bytes) → value a (s ++ t) ≡ value (value a s) t
value_split a [] t = refl
value_split a (c ∷ s) t = value_split (a * 10 + (c - b'0')) s t

value_shift : (a : ℕ) (t : Bytes) → value a t ≡ a * 10 ^ length t + value 0 t
value_shift a [] = rw pow-zero (omega arith)
value_shift a (c ∷ t) =
    let here : value a (c ∷ t) ≡ (a * 10 + (c - b'0')) * 10 ^ length t + value 0 t =
      value_shift (a * 10 + (c - b'0')) t in
    let alone : value 0 (c ∷ t) ≡ (0 * 10 + (c - b'0')) * 10 ^ length t + value 0 t =
      value_shift (0 * 10 + (c - b'0')) t in
    rw pow-suc (omega (arith, here, alone))

-- The digits in front are the number without the last ones, rounded down.
value_front :
    (s t : Bytes)
    → all_of is_digit (s ++ t) ≡ true
    → (value 0 s * 10 ^ length t ≤ value 0 (s ++ t))
      × (value 0 (s ++ t) < (value 0 s + 1) * 10 ^ length t)
value_front s t h =
    let digits =
      &&-true (all_of is_digit s) (all_of is_digit t) (sym (all_of-append is_digit s t) ∙ h) in
    let upper = value_upper 0 t digits.1 in
    rw (value_split 0 s t, value_shift (value 0 s) t) (omega (arith, upper), omega (arith, upper))

value-take-suc :
    (a : ℕ) (s : Bytes) (i : ℕ)
    → i < length s
    → value a (take (suc i) s) ≡ value a (take i s) * 10 + (get_or s i 0 - b'0')
value-take-suc a [] i h = absurd (omega arith)
value-take-suc a (c ∷ s) zero h = refl
value-take-suc a (c ∷ s) (suc i) h = value-take-suc (a * 10 + (c - b'0')) s i (omega arith)

-- Only zeros stand between `j` and `i`, and none before `j`.
record Zeros (s : Bytes) (i j : ℕ) : Type 0 where
  before : j ≤ i
  same : value 0 (take j s) * 10 ^ (i - j) ≡ value 0 (take i s)
  last : (j ≡ 0) ⊎ (get_or s (j - 1) 0 ≢ b'0')

Zeros-suc :
    (s : Bytes) (i j : ℕ) → i < length s → get_or s i 0 ≡ b'0' → Zeros s i j → Zeros s (suc i) j
Zeros-suc s i j h zero_there z =
    let more : suc i - j ≡ suc (i - j) = omega (arith, z.before) in
    record {
      before = omega (arith, z.before);
      same = rw (more, pow-suc, value-take-suc 0 s i h, zero_there) (omega (arith, z.same));
      last = z.last;
    }

trailing_from-Zeros :
    (s : Bytes) (i : ℕ) → i ≤ length s → Zeros s i (trailing_from (λ c. c == b'0') s i)
unfolding trailing_from
trailing_from-Zeros s zero h = record { before = omega arith; same = refl; last = inl refl }
trailing_from-Zeros s (suc i) h =
    let ih = trailing_from-Zeros s i (omega arith) in
    elim (Bool-cases (get_or s i 0 == b'0')) [
      | inl there ↦
          rw (there, trailing_from)
            (Zeros-suc s i (trailing_from (λ c. c == b'0') s i) (omega arith)
              (ground (arith, there)) ih)
      | inr other ↦
          let none_more : suc i - suc i ≡ 0 = omega arith in
          rw (other, trailing_from)
            record {
              before = omega arith;
              same = rw (none_more, pow-zero) (omega arith);
              last = inr (λ e. ground arith);
            }
    ]

-- A text that shows `x` parts of 10 ^ n, cut to `places` digits.
pub record Shows (n places x : ℕ) (trim_zeros : Bool) (fraction : Bytes) : Type 0 where
  pub digits : all_of is_digit fraction ≡ true
  pub size : length fraction ≤ min n places
  pub not_above : value 0 fraction * 10 ^ (n - length fraction) ≤ x
  pub near : x < value 0 fraction * 10 ^ (n - length fraction) + 10 ^ (n - min n places)
  pub whole : trim_zeros ≡ false → length fraction ≡ min n places
  pub shortest :
      trim_zeros ≡ true → (fraction ≡ []) ⊎ (get_or fraction (length fraction - 1) 0 ≢ b'0')

length-min_take : (m : ℕ) (s : Bytes) → m ≤ length s → length (take m s) ≡ m
length-min_take m s h = omega (arith, length-take m s)

-- The digits before they are trimmed.
cut-Shows :
    (n places x : ℕ)
    → x < 10 ^ n
    → Shows n places x false (take (min n places) (fraction_loop false n x []))
cut-Shows n places x h =
    let s = fraction_loop false n x [] in
    let m = min n places in
    let all_digits = fraction_loop-is_digit n x [] refl in
    let len : length s ≡ n = omega (arith, length-fraction_loop n x []) in
    let kept : length (take m s) ≡ m = length-min_take m s (omega arith) in
    let parts = take-append-drop m s in
    let left : length (drop m s) ≡ n - m = omega (arith, length-drop m s) in
    let val : value 0 (take m s ++ drop m s) ≡ x =
      rw parts (value-fraction_loop n x 0 [] h ∙ omega arith) in
    let both = value_front (take m s) (drop m s) (rw parts all_digits) in
    let front : (value 0 (take m s) * 10 ^ (n - m) ≤ x)
        × (x < (value 0 (take m s) + 1) * 10 ^ (n - m)) =
      rw (left, val) at both in
    record {
      digits =
          (&&-true _ _
            (sym (all_of-append is_digit (take m s) (drop m s)) ∙ rw parts all_digits)).0;
      size = omega arith;
      not_above = rw kept front.0;
      near = rw kept (omega (arith, front.1));
      whole = λ e. kept;
      shortest = λ e. cc;
    }

pub take-length_all : (s : Bytes) → take (length s) s ≡ s
take-length_all [] = refl
take-length_all (c ∷ s) = ap (λ t. c ∷ t) (take-length_all s)

get_or-take : (s : Bytes) (j i : ℕ) → i < j → get_or (take j s) i 0 ≡ get_or s i 0
get_or-take [] zero i h = refl
get_or-take [] (suc j) i h = refl
get_or-take (c ∷ s) zero i h = absurd (omega arith)
get_or-take (c ∷ s) (suc j) zero h = refl
get_or-take (c ∷ s) (suc j) (suc i) h = get_or-take s j i (omega arith)

last-take :
    (s : Bytes) (j : ℕ)
    → j ≤ length s
    → (j ≡ 0) ⊎ (get_or s (j - 1) 0 ≢ b'0')
    → (take j s ≡ []) ⊎ (get_or (take j s) (length (take j s) - 1) 0 ≢ b'0')
last-take s j h (inl none_left) = inl (rw none_left refl)
last-take s zero h (inr other) = inl refl
last-take s (suc j) h (inr other) =
    inr (rw (length-min_take (suc j) s h, get_or-take s (suc j) (suc j - 1) (omega arith)) other)

ten_power_add : (a b : ℕ) → 10 ^ (a + b) ≡ 10 ^ a * 10 ^ b
ten_power_add a zero = let same : a + 0 ≡ a = omega arith in rw (same, pow-zero) (omega arith)
ten_power_add a (suc b) =
    let next : a + suc b ≡ suc (a + b) = omega arith in
    rw (next, pow-suc, pow-suc) (omega (arith, ten_power_add a b))

remove_trailing-Shows :
    (n places x : ℕ) (s : Bytes)
    → Shows n places x false s
    → Shows n places x true (remove_trailing (λ c. c == b'0') s)
unfolding remove_trailing
remove_trailing-Shows n places x s a =
    let j = trailing_from (λ c. c == b'0') s (length s) in
    let z = trailing_from-Zeros s (length s) (omega arith) in
    let kept : length (take j s) ≡ j = length-min_take j s z.before in
    let same : value 0 (take j s) * 10 ^ (length s - j) ≡ value 0 s =
      z.same ∙ ap (value 0) (take-length_all s) in
    let apart : n - j ≡ (length s - j) + (n - length s) = omega (arith, z.before, a.size) in
    let units : value 0 (take j s) * 10 ^ (n - j) ≡ value 0 s * 10 ^ (n - length s) =
      rw (apart, ten_power_add, sym same) (omega arith) in
    record {
      digits =
          (&&-true _ _ (
            sym (all_of-append is_digit (take j s) (drop j s))
            ∙ rw (take-append-drop j s) a.digits)).0;
      size = omega (arith, kept, z.before, a.size);
      not_above = rw (kept, units) a.not_above;
      near = rw (kept, units) a.near;
      whole = λ e. cc;
      shortest = λ e. last-take s j z.before z.last;
    }

pub truncated-Shows :
    (n places x : ℕ) (trim_zeros : Bool)
    → x < 10 ^ n
    → Shows n places x trim_zeros
        (truncated trim_zeros (take (min n places) (fraction_loop false n x [])))
unfolding truncated
truncated-Shows n places x true h = remove_trailing-Shows n places x _ (cut-Shows n places x h)
truncated-Shows n places x false h = cut-Shows n places x h

with_prec-Shows :
    (n : ℕ) (seconds : Bytes) (x prec : ℕ) (trim_zeros : Bool)
    → x < 10 ^ n
    → prec < 2 ^ 31
    → (fraction : Bytes) × (with_prec n seconds x prec trim_zeros
        ≡ some (with_fraction seconds fraction))
      × Shows n prec x trim_zeros fraction
unfolding with_prec
with_prec-Shows n seconds x prec trim_zeros h p =
    (_, rw (lt→ltb prec (2 ^ 31) p) refl, truncated-Shows n prec x trim_zeros h)

-- For a `prec` that its cast to int keeps, the texts of a normalized timespec and of a normalized timeval
-- are the seconds and, where a digit is left, a point and the fraction: at most `prec` digits, which
-- give the fraction rounded down to `prec` places, exactly that many, or all nine or six if they are
-- fewer, without trim_zeros, and with it no zero at the end.
pub to_string-Shows :
    (ts : Timespec) (tv : Timeval) (prec : ℕ) (trim_zeros : Bool)
    → ts.tv_nsec < 10 ^ 9
    → tv.tv_usec < 10 ^ 6
    → prec < 2 ^ 31
    → ((fraction : Bytes) × (timespec_to_string ts prec trim_zeros
          ≡ some (with_fraction (to_string ts.tv_sec) fraction))
        × Shows 9 prec ts.tv_nsec trim_zeros fraction)
      × ((fraction : Bytes) × (timeval_to_string tv prec trim_zeros
            ≡ some (with_fraction (to_string tv.tv_sec) fraction))
          × Shows 6 prec tv.tv_usec trim_zeros fraction)
unfolding timespec_to_string timeval_to_string
to_string-Shows ts tv prec trim_zeros h h' p = (
  with_prec-Shows 9 (to_string ts.tv_sec) ts.tv_nsec prec trim_zeros h p,
  with_prec-Shows 6 (to_string tv.tv_sec) tv.tv_usec prec trim_zeros h' p,
)
