-- ===== src/Time/Powers.antt =====
-- What is_power_of_10 of include/simlib/time.hh accepts.
use simlib.Common.{
  ℕ, zero, suc, ◌*◌, ◌/◌, ◌%◌, ◌^◌, ◌≤◌, ◌<◌, ◌≡◌, ◌↔◌, refl, sym, ap, subst, true, arith, inl, inr,
  ◌⊎◌,
}
use native.Mathlib.Nat.{pow-suc}
use simlib.Number.{ℤ, pos, negsuc}
use simlib.Time.{power_loop, is_power_of_10}

power_loop-turn :
    (fuel x : ℕ)
    → power_loop (suc fuel) x ≡ true
    → (x ≡ 1) ⊎ ((1 < x) × (x % 10 ≡ 0) × (power_loop fuel (x / 10) ≡ true))
unfolding power_loop
power_loop-turn fuel x e = ground arith

power_loop_sound : (fuel x : ℕ) → x ≤ fuel → power_loop fuel x ≡ true → (k : ℕ) × (x ≡ 10 ^ k)
unfolding power_loop
power_loop_sound zero x h e = absurd (ground arith)
power_loop_sound (suc fuel) x h e = elim (power_loop-turn fuel x e) [
  | inl one ↦ (0, one)
  | inr (large, last, rest) ↦
      let (k, power) = power_loop_sound fuel (x / 10) (omega arith) rest in
      (suc k, rw pow-suc (omega arith))
]

power_loop-next :
    (fuel y : ℕ) → 0 < y → power_loop fuel y ≡ true → power_loop (suc fuel) (y * 10) ≡ true
unfolding power_loop
power_loop-next fuel y h e = let back : y * 10 / 10 ≡ y = omega arith in rw back (ground arith)

pub power-pos : (k : ℕ) → 0 < 10 ^ k
power-pos zero = omega arith
power-pos (suc k) = rw pow-suc (omega (arith, power-pos k))

power_loop_complete : (fuel k : ℕ) → 10 ^ k ≤ fuel → power_loop fuel (10 ^ k) ≡ true
unfolding power_loop
power_loop_complete zero k h = absurd (omega (arith, power-pos k))
power_loop_complete (suc fuel) zero h = refl
power_loop_complete (suc fuel) (suc k) h =
    let room : 10 ^ k * 10 ≤ suc fuel = rw pow-suc at h in
    rw pow-suc (
      power_loop-next fuel (10 ^ k) (power-pos k)
        (power_loop_complete fuel k (omega (arith, power-pos k))))

pos-injective : (a b : ℕ) → pos a ≡ pos b → a ≡ b
pos-injective a b e = cc

-- is_power_of_10 accepts the powers of ten, and nothing else.
pub is_power_of_10_iff : (x : ℤ) → (is_power_of_10 x ≡ true) ↔ ((k : ℕ) × (x ≡ pos (10 ^ k)))
unfolding is_power_of_10
is_power_of_10_iff (negsuc n) = (λ e. cc, λ (k, e). cc)
is_power_of_10_iff (pos zero) =
    (λ e. cc, λ (k, e). absurd (omega (arith, power-pos k, pos-injective 0 (10 ^ k) e)))
is_power_of_10_iff (pos (suc n)) = (
  λ e. let (k, power) = power_loop_sound (suc n) (suc n) (omega arith) e in (k, ap pos power),
  λ (k, e).
      let same = pos-injective (suc n) (10 ^ k) e in
      subst (λ x. power_loop (suc n) x ≡ true) (sym same)
        (power_loop_complete (suc n) k (omega arith)),
)
