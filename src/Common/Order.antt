-- ===== src/Common/Order.antt =====
-- `<` on the native numbers is well founded; strong induction on a number.
use mathlib.Core.WellFounded.{Acc, WellFounded, induction}
use Prim.Native.Nat.{ℕ, zero, suc, ◌<◌}
use native.Mathlib.Omega.{arith}

Acc-below : (k n : ℕ) → n < k → Acc ◌<◌ n
Acc-below zero n h = elim h [ ]
Acc-below (suc k) n h = Acc.intro n (λ m hm. Acc-below k m (omega arith))

lt_wf : WellFounded ◌<◌
lt_wf = record { apply = λ n. Acc-below (suc n) n (omega arith) }

pub strong_induction {ℓ} :
    (C : ℕ → Type ℓ) → ((n : ℕ) → ((m : ℕ) → m < n → C m) → C n) → (n : ℕ) → C n
strong_induction C step n = induction lt_wf {C = C} n step
