-- ===== src/ConfigFile/Lines.antt =====
-- Buffers that end with a newline, as the text that ConfigFile parses does.
use simlib.Common.{
  ℕ, zero, suc, ◌<◌, ◌≤◌, ◌≡◌, ◌≢◌, refl, Bool, false, [], ◌∷◌, ◌++◌, Bytes, arith, length,
  Bool-cases, inl, inr, drop,
}
use simlib.StringView.Text.{remove_leading}

abbrev last_or : ℕ → Bytes → ℕ
last_or d [] = d
last_or d (c ∷ s) = last_or c s

-- Empty, or its last character is a newline.
abbrev pub Ended : Bytes → Type 0
Ended s = last_or b'\n' s ≡ b'\n'

-- Not empty, and its last character is a newline.
abbrev pub Lines : Bytes → Type 0
Lines [] = ⊥
Lines (c ∷ s) = last_or c s ≡ b'\n'

pub Lines-Ended : (s : Bytes) → Lines s → Ended s
Lines-Ended [] h = refl
Lines-Ended (c ∷ s) h = h

pub Ended-tail : (c : ℕ) (s : Bytes) → Lines (c ∷ s) → Ended s
Ended-tail c [] h = refl
Ended-tail c (d ∷ s) h = h

pub Lines-tail : (c : ℕ) (s : Bytes) → Lines (c ∷ s) → c ≢ b'\n' → Lines s
Lines-tail c [] h ne = absurd (ne h)
Lines-tail c (d ∷ s) h ne = h

pub remove_leading-Ended : (f : ℕ → Bool) (s : Bytes) → Ended s → Ended (remove_leading f s)
unfolding remove_leading
remove_leading-Ended f [] h = h
remove_leading-Ended f (c ∷ s) h = elim (Bool-cases (f c)) [
  | inl skip ↦ rw (skip, remove_leading) (remove_leading-Ended f s (Ended-tail c s h))
  | inr stop ↦ rw (stop, remove_leading) h
]

-- Characters are removed that are no newline.
pub remove_leading-Lines :
    (f : ℕ → Bool) (s : Bytes) → f b'\n' ≡ false → Lines s → Lines (remove_leading f s)
unfolding remove_leading
remove_leading-Lines f [] nl h = h
remove_leading-Lines f (c ∷ s) nl h = elim (Bool-cases (f c)) [
  | inl skip ↦
      rw (skip, remove_leading)
        (remove_leading-Lines f s nl (Lines-tail c s h (λ e. cc (rw e at skip, nl))))
  | inr stop ↦ rw (stop, remove_leading) h
]

pub length-remove_leading : (f : ℕ → Bool) (s : Bytes) → length (remove_leading f s) ≤ length s
unfolding remove_leading
length-remove_leading f [] = omega arith
length-remove_leading f (c ∷ s) = ground (arith, length-remove_leading f s)

pub drop-Lines : (n : ℕ) (s : Bytes) → n < length s → Lines s → Lines (drop n s)
drop-Lines n [] lt h = absurd h
drop-Lines zero (c ∷ s) lt h = h
drop-Lines (suc n) (c ∷ []) lt h = absurd (omega arith)
drop-Lines (suc n) (c ∷ d ∷ s) lt h = drop-Lines n (d ∷ s) (omega arith) h

pub append-Lines : (s : Bytes) → Lines (s ++ b'\n' ∷ [])
append-Lines [] = refl
append-Lines (c ∷ s) = go c s
  where
    go : (d : ℕ) (t : Bytes) → last_or d (t ++ b'\n' ∷ []) ≡ b'\n'
    go d [] = refl
    go d (e ∷ t) = go e t
