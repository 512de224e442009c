-- ===== src/StringCompare/Equal.antt =====
-- The equality tests: special_equal and slow_equal.
use simlib.Common.{
  ℕ, zero, suc, ◌<◌, ◌≡◌, refl, ap, Bool, true, false, not, ◌&&◌, [], ◌∷◌, Bytes, arith, length,
  ◌==◌, Bool-cases, inl, inr, map, ==_iff, ◌↔◌, &&-true, All, IsByte, if◌then◌else◌, ltb,
}
use Prim.Native.Nat.{min, bit_or, bit_xor}
use simlib.Ctype.{to_lower}
use simlib.StringTransform.{to_lower_str}
use simlib.StringCompare.{
  special_equal_loop, special_equal, lower_equal, slow_equal_loop, slow_equal,
}

-- A test that is passed by each code under a bound.
every_code : (ℕ → Bool) → ℕ → Bool
every_code test zero = true
every_code test (suc top) = if test top then every_code test top else false

every_code-true :
    (test : ℕ → Bool) (bound c : ℕ) → c < bound → every_code test bound ≡ true → test c ≡ true
unfolding every_code
every_code-true test zero c under all = absurd (omega arith)
every_code-true test (suc top) c under all = ground (arith, every_code-true test top c)

-- A byte of the accumulator stays a byte and is zero only if it was and the characters are equal.
abbrev step_table : ℕ → ℕ → Bool
step_table a b =
    let x = bit_xor a b in
    (ltb x 256 && (if a == b then x == 0 else not (x == 0)))
    && (ltb (bit_or a b) 256 && (if a == 0 then bit_or a b == b else not (bit_or a b == 0)))

steps : every_code (λ a. every_code (step_table a) 256) 256 ≡ true
unfolding every_code
steps = refl

step_facts : (a b : ℕ) → IsByte a → IsByte b → step_table a b ≡ true
step_facts a b p q = every_code-true (step_table a) 256 b q (every_code-true _ 256 a p steps)

bit_xor-zero : (a b : ℕ) → IsByte a → IsByte b → (bit_xor a b ≡ 0) ↔ (a ≡ b)
bit_xor-zero a b p q = let h = step_facts a b p q in (λ e. ground arith, λ e. ground arith)

bit_xor-IsByte : (a b : ℕ) → IsByte a → IsByte b → IsByte (bit_xor a b)
bit_xor-IsByte a b p q = let h = step_facts a b p q in ground arith

bit_or-IsByte : (a b : ℕ) → IsByte a → IsByte b → IsByte (bit_or a b)
bit_or-IsByte a b p q = let h = step_facts a b p q in ground arith

bit_or-zero : (a b : ℕ) → IsByte a → IsByte b → (bit_or a b ≡ 0) ↔ ((a ≡ 0) × (b ≡ 0))
bit_or-zero a b p q =
    let h = step_facts a b p q in (λ e. (ground arith, ground arith), λ (e, e'). ground arith)

slow_equal_loop-zero :
    (s t : Bytes) (rc : ℕ)
    → All IsByte s
    → All IsByte t
    → IsByte rc
    → length s ≡ length t
    → (slow_equal_loop s t (length s) rc ≡ 0) ↔ ((rc ≡ 0) × (s ≡ t))
unfolding slow_equal_loop
slow_equal_loop-zero [] [] rc hs ht hr l = (λ e. (e, refl), λ (e, _). e)
slow_equal_loop-zero [] (b ∷ t) rc hs ht hr l = absurd (omega arith)
slow_equal_loop-zero (a ∷ s) [] rc hs ht hr l = absurd (omega arith)
slow_equal_loop-zero (a ∷ s) (b ∷ t) rc hs ht hr l =
    let x = bit_xor-IsByte a b hs.0 ht.0 in
    let ih =
      slow_equal_loop-zero s t (bit_or rc (bit_xor a b)) hs.1 ht.1
        (bit_or-IsByte rc (bit_xor a b) hr x) (omega arith) in
    let o = bit_or-zero rc (bit_xor a b) hr x in
    let z = bit_xor-zero a b hs.0 ht.0 in
    (
      λ e. let (rc', same) = ih.0 e in let (r, d) = o.0 rc' in (r, cc (z.0 d, same)),
      λ (r, e). ih.1 (o.1 (r, z.1 (ground arith)), ground arith),
    )

-- For strings of bytes, slow_equal is true exactly where they are the same.
pub slow_equal_iff : (s t : Bytes) → All IsByte s → All IsByte t → (slow_equal s t ≡ true) ↔ (s ≡ t)
unfolding slow_equal
slow_equal_iff s t hs ht = (onto, from)
  where
    same_length : length s ≡ length t → min (length s) (length t) ≡ length s
    same_length l = omega arith

    onto :
        (slow_equal_loop s t (min (length s) (length t)) 0 == 0 && length s == length t) ≡ true
        → s ≡ t
    onto e =
        let both = &&-true (slow_equal_loop s t (min (length s) (length t)) 0 == 0) _ e in
        let l = (==_iff (length s) (length t)).0 both.1 in
        let z = (==_iff (slow_equal_loop s t (min (length s) (length t)) 0) 0).0 both.0 in
        ((slow_equal_loop-zero s t 0 hs ht (omega arith) l).0 (rw (same_length l) at z)).1

    from :
        s ≡ t
        → (slow_equal_loop s t (min (length s) (length t)) 0 == 0 && length s == length t) ≡ true
    from e =
        let l = ap length e in
        let z = (slow_equal_loop-zero s t 0 hs ht (omega arith) l).1 (refl, e) in
        rw (same_length l, z, (==_iff (length s) (length t)).1 l)

special_equal_loop-map :
    (f : ℕ → ℕ) (a b : Bytes)
    → length a ≡ length b
    → (special_equal_loop f a b ≡ true) ↔ (map f a ≡ map f b)
unfolding special_equal_loop
special_equal_loop-map f [] [] l = (λ _. refl, λ _. refl)
special_equal_loop-map f [] (y ∷ b) l = absurd (omega arith)
special_equal_loop-map f (x ∷ a) [] l = absurd (omega arith)
special_equal_loop-map f (x ∷ a) (y ∷ b) l =
    let ih = special_equal_loop-map f a b (omega arith) in
    (λ e. ground (arith, ih), λ e. ground (arith, ih))

length-map : (f : ℕ → ℕ) (s : Bytes) → length (map f s) ≡ length s
length-map f [] = refl
length-map f (c ∷ s) = ap suc (length-map f s)

-- special_equal with a function is true exactly where the two strings are the same once the function
-- is applied to each character.
pub special_equal_iff :
    (f : ℕ → ℕ) (a b : Bytes) → (special_equal f a b ≡ true) ↔ (map f a ≡ map f b)
unfolding special_equal
special_equal_iff f a b = elim (Bool-cases (length a == length b)) [
  | inl same ↦ rw same (special_equal_loop-map f a b ((==_iff _ _).0 same))
  | inr other ↦
      rw other (λ e. cc, λ e. absurd (ground (arith, ap length e, length-map f a, length-map f b)))
]

pub lower_equal_iff : (a b : Bytes) → (lower_equal a b ≡ true) ↔ (to_lower_str a ≡ to_lower_str b)
unfolding lower_equal to_lower_str
lower_equal_iff a b = special_equal_iff to_lower a b
