-- ===== src/StringView/Refines.antt =====
-- The pointer operations of a view against the bytes that it shows.
use simlib.Common.{
  ℕ, zero, suc, ◌+◌, ◌-◌, ◌≤◌, ◌≡◌, refl, ap, sym, ◌∙◌, List, [], ◌∷◌, Bytes, arith, take, drop,
  length, length-take, length-drop, take-all,
}
use Prim.Native.Nat.{min}
use simlib.StringView.{View, bytes, InBuffer}

module _ {ℓ} {A : Type ℓ} where
  drop-nil : (k : ℕ) → drop {A = A} k [] ≡ []
  drop-nil zero = refl
  drop-nil (suc k) = refl

  drop-add : (m n : ℕ) (xs : List A) → drop (m + n) xs ≡ drop n (drop m xs)
  drop-add zero n xs = let e : zero + n ≡ n = omega arith in rw e
  drop-add (suc m) n [] = drop-nil (suc m + n) ∙ sym (drop-nil n)
  drop-add (suc m) n (x ∷ xs) =
      let e : suc m + n ≡ suc (m + n) = omega arith in rw e (drop-add m n xs)

  take-take : (m n : ℕ) (xs : List A) → m ≤ n → take m (take n xs) ≡ take m xs
  take-take zero n xs h = refl
  take-take (suc m) zero xs h = absurd (omega arith)
  take-take (suc m) (suc n) [] h = refl
  take-take (suc m) (suc n) (x ∷ xs) h = ap (◌∷◌ x) (take-take m n xs (omega arith))

  drop-take : (m n : ℕ) (xs : List A) → drop m (take n xs) ≡ take (n - m) (drop m xs)
  drop-take zero n xs = let e : n - zero ≡ n = omega arith in rw e
  drop-take (suc m) zero xs = let e : zero - suc m ≡ zero = omega arith in rw e
  drop-take (suc m) (suc n) [] = sym (take-nil (suc n - suc m))
    where
      take-nil : (k : ℕ) → take {A = A} k [] ≡ []
      take-nil zero = refl
      take-nil (suc k) = refl
  drop-take (suc m) (suc n) (x ∷ xs) =
      let e : suc n - suc m ≡ n - m = omega arith in rw e (drop-take m n xs)

module _ (buffer : Bytes) where
  length-bytes : (v : View) → InBuffer buffer v → length (bytes buffer v) ≡ v.len
  length-bytes v h = omega (arith, length-take v.len (drop v.str buffer), length-drop v.str buffer)

  -- The bytes of a part of the view: from `m` on, `k` of them.
  bytes_part :
      (v : View) (m k : ℕ)
      → m + k ≤ v.len
      → bytes buffer (record { str = v.str + m; len = k }) ≡ take k (drop m (bytes buffer v))
  bytes_part v m k h =
      rw (drop-add v.str m buffer, drop-take m v.len (drop v.str buffer))
        (sym (take-take k (v.len - m) (drop m (drop v.str buffer)) (omega arith)))

module _ {ℓ} {A : Type ℓ} where
  take-min : (n : ℕ) (xs : List A) → take (min n (length xs)) xs ≡ take n xs
  take-min zero xs = let e : min zero (length xs) ≡ zero = omega arith in rw e
  take-min (suc n) [] = let e : min (suc n) zero ≡ zero = omega arith in rw e
  take-min (suc n) (x ∷ xs) =
      let e : min (suc n) (suc (length xs)) ≡ suc (min n (length xs)) = omega arith in
      rw e (ap (◌∷◌ x) (take-min n xs))

  pub drop-clamp : (n m : ℕ) (xs : List A) → m ≡ min (length xs) n → drop m xs ≡ drop n xs
  drop-clamp zero m xs e = let e' : m ≡ zero = omega arith in rw e'
  drop-clamp (suc n) m [] e = let e' : m ≡ zero = omega arith in rw e'
  drop-clamp (suc n) zero (x ∷ xs) e = absurd (omega arith)
  drop-clamp (suc n) (suc m) (x ∷ xs) e = drop-clamp n m xs (omega arith)

  take-clamp : (n m : ℕ) (xs : List A) → m ≡ min n (length xs) → take m xs ≡ take n xs
  take-clamp n m xs e = rw e (take-min n xs)

-- The view lies in the buffer and shows the string `s`.
pub record Shows (buffer : Bytes) (v : View) (s : Bytes) : Type 0 where
  pub fits : InBuffer buffer v
  pub shown : bytes buffer v ≡ s

module _ (buffer : Bytes) where
  pub len-Shows : {v : View} {s : Bytes} → Shows buffer v s → v.len ≡ length s
  len-Shows {v} h = sym (length-bytes buffer v h.fits) ∙ ap length h.shown

  -- A part of the view that lies within it.
  pub Shows-part :
      (v : View) {s : Bytes} (m k n : ℕ)
      → Shows buffer v s
      → m + k ≤ v.len
      → k ≡ min n (v.len - m)
      → Shows buffer (record { str = v.str + m; len = k }) (take n (drop m s))
  Shows-part v {s} m k n h le e = record {
    fits = omega (arith, h.fits);
    shown =
        bytes_part buffer v m k le
        ∙ ap (λ t. take k (drop m t)) h.shown
        ∙ take-clamp n k (drop m s) (omega (arith, length-drop m s, len-Shows h));
  }

  -- The suffix from `m` on.
  pub Shows-rest :
      (v : View) {s : Bytes} (m k : ℕ)
      → Shows buffer v s
      → m + k ≡ v.len
      → Shows buffer (record { str = v.str + m; len = k }) (drop m s)
  Shows-rest v {s} m k h e =
      rw (take-all k (drop m s) (omega (arith, length-drop m s, len-Shows h))) at
        (Shows-part v m k k h (omega arith) (omega arith))
