-- ===== src/StringView/Parts.antt =====
-- What the operations that move a view's ends leave it showing.
use simlib.Common.{
  ℕ, ◌+◌, ◌-◌, ◌<◌, ◌≤◌, ◌≡◌, refl, [], none, some, ◌⊎◌, Bytes, arith, take, drop, length, ltb, inl,
  inr, Bool-cases, false, if◌then◌else◌, tests,
}
use Prim.Native.Nat.{min}
use simlib.StringView.Refines.{Shows, Shows-part, Shows-rest, len-Shows, drop-clamp}
use simlib.StringView.{
  View, substr_from, substr, remove_prefix, remove_suffix, extract_prefix, extract_suffix,
}

not-ltb : (a b : ℕ) → ltb a b ≡ false → b ≤ a
not-ltb a b h = ground arith

-- `if (n > len) n = len;`
clamp_min : (len n : ℕ) → (if ltb len n then len else n) ≡ min len n
clamp_min len n = ground arith

module _ (buffer : Bytes) (v : View) {s : Bytes} (h : Shows buffer v s) where
  str_zero : (k : ℕ) → record { str = v.str + 0; len = k } ≡ record v { len = k }
  str_zero k = ground arith

  Shows-front : (k n : ℕ) → k ≡ min n v.len → Shows buffer (record v { len = k }) (take n s)
  Shows-front k n e = rw (str_zero k) at (Shows-part buffer v 0 k n h (omega arith) (omega arith))

  Shows-back :
      (m k n : ℕ)
      → m ≡ min v.len n
      → m + k ≡ v.len
      → Shows buffer (record { str = v.str + m; len = k }) (drop n s)
  Shows-back m k n e e' =
      rw (drop-clamp n m s (omega (arith, len-Shows buffer h))) at (Shows-rest buffer v m k h e')

  remove_prefix-Shows : (n : ℕ) → Shows buffer (remove_prefix v n) (drop n s)
  unfolding remove_prefix
  remove_prefix-Shows n = Shows-back _ _ n (clamp_min v.len n) (omega (arith, clamp_min v.len n))

  remove_suffix-Shows : (n : ℕ) → Shows buffer (remove_suffix v n) (take (length s - n) s)
  unfolding remove_suffix
  remove_suffix-Shows n = elim (Bool-cases (ltb v.len n)) [
    | inl past ↦ rw past (Shows-front 0 (length s - n) (omega (tests, len-Shows buffer h)))
    | inr within ↦
        rw within (Shows-front (v.len - n) (length s - n) (omega (arith, len-Shows buffer h)))
  ]

  extract_prefix-Shows :
      (n : ℕ)
      → Shows buffer (extract_prefix v n).0 (take n s)
        × Shows buffer (extract_prefix v n).1 (drop n s)
  unfolding extract_prefix
  extract_prefix-Shows n = (
    Shows-front _ n (omega (arith, clamp_min v.len n)),
    Shows-back _ _ n (clamp_min v.len n) (omega (arith, clamp_min v.len n)),
  )

  -- For a view `v` that shows the string `s` in the buffer and any `n`: remove_prefix leaves a view of
  -- `s` without its first `n` bytes, remove_suffix one without its last `n` bytes, extract_prefix gives
  -- the first `n` bytes and leaves the others; where `n` is greater than the length, all of `s` counts.
  pub parts-Shows :
      (n : ℕ)
      → Shows buffer (remove_prefix v n) (drop n s)
        × Shows buffer (remove_suffix v n) (take (length s - n) s)
        × Shows buffer (extract_prefix v n).0 (take n s)
        × Shows buffer (extract_prefix v n).1 (drop n s)
  parts-Shows n = (
    remove_prefix-Shows n,
    remove_suffix-Shows n,
    (extract_prefix-Shows n).0,
    (extract_prefix-Shows n).1,
  )

  -- For a view `v` that shows `s`: where `n` is at most the length, extract_suffix gives a view of the
  -- last `n` bytes and leaves the others. For a greater `n` the view that it returns ends past the end
  -- of `v`, and an empty one is left.
  pub extract_suffix-Shows :
      (n : ℕ)
      → ((n ≤ length s)
          × Shows buffer (extract_suffix v n).0 (drop (length s - n) s)
          × Shows buffer (extract_suffix v n).1 (take (length s - n) s))
        ⊎ ((length s < n)
            × (v.str + v.len < (extract_suffix v n).0.str + (extract_suffix v n).0.len)
            × Shows buffer (extract_suffix v n).1 [])
  unfolding extract_suffix
  extract_suffix-Shows n = elim (Bool-cases (ltb v.len n)) [
    | inl past ↦ rw past (
        inr (
          omega (tests, len-Shows buffer h),
          omega (tests, len-Shows buffer h),
          Shows-front (n - n) 0 (omega arith),
        ))
    | inr within ↦
        let e = len-Shows buffer h in
        let le = not-ltb v.len n within in
        rw within (
          inl (
            omega arith,
            Shows-back (v.len - n) n (length s - n) (omega arith) (omega arith),
            Shows-front (v.len - n) (length s - n) (omega arith),
          ))
  ]

  -- For a view `v` that shows `s`: both forms of substr throw exactly where `pos` is past the end, and
  -- else give a view of the bytes from `pos` on, at most `count` of them in the form with a count.
  pub substr-Shows :
      (pos count : ℕ)
      → ((length s < pos) × (substr v pos count ≡ none) × (substr_from v pos ≡ none))
        ⊎ ((pos ≤ length s)
            × ((w : View) × (substr v pos count ≡ some w)
                × Shows buffer w (take count (drop pos s)))
            × ((w : View) × (substr_from v pos ≡ some w) × Shows buffer w (drop pos s)))
  unfolding substr substr_from
  substr-Shows pos count = elim (Bool-cases (ltb v.len pos)) [
    | inl past ↦ inl (omega (tests, len-Shows buffer h), rw past, rw past)
    | inr within ↦
        let le = not-ltb v.len pos within in
        inr (
          omega (arith, len-Shows buffer h),
          (_, rw within, Shows-part buffer v pos _ count h (omega arith) refl),
          (_, rw within, Shows-back pos (v.len - pos) pos (omega arith) (omega arith)),
        )
  ]
