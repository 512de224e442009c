-- ===== src/StringView/Kmp/Border.antt =====
-- The table of string_view.hh's find: borders of prefixes, and the loop that falls back through them.
use simlib.Common.{
  ℕ, zero, suc, ◌+◌, ◌-◌, ◌≤◌, ◌<◌, ◌≡◌, ◌≢◌, refl, sym, ◌∙◌, ◌⊎◌, inl, inr, List, [], ◌∷◌, ◌++◌,
  Bytes, arith, length, ◌==◌, if◌then◌else◌, Bool-cases, ltb, ltb→lt, ap, length-append, ==_iff,
}
use simlib.StringView.Kmp.{at, fall_back, fill, prefix_table}

-- The last `j` of the first `n` characters of `t` are the first `j` of `s`.
abbrev pub Ends : (t s : ℕ → ℕ) (n j : ℕ) → Type 0
Ends t s n j = (j ≤ n) × ((i : ℕ) → i < j → t ((n - j) + i) ≡ s i)

module _ (t s : ℕ → ℕ) (n : ℕ) where
  pub Ends-shorter : (j k : ℕ) → Ends t s n k → Ends t s n j → j ≤ k → Ends s s k j
  Ends-shorter j k hk hj le = (
    le,
    λ i p.
        let e : (n - k) + ((k - j) + i) ≡ (n - j) + i = omega arith in
        sym (hk.1 ((k - j) + i) (omega arith)) ∙ ap t e ∙ hj.1 i p,
  )

  pub Ends-trans : (j k : ℕ) → Ends t s n k → Ends s s k j → Ends t s n j
  Ends-trans j k hk hj = (
    omega arith,
    λ i p.
        let e : (n - j) + i ≡ (n - k) + ((k - j) + i) = omega arith in
        ap t e ∙ hk.1 ((k - j) + i) (omega arith) ∙ hj.1 i p,
  )

  pub Ends-more : (j : ℕ) → Ends t s n j → t n ≡ s j → Ends t s (suc n) (suc j)
  Ends-more j h e = (
    omega arith,
    λ i p. elim (Bool-cases (i == j)) [
      | inl q ↦
          let at_j : i ≡ j = (==_iff i j).0 q in
          let here : (suc n - suc j) + i ≡ n = omega arith in ap t here ∙ e ∙ ap s (sym at_j)
      | inr q ↦
          let here : (suc n - suc j) + i ≡ (n - j) + i = omega arith in
          ap t here ∙ h.1 i (ground arith)
    ],
  )

  pub Ends-less : (j : ℕ) → Ends t s (suc n) (suc j) → Ends t s n j × (t n ≡ s j)
  Ends-less j h = (
    (
      omega arith,
      λ i p.
          let here : (n - j) + i ≡ (suc n - suc j) + i = omega arith in
          ap t here ∙ h.1 i (omega arith),
    ),
    let here : n ≡ (suc n - suc j) + j = omega arith in ap t here ∙ h.1 j (omega arith),
  )

-- `k` is the longest proper border of the first `n` characters of `s`.
pub record IsBorder (s : ℕ → ℕ) (n k : ℕ) : Type 0 where
  pub proper : k < n
  pub border : Ends s s n k
  pub longest : (j : ℕ) → j < n → Ends s s n j → j ≤ k

-- The entries of `p` are the borders of the prefixes.
abbrev pub IsTable : Bytes → List ℕ → Type 0
IsTable s p = (i : ℕ) → 0 < i → i ≤ length p → IsBorder (at s) i (at p (i - 1))

-- A shorter match of at least one more character does not go past `k`.
abbrev pub NoLonger : (t s : ℕ → ℕ) (n bound k c : ℕ) → Type 0
NoLonger t s n bound k c = (j : ℕ) → j < bound → Ends t s n j → c ≡ s j → j ≤ k

-- `if (c == s[k]) ++k;`
abbrev pub advance : Bytes → ℕ → ℕ → ℕ
advance s c k = if c == at s k then suc k else k

module _ (t : ℕ → ℕ) (s : Bytes) (p : List ℕ) (n bound c : ℕ) (table : IsTable s p) where
  -- What the loop leaves: a match that is the longest one that `c` prolongs, or is empty.
  abbrev pub Settled : ℕ → Type 0
  Settled k = Ends t (at s) n k × NoLonger t (at s) n bound k c × ((k ≡ 0) ⊎ (c ≡ at s k))

  shorter :
      (k : ℕ)
      → 0 < k
      → k ≤ length p
      → Ends t (at s) n k
      → NoLonger t (at s) n bound k c
      → c ≢ at s k
      → (at p (k - 1) < k)
        × Ends t (at s) n (at p (k - 1))
        × NoLonger t (at s) n bound (at p (k - 1)) c
  shorter k pos le e l ne =
      let b = table k pos le in
      (
        b.proper,
        Ends-trans t (at s) n (at p (k - 1)) k e b.border,
        λ j hj ej cj.
            let le_k = l j hj ej cj in
            let ne_k : j ≢ k = λ q. ne (cj ∙ ap (at s) q) in
            b.longest j (ground arith) (Ends-shorter t (at s) n j k e ej le_k),
      )

  pub fall_back-Settled :
      (rounds k : ℕ)
      → k ≤ rounds
      → k ≤ length p
      → Ends t (at s) n k
      → NoLonger t (at s) n bound k c
      → (fall_back s p c rounds k ≤ k) × Settled (fall_back s p c rounds k)
  unfolding fall_back
  fall_back-Settled zero k hr le e l = (omega arith, (e, l, inl (omega arith)))
  fall_back-Settled (suc rounds) k hr le e l = elim (Bool-cases (ltb 0 k)) [
    | inl pos ↦ elim (Bool-cases (c == at s k)) [
      | inl same ↦ rw (pos, same, fall_back) (omega arith, (e, l, inr ((==_iff c (at s k)).0 same)))
      | inr differ ↦
          let (less, e', l') = shorter k (ltb→lt 0 k pos) le e l (λ q. ground arith) in
          let (le', settled) =
            fall_back-Settled rounds (at p (k - 1)) (omega arith) (omega arith) e' l' in
          rw (pos, differ, fall_back) (omega arith, settled)
    ]
    | inr zero_k ↦ rw (zero_k, fall_back) (omega arith, (e, l, inl (ground arith)))
  ]

  module _ (k : ℕ) (here : t n ≡ c) (l : NoLonger t (at s) n bound k c) where
    -- A match after one more character is empty, or prolongs one before it.
    longer-NoLonger : (j : ℕ) → j < suc bound → Ends t (at s) (suc n) j → j ≤ suc k
    longer-NoLonger zero hj e = omega arith
    longer-NoLonger (suc j) hj e =
        let (before, same) = Ends-less t (at s) n j e in
        omega (arith, l j (omega arith) before (sym here ∙ same))

    longer-stopped : k ≡ 0 → c ≢ at s k → (j : ℕ) → j < suc bound → Ends t (at s) (suc n) j → j ≤ k
    longer-stopped zero_k ne zero hj e = omega arith
    longer-stopped zero_k ne (suc j) hj e =
        let (before, same) = Ends-less t (at s) n j e in
        let le = l j (omega arith) before (sym here ∙ same) in
        let at_k : j ≡ k = omega arith in absurd (ne (sym here ∙ same ∙ ap (at s) at_k))

  -- One more character: the longest match after it.
  pub Settled-advance :
      (k : ℕ)
      → t n ≡ c
      → Settled k
      → Ends t (at s) (suc n) (advance s c k)
        × ((j : ℕ) → j < suc bound → Ends t (at s) (suc n) j → j ≤ advance s c k)
  Settled-advance k here (e, l, stop) = elim (Bool-cases (c == at s k)) [
    | inl same ↦
        let eq = (==_iff c (at s k)).0 same in
        rw same (Ends-more t (at s) n k e (here ∙ eq), longer-NoLonger k here l)
    | inr differ ↦
        let ne : c ≢ at s k = λ q. ground arith in
        let zero_k : k ≡ 0 = elim stop [ inl z ↦ z | inr q ↦ absurd (ne q) ] in
        let none_of : (i : ℕ) → i < k → t ((suc n - k) + i) ≡ at s i =
          λ i q. absurd (omega arith) in
        rw differ ((omega arith, none_of), longer-stopped k here l zero_k ne)
  ]

module _ (s : Bytes) where
  at-append : (p : List ℕ) (k i : ℕ) → i < length p → at (p ++ k ∷ []) i ≡ at p i
  at-append [] k i h = absurd (omega arith)
  at-append (x ∷ p) k zero h = refl
  at-append (x ∷ p) k (suc i) h = at-append p k i (omega arith)

  at-last : (p : List ℕ) (k : ℕ) → at (p ++ k ∷ []) (length p) ≡ k
  at-last [] k = refl
  at-last (x ∷ p) k = at-last p k

  IsTable-append :
      (p : List ℕ) (k : ℕ)
      → IsTable s p
      → IsBorder (at s) (suc (length p)) k
      → IsTable s (p ++ k ∷ [])
  IsTable-append p k table b i pos le = elim (Bool-cases (i == suc (length p))) [
    | inl last ↦
        let eq = (==_iff i (suc (length p))).0 last in
        let before : i - 1 ≡ length p = omega arith in rw (before, at-last p k, eq) b
    | inr inner ↦
        let ne : i ≢ suc (length p) = λ e. ground arith in
        let joined = length-append p (k ∷ []) in
        let lt : i ≤ length p = ground arith in
        rw (at-append p k (i - 1) (omega arith)) (table i pos (omega arith))
  ]

  -- The entry that the loop computes at `i`.
  abbrev next_border : ℕ → List ℕ → ℕ → ℕ
  next_border i p k = advance s (at s i) (fall_back s p (at s i) k k)

  fill-step :
      (p : List ℕ) (i k : ℕ)
      → IsTable s p
      → length p ≡ i
      → IsBorder (at s) i k
      → IsBorder (at s) (suc i) (next_border i p k)
  fill-step p i k table len b =
      let c = at s i in
      let fit : k ≤ length p = rw len (omega (arith, b.proper)) in
      let (le, settled) =
        fall_back-Settled (at s) s p i i c table k k (omega arith) fit b.border
          (λ j hj e same. b.longest j hj e) in
      let (ends, longest) =
        Settled-advance (at s) s p i i c table (fall_back s p c k k) refl settled in
      record { proper = ground (arith, le, b.proper); border = ends; longest = longest }

  pub fill-IsTable :
      (n i : ℕ) (p : List ℕ) (k : ℕ)
      → IsTable s p
      → length p ≡ i
      → IsBorder (at s) i k
      → IsTable s (fill s n i p k) × (length (fill s n i p k) ≡ i + n)
  unfolding fill
  fill-IsTable zero i p k table len b = (table, omega arith)
  fill-IsTable (suc n) i p k table len b =
      let k' = next_border i p k in
      let b' = fill-step p i k table len b in
      let table' = IsTable-append p k' table (rw len b') in
      let len' : length (p ++ k' ∷ []) ≡ i + 1 = omega (arith, length-append p (k' ∷ [])) in
      let more : suc i ≡ i + 1 = omega arith in
      let (all, whole) = fill-IsTable n (i + 1) (p ++ k' ∷ []) k' table' len' (rw more at b') in
      (all, omega arith)

  first-IsBorder : IsBorder (at s) 1 0
  first-IsBorder = record {
    proper = omega arith;
    border = (omega arith, λ i h. absurd (omega arith));
    longest = λ j h e. omega arith;
  }

  -- `p` has an entry for each character of the string, and each is the length of the longest proper
  -- border of the prefix that ends there.
  pub prefix_table-IsTable :
      0 < length s → IsTable s (prefix_table s) × (length (prefix_table s) ≡ length s)
  unfolding prefix_table
  prefix_table-IsTable h =
      let (table, whole) =
        fill-IsTable (length s - 1) 1 (0 ∷ []) 0 first_table refl first-IsBorder in
      (table, omega arith)
    where
      first_table : IsTable s (0 ∷ [])
      first_table i pos le = let one : i ≡ 1 = omega arith in rw one first-IsBorder
