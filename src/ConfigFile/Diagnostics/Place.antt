-- ===== src/ConfigFile/Diagnostics/Place.antt =====
-- The line and the column that throw_parse_error of src/config_file.cc reports.
use simlib.Common.{
  ℕ, zero, suc, ◌+◌, ◌-◌, ◌<◌, ◌≤◌, ◌≡◌, ◌≢◌, refl, sym, ap, ◌∙◌, subst, ◌⊎◌, inl, inr, false, [],
  ◌∷◌, Bytes, ◌==◌, if◌then◌else◌, length, take, get_or, arith, Bool-cases, ==_iff,
}
use simlib.ConfigFile.Diagnostics.{last_newline, newlines, line_at, col_at}

-- A newline at `x`, or the start of the text where there is none; none between it and `n`.
record IsLast (config : Bytes) (n x : ℕ) : Type 0 where
  found : ((x ≡ 0) × (get_or config 0 0 ≢ b'\n')) ⊎ ((x < n) × (get_or config x 0 ≡ b'\n'))
  none_after : (j : ℕ) → x < j → j < n → get_or config j 0 ≢ b'\n'

not_newline : (c : ℕ) → (c == b'\n') ≡ false → c ≢ b'\n'
not_newline c e q = absurd (ground (arith, e, q))

here : (config : Bytes) (n : ℕ) → get_or config n 0 ≡ b'\n' → IsLast config (suc n) n
here config n e = record {
  found = inr (omega arith, e);
  none_after = λ j a b. absurd (omega arith);
}

below_suc : (j n : ℕ) → j < suc n → (j < n) ⊎ (j ≡ n)
below_suc j n b = ground arith

further :
    (config : Bytes) (n x : ℕ)
    → get_or config n 0 ≢ b'\n'
    → IsLast config n x
    → IsLast config (suc n) x
further config n x ne h = record {
  found = elim h.found [ inl start ↦ inl start | inr (lt, e) ↦ inr (omega arith, e) ];
  none_after = λ j a b. by_place j a b;
}
  where
    by_place : (j : ℕ) → x < j → j < suc n → get_or config j 0 ≢ b'\n'
    by_place j a b = elim (below_suc j n b) [
      | inl lt ↦ h.none_after j a lt
      | inr e ↦ subst (λ k. get_or config k 0 ≢ b'\n') (sym e) ne
    ]

last_newline-IsLast :
    (config : Bytes) (n : ℕ)
    → (0 < n) ⊎ (get_or config 0 0 ≢ b'\n')
    → IsLast config n (last_newline config n)
unfolding last_newline
last_newline-IsLast config zero (inl lt) = absurd (omega arith)
last_newline-IsLast config zero (inr ne) = record {
  found = inl (refl, ne);
  none_after = λ j a b. absurd (omega arith);
}
last_newline-IsLast config (suc zero) h = elim (Bool-cases (get_or config 0 0 == b'\n')) [
  | inl e ↦ rw (e, last_newline) (here config 0 ((==_iff _ _).0 e))
  | inr e ↦
      rw (e, last_newline)
        (record {
          found = inl (refl, λ q. not_newline _ e q);
          none_after = λ j a b. absurd (omega arith);
        })
]
last_newline-IsLast config (suc (suc n)) h = elim (Bool-cases (get_or config (suc n) 0 == b'\n')) [
  | inl e ↦ rw (e, last_newline) (here config (suc n) ((==_iff _ _).0 e))
  | inr e ↦
      rw (e, last_newline)
        (further config (suc n) (last_newline config (suc n)) (not_newline _ e)
          (last_newline-IsLast config (suc n) (inl (omega arith))))
]

newlines-take-suc :
    (s : Bytes) (j : ℕ)
    → j < length s
    → newlines (take (suc j) s) ≡ newlines (take j s) + (if get_or s j 0 == b'\n' then 1 else 0)
unfolding newlines
newlines-take-suc [] j h = absurd (omega arith)
newlines-take-suc (c ∷ s) zero h = omega arith
newlines-take-suc (c ∷ s) (suc j) h = omega (arith, newlines-take-suc s j (omega arith))

newlines-take-same :
    (s : Bytes) (i j : ℕ)
    → i ≤ j
    → j ≤ length s
    → ((k : ℕ) → i ≤ k → k < j → get_or s k 0 ≢ b'\n')
    → newlines (take j s) ≡ newlines (take i s)
newlines-take-same s i zero le h none = let e : i ≡ zero = omega arith in rw e
newlines-take-same s i (suc j) le h none = elim (cases i (suc j) le) [
  | inr e ↦ rw e
  | inl lt ↦
      let this : (get_or s j 0 == b'\n') ≡ false =
        no_newline _ (none j (omega arith) (omega arith)) in
      newlines-take-suc s j (omega arith)
      ∙ rw this (
          plus_zero _
          ∙ newlines-take-same s i j (omega arith) (omega arith) (λ k a b. none k a (omega arith)))
]
  where
    cases : (a b : ℕ) → a ≤ b → (a < b) ⊎ (a ≡ b)
    cases a b le = ground arith

    no_newline : (c : ℕ) → c ≢ b'\n' → (c == b'\n') ≡ false
    no_newline c ne = ground arith

    plus_zero : (n : ℕ) → n + 0 ≡ n
    plus_zero n = omega arith

-- Where a position is: the line that it is on begins at `start`.
pub record Place (config : Bytes) (pos line col : ℕ) : Type 0 where
  pub start : ℕ
  pub column : col ≡ pos - start + 1
  pub inside : start ≤ pos
  pub begins : (start ≡ 0) ⊎ ((0 < start) × (get_or config (start - 1) 0 ≡ b'\n'))
  pub no_newline : (j : ℕ) → start ≤ j → j < pos → get_or config j 0 ≢ b'\n'
  pub counted : line ≡ 1 + newlines (take pos config)

plus_one : (x : ℕ) → x + 1 ≡ suc x
plus_one x = omega arith

take_none : (s : Bytes) → newlines (take 0 s) ≡ 0
unfolding newlines
take_none s = refl

is_newline : (c : ℕ) → c ≡ b'\n' → if◌then◌else◌ {A = ℕ} (c == b'\n') 1 0 ≡ 1
is_newline c e = ground arith

is_other : (c : ℕ) → c ≢ b'\n' → if◌then◌else◌ {A = ℕ} (c == b'\n') 1 0 ≡ 0
is_other c ne = ground arith

-- On the first line the column counts from the start, on others from the newline.
first_line : (pos n : ℕ) → n ≡ 0 → pos - 0 + (if 1 + n == 1 then 1 else 0) ≡ pos - 0 + 1
first_line pos n e = ground arith

later_line :
    (pos x n : ℕ) → x < pos → 0 < n → pos - x + (if 1 + n == 1 then 1 else 0) ≡ pos - suc x + 1
later_line pos x n lt some_newline = ground arith

on_first_line :
    (config : Bytes) (pos : ℕ)
    → IsLast config pos 0
    → pos < length config
    → get_or config 0 0 ≢ b'\n'
    → let line = 1 + newlines (take 1 config) in
      Place config pos line (pos - 0 + (if line == 1 then 1 else 0))
on_first_line config pos h inside ne = record {
  start = 0;
  column = first_line pos (newlines (take 1 config)) first_count;
  inside = omega arith;
  begins = inl refl;
  no_newline = λ j a b. before j b;
  counted = omega (arith, first_count, count);
}
  where
    first_count : newlines (take 1 config) ≡ 0
    first_count = omega (
      arith,
      newlines-take-suc config 0 (omega arith),
      take_none config,
      is_other (get_or config 0 0) ne,
    )

    before : (j : ℕ) → j < pos → get_or config j 0 ≢ b'\n'
    before zero b = ne
    before (suc j) b = h.none_after (suc j) (omega arith) b

    count : newlines (take pos config) ≡ 0
    count =
        newlines-take-same config 0 pos (omega arith) (omega arith) (λ k a b. before k b)
        ∙ take_none config

on_later_line :
    (config : Bytes) (pos x : ℕ)
    → IsLast config pos x
    → pos < length config
    → x < pos
    → get_or config x 0 ≡ b'\n'
    → let line = 1 + newlines (take (suc x) config) in
      Place config pos line (pos - x + (if line == 1 then 1 else 0))
on_later_line config pos x h inside lt e = record {
  start = suc x;
  column = later_line pos x (newlines (take (suc x) config)) lt some_newline;
  inside = omega arith;
  begins = inr (omega arith, (let k : suc x - 1 ≡ x = omega arith in rw k e));
  no_newline = λ j a b. h.none_after j (omega arith) b;
  counted =
      ap (λ n. 1 + n)
        (sym (
          newlines-take-same config (suc x) pos (omega arith) (omega arith)
            (λ k a b. h.none_after k (omega arith) b)));
}
  where
    some_newline : 0 < newlines (take (suc x) config)
    some_newline =
        omega (arith, newlines-take-suc config x (omega arith), is_newline (get_or config x 0) e)

place :
    (config : Bytes) (pos x : ℕ)
    → IsLast config pos x
    → pos < length config
    → let line = 1 + newlines (take (suc x) config) in
      Place config pos line (pos - x + (if line == 1 then 1 else 0))
place config pos x h inside = elim h.found [
  | inl (e, ne) ↦ start_at x e h ne
  | inr (lt, e) ↦ on_later_line config pos x h inside lt e
]
  where
    start_at :
        (x : ℕ)
        → x ≡ 0
        → IsLast config pos x
        → get_or config 0 0 ≢ b'\n'
        → let line = 1 + newlines (take (suc x) config) in
          Place config pos line (pos - x + (if line == 1 then 1 else 0))
    start_at zero e h ne = on_first_line config pos h inside ne
    start_at (suc x) e h ne = absurd (omega arith)

-- For a position in the text that is not a newline at its very start, the line that throw_parse_error
-- reports is one more than the number of newlines before the position, and the column is one more than
-- its distance from the start of that line.
pub line_at-Place :
    (config : Bytes) (pos : ℕ)
    → pos < length config
    → (0 < pos) ⊎ (get_or config 0 0 ≢ b'\n')
    → Place config pos (line_at config pos) (col_at config pos)
unfolding line_at col_at
line_at-Place config pos inside first =
    rw (plus_one (last_newline config pos))
      (place config pos (last_newline config pos) (last_newline-IsLast config pos first) inside)
