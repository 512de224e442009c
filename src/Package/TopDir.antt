-- ===== src/Package/TopDir.antt =====
-- The directory that a path starts with, which main_dir and zip_package_main_dir of
-- src/sim/problem_package.cc look for.
use simlib.Common.{
  ℕ, zero, suc, ◌+◌, ◌-◌, ◌≤◌, ◌≡◌, ◌≢◌, refl, true, false, List, [], ◌∷◌, Bytes, arith, sym, ap,
  ◌∙◌, ◌⊎◌, if◌then◌else◌, Bool-cases, Option-cases, Option, none, some, inl, inr, take, ◌==◌,
  &&-true, ==_iff,
}
use mathlib.Core.Bool.{false≢true}
use simlib.StringView.Text.{find, find_loop}
use simlib.Package.Order.{starts}

abbrev pub cons_dir : ℕ → Bytes → Bytes
cons_dir c [] = []
cons_dir c (d ∷ t) = c ∷ d ∷ t

-- The part up to the first slash, with it; nothing where there is no slash.
abbrev pub top_dir : Bytes → Bytes
top_dir [] = []
top_dir (c ∷ s) = if c == b'/' then c ∷ [] else cons_dir c (top_dir s)

abbrev pub DirAt : Bytes → ℕ → Option ℕ → Type 0
DirAt s i none = top_dir s ≡ []
DirAt s i (some pos) = (i ≤ pos) × (top_dir s ≡ take ((pos - i) + 1) s) × (top_dir s ≢ [])

pub []-cons {ℓ} : {A : Type ℓ} {c : A} {s : List A} → c ∷ s ≢ []
[]-cons e = cc

module _ (c : ℕ) where
  cons_dir-none : (t : Bytes) → cons_dir c t ≡ [] → t ≡ []
  cons_dir-none [] e = refl
  cons_dir-none (d ∷ t) e = cc

  cons_dir-some : (t : Bytes) → t ≢ [] → cons_dir c t ≡ c ∷ t
  cons_dir-some [] ne = absurd (ne refl)
  cons_dir-some (d ∷ t) ne = refl

module _ (c : ℕ) (s : Bytes) where
  top_dir_slash : (c == b'/') ≡ true → top_dir (c ∷ s) ≡ c ∷ []
  top_dir_slash e = ap (λ b. if b then c ∷ [] else cons_dir c (top_dir s)) e

  top_dir_other : (c == b'/') ≡ false → top_dir (c ∷ s) ≡ cons_dir c (top_dir s)
  top_dir_other e = ap (λ b. if b then c ∷ [] else cons_dir c (top_dir s)) e

  top_dir_inside :
      (c == b'/') ≡ false
      → top_dir (c ∷ s) ≢ []
      → (top_dir s ≢ []) × (top_dir (c ∷ s) ≡ c ∷ top_dir s)
  top_dir_inside other ne =
      let e = top_dir_other other in
      let ne' : top_dir s ≢ [] = λ q. ne (e ∙ ap (cons_dir c) q) in
      (ne', e ∙ cons_dir-some c (top_dir s) ne')

  DirAt-next : (c == b'/') ≡ false → (i : ℕ) (o : Option ℕ) → DirAt s (i + 1) o → DirAt (c ∷ s) i o
  DirAt-next other i none d = top_dir_other other ∙ ap (cons_dir c) d
  DirAt-next other i (some pos) (le, e, ne) =
      let more : (pos - i) + 1 ≡ suc ((pos - (i + 1)) + 1) = omega arith in
      (
        omega arith,
        top_dir_other other ∙ cons_dir-some c (top_dir s) ne ∙ rw more (ap (◌∷◌ c) e),
        λ q. ne (cons_dir-none c (top_dir s) (sym (top_dir_other other) ∙ q)),
      )

find_loop-DirAt : (s : Bytes) (i : ℕ) → DirAt s i (find_loop b'/' s i)
unfolding find_loop
find_loop-DirAt [] i = refl
find_loop-DirAt (c ∷ s) i =
    let rest = find_loop-DirAt s (i + 1) in
    elim (Bool-cases (c == b'/')) [
      | inl slash ↦
          let one : (i - i) + 1 ≡ suc zero = omega arith in
          let here = top_dir_slash c s slash in
          rw (slash, find_loop) (omega arith, rw one here, λ q. []-cons (sym here ∙ q))
      | inr other ↦ rw (other, find_loop) (DirAt-next c s other i _ rest)
    ]

-- The search for the slash, and the directory that it gives.
pub find-top_dir :
    (s : Bytes)
    → ((find s b'/' 0 ≡ none) × (top_dir s ≡ []))
      ⊎ ((pos : ℕ) × (find s b'/' 0 ≡ some pos) × (take (pos + 1) s ≡ top_dir s) × (top_dir s ≢ []))
unfolding find
find-top_dir s = elim (Option-cases (find_loop b'/' s 0)) [
  | inl e ↦ inl (e, rw e at (find_loop-DirAt s 0))
  | inr (pos, e) ↦
      let at_pos : DirAt s 0 (some pos) = rw e at (find_loop-DirAt s 0) in
      let start : (pos - 0) + 1 ≡ pos + 1 = omega arith in
      inr (pos, e, sym (rw start at at_pos.1), at_pos.2)
]

-- Texts that start with the same directory have it as their own.
pub top_dir-starts :
    (s t : Bytes) → top_dir s ≢ [] → starts (top_dir s) t ≡ true → top_dir t ≡ top_dir s
top_dir-starts [] t ne h = absurd (ne refl)
top_dir-starts (c ∷ s) [] ne h = elim (Bool-cases (c == b'/')) [
  | inl slash ↦ absurd (false≢true (rw (top_dir_slash c s slash) at h))
  | inr other ↦ absurd (false≢true (rw ((top_dir_inside c s other ne).1) at h))
]
top_dir-starts (c ∷ s) (d ∷ t) ne h =
    let ih = top_dir-starts s t in
    elim (Bool-cases (c == b'/')) [
      | inl slash ↦
          let e = top_dir_slash c s slash in
          let (same, _) = &&-true (c == d) true (rw e at h) in
          let eq = (==_iff c d).0 same in
          top_dir_slash d t (rw eq at slash) ∙ ap (λ x. x ∷ []) (sym eq) ∙ sym e
      | inr other ↦
          let (some_dir, e) = top_dir_inside c s other ne in
          let (same, rest) = &&-true (c == d) (starts (top_dir s) t) (rw e at h) in
          let eq = (==_iff c d).0 same in
          let below : cons_dir d (top_dir t) ≡ c ∷ top_dir s =
            ap (cons_dir d) (ih some_dir rest)
            ∙ cons_dir-some d (top_dir s) some_dir
            ∙ ap (λ x. x ∷ top_dir s) (sym eq) in
          top_dir_other d t (rw eq at other) ∙ below ∙ sym e
    ]

starts-cons_dir : (c : ℕ) (p s : Bytes) → starts p s ≡ true → starts (cons_dir c p) (c ∷ s) ≡ true
starts-cons_dir c [] s h = refl
starts-cons_dir c (d ∷ p) s h = rw ((==_iff c c).1 refl, h) refl

pub starts-top_dir : (s : Bytes) → starts (top_dir s) s ≡ true
starts-top_dir [] = refl
starts-top_dir (c ∷ s) =
    let ih = starts-cons_dir c (top_dir s) s (starts-top_dir s) in
    elim (Bool-cases (c == b'/')) [
      | inl slash ↦ rw (top_dir_slash c s slash, (==_iff c c).1 refl) refl
      | inr other ↦ rw (top_dir_other c s other) ih
    ]
