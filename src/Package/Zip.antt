-- ===== src/Package/Zip.antt =====
-- load_from_zip and zip_package_main_dir of src/sim/problem_package.cc: two readings of the entries of
-- one archive.
use Prim.Native.Nat.add
use mathlib.Core.Bool.{false≢true}
use simlib.Common.{
  ℕ, zero, suc, ◌≤◌, ◌<◌, ◌∙◌, ◌⊎◌, ◌↔◌, length, ◌≡◌, refl, Bool, true, false, ◌||◌, List, [], ◌∷◌,
  ◌++◌, Bytes, arith, codes, sym, ap, subst, All, Bool-cases, Option-cases, none, some, inl, inr,
}
use simlib.StringView.Kmp.{find_str, at}
use simlib.StringTraits.{has_prefix}
use simlib.StringView.Kmp.Find.{find_str-none, find_str-IsFirst, Occurs}
use simlib.StringTraits.Laws.{has_prefix-append}
use simlib.Package.Entries.{has}
use simlib.Package.{empty_contents, PackageContents, add_entry, exists, is_unsafe, load_from_zip}
use simlib.Package.Spans.{IsValid}
use simlib.Package.Contents.{operations-exists}

abbrev pub member : List Bytes → Bytes → Bool
member xs e = has (λ t. t) xs e

pub empty-IsValid : IsValid empty_contents
empty-IsValid = record { inside = tt; ordered = tt }

-- What is loaded: valid contents, with exactly the entries of the archive besides those from before.
pub load_from_zip-exists :
    (xs : List Bytes) (pc pc' : PackageContents)
    → IsValid pc
    → load_from_zip xs pc ≡ some pc'
    → IsValid pc'
      × ((e : Bytes) → exists pc' e ≡ (member xs e || exists pc e))
      × All (λ t. is_unsafe t ≡ false) xs
unfolding load_from_zip
load_from_zip-exists [] pc pc' valid e =
    let same : pc ≡ pc' = cc in (subst IsValid same valid, λ t. ap (λ p. exists p t) (sym same), tt)
load_from_zip-exists (t ∷ xs) pc pc' valid e = elim (Bool-cases (is_unsafe t)) [
  | inl bad ↦ let wrong : none ≡ some pc' = rw (bad, load_from_zip) at e in cc
  | inr good ↦
      let added = (operations-exists pc valid t).0 in
      let rest : load_from_zip xs (add_entry pc t) ≡ some pc' = rw (good, load_from_zip) at e in
      let (valid', said, safe) = load_from_zip-exists xs (add_entry pc t) pc' added.0 rest in
      (valid', λ u. ground (arith, said u, added.1 u), (good, safe))
]

-- A path that starts with "../" or has "/../" inside.
abbrev pub GoesUp : Bytes → Type 0
GoesUp epath =
    ((rest : Bytes) × (epath ≡ codes "../" ++ rest))
    ⊎ ((front : Bytes) × (rest : Bytes) × (epath ≡ front ++ (codes "/../" ++ rest)))

Occurs-front :
    (s t : Bytes)
    → length t ≤ length s
    → ((j : ℕ) → j < length t → at s j ≡ at t j)
    → (rest : Bytes) × (s ≡ t ++ rest)
Occurs-front s [] le same = (s, refl)
Occurs-front [] (c ∷ t) le same = absurd (omega arith)
Occurs-front (d ∷ s) (c ∷ t) le same =
    let first : d ≡ c = same 0 (omega arith) in
    let (rest, e) = Occurs-front s t (omega arith) (λ j h. same (suc j) (omega arith)) in
    (rest, ap (λ u. d ∷ u) e ∙ ap (λ h. h ∷ (t ++ rest)) first)

-- A string that stands in a text splits it.
Occurs-split :
    (s t : Bytes) (i : ℕ)
    → Occurs s t i
    → (front : Bytes) × (rest : Bytes) × (s ≡ front ++ (t ++ rest))
Occurs-split s t zero (le, same) =
    let (rest, e) =
      Occurs-front s t (omega arith) (λ j h. ap (at s) (sym (add.zero j)) ∙ same j h) in
    ([], rest, e)
Occurs-split [] t (suc i) (le, same) = absurd (omega arith)
Occurs-split (c ∷ s) t (suc i) (le, same) =
    let (front, rest, e) =
      Occurs-split s t i (omega arith, λ j h. ap (at (c ∷ s)) (sym (add.suc i j)) ∙ same j h) in
    (c ∷ front, rest, ap (λ u. c ∷ u) e)

is_unsafe-inner : (front rest : Bytes) → is_unsafe (front ++ (codes "/../" ++ rest)) ≡ true
unfolding is_unsafe
is_unsafe-inner front rest =
    elim (Option-cases (find_str (front ++ (codes "/../" ++ rest)) (codes "/../"))) [
      | inl nowhere ↦ absurd (find_str-none front (codes "/../") rest nowhere)
      | inr (i, found) ↦ rw found (ground arith)
    ]

is_unsafe-GoesUp : (epath : Bytes) → (is_unsafe epath ≡ true) ↔ GoesUp epath
unfolding is_unsafe
is_unsafe-GoesUp epath = (to, from)
  where
    to : is_unsafe epath ≡ true → GoesUp epath
    to e = elim (Bool-cases (has_prefix epath (codes "../"))) [
      | inl leads ↦ inl ((has_prefix-append epath (codes "../")).0.0 leads)
      | inr others ↦ elim (Option-cases (find_str epath (codes "/../"))) [
        | inl nowhere ↦ absurd (false≢true (rw (others, nowhere, is_unsafe) at e))
        | inr (i, found) ↦
            let first = rw found at (find_str-IsFirst epath (codes "/../")) in
            inr (Occurs-split epath (codes "/../") i first.0)
      ]
    ]

    from : GoesUp epath → is_unsafe epath ≡ true
    from (inl (rest, e)) =
        let leads = (has_prefix-append epath (codes "../")).0.1 (rest, e) in rw leads refl
    from (inr (front, rest, e)) =
        subst (λ u. is_unsafe u ≡ true) (sym e) (is_unsafe-inner front rest)

abbrev pub AnyGoesUp : List Bytes → Type 0
AnyGoesUp [] = ⊥
AnyGoesUp (epath ∷ names) = GoesUp epath ⊎ AnyGoesUp names

-- Loading an archive is refused exactly if some entry's path starts with "../" or has "/../" inside.
pub load_from_zip-AnyGoesUp :
    (names : List Bytes) (pc : PackageContents) → (load_from_zip names pc ≡ none) ↔ AnyGoesUp names
unfolding load_from_zip
load_from_zip-AnyGoesUp [] pc = (λ e. cc, λ h. absurd h)
load_from_zip-AnyGoesUp (epath ∷ names) pc =
    let rest = load_from_zip-AnyGoesUp names (add_entry pc epath) in
    let this = is_unsafe-GoesUp epath in
    elim (Bool-cases (is_unsafe epath)) [
      | inl bad ↦ (λ e. inl (this.0 bad), λ h. rw (bad, load_from_zip) refl)
      | inr good ↦ (
        λ e. inr (rest.0 (rw (good, load_from_zip) at e)),
        λ h. elim h [
          | inl up ↦ absurd (false≢true (sym good ∙ this.1 up))
          | inr later ↦ rw (good, load_from_zip) (rest.1 later)
        ],
      )
    ]
