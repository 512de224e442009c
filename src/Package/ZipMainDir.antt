-- ===== src/Package/ZipMainDir.antt =====
-- zip_package_main_dir of src/sim/problem_package.cc, which reads the entries in the order of the
-- archive, and main_dir of the loaded contents.
use simlib.Common.{
  ◌≡◌, ◌≢◌, refl, Bool, true, false, ◌||◌, List, [], ◌∷◌, Bytes, arith, sym, ap, ◌∙◌, ◌↔◌, ◌⊎◌, All,
  Bool-cases, some, inl, inr, length, map, ◌==◌,
}
use mathlib.Core.Bool.{false≢true}
use simlib.StringView.Text.{str_eq}
use simlib.StringView.Order.{str_eq_iff}
use simlib.StringTraits.{has_prefix}
use simlib.Package.Entries.{has, find-has}
use simlib.Package.Order.{has_prefix-starts}
use simlib.Package.{
  PackageContents, empty_contents, to_str, exists, main_dir, is_unsafe, load_from_zip,
  main_dir_loop, zip_package_main_dir,
}
use simlib.Package.Spans.{IsValid}
use simlib.Package.TopDir.{[]-cons, top_dir, find-top_dir, starts-top_dir, top_dir-starts}
use simlib.Package.Zip.{empty-IsValid, member, load_from_zip-exists}
use simlib.Package.MainDir.{names, AllIn, main_dir-AllIn}

-- `d` is the directory of all of the texts, of which there is one at least.
abbrev pub IsMain : Bytes → (Bytes → Bool) → Type 0
IsMain d f = ((e : Bytes) × (f e ≡ true)) × ((e : Bytes) → f e ≡ true → top_dir e ≡ d)

pub str_eq_refl : (s : Bytes) → str_eq s s ≡ true
str_eq_refl s = (str_eq_iff s s).1 refl

pub AllIn-member :
    (d : Bytes) (xs : List Bytes) → AllIn d xs → (e : Bytes) → member xs e ≡ true → top_dir e ≡ d
AllIn-member d [] a e h = cc
AllIn-member d (x ∷ xs) a e h = elim (Bool-cases (str_eq x e)) [
  | inl same ↦ rw ((str_eq_iff x e).0 same) at a.0
  | inr other ↦ AllIn-member d xs a.1 e (rw other at h)
]

member-AllIn :
    (d : Bytes) (xs : List Bytes) → ((e : Bytes) → member xs e ≡ true → top_dir e ≡ d) → AllIn d xs
member-AllIn d [] h = tt
member-AllIn d (x ∷ xs) h =
    let here : member (x ∷ xs) x ≡ true = rw (str_eq_refl x) refl in
    (h x here, member-AllIn d xs (λ e m. h e (ground arith)))

AllIn-IsMain : (d : Bytes) (xs : List Bytes) → (((xs ≢ []) × AllIn d xs) ↔ IsMain d (member xs))
AllIn-IsMain d [] =
    ((λ (ne, _). absurd (ne refl)), λ (some_entry, _). absurd (false≢true some_entry.1))
AllIn-IsMain d (x ∷ xs) = (
  (λ (_, a). ((x, rw (str_eq_refl x) refl), AllIn-member d (x ∷ xs) a)),
  (λ (_, h). ((λ q. []-cons q), member-AllIn d (x ∷ xs) h)),
)

length-nonempty : (s : Bytes) → s ≢ [] → (length s == 0) ≡ false
length-nonempty [] ne = absurd (ne refl)
length-nonempty (c ∷ s) ne = ground arith

-- The result is the directory of all the texts, where they have one.
abbrev Common : Bytes → List Bytes → Type 0
Common d xs = (c : Bytes) → c ≢ [] → (d ≡ c) ↔ ((xs ≢ []) × AllIn c xs)

abbrev AllSafe : List Bytes → Type 0
AllSafe = All (λ t. is_unsafe t ≡ false)

main_dir_loop-AllIn :
    (xs : List Bytes) (s : Bytes)
    → AllSafe xs
    → top_dir s ≢ []
    → (d : Bytes) × (main_dir_loop xs (top_dir s) ≡ some d)
      × ((c : Bytes) → c ≢ [] → (d ≡ c) ↔ ((top_dir s ≡ c) × AllIn c xs))
unfolding main_dir_loop
main_dir_loop-AllIn [] s safe ne = (top_dir s, refl, λ c nc. ((λ e. (e, tt)), λ (e, _). e))
main_dir_loop-AllIn (t ∷ ts) s safe ne =
    let full = length-nonempty (top_dir s) ne in
    let (d, e, iff) = main_dir_loop-AllIn ts s safe.1 ne in
    elim (Bool-cases (has_prefix t (top_dir s))) [
      | inl inside ↦
          let same = top_dir-starts s t ne (sym (has_prefix-starts t (top_dir s)) ∙ inside) in
          (
            d,
            rw (safe.0, full, inside, main_dir_loop) e,
            λ c nc. (
              (λ q. let (here, rest) = (iff c nc).0 q in (here, (same ∙ here, rest))),
              λ (here, (_, rest)). (iff c nc).1 (here, rest),
            ),
          )
      | inr outside ↦ (
        [],
        rw (safe.0, full, outside, main_dir_loop) refl,
        λ c nc. (
          (λ q. absurd (nc (sym q))),
          λ (here, (there, rest)).
              let inside : has_prefix t (top_dir s) ≡ true =
                has_prefix-starts t (top_dir s) ∙ rw (there ∙ sym here) at (starts-top_dir t) in
              absurd (false≢true (sym outside ∙ inside)),
        ),
      )
    ]

zip_package_main_dir-Common :
    (xs : List Bytes) → AllSafe xs → (d : Bytes) × (zip_package_main_dir xs ≡ some d) × Common d xs
unfolding zip_package_main_dir main_dir_loop
zip_package_main_dir-Common [] safe =
    ([], refl, λ c nc. ((λ e. absurd (nc (sym e))), λ (ne, _). absurd (ne refl)))
zip_package_main_dir-Common (t ∷ ts) safe = elim (find-top_dir t) [
  | inl (missing, none_of) ↦ (
    [],
    rw (safe.0, missing, zip_package_main_dir, main_dir_loop) refl,
    λ c nc. ((λ e. absurd (nc (sym e))), λ (_, (here, _)). absurd (nc (sym here ∙ none_of))),
  )
  | inr (pos, found, dir_of, ne) ↦
      let (d, e, iff) = main_dir_loop-AllIn ts t safe.1 ne in
      (
        d,
        rw (safe.0, found, dir_of, zip_package_main_dir, main_dir_loop) e,
        λ c nc. ((λ q. ((λ w. []-cons w), (iff c nc).0 q)), λ (_, all). (iff c nc).1 all),
      )
]

has-map :
    {A : Type 0} (key : A → Bytes) (xs : List A) (e : Bytes) → member (map key xs) e ≡ has key xs e
has-map key [] e = refl
has-map key (x ∷ xs) e = ap (λ b. str_eq (key x) e || b) (has-map key xs e)

IsMain-transport :
    (d : Bytes) (f g : Bytes → Bool) → ((e : Bytes) → f e ≡ g e) → IsMain d f → IsMain d g
IsMain-transport d f g same ((e, h), all) = ((e, sym (same e) ∙ h), λ u k. all u (same u ∙ k))

pub empty_cases : (s : Bytes) → (s ≡ []) ⊎ (s ≢ [])
empty_cases [] = inl refl
empty_cases (c ∷ s) = inr (λ q. []-cons q)

-- Two directories that answer alike for every name are the same.
same_dir : (d m : Bytes) → ((c : Bytes) → c ≢ [] → (d ≡ c) ↔ (m ≡ c)) → d ≡ m
same_dir d m iff = elim (empty_cases d) [
  | inr ne ↦ sym ((iff d ne).0 refl)
  | inl none_of ↦ elim (empty_cases m) [
    | inr ne ↦ (iff m ne).1 refl
    | inl none_of' ↦ none_of ∙ sym none_of'
  ]
]

exists-empty : (e : Bytes) → exists empty_contents e ≡ false
unfolding exists
exists-empty e = refl

pub exists-names :
    (pc : PackageContents) → IsValid pc → (e : Bytes) → exists pc e ≡ member (names pc) e
unfolding exists
exists-names pc valid e =
    find-has (to_str pc.buff) e pc.entries valid.ordered
    ∙ sym (has-map (to_str pc.buff) pc.entries e)

-- Where an archive can be loaded, zip_package_main_dir reads the same directory off its entries, in
-- the order of the archive, as main_dir reads off the loaded contents.
pub zip_package_main_dir-main_dir :
    (xs : List Bytes) (pc : PackageContents)
    → load_from_zip xs empty_contents ≡ some pc
    → zip_package_main_dir xs ≡ some (main_dir pc)
zip_package_main_dir-main_dir xs pc loaded =
    let (valid, said, safe) = load_from_zip-exists xs empty_contents pc empty-IsValid loaded in
    let (d, e, common) = zip_package_main_dir-Common xs safe in
    let same : (u : Bytes) → member (names pc) u ≡ member xs u =
      λ u. ground (arith, exists-names pc valid u, said u, exists-empty u) in
    let one_dir : d ≡ main_dir pc = same_dir d (main_dir pc) (λ c nc.
      let main = main_dir-AllIn pc c valid nc in
      let from_zip = AllIn-IsMain c xs in
      let from_contents = AllIn-IsMain c (names pc) in
      (
        λ q. main.1 (
            from_contents.1 (
              IsMain-transport c (member xs) (member (names pc)) (λ u. sym (same u))
                (from_zip.0 ((common c nc).0 q)))),
        λ q. (common c nc).1 (
            from_zip.1 (
              IsMain-transport c (member (names pc)) (member xs) same
                (from_contents.0 (main.0 q)))),
      )) in
    e ∙ ap some one_dir
