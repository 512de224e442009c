-- ===== src/Package/MainDir.antt =====
-- main_dir of problem_package.hh: the directory that all entries lie in.
use simlib.Common.{
  ◌≡◌, ◌≢◌, refl, true, List, [], ◌∷◌, Bytes, sym, subst, ◌∙◌, ◌↔◌, All, if◌then◌else◌, Bool-cases,
  inl, inr, map,
}
use Prim.Native.Nat.{Ordering}
use simlib.StringView.Order.{lex}
use simlib.Package.TopDir.{[]-cons, top_dir, find-top_dir, top_dir-starts, starts-top_dir}
use simlib.Package.Set.{last_of}
use simlib.Package.Entries.{IsOrdered}
use simlib.Package.Order.{has_prefix-starts, starts, starts-lex, starts-later, lex_facts}
use simlib.Package.{Span, PackageContents, to_str, main_dir}
use simlib.Package.Spans.{IsValid}

module _ (key : Span → Bytes) where
  All_last : (P : Span → Type 0) (x : Span) (xs : List Span) → All P (x ∷ xs) → P (last_of x xs)
  All_last P x [] a = a.0
  All_last P x (y ∷ ys) a = All_last P y ys a.1

  -- In order, what the first is not less than and the last starts with, all start with.
  between :
      (p : Bytes) (x : Span) (xs : List Span)
      → lex (key x) p ≢ Ordering.lt
      → IsOrdered key (x ∷ xs)
      → starts p (key (last_of x xs)) ≡ true
      → All (λ y. starts p (key y) ≡ true) (x ∷ xs)
  between p x [] h o e = (e, tt)
  between p x (y ∷ ys) h o e =
      let h' : lex (key y) p ≢ Ordering.lt = λ l. h ((lex_facts (key x) (key y) p).2 o.0.0 l) in
      let ih = between p y ys h' o.1 e in (starts-later p (key x) (key y) h o.0.0 ih.0, ih)

-- The entries' texts, in order.
abbrev pub names : PackageContents → List Bytes
names pc = map (to_str pc.buff) pc.entries

abbrev pub AllIn : Bytes → List Bytes → Type 0
AllIn d = All (λ t. top_dir t ≡ d)

module _ (buff : Bytes) where
  abbrev key_in : Span → Bytes
  key_in = to_str buff

  AllIn-map :
      (d : Bytes) (xs : List Span) → All (λ x. top_dir (key_in x) ≡ d) xs → AllIn d (map key_in xs)
  AllIn-map d [] a = tt
  AllIn-map d (x ∷ xs) a = (a.0, AllIn-map d xs a.1)

  AllIn-unmap :
      (d : Bytes) (xs : List Span) → AllIn d (map key_in xs) → All (λ x. top_dir (key_in x) ≡ d) xs
  AllIn-unmap d [] a = tt
  AllIn-unmap d (x ∷ xs) a = (a.0, AllIn-unmap d xs a.1)

  starts→AllIn :
      (s : Bytes) (xs : List Span)
      → top_dir s ≢ []
      → All (λ y. starts (top_dir s) (key_in y) ≡ true) xs
      → AllIn (top_dir s) (map key_in xs)
  starts→AllIn s [] ne a = tt
  starts→AllIn s (x ∷ xs) ne a = (top_dir-starts s (key_in x) ne a.0, starts→AllIn s xs ne a.1)

  module _ (x : Span) (xs : List Span) where
    abbrev shown : PackageContents
    shown = record { buff = buff; entries = x ∷ xs }

    abbrev candidate : Bytes
    candidate = top_dir (key_in x)

    main_dir-none : candidate ≡ [] → main_dir shown ≡ []
    unfolding main_dir
    main_dir-none e = elim (find-top_dir (key_in x)) [
      | inl (missing, _) ↦ rw (missing, main_dir) refl
      | inr (_, _, _, ne) ↦ absurd (ne e)
    ]

    main_dir-some :
        candidate ≢ []
        → main_dir shown ≡ (if starts candidate (key_in (last_of x xs)) then candidate else [])
    unfolding main_dir
    main_dir-some ne = elim (find-top_dir (key_in x)) [
      | inl (_, e) ↦ absurd (ne e)
      | inr (pos, found, shown_dir, _) ↦
          rw (found, main_dir, shown_dir, has_prefix-starts (key_in (last_of x xs)) candidate) refl
    ]

    main_dir-onto :
        (d : Bytes)
        → d ≢ []
        → IsOrdered key_in (x ∷ xs)
        → main_dir shown ≡ d
        → AllIn d (map key_in (x ∷ xs))
    main_dir-onto d ne o e = elim (find-top_dir (key_in x)) [
      | inl (_, none_of) ↦ absurd (ne (sym e ∙ main_dir-none none_of))
      | inr (_, _, _, some_dir) ↦
          let e' = main_dir-some some_dir in
          elim (Bool-cases (starts candidate (key_in (last_of x xs)))) [
            | inl last ↦
                let all =
                  between key_in candidate x xs
                    (starts-lex candidate (key_in x) (starts-top_dir (key_in x))) o last in
                let same : candidate ≡ d = sym (rw last at e') ∙ e in
                subst (λ z. AllIn z (map key_in (x ∷ xs))) same
                  (starts→AllIn (key_in x) (x ∷ xs) some_dir all)
            | inr other ↦ absurd (ne (sym e ∙ (rw other at e')))
          ]
    ]

    main_dir-from : (d : Bytes) → d ≢ [] → AllIn d (map key_in (x ∷ xs)) → main_dir shown ≡ d
    main_dir-from d ne a =
        let parts = AllIn-unmap d (x ∷ xs) a in
        let some_dir : candidate ≢ [] = λ q. ne (sym parts.0 ∙ q) in
        let last : top_dir (key_in (last_of x xs)) ≡ d =
          All_last key_in (λ y. top_dir (key_in y) ≡ d) x xs parts in
        let inside : starts candidate (key_in (last_of x xs)) ≡ true =
          rw (sym (parts.0 ∙ sym last)) at (starts-top_dir (key_in (last_of x xs))) in
        (rw inside at (main_dir-some some_dir)) ∙ parts.0

entries-AllIn :
    (buff d : Bytes) (xs : List Span)
    → d ≢ []
    → IsOrdered (to_str buff) xs
    → (main_dir (record { buff = buff; entries = xs }) ≡ d)
      ↔ ((map (to_str buff) xs ≢ []) × AllIn d (map (to_str buff) xs))
unfolding main_dir
entries-AllIn buff d [] ne o =
    (λ e. absurd (ne (sym e)), λ (some_entry, _). absurd (some_entry refl))
entries-AllIn buff d (x ∷ xs) ne o = (
  λ e. ((λ q. []-cons q), main_dir-onto buff x xs d ne o e),
  λ (_, a). main_dir-from buff x xs d ne a,
)

-- main_dir, which looks at the first and the last entry only, returns a directory exactly where
-- there are entries and every one of them lies in that directory.
pub main_dir-AllIn :
    (pc : PackageContents) (d : Bytes)
    → IsValid pc
    → d ≢ []
    → (main_dir pc ≡ d) ↔ ((names pc ≢ []) × AllIn d (names pc))
main_dir-AllIn pc d valid ne = entries-AllIn pc.buff d pc.entries ne valid.ordered
