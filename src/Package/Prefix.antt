-- ===== src/Package/Prefix.antt =====
-- The prefix queries of Package/Set.antt on elements in order.
use simlib.Common.{
  ◌≡◌, ◌≢◌, refl, Bool, false, not, List, [], ◌∷◌, ◌++◌, Bytes, arith, sym, ap, All, Bool-cases,
  inl, inr,
}
use Prim.Native.Nat.{Ordering}
use simlib.StringView.Text.{str_lt}
use simlib.StringView.Order.{lex}
use simlib.StringTraits.{has_prefix}
use simlib.Package.Set.{lower_bound, below, erase_while, take_while}
use simlib.Package.Entries.{Above, IsOrdered, keep}
use simlib.Package.Order.{str_lt-lex, lex_facts, has_prefix-starts, starts-lex, starts-later}

module _ {A : Type 0} (key : A → Bytes) where
  -- The elements from `p` on: those with the prefix come first.
  module _ (p : Bytes) where
    abbrev has_p : A → Bool
    has_p x = has_prefix (key x) p

    abbrev From : List A → Type 0
    From = All (λ y. lex (key y) p ≢ Ordering.lt)

    From-Above :
        (x : A) (xs : List A) → lex (key x) p ≢ Ordering.lt → Above key (key x) xs → From xs
    From-Above x [] h a = tt
    From-Above x (y ∷ ys) h a =
        (λ l. h ((lex_facts (key x) (key y) p).2 a.0 l), From-Above x ys h a.1)

    none_later :
        (x : A) (xs : List A)
        → lex (key x) p ≢ Ordering.lt
        → has_p x ≡ false
        → Above key (key x) xs
        → (keep (λ y. not (has_p y)) xs ≡ xs) × (keep has_p xs ≡ [])
    none_later x [] h e a = (refl, refl)
    none_later x (y ∷ ys) h e a =
        let ih = none_later x ys h e a.1 in
        let no : has_p y ≡ false = ground (
          arith,
          has_prefix-starts (key x) p,
          has_prefix-starts (key y) p,
          starts-later p (key x) (key y) h a.0,
        ) in
        rw no (ap (◌∷◌ y) ih.0, ih.1)

    From-keep :
        (xs : List A)
        → From xs
        → IsOrdered key xs
        → (erase_while has_p xs ≡ keep (λ y. not (has_p y)) xs)
          × (take_while has_p xs ≡ keep has_p xs)
    unfolding erase_while take_while
    From-keep [] f o = (refl, refl)
    From-keep (x ∷ xs) f o = elim (Bool-cases (has_p x)) [
      | inl e ↦
          let ih = From-keep xs f.1 o.1 in rw (e, erase_while, take_while) (ih.0, ap (◌∷◌ x) ih.1)
      | inr e ↦
          let (rest, none_of) = none_later x xs f.0 e o.0 in
          rw (e, erase_while, take_while) (ap (◌∷◌ x) (sym rest), sym none_of)
    ]

    -- Erasing from the lower bound on, and visiting from there on, meet exactly the elements with
    -- the prefix.
    pub prefix-keep :
        (xs : List A)
        → IsOrdered key xs
        → (below key p xs ++ erase_while has_p (lower_bound key p xs)
            ≡ keep (λ y. not (has_p y)) xs)
          × (take_while has_p (lower_bound key p xs) ≡ keep has_p xs)
    unfolding below lower_bound erase_while take_while
    prefix-keep [] o = (refl, refl)
    prefix-keep (x ∷ xs) o = elim (Bool-cases (str_lt (key x) p)) [
      | inl lt ↦
          let ih = prefix-keep xs o.1 in
          let no : has_p x ≡ false =
            ground
              (arith, has_prefix-starts (key x) p, starts-lex p (key x), str_lt-lex (key x) p) in
          rw (lt, below, lower_bound, no) (ap (◌∷◌ x) ih.0, ih.1)
      | inr ge ↦
          let ne : lex (key x) p ≢ Ordering.lt = λ l. ground (arith, str_lt-lex (key x) p) in
          rw (ge, below, lower_bound) (From-keep (x ∷ xs) (ne, From-Above x xs ne o.0) o)
    ]
