-- ===== src/Package/Order.antt =====
-- The order of std::set's texts, and where the texts with a prefix stand in it.
use simlib.Common.{
  ◌≡◌, ◌≢◌, refl, Bool, true, false, ◌&&◌, [], ◌∷◌, ◌++◌, Bytes, arith, ◌==◌, sym, ◌↔◌, &&-true,
  ==_iff, bool_ext,
}
use mathlib.Core.Path.{ap₂}
use Prim.Native.Nat.{Ordering}
use simlib.StringView.Text.{str_lt, is_lt}
use simlib.StringView.Order.{lex, flip, compare_views-order}
use simlib.StringTraits.{has_prefix}
use simlib.StringTraits.Laws.{has_prefix-append}

pub str_lt-lex : (s t : Bytes) → str_lt s t ≡ is_lt (lex s t)
unfolding str_lt
str_lt-lex s t = rw ((compare_views-order s t []).0) refl

pub lex_facts :
    (s t u : Bytes)
    → ((lex s t ≡ Ordering.eq) ↔ (s ≡ t))
      × (lex t s ≡ flip (lex s t))
      × (lex s t ≡ Ordering.lt → lex t u ≡ Ordering.lt → lex s u ≡ Ordering.lt)
lex_facts s t u =
    let o = compare_views-order s t u in
    let trans : str_lt s t ≡ true → str_lt t u ≡ true → str_lt s u ≡ true = o.3 in
    let e = o.0 in
    let e' = (compare_views-order t s []).0 in
    (
      rw e at o.1,
      rw (e, e') at o.2,
      λ p q. ground (arith, trans, str_lt-lex s t, str_lt-lex t u, str_lt-lex s u),
    )

-- The prefix, character by character.
abbrev pub starts : Bytes → Bytes → Bool
starts [] s = true
starts (c ∷ p) [] = false
starts (c ∷ p) (d ∷ s) = (c == d) && starts p s

starts-append : (p s : Bytes) → (starts p s ≡ true) ↔ ((rest : Bytes) × (s ≡ p ++ rest))
starts-append [] s = (λ _. (s, refl), λ _. refl)
starts-append (c ∷ p) [] = (λ e. cc, λ (rest, e). cc)
starts-append (c ∷ p) (d ∷ s) =
    let ih = starts-append p s in
    (
      λ e.
          let (same, rest_starts) = &&-true (c == d) (starts p s) e in
          let (rest, q) = ih.0 rest_starts in (rest, ap₂ ◌∷◌ (sym ((==_iff c d).0 same)) q),
      λ (rest, q).
          let same : c ≡ d = cc in
          let tails : s ≡ p ++ rest = cc in rw ((==_iff c d).1 same, ih.1 (rest, tails)) refl,
    )

pub has_prefix-starts : (s p : Bytes) → has_prefix s p ≡ starts p s
has_prefix-starts s p =
    let h = (has_prefix-append s p).0 in
    let k = starts-append p s in bool_ext _ _ (λ e. k.1 (h.0 e)) (λ e. h.1 (k.0 e))

-- What starts with `p` is not less than `p`.
pub starts-lex : (p s : Bytes) → starts p s ≡ true → lex s p ≢ Ordering.lt
starts-lex [] [] h e = cc
starts-lex [] (d ∷ s) h e = cc
starts-lex (c ∷ p) [] h e = cc
starts-lex (c ∷ p) (d ∷ s) h e = ground (arith, starts-lex p s)

-- From `p` on, the texts that start with `p` come before all others.
pub starts-later :
    (p s t : Bytes)
    → lex s p ≢ Ordering.lt
    → lex s t ≡ Ordering.lt
    → starts p t ≡ true
    → starts p s ≡ true
starts-later [] s t h l e = refl
starts-later (c ∷ p) [] t h l e = absurd (h refl)
starts-later (c ∷ p) (d ∷ s) [] h l e = cc
starts-later (c ∷ p) (d ∷ s) (f ∷ t) h l e = ground (arith, starts-later p s t)
