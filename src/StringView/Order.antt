-- ===== src/StringView/Order.antt =====
-- The comparison of views against the order of their bytes.
use simlib.Common.{suc, ◌≡◌, refl, [], ◌∷◌, Bytes, arith, length, true, ◌↔◌}
use Prim.Native.Nat.{min, compare, Ordering}
use simlib.StringView.Text.{char_compare, compare_views, str_eq, str_lt}

-- The lexicographic order: a proper prefix comes first.
abbrev pub lex : Bytes → Bytes → Ordering
lex [] [] = Ordering.eq
lex [] (b ∷ t) = Ordering.lt
lex (a ∷ s) [] = Ordering.gt
lex (a ∷ s) (b ∷ t) = elim (compare a b) [ Ordering.eq ↦ lex s t | o ↦ o ]

compare_views-lex : (s t : Bytes) → compare_views s t ≡ lex s t
unfolding compare_views char_compare
compare_views-lex [] [] = refl
compare_views-lex [] (b ∷ t) = ground arith
compare_views-lex (a ∷ s) [] = ground arith
compare_views-lex (a ∷ s) (b ∷ t) =
    let e : min (suc (length s)) (suc (length t)) ≡ suc (min (length s) (length t)) = omega arith in
    rw (e, compare_views) (ground (arith, compare_views-lex s t))

lex-eq : (s t : Bytes) → lex s t ≡ Ordering.eq → s ≡ t
lex-eq [] [] h = refl
lex-eq [] (b ∷ t) h = cc
lex-eq (a ∷ s) [] h = cc
lex-eq (a ∷ s) (b ∷ t) h = ground (arith, lex-eq s t)

lex_refl : (s : Bytes) → lex s s ≡ Ordering.eq
lex_refl [] = refl
lex_refl (a ∷ s) = ground (arith, lex_refl s)

-- The reverse comparison.
abbrev pub flip : Ordering → Ordering
flip Ordering.lt = Ordering.gt
flip Ordering.eq = Ordering.eq
flip Ordering.gt = Ordering.lt

lex-flip : (s t : Bytes) → lex t s ≡ flip (lex s t)
lex-flip [] [] = refl
lex-flip [] (b ∷ t) = refl
lex-flip (a ∷ s) [] = refl
lex-flip (a ∷ s) (b ∷ t) = ground (arith, lex-flip s t)

lex_trans : (s t u : Bytes) → lex s t ≡ Ordering.lt → lex t u ≡ Ordering.lt → lex s u ≡ Ordering.lt
lex_trans [] [] u p q = cc
lex_trans [] (b ∷ t) [] p q = cc
lex_trans [] (b ∷ t) (c ∷ u) p q = refl
lex_trans (a ∷ s) [] u p q = cc
lex_trans (a ∷ s) (b ∷ t) [] p q = cc
lex_trans (a ∷ s) (b ∷ t) (c ∷ u) p q = ground (arith, lex_trans s t u)

pub str_lt_trans : (s t u : Bytes) → str_lt s t ≡ true → str_lt t u ≡ true → str_lt s u ≡ true
unfolding str_lt
str_lt_trans s t u p q =
    ground
      (arith, compare_views-lex s t, compare_views-lex t u, compare_views-lex s u, lex_trans s t u)

char_compare-eq :
    (s t : Bytes) → length s ≡ length t → (char_compare s t (length s) ≡ Ordering.eq) ↔ (s ≡ t)
unfolding char_compare
char_compare-eq [] [] h = (λ _. refl, λ _. refl)
char_compare-eq [] (b ∷ t) h = absurd (omega arith)
char_compare-eq (a ∷ s) [] h = absurd (omega arith)
char_compare-eq (a ∷ s) (b ∷ t) h =
    let ih = char_compare-eq s t (omega arith) in (λ e. ground (arith, ih), λ e. ground (arith, ih))

-- operator== of two views is true exactly where they show the same string.
pub str_eq_iff : (s t : Bytes) → (str_eq s t ≡ true) ↔ (s ≡ t)
unfolding str_eq
str_eq_iff s t = (
  λ e. ground (arith, char_compare-eq s t),
  λ e. rw e (ground (arith, (char_compare-eq t t refl).1 refl)),
)

-- compare is the lexicographic order of the bytes: it is 0 exactly for equal strings, swapping the
-- arguments flips it, and operator< is transitive.
pub compare_views-order :
    (s t u : Bytes)
    → (compare_views s t ≡ lex s t)
      × ((compare_views s t ≡ Ordering.eq) ↔ (s ≡ t))
      × (compare_views t s ≡ flip (compare_views s t))
      × (str_lt s t ≡ true → str_lt t u ≡ true → str_lt s u ≡ true)
compare_views-order s t u = (
  compare_views-lex s t,
  rw compare_views-lex (lex-eq s t, λ e. rw e (lex_refl t)),
  rw (compare_views-lex s t, compare_views-lex t s) (lex-flip s t),
  str_lt_trans s t u,
)
