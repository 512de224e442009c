-- ===== src/StringTraits/Laws.antt =====
-- has_prefix and has_suffix of include/simlib/string_traits.hh against concatenation.
use simlib.Common.{
  ℕ, ◌+◌, ◌-◌, true, ◌≡◌, ap, sym, ◌∙◌, ◌↔◌, [], ◌++◌, Bytes, leb, arith, length, take, drop,
  length-append, take-length, drop-length, take-append-drop, take-all, &&-true, ◌&&◌, length-drop,
  leb→le, le→leb,
}
use simlib.StringView.Text.{compare_views, is_eq}
use simlib.StringView.Order.{compare_views-order}
use simlib.StringTraits.{has_prefix, has_suffix}

is_eq_iff : (s t : Bytes) → (is_eq (compare_views s t) ≡ true) ↔ (s ≡ t)
is_eq_iff s t = let o = compare_views-order s t [] in (λ e. o.1.0 (ground arith), λ e. rw (o.1.1 e))

module _ (str p : Bytes) where
  abbrev tail_at : ℕ → Bytes
  tail_at n = take (length p) (drop n str)

  prefix_split : (has_prefix str p ≡ true) ↔ ((rest : Bytes) × (str ≡ p ++ rest))
  unfolding has_prefix
  prefix_split = (
    λ e. (
      drop (length p) str,
      sym (take-append-drop (length p) str)
          ∙ ap (λ t. t ++ drop (length p) str) ((is_eq_iff _ p).0 e),
    ),
    λ (rest, e). (is_eq_iff _ p).1 (rw e (take-length p rest)),
  )

  suffix_at : (n : ℕ) → n + length p ≡ length str → tail_at n ≡ drop n str
  suffix_at n h = take-all (length p) (drop n str) (omega (arith, length-drop n str))

  suffix_split : (has_suffix str p ≡ true) ↔ ((front : Bytes) × (str ≡ front ++ p))
  unfolding has_suffix
  suffix_split = (onto, from)
    where
      n : ℕ
      n = length str - length p

      onto :
          (leb (length p) (length str) && is_eq (compare_views (tail_at n) p)) ≡ true
          → (front : Bytes) × (str ≡ front ++ p)
      onto e =
          let (le, same) = &&-true _ _ e in
          let le' = leb→le (length p) (length str) le in
          (
            take n str,
            sym (take-append-drop n str)
                ∙ ap (λ t. take n str ++ t)
                    (sym (suffix_at n (omega arith)) ∙ (is_eq_iff _ p).0 same),
          )

      from :
          (front : Bytes) × (str ≡ front ++ p)
          → (leb (length p) (length str) && is_eq (compare_views (tail_at n) p)) ≡ true
      from (front, e) =
          let l : length front + length p ≡ length str =
            omega (arith, ap length e, length-append front p) in
          let d : n ≡ length front = omega arith in
          let shown : tail_at n ≡ p =
            suffix_at n (omega arith) ∙ rw d (rw e (drop-length front p)) in
          rw (le→leb (length p) (length str) (omega arith)) ((is_eq_iff _ p).1 shown)

-- has_prefix holds exactly where the string is the prefix joined to another string, and has_suffix
-- exactly where it is another string joined to the suffix.
pub has_prefix-append :
    (str p : Bytes)
    → ((has_prefix str p ≡ true) ↔ ((rest : Bytes) × (str ≡ p ++ rest)))
      × ((has_suffix str p ≡ true) ↔ ((front : Bytes) × (str ≡ front ++ p)))
has_prefix-append str p = (prefix_split str p, suffix_split str p)
