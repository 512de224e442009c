-- ===== src/Package/Contents.antt =====
-- The contents of a package as a set of texts: what each operation of problem_package.hh keeps, and
-- what it does to the texts.
use simlib.Common.{
  ◌≡◌, refl, Bool, not, ◌&&◌, ◌||◌, List, [], ◌∷◌, ◌++◌, Bytes, arith, sym, ap, ◌∙◌, Bool-cases,
  inl, inr, length, map, length-append,
}
use simlib.StringView.Text.{str_eq}
use simlib.StringView.Order.{str_eq_iff}
use simlib.StringTraits.{has_prefix}
use simlib.Package.Set.{insert, find_elem, erase_while, below, lower_bound}
use simlib.Package.Entries.{
  keep, IsOrdered, insert-IsOrdered, has-insert, find-has, has-erase, keep-IsOrdered, has-keep,
  erase-IsOrdered,
}
use simlib.Package.Spans.{
  IsInside, IsValid, Agree, Agree-append, IsInside-append, IsOrdered-Agree, has-Agree, to_str-last,
  All-insert, All-keep, All-erase,
}
use simlib.Package.Prefix.{prefix-keep}
use simlib.Package.{
  Span, PackageContents, to_str, add_entry, exists, remove, remove_with_prefix,
  for_each_with_prefix,
}

map-keep :
    (key : Span → Bytes) (f : Bytes → Bool) (xs : List Span)
    → map key (keep (λ x. f (key x)) xs) ≡ keep f (map key xs)
map-keep key f [] = refl
map-keep key f (x ∷ xs) = ground (arith, map-keep key f xs)

module _ (pc : PackageContents) (valid : IsValid pc) (s : Bytes) where
  abbrev key_of : Span → Bytes
  key_of = to_str pc.buff

  abbrev grown : Span → Bytes
  grown = to_str (pc.buff ++ s)

  abbrev new_span : Span
  new_span = record { begin = length pc.buff; endi = length (pc.buff ++ s) }

  agree : Agree key_of grown pc.entries
  agree = Agree-append pc.buff s pc.entries valid.inside

  grown-IsOrdered : IsOrdered grown (insert grown new_span pc.entries)
  grown-IsOrdered =
      insert-IsOrdered grown new_span pc.entries
        (IsOrdered-Agree key_of grown pc.entries agree valid.ordered)

  add_entry-IsValid : IsValid (add_entry pc s)
  unfolding add_entry
  add_entry-IsValid = record {
    inside =
        All-insert (IsInside (pc.buff ++ s)) grown new_span pc.entries
          (omega (arith, length-append pc.buff s), omega arith)
          (IsInside-append pc.buff s pc.entries valid.inside);
    ordered = grown-IsOrdered;
  }

  exists-add_entry : (e : Bytes) → exists (add_entry pc s) e ≡ (str_eq s e || exists pc e)
  unfolding exists add_entry
  exists-add_entry e =
      rw
        (
          find-has grown e (insert grown new_span pc.entries) grown-IsOrdered,
          has-insert grown new_span pc.entries e,
          to_str-last pc.buff s,
          has-Agree key_of grown pc.entries e agree,
          find-has key_of e pc.entries valid.ordered,
        )
        refl

  remove-IsValid : IsValid (remove pc s).0
  unfolding remove
  remove-IsValid = elim (Bool-cases (find_elem key_of s pc.entries)) [
    | inl found ↦ rw found record {
      inside = All-erase (IsInside pc.buff) key_of s pc.entries valid.inside;
      ordered = erase-IsOrdered key_of s pc.entries valid.ordered;
    }
    | inr missing ↦ rw missing valid
  ]

  remove-exists : (remove pc s).1 ≡ exists pc s
  unfolding exists remove
  remove-exists = ground arith

  exists-remove : (e : Bytes) → exists (remove pc s).0 e ≡ (not (str_eq s e) && exists pc e)
  unfolding exists remove
  exists-remove e = elim (Bool-cases (find_elem key_of s pc.entries)) [
    | inl found ↦
        let ordered = erase-IsOrdered key_of s pc.entries valid.ordered in
        rw found (
          find-has key_of e _ ordered
          ∙ has-erase key_of s pc.entries valid.ordered found e
          ∙ ap (λ b. not (str_eq s e) && b) (sym (find-has key_of e pc.entries valid.ordered)))
    | inr missing ↦ rw missing (elim (Bool-cases (str_eq s e)) [
      | inl same ↦ rw same (rw ((str_eq_iff s e).0 same) at missing)
      | inr other ↦ rw other refl
    ])
  ]

  abbrev lacks : Span → Bool
  lacks x = not (has_prefix (key_of x) s)

  removed :
      below key_of s pc.entries
        ++ erase_while (λ x. has_prefix (key_of x) s) (lower_bound key_of s pc.entries)
      ≡ keep lacks pc.entries
  removed = (prefix-keep key_of s pc.entries valid.ordered).0

  remove_with_prefix-IsValid : IsValid (remove_with_prefix pc s)
  unfolding remove_with_prefix
  remove_with_prefix-IsValid = record {
    inside = rw removed (All-keep (IsInside pc.buff) key_of lacks pc.entries valid.inside);
    ordered = rw removed (keep-IsOrdered key_of lacks pc.entries valid.ordered);
  }

  exists-remove_with_prefix :
      (e : Bytes) → exists (remove_with_prefix pc s) e ≡ (not (has_prefix e s) && exists pc e)
  unfolding exists remove_with_prefix
  exists-remove_with_prefix e =
      rw
        (
          removed,
          find-has key_of e (keep lacks pc.entries)
              (keep-IsOrdered key_of lacks pc.entries valid.ordered),
          has-keep key_of (λ t. not (has_prefix t s)) pc.entries e,
          find-has key_of e pc.entries valid.ordered,
        )
        refl

  -- The callback gets the texts with the prefix, each once and in the order of all the texts.
  for_each_with_prefix-keep :
      for_each_with_prefix pc s ≡ keep (λ t. has_prefix t s) (map key_of pc.entries)
  unfolding for_each_with_prefix
  for_each_with_prefix-keep =
      ap (map key_of) (prefix-keep key_of s pc.entries valid.ordered).1
      ∙ map-keep key_of (λ t. has_prefix t s) pc.entries

  -- add_entry, remove and remove_with_prefix leave valid contents, and change what exists says in
  -- the way of their names, for every text. remove tells whether the text was there, and
  -- for_each_with_prefix visits the texts with the prefix in their order.
  pub operations-exists :
      (IsValid (add_entry pc s)
        × ((e : Bytes) → exists (add_entry pc s) e ≡ (str_eq s e || exists pc e)))
      × (IsValid (remove pc s).0
          × ((e : Bytes) → exists (remove pc s).0 e ≡ (not (str_eq s e) && exists pc e))
          × ((remove pc s).1 ≡ exists pc s))
      × (IsValid (remove_with_prefix pc s)
          × ((e : Bytes)
              → exists (remove_with_prefix pc s) e ≡ (not (has_prefix e s) && exists pc e)))
      × (for_each_with_prefix pc s ≡ keep (λ t. has_prefix t s) (map key_of pc.entries))
  operations-exists = (
    (add_entry-IsValid, exists-add_entry),
    (remove-IsValid, exists-remove, remove-exists),
    (remove_with_prefix-IsValid, exists-remove_with_prefix),
    for_each_with_prefix-keep,
  )
