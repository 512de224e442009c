-- ===== src/SimpleParser/Fields.antt =====
-- extract_next and extract_next_non_empty of include/simlib/simple_parser.hh on delimited fields.
use simlib.Common.{
  take, ◌⊎◌, inl, inr, Bool-cases, ℕ, suc, ◌+◌, ◌≡◌, refl, Bool, true, false, not, [], ◌∷◌, ◌++◌,
  Bytes, arith, length, all_of, drop, take-length, take-all, drop-all,
}
use simlib.StringView.Text.{remove_leading}
use simlib.SimpleParser.{next_pos, extract_next, extract_next_non_empty}

module _ (is_delimiter : ℕ → Bool) where
  -- No delimiter.
  abbrev pub IsField : Bytes → Type 0
  IsField s = all_of (λ c. not (is_delimiter c)) s ≡ true

  next_pos-end : (s : Bytes) → IsField s → next_pos is_delimiter s ≡ length s
  unfolding next_pos
  next_pos-end [] h = refl
  next_pos-end (c ∷ s) h = ground (arith, next_pos-end s)

  next_pos-stop :
      (s : Bytes) (d : ℕ) (rest : Bytes)
      → IsField s
      → is_delimiter d ≡ true
      → next_pos is_delimiter (s ++ d ∷ rest) ≡ length s
  unfolding next_pos
  next_pos-stop [] d rest h stop = rw stop
  next_pos-stop (c ∷ s) d rest h stop = ground (arith, next_pos-stop s d rest)

  drop_past : (s : Bytes) (d : ℕ) (rest : Bytes) → drop (length s + 1) (s ++ d ∷ rest) ≡ rest
  drop_past [] d rest = refl
  drop_past (c ∷ s) d rest =
      let e : suc (length s) + 1 ≡ suc (length s + 1) = omega arith in rw e (drop_past s d rest)

  -- For a field without a delimiter, extract_next gives the field: with a delimiter behind it, that one
  -- is taken too and what follows is left; with nothing behind it, nothing is left.
  pub extract_next-field :
      (s : Bytes) (d : ℕ) (rest : Bytes)
      → IsField s
      → is_delimiter d ≡ true
      → (extract_next is_delimiter (s ++ d ∷ rest) ≡ (s, rest))
        × (extract_next is_delimiter s ≡ (s, []))
  unfolding extract_next
  extract_next-field s d rest h stop = (
    rw (next_pos-stop s d rest h stop, take-length s (d ∷ rest), drop_past s d rest),
    rw (
      next_pos-end s h,
      take-all (length s) s (omega arith),
      drop-all (length s + 1) s (omega arith),
    ),
  )

  remove_leading-all :
      (ds t : Bytes)
      → all_of is_delimiter ds ≡ true
      → remove_leading is_delimiter (ds ++ t) ≡ remove_leading is_delimiter t
  unfolding remove_leading
  remove_leading-all [] t h = refl
  remove_leading-all (d ∷ ds) t h = ground (arith, remove_leading-all ds t)

  remove_leading-field :
      (c : ℕ) (t : Bytes) → is_delimiter c ≡ false → remove_leading is_delimiter (c ∷ t) ≡ c ∷ t
  unfolding remove_leading
  remove_leading-field c t h = rw h

  -- extract_next_non_empty skips the delimiters in front, however many, and gives the nonempty field
  -- behind them, with or without a delimiter that ends it; where there are only delimiters it gives the
  -- empty string and leaves nothing.
  pub extract_next_non_empty-field :
      (ds : Bytes) (c : ℕ) (s : Bytes) (d : ℕ) (rest : Bytes)
      → all_of is_delimiter ds ≡ true
      → IsField (c ∷ s)
      → is_delimiter d ≡ true
      → (extract_next_non_empty is_delimiter (ds ++ c ∷ (s ++ d ∷ rest)) ≡ (c ∷ s, rest))
        × (extract_next_non_empty is_delimiter (ds ++ c ∷ s) ≡ (c ∷ s, []))
        × (extract_next_non_empty is_delimiter ds ≡ ([], []))
  unfolding extract_next_non_empty
  extract_next_non_empty-field ds c s d rest skip field stop =
      let first : is_delimiter c ≡ false = ground arith in
      let e = extract_next-field (c ∷ s) d rest field stop in
      (
        rw
            (
              remove_leading-all ds (c ∷ (s ++ d ∷ rest)) skip,
              remove_leading-field c (s ++ d ∷ rest) first,
            )
            e.0,
        rw (remove_leading-all ds (c ∷ s) skip, remove_leading-field c s first) e.1,
        rw (nothing ds skip) (unfold extract_next next_pos in refl),
      )
    where
      nothing : (ds : Bytes) → all_of is_delimiter ds ≡ true → remove_leading is_delimiter ds ≡ []
      nothing [] h = unfold remove_leading in refl
      nothing (d ∷ ds) h = unfold remove_leading in ground (arith, nothing ds)

leading_cases :
    (is_delimiter : ℕ → Bool) (s : Bytes)
    → (remove_leading is_delimiter s ≡ [])
      ⊎ ((c : ℕ) × (t : Bytes) × (remove_leading is_delimiter s ≡ c ∷ t) × (is_delimiter c ≡ false))
unfolding remove_leading
leading_cases is_delimiter [] = inl refl
leading_cases is_delimiter (c ∷ s) = elim (Bool-cases (is_delimiter c)) [
  | inl drops ↦ rw (drops, remove_leading) (leading_cases is_delimiter s)
  | inr other ↦ inr (c, s, rw (other, remove_leading) refl, other)
]

-- Where there is no field, nothing is left.
pub extract_next_non_empty-none :
    (is_delimiter : ℕ → Bool) (s : Bytes)
    → (extract_next_non_empty is_delimiter s).0 ≡ []
    → extract_next_non_empty is_delimiter s ≡ ([], [])
unfolding extract_next_non_empty extract_next next_pos
extract_next_non_empty-none is_delimiter s e = elim (leading_cases is_delimiter s) [
  | inl none_left ↦ rw (none_left, extract_next_non_empty, extract_next, next_pos) refl
  | inr (c, t, left, field) ↦
      let wrong : c ∷ take (next_pos is_delimiter t) t ≡ [] =
        rw (left, extract_next_non_empty, extract_next, next_pos, field) at e in
      cc
]
