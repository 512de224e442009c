-- ===== src/EventQueue/Table.antt =====
-- The containers of include/simlib/event_queue.hh: std::map by handler ids, the ordered multiset of
-- expirations, and the vector of polled files.
use simlib.Common.{
  ℕ, ◌≤◌, ◌≡◌, ◌≢◌, refl, Bool, true, false, ◌&&◌, ◌||◌, List, [], ◌∷◌, Option, none, some, ltb,
  ◌==◌, if◌then◌else◌, arith,
}

module _ {V : Type 0} where
  -- `find`, and what `at` returns; `none` is the end, where `at` throws.
  unfoldable pub find : List (ℕ × V) → ℕ → Option V
  find [] k = none
  find ((j, v) ∷ m) k = let rest = find m k in if j == k then some v else rest

  unfoldable pub emplace : ℕ → V → List (ℕ × V) → List (ℕ × V)
  emplace k v [] = (k, v) ∷ []
  emplace k v ((j, w) ∷ m) =
      let rest = emplace k v m in
      if ltb j k then (j, w) ∷ rest else if j == k then (j, w) ∷ m else (k, v) ∷ (j, w) ∷ m

  unfoldable pub erase : ℕ → List (ℕ × V) → List (ℕ × V)
  erase k [] = []
  erase k ((j, w) ∷ m) = let rest = erase k m in if j == k then m else (j, w) ∷ rest

  -- A write to the value of a key.
  unfoldable pub assign : ℕ → V → List (ℕ × V) → List (ℕ × V)
  assign k v [] = []
  assign k v ((j, w) ∷ m) = let rest = assign k v m in if j == k then (j, v) ∷ m else (j, w) ∷ rest

  -- No key twice.
  abbrev pub IsMap : List (ℕ × V) → Type 0
  IsMap [] = Unit
  IsMap ((j, w) ∷ m) = (find m j ≡ none) × IsMap m

  pub find-emplace :
      (m : List (ℕ × V)) (k : ℕ) (v : V) (i : ℕ)
      → find m k ≡ none
      → find (emplace k v m) i ≡ (if i == k then some v else find m i)
  unfolding find emplace
  find-emplace [] k v i h = ground arith
  find-emplace ((j, w) ∷ m) k v i h = ground (arith, find-emplace m k v i)

  pub find-erase :
      (m : List (ℕ × V)) (k i : ℕ)
      → IsMap m
      → find (erase k m) i ≡ (if i == k then none else find m i)
  unfolding find erase
  find-erase [] k i h = ground arith
  find-erase ((j, w) ∷ m) k i h = ground (arith, find-erase m k i h.1)

  pub find-assign :
      (m : List (ℕ × V)) (k : ℕ) (v : V) (i : ℕ)
      → find m k ≢ none
      → find (assign k v m) i ≡ (if i == k then some v else find m i)
  unfolding find assign
  find-assign [] k v i h = absurd (h refl)
  find-assign ((j, w) ∷ m) k v i h = ground (arith, find-assign m k v i)

  pub emplace-IsMap :
      (m : List (ℕ × V)) (k : ℕ) (v : V) → find m k ≡ none → IsMap m → IsMap (emplace k v m)
  unfolding find emplace
  emplace-IsMap [] k v h o = (refl, tt)
  emplace-IsMap ((j, w) ∷ m) k v h o = ground (arith, emplace-IsMap m k v, find-emplace m k v j)

  pub erase-IsMap : (m : List (ℕ × V)) (k : ℕ) → IsMap m → IsMap (erase k m)
  unfolding erase
  erase-IsMap [] k o = tt
  erase-IsMap ((j, w) ∷ m) k o = ground (arith, erase-IsMap m k o.1, find-erase m k j o.1)

  assign-none :
      (m : List (ℕ × V)) (k : ℕ) (v : V) (j : ℕ) → find m j ≡ none → find (assign k v m) j ≡ none
  unfolding find assign
  assign-none [] k v j h = refl
  assign-none ((i, w) ∷ m) k v j h = ground (arith, assign-none m k v j)

  pub assign-IsMap : (m : List (ℕ × V)) (k : ℕ) (v : V) → IsMap m → IsMap (assign k v m)
  unfolding assign
  assign-IsMap [] k v o = tt
  assign-IsMap ((j, w) ∷ m) k v o = ground (arith, assign-IsMap m k v o.1, assign-none m k v j)

-- std::multiset of pairs of a time and an id: ascending, by the time and then by the id.
abbrev pub earlier : ℕ × ℕ → ℕ × ℕ → Bool
earlier (t, i) (u, j) = ltb t u || (t == u && ltb i j)

abbrev pub same_pair : ℕ × ℕ → ℕ × ℕ → Bool
same_pair (t, i) (u, j) = t == u && i == j

unfoldable pub insert : ℕ × ℕ → List (ℕ × ℕ) → List (ℕ × ℕ)
insert x [] = x ∷ []
insert x (y ∷ ys) = let rest = insert x ys in if earlier x y then x ∷ y ∷ ys else y ∷ rest

-- `erase` of a value removes every element equal to it.
unfoldable pub erase_value : ℕ × ℕ → List (ℕ × ℕ) → List (ℕ × ℕ)
erase_value x [] = []
erase_value x (y ∷ ys) = let rest = erase_value x ys in if same_pair x y then rest else y ∷ rest

abbrev pub has_pair : List (ℕ × ℕ) → ℕ × ℕ → Bool
has_pair [] x = false
has_pair (y ∷ ys) x = same_pair x y || has_pair ys x

-- No expiration of the list is before the time.
abbrev pub NotBefore : ℕ → List (ℕ × ℕ) → Type 0
NotBefore t [] = Unit
NotBefore t (y ∷ ys) = (t ≤ y.0) × NotBefore t ys

abbrev pub IsAscending : List (ℕ × ℕ) → Type 0
IsAscending [] = Unit
IsAscending (y ∷ ys) = NotBefore y.0 ys × IsAscending ys

pub has_pair-insert :
    (x : ℕ × ℕ) (xs : List (ℕ × ℕ)) (z : ℕ × ℕ)
    → has_pair (insert x xs) z ≡ (same_pair z x || has_pair xs z)
unfolding insert
has_pair-insert x [] z = refl
has_pair-insert x (y ∷ ys) z = ground (arith, has_pair-insert x ys z)

pub has_pair-erase_value :
    (x : ℕ × ℕ) (xs : List (ℕ × ℕ)) (z : ℕ × ℕ)
    → has_pair (erase_value x xs) z ≡ (if same_pair z x then false else has_pair xs z)
unfolding erase_value
has_pair-erase_value x [] z = ground arith
has_pair-erase_value x (y ∷ ys) z = ground (arith, has_pair-erase_value x ys z)

NotBefore-insert :
    (t : ℕ) (x : ℕ × ℕ) (ys : List (ℕ × ℕ)) → t ≤ x.0 → NotBefore t ys → NotBefore t (insert x ys)
unfolding insert
NotBefore-insert t x [] h o = (h, tt)
NotBefore-insert t x (y ∷ ys) h o = ground (arith, NotBefore-insert t x ys h o.1)

NotBefore-le : (t u : ℕ) (ys : List (ℕ × ℕ)) → t ≤ u → NotBefore u ys → NotBefore t ys
NotBefore-le t u [] h o = tt
NotBefore-le t u (y ∷ ys) h o = (omega (arith, o.0), NotBefore-le t u ys h o.1)

pub insert-IsAscending :
    (x : ℕ × ℕ) (ys : List (ℕ × ℕ)) → IsAscending ys → IsAscending (insert x ys)
unfolding insert
insert-IsAscending x [] o = (tt, tt)
insert-IsAscending x (y ∷ ys) o =
    ground
      (arith, insert-IsAscending x ys o.1, NotBefore-insert y.0 x ys, NotBefore-le x.0 y.0 ys, o.0)

NotBefore-erase_value :
    (t : ℕ) (x : ℕ × ℕ) (ys : List (ℕ × ℕ)) → NotBefore t ys → NotBefore t (erase_value x ys)
unfolding erase_value
NotBefore-erase_value t x [] o = tt
NotBefore-erase_value t x (y ∷ ys) o = ground (arith, NotBefore-erase_value t x ys o.1)

pub erase_value-IsAscending :
    (x : ℕ × ℕ) (ys : List (ℕ × ℕ)) → IsAscending ys → IsAscending (erase_value x ys)
unfolding erase_value
erase_value-IsAscending x [] o = tt
erase_value-IsAscending x (y ∷ ys) o =
    ground (arith, erase_value-IsAscending x ys o.1, NotBefore-erase_value y.0 x ys o.0)

pub NotBefore-has_pair :
    (t : ℕ) (ys : List (ℕ × ℕ)) → NotBefore t ys → (z : ℕ × ℕ) → has_pair ys z ≡ true → t ≤ z.0
NotBefore-has_pair t [] o z h = cc
NotBefore-has_pair t (y ∷ ys) o z h = ground (arith, NotBefore-has_pair t ys o.1 z)

-- No pair twice.
abbrev pub IsDistinct : List (ℕ × ℕ) → Type 0
IsDistinct [] = Unit
IsDistinct (y ∷ ys) = (has_pair ys y ≡ false) × IsDistinct ys

pub insert-IsDistinct :
    (x : ℕ × ℕ) (ys : List (ℕ × ℕ))
    → has_pair ys x ≡ false
    → IsDistinct ys
    → IsDistinct (insert x ys)
unfolding insert
insert-IsDistinct x [] h o = (refl, tt)
insert-IsDistinct x (y ∷ ys) h o =
    ground (arith, insert-IsDistinct x ys, has_pair-insert x ys y, o.0)

pub erase_value-IsDistinct :
    (x : ℕ × ℕ) (ys : List (ℕ × ℕ)) → IsDistinct ys → IsDistinct (erase_value x ys)
unfolding erase_value
erase_value-IsDistinct x [] o = tt
erase_value-IsDistinct x (y ∷ ys) o =
    ground (arith, erase_value-IsDistinct x ys o.1, has_pair-erase_value x ys y, o.0)
