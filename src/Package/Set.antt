-- ===== src/Package/Set.antt =====
-- std::set as include/simlib/sim/problem_package.hh uses it: the elements in the order of their
-- texts, which `key` gives, and the operations by the comparison of texts.
use simlib.Common.{Bool, false, not, List, [], ◌∷◌, ◌++◌, Bytes, if◌then◌else◌}
use simlib.StringView.Text.{str_lt}

module _ {A : Type 0} (key : A → Bytes) where
  -- An element is inserted where no other has its text.
  unfoldable pub insert : A → List A → List A
  unfolding str_lt
  insert x [] = x ∷ []
  insert x (y ∷ ys) =
      if str_lt (key y) (key x)
      then y ∷ insert x ys
      else if str_lt (key x) (key y)
      then x ∷ y ∷ ys
      else y ∷ ys

  -- The elements from the first one on that is not less than a text, and those before it.
  unfoldable pub lower_bound : Bytes → List A → List A
  unfolding str_lt
  lower_bound s [] = []
  lower_bound s (x ∷ xs) = if str_lt (key x) s then lower_bound s xs else x ∷ xs

  unfoldable pub below : Bytes → List A → List A
  unfolding str_lt
  below s [] = []
  below s (x ∷ xs) = if str_lt (key x) s then x ∷ below s xs else []

  unfoldable pub find_elem : Bytes → List A → Bool
  unfolding lower_bound
  find_elem s xs = elim (lower_bound s xs) [ [] ↦ false | x ∷ _ ↦ not (str_lt s (key x)) ]

  -- Erases the element at the lower bound.
  unfoldable pub erase : Bytes → List A → List A
  unfolding below lower_bound
  erase s xs = below s xs ++ elim (lower_bound s xs) [ [] ↦ [] | _ ∷ ys ↦ ys ]

module _ {A : Type 0} (f : A → Bool) where
  -- `while (it != end and f(*it)) erase(it++);`
  unfoldable pub erase_while : List A → List A
  erase_while [] = []
  erase_while (x ∷ xs) = if f x then erase_while xs else x ∷ xs

  unfoldable pub take_while : List A → List A
  take_while [] = []
  take_while (x ∷ xs) = if f x then x ∷ take_while xs else []

-- `*rbegin()` of a set with `x` first.
abbrev pub last_of {ℓ} : {A : Type ℓ} → A → List A → A
last_of x [] = x
last_of x (y ∷ ys) = last_of y ys
