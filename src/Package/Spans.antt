-- ===== src/Package/Spans.antt =====
-- The spans of a package's entries, and what they show when the buffer grows.
use simlib.Common.{
  ◌-◌, ◌≤◌, ◌≡◌, refl, Bool, List, [], ◌∷◌, ◌++◌, Bytes, arith, All, length, drop, length-append,
  length-drop, drop-length, drop-append, take-append, take-all,
}
use simlib.Package.Set.{insert, erase, below, lower_bound}
use simlib.Package.Entries.{has, keep, Above, IsOrdered}
use simlib.Package.{Span, PackageContents, to_str}

abbrev pub IsInside : Bytes → Span → Type 0
IsInside buff x = (x.begin ≤ x.endi) × (x.endi ≤ length buff)

-- The spans lie in the buffer, and stand in the strict order of their texts.
pub record IsValid (pc : PackageContents) : Type 0 where
  pub inside : All (IsInside pc.buff) pc.entries
  pub ordered : IsOrdered (to_str pc.buff) pc.entries

-- Appending to the buffer leaves the texts of the spans.
to_str-append : (buff s : Bytes) (x : Span) → IsInside buff x → to_str (buff ++ s) x ≡ to_str buff x
to_str-append buff s x (le, fit) =
    rw (drop-append x.begin buff s (omega arith)) (
      take-append (x.endi - x.begin) (drop x.begin buff) s
        (omega (arith, length-drop x.begin buff)))

pub to_str-last :
    (buff s : Bytes)
    → to_str (buff ++ s) (record { begin = length buff; endi = length (buff ++ s) }) ≡ s
to_str-last buff s = rw (drop-length buff s) (take-all _ s (omega (arith, length-append buff s)))

module _ (key key' : Span → Bytes) where
  abbrev pub Agree : List Span → Type 0
  Agree = All (λ x. key' x ≡ key x)

  Above-Agree : (s : Bytes) (xs : List Span) → Agree xs → Above key s xs → Above key' s xs
  Above-Agree s [] g a = tt
  Above-Agree s (x ∷ xs) g a = (rw g.0 a.0, Above-Agree s xs g.1 a.1)

  pub IsOrdered-Agree : (xs : List Span) → Agree xs → IsOrdered key xs → IsOrdered key' xs
  IsOrdered-Agree [] g o = tt
  IsOrdered-Agree (x ∷ xs) g o =
      (rw g.0 (Above-Agree (key x) xs g.1 o.0), IsOrdered-Agree xs g.1 o.1)

  pub has-Agree : (xs : List Span) (e : Bytes) → Agree xs → has key' xs e ≡ has key xs e
  has-Agree [] e g = refl
  has-Agree (x ∷ xs) e g = rw (g.0, has-Agree xs e g.1) refl

module _ (P : Span → Type 0) (key : Span → Bytes) where
  pub All-insert : (x : Span) (xs : List Span) → P x → All P xs → All P (insert key x xs)
  unfolding insert
  All-insert x [] h a = (h, tt)
  All-insert x (y ∷ ys) h a = ground (arith, All-insert x ys h a.1)

  pub All-keep : (f : Span → Bool) (xs : List Span) → All P xs → All P (keep f xs)
  All-keep f [] a = tt
  All-keep f (x ∷ xs) a = ground (arith, All-keep f xs a.1)

  pub All-erase : (s : Bytes) (xs : List Span) → All P xs → All P (erase key s xs)
  unfolding erase below lower_bound
  All-erase s [] a = tt
  All-erase s (x ∷ xs) a = ground (arith, All-erase s xs a.1)

module _ (buff s : Bytes) where
  pub Agree-append :
      (xs : List Span) → All (IsInside buff) xs → Agree (to_str buff) (to_str (buff ++ s)) xs
  Agree-append [] a = tt
  Agree-append (x ∷ xs) a = (to_str-append buff s x a.0, Agree-append xs a.1)

  pub IsInside-append : (xs : List Span) → All (IsInside buff) xs → All (IsInside (buff ++ s)) xs
  IsInside-append [] a = tt
  IsInside-append (x ∷ xs) a =
      ((a.0.0, omega (arith, length-append buff s, a.0.1)), IsInside-append xs a.1)
