-- ===== src/StringView/Search.antt =====
-- What the searches and the cuts at a character class return.
use simlib.Common.{
  ℕ, zero, suc, ◌+◌, ◌-◌, ◌<◌, ◌≤◌, ◌≡◌, refl, ap, sym, ◌∙◌, [], ◌∷◌, ◌++◌, Option, none, some, ◌⊎◌,
  ◌≢◌, Bytes, arith, take, drop, length, length-take, length-drop, ltb, inl, inr, take-append-drop,
  Bool-cases, true, false, Bool, get_or, ◌==◌, all_of,
}
use simlib.StringView.Text.{
  find_loop, find, rfind_loop, rfind, remove_leading, leading, extract_leading, trailing_from,
  remove_trailing, extract_trailing,
}

-- The position `i` holds `c`, and no position of `[lo, hi)` but `i` itself does among those that
-- the search passes first.
pub record FirstAt (s : Bytes) (c beg i : ℕ) : Type 0 where
  pub from_beg : beg ≤ i
  pub inside : i < length s
  pub holds : get_or s i 0 ≡ c
  pub before : (j : ℕ) → beg ≤ j → j < i → get_or s j 0 ≢ c

pub record LastAt (s : Bytes) (c beg i : ℕ) : Type 0 where
  pub from_beg : beg ≤ i
  pub inside : i < length s
  pub holds : get_or s i 0 ≡ c
  pub after : (j : ℕ) → i < j → j < length s → get_or s j 0 ≢ c

abbrev pub Absent : Bytes → ℕ → ℕ → Type 0
Absent s c beg = (j : ℕ) → beg ≤ j → j < length s → get_or s j 0 ≢ c

-- A search that scans down from `endi`.
abbrev NoneBelow : Bytes → ℕ → ℕ → ℕ → Type 0
NoneBelow s c lo hi = (j : ℕ) → lo ≤ j → j < hi → get_or s j 0 ≢ c

NoneBelow-suc :
    (s : Bytes) (c lo hi : ℕ) → NoneBelow s c lo hi → get_or s hi 0 ≢ c → NoneBelow s c lo (suc hi)
NoneBelow-suc s c lo hi h last j le lt = elim (Bool-cases (j == hi)) [
  | inl same ↦ ground arith
  | inr other ↦ h j le (ground arith)
]

abbrev Scanned : Bytes → ℕ → ℕ → ℕ → Option ℕ → Type 0
Scanned s c beg endi none = NoneBelow s c beg endi
Scanned s c beg endi (some i) =
    (beg ≤ i) × (i < endi) × (get_or s i 0 ≡ c) × NoneBelow s c (suc i) endi

Scanned-suc :
    (s : Bytes) (c beg endi : ℕ) (o : Option ℕ)
    → Scanned s c beg endi o
    → get_or s endi 0 ≢ c
    → Scanned s c beg (suc endi) o
Scanned-suc s c beg endi none h last = NoneBelow-suc s c beg endi h last
Scanned-suc s c beg endi (some i) (a, b, e, h) last =
    (a, omega arith, e, NoneBelow-suc s c (suc i) endi h last)

rfind_loop-Scanned : (s : Bytes) (c beg endi : ℕ) → Scanned s c beg endi (rfind_loop s c beg endi)
unfolding rfind_loop
rfind_loop-Scanned s c beg zero = λ j _ lt. absurd (omega arith)
rfind_loop-Scanned s c beg (suc e) = elim (Bool-cases (ltb beg (suc e))) [
  | inr past ↦ rw past (λ j le lt. absurd (ground arith))
  | inl more ↦ elim (Bool-cases (get_or s e 0 == c)) [
    | inl hit ↦
        rw (more, hit) (ground arith, omega arith, ground arith, λ j le lt. absurd (omega arith))
    | inr miss ↦
        rw (more, miss)
          (Scanned-suc s c beg e (rfind_loop s c beg e) (rfind_loop-Scanned s c beg e)
            (ground arith))
  ]
]

-- What the scan downwards amounts to.
abbrev pub RfindResult : Bytes → ℕ → ℕ → Option ℕ → Type 0
RfindResult s c beg none = Absent s c beg
RfindResult s c beg (some i) = LastAt s c beg i

-- rfind returns the last position of the character that is not before `beg`, and npos exactly where
-- there is none.
pub rfind-last : (s : Bytes) (c beg : ℕ) → RfindResult s c beg (rfind s c beg)
unfolding rfind
rfind-last s c beg = convert (rfind_loop s c beg (length s)) (rfind_loop-Scanned s c beg (length s))
  where
    convert : (o : Option ℕ) → Scanned s c beg (length s) o → RfindResult s c beg o
    convert none h = h
    convert (some i) (a, b, e, h) = record {
      from_beg = a;
      inside = b;
      holds = e;
      after = λ j lt. h j lt;
    }

-- The scan upwards. `t` is what is left of the string from `i` on.
abbrev pub FindResult : Bytes → ℕ → ℕ → Option ℕ → Type 0
FindResult s c beg none = Absent s c beg
FindResult s c beg (some i) = FirstAt s c beg i

get_or-drop : (s : Bytes) (n j : ℕ) → get_or (drop n s) j 0 ≡ get_or s (n + j) 0
get_or-drop s zero j = let e : zero + j ≡ j = omega arith in rw e
get_or-drop [] (suc n) j = refl
get_or-drop (x ∷ s) (suc n) j =
    let e : suc n + j ≡ suc (n + j) = omega arith in rw e (get_or-drop s n j)

abbrev Located : ℕ → Bytes → ℕ → Option ℕ → Type 0
Located c t i none = (j : ℕ) → j < length t → get_or t j 0 ≢ c
Located c t i (some k) =
    (d : ℕ) × (k ≡ i + d)
    × (d < length t)
    × (get_or t d 0 ≡ c)
    × ((j : ℕ) → j < d → get_or t j 0 ≢ c)

-- A character that is not `c`, put in front.
Located-cons :
    (c x : ℕ) (t : Bytes) (i : ℕ) (o : Option ℕ)
    → x ≢ c
    → Located c t (i + 1) o
    → Located c (x ∷ t) i o
Located-cons c x t i none ne h = λ j lt. first j lt
  where
    first : (j : ℕ) → j < length (x ∷ t) → get_or (x ∷ t) j 0 ≢ c
    first zero lt = ne
    first (suc j) lt = h j (omega arith)
Located-cons c x t i (some k) ne (d, e, lt, hit, before) =
    (suc d, omega arith, omega arith, hit, λ j l. earlier j l)
  where
    earlier : (j : ℕ) → j < suc d → get_or (x ∷ t) j 0 ≢ c
    earlier zero l = ne
    earlier (suc j) l = before j (omega arith)

find_loop-Located : (c : ℕ) (t : Bytes) (i : ℕ) → Located c t i (find_loop c t i)
unfolding find_loop
find_loop-Located c [] i = λ j lt. absurd (omega arith)
find_loop-Located c (x ∷ t) i = elim (Bool-cases (x == c)) [
  | inl hit ↦ rw hit (0, omega arith, omega arith, ground arith, λ j lt. absurd (omega arith))
  | inr miss ↦
      rw miss (
        Located-cons c x t i (find_loop c t (i + 1)) (ground arith) (find_loop-Located c t (i + 1)))
]

-- find returns the first position of the character that is not before `beg`, and npos exactly where
-- there is none.
pub find-first : (s : Bytes) (c beg : ℕ) → FindResult s c beg (find s c beg)
unfolding find
find-first s c beg = convert (find_loop c (drop beg s) beg) (find_loop-Located c (drop beg s) beg)
  where
    at_ : (j : ℕ) → beg ≤ j → get_or s j 0 ≡ get_or (drop beg s) (j - beg) 0
    at_ j le =
        let e : beg + (j - beg) ≡ j = omega arith in sym (rw e at (get_or-drop s beg (j - beg)))

    convert : (o : Option ℕ) → Located c (drop beg s) beg o → FindResult s c beg o
    convert none h = λ j le lt. rw (at_ j le) (h (j - beg) (omega (arith, length-drop beg s)))
    convert (some k) (d, e, lt, hit, before) = record {
      from_beg = omega arith;
      inside = omega (arith, length-drop beg s);
      holds = at_ k (omega arith) ∙ (let e' : k - beg ≡ d = omega arith in rw e' hit);
      before = λ j le l. rw (at_ j le) (before (j - beg) (omega arith));
    }

-- What is cut off at the front satisfies `f` throughout and is as long as can be: what is left
-- begins with a character for which `f` fails, or is empty.
abbrev pub StopsAt : (ℕ → Bool) → Bytes → Type 0
StopsAt f [] = Unit
StopsAt f (c ∷ s) = f c ≡ false

-- extract_leading cuts the string in two without a loss: the part cut off satisfies `f` throughout,
-- the rest is empty or begins with a character that does not, and is what remove_leading leaves.
pub extract_leading-cut :
    (f : ℕ → Bool) (s : Bytes)
    → ((extract_leading f s).0 ++ (extract_leading f s).1 ≡ s)
      × (all_of f (extract_leading f s).0 ≡ true)
      × StopsAt f (extract_leading f s).1
      × ((extract_leading f s).1 ≡ remove_leading f s)
unfolding extract_leading
extract_leading-cut f s = (join s, holds s, stops s, refl)
  where
    join : (t : Bytes) → leading f t ++ remove_leading f t ≡ t
    join [] = refl
    join (c ∷ t) = elim (Bool-cases (f c)) [
      | inl hit ↦ rw hit (ap (◌∷◌ c) (join t))
      | inr miss ↦ rw miss
    ]

    holds : (t : Bytes) → all_of f (leading f t) ≡ true
    holds [] = refl
    holds (c ∷ t) = elim (Bool-cases (f c)) [
      | inl hit ↦ rw (hit, hit) (holds t)
      | inr miss ↦ rw miss
    ]

    stops : (t : Bytes) → StopsAt f (remove_leading f t)
    stops [] = tt
    stops (c ∷ t) = elim (Bool-cases (f c)) [ inl hit ↦ rw hit (stops t) | inr miss ↦ rw miss miss ]

-- The scan from the end of `extract_trailing`.
trailing_from-le : (f : ℕ → Bool) (s : Bytes) (i : ℕ) → trailing_from f s i ≤ i
unfolding trailing_from
trailing_from-le f s zero = omega arith
trailing_from-le f s (suc i) = ground (arith, trailing_from-le f s i)

trailing_from-holds :
    (f : ℕ → Bool) (s : Bytes) (i j : ℕ) → trailing_from f s i ≤ j → j < i → f (get_or s j 0) ≡ true
unfolding trailing_from
trailing_from-holds f s zero j le lt = absurd (omega arith)
trailing_from-holds f s (suc i) j le lt = elim (Bool-cases (f (get_or s i 0))) [
  | inl hit ↦ elim (Bool-cases (j == i)) [
    | inl same ↦ let e : j ≡ i = ground arith in rw e hit
    | inr other ↦ trailing_from-holds f s i j (rw (hit, trailing_from) at le) (ground arith)
  ]
  | inr miss ↦ absurd (let le' = rw (miss, trailing_from) at le in omega arith)
]

trailing_from-stops :
    (f : ℕ → Bool) (s : Bytes) (i : ℕ)
    → (trailing_from f s i ≡ 0) ⊎ (f (get_or s (trailing_from f s i - 1) 0) ≡ false)
unfolding trailing_from
trailing_from-stops f s zero = inl refl
trailing_from-stops f s (suc i) = elim (Bool-cases (f (get_or s i 0))) [
  | inl hit ↦ rw hit (trailing_from-stops f s i)
  | inr miss ↦ rw miss (inr (let e : suc i - 1 ≡ i = omega arith in rw e miss))
]

-- extract_trailing cuts the string in two without a loss: the part cut off at the back satisfies `f`
-- throughout, what is left is empty or ends with a character that does not, and is what
-- remove_trailing leaves.
pub extract_trailing-cut :
    (f : ℕ → Bool) (s : Bytes)
    → let n = length (extract_trailing f s).1 in
      ((extract_trailing f s).1 ++ (extract_trailing f s).0 ≡ s)
      × ((j : ℕ) → n ≤ j → j < length s → f (get_or s j 0) ≡ true)
      × ((n ≡ 0) ⊎ (f (get_or s (n - 1) 0) ≡ false))
      × ((extract_trailing f s).1 ≡ remove_trailing f s)
unfolding extract_trailing remove_trailing
extract_trailing-cut f s =
    let i = trailing_from f s (length s) in
    let e : length (take i s) ≡ i =
      omega (arith, length-take i s, trailing_from-le f s (length s)) in
    (
      take-append-drop i s,
      λ j le lt. trailing_from-holds f s (length s) j (rw e at le) lt,
      rw e (trailing_from-stops f s (length s)),
      refl,
    )
