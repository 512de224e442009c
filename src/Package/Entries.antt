-- ===== src/Package/Entries.antt =====
-- The set of texts behind the operations of Package/Set.antt.
use simlib.Common.{
  ◌≡◌, ◌≢◌, refl, Bool, true, false, not, ◌&&◌, ◌||◌, List, [], ◌∷◌, Bytes, arith, sym, ap, ◌∙◌,
  All, if◌then◌else◌, Bool-cases, inl, inr,
}
use Prim.Native.Nat.{Ordering}
use simlib.StringView.Text.{str_eq, str_lt}
use simlib.StringView.Order.{lex, str_eq_iff}
use simlib.Package.Set.{insert, lower_bound, below, find_elem, erase}
use simlib.Package.Order.{str_lt-lex, lex_facts}

-- The elements for which a test holds.
abbrev pub keep {ℓ} : {A : Type ℓ} → (A → Bool) → List A → List A
keep f [] = []
keep f (x ∷ xs) = if f x then x ∷ keep f xs else keep f xs

neither : (s t : Bytes) → str_lt s t ≡ false → str_lt t s ≡ false → s ≡ t
neither s t h k =
    let f = lex_facts s t [] in f.0.0 (ground (arith, f.1, str_lt-lex s t, str_lt-lex t s))

differs : (s t : Bytes) → str_lt s t ≡ true → str_eq s t ≡ false
differs s t h =
    let f = lex_facts s t [] in ground (arith, f.0.1, (str_eq_iff s t).0, str_lt-lex s t)

apart : (a s e : Bytes) → str_eq a s ≡ false → str_eq a e ≡ true → str_eq s e ≡ false
apart a s e d h =
    let q = (str_eq_iff a e).0 h in
    elim (Bool-cases (str_eq s e)) [
      | inl h' ↦ let r = (str_eq_iff a s).1 (q ∙ sym ((str_eq_iff s e).0 h')) in cc
      | inr h' ↦ h'
    ]

module _ {A : Type 0} (key : A → Bytes) where
  -- Some element has the text.
  abbrev pub has : List A → Bytes → Bool
  has [] s = false
  has (x ∷ xs) s = str_eq (key x) s || has xs s

  abbrev pub Above : Bytes → List A → Type 0
  Above s = All (λ y. lex s (key y) ≡ Ordering.lt)

  -- Strictly ascending.
  abbrev pub IsOrdered : List A → Type 0
  IsOrdered [] = Unit
  IsOrdered (x ∷ xs) = Above (key x) xs × IsOrdered xs

  pub Above-lt : (s t : Bytes) (xs : List A) → lex s t ≡ Ordering.lt → Above t xs → Above s xs
  Above-lt s t [] h a = tt
  Above-lt s t (y ∷ ys) h a = ((lex_facts s t (key y)).2 h a.0, Above-lt s t ys h a.1)

  Above-has : (s : Bytes) (xs : List A) → Above s xs → has xs s ≡ false
  Above-has s [] a = refl
  Above-has s (y ∷ ys) a =
      let f = lex_facts s (key y) [] in
      let ne : key y ≢ s = λ e. ground (arith, f.0.1 (sym e)) in
      ground (arith, Above-has s ys a.1, (str_eq_iff (key y) s).0)

  Above-insert :
      (s : Bytes) (x : A) (xs : List A)
      → lex s (key x) ≡ Ordering.lt
      → Above s xs
      → Above s (insert key x xs)
  unfolding insert
  Above-insert s x [] h a = (h, tt)
  Above-insert s x (y ∷ ys) h a = ground (arith, Above-insert s x ys h a.1)

  pub insert-IsOrdered : (x : A) (xs : List A) → IsOrdered xs → IsOrdered (insert key x xs)
  unfolding insert
  insert-IsOrdered x [] o = (tt, tt)
  insert-IsOrdered x (y ∷ ys) o = elim (Bool-cases (str_lt (key y) (key x))) [
    | inl lt ↦
        let l : lex (key y) (key x) ≡ Ordering.lt = ground (arith, str_lt-lex (key y) (key x)) in
        rw (lt, insert) (Above-insert (key y) x ys l o.0, insert-IsOrdered x ys o.1)
    | inr ge ↦ elim (Bool-cases (str_lt (key x) (key y))) [
      | inl lt ↦
          let l : lex (key x) (key y) ≡ Ordering.lt = ground (arith, str_lt-lex (key x) (key y)) in
          rw (ge, lt, insert) ((l, Above-lt (key x) (key y) ys l o.0), o)
      | inr same ↦ rw (ge, same, insert) o
    ]
  ]

  pub has-insert :
      (x : A) (xs : List A) (s : Bytes) → has (insert key x xs) s ≡ (str_eq (key x) s || has xs s)
  unfolding insert
  has-insert x [] s = refl
  has-insert x (y ∷ ys) s = elim (Bool-cases (str_lt (key y) (key x))) [
    | inl lt ↦ rw (lt, insert) (ground (arith, has-insert x ys s))
    | inr ge ↦ elim (Bool-cases (str_lt (key x) (key y))) [
      | inl lt ↦ rw (ge, lt, insert) refl
      | inr le ↦ rw (ge, le, insert, neither (key x) (key y) le ge) (ground arith)
    ]
  ]

  pub find-has : (s : Bytes) (xs : List A) → IsOrdered xs → find_elem key s xs ≡ has xs s
  unfolding find_elem lower_bound
  find-has s [] o = refl
  find-has s (x ∷ xs) o = elim (Bool-cases (str_lt (key x) s)) [
    | inl lt ↦ rw (lt, find_elem, lower_bound, differs (key x) s lt) (find-has s xs o.1)
    | inr ge ↦ elim (Bool-cases (str_lt s (key x))) [
      | inl lt ↦
          let l : lex s (key x) ≡ Ordering.lt = ground (arith, str_lt-lex s (key x)) in
          rw (ge, lt, find_elem, lower_bound)
            (sym (Above-has s (x ∷ xs) (l, Above-lt s (key x) xs l o.0)))
      | inr le ↦
          let e = neither (key x) s ge le in
          rw (ge, le, find_elem, lower_bound, (str_eq_iff (key x) s).1 e) refl
    ]
  ]

  gone :
      (s e : Bytes) (xs : List A)
      → has xs s ≡ false
      → has xs e ≡ (not (str_eq s e) && (str_eq s e || has xs e))
  gone s e xs once = elim (Bool-cases (str_eq s e)) [
    | inl h ↦ rw h (rw ((str_eq_iff s e).0 h) at once)
    | inr h ↦ rw h refl
  ]

  pub has-erase :
      (s : Bytes) (xs : List A)
      → IsOrdered xs
      → find_elem key s xs ≡ true
      → (e : Bytes) → has (erase key s xs) e ≡ (not (str_eq s e) && has xs e)
  unfolding find_elem lower_bound erase below
  has-erase s [] o f e = cc
  has-erase s (x ∷ xs) o f e = elim (Bool-cases (str_lt (key x) s)) [
    | inl lt ↦
        let f' : find_elem key s xs ≡ true = rw (find_elem, lower_bound, lt) at f in
        let d = differs (key x) s lt in
        rw (lt, erase, below, lower_bound)
          (ground (arith, has-erase s xs o.1 f' e, apart (key x) s e d))
    | inr ge ↦ elim (Bool-cases (str_lt s (key x))) [
      | inl lt ↦ let wrong : false ≡ true = rw (find_elem, lower_bound, ge, lt) at f in cc
      | inr le ↦
          let same = neither (key x) s ge le in
          let once : has xs s ≡ false = rw (sym same) (Above-has (key x) xs o.0) in
          rw (ge, erase, below, lower_bound, same) (gone s e xs once)
    ]
  ]

  Above-keep : (f : A → Bool) (s : Bytes) (xs : List A) → Above s xs → Above s (keep f xs)
  Above-keep f s [] a = tt
  Above-keep f s (x ∷ xs) a = ground (arith, Above-keep f s xs a.1)

  pub keep-IsOrdered : (f : A → Bool) (xs : List A) → IsOrdered xs → IsOrdered (keep f xs)
  keep-IsOrdered f [] o = tt
  keep-IsOrdered f (x ∷ xs) o = ground (arith, Above-keep f (key x) xs o.0, keep-IsOrdered f xs o.1)

  pub has-keep :
      (f : Bytes → Bool) (xs : List A) (e : Bytes)
      → has (keep (λ y. f (key y)) xs) e ≡ (f e && has xs e)
  has-keep f [] e = ground arith
  has-keep f (x ∷ xs) e = elim (Bool-cases (str_eq (key x) e)) [
    | inl h ↦
        let same : f (key x) ≡ f e = ap f ((str_eq_iff (key x) e).0 h) in
        ground (arith, has-keep f xs e)
    | inr h ↦ ground (arith, has-keep f xs e)
  ]

  Above-erase : (s t : Bytes) (xs : List A) → Above s xs → Above s (erase key t xs)
  unfolding erase below lower_bound
  Above-erase s t [] a = tt
  Above-erase s t (x ∷ xs) a = ground (arith, Above-erase s t xs a.1)

  pub erase-IsOrdered : (t : Bytes) (xs : List A) → IsOrdered xs → IsOrdered (erase key t xs)
  unfolding erase below lower_bound
  erase-IsOrdered t [] o = tt
  erase-IsOrdered t (x ∷ xs) o =
      ground (arith, Above-erase (key x) t xs o.0, erase-IsOrdered t xs o.1)
