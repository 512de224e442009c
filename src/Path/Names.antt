-- ===== src/Path/Names.antt =====
-- The operations on the text of a path that process_component is made of, on joined components.
use simlib.Common.{
  ℕ, zero, suc, ◌+◌, ◌-◌, ◌<◌, ◌≡◌, ◌≢◌, refl, sym, ap, ◌∙◌, Bool, true, false, List, [], ◌∷◌, ◌++◌,
  Bytes, Option, none, some, codes, length, take, drop, if◌then◌else◌, arith, All, all_of,
  Bool-cases, inl, inr, &&-true, get_or, append_assoc, append-nil, length-append, take-length, ◌⊎◌,
}
use simlib.StringView.Text.{rfind, str_eq, compare_views}
use simlib.StringView.Search.{RfindResult, rfind-last}
use simlib.StringView.Order.{str_eq_iff}
use simlib.StringTraits.{has_suffix}
use simlib.StringTraits.Laws.{has_prefix-append}
use simlib.Path.{
  slash, not_slash, path_filename, without_slash, erase_last_component, is_empty, as_directory,
}

-- What a path stands for: the components above each other, the last one first, and whether the
-- text ends with a slash.
abbrev pub Stack : Type 0
Stack = List Bytes × Bool

abbrev pub pop_component : List Bytes → List Bytes
pop_component [] = []
pop_component (c ∷ cs) = cs

-- `..` takes the last component away and `.` leaves all; both leave a directory.
abbrev pub resolve_component : Stack → Bytes → Stack
resolve_component (cs, dir) component =
    if str_eq component (codes "..")
    then (pop_component cs, true)
    else if str_eq component (codes ".")
    then (cs, true)
    else (component ∷ cs, false)

abbrev pub joined : List Bytes → Bytes
joined [] = []
joined (c ∷ cs) = joined cs ++ b'/' ∷ c

abbrev pub shown : Stack → Bytes
shown (cs, dir) = joined cs ++ (if dir then slash else [])

-- A name: not empty, without a slash, and neither `.` nor `..`.
pub record IsName (c : Bytes) : Type 0 where
  pub no_slash : all_of not_slash c ≡ true
  pub nonempty : c ≢ []
  pub not_here : str_eq c (codes ".") ≡ false
  pub not_up : str_eq c (codes "..") ≡ false

-- The root is shown with its slash.
abbrev pub Rooted : Stack → Type 0
Rooted ([], dir) = dir ≡ true
Rooted (c ∷ cs, dir) = Unit

abbrev last_of : ℕ → Bytes → ℕ
last_of d [] = d
last_of d (c ∷ s) = last_of c s

last_of-append : (d : ℕ) (s : Bytes) (c : ℕ) (t : Bytes) → last_of d (s ++ c ∷ t) ≡ last_of c t
last_of-append d [] c t = refl
last_of-append d (e ∷ s) c t = last_of-append e s c t

last_of-name :
    (d : ℕ) (c : Bytes) → c ≢ [] → all_of not_slash c ≡ true → not_slash (last_of d c) ≡ true
last_of-name d [] ne h = absurd (ne refl)
last_of-name d (c ∷ []) ne h = (&&-true (not_slash c) true h).0
last_of-name d (c ∷ e ∷ s) ne h =
    last_of-name c (e ∷ s) (λ q. cc) (&&-true (not_slash c) (all_of not_slash (e ∷ s)) h).1

pub has_suffix-slash : (s : Bytes) → has_suffix (s ++ slash) slash ≡ true
has_suffix-slash s = (has_prefix-append (s ++ slash) slash).1.1 (s, refl)

pub has_suffix-name : (s c : Bytes) → IsName c → has_suffix (s ++ b'/' ∷ c) slash ≡ false
has_suffix-name s c h = elim (Bool-cases (has_suffix (s ++ b'/' ∷ c) slash)) [
  | inr e ↦ e
  | inl e ↦
      let (front, split) = (has_prefix-append (s ++ b'/' ∷ c) slash).1.0 e in
      let ends : last_of 0 (s ++ b'/' ∷ c) ≡ b'/' =
        ap (last_of 0) split ∙ last_of-append 0 front b'/' [] in
      let name = last_of-name b'/' c h.nonempty h.no_slash in
      absurd (ground (arith, ends, last_of-append 0 s b'/' c, name))
]

get_or-append : (s t : Bytes) (j : ℕ) → get_or (s ++ t) (length s + j) 0 ≡ get_or t j 0
get_or-append [] t j = let e : 0 + j ≡ j = omega arith in rw e
get_or-append (c ∷ s) t j =
    let e : suc (length s) + j ≡ suc (length s + j) = omega arith in rw e (get_or-append s t j)

get_or-name : (c : Bytes) (j : ℕ) → all_of not_slash c ≡ true → j < length c → get_or c j 0 ≢ b'/'
get_or-name [] j h lt = absurd (omega arith)
get_or-name (c ∷ s) zero h lt =
    let this = (&&-true (not_slash c) (all_of not_slash s) h).0 in λ e. ground arith
get_or-name (c ∷ s) (suc j) h lt =
    get_or-name s j (&&-true (not_slash c) (all_of not_slash s) h).1 (omega arith)

-- The last slash of a path is the one before its last name.
rfind-name :
    (s c : Bytes) → all_of not_slash c ≡ true → rfind (s ++ b'/' ∷ c) b'/' 0 ≡ some (length s)
rfind-name s c h = go (rfind (s ++ b'/' ∷ c) b'/' 0) (rfind-last (s ++ b'/' ∷ c) b'/' 0)
  where
    here : get_or (s ++ b'/' ∷ c) (length s) 0 ≡ b'/'
    here = let e : length s + 0 ≡ length s = omega arith in rw e at (get_or-append s (b'/' ∷ c) 0)

    long : length (s ++ b'/' ∷ c) ≡ length s + suc (length c)
    long = length-append s (b'/' ∷ c)

    behind : (i : ℕ) → length s < i → i < length (s ++ b'/' ∷ c) → get_or (s ++ b'/' ∷ c) i 0 ≢ b'/'
    behind i lt in_s =
        let e : length s + suc (i - length s - 1) ≡ i = omega arith in
        λ q.
          get_or-name c (i - length s - 1) h (omega (arith, long))
            (sym (get_or-append s (b'/' ∷ c) (suc (i - length s - 1))) ∙ rw e q)

    go : (o : Option ℕ) → RfindResult (s ++ b'/' ∷ c) b'/' 0 o → o ≡ some (length s)
    go none absent = absurd (absent (length s) (omega arith) (omega (arith, long)) here)
    go (some i) at = elim (compare-cases i (length s)) [
      | inl lt ↦ absurd (at.after (length s) lt (omega (arith, long)) here)
      | inr (inl e) ↦ ap some e
      | inr (inr gt) ↦ absurd (behind i gt at.inside at.holds)
    ]
      where
        compare-cases : (a b : ℕ) → (a < b) ⊎ ((a ≡ b) ⊎ (b < a))
        compare-cases a b = ground arith

path_filename-name : (s c : Bytes) → all_of not_slash c ≡ true → path_filename (s ++ b'/' ∷ c) ≡ c
unfolding path_filename
path_filename-name s c h = rw (rfind-name s c h, path_filename) (drop-name s c)
  where
    drop-name : (s c : Bytes) → drop (length s + 1) (s ++ b'/' ∷ c) ≡ c
    drop-name [] c = refl
    drop-name (d ∷ s) c =
        let e : suc (length s) + 1 ≡ suc (length s + 1) = omega arith in rw e (drop-name s c)

take-back : (s t : Bytes) → take (length (s ++ t) - length t) (s ++ t) ≡ s
take-back s t =
    let e : length (s ++ t) - length t ≡ length s = omega (arith, length-append s t) in
    rw e (take-length s t)

not-slash-alone : (s : Bytes) (c : ℕ) (t : Bytes) → str_eq ((s ++ c ∷ t) ++ slash) slash ≡ false
not-slash-alone s c t = elim (Bool-cases (str_eq ((s ++ c ∷ t) ++ slash) slash)) [
  | inr e ↦ e
  | inl e ↦
      let long = ap length ((str_eq_iff _ _).0 e) in
      absurd (omega (arith, long, length-append (s ++ c ∷ t) slash, length-append s (c ∷ t)))
]

erase-root : erase_last_component slash ≡ slash
unfolding erase_last_component without_slash path_filename has_suffix str_eq compare_views rfind
erase-root = refl

erase_file : (s c : Bytes) → IsName c → erase_last_component (s ++ b'/' ∷ c) ≡ s ++ slash
unfolding erase_last_component
erase_file s c h =
    rw (stays, path_filename-name s c h.no_slash)
      (rw (sym (append_assoc s slash c)) (take-back (s ++ slash) c))
  where
    stays : without_slash (s ++ b'/' ∷ c) ≡ s ++ b'/' ∷ c
    stays = unfold without_slash in rw (has_suffix-name s c h)

erase_dir : (s c : Bytes) → IsName c → erase_last_component ((s ++ b'/' ∷ c) ++ slash) ≡ s ++ slash
unfolding erase_last_component
erase_dir s c h = rw shorter (
    rw (path_filename-name s c h.no_slash)
      (rw (sym (append_assoc s slash c)) (take-back (s ++ slash) c)))
  where
    shorter : without_slash ((s ++ b'/' ∷ c) ++ slash) ≡ s ++ b'/' ∷ c
    shorter =
        unfold without_slash in
        rw (has_suffix-slash (s ++ b'/' ∷ c), not-slash-alone s b'/' c)
          (take-back (s ++ b'/' ∷ c) slash)

pub erase-pop :
    (cs : List Bytes) (dir : Bool)
    → All IsName cs
    → Rooted (cs, dir)
    → erase_last_component (shown (cs, dir)) ≡ shown (pop_component cs, true)
erase-pop [] dir names root = rw root erase-root
erase-pop (c ∷ cs) true names root = erase_dir (joined cs) c names.0
erase-pop (c ∷ cs) false names root =
    rw (append-nil (joined cs ++ b'/' ∷ c)) (erase_file (joined cs) c names.0)

pub as_directory-shown :
    (cs : List Bytes) (dir : Bool)
    → All IsName cs
    → Rooted (cs, dir)
    → as_directory (shown (cs, dir)) ≡ joined cs ++ slash
unfolding as_directory compare_views
as_directory-shown [] dir names root = rw root (unfold has_suffix in refl)
as_directory-shown (c ∷ cs) true names root = rw (has_suffix-slash (joined cs ++ b'/' ∷ c))
as_directory-shown (c ∷ cs) false names root = rw (
  append-nil (joined cs ++ b'/' ∷ c),
  has_suffix-name (joined cs) c names.0,
  nonempty (joined cs) b'/' c,
)
  where
    nonempty : (s : Bytes) (d : ℕ) (t : Bytes) → is_empty (s ++ d ∷ t) ≡ false
    nonempty [] d t = refl
    nonempty (e ∷ s) d t = refl
