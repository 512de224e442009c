-- ===== src/Path/Absolute.antt =====
-- path_absolute of src/path.cc against a stack of components.
use simlib.Common.{
  ℕ, zero, suc, ◌≤◌, ◌≡◌, ◌≢◌, refl, sym, ap, ◌∙◌, ◌&&◌, not, Bool, true, false, List, [], ◌∷◌,
  ◌++◌, Bytes, Option, none, some, codes, length, drop, ◌==◌, if◌then◌else◌, arith, All, all_of,
  Bool-cases, inl, inr, append_assoc, append-nil, all_of-append, ◌||◌,
}
use simlib.StringView.Text.{leading, remove_leading, str_eq, compare_views}
use simlib.StringTraits.{has_suffix}
use simlib.Path.{slash, not_slash, process_component, component_loop, start_dir, path_absolute}
use simlib.Path.Names.{
  Stack, pop_component, resolve_component, joined, shown, IsName, Rooted, erase-pop,
  as_directory-shown, has_suffix-slash, has_suffix-name,
}

-- The components of a path, read one character at a time; the argument is the one being read.
abbrev pub components : Option Bytes → Bytes → List Bytes
components none [] = []
components (some cur) [] = cur ∷ []
components none (c ∷ s) = if c == b'/' then components none s else components (some (c ∷ [])) s
components (some cur) (c ∷ s) =
    if c == b'/' then cur ∷ components none s else components (some (cur ++ c ∷ [])) s

abbrev pub resolve : Stack → List Bytes → Stack
resolve st [] = st
resolve st (c ∷ cs) = resolve (resolve_component st c) cs

record IsStack (st : Stack) : Type 0 where
  names : All IsName st.0
  rooted : Rooted st

pop-names : (cs : List Bytes) → All IsName cs → All IsName (pop_component cs)
pop-names [] h = tt
pop-names (c ∷ cs) h = h.1

true-Rooted : (cs : List Bytes) → Rooted (cs, true)
true-Rooted [] = refl
true-Rooted (c ∷ cs) = tt

IsStack-resolve :
    (st : Stack) (c : Bytes)
    → IsStack st
    → c ≢ []
    → all_of not_slash c ≡ true
    → IsStack (resolve_component st c)
IsStack-resolve (cs, dir) c h ne plain = elim (Bool-cases (str_eq c (codes ".."))) [
  | inl e ↦
      rw (e, resolve_component)
        (record { names = pop-names cs h.names; rooted = true-Rooted (pop_component cs) })
  | inr e ↦ elim (Bool-cases (str_eq c (codes "."))) [
    | inl d ↦ rw (e, d, resolve_component) (record { names = h.names; rooted = true-Rooted cs })
    | inr d ↦
        rw (e, d, resolve_component)
          (record {
            names = (record { no_slash = plain; nonempty = ne; not_here = d; not_up = e }, h.names);
            rooted = tt;
          })
  ]
]

process_component-resolve :
    (st : Stack) (c : Bytes)
    → IsStack st
    → process_component (shown st) c ≡ shown (resolve_component st c)
unfolding process_component
process_component-resolve (cs, dir) c h = elim (Bool-cases (str_eq c (codes ".."))) [
  | inl e ↦ rw (e, process_component, resolve_component) (erase-pop cs dir h.names h.rooted)
  | inr e ↦ elim (Bool-cases (str_eq c (codes "."))) [
    | inl d ↦
        rw (e, d, process_component, resolve_component) (as_directory-shown cs dir h.names h.rooted)
    | inr d ↦
        rw (e, d, process_component, resolve_component)
          (ap (λ t. t ++ c) (as_directory-shown cs dir h.names h.rooted)
            ∙ append_assoc (joined cs) slash c
            ∙ sym (append-nil (joined cs ++ b'/' ∷ c)))
  ]
]

components-leading :
    (cur s : Bytes)
    → components (some cur) s
      ≡ (cur ++ leading not_slash s) ∷ components none (drop 1 (remove_leading not_slash s))
unfolding leading remove_leading
components-leading cur [] = ap (λ c. c ∷ []) (sym (append-nil cur))
components-leading cur (c ∷ s) = elim (Bool-cases (c == b'/')) [
  | inl e ↦
      rw (e, components, leading, remove_leading)
        (ap (λ d. d ∷ components none s) (sym (append-nil cur)))
  | inr e ↦
      rw (e, components, leading, remove_leading)
        (components-leading (cur ++ c ∷ []) s
          ∙ ap (λ d. d ∷ components none (drop 1 (remove_leading not_slash s)))
              (append_assoc cur (c ∷ []) (leading not_slash s)))
]

leading-plain : (s : Bytes) → all_of not_slash (leading not_slash s) ≡ true
unfolding leading
leading-plain [] = refl
leading-plain (c ∷ s) = ground (arith, leading-plain s)

rest_shorter : (s : Bytes) → length (drop 1 (remove_leading not_slash s)) ≤ length s
unfolding remove_leading
rest_shorter [] = omega arith
rest_shorter (c ∷ s) = elim (Bool-cases (c == b'/')) [
  | inl e ↦ rw (e, remove_leading) omega arith
  | inr e ↦ rw (e, remove_leading) (omega (arith, rest_shorter s))
]

-- A component begins: it is taken up to the next slash.
begins :
    (c : ℕ) (s : Bytes)
    → (c == b'/') ≡ false
    → (leading not_slash (c ∷ s) ≡ c ∷ leading not_slash s)
      × (remove_leading not_slash (c ∷ s) ≡ remove_leading not_slash s)
      × (all_of not_slash (c ∷ leading not_slash s) ≡ true)
unfolding leading remove_leading
begins c s e = (rw e, rw e, rw e (leading-plain s))

component_loop-resolve :
    (f : ℕ) (st : Stack) (s : Bytes)
    → IsStack st
    → length s ≤ f
    → component_loop f (shown st) s ≡ shown (resolve st (components none s))
unfolding component_loop
component_loop-resolve f st [] h enough = refl
component_loop-resolve zero st (c ∷ s) h enough = absurd (omega arith)
component_loop-resolve (suc f) st (c ∷ s) h enough = elim (Bool-cases (c == b'/')) [
  | inl e ↦ rw (e, component_loop, components) (component_loop-resolve f st s h (omega arith))
  | inr e ↦
      let (name, rest, plain) = begins c s e in
      rw (e, component_loop, components)
        (rw (name, rest)
          (ap (λ t. component_loop f t (drop 1 (remove_leading not_slash s)))
              (process_component-resolve st (c ∷ leading not_slash s) h)
            ∙ component_loop-resolve f (resolve_component st (c ∷ leading not_slash s))
                (drop 1 (remove_leading not_slash s))
                (IsStack-resolve st (c ∷ leading not_slash s) h (λ q. cc) plain)
                (omega (arith, rest_shorter s))
            ∙ ap (λ t. shown (resolve st t)) (sym (components-leading (c ∷ []) s))))
]

components-IsStack :
    (s : Bytes) (st : Stack)
    → IsStack st
    → IsStack (resolve st (components none s))
      × ((cur : Bytes)
          → cur ≢ []
          → all_of not_slash cur ≡ true
          → IsStack (resolve st (components (some cur) s)))
components-IsStack [] st h = (h, λ cur ne plain. IsStack-resolve st cur h ne plain)
components-IsStack (c ∷ s) st h = elim (Bool-cases (c == b'/')) [
  | inl e ↦
      rw (e, components)
        (
          (components-IsStack s st h).0,
          λ cur ne plain.
              (components-IsStack s (resolve_component st cur)
                (IsStack-resolve st cur h ne plain)).0,
        )
  | inr e ↦
      rw (e, components)
        (
          (components-IsStack s st h).1 (c ∷ []) (λ q. cc) (rw e refl),
          λ cur ne plain.
              (components-IsStack s st h).1 (cur ++ c ∷ []) (longer cur c)
                (all_of-snoc cur c plain e),
        )
]
  where
    longer : (cur : Bytes) (c : ℕ) → cur ++ c ∷ [] ≢ []
    longer [] c = λ q. cc
    longer (d ∷ cur) c = λ q. cc

    all_of-snoc :
        (cur : Bytes) (c : ℕ)
        → all_of not_slash cur ≡ true
        → (c == b'/') ≡ false
        → all_of not_slash (cur ++ c ∷ []) ≡ true
    all_of-snoc cur c plain e = rw (all_of-append not_slash cur (c ∷ []), plain, e)

abbrev pub root : Stack
root = ([], true)

start_dir-slash : (c : ℕ) (s : Bytes) → start_dir (c ∷ s) slash ≡ slash
unfolding start_dir has_suffix compare_views
start_dir-slash c s = ground arith

-- The slash at the end that the loop trims is put back.
with_slash :
    (cs : List Bytes) (dir more : Bool)
    → IsStack (cs, dir)
    → (if more && not (has_suffix (shown (cs, dir)) slash)
        then shown (cs, dir) ++ slash
        else shown (cs, dir))
      ≡ shown (cs, dir || more)
with_slash cs true more h = rw (has_suffix-slash (joined cs)) (ground arith)
with_slash [] false more h = absurd (cc h.rooted)
with_slash (c ∷ cs) false true h =
    rw (append-nil (joined cs ++ b'/' ∷ c), has_suffix-name (joined cs) c h.names.0)
with_slash (c ∷ cs) false false h = refl

-- For any path, path_absolute with the current directory `/` is the path's components resolved against
-- the root, `..` taking the last one away and `.` none, each behind one slash, with a slash at the end
-- where the path has one or ends in `.`, in `..` or at the root; no component of the result is empty,
-- `.` or `..`, so it does not lead out of the root.
pub path_absolute-resolve :
    (path : Bytes)
    → let st = resolve root (components none path) in
      All IsName st.0 × (path_absolute path slash ≡ shown (st.0, st.1 || has_suffix path slash))
unfolding path_absolute
path_absolute-resolve [] = (tt, refl)
path_absolute-resolve (c ∷ s) =
    let st = resolve root (components none (c ∷ s)) in
    let good = (components-IsStack (c ∷ s) root (record { names = tt; rooted = refl })).0 in
    let run =
      component_loop-resolve (length (c ∷ s)) root (c ∷ s) (record { names = tt; rooted = refl })
        (omega arith) in
    (
      good.names,
      rw (start_dir-slash c s, run) (with_slash st.0 st.1 (has_suffix (c ∷ s) slash) good),
    )
