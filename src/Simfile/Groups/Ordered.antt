-- ===== src/Simfile/Groups/Ordered.antt =====
-- The groups that load_tests of src/sim/simfile.cc collects: their order, and which tests they hold.
use simlib.Common.{
  ℕ, ◌≡◌, ◌≢◌, refl, subst, Bool, true, false, List, [], ◌∷◌, ◌++◌, Bytes, Option, All, All-append,
  Bool-cases, inl, inr, if◌then◌else◌, length, ◌==◌, ==_iff,
}
use simlib.StringView.Text.{remove_leading, str_lt}
use simlib.StringView.Order.{compare_views-order}
use simlib.StringCompare.{is_zero, str_num_compare}
use simlib.Path.{is_empty}
use simlib.Simfile.{Error, Result, loaded, throws, and_then, split, missing_group_id}
use simlib.Simfile.Groups.{
  Test, TestGroup, TestsGroups, TimeLimit, add_test, parse_limits_item, or_global, group_id,
  new_test, limits_loop,
}

-- Two group ids of one number.
abbrev pub Same : Bytes → Bytes → Type 0
Same gid key = (str_num_compare gid key ≡ false) × (str_num_compare key gid ≡ false)

abbrev pub Below : Bytes → TestsGroups → Type 0
Below key [] = Unit
Below key ((next, group) ∷ groups) = str_num_compare key next ≡ true

abbrev pub Ordered : TestsGroups → Type 0
Ordered [] = Unit
Ordered ((key, group) ∷ groups) = Below key groups × Ordered groups

module _ (read_time : Bytes → TimeLimit) where
  -- A group has a test, and all its tests have its number.
  abbrev pub IsGroup : Bytes × TestGroup → Type 0
  IsGroup (key, group) =
      (group.tests ≢ []) × All (λ test. Same (group_id read_time (split test.name)) key) group.tests

str_num_compare-same : (gid : Bytes) → str_num_compare gid gid ≡ false
unfolding str_num_compare
str_num_compare-same gid =
    let s = remove_leading is_zero gid in
    let long : (length s == length s) ≡ true = (==_iff _ _).1 refl in
    rw long (unfold str_lt in rw ((compare_views-order s s s).1.1 refl))

add_test-Below :
    (groups : TestsGroups) (key gid : Bytes) (test : Test)
    → Below key groups
    → str_num_compare key gid ≡ true
    → Below key (add_test groups gid test)
unfolding add_test
add_test-Below [] key gid test h lt = lt
add_test-Below ((next, group) ∷ groups) key gid test h lt =
    elim (Bool-cases (str_num_compare gid next)) [
      | inl e ↦ rw (e, add_test) lt
      | inr e ↦ elim (Bool-cases (str_num_compare next gid)) [
        | inl d ↦ rw (e, d, add_test) h
        | inr d ↦ rw (e, d, add_test) h
      ]
    ]

add_test-Ordered :
    (groups : TestsGroups) (gid : Bytes) (test : Test)
    → Ordered groups
    → Ordered (add_test groups gid test)
unfolding add_test
add_test-Ordered [] gid test h = (tt, tt)
add_test-Ordered ((key, group) ∷ groups) gid test h = elim (Bool-cases (str_num_compare gid key)) [
  | inl e ↦ rw (e, add_test) (e, h)
  | inr e ↦ elim (Bool-cases (str_num_compare key gid)) [
    | inl d ↦
        rw (e, d, add_test)
          (add_test-Below groups key gid test h.0 d, add_test-Ordered groups gid test h.1)
    | inr d ↦ rw (e, d, add_test) h
  ]
]

append-ne-nil : (tests : List Test) (test : Test) → tests ++ test ∷ [] ≢ []
append-ne-nil [] test = λ e. cc
append-ne-nil (t ∷ tests) test = λ e. cc

module _ (read_time : Bytes → TimeLimit) where
  add_test-IsGroup :
      (groups : TestsGroups) (test : Test)
      → All (IsGroup read_time) groups
      → All (IsGroup read_time) (add_test groups (group_id read_time (split test.name)) test)
  unfolding add_test
  add_test-IsGroup [] test h =
      let same = str_num_compare-same (group_id read_time (split test.name)) in
      ((λ e. cc, ((same, same), tt)), tt)
  add_test-IsGroup ((key, group) ∷ groups) test h =
      let gid = group_id read_time (split test.name) in
      let same = str_num_compare-same gid in
      elim (Bool-cases (str_num_compare gid key)) [
        | inl e ↦ rw (e, add_test) ((λ q. cc, ((same, same), tt)), h)
        | inr e ↦ elim (Bool-cases (str_num_compare key gid)) [
          | inl d ↦ rw (e, d, add_test) (h.0, add_test-IsGroup groups test h.1)
          | inr d ↦
              rw (e, d, add_test)
                (
                  (
                    append-ne-nil group.tests test,
                    All-append _ group.tests (test ∷ []) h.0.1 ((e, d), tt),
                  ),
                  h.1,
                )
        ]
      ]

if_throws {ℓ} :
    {A : Type ℓ} (b : Bool) (why : Error) (r : Result A) (a : A)
    → (if b then throws why else r) ≡ loaded a
    → r ≡ loaded a
if_throws true why r a e = absurd (cc e)
if_throws false why r a e = e

and_then-loaded {ℓ κ} :
    {A : Type ℓ} {B : Type κ} (r : Result A) (f : A → Result B) (b : B)
    → and_then r f ≡ loaded b
    → (a : A) × (f a ≡ loaded b)
and_then-loaded (loaded a) f b e = (a, e)
and_then-loaded (throws why) f b e = absurd (cc e)

module _ (read_time : Bytes → TimeLimit) where
  -- If the loop of load_tests over the items of `limits` succeeds on groups that are in order, each with
  -- at least one test and with tests of its own number alone, so are the groups that it gives; the loop
  -- starts with no groups.
  pub limits_loop-Ordered :
      (global_mem_limit : Option ℕ) (strs : List Bytes) (groups result : TestsGroups)
      → Ordered groups
      → All (IsGroup read_time) groups
      → limits_loop read_time global_mem_limit strs groups ≡ loaded result
      → Ordered result × All (IsGroup read_time) result
  unfolding limits_loop
  limits_loop-Ordered gml [] groups result ordered kept e =
      let same : groups ≡ result = cc in
      (subst Ordered same ordered, subst (All (IsGroup read_time)) same kept)
  limits_loop-Ordered gml (str ∷ strs) groups result ordered kept e =
      let ((test_name, time_limit, memory_limit), e₁) =
        and_then-loaded (parse_limits_item read_time str) _ result e in
      let (limit, e₂) =
        and_then-loaded (or_global read_time test_name memory_limit gml) _ result e₁ in
      let test = new_test read_time test_name time_limit limit in
      limits_loop-Ordered gml strs (add_test groups (group_id read_time (split test_name)) test)
        result (add_test-Ordered groups (group_id read_time (split test_name)) test ordered)
        (add_test-IsGroup read_time groups test kept)
        (if_throws (is_empty (split test_name).0) (missing_group_id test_name) _ result e₂)
