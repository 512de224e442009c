-- ===== src/Conver/Divided.antt =====
-- The division of the tests into groups, and their export, in Conver::construct_simfile of
-- src/sim/conver.cc.
use simlib.Common.{
  ℕ, suc, ◌+◌, ◌≡◌, refl, Bool, true, false, [], ◌∷◌, Bytes, arith, codes, if◌then◌else◌, All,
  length,
}
use simlib.StringView.Text.{str_eq}
use simlib.Path.{is_empty}
use simlib.Simfile.{split}
use simlib.Conver.{TestProperties, Tests}
use simlib.Conver.Scores.{Groups, emplace_test, add_to_group, fill_groups}

-- How many tests have a group id, and how many stand in the groups.
abbrev pub with_id : Tests → ℕ
with_id [] = 0
with_id ((name, test) ∷ tests) = (if is_empty (split name).0 then 0 else 1) + with_id tests

abbrev group_id : Bytes → Bytes
group_id name = if str_eq (split name).1 (codes "ocen") then codes "0" else (split name).0

abbrev pub in_groups : Groups → ℕ
in_groups [] = 0
in_groups ((gid, group) ∷ groups) = length group.tests + in_groups groups

length-emplace_test :
    (name : Bytes) (test : TestProperties) (tests : Tests)
    → length (emplace_test name test tests) ≡ suc (length tests)
unfolding emplace_test
length-emplace_test name test [] = refl
length-emplace_test name test (t ∷ tests) = ground (arith, length-emplace_test name test tests)

in_groups-add_to_group :
    (gid name : Bytes) (test : TestProperties) (groups : Groups)
    → in_groups (add_to_group gid name test groups) ≡ suc (in_groups groups)
unfolding add_to_group
in_groups-add_to_group gid name test [] = omega arith
in_groups-add_to_group gid name test ((key, group) ∷ groups) =
    ground (
      arith,
      in_groups-add_to_group gid name test groups,
      length-emplace_test name test group.tests,
    )

-- One test more, which is passed over or put into a group.
in_groups-next :
    (skip : Bool) (gid name : Bytes) (test : TestProperties) (groups : Groups) (before more : ℕ)
    → before ≡ in_groups (if skip then groups else add_to_group gid name test groups) + more
    → before ≡ in_groups groups + ((if skip then 0 else 1) + more)
in_groups-next true gid name test groups before more h = omega arith
in_groups-next false gid name test groups before more h =
    omega (arith, in_groups-add_to_group gid name test groups)

in_groups-fill_groups :
    (tests : Tests) (groups : Groups)
    → in_groups (fill_groups tests groups) ≡ in_groups groups + with_id tests
unfolding fill_groups
in_groups-fill_groups [] groups = omega arith
in_groups-fill_groups ((name, test) ∷ tests) groups =
    in_groups-next (is_empty (split name).0) (group_id name) name test groups
      (in_groups (fill_groups ((name, test) ∷ tests) groups)) (with_id tests)
      (in_groups-fill_groups tests
        (if is_empty (split name).0 then groups else add_to_group (group_id name) name test groups))

module _ (P : Bytes × TestProperties → Type 0) where
  abbrev pub GroupsAll : Groups → Type 0
  GroupsAll = All (λ g. All P g.1.tests)

  All-emplace_test :
      (name : Bytes) (test : TestProperties) (tests : Tests)
      → P (name, test)
      → All P tests
      → All P (emplace_test name test tests)
  unfolding emplace_test
  All-emplace_test name test [] h a = (h, tt)
  All-emplace_test name test (t ∷ tests) h a =
      ground (arith, All-emplace_test name test tests h a.1)

  GroupsAll-add_to_group :
      (gid name : Bytes) (test : TestProperties) (groups : Groups)
      → P (name, test)
      → GroupsAll groups
      → GroupsAll (add_to_group gid name test groups)
  unfolding add_to_group
  GroupsAll-add_to_group gid name test [] h a = ((h, tt), tt)
  GroupsAll-add_to_group gid name test ((key, group) ∷ groups) h a = ground (
    arith,
    GroupsAll-add_to_group gid name test groups h a.1,
    All-emplace_test name test group.tests h a.0,
  )

  GroupsAll-next :
      (skip : Bool) (gid name : Bytes) (test : TestProperties) (groups : Groups)
      → P (name, test)
      → GroupsAll groups
      → GroupsAll (if skip then groups else add_to_group gid name test groups)
  GroupsAll-next true gid name test groups h a = a
  GroupsAll-next false gid name test groups h a = GroupsAll-add_to_group gid name test groups h a

  GroupsAll-fill_groups :
      (tests : Tests) (groups : Groups)
      → All P tests
      → GroupsAll groups
      → GroupsAll (fill_groups tests groups)
  unfolding fill_groups
  GroupsAll-fill_groups [] groups h a = a
  GroupsAll-fill_groups ((name, test) ∷ tests) groups h a =
      GroupsAll-fill_groups tests _ h.1
        (GroupsAll-next (is_empty (split name).0) (group_id name) name test groups h.0 a)

  -- The groups hold as many tests as there are with a group id, and only tests that were there.
  pub fill_groups-in_groups :
      (tests : Tests)
      → All P tests
      → (in_groups (fill_groups tests []) ≡ with_id tests) × GroupsAll (fill_groups tests [])
  fill_groups-in_groups tests h =
      (omega (arith, in_groups-fill_groups tests []), GroupsAll-fill_groups tests [] h tt)
