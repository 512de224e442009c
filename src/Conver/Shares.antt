-- ===== src/Conver/Shares.antt =====
-- The distribution of scores in Conver::construct_simfile of src/sim/conver.cc.
use Prim.Native.Nat.{max}
use native.Mathlib.Nat.{div-le_self, mod-eq_of_lt}
use simlib.Common.{
  ℕ, zero, suc, ◌+◌, ◌-◌, ◌/◌, ◌^◌, ◌<◌, ◌≡◌, refl, sym, ◌∙◌, ap, true, false, not, [], ◌∷◌, Bytes,
  Option, none, some, arith, ltb, if◌then◌else◌, All, Bool-cases, Option-cases, inl, inr, &&-true,
}
use mathlib.Core.Bool.{false≢true}
use simlib.Number.{ℤ, pos}
use simlib.Conver.Scores.{
  TestsGroup, Groups, positive, max_score, is_unscored, unscored_tests, zero_unscored,
  with_group_zero, distribute, scored,
}

-- The positive scores, summed without a bound.
abbrev pub total : Groups → ℕ
total [] = 0
total ((gid, group) ∷ groups) = positive group.score + total groups

abbrev pub AllScored : Groups → Type 0
AllScored = All (λ g. is_unscored g.1.score ≡ false)

-- The ids and the tests.
abbrev pub SameTests : Groups → Groups → Type 0
SameTests [] [] = Unit
SameTests [] (h ∷ hs) = ⊥
SameTests (g ∷ gs) [] = ⊥
SameTests (g ∷ gs) (h ∷ hs) = (g.0 ≡ h.0) × (g.1.tests ≡ h.1.tests) × SameTests gs hs

-- What is given away: all, where a group is there to take it.
abbrev pub given : ℕ → ℕ → ℕ
given left zero = 0
given left (suc n) = left

pub record Distributed (left n : ℕ) (groups : Groups) : Type 0 where
  pub result : Groups
  pub succeeds : distribute left n groups ≡ some result
  pub all_scored : AllScored result
  pub same : SameTests groups result
  pub sum : total result ≡ total groups + given left n

keep_scored :
    (left n : ℕ) (gid : Bytes) (group : TestsGroup) (groups : Groups) (s : ℤ)
    → group.score ≡ some s
    → Distributed left n groups
    → Distributed left n ((gid, group) ∷ groups)
unfolding distribute
keep_scored left n gid group groups s e d = record {
  result = (gid, group) ∷ d.result;
  succeeds = let rest = d.succeeds in ground arith;
  all_scored = (rw e, d.all_scored);
  same = (refl, refl, d.same);
  sum = omega (arith, d.sum);
}

share_sum : (left n : ℕ) → left / suc n + given (left - left / suc n) n ≡ left
share_sum left zero = omega arith
share_sum left (suc n) = omega (arith, div-le_self left (suc (suc n)))

give_share :
    (left n : ℕ) (gid : Bytes) (group : TestsGroup) (groups : Groups)
    → group.score ≡ none
    → Distributed (left - left / suc n) n groups
    → Distributed left (suc n) ((gid, group) ∷ groups)
unfolding distribute
give_share left n gid group groups e d = record {
  result = (gid, record group { score = some (pos (left / suc n)) }) ∷ d.result;
  succeeds = rw (e, distribute) (rw d.succeeds);
  all_scored = (refl, d.all_scored);
  same = (refl, refl, d.same);
  sum = rw e (omega (arith, d.sum, share_sum left n));
}

distribute-Distributed :
    (left n : ℕ) (groups : Groups) → unscored_tests groups ≡ n → Distributed left n groups
unfolding unscored_tests
distribute-Distributed left n [] e = record {
  result = [];
  succeeds = unfold distribute in refl;
  all_scored = tt;
  same = tt;
  sum = rw (sym e) refl;
}
distribute-Distributed left n ((gid, group) ∷ groups) e = elim (Option-cases group.score) [
  | inr (s, is) ↦
      keep_scored left n gid group groups s is
        (distribute-Distributed left n groups (rw (is, unscored_tests) at e))
  | inl missing ↦
      let more : suc (unscored_tests groups) ≡ n = rw (missing, unscored_tests) at e in
      let others =
        distribute-Distributed (left - left / suc (unscored_tests groups)) _ groups refl in
      rw (sym more) (give_share left (unscored_tests groups) gid group groups missing others)
]

max_score-total : (groups : Groups) → total groups < 2 ^ 64 → max_score groups ≡ total groups
unfolding max_score
max_score-total [] h = refl
max_score-total ((gid, group) ∷ groups) h =
    let rest = max_score-total groups (omega arith) in rw rest (mod-eq_of_lt h)

SameTests-refl : (groups : Groups) → SameTests groups groups
SameTests-refl [] = tt
SameTests-refl (g ∷ groups) = (refl, refl, SameTests-refl groups)

none_unscored : (groups : Groups) → unscored_tests groups ≡ 0 → AllScored groups
unfolding unscored_tests
none_unscored [] e = tt
none_unscored ((gid, group) ∷ groups) e = elim (Bool-cases (is_unscored group.score)) [
  | inl missing ↦ absurd (omega (arith, rw (missing, unscored_tests) at e))
  | inr there ↦ (there, none_unscored groups (rw (there, unscored_tests) at e))
]

-- The groups that are left to share the points, after the group 0 was given none.
abbrev pub sharing : Groups → ℕ
sharing groups = if zero_unscored groups then unscored_tests groups - 1 else unscored_tests groups

abbrev pub to_share : Groups → ℕ
to_share groups = if ltb 100 (max_score groups) then 0 else 100 - max_score groups

same_zero :
    (gid : Bytes) (group : TestsGroup) (groups : Groups) (score' : Option ℤ) (result : Groups)
    → SameTests ((gid, record group { score = score' }) ∷ groups) result
    → SameTests ((gid, group) ∷ groups) result
same_zero gid group groups score' [] s = s
same_zero gid group groups score' (h ∷ hs) s = s

group_zero :
    (groups : Groups)
    → zero_unscored groups ≡ true
    → (total (with_group_zero groups) ≡ total groups)
      × (unscored_tests (with_group_zero groups) ≡ unscored_tests groups - 1)
      × ((result : Groups) → SameTests (with_group_zero groups) result → SameTests groups result)
unfolding unscored_tests
group_zero [] h = cc
group_zero ((gid, group) ∷ groups) h =
    let missing : is_unscored group.score ≡ true = (&&-true _ _ h).1 in
    elim (Option-cases group.score) [
      | inl e ↦ (rw e refl, rw missing (omega arith), same_zero gid group groups (some (pos 0)))
      | inr (s, e) ↦ absurd (false≢true (rw e at missing))
    ]

-- What the scores come to.
abbrev pub shared_total : ℕ → ℕ → ℕ
shared_total zero sum = sum
shared_total (suc n) sum = max 100 sum

given-total :
    (groups : Groups) (n : ℕ)
    → total groups < 2 ^ 64
    → total groups + given (to_share groups) n ≡ shared_total n (total groups)
given-total groups zero h = omega arith
given-total groups (suc n) h = rw (max_score-total groups h) (ground arith)

-- If the positive scores of a package fit in 64 bits, scoring succeeds without a division by zero:
-- every group has a score afterwards and keeps its id and its tests, and if some group was left to
-- share the points, the positive scores come to 100 in all, or stay what they were where that is more.
pub scored-shared_total :
    (groups : Groups)
    → total groups < 2 ^ 64
    → (result : Groups) × (scored groups ≡ some result)
      × AllScored result
      × SameTests groups result
      × (total result ≡ shared_total (sharing groups) (total groups))
unfolding scored
scored-shared_total groups h = elim (Bool-cases (not (ltb 0 (unscored_tests groups)))) [
  | inl all ↦
      let none_left : unscored_tests groups ≡ 0 = ground arith in
      let none_sharing : sharing groups ≡ 0 = ground arith in
      (
        groups,
        rw (all, scored) refl,
        none_unscored groups none_left,
        SameTests-refl groups,
        rw none_sharing refl,
      )
  | inr some_of ↦ elim (Bool-cases (zero_unscored groups)) [
    | inl zero_first ↦
        let (sum, count, same) = group_zero groups zero_first in
        let d =
          distribute-Distributed (to_share groups) (unscored_tests groups - 1)
            (with_group_zero groups) count in
        (
          d.result,
          rw (some_of, zero_first, scored) d.succeeds,
          d.all_scored,
          same d.result d.same,
          rw zero_first (
              d.sum
              ∙ ap (λ x. x + given (to_share groups) (unscored_tests groups - 1)) sum
              ∙ given-total groups (unscored_tests groups - 1) h),
        )
    | inr other ↦
        let d = distribute-Distributed (to_share groups) (unscored_tests groups) groups refl in
        (
          d.result,
          rw (some_of, other, scored) d.succeeds,
          d.all_scored,
          d.same,
          rw other (d.sum ∙ given-total groups (unscored_tests groups) h),
        )
  ]
]
