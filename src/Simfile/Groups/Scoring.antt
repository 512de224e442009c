-- ===== src/Simfile/Groups/Scoring.antt =====
-- The automatic scoring of load_tests in src/sim/simfile.cc: how many points it gives.
use native.Mathlib.Nat.{div-le_self}
use simlib.Common.{
  ℕ, zero, suc, ◌+◌, ◌-◌, ◌/◌, ◌<◌, ◌≡◌, refl, sym, ◌∙◌, ap, true, false, List, [], ◌∷◌, Bytes,
  codes, arith, Bool-cases, inl, inr, if◌then◌else◌,
}
use simlib.StringView.Text.{str_eq}
use simlib.Number.{ℤ, pos, negsuc}
use simlib.Simfile.{loaded, throws, division_by_zero}
use simlib.Simfile.Groups.{Test, TestGroup, TestsGroups, auto_scores, groups_no, load_scoring}
use simlib.ConfigFile.{Vars, get_var}

-- The groups that are scored, their points, and the tests of all.
abbrev pub counted : TestsGroups → ℕ
counted [] = 0
counted ((gid, group) ∷ groups) = (if str_eq gid (codes "0") then 0 else 1) + counted groups

abbrev pub points : ℤ → ℕ
points (pos n) = n
points (negsuc n) = 0

abbrev pub paid : TestsGroups → ℕ
paid [] = 0
paid ((gid, group) ∷ groups) =
    (if str_eq gid (codes "0") then 0 else points group.score) + paid groups

-- The groups by their ids and their tests, without the scores.
abbrev pub unscored : TestsGroups → List (Bytes × List Test)
unscored [] = []
unscored ((gid, group) ∷ groups) = (gid, group.tests) ∷ unscored groups

-- The points to be given: none if there is no group to take them.
abbrev pub to_pay : ℕ → ℕ → ℕ
to_pay total zero = 0
to_pay total (suc n) = total

pub record Scored (total n : ℕ) (groups : TestsGroups) : Type 0 where
  pub result : TestsGroups
  pub succeeds : auto_scores total n groups ≡ loaded result
  pub all_paid : paid result ≡ to_pay total n
  pub same : unscored result ≡ unscored groups

split_points :
    (total n rest : ℕ) → rest ≡ to_pay (total - total / suc n) n → total / suc n + rest ≡ total
split_points total zero rest e = omega arith
split_points total (suc n) rest e = omega (arith, div-le_self total (suc (suc n)))

-- A group that is passed over, and one that is given its points.
pass_over :
    (total n : ℕ) (gid : Bytes) (group : TestGroup) (groups : TestsGroups)
    → str_eq gid (codes "0") ≡ true
    → Scored total n groups
    → Scored total n ((gid, group) ∷ groups)
unfolding auto_scores
pass_over total n gid group groups e h = record {
  result = (gid, group) ∷ h.result;
  succeeds = rw (e, auto_scores) (rw h.succeeds);
  all_paid = let z : 0 + paid h.result ≡ paid h.result = omega arith in rw e (z ∙ h.all_paid);
  same = ap (◌∷◌ (gid, group.tests)) h.same;
}

give :
    (total n : ℕ) (gid : Bytes) (group : TestGroup) (groups : TestsGroups)
    → str_eq gid (codes "0") ≡ false
    → Scored (total - total / suc n) n groups
    → Scored total (suc n) ((gid, group) ∷ groups)
unfolding auto_scores
give total n gid group groups e h = record {
  result = (gid, record group { score = pos (total / suc n) }) ∷ h.result;
  succeeds = rw (e, auto_scores) (rw h.succeeds);
  all_paid = rw e (split_points total n (paid h.result) h.all_paid);
  same = ap (◌∷◌ (gid, group.tests)) h.same;
}

auto_scores-Scored :
    (total n : ℕ) (groups : TestsGroups) → counted groups ≡ n → Scored total n groups
auto_scores-Scored total n [] e = record {
  result = [];
  succeeds = unfold auto_scores in refl;
  all_paid = rw (sym e);
  same = refl;
}
auto_scores-Scored total zero ((gid, group) ∷ groups) e =
    elim (Bool-cases (str_eq gid (codes "0"))) [
      | inl zero_group ↦
          pass_over total zero gid group groups zero_group
            (auto_scores-Scored total zero groups (omega (arith, rw zero_group at e)))
      | inr other ↦ absurd (omega (arith, rw other at e))
    ]
auto_scores-Scored total (suc n) ((gid, group) ∷ groups) e =
    elim (Bool-cases (str_eq gid (codes "0"))) [
      | inl zero_group ↦
          pass_over total (suc n) gid group groups zero_group
            (auto_scores-Scored total (suc n) groups (omega (arith, rw zero_group at e)))
      | inr other ↦
          give total n gid group groups other
            (auto_scores-Scored (total - total / suc n) n groups (omega (arith, rw other at e)))
    ]

-- One group too many.
auto_scores-zero :
    (total n : ℕ) (groups : TestsGroups)
    → n < counted groups
    → auto_scores total n groups ≡ throws division_by_zero
unfolding auto_scores
auto_scores-zero total n [] lt = absurd (omega arith)
auto_scores-zero total zero ((gid, group) ∷ groups) lt =
    elim (Bool-cases (str_eq gid (codes "0"))) [
      | inl zero_group ↦
          rw (zero_group, auto_scores)
            (rw (auto_scores-zero total zero groups (omega (arith, rw zero_group at lt))))
      | inr other ↦ rw (other, auto_scores) refl
    ]
auto_scores-zero total (suc n) ((gid, group) ∷ groups) lt =
    elim (Bool-cases (str_eq gid (codes "0"))) [
      | inl zero_group ↦
          rw (zero_group, auto_scores)
            (rw (auto_scores-zero total (suc n) groups (omega (arith, rw zero_group at lt))))
      | inr other ↦
          rw (other, auto_scores)
            (rw (auto_scores-zero (total - total / suc n) n groups (omega (arith, rw other at lt))))
    ]

-- Where `scoring` is not set in the config: if the groups that are not spelled `0` are as many as the
-- code counts, load_scoring gives them 100 points in all, none where there is no such group, and keeps
-- every group with its id and its tests; if they are more, because the group of the number 0 is spelled otherwise, it divides by
-- zero.
pub load_scoring-auto :
    (config : Vars) (groups : TestsGroups)
    → (get_var config (codes "scoring")).set ≡ false
    → (counted groups ≡ groups_no groups
        → (result : TestsGroups) × (load_scoring config groups ≡ loaded result)
          × (paid result ≡ to_pay 100 (groups_no groups))
          × (unscored result ≡ unscored groups))
      × (groups_no groups < counted groups → load_scoring config groups ≡ throws division_by_zero)
unfolding load_scoring
load_scoring-auto config groups unset =
    let h = auto_scores-Scored 100 (groups_no groups) groups in
    (
      λ e. ((h e).result, automatic ∙ (h e).succeeds, (h e).all_paid, (h e).same),
      λ lt. automatic ∙ auto_scores-zero 100 (groups_no groups) groups lt,
    )
  where
    automatic : load_scoring config groups ≡ auto_scores 100 (groups_no groups) groups
    automatic = elim (Bool-cases (get_var config (codes "scoring")).array) [
      | inl e ↦ rw (e, unset)
      | inr e ↦ rw (e, unset)
    ]
