-- ===== src/Checker/Verdicts.antt =====
-- How exit_to_checker_status of src/sim/judge_worker.cc reads a checker's output.
use simlib.Common.{
  none, suc, ◌+◌, ◌-◌, ◌≡◌, ◌≢◌, refl, sym, ◌∙◌, ap, subst, Bool, true, false, not, [], ◌∷◌, ◌++◌,
  Bytes, Option, some, codes, arith, ◌==◌, drop, length, length-append, append_assoc, Bool-cases,
  all_of, inl, inr, &&-true,
}
use simlib.StringView.Text.{str_eq}
use simlib.StringView.Order.{str_eq_iff}
use simlib.Checker.Percentage.{Percentage, accepts-Percentage}
use simlib.Checker.Obtained.{take-length_append}
use simlib.SimpleParser.{extract_next, next_pos}
use simlib.Checker.{
  wrong_second_line, ok, wrong, error, CheckerStatus, is_invalid_line2, with_ratio, verdict,
  output_to_checker_status, ExitStat, Options, exit_to_checker_status,
}

-- A line, of which no byte is a newline.
abbrev pub is_line : Bytes → Bool
is_line = all_of (λ c. not (c == 10))

next_pos-line :
    (line rest : Bytes)
    → is_line line ≡ true
    → next_pos (λ c. c == 10) (line ++ 10 ∷ rest) ≡ length line
unfolding next_pos
next_pos-line [] rest h = refl
next_pos-line (c ∷ line) rest h =
    let both = &&-true (not (c == 10)) (is_line line) h in
    let other : (c == 10) ≡ false = ground (arith, both.0) in
    rw (other) (ap suc (next_pos-line line rest both.1))

pair : {a a' b b' : Bytes} → a ≡ a' → b ≡ b' → ◌≡◌ {A = Bytes × Bytes} (a, b) (a', b')
pair e f = cc

drop-suc_append : (line rest : Bytes) → drop (suc (length line)) (line ++ 10 ∷ rest) ≡ rest
drop-suc_append [] rest = refl
drop-suc_append (c ∷ line) rest = drop-suc_append line rest

extract_next-line :
    (line rest : Bytes)
    → is_line line ≡ true
    → extract_next (λ c. c == 10) (line ++ 10 ∷ rest) ≡ (line, rest)
unfolding extract_next
extract_next-line line rest h =
    let behind : length line + 1 ≡ suc (length line) = omega arith in
    rw (next_pos-line line rest h, behind)
      (pair (take-length_append line (10 ∷ rest)) (drop-suc_append line rest))

drop-length_append : (s t : Bytes) → drop (length s) (s ++ t) ≡ t
drop-length_append [] t = refl
drop-length_append (c ∷ s) t = drop-length_append s t

-- What is left of the text behind its first lines.
comment_left : (s t : Bytes) → drop (length (s ++ t) - length t) (s ++ t) ≡ t
comment_left s t =
    let n : length (s ++ t) - length t ≡ length s = omega (arith, length-append s t) in
    rw n (drop-length_append s t)

module _ {ℓ} (Ratio : Type ℓ) (no_score full_score : Ratio)
    (strtod_percent : Bytes → Option Ratio) where
  abbrev is_invalid : Bytes → Bool
  is_invalid = is_invalid_line2 Ratio no_score full_score strtod_percent

  output_to_checker_status-verdict :
      (output_name line1 line2 comment : Bytes)
      → is_line line1 ≡ true
      → is_line line2 ≡ true
      → output_to_checker_status Ratio no_score full_score strtod_percent output_name
          (line1 ++ 10 ∷ (line2 ++ 10 ∷ comment))
        ≡ verdict Ratio no_score full_score strtod_percent output_name line1 line2 comment
  unfolding output_to_checker_status
  output_to_checker_status-verdict output_name line1 line2 comment h1 h2 =
      let chout = line1 ++ 10 ∷ (line2 ++ 10 ∷ comment) in
      let judge = verdict Ratio no_score full_score strtod_percent output_name in
      let second : Bytes × Bytes → CheckerStatus Ratio = λ q.
        judge q.0 (extract_next (λ c. c == 10) q.1).0
          (drop (length chout - length (extract_next (λ c. c == 10) q.1).1) chout) in
      let third : Bytes × Bytes → CheckerStatus Ratio =
        λ r. judge line1 r.0 (drop (length chout - length r.1) chout) in
      let one_text : (line1 ++ 10 ∷ (line2 ++ 10 ∷ [])) ++ comment ≡ chout =
        append_assoc line1 (10 ∷ (line2 ++ 10 ∷ [])) comment
        ∙ ap (λ t. line1 ++ 10 ∷ t) (append_assoc line2 (10 ∷ []) comment) in
      ap second (extract_next-line line1 (line2 ++ 10 ∷ comment) h1)
      ∙ ap third (extract_next-line line2 comment h2)
      ∙ ap (judge line1 line2) (
          subst (λ t. drop (length t - length comment) t ≡ comment) one_text
            (comment_left (line1 ++ 10 ∷ (line2 ++ 10 ∷ [])) comment))

  -- What is made of the first two lines of an output, and of the comment behind them.
  abbrev pub ReadsLines : Bytes → Bytes → Bytes → CheckerStatus Ratio → Type ℓ
  ReadsLines line1 line2 comment result =
      (line1 ≡ codes "WRONG"
        → result ≡ record { status = wrong; ratio = no_score; message = comment })
      × (line1 ≡ codes "OK"
          → (line2 ≡ [] → result ≡ record { status = ok; ratio = full_score; message = comment })
            × (line2 ≢ []
                → (Percentage line2 → ⊥)
                → (result.status ≡ error) × (result.ratio ≡ no_score))
            × ((ratio : Ratio)
                → Percentage line2
                → strtod_percent line2 ≡ some ratio
                → result ≡ record { status = ok; ratio = ratio; message = comment })
            × (Percentage line2
                → strtod_percent line2 ≡ none
                → (result.status ≡ error) × (result.ratio ≡ no_score)))
      × (line1 ≢ codes "OK"
          → line1 ≢ codes "WRONG"
          → (result.status ≡ error) × (result.ratio ≡ no_score))

  Percentage-nonempty : (s : Bytes) → Percentage s → s ≢ []
  Percentage-nonempty s (inl digits) = digits.0
  Percentage-nonempty s (inr ([], part, shape, front, rest)) = absurd (front.0 refl)
  Percentage-nonempty s (inr (c ∷ whole, part, shape, front, rest)) = λ e. cc

  -- The test of the second line.
  valid : (line2 : Bytes) → Percentage line2 → is_invalid line2 ≡ false
  valid [] p = absurd (Percentage-nonempty [] p refl)
  valid (c ∷ s) p = (accepts-Percentage c s).1 p

  invalid : (line2 : Bytes) → line2 ≢ [] → (Percentage line2 → ⊥) → is_invalid line2 ≡ true
  invalid [] ne h = absurd (ne refl)
  invalid (c ∷ s) ne h = elim (Bool-cases (is_invalid (c ∷ s))) [
    | inl bad ↦ bad
    | inr fine ↦ absurd (h ((accepts-Percentage c s).0 fine))
  ]

  with_ratio-strtod :
      (output_name line2 comment : Bytes) (read : Option Ratio)
      → line2 ≢ []
      → strtod_percent line2 ≡ read
      → with_ratio Ratio no_score full_score strtod_percent output_name line2 comment ≡ elim read [
        | none ↦ wrong_second_line Ratio no_score full_score strtod_percent output_name line2
        | some ratio ↦ record { status = ok; ratio = ratio; message = comment }
      ]
  with_ratio-strtod output_name [] comment read ne e = absurd (ne refl)
  with_ratio-strtod output_name (c ∷ s) comment read ne e = rw e refl

  str_eq-false : (s t : Bytes) → s ≢ t → str_eq s t ≡ false
  str_eq-false s t ne = elim (Bool-cases (str_eq s t)) [
    | inl same ↦ absurd (ne ((str_eq_iff s t).0 same))
    | inr other ↦ other
  ]

  verdict-ReadsLines :
      (output_name line1 line2 comment : Bytes)
      → ReadsLines line1 line2 comment
          (verdict Ratio no_score full_score strtod_percent output_name line1 line2 comment)
  unfolding str_eq
  verdict-ReadsLines output_name line1 line2 comment = (
    λ is_wrong. elim (Bool-cases (is_invalid line2)) [
      | inl bad ↦ rw (is_wrong, bad) refl
      | inr fine ↦ rw (is_wrong, fine) refl
    ],
    λ is_ok. (
      λ empty. rw (is_ok, empty) refl,
      λ ne no_number. rw (is_ok, invalid line2 ne no_number) (refl, refl),
      λ ratio number e.
          rw (is_ok, valid line2 number)
            (with_ratio-strtod output_name line2 comment (some ratio)
              (Percentage-nonempty line2 number) e),
      λ number e.
          let read =
            with_ratio-strtod output_name line2 comment none (Percentage-nonempty line2 number) e in
          rw (is_ok, valid line2 number, read) (refl, refl),
    ),
    λ not_ok not_wrong. elim (Bool-cases (is_invalid line2)) [
      | inl bad ↦ rw (bad, str_eq-false line1 (codes "WRONG") not_wrong) (refl, refl)
      | inr fine ↦
          rw
            (
              fine,
              str_eq-false line1 (codes "OK") not_ok,
              str_eq-false line1 (codes "WRONG") not_wrong,
            )
            (refl, refl)
    ],
  )

  -- On an output whose first two lines are ended, a checker that exits with 0 is read as follows.
  -- "WRONG" gives WRONG with score 0 and the rest as the comment, whatever the second line is. "OK"
  -- with an empty second line gives OK with the full score and the rest as the comment; with digits,
  -- or digits on both sides of a point, it gives OK with the ratio that strtod reads and the comment,
  -- and an error if strtod reads none; any other second line, a negative number too, is an error. Any
  -- other first line is an error. An error has score 0.
  pub exit_to_checker_status-lines :
      (es : ExitStat) (opts : Options) (output_name line1 line2 comment : Bytes)
      → es.exited_with_0 ≡ true
      → is_line line1 ≡ true
      → is_line line2 ≡ true
      → ReadsLines line1 line2 comment (
          exit_to_checker_status Ratio no_score full_score strtod_percent es opts output_name
            (line1 ++ 10 ∷ (line2 ++ 10 ∷ comment)))
  unfolding exit_to_checker_status
  exit_to_checker_status-lines es opts output_name line1 line2 comment exited h1 h2 =
      let e = output_to_checker_status-verdict output_name line1 line2 comment h1 h2 in
      rw (exited) (
        subst (ReadsLines line1 line2 comment) (sym e)
          (verdict-ReadsLines output_name line1 line2 comment))
