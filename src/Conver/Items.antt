-- ===== src/Conver/Items.antt =====
-- What an item of `tests_files` in src/sim/conver.cc gives, and cases that its proofs split on.
use simlib.Common.{◌≡◌, refl, sym, ◌∙◌, ap, true, not, [], ◌∷◌, Bytes, Bool-cases, inl, inr, ◌⊎◌}
use simlib.Ctype.{is_space}
use simlib.SimpleParser.{extract_next_non_empty, extract_next, next_pos}
use simlib.SimpleParser.Fields.{extract_next_non_empty-none}
use simlib.StringView.Text.{remove_leading}
use simlib.Path.{is_empty}
use simlib.Simfile.{Result, Error, excess_part, loaded, throws, parse_test_files_item}

pub Result-cases {ℓ} :
    {A : Type ℓ} (r : Result A) → ((e : Error) × (r ≡ throws e)) ⊎ ((a : A) × (r ≡ loaded a))
Result-cases (loaded a) = inr (a, refl)
Result-cases (throws e) = inl (e, refl)

is_empty-nil : (s : Bytes) → is_empty s ≡ true → s ≡ []
is_empty-nil [] h = refl
is_empty-nil (c ∷ s) h = cc

field_none : (extract_next_non_empty is_space []).0 ≡ []
unfolding extract_next_non_empty extract_next next_pos remove_leading
field_none = refl

-- An item without an input file has no output file either.
pub no_output :
    (str name input output : Bytes)
    → parse_test_files_item str ≡ loaded (name, input, output)
    → is_empty input ≡ true
    → is_empty output ≡ true
unfolding parse_test_files_item
no_output str name input output e h =
    let first = extract_next_non_empty is_space str in
    let second = extract_next_non_empty is_space first.1 in
    let third = extract_next_non_empty is_space second.1 in
    elim (Bool-cases (not (is_empty (remove_leading is_space third.1)))) [
      | inl excess ↦
          let wrong : ◌≡◌ {A = Result (Bytes × Bytes × Bytes)}
              (throws (excess_part first.0 (remove_leading is_space third.1)))
              (loaded (name, input, output)) =
            rw (excess, parse_test_files_item) at e in
          cc
      | inr whole ↦
          let same : ◌≡◌ {A = Result (Bytes × Bytes × Bytes)} (loaded (first.0, second.0, third.0))
              (loaded (name, input, output)) =
            rw (whole, parse_test_files_item) at e in
          let inputs : second.0 ≡ input = cc in
          let outputs : third.0 ≡ output = cc in
          let none_left =
            extract_next_non_empty-none is_space first.1 (inputs ∙ is_empty-nil input h) in
          let left : second.1 ≡ [] = ap (λ p. p.1) none_left in
          let last : third.0 ≡ [] =
            ap (λ t. (extract_next_non_empty is_space t).0) left ∙ field_none in
          rw (sym outputs ∙ last) refl
    ]
