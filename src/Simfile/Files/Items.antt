-- ===== src/Simfile/Files/Items.antt =====
-- parse_scoring_item and parse_test_files_item of src/sim/simfile.cc on the items that dump writes.
use simlib.Common.{
  ℕ, suc, ◌-◌, ◌^◌, ◌≡◌, ◌≢◌, refl, ap, true, false, [], ◌∷◌, ◌++◌, Bytes, arith, all_of, reverse,
  &&-true,
}
use mathlib.Core.List.{reverse-append}
use simlib.Ctype.{is_space, is_digit}
use simlib.StringView.Text.{remove_leading}
use simlib.StringTraits.{is_digit_str}
use simlib.Number.{ℤ, pos, negsuc, to_string, to_string_signed, digits_loop}
use simlib.Number.Print.{to_string-value}
use simlib.Number.Parse.{InRange, str2num_signed-to_string}
use simlib.SimpleParser.{extract_next_non_empty}
use simlib.SimpleParser.Fields.{IsField, extract_next_non_empty-field}
use simlib.Simfile.{loaded, parse_scoring_item, parse_test_files_item}
use simlib.Simfile.Files.{scoring_item}

space-is_space : is_space b' ' ≡ true
unfolding is_space
space-is_space = refl

digit-no_space : (c : ℕ) → is_digit c ≡ true → is_space c ≡ false
unfolding is_digit is_space
digit-no_space c h = ground arith

stays : (c : ℕ) (t : Bytes) → is_space c ≡ false → remove_leading is_space (c ∷ t) ≡ c ∷ t
unfolding remove_leading
stays c t h = rw h

digits_stay : (s : Bytes) → all_of is_digit s ≡ true → remove_leading is_space s ≡ s
unfolding remove_leading
digits_stay [] h = refl
digits_stay (c ∷ s) h = stays c s (digit-no_space c (&&-true (is_digit c) (all_of is_digit s) h).0)

number_stays : (z : ℤ) → remove_leading is_space (to_string_signed z) ≡ to_string_signed z
unfolding to_string_signed
number_stays (pos n) = digits_stay (to_string n) (to_string-value n).1
number_stays (negsuc n) =
    rw (reverse-append (digits_loop (suc n) (suc n)) (b'-' ∷ []))
      (stays b'-' (reverse (digits_loop (suc n) (suc n))) (unfold is_space in refl))

digits-IsField : (s : Bytes) → all_of is_digit s ≡ true → IsField is_space s
digits-IsField [] h = refl
digits-IsField (c ∷ s) h =
    let both = &&-true (is_digit c) (all_of is_digit s) h in
    rw (digit-no_space c both.0) (digits-IsField s both.1)

-- A field behind others, and one at the end.
field_then :
    (s rest : Bytes)
    → s ≢ []
    → IsField is_space s
    → extract_next_non_empty is_space (s ++ b' ' ∷ rest) ≡ (s, rest)
field_then [] rest ne h = absurd (ne refl)
field_then (c ∷ s) rest ne h =
    (extract_next_non_empty-field is_space [] c s b' ' rest refl h space-is_space).0

field_last : (s : Bytes) → s ≢ [] → IsField is_space s → extract_next_non_empty is_space s ≡ (s, [])
field_last [] ne h = absurd (ne refl)
field_last (c ∷ s) ne h =
    (extract_next_non_empty-field is_space [] c s b' ' [] refl h space-is_space).1

field_none : extract_next_non_empty is_space [] ≡ ([], [])
field_none =
    (extract_next_non_empty-field is_space [] b'a' [] b' ' [] refl (unfold is_space in refl)
      space-is_space).2

-- For a group id of one or more digits and a score of the type int64_t, parse_scoring_item reads back
-- the item that append_scoring_value writes.
pub parse_scoring_item-scoring_item :
    (gid : Bytes) (score : ℤ)
    → gid ≢ []
    → all_of is_digit gid ≡ true
    → InRange (2 ^ 63 - 1) score
    → parse_scoring_item (scoring_item gid score) ≡ loaded (gid, score)
unfolding parse_scoring_item
parse_scoring_item-scoring_item gid score ne digits range =
    rw
      (
        field_then gid (to_string_signed score) ne (digits-IsField gid digits),
        digit_str gid ne digits,
        number_stays score,
        str2num_signed-to_string (2 ^ 63 - 1) score (omega arith) range,
      )
      (ap (λ r. loaded (r.0, score))
        (field_then gid (to_string_signed score) ne (digits-IsField gid digits)))
  where
    digit_str : (gid : Bytes) → gid ≢ [] → all_of is_digit gid ≡ true → is_digit_str gid ≡ true
    digit_str [] ne h = absurd (ne refl)
    digit_str (c ∷ s) ne h = unfold is_digit_str in h

-- For nonempty texts without white space, parse_test_files_item reads back a test's name, input file
-- and output file, and its name and input file where there is no output file.
pub parse_test_files_item-files :
    (name input output : Bytes)
    → (name ≢ []) × IsField is_space name
    → (input ≢ []) × IsField is_space input
    → (output ≢ []) × IsField is_space output
    → (parse_test_files_item (name ++ b' ' ∷ (input ++ b' ' ∷ output))
        ≡ loaded (name, input, output))
      × (parse_test_files_item (name ++ b' ' ∷ input) ≡ loaded (name, input, []))
unfolding parse_test_files_item
parse_test_files_item-files name input output n i o = (
  rw
      (
        field_then name (input ++ b' ' ∷ output) n.0 n.1,
        field_then input output i.0 i.1,
        field_last output o.0 o.1,
      )
      (unfold remove_leading in refl),
  rw (field_then name input n.0 n.1, field_last input i.0 i.1, field_none)
      (unfold remove_leading in refl),
)
