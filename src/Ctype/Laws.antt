-- ===== src/Ctype/Laws.antt =====
-- The character classes of include/simlib/ctype.hh against one another.
use simlib.Common.{ℕ, ◌≡◌, ◌&&◌, ◌||◌, not, arith, leb, IsByte, Bool}
use simlib.Ctype.{
  is_digit, is_alpha, is_alnum, is_cntrl, is_blank, is_graph, is_print, is_punct, is_lower,
  is_upper, to_lower, to_upper,
}

-- For every code `c`: it is printable exactly where it is at most 0x7f and no control character;
-- graphic exactly where it is printable and not blank; graphic exactly where it is alphanumeric or
-- punctuation; and no code is both of those, since none is both a letter and a digit.
pub ctype_partition :
    (c : ℕ)
    → (is_print c ≡ (leb c 0x7f && not (is_cntrl c)))
      × (is_graph c ≡ (is_print c && not (is_blank c)))
      × (is_graph c ≡ (is_alnum c || is_punct c))
      × ((is_alnum c && is_punct c) ≡ (is_alpha c && is_digit c))
unfolding is_digit is_alnum is_alpha is_cntrl is_blank is_graph is_print is_punct
ctype_partition c = (ground arith, ground arith, ground arith, ground arith)

-- For a byte, to_lower and to_upper give a byte, each is idempotent, and what to_lower gives is no
-- upper-case letter and what to_upper gives no lower-case letter.
pub case_lem :
    (c : ℕ)
    → IsByte c
    → IsByte (to_lower c)
      × IsByte (to_upper c)
      × (to_lower (to_lower c) ≡ to_lower c)
      × (to_upper (to_upper c) ≡ to_upper c)
      × (is_upper (to_lower c) ≡ Bool.false)
      × (is_lower (to_upper c) ≡ Bool.false)
unfolding to_lower to_upper is_upper is_lower
case_lem c h = (ground arith, ground arith, ground arith, ground arith, ground arith, ground arith)
