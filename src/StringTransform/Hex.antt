-- ===== src/StringTransform/Hex.antt =====
-- The hexadecimal digits of include/simlib/string_transform.hh, written and read.
use simlib.Common.{
  ℕ, ◌≤◌, ◌*◌, ◌/◌, ◌%◌, ◌≡◌, refl, true, arith, IsByte, Bytes, All, [], ◌∷◌, length,
}
use simlib.Ctype.{is_xdigit}
use simlib.StringTransform.{hex2dec, dec2hex, dec2_hex, to_hex, hex_byte}

-- The digits of both cases are hexadecimal digits, and `hex2dec` is the inverse of both tables.
pub hex2dec-dec2hex :
    (x : ℕ)
    → x ≤ 15
    → (hex2dec (dec2hex x) ≡ x)
      × (hex2dec (dec2_hex x) ≡ x)
      × (is_xdigit (dec2hex x) ≡ true)
      × (is_xdigit (dec2_hex x) ≡ true)
unfolding hex2dec dec2hex dec2_hex is_xdigit
hex2dec-dec2hex x h = (ground arith, ground arith, ground arith, ground arith)

-- A digit that is read is at most 15.
pub hex2dec-le : (c : ℕ) → is_xdigit c ≡ true → hex2dec c ≤ 15
unfolding hex2dec is_xdigit
hex2dec-le c h = ground arith

pub hex_byte-dec2_hex : (c : ℕ) → IsByte c → hex_byte (dec2_hex (c / 16)) (dec2_hex (c % 16)) ≡ c
hex_byte-dec2_hex c h =
    omega (
      arith,
      (hex2dec-dec2hex (c / 16) (omega arith)).1,
      (hex2dec-dec2hex (c % 16) (omega arith)).1,
    )

pub hex_byte-dec2hex : (c : ℕ) → IsByte c → hex_byte (dec2hex (c / 16)) (dec2hex (c % 16)) ≡ c
hex_byte-dec2hex c h =
    omega (
      arith,
      (hex2dec-dec2hex (c / 16) (omega arith)).0,
      (hex2dec-dec2hex (c % 16) (omega arith)).0,
    )

-- Pairs of digits, read back.
abbrev pub from_hex : Bytes → Bytes
from_hex (a ∷ b ∷ s) = hex_byte a b ∷ from_hex s
from_hex _ = []

-- For a string of bytes, to_hex writes two digits for each byte, and a reader that takes the digits
-- in pairs with hex2dec gets the string back.
pub to_hex-from_hex :
    (s : Bytes) → All IsByte s → (from_hex (to_hex s) ≡ s) × (length (to_hex s) ≡ 2 * length s)
unfolding to_hex
to_hex-from_hex [] h = (refl, refl)
to_hex-from_hex (c ∷ s) h =
    let (ih, l) = to_hex-from_hex s h.1 in (ground (arith, hex_byte-dec2hex c h.0), omega arith)
