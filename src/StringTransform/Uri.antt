-- ===== src/StringTransform/Uri.antt =====
-- encode_uri and decode_uri of include/simlib/string_transform.hh against one another.
use simlib.Common.{
  ℕ, ◌≤◌, ◌/◌, ◌%◌, ◌≡◌, ◌≢◌, refl, ◌∙◌, true, arith, IsByte, Bytes, All, [], ◌∷◌, all_of, ◌||◌,
  ◌==◌, Bool-cases, inl, inr, Bool, ◌&&◌,
}
use simlib.Ctype.{is_xdigit}
use simlib.StringTransform.{dec2_hex, is_safe, encode_uri, decode_uri, plain, hex_byte}
use simlib.StringTransform.Hex.{hex2dec-dec2hex, hex_byte-dec2_hex, hex2dec-le}

decode_uri-plain : (c : ℕ) (s : Bytes) → c ≢ b'%' → decode_uri (c ∷ s) ≡ plain c ∷ decode_uri s
unfolding decode_uri
decode_uri-plain c [] h = refl
decode_uri-plain c (a ∷ []) h = refl
decode_uri-plain c (a ∷ b ∷ s) h = ground arith

decode_uri-hex :
    (a b : ℕ) (s : Bytes)
    → is_xdigit a ≡ true
    → is_xdigit b ≡ true
    → decode_uri (b'%' ∷ a ∷ b ∷ s) ≡ hex_byte a b ∷ decode_uri s
unfolding decode_uri
decode_uri-hex a b s p q = ground arith

is_safe-plain : (c : ℕ) → is_safe c ≡ true → (c ≢ b'%') × (plain c ≡ c)
unfolding is_safe
is_safe-plain c h = ((λ e. ground arith), ground arith)

-- For a string of bytes, decode_uri gives back what encode_uri was given.
pub decode_uri-encode_uri : (s : Bytes) → All IsByte s → decode_uri (encode_uri s) ≡ s
unfolding encode_uri
decode_uri-encode_uri [] h = unfold decode_uri in refl
decode_uri-encode_uri (c ∷ s) h = elim (Bool-cases (is_safe c)) [
  | inl safe ↦ rw safe (
      let (ne, same) = is_safe-plain c safe in
      decode_uri-plain c (encode_uri s) ne ∙ rw (same, decode_uri-encode_uri s h.1))
  | inr other ↦ rw other (
      decode_uri-hex _ _ (encode_uri s) (hex2dec-dec2hex (c / 16) (omega (arith, h.0))).3
        (hex2dec-dec2hex (c % 16) (omega arith)).3
      ∙ rw (hex_byte-dec2_hex c h.0, decode_uri-encode_uri s h.1))
]

dec2_hex-is_safe : (x : ℕ) → x ≤ 15 → is_safe (dec2_hex x) ≡ true
unfolding is_safe dec2_hex
dec2_hex-is_safe x h = ground arith

abbrev is_encoded : ℕ → Bool
is_encoded c = is_safe c || c == b'%'

encode_uri-IsEncoded : (s : Bytes) → All IsByte s → all_of is_encoded (encode_uri s) ≡ true
unfolding encode_uri
encode_uri-IsEncoded [] h = refl
encode_uri-IsEncoded (c ∷ s) h = elim (Bool-cases (is_safe c)) [
  | inl safe ↦ rw (safe, safe) (encode_uri-IsEncoded s h.1)
  | inr other ↦ rw other (
      rw (
        dec2_hex-is_safe (c / 16) (omega (arith, h.0)),
        dec2_hex-is_safe (c % 16) (omega arith),
        encode_uri-IsEncoded s h.1,
      ))
]

hex_byte-IsByte : (a b : ℕ) → is_xdigit a ≡ true → is_xdigit b ≡ true → IsByte (hex_byte a b)
hex_byte-IsByte a b p q = omega (arith, hex2dec-le a p, hex2dec-le b q)

plain-IsByte : (c : ℕ) → IsByte c → IsByte (plain c)
plain-IsByte c h = ground arith

decode_uri-IsByte : (s : Bytes) → All IsByte s → All IsByte (decode_uri s)
unfolding decode_uri
decode_uri-IsByte [] h = tt
decode_uri-IsByte (c ∷ []) h = (plain-IsByte c h.0, tt)
decode_uri-IsByte (c ∷ a ∷ []) h = (plain-IsByte c h.0, (plain-IsByte a h.1.0, tt))
decode_uri-IsByte (c ∷ a ∷ b ∷ s) h =
    elim (Bool-cases (c == b'%' && (is_xdigit a && is_xdigit b))) [
      | inl escape ↦
          rw (escape, decode_uri, All)
            (hex_byte-IsByte a b (ground arith) (ground arith), decode_uri-IsByte s h.1.1.1)
      | inr other ↦
          rw (other, decode_uri, All) (plain-IsByte c h.0, decode_uri-IsByte (a ∷ b ∷ s) h.1)
    ]

-- For a string of bytes, encode_uri writes nothing but unreserved characters and `%`, and decode_uri
-- gives bytes.
pub encode_uri-safe :
    (s : Bytes)
    → All IsByte s
    → (all_of (λ c. is_safe c || c == b'%') (encode_uri s) ≡ true) × All IsByte (decode_uri s)
encode_uri-safe s h = (encode_uri-IsEncoded s h, decode_uri-IsByte s h)
