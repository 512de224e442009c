-- ===== src/StringTransform/Padding.antt =====
-- padded_string: how long the result is, and where the string stands in it.
use simlib.Common.{
  ℕ, ◌+◌, ◌-◌, ◌<◌, ◌≡◌, refl, sym, Bytes, ◌++◌, arith, length, replicate, length-append,
  length-replicate, Bool-cases, leb, inl, inr, false, leb→le, append-nil,
}
use Prim.Native.Nat.{max}
use simlib.StringTransform.{padded_string, Adjustment, left, right, padded}

length-padded :
    (adj : Adjustment) (str : Bytes) (n filler : ℕ)
    → length (padded adj str n filler) ≡ length str + n
length-padded left str n filler =
    omega (arith, length-append str (replicate n filler), length-replicate n filler)
length-padded right str n filler =
    omega (arith, length-append (replicate n filler) str, length-replicate n filler)

-- padded_string gives a string as long as the greater of `len` and the string's length: the string
-- with the missing fillers behind it for LEFT and before it for RIGHT.
pub padded_string-length :
    (str : Bytes) (len : ℕ) (adj : Adjustment) (filler : ℕ)
    → (length (padded_string str len adj filler) ≡ max len (length str))
      × (padded_string str len left filler ≡ str ++ replicate (len - length str) filler)
      × (padded_string str len right filler ≡ replicate (len - length str) filler ++ str)
unfolding padded_string
padded_string-length str len adj filler = elim (Bool-cases (leb len (length str))) [
  | inl long ↦
      let le = leb→le len (length str) long in
      let e : len - length str ≡ 0 = omega arith in
      rw (long, e) (omega arith, sym (append-nil str), refl)
  | inr short ↦
      rw short
        (omega (arith, length-padded adj str (len - length str) filler, gap short), refl, refl)
]
  where
    gap : leb len (length str) ≡ false → length str < len
    gap h = ground arith
