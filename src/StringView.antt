-- ===== src/StringView.antt =====
-- include/simlib/string_view.hh. A view is a pointer and a length into a buffer: `View`, with the
-- operations that move its ends. What only reads the viewed characters is a function of their
-- bytes: child module `Text`. `Refines` joins the two.
pub mod Text
pub mod Refines
pub mod Parts
pub mod Search
pub mod Order
pub mod Kmp
use simlib.Common.{
  ℕ, ◌+◌, ◌-◌, ◌<◌, ◌≤◌, Bytes, Option, none, some, ltb, if◌then◌else◌, ◌||◌, take, drop, length,
}
use Prim.Native.Nat.{min}

-- `str` counts from the start of the buffer that the view points into.
pub record View : Type 0 where
  pub str : ℕ
  pub len : ℕ

-- The characters that the view shows, where it lies in the buffer.
abbrev pub bytes : Bytes → View → Bytes
bytes buffer v = take v.len (drop v.str buffer)

abbrev pub InBuffer : Bytes → View → Type 0
InBuffer buffer v = v.str + v.len ≤ length buffer

-- `none` is std::out_of_range.
unfoldable pub substr_from : View → ℕ → Option View
substr_from v pos =
    if ltb v.len pos then none else some (record { str = v.str + pos; len = v.len - pos })

unfoldable pub substr : View → ℕ → ℕ → Option View
substr v pos count =
    if ltb v.len pos
    then none
    else some (record { str = v.str + pos; len = min count (v.len - pos) })

unfoldable pub substring : View → ℕ → ℕ → Option View
substring v beg endi =
    if ltb endi beg || ltb v.len beg
    then none
    else some (record { str = v.str + beg; len = min v.len endi - beg })

unfoldable pub remove_prefix : View → ℕ → View
remove_prefix v n =
    let n' = if ltb v.len n then v.len else n in record { str = v.str + n'; len = v.len - n' }

unfoldable pub remove_suffix : View → ℕ → View
remove_suffix v n = if ltb v.len n then record v { len = 0 } else record v { len = v.len - n }

-- The result, then the view that is left.
unfoldable pub extract_prefix : View → ℕ → View × View
extract_prefix v n =
    let n' = if ltb v.len n then v.len else n in
    (record { str = v.str; len = n' }, record { str = v.str + n'; len = v.len - n' })

-- Where `n` is greater than the length, the source assigns the length, not `n`.
unfoldable pub extract_suffix : View → ℕ → View × View
extract_suffix v n =
    let len' = if ltb v.len n then n else v.len in
    (record { str = v.str + (len' - n); len = n }, record { str = v.str; len = len' - n })
