-- ===== src/Simfile/Fields.antt =====
-- load_global_memory_limit_only of src/sim/simfile.cc, on its branches.
use simlib.Common.{
  ℕ, ◌-◌, ◌*◌, ◌^◌, ◌<◌, ◌≡◌, refl, sym, ◌∙◌, Bool, true, not, Bytes, Option, none, some, codes,
  arith, leb, ◌==◌, if◌then◌else◌, Bool-cases, inl, inr,
}
use simlib.StringTraits.{is_digit_str}
use simlib.StringCompare.{is_digit_not_greater_than}
use simlib.StringCompare.Num.{is_digit_bounds}
use simlib.Number.{str2num_unsigned}
use simlib.Number.Value.{value}
use simlib.Number.Parse.{str2num_unsigned-value}
use simlib.Simfile.{
  Result, loaded, throws, cannot_be_array, invalid_memory_limit, too_big_memory_limit,
  load_global_memory_limit_only, max_mebibytes, in_bytes,
}
use simlib.ConfigFile.{Vars, get_var}

-- A limit in mebibytes, if it is a number in range.
abbrev pub limit_of : Bytes → Result (Option ℕ)
limit_of s =
    if not (is_digit_str s)
    then throws invalid_memory_limit
    else if not (leb (value 0 s) (2 ^ 44 - 1))
    then throws too_big_memory_limit
    else if value 0 s == 0
    then throws invalid_memory_limit
    else loaded (some (value 0 s * 2 ^ 20))

in_bytes-limit :
    (s : Bytes)
    → is_digit_str s ≡ true
    → leb (value 0 s) (2 ^ 44 - 1) ≡ true
    → in_bytes (str2num_unsigned (2 ^ 64 - 1) s)
      ≡ (if value 0 s == 0 then throws invalid_memory_limit else loaded (some (value 0 s * 2 ^ 20)))
in_bytes-limit s digits small =
    rw (str2num_unsigned-value (2 ^ 64 - 1) s (omega arith), digits) (by_value (value 0 s) small)
  where
    by_value :
        (v : ℕ)
        → leb v (2 ^ 44 - 1) ≡ true
        → in_bytes (if leb v (2 ^ 64 - 1) then some v else none)
          ≡ (if v == 0 then throws invalid_memory_limit else loaded (some (v * 2 ^ 20)))
    by_value v small = ground arith

set_limit :
    (s : Bytes)
    → (if not (is_digit_not_greater_than max_mebibytes s)
        then (if not (is_digit_str s)
            then throws invalid_memory_limit
            else throws too_big_memory_limit)
        else in_bytes (str2num_unsigned (2 ^ 64 - 1) s))
      ≡ limit_of s
set_limit s = elim (Bool-cases (is_digit_str s)) [
  | inr e ↦ rw ((is_digit_bounds max_mebibytes s).0, e)
  | inl e ↦ elim (Bool-cases (leb (value 0 s) (2 ^ 44 - 1))) [
    | inr big ↦ rw ((is_digit_bounds max_mebibytes s).0, e, big)
    | inl small ↦ rw ((is_digit_bounds max_mebibytes s).0, e, small) (in_bytes-limit s e small)
  ]
]

limit_of-bound : (s : Bytes) (n : ℕ) → limit_of s ≡ loaded (some n) → n < 2 ^ 64
limit_of-bound s n e = by_value (is_digit_str s) (value 0 s) e
  where
    by_value :
        (digits : Bool) (v : ℕ)
        → (if not digits
            then throws invalid_memory_limit
            else if not (leb v (2 ^ 44 - 1))
            then throws too_big_memory_limit
            else if v == 0
            then throws invalid_memory_limit
            else loaded (some (v * 2 ^ 20)))
          ≡ loaded (some n)
        → n < 2 ^ 64
    by_value digits v e = ground arith

-- load_global_memory_limit_only, on every branch: an array is refused; a variable that is not set gives
-- no limit; otherwise the value must be one or more digits, at most 2 ^ 44 - 1 and not 0, and the limit
-- is that many mebibytes, which fits in 64 bits.
pub load_global_memory_limit_only-limit :
    (config : Vars)
    → let ml = get_var config (codes "memory_limit") in
      (load_global_memory_limit_only config ≡ (
        if ml.array
        then throws (cannot_be_array (codes "memory_limit"))
        else if ml.set
        then limit_of ml.str
        else loaded none))
      × ((n : ℕ) → load_global_memory_limit_only config ≡ loaded (some n) → n < 2 ^ 64)
unfolding load_global_memory_limit_only
load_global_memory_limit_only-limit config =
    let ml = get_var config (codes "memory_limit") in
    elim (Bool-cases ml.array) [
      | inl a ↦ rw a (refl, λ n e. ground arith)
      | inr a ↦ elim (Bool-cases ml.set) [
        | inl b ↦
            rw (a, b)
              (set_limit ml.str, λ n e. limit_of-bound ml.str n (sym (set_limit ml.str) ∙ e))
        | inr b ↦ rw (a, b) (refl, λ n e. ground arith)
      ]
    ]
