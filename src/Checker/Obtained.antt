-- ===== src/Checker/Obtained.antt =====
-- What obtain_checker_output of src/sim/checker.cc makes of a file.
use simlib.Common.{
  get_or, ℕ, zero, suc, ◌+◌, ◌-◌, ◌<◌, ◌≤◌, codes, leb, Bool-cases, ◌≡◌, ◌⊎◌, inl, inr, refl, sym,
  ◌∙◌, ap, subst, true, false, List, [], ◌∷◌, ◌++◌, Bytes, arith, ltb, if◌then◌else◌, take, length,
  length-append, append_assoc, append-nil,
}
use simlib.Ctype.{is_space}
use simlib.StringView.Text.{remove_trailing, extract_trailing}
use simlib.StringView.Search.{extract_trailing-cut}
use simlib.Checker.{
  Pread, bytes, end_of_file, interrupted, output, read_loop, cut_output, obtain_checker_output,
}

-- The calls of pread on a file of which `rest` is still to read into a buffer with `room`: each gives
-- some of the bytes that follow, or the end where none follow or no room is left, or is interrupted,
-- and the calls go on until the end or until the room is used.
pub data Reads : Bytes → ℕ → List Pread → Type 0 where
  at_end : (room : ℕ) (calls : List Pread) → Reads [] room (end_of_file ∷ calls)
  no_room : (rest : Bytes) (calls : List Pread) → Reads rest 0 (end_of_file ∷ calls)
  again :
      (rest : Bytes) (room : ℕ) (calls : List Pread)
      → Reads rest room calls
      → Reads rest room (interrupted ∷ calls)
  some_more :
      (b rest : Bytes) (room : ℕ) (calls : List Pread)
      → length b < room
      → Reads rest (room - length b) calls
      → Reads (b ++ rest) room (bytes b ∷ calls)
  last : (b rest : Bytes) (calls : List Pread) → Reads (b ++ rest) (length b) (bytes b ∷ calls)

-- What the code makes of a file, in one test of its length.
abbrev expected_output : ℕ → Bytes → Bytes
expected_output max_length file =
    if ltb (length file) max_length
    then remove_trailing is_space file
    else if ltb max_length 3
    then take max_length file
    else take (max_length - 3) file ++ codes "..."

-- The characters that isspace takes in the C locale.
abbrev pub IsWhite : ℕ → Type 0
IsWhite c = (c ≡ 32) ⊎ ((9 ≤ c) × (c ≤ 13))

-- `s` without the white space at its end.
abbrev pub IsTrimmed : Bytes → Bytes → Type 0
IsTrimmed s kept =
    ((white : Bytes) × (kept ++ white ≡ s))
    × ((j : ℕ) → length kept ≤ j → j < length s → IsWhite (get_or s j 0))
    × ((length kept ≡ 0) ⊎ ¬ IsWhite (get_or s (length kept - 1) 0))

-- What the output of a checker is to be.
abbrev pub IsOutput : ℕ → Bytes → Bytes → Type 0
IsOutput max_length file result =
    ((length file < max_length) × IsTrimmed file result)
    ⊎ ((max_length ≤ length file) × (max_length < 3) × (result ≡ take max_length file))
    ⊎ ((max_length ≤ length file)
        × (3 ≤ max_length)
        × (result ≡ take (max_length - 3) file ++ codes "..."))

is_space-IsWhite : (c : ℕ) → (is_space c ≡ true → IsWhite c) × (is_space c ≡ false → ¬ IsWhite c)
unfolding is_space
is_space-IsWhite c = (λ h. ground (arith, h), λ h w. ground (arith, h, w))

trimmed : (s : Bytes) → IsTrimmed s (remove_trailing is_space s)
trimmed s =
    let (parts, white, stop, e) = extract_trailing-cut is_space s in
    subst (IsTrimmed s) e (
      ((extract_trailing is_space s).0, parts),
      λ j le lt. (is_space-IsWhite (get_or s j 0)).0 (white j le lt),
      elim stop [ inl z ↦ inl z | inr h ↦ inr ((is_space-IsWhite _).1 h) ],
    )

expected_output-IsOutput :
    (max_length : ℕ) (file : Bytes) → IsOutput max_length file (expected_output max_length file)
expected_output-IsOutput m file = elim (Bool-cases (ltb (length file) m)) [
  | inl lt ↦ inl (ground arith, rw lt (trimmed file))
  | inr ge ↦ elim (Bool-cases (ltb m 3)) [
    | inl short ↦ inr (inl (ground arith, ground arith, rw (ge, short) refl))
    | inr long ↦ inr (inr (ground arith, ground arith, rw (ge, long) refl))
  ]
]

-- The first bytes of a buffer of the length of `res`, with and without the dots.
take-less_append : (n : ℕ) (s t : Bytes) → n ≤ length s → take n (s ++ t) ≡ take n s
take-less_append zero s t h = refl
take-less_append (suc n) [] t h = absurd (omega arith)
take-less_append (suc n) (c ∷ s) t h = ap (λ r. c ∷ r) (take-less_append n s t (omega arith))

pub take-length_append : (s t : Bytes) → take (length s) (s ++ t) ≡ s
take-length_append [] t = refl
take-length_append (c ∷ s) t = ap (λ r. c ∷ r) (take-length_append s t)

append-left : (s t : Bytes) → length (s ++ t) < length s → ⊥
append-left s t h = omega (arith, length-append s t)

expected-full :
    (res rest : Bytes) → expected_output (length res) (res ++ rest) ≡ cut_output (length res) res
expected-full res rest =
    let long : ltb (length (res ++ rest)) (length res) ≡ false =
      ground (arith, length-append res rest) in
    elim (Bool-cases (ltb (length res) 3)) [
      | inl short ↦
          let few : leb 3 (length res) ≡ false = ground arith in
          rw (long, short, few) (take-length_append res rest)
      | inr enough ↦
          let dots : leb 3 (length res) ≡ true = ground arith in
          rw (long, enough, dots)
            (ap (λ s. s ++ codes "...") (take-less_append (length res - 3) res rest (omega arith)))
    ]

nothing : (s : Bytes) → length s ≡ 0 → s ≡ []
nothing [] h = refl
nothing (c ∷ s) h = absurd (omega arith)

-- A buffer of no bytes stays empty.
no_buffer :
    (m : ℕ) (res rest : Bytes)
    → m ≡ 0
    → length res ≡ 0
    → (output (remove_trailing is_space res) ≡ output (expected_output m (res ++ rest)))
      × (output (cut_output m res) ≡ output (expected_output m (res ++ rest)))
unfolding remove_trailing
no_buffer m res rest z e =
    let empty = nothing res e in
    let short : ltb (length rest) 0 ≡ false = ground arith in rw (z, empty, short) (refl, refl)

read_loop-expected :
    (m : ℕ) (res rest : Bytes) (room : ℕ) (calls : List Pread)
    → Reads rest room calls
    → length res + room ≡ m
    → (0 < room) ⊎ (m ≡ 0)
    → read_loop m res calls ≡ output (expected_output m (res ++ rest))
unfolding read_loop
read_loop-expected m res _ room _ (at_end _ cs) h r = elim r [
  | inr z ↦ (no_buffer m res [] z (omega arith)).0
  | inl some_room ↦
      let short : ltb (length res) m ≡ true = ground arith in
      rw (append-nil res, short, read_loop) refl
]
read_loop-expected m res _ _ _ (no_room rest cs) h r = elim r [
  | inr z ↦ (no_buffer m res rest z (omega arith)).0
  | inl some_room ↦ absurd (omega arith)
]
read_loop-expected m res _ _ _ (again rest room cs d) h r = elim r [
  | inr z ↦
      let full : ltb (length res) m ≡ false = ground arith in
      rw (full, read_loop) (no_buffer m res rest z (omega arith)).1
  | inl some_room ↦
      let short : ltb (length res) m ≡ true = ground arith in
      rw (short, read_loop) (read_loop-expected m res rest room cs d h (inl some_room))
]
read_loop-expected m res _ _ _ (some_more b rest room cs lt d) h r =
    let len = length-append res b in
    let short : ltb (length (res ++ b)) m ≡ true = ground (arith, len) in
    rw (short, read_loop)
      (read_loop-expected m (res ++ b) rest (room - length b) cs d (omega (arith, len))
          (inl (omega arith))
        ∙ ap (λ file. output (expected_output m file)) (append_assoc res b rest))
read_loop-expected m res _ _ _ (last b rest cs) h r =
    let len = length-append res b in
    let at_m : length (res ++ b) ≡ m = omega (arith, len) in
    let full : ltb (length (res ++ b)) m ≡ false = ground arith in
    let file = ap (λ file. output (expected_output m file)) (append_assoc res b rest) in
    rw (full, read_loop)
      (subst
          (λ k. output (cut_output k (res ++ b)) ≡ output (expected_output k ((res ++ b) ++ rest)))
          at_m (ap output (sym (expected-full (res ++ b) rest)))
        ∙ file)

positive_or_zero : (n : ℕ) → (0 < n) ⊎ (n ≡ 0)
positive_or_zero zero = inr refl
positive_or_zero (suc n) = inl (omega arith)

-- However pread splits a file over its calls and is interrupted, obtain_checker_output gives the file
-- without white space at its end if it is shorter than `max_length`, and otherwise its first
-- `max_length` bytes, of which the last three are dots if there are three.
pub obtain_checker_output-expected :
    (max_length : ℕ) (file : Bytes) (calls : List Pread)
    → Reads file max_length calls
    → (result : Bytes) × (obtain_checker_output max_length calls ≡ output result)
      × IsOutput max_length file result
unfolding obtain_checker_output
obtain_checker_output-expected max_length file calls reads = (
  expected_output max_length file,
  read_loop-expected max_length [] file max_length calls reads (omega arith)
      (positive_or_zero max_length),
  expected_output-IsOutput max_length file,
)
