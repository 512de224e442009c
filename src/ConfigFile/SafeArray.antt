-- ===== src/ConfigFile/SafeArray.antt =====
-- The loop over an array in load_config_from_string: its fuel and the bounds of its reads.
use simlib.Common.{
  ℕ, zero, suc, ◌<◌, ◌≤◌, ◌≡◌, refl, Bool, true, false, List, [], ◌∷◌, ◌++◌, Bytes, arith, length,
  Bool-cases, inl, inr, ◌==◌, ◌||◌,
}
use simlib.Ctype.{is_space}
use simlib.StringView.Text.{remove_leading}
use simlib.ConfigFile.Lines.{
  Lines, Lines-tail, Ended, Lines-Ended, Ended-tail, remove_leading-Ended, remove_leading-Lines,
  length-remove_leading,
}
use simlib.ConfigFile.Value.{Parsed, ok, err, fault, extract_value}
use simlib.ConfigFile.SafeValue.{extract_value-Progress, Progress}
use simlib.ConfigFile.Load.{
  is_ws, not_newline, skip_comment, ArrayTurn, again, ended, array_next, array_value, array_turn,
  array_loop,
}

-- Where a list of characters begins with one for which `f` fails, or is empty.
abbrev pub Head : (ℕ → Bool) → Bytes → Type 0
Head f [] = Unit
Head f (c ∷ s) = f c ≡ false

pub remove_leading-Head : (f : ℕ → Bool) (s : Bytes) → Head f (remove_leading f s)
unfolding remove_leading
remove_leading-Head f [] = tt
remove_leading-Head f (c ∷ s) = elim (Bool-cases (f c)) [
  | inl skip ↦ rw (skip, remove_leading) (remove_leading-Head f s)
  | inr stop ↦ rw (stop, remove_leading) stop
]

abbrev pub Safe {ℓ} : {A : Type ℓ} → ℕ → Parsed A → Type 0
Safe n (ok a rest) = Lines rest × (length rest ≤ n)
Safe n (err why rest) = Ended rest × (length rest ≤ n)
Safe n fault = ⊥

pub Safe-le {ℓ} : {A : Type ℓ} (m n : ℕ) (r : Parsed A) → m ≤ n → Safe m r → Safe n r
Safe-le m n (ok a rest) le h = (h.0, omega arith)
Safe-le m n (err why rest) le h = (h.0, omega arith)
Safe-le m n fault le h = absurd h

pub ws-newline : is_ws b'\n' ≡ false
ws-newline = unfold is_ws in refl

pub skip_comment-Lines :
    (c : ℕ) (s : Bytes)
    → c ≡ b'#'
    → Lines (c ∷ s)
    → Lines (skip_comment (c ∷ s)) × (length (skip_comment (c ∷ s)) ≤ length s)
skip_comment-Lines c s e h =
    let first : not_newline c ≡ true = ground arith in
    (
      remove_leading-Lines not_newline (c ∷ s) refl h,
      unfold remove_leading in rw first (length-remove_leading not_newline s),
    )

-- A turn that goes on has taken a character off.
abbrev TurnSafe : ℕ → ArrayTurn → Type 0
TurnSafe n (again arr rest) = Ended rest × (suc (length rest) ≤ n)
TurnSafe n (ended arr r) = Safe n r

array_next-TurnSafe :
    (arr : List Bytes) (s : Bytes) → Lines s → TurnSafe (length s) (array_next arr s)
unfolding array_next
array_next-TurnSafe arr [] h = absurd h
array_next-TurnSafe arr (d ∷ t) h = elim (Bool-cases (d == b',' || d == b'\n')) [
  | inl e ↦ rw (e, array_next) (Ended-tail d t h, omega arith)
  | inr e ↦ elim (Bool-cases (d == b'#')) [
    | inl c ↦
        rw (e, c, array_next)
          (let (l, le) = skip_comment-Lines d t (ground arith) h in (Lines-Ended _ l, omega arith))
    | inr c ↦ elim (Bool-cases (d == b']')) [
      | inl k ↦ rw (e, c, k, array_next) (Lines-tail d t h (λ nl. ground arith), omega arith)
      | inr k ↦ rw (e, c, k, array_next) (h, omega arith)
    ]
  ]
]

TurnSafe-le : (m n : ℕ) (t : ArrayTurn) → m ≤ n → TurnSafe m t → TurnSafe n t
TurnSafe-le m n (again arr rest) le h = (h.0, omega arith)
TurnSafe-le m n (ended arr r) le h = Safe-le m n r le h

array_value-TurnSafe :
    (arr : List Bytes) (n : ℕ) (r : Parsed Bytes)
    → Progress n r
    → TurnSafe (suc n) (array_value arr r)
array_value-TurnSafe arr n (ok v rest) h =
    TurnSafe-le (length (remove_leading is_ws rest)) (suc n)
      (array_next (arr ++ v ∷ []) (remove_leading is_ws rest))
      (omega (arith, length-remove_leading is_ws rest))
      (array_next-TurnSafe _ _ (remove_leading-Lines is_ws rest ws-newline h.0))
array_value-TurnSafe arr n (err why rest) h = (Lines-Ended rest h.0, h.1)
array_value-TurnSafe arr n fault h = absurd h

array_turn-TurnSafe :
    (arr : List Bytes) (s : Bytes)
    → Ended s
    → Head is_space s
    → TurnSafe (length s) (array_turn arr s)
unfolding array_turn
array_turn-TurnSafe arr [] h sp = (h, omega arith)
array_turn-TurnSafe arr (c ∷ s) h sp = elim (Bool-cases (c == b']')) [
  | inl e ↦ rw (e, array_turn) (Lines-tail c s h (λ nl. ground arith), omega arith)
  | inr e ↦ elim (Bool-cases (c == b'#')) [
    | inl k ↦
        rw (e, k, array_turn)
          (let (l, le) = skip_comment-Lines c s (ground arith) h in (Lines-Ended _ l, omega arith))
    | inr k ↦ elim (Bool-cases (c == b',')) [
      | inl d ↦ rw (e, k, d, array_turn) (Ended-tail c s h, omega arith)
      | inr d ↦
          rw (e, k, d, array_turn)
            (array_value-TurnSafe arr (length s) (extract_value true (c ∷ s))
              (extract_value-Progress true c s sp h))
    ]
  ]
]

-- The rest of the loop, given that the later turns are safe.
array_rest-Safe :
    (f n : ℕ) (t : ArrayTurn)
    → ((arr : List Bytes) (buff : Bytes)
        → length buff < f
        → Ended buff
        → Safe (length buff) (array_loop f arr buff).1)
    → n ≤ f
    → TurnSafe n t
    → Safe n
        (elim t as (λ _. List Bytes × Parsed (Unit {0})) [
          | again arr' rest ↦ array_loop f arr' rest
          | ended arr' r ↦ (arr', r)
        ]).1
array_rest-Safe f n (again arr rest) later le h =
    Safe-le (length rest) n _ (omega arith) (later arr rest (omega arith) h.0)
array_rest-Safe f n (ended arr r) later le h = h

pub array_loop-Safe :
    (f : ℕ) (arr : List Bytes) (buff : Bytes)
    → length buff < f
    → Ended buff
    → Safe (length buff) (array_loop f arr buff).1
unfolding array_loop
array_loop-Safe zero arr buff lt h = absurd (omega arith)
array_loop-Safe (suc f) arr buff lt h =
    let s = remove_leading is_space buff in
    array_rest-Safe f (length buff) (array_turn arr s) (array_loop-Safe f) (omega arith) (
      TurnSafe-le (length s) (length buff) (array_turn arr s) (length-remove_leading is_space buff)
        (array_turn-TurnSafe arr s (remove_leading-Ended is_space buff h)
          (remove_leading-Head is_space buff)))
