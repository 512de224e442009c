-- ===== src/ConfigFile/SafeLine.antt =====
-- One turn of the loop of load_config_from_string: the bounds of its reads, and what it takes.
use simlib.Common.{
  ℕ, suc, ◌≤◌, ◌≡◌, refl, Bool, false, not, [], ◌∷◌, Bytes, arith, length, Bool-cases, inl, inr,
  ◌==◌, if◌then◌else◌, ◌||◌, ◌&&◌,
}
use simlib.Ctype.{is_space}
use simlib.StringView.Text.{leading, remove_leading}
use simlib.ConfigFile.Lines.{
  Lines, Lines-tail, Ended, Lines-Ended, Ended-tail, remove_leading-Lines, length-remove_leading,
}
use simlib.ConfigFile.Value.{Parsed, ok, err, fault, extract_value, Reason}
use simlib.ConfigFile.SafeValue.{extract_value-Progress, Progress}
use simlib.ConfigFile.Load.{
  is_ws, is_name, skip_comment, load_value, Line, next, thrown, stuck, end_of_line, after_value,
  assign, operator_and_value, directive, load_line, tail, finish, string_value,
}
use simlib.ConfigFile.{Variable, Vars}
use simlib.ConfigFile.SafeArray.{
  Head, remove_leading-Head, Safe, Safe-le, ws-newline, skip_comment-Lines, array_loop-Safe,
}

finish-Safe :
    (size n : ℕ) (v : Variable) (r : Parsed (Unit {0})) → Safe n r → Safe n (finish size v r).1
finish-Safe size n v (ok u rest) h = h
finish-Safe size n v (err why rest) h = h
finish-Safe size n v fault h = absurd h

string_value-Safe :
    (size n : ℕ) (v : Variable) (r : Parsed Bytes)
    → Progress n r
    → Safe (suc n) (string_value size v r).1
string_value-Safe size n v (ok s rest) h = (h.0, omega arith)
string_value-Safe size n v (err why rest) h = (Lines-Ended rest h.0, h.1)
string_value-Safe size n v fault h = absurd h

no_space : (c : ℕ) → is_ws c ≡ false → c == b'\n' || c == b'#' ≡ false → is_space c ≡ false
unfolding is_ws
no_space c h e = ground arith

-- Reading a value: no white-space but a newline stands in front of it.
load_value-Safe :
    (size : ℕ) (v : Variable) (s : Bytes)
    → Lines s
    → Head is_ws s
    → Safe (length s) (load_value size v s).1
unfolding load_value
load_value-Safe size v [] h w = absurd h
load_value-Safe size v (c ∷ s) h w = elim (Bool-cases (c == b'[')) [
  | inl bracket ↦
      rw (bracket, load_value)
        (finish-Safe size _ _ _ (
          Safe-le (length s) _ _ (omega arith)
            (array_loop-Safe (suc (length s)) _ s (omega arith) (Ended-tail c s h))))
  | inr plain ↦ elim (Bool-cases (c == b'\n' || c == b'#')) [
    | inl none_there ↦ rw (plain, none_there, load_value) (h, omega arith)
    | inr value ↦
        rw (plain, value, load_value)
          (string_value-Safe size (length s) _ (extract_value false (c ∷ s))
            (extract_value-Progress false c s (no_space c w value) h))
  ]
]

-- A line that goes on has taken a character off.
abbrev pub LineSafe : ℕ → Line → Type 0
LineSafe n (next vars rest) = Ended rest × (suc (length rest) ≤ n)
LineSafe n (thrown why rest vars) = Ended rest × (length rest ≤ n)
LineSafe n stuck = ⊥

LineSafe-le : (m n : ℕ) (l : Line) → m ≤ n → LineSafe m l → LineSafe n l
LineSafe-le m n (next vars rest) le h = (h.0, omega arith)
LineSafe-le m n (thrown why rest vars) le h = (h.0, omega arith)
LineSafe-le m n stuck le h = absurd h

end_of_line-LineSafe :
    (vars : Vars) (s : Bytes) → Lines s → LineSafe (length s) (end_of_line vars s)
unfolding end_of_line
end_of_line-LineSafe vars s h =
    go (remove_leading is_ws s) (remove_leading-Lines is_ws s ws-newline h)
      (length-remove_leading is_ws s)
  where
    go :
        (t : Bytes)
        → Lines t
        → length t ≤ length s
        → LineSafe (length s) (elim t as (λ _. Line) [
          | [] ↦ stuck
          | c ∷ u ↦
              if c == b'#'
              then next vars (skip_comment (c ∷ u))
              else if not (c == b'\n')
              then thrown Reason.unknown_sequence (c ∷ u) vars
              else next vars u
        ])
    go [] l le = absurd l
    go (c ∷ u) l le = elim (Bool-cases (c == b'#')) [
      | inl e ↦
          rw e (
            let (k, le') = skip_comment-Lines c u (ground arith) l in
            (Lines-Ended _ k, omega arith))
      | inr e ↦ elim (Bool-cases (c == b'\n')) [
        | inl nl ↦ rw (e, nl) (Ended-tail c u l, omega arith)
        | inr other ↦ rw (e, other) (l, omega arith)
      ]
    ]

after_value-LineSafe :
    (n : ℕ) (vars : Vars) (r : Parsed (Unit {0})) → Safe n r → LineSafe n (after_value vars r)
unfolding after_value
after_value-LineSafe n vars (ok u rest) h =
    LineSafe-le _ _ (end_of_line vars rest) h.1 (end_of_line-LineSafe vars rest h.0)
after_value-LineSafe n vars (err why rest) h = h
after_value-LineSafe n vars fault h = absurd h

assign-LineSafe :
    (size : ℕ) (load_all : Bool) (vars : Vars) (name s : Bytes)
    → Lines s
    → Head is_ws s
    → LineSafe (length s) (assign size load_all vars name s)
unfolding assign
assign-LineSafe size load_all vars name s h w =
    after_value-LineSafe (length s) _ _ (load_value-Safe size _ s h w)

operator-LineSafe :
    (size : ℕ) (load_all : Bool) (vars : Vars) (name s : Bytes)
    → Lines s
    → LineSafe (length s) (operator_and_value size load_all vars name s)
unfolding operator_and_value
operator-LineSafe size load_all vars name [] h = absurd h
operator-LineSafe size load_all vars name (c ∷ s) h = elim (Bool-cases (c == b'\n' || c == b'#')) [
  | inl early ↦ rw (early, operator_and_value) (h, omega arith)
  | inr more ↦ elim (Bool-cases (not (c == b'=') && not (c == b':'))) [
    | inl bad ↦ rw (more, bad, operator_and_value) (h, omega arith)
    | inr fine ↦
        rw (more, fine, operator_and_value)
          (LineSafe-le _ _ _ (omega (arith, length-remove_leading is_ws s)) (
            assign-LineSafe size load_all vars name (remove_leading is_ws s)
              (remove_leading-Lines is_ws s ws-newline (Lines-tail c s h (λ nl. ground arith)))
              (remove_leading-Head is_ws s)))
  ]
]

directive-LineSafe :
    (size : ℕ) (load_all : Bool) (vars : Vars) (s : Bytes)
    → Lines s
    → LineSafe (length s) (directive size load_all vars s)
unfolding directive
directive-LineSafe size load_all vars s h = go (leading is_name s)
  where
    rest : Bytes
    rest = remove_leading is_ws (remove_leading is_name s)

    go :
        (name : Bytes)
        → LineSafe (length s) (elim name as (λ _. Line) [
          | [] ↦ thrown Reason.invalid_name s vars
          | n ∷ ns ↦ operator_and_value size load_all vars (n ∷ ns) rest
        ])
    go [] = (Lines-Ended s h, omega arith)
    go (n ∷ ns) =
        LineSafe-le (length rest) _ _
          (omega (
            arith,
            length-remove_leading is_ws (remove_leading is_name s),
            length-remove_leading is_name s,
          ))
          (operator-LineSafe size load_all vars (n ∷ ns) rest (
            remove_leading-Lines is_ws _ ws-newline
              (remove_leading-Lines is_name s (unfold is_name in refl) h)))

pub load_line-LineSafe :
    (size : ℕ) (load_all : Bool) (vars : Vars) (s : Bytes)
    → Lines s
    → LineSafe (length s) (load_line size load_all vars s)
unfolding load_line
load_line-LineSafe size load_all vars s h =
    go (remove_leading is_ws s) (remove_leading-Lines is_ws s ws-newline h)
      (length-remove_leading is_ws s)
  where
    go :
        (t : Bytes)
        → Lines t
        → length t ≤ length s
        → LineSafe (length s) (elim t as (λ _. Line) [
          | [] ↦ stuck
          | c ∷ u ↦
              if c == b'\n'
              then next vars u
              else if c == b'#'
              then next vars (tail (skip_comment (c ∷ u)))
              else directive size load_all vars (c ∷ u)
        ])
    go [] l le = absurd l
    go (c ∷ u) l le = elim (Bool-cases (c == b'\n')) [
      | inl nl ↦ rw nl (Ended-tail c u l, omega arith)
      | inr other ↦ elim (Bool-cases (c == b'#')) [
        | inl e ↦
            rw (other, e)
              (let (k, le') = skip_comment-Lines c u (ground arith) l in
                behind (skip_comment (c ∷ u)) k (omega arith))
        | inr e ↦
            rw (other, e) (LineSafe-le _ _ _ le (directive-LineSafe size load_all vars (c ∷ u) l))
      ]
    ]
      where
        behind :
            (t : Bytes)
            → Lines t
            → suc (length t) ≤ length s
            → LineSafe (length s) (next vars (tail t))
        behind [] k le = absurd k
        behind (d ∷ t) k le = (Ended-tail d t k, omega arith)
