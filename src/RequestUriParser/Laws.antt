-- ===== src/RequestUriParser/Laws.antt =====
-- extract_next_arg and extract_query on a request URI made of parts.
use simlib.Common.{
  ℕ, zero, suc, ◌+◌, ◌-◌, ◌≡◌, refl, true, false, not, ◌&&◌, List, [], ◌∷◌, ◌++◌, Bytes, arith, All,
  length, all_of, take-length, drop-length, ◌==◌,
}
use simlib.RequestUriParser.{arg_end, extract_next_arg, extract_query}

-- An argument holds no `/` and no `?`.
abbrev pub IsArg : Bytes → Type 0
IsArg s = all_of (λ c. not (c == b'/') && not (c == b'?')) s ≡ true

-- What may follow an argument: nothing, or one of the two.
abbrev pub EndsArg : Bytes → Type 0
EndsArg [] = Unit
EndsArg (c ∷ s) = not (c == b'/') && not (c == b'?') ≡ false

arg_end-length : (s rest : Bytes) → IsArg s → EndsArg rest → arg_end (s ++ rest) ≡ length s
unfolding arg_end
arg_end-length [] [] h e = refl
arg_end-length [] (c ∷ rest) h e = rw e
arg_end-length (c ∷ s) rest h e = ground (arith, arg_end-length s rest)

extract_next_arg-arg :
    (s rest : Bytes) → IsArg s → EndsArg rest → extract_next_arg (b'/' ∷ (s ++ rest)) ≡ (s, rest)
unfolding extract_next_arg
extract_next_arg-arg s rest h e =
    let pos : 1 + length s ≡ suc (length s) = omega arith in
    let pos' : suc (length s) - 1 ≡ length s = omega arith in
    rw (arg_end-length s rest h e, pos, pos', take-length s rest, drop-length s rest)

-- A URI: each argument behind its `/`, and a query, if there is one, behind `?`.
abbrev pub uri : List Bytes → Bytes → Bytes
uri [] end = end
uri (a ∷ args) end = b'/' ∷ (a ++ uri args end)

-- `n` calls of extract_next_arg.
abbrev pub extract_args : ℕ → Bytes → List Bytes × Bytes
extract_args zero s = ([], s)
extract_args (suc n) s =
    let (a, rest) = extract_next_arg s in let (args, end) = extract_args n rest in (a ∷ args, end)

-- The query, or the end of the text.
abbrev pub IsEnd : Bytes → Type 0
IsEnd [] = Unit
IsEnd (c ∷ s) = c ≡ b'?'

uri-EndsArg : (args : List Bytes) (end : Bytes) → IsEnd end → EndsArg (uri args end)
uri-EndsArg [] [] h = tt
uri-EndsArg [] (c ∷ s) h = ground arith
uri-EndsArg (a ∷ args) end h = refl

extract_args-uri :
    (args : List Bytes) (end : Bytes)
    → All IsArg args
    → IsEnd end
    → extract_args (length args) (uri args end) ≡ (args, end)
extract_args-uri [] end h e = refl
extract_args-uri (a ∷ args) end h e = rw (
  extract_next_arg-arg a (uri args end) h.0 (uri-EndsArg args end e),
  extract_args-uri args end h.1 e,
)

-- For a URI made of arguments without `/` and `?`, each behind a `/`, with a query behind `?` or with
-- none, extract_next_arg gives the arguments in turn, empty ones too. It then gives nothing and leaves
-- the query, which extract_query gives; while an argument is left, extract_query gives nothing and
-- changes nothing.
pub extract_args-extract_query :
    (args : List Bytes) (query : Bytes)
    → All IsArg args
    → (extract_args (length args) (uri args (b'?' ∷ query)) ≡ (args, b'?' ∷ query))
      × (extract_args (length args) (uri args []) ≡ (args, []))
      × (extract_next_arg (b'?' ∷ query) ≡ ([], b'?' ∷ query))
      × (extract_query (b'?' ∷ query) ≡ (query, []))
      × ((a : Bytes)
          → extract_query (uri (a ∷ args) (b'?' ∷ query)) ≡ ([], uri (a ∷ args) (b'?' ∷ query)))
unfolding extract_query
extract_args-extract_query args query h = (
  extract_args-uri args (b'?' ∷ query) h refl,
  extract_args-uri args [] h tt,
  unfold extract_next_arg in refl,
  refl,
  λ a. refl,
)
