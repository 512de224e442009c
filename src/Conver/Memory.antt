-- ===== src/Conver/Memory.antt =====
-- The memory limits of the tests in Conver::construct_simfile of src/sim/conver.cc.
use simlib.Common.{
  All, ◌++◌, ◌∙◌, Bytes, false, ℕ, ◌*◌, ◌%◌, ◌^◌, ◌≡◌, refl, sym, ap, Bool, [], ◌∷◌, Option, none,
  some, Bool-cases, Option-cases, inl, inr, subst, codes,
}
use simlib.ConfigFile.{Vars}
use simlib.Simfile.{
  Result, missing, missing_memory_limit, loaded, throws, and_then, load_global_memory_limit_only,
}
use simlib.Conver.{TestProperties, Tests, with_memory, own_or_global, fill_memory, memory_limits}

and_then-parts {ℓ κ} :
    {A : Type ℓ} {B : Type κ} (r : Result A) (f : A → Result B) (b : B)
    → and_then r f ≡ loaded b
    → (a : A) × (r ≡ loaded a) × (f a ≡ loaded b)
and_then-parts (loaded a) f b e = (a, refl, e)
and_then-parts (throws why) f b e = absurd (cc e)

-- What a test's limit becomes: the one of the options, else its own, else the global one.
abbrev pub limit_of : Option ℕ → Option ℕ → Option ℕ → Option ℕ
limit_of (some bytes) own global_mem_limit = some bytes
limit_of none (some own) global_mem_limit = some own
limit_of none none global_mem_limit = global_mem_limit

own_or_global-limit_of :
    (own global_mem_limit : Option ℕ)
    → own_or_global own global_mem_limit ≡ limit_of none own global_mem_limit
own_or_global-limit_of (some own) g = refl
own_or_global-limit_of none g = refl

-- The tests, each with the limit that it is to have, which is there.
abbrev pub Limited : Option ℕ → Option ℕ → Tests → Tests → Type 0
Limited option global_mem_limit [] [] = Unit
Limited option global_mem_limit [] (t ∷ ts) = ⊥
Limited option global_mem_limit (t ∷ ts) [] = ⊥
Limited option global_mem_limit ((name, test) ∷ ts) ((name', test') ∷ ts') =
    ((name ≡ name')
      × (test' ≡ record test { memory_limit = limit_of option test.memory_limit global_mem_limit })
      × ((bytes : ℕ) × (test'.memory_limit ≡ some bytes)))
    × Limited option global_mem_limit ts ts'

with_memory-Limited :
    (bytes : ℕ) (g : Option ℕ) (tests : Tests)
    → Limited (some bytes) g tests (with_memory bytes tests)
with_memory-Limited bytes g [] = tt
with_memory-Limited bytes g ((name, test) ∷ tests) =
    ((refl, refl, (bytes, refl)), with_memory-Limited bytes g tests)

fill_memory-Limited :
    (g : Option ℕ) (tests tests' : Tests)
    → fill_memory g tests ≡ loaded tests'
    → Limited none g tests tests'
unfolding fill_memory
fill_memory-Limited g [] [] e = tt
fill_memory-Limited g [] (t ∷ ts) e = cc
fill_memory-Limited g ((name, test) ∷ tests) tests' e =
    let ih = fill_memory-Limited g tests in
    elim (Option-cases (own_or_global test.memory_limit g)) [
      | inl unset ↦
          let wrong : ◌≡◌ {A = Result Tests} (throws (missing_memory_limit name)) (loaded tests') =
            rw (unset, fill_memory) at e in
          cc
      | inr (bytes, limit) ↦
          let turn : and_then (fill_memory g tests)
                (λ rest. loaded ((name, record test { memory_limit = some bytes }) ∷ rest))
              ≡ loaded tests' =
            rw (limit, fill_memory) at e in
          let (rest, is, last) = and_then-parts (fill_memory g tests) _ tests' turn in
          let shape : (name, record test { memory_limit = some bytes }) ∷ rest ≡ tests' = cc in
          let same : record test { memory_limit = some bytes }
              ≡ record test { memory_limit = limit_of none test.memory_limit g } =
            ap (λ m. record test { memory_limit = m })
              (sym limit ∙ own_or_global-limit_of test.memory_limit g) in
          subst (Limited none g ((name, test) ∷ tests)) shape
            ((refl, same, (bytes, refl)), ih rest is)
    ]

-- The limit in bytes that the options give, as a product in 64 bits.
abbrev pub in_options : Option ℕ → Option ℕ
in_options none = none
in_options (some mebibytes) = some (mebibytes * 2 ^ 20 % 2 ^ 64)

-- A test without a limit of its own, where there is no global one, and tests that all get one.
abbrev pub HasOwn : Bytes × TestProperties → Type 0
HasOwn (name, test) = (own : ℕ) × (test.memory_limit ≡ some own)

abbrev pub GetsLimit : Option ℕ → Bytes × TestProperties → Type 0
GetsLimit g (name, test) = (bytes : ℕ) × (limit_of none test.memory_limit g ≡ some bytes)

fill_memory-missing :
    (before : Tests) (name : Bytes) (test : TestProperties) (after : Tests)
    → All HasOwn before
    → test.memory_limit ≡ none
    → fill_memory none (before ++ (name, test) ∷ after) ≡ throws (missing_memory_limit name)
unfolding fill_memory
fill_memory-missing [] name test after h e = rw (e, fill_memory) refl
fill_memory-missing ((key, t) ∷ before) name test after ((own, has), h) e =
    rw (has, fill_memory-missing before name test after h e, fill_memory) refl

fill_memory-filled :
    (g : Option ℕ) (tests : Tests)
    → All (GetsLimit g) tests
    → (tests' : Tests) × (fill_memory g tests ≡ loaded tests')
unfolding fill_memory
fill_memory-filled g [] h = ([], refl)
fill_memory-filled g ((name, test) ∷ tests) ((bytes, e), h) =
    let limit = own_or_global-limit_of test.memory_limit g ∙ e in
    let (rest, filled) = fill_memory-filled g tests h in
    ((name, record test { memory_limit = some bytes }) ∷ rest, rw (limit, filled, fill_memory) refl)

-- The global limit: the one of the options, else what the Simfile gives.
abbrev pub IsGlobal : Option ℕ → Vars → Option ℕ → Type 0
IsGlobal (some mebibytes) config g = g ≡ some (mebibytes * 2 ^ 20 % 2 ^ 64)
IsGlobal none config g = load_global_memory_limit_only config ≡ loaded g

memory_limits-Limits :
    (option : Option ℕ) (ignore_simfile : Bool) (config : Vars) (tests : Tests) (g : Option ℕ)
    (tests' : Tests)
    → memory_limits option ignore_simfile config tests ≡ loaded (g, tests')
    → IsGlobal option config g × Limited (in_options option) g tests tests'
unfolding memory_limits
memory_limits-Limits (some mebibytes) ignore_simfile config tests g tests' e =
    let shape : with_memory (mebibytes * 2 ^ 20 % 2 ^ 64) tests ≡ tests' = cc in
    let globals : some (mebibytes * 2 ^ 20 % 2 ^ 64) ≡ g = cc in
    (
      sym globals,
      subst (Limited (in_options (some mebibytes)) g tests) shape (with_memory-Limited _ g tests),
    )
memory_limits-Limits none ignore_simfile config tests g tests' e =
    elim (Bool-cases ignore_simfile) [
      | inl ignored ↦
          let wrong : ◌≡◌ {A = Result (Option ℕ × Tests)} (throws (missing (codes "memory_limit")))
              (loaded (g, tests')) =
            rw (ignored, memory_limits) at e in
          cc
      | inr read ↦
          let turn : and_then (load_global_memory_limit_only config)
                (λ h. and_then (fill_memory h tests) (λ filled. loaded (h, filled)))
              ≡ loaded (g, tests') =
            rw (read, memory_limits) at e in
          let (h, from_simfile, inner) =
            and_then-parts (load_global_memory_limit_only config) _ (g, tests') turn in
          let (filled, is, last) = and_then-parts (fill_memory h tests) _ (g, tests') inner in
          let globals : h ≡ g = cc in
          let shape : filled ≡ tests' = cc in
          (
            subst (λ k. load_global_memory_limit_only config ≡ loaded k) globals from_simfile,
            fill_memory-Limited g tests tests' (rw (globals, shape) at is),
          )
    ]

-- Where the memory limits are loaded, the global one is that of the options in bytes, else that of the
-- Simfile, and every test has a limit afterwards: that of the options, else its own, else the global
-- one. Nothing else of a test changes, and no test is lost. With a limit in the options this always
-- succeeds. Without one, and with the Simfile not ignored and its limit read, it succeeds if every
-- test has a limit of its own or there is a global one; and without a global one it throws at the
-- first test that has none of its own, naming it.
pub memory_limits-Limited :
    (option : Option ℕ) (config : Vars) (tests : Tests)
    → ((ignore_simfile : Bool) (g : Option ℕ) (tests' : Tests)
        → memory_limits option ignore_simfile config tests ≡ loaded (g, tests')
        → IsGlobal option config g × Limited (in_options option) g tests tests')
      × ((mebibytes : ℕ) (ignore_simfile : Bool)
          → (loads : Option ℕ × Tests) × (memory_limits (some mebibytes) ignore_simfile config tests
              ≡ loaded loads))
      × ((g : Option ℕ)
          → load_global_memory_limit_only config ≡ loaded g
          → All (GetsLimit g) tests
          → (tests' : Tests) × (memory_limits none false config tests ≡ loaded (g, tests')))
      × ((before : Tests) (name : Bytes) (test : TestProperties) (after : Tests)
          → load_global_memory_limit_only config ≡ loaded none
          → tests ≡ before ++ (name, test) ∷ after
          → All HasOwn before
          → test.memory_limit ≡ none
          → memory_limits none false config tests ≡ throws (missing_memory_limit name))
unfolding memory_limits
memory_limits-Limited option config tests = (
  λ ignore_simfile g tests' e. memory_limits-Limits option ignore_simfile config tests g tests' e,
  λ mebibytes ignore_simfile. (_, refl),
  λ g read all.
      let (tests', filled) = fill_memory-filled g tests all in
      (tests', rw (read, filled, memory_limits) refl),
  λ before name test after read split h e.
      let thrown = fill_memory-missing before name test after h e in
      rw (split, read, thrown, memory_limits) refl,
)
