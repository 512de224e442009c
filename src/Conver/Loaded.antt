-- ===== src/Conver/Loaded.antt =====
-- The items of `tests_files` that construct_simfile of src/sim/conver.cc loads, and those that throw.
use simlib.Common.{
  sym, ◌⊎◌, &&-true, ◌≡◌, ◌≢◌, refl, subst, Bool, true, false, not, ◌&&◌, List, [], ◌∷◌, ◌++◌,
  Bytes, Option, none, some, Bool-cases, Option-cases, inl, inr,
}
use mathlib.Core.Bool.{false≢true}
use simlib.Path.{is_empty}
use simlib.Simfile.{loaded, parse_test_files_item}
use simlib.Package.{PackageContents, exists}
use simlib.Conver.{Tests, reads_no_value, set_files, load_files}
use simlib.Conver.Items.{Result-cases, no_output}
use simlib.Conver.Complete.{AllFiles, set_files-AllFiles}

is_empty-false : (s : Bytes) → is_empty s ≡ false → s ≢ []
is_empty-false [] h = absurd (false≢true (sym h))
is_empty-false (c ∷ s) h = λ e. cc

is_empty-cons : (s : Bytes) → s ≢ [] → is_empty s ≡ false
is_empty-cons [] h = absurd (h refl)
is_empty-cons (c ∷ s) h = refl

module _ (pc : PackageContents) (main_dir : Bytes) (seek interactive : Bool) where
  -- An item with a name, whose output file is given although the problem is interactive, and whose
  -- input file is given but not there.
  abbrev pub ReadsNoValue : Bytes → Type 0
  ReadsNoValue str =
      (name : Bytes) × (input : Bytes) × (output : Bytes) × (parse_test_files_item str
        ≡ loaded (name, input, output))
      × (name ≢ [])
      × (input ≢ [])
      × (interactive ≡ true)
      × (output ≢ [])
      × (exists pc (main_dir ++ input) ≡ false)

  abbrev pub AnyReadsNoValue : List Bytes → Type 0
  AnyReadsNoValue [] = ⊥
  AnyReadsNoValue (str ∷ strs) = ReadsNoValue str ⊎ AnyReadsNoValue strs

  reads_no_value-parts :
      (input output : Bytes)
      → reads_no_value seek interactive pc main_dir input output ≡ true
      → (interactive ≡ true) × (output ≢ []) × (exists pc (main_dir ++ input) ≡ false)
  reads_no_value-parts input output h =
      let both = &&-true (interactive && not (is_empty output)) _ h in
      let outer = &&-true interactive (not (is_empty output)) both.0 in
      (
        outer.0,
        λ e. false≢true (rw e at outer.1),
        elim (Bool-cases (exists pc (main_dir ++ input))) [
          | inl there ↦ absurd (false≢true (rw there at both.1))
          | inr missing ↦ missing
        ],
      )

  -- How the items are loaded: into tests whose files are there, or with the exception of an item.
  abbrev pub Loads : List Bytes → Option Tests → Type 0
  Loads strs result =
      ((tests : Tests) × (result ≡ some tests) × AllFiles pc main_dir tests)
      ⊎ ((result ≡ none) × AnyReadsNoValue strs)

  Loads-later :
      (str : Bytes) (strs : List Bytes) (r : Option Tests) → Loads strs r → Loads (str ∷ strs) r
  Loads-later str strs r (inl done) = inl done
  Loads-later str strs r (inr (thrown, any)) = inr (thrown, inr any)

  set_item :
      (str : Bytes) (strs : List Bytes) (tests : Tests) (a : AllFiles pc main_dir tests)
      (name input output : Bytes)
      → ((tests' : Tests)
          → AllFiles pc main_dir tests'
          → Loads strs (load_files seek interactive pc main_dir strs tests'))
      → parse_test_files_item str ≡ loaded (name, input, output)
      → is_empty name ≡ false
      → is_empty input ≡ false
      → Loads (str ∷ strs) (load_files seek interactive pc main_dir (str ∷ strs) tests)
  unfolding load_files
  set_item str strs tests a name input output rest read named given =
      let load = load_files seek interactive pc main_dir in
      elim (Bool-cases (reads_no_value seek interactive pc main_dir input output)) [
        | inl bad ↦
            let thrown : set_files seek interactive pc main_dir name input output tests ≡ none =
              rw (bad, set_files) refl in
            let e : load (str ∷ strs) tests ≡ none =
              rw (read, named, given, thrown, load_files) refl in
            let parts = reads_no_value-parts input output bad in
            inr (
              e,
              inl (
                name,
                input,
                output,
                read,
                is_empty-false name named,
                is_empty-false input given,
                parts.0,
                parts.1,
                parts.2,
              ),
            )
        | inr fine ↦
            let (tests', taken, a') =
              set_files-AllFiles pc main_dir seek interactive name input output tests a fine in
            let e : load (str ∷ strs) tests ≡ load strs tests' =
              rw (read, named, given, taken, load_files) refl in
            subst (Loads (str ∷ strs)) (sym e)
              (Loads-later str strs (load strs tests') (rest tests' a'))
      ]

  -- throw_assert of construct_simfile does not fail.
  pub load_files-AllFiles :
      (strs : List Bytes) (tests : Tests)
      → AllFiles pc main_dir tests
      → Loads strs (load_files seek interactive pc main_dir strs tests)
  unfolding load_files
  load_files-AllFiles [] tests a = inl (tests, refl, a)
  load_files-AllFiles (str ∷ strs) tests a =
      let load = load_files seek interactive pc main_dir in
      let passed = Loads-later str strs (load strs tests) (load_files-AllFiles strs tests a) in
      let pass : load (str ∷ strs) tests ≡ load strs tests
          → Loads (str ∷ strs) (load (str ∷ strs) tests) =
        λ e. subst (Loads (str ∷ strs)) (sym e) passed in
      elim (Result-cases (parse_test_files_item str)) [
        | inl (e, thrown) ↦ pass (rw (thrown, load_files) refl)
        | inr ((name, input, output), read) ↦ elim (Bool-cases (is_empty name)) [
          | inl unnamed ↦ pass (rw (read, unnamed, load_files) refl)
          | inr named ↦ elim (Bool-cases (is_empty input)) [
            | inl no_input ↦
                let unset = no_output str name input output read no_input in
                pass (rw (read, named, no_input, unset, load_files) refl)
            | inr given ↦
                set_item str strs tests a name input output (load_files-AllFiles strs) read named
                  given
          ]
        ]
      ]

  -- An item that reads no value ends the loading, wherever it stands.
  pub load_files-ReadsNoValue :
      (strs : List Bytes) (tests : Tests)
      → AnyReadsNoValue strs
      → load_files seek interactive pc main_dir strs tests ≡ none
  unfolding load_files
  load_files-ReadsNoValue [] tests h = absurd h
  load_files-ReadsNoValue (str ∷ strs) tests
        (inl (name, input, output, read, named, given, i, o, missing)) =
      let bad : reads_no_value seek interactive pc main_dir input output ≡ true =
        rw (i, is_empty-cons output o, missing) refl in
      let thrown : set_files seek interactive pc main_dir name input output tests ≡ none =
        rw (bad, set_files) refl in
      rw (read, is_empty-cons name named, is_empty-cons input given, thrown, load_files) refl
  load_files-ReadsNoValue (str ∷ strs) tests (inr later) =
      let rest = load_files-ReadsNoValue strs tests later in
      elim (Result-cases (parse_test_files_item str)) [
        | inl (e, thrown) ↦ rw (thrown, load_files) rest
        | inr ((name, input, output), read) ↦ elim (Bool-cases (is_empty name)) [
          | inl unnamed ↦ rw (read, unnamed, load_files) rest
          | inr named ↦ elim (Bool-cases (is_empty input)) [
            | inl no_input ↦
                let unset = no_output str name input output read no_input in
                rw (read, named, no_input, unset, load_files) rest
            | inr given ↦
                elim (Option-cases
                  (set_files seek interactive pc main_dir name input output tests)) [
                    | inl thrown ↦ rw (read, named, given, thrown, load_files) refl
                    | inr (tests', taken) ↦
                        rw (read, named, given, taken, load_files)
                          (load_files-ReadsNoValue strs tests' later)
                  ]
          ]
        ]
      ]
