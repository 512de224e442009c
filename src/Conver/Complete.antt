-- ===== src/Conver/Complete.antt =====
-- The files of the tests that construct_simfile of src/sim/conver.cc finds.
use simlib.Common.{
  ◌≡◌, refl, ap, subst, Bool, true, false, not, ◌&&◌, ◌||◌, List, [], ◌∷◌, ◌++◌, Bytes, Option,
  none, some, arith, codes, drop, length, All, Bool-cases, Option-cases, inl, inr, drop-length,
}
use mathlib.Core.Bool.{false≢true}
use simlib.StringView.Text.{str_eq}
use simlib.StringTraits.{has_suffix, has_prefix}
use simlib.StringTraits.Laws.{has_prefix-append}
use simlib.Path.{is_empty}
use simlib.Simfile.{split}
use simlib.Simfile.Groups.{TimeLimit, parse_limits_item}
use simlib.Package.{PackageContents, exists}
use simlib.Conver.{
  TestProperties, Tests, no_properties, find_test, put_test, try_emplace, load_limits, with_new,
  test_name_of, match_file, match_files, found_input, found_output, or_old, reads_no_value,
  set_files, is_complete, filter_complete,
}
use simlib.Conver.Items.{Result-cases}

module _ (pc : PackageContents) (main_dir : Bytes) where
  -- A file that is set is an entry of the package, in its main directory.
  abbrev pub IsThere : Option Bytes → Type 0
  IsThere none = Unit
  IsThere (some file) = exists pc (main_dir ++ file) ≡ true

  abbrev pub HasFiles : TestProperties → Type 0
  HasFiles test = IsThere test.input × IsThere test.output

  abbrev pub AllFiles : Tests → Type 0
  AllFiles = All (λ t. HasFiles t.1)

  put_test-AllFiles :
      (tests : Tests) (name : Bytes) (test : TestProperties)
      → AllFiles tests
      → HasFiles test
      → AllFiles (put_test tests name test)
  unfolding put_test
  put_test-AllFiles [] name test a h = (h, tt)
  put_test-AllFiles ((key, old) ∷ tests) name test a h =
      ground (arith, put_test-AllFiles tests name test a.1 h)

  find_test-HasFiles :
      (tests : Tests) (name : Bytes) (test : TestProperties)
      → AllFiles tests
      → find_test tests name ≡ some test
      → HasFiles test
  unfolding find_test
  find_test-HasFiles [] name test a e = cc
  find_test-HasFiles ((key, old) ∷ tests) name test a e = elim (Bool-cases (str_eq key name)) [
    | inl same ↦ let eq : old ≡ test = ground (arith) in subst HasFiles eq a.0
    | inr other ↦ find_test-HasFiles tests name test a.1 (ground arith)
  ]

  try_emplace-AllFiles :
      (tests : Tests) (name : Bytes) → AllFiles tests → AllFiles (try_emplace tests name)
  unfolding try_emplace
  try_emplace-AllFiles tests name a = elim (Option-cases (find_test tests name)) [
    | inl e ↦ rw (e, try_emplace) (put_test-AllFiles tests name no_properties a (tt, tt))
    | inr (t, e) ↦ rw (e, try_emplace) a
  ]

  pub load_limits-AllFiles :
      (read_time : Bytes → TimeLimit) (strs : List Bytes) (tests : Tests)
      → AllFiles tests
      → AllFiles (load_limits read_time strs tests)
  unfolding load_limits
  load_limits-AllFiles read_time [] tests a = a
  load_limits-AllFiles read_time (str ∷ strs) tests a =
      elim (Result-cases (parse_limits_item read_time str)) [
        | inl (e, thrown) ↦ rw (thrown, load_limits) (load_limits-AllFiles read_time strs tests a)
        | inr ((name, time, memory), read) ↦
            rw (read, load_limits)
              (elim (Bool-cases (is_empty (split name).0)) [
                | inl skip ↦ rw skip (load_limits-AllFiles read_time strs tests a)
                | inr take_it ↦ rw take_it (
                    load_limits-AllFiles read_time strs _
                      (put_test-AllFiles tests name _ a (tt, tt)))
              ])
      ]

  module _ (seek interactive : Bool) where
    with_new-AllFiles :
        (tests : Tests) (name : Bytes)
        → AllFiles tests
        → AllFiles (with_new seek interactive tests name)
    with_new-AllFiles tests name a = ground (arith, try_emplace-AllFiles tests name a)

    match_file-AllFiles :
        (path : Bytes) (tests : Tests)
        → exists pc (main_dir ++ path) ≡ true
        → AllFiles tests
        → AllFiles (match_file seek interactive path tests)
    unfolding match_file
    match_file-AllFiles path tests there a =
        let name = test_name_of path in
        let tests' = with_new seek interactive tests name in
        let a' = with_new-AllFiles tests name a in
        elim (Bool-cases (
          not (
            has_suffix path (codes ".in")
            || (has_suffix path (codes ".out") && not interactive)))) [
              | inl other ↦ rw (other, match_file) a
              | inr test_file ↦ elim (Option-cases (find_test tests' name)) [
                | inl e ↦ rw (test_file, e, match_file) a'
                | inr (test, e) ↦
                    let (i, o) = find_test-HasFiles tests' name test a' e in
                    rw (test_file, e, match_file)
                      (put_test-AllFiles tests' name _ a'
                        (elim (Bool-cases (has_suffix path (codes ".in"))) [
                          | inl input ↦ rw input (there, o)
                          | inr output ↦ rw output (i, there)
                        ]))
              ]
            ]

    -- The paths are entries in the main directory.
    abbrev pub InDir : Bytes → Type 0
    InDir path = (exists pc path ≡ true) × (has_prefix path main_dir ≡ true)

    behind_dir : (path : Bytes) → InDir path → main_dir ++ drop (length main_dir) path ≡ path
    behind_dir path (there, inside) =
        let (rest, e) = (has_prefix-append path main_dir).0.0 inside in
        rw e (ap (λ t. main_dir ++ t) (drop-length main_dir rest))

    pub match_files-AllFiles :
        (paths : List Bytes) (tests : Tests)
        → All InDir paths
        → AllFiles tests
        → AllFiles (match_files seek interactive main_dir paths tests)
    unfolding match_files
    match_files-AllFiles [] tests h a = a
    match_files-AllFiles (path ∷ paths) tests h a =
        let back = behind_dir path h.0 in
        let there : exists pc (main_dir ++ drop (length main_dir) path) ≡ true = rw back h.0.0 in
        match_files-AllFiles paths _ h.1
          (match_file-AllFiles (drop (length main_dir) path) tests there a)

    found_input-IsThere :
        (file : Bytes) (old : Option Bytes)
        → IsThere old
        → IsThere (
            or_old seek interactive pc main_dir (found_input seek interactive pc main_dir file) old)
    found_input-IsThere file old h = elim (Bool-cases (exists pc (main_dir ++ file))) [
      | inl there ↦ rw there there
      | inr missing ↦ rw missing h
    ]

    found_output-IsThere :
        (file : Bytes) (old : Option Bytes)
        → IsThere old
        → IsThere (
            or_old seek interactive pc main_dir
              (found_output seek interactive pc main_dir file)
              old)
    found_output-IsThere file old h = elim (Bool-cases (interactive || is_empty file)) [
      | inl none_of ↦ rw none_of h
      | inr some_of ↦ elim (Bool-cases (exists pc (main_dir ++ file))) [
        | inl there ↦ rw (some_of, there) there
        | inr missing ↦ rw (some_of, missing) h
      ]
    ]

    pub set_files-AllFiles :
        (name input output : Bytes) (tests : Tests)
        → AllFiles tests
        → reads_no_value seek interactive pc main_dir input output ≡ false
        → (result : Tests) × (set_files seek interactive pc main_dir name input output tests
            ≡ some result)
          × AllFiles result
    unfolding set_files
    set_files-AllFiles name input output tests a fine =
        let tests' = with_new seek interactive tests name in
        let a' = with_new-AllFiles tests name a in
        elim (Option-cases (find_test tests' name)) [
          | inl e ↦ (tests', rw (fine, e, set_files) refl, a')
          | inr (test, e) ↦
              let (i, o) = find_test-HasFiles tests' name test a' e in
              (
                put_test tests' name (record test {
                  input =
                      or_old seek interactive pc main_dir
                        (found_input seek interactive pc main_dir input) test.input;
                  output =
                      or_old seek interactive pc main_dir
                        (found_output seek interactive pc main_dir output) test.output;
                }),
                rw (fine, e, set_files) refl,
                put_test-AllFiles tests' name _ a' (
                  found_input-IsThere input test.input i,
                  found_output-IsThere output test.output o,
                ),
              )
        ]

    -- A test that is kept, with its files.
    abbrev pub IsComplete : TestProperties → Type 0
    IsComplete test =
        ((file : Bytes) × (test.input ≡ some file) × (exists pc (main_dir ++ file) ≡ true))
        × (interactive ≡ false
            → (file : Bytes) × (test.output ≡ some file) × (exists pc (main_dir ++ file) ≡ true))

    is_complete-IsComplete :
        (test : TestProperties)
        → HasFiles test
        → is_complete interactive test ≡ true
        → IsComplete test
    is_complete-IsComplete test h e = elim (Option-cases test.input) [
      | inl none_in ↦ absurd (false≢true (rw none_in at e))
      | inr (file, input) ↦ (
        (file, input, subst IsThere input h.0),
        λ graded. elim (Option-cases test.output) [
          | inl none_out ↦ absurd (false≢true (rw (input, graded, none_out) at e))
          | inr (file', output) ↦ (file', output, subst IsThere output h.1)
        ],
      )
    ]

    pub filter_complete-IsComplete :
        (tests : Tests)
        → AllFiles tests
        → All (λ t. IsComplete t.1) (filter_complete interactive tests)
    unfolding filter_complete
    filter_complete-IsComplete [] a = tt
    filter_complete-IsComplete ((name, test) ∷ tests) a =
        let rest = filter_complete-IsComplete tests a.1 in
        elim (Bool-cases (is_complete interactive test)) [
          | inl kept ↦ rw (kept, filter_complete) (is_complete-IsComplete test a.0 kept, rest)
          | inr dropped ↦ rw (dropped, filter_complete) rest
        ]
