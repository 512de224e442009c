-- ===== src/Conver/Found.antt =====
-- The tests that construct_simfile of src/sim/conver.cc finds in the contents of a package.
use simlib.Common.{
  not, ◌&&◌, none, inl, inr, ◌⊎◌, ◌≡◌, refl, sym, ◌∙◌, subst, Bool, true, not, List, [], ◌∷◌, ◌++◌,
  Bytes, some, arith, codes, All, inl, inr, &&-true,
}
use simlib.StringTraits.{has_prefix}
use simlib.StringTraits.Laws.{has_prefix-append}
use simlib.ConfigFile.{Vars}
use simlib.Simfile.Groups.{TimeLimit}
use simlib.Package.{PackageContents, exists, for_each_with_prefix, main_dir, remove_with_prefix}
use simlib.Package.Spans.{IsValid}
use simlib.Package.Entries.{keep}
use simlib.Package.Order.{has_prefix-starts, starts}
use simlib.Package.Contents.{operations-exists}
use simlib.Package.TopDir.{top_dir, starts-top_dir}
use simlib.Package.MainDir.{names, main_dir-AllIn}
use simlib.Package.Zip.{member}
use simlib.Package.ZipMainDir.{exists-names, AllIn-member, str_eq_refl, empty_cases}
use simlib.Conver.{Tests, filter_complete, found_tests, searched, items_of}
use simlib.Conver.Loaded.{AnyReadsNoValue, load_files-AllFiles, load_files-ReadsNoValue}
use simlib.Conver.Complete.{
  InDir, IsComplete, load_limits-AllFiles, match_files-AllFiles, filter_complete-IsComplete,
}

-- Removing by a prefix keeps contents valid and brings nothing in.
removed-IsValid :
    (pc : PackageContents) (p : Bytes)
    → IsValid pc
    → IsValid (remove_with_prefix pc p)
      × ((e : Bytes) → exists (remove_with_prefix pc p) e ≡ true → exists pc e ≡ true)
removed-IsValid pc p valid =
    let (kept, said) = (operations-exists pc valid p).2 in
    (kept, λ e h. (&&-true (not (has_prefix e p)) (exists pc e) (sym (said e) ∙ h)).1)

searched-IsValid :
    (pc : PackageContents) (d : Bytes)
    → IsValid pc
    → IsValid (searched pc d) × ((e : Bytes) → exists (searched pc d) e ≡ true → exists pc e ≡ true)
searched-IsValid pc d valid =
    let (v₁, in₁) = removed-IsValid pc (d ++ codes "utils/") valid in
    let (v₂, in₂) = removed-IsValid _ (d ++ codes "check/") v₁ in
    let (v₃, in₃) = removed-IsValid _ (d ++ codes "checker/") v₂ in
    (v₃, λ e h. in₁ e (in₂ e (in₃ e h)))

-- Every entry starts with what main_dir returns.
main_dir-prefix :
    (pc : PackageContents) (e : Bytes)
    → IsValid pc
    → exists pc e ≡ true
    → has_prefix e (main_dir pc) ≡ true
main_dir-prefix pc e valid there = elim (empty_cases (main_dir pc)) [
  | inl none_of ↦ rw none_of ((has_prefix-append e []).0.1 (e, refl))
  | inr ne ↦
      let all = ((main_dir-AllIn pc (main_dir pc) valid ne).0 refl).1 in
      let inside : top_dir e ≡ main_dir pc =
        AllIn-member (main_dir pc) (names pc) all e (sym (exists-names pc valid e) ∙ there) in
      has_prefix-starts e (main_dir pc) ∙ subst (λ d. starts d e ≡ true) inside (starts-top_dir e)
]

All-keep_member :
    (P : Bytes → Type 0) (f : Bytes → Bool) (xs : List Bytes)
    → ((t : Bytes) → member xs t ≡ true → P t)
    → All P (keep f xs)
All-keep_member P f [] h = tt
All-keep_member P f (x ∷ xs) h =
    let here : member (x ∷ xs) x ≡ true = rw (str_eq_refl x) refl in
    let rest = All-keep_member P f xs (λ t m. h t (ground arith)) in ground (arith, h x here)

module _ (pc : PackageContents) (valid : IsValid pc) where
  abbrev contents : PackageContents
  contents = searched pc (main_dir pc)

  visited-InDir :
      (seek interactive : Bool)
      → All (InDir contents (main_dir pc) seek interactive) (for_each_with_prefix contents [])
  visited-InDir seek interactive =
      let (v, in_pc) = searched-IsValid pc (main_dir pc) valid in
      let visited = (operations-exists contents v []).3 in
      rw visited (
        All-keep_member (InDir contents (main_dir pc) seek interactive) (λ t. has_prefix t [])
          (names contents)
          (λ t m.
            let there : exists contents t ≡ true = exists-names contents v t ∙ m in
            (there, main_dir-prefix pc t valid (in_pc t there))))

  -- The paths that are searched: those of the package, but for three directories.
  searched_paths :
      (path : Bytes)
      → exists contents path ≡ (
          not (has_prefix path (main_dir pc ++ codes "checker/"))
          && (not (has_prefix path (main_dir pc ++ codes "check/"))
              && (not (has_prefix path (main_dir pc ++ codes "utils/")) && exists pc path)))
  searched_paths path =
      let d = main_dir pc in
      let one = (operations-exists pc valid (d ++ codes "utils/")).2 in
      let two = (operations-exists _ one.0 (d ++ codes "check/")).2 in
      let three = (operations-exists _ two.0 (d ++ codes "checker/")).2 in
      three.1 path ∙ rw (two.1 path, one.1 path) refl

  -- The search for tests ends with tests, or with the exception of an item of `tests_files`. Every test
  -- that it keeps has an input file in the main directory of the package, and an output file there
  -- unless the problem is interactive. None of these files lies in "utils/", "check/" or "checker/".
  -- The exception is thrown exactly if the problem is interactive and some item with a name gives an
  -- output file and an input file that is not there.
  pub found_tests-IsComplete :
      (read_time : Bytes → TimeLimit) (ignore_simfile seek interactive : Bool) (config : Vars)
      → let found =
          found_tests read_time ignore_simfile seek interactive config contents (main_dir pc) in
        (((tests : Tests) × (found ≡ some tests)
            × All (λ t. IsComplete contents (main_dir pc) seek interactive t.1) tests)
          ⊎ ((found ≡ none)
              × AnyReadsNoValue contents
                  (main_dir pc)
                  seek
                  interactive
                  (items_of ignore_simfile config (codes "tests_files"))))
        × (AnyReadsNoValue contents
              (main_dir pc)
              seek
              interactive
              (items_of ignore_simfile config (codes "tests_files"))
            → found ≡ none)
        × ((path : Bytes)
            → exists contents path ≡ (
                not (has_prefix path (main_dir pc ++ codes "checker/"))
                && (not (has_prefix path (main_dir pc ++ codes "check/"))
                    && (not (has_prefix path (main_dir pc ++ codes "utils/")) && exists pc path))))
  unfolding found_tests
  found_tests-IsComplete read_time ignore_simfile seek interactive config =
      let d = main_dir pc in
      let limited =
        load_limits-AllFiles contents d read_time (items_of ignore_simfile config (codes "limits"))
          [] tt in
      let matched =
        match_files-AllFiles contents d seek interactive (for_each_with_prefix contents []) _
          (visited-InDir seek interactive) limited in
      (
        elim (load_files-AllFiles contents d seek interactive
            (items_of ignore_simfile config (codes "tests_files")) _ matched) [
              | inl (tests, e, files) ↦ inl (
                filter_complete interactive tests,
                rw (e, found_tests) refl,
                filter_complete-IsComplete contents d seek interactive tests files,
              )
              | inr (e, any) ↦ inr (rw (e, found_tests) refl, any)
            ],
        λ any. rw (load_files-ReadsNoValue contents d seek interactive _ _ any, found_tests) refl,
        searched_paths,
      )
