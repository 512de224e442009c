-- ===== src/Tests/Archives.antt =====
-- The search of a string, and packages, at small texts.
use simlib.Common.{
  ◌≡◌, ◌≢◌, ◌↔◌, refl, true, false, not, ◌&&◌, ◌||◌, some, none, List, [], ◌∷◌, Bytes, codes, All,
  map,
}
use simlib.StringView.Text.{str_eq, compare_views}
use simlib.StringView.Kmp.{prefix_table, find_str}
use simlib.StringView.Kmp.Find.{IsFirst, find_str-IsFirst}
use simlib.StringTraits.{has_prefix}
use simlib.Package.{
  PackageContents, empty_contents, to_str, add_entry, exists, remove, remove_with_prefix,
  for_each_with_prefix, main_dir, is_unsafe, load_from_zip, zip_package_main_dir,
  load_from_directory, Dirents, nil, more, file, dir,
}
use simlib.Package.Entries.{keep}
use simlib.Package.Spans.{IsValid}
use simlib.Package.Contents.{operations-exists}
use simlib.Package.MainDir.{names, AllIn, main_dir-AllIn}
use simlib.Package.Zip.{
  empty-IsValid, member, load_from_zip-exists, AnyGoesUp, load_from_zip-AnyGoesUp,
}
use simlib.Package.ZipMainDir.{zip_package_main_dir-main_dir}
use simlib.Package.Directory.{listing, add_all, load_from_directory-listing}

table_of : prefix_table (codes "abacab") ≡ 0 ∷ 0 ∷ 1 ∷ 0 ∷ 1 ∷ 2 ∷ []
unfolding prefix_table
table_of = refl

found : find_str (codes "ababac") (codes "abac") ≡ some 2
unfolding find_str
found = refl

find_str-IsFirst_example :
    IsFirst (codes "ababac") (codes "abac") (find_str (codes "ababac") (codes "abac"))
find_str-IsFirst_example = find_str-IsFirst (codes "ababac") (codes "abac")

abbrev archive : List Bytes
archive = codes "pkg/tests/1.in" ∷ codes "pkg/" ∷ codes "pkg/Simfile" ∷ []

abbrev loaded : PackageContents
loaded =
    add_entry (add_entry (add_entry empty_contents (codes "pkg/tests/1.in")) (codes "pkg/"))
      (codes "pkg/Simfile")

archive_loads : load_from_zip archive empty_contents ≡ some loaded
unfolding load_from_zip has_prefix
archive_loads = refl

in_order : names loaded ≡ codes "pkg/" ∷ codes "pkg/Simfile" ∷ codes "pkg/tests/1.in" ∷ []
unfolding add_entry
in_order = refl

-- A component ".." at the end of a path passes the test.
last_component_passes : is_unsafe (codes "a/..") ≡ false
unfolding is_unsafe has_prefix compare_views
last_component_passes = refl

loaded-IsValid : IsValid loaded
loaded-IsValid = (load_from_zip-exists archive empty_contents loaded empty-IsValid archive_loads).0

load_from_zip-exists_example :
    IsValid loaded
    × ((e : Bytes) → exists loaded e ≡ (member archive e || exists empty_contents e))
    × All (λ t. is_unsafe t ≡ false) archive
load_from_zip-exists_example =
    load_from_zip-exists archive empty_contents loaded empty-IsValid archive_loads

zip_package_main_dir-main_dir_example : zip_package_main_dir archive ≡ some (main_dir loaded)
zip_package_main_dir-main_dir_example = zip_package_main_dir-main_dir archive loaded archive_loads

main_dir-AllIn_example :
    (main_dir loaded ≡ codes "pkg/") ↔ ((names loaded ≢ []) × AllIn (codes "pkg/") (names loaded))
main_dir-AllIn_example = main_dir-AllIn loaded (codes "pkg/") loaded-IsValid (λ e. cc)

load_from_zip-AnyGoesUp_example :
    (load_from_zip (codes "pkg/" ∷ codes "pkg/../x" ∷ []) empty_contents ≡ none)
    ↔ AnyGoesUp (codes "pkg/" ∷ codes "pkg/../x" ∷ [])
load_from_zip-AnyGoesUp_example =
    load_from_zip-AnyGoesUp (codes "pkg/" ∷ codes "pkg/../x" ∷ []) empty_contents

operations-exists_example :
    let pc = loaded in
    let s = codes "pkg/tests/" in
    (IsValid (add_entry pc s)
      × ((e : Bytes) → exists (add_entry pc s) e ≡ (str_eq s e || exists pc e)))
    × (IsValid (remove pc s).0
        × ((e : Bytes) → exists (remove pc s).0 e ≡ (not (str_eq s e) && exists pc e))
        × ((remove pc s).1 ≡ exists pc s))
    × (IsValid (remove_with_prefix pc s)
        × ((e : Bytes)
            → exists (remove_with_prefix pc s) e ≡ (not (has_prefix e s) && exists pc e)))
    × (for_each_with_prefix pc s ≡ keep (λ t. has_prefix t s) (map (to_str pc.buff) pc.entries))
operations-exists_example = operations-exists loaded loaded-IsValid (codes "pkg/tests/")

abbrev tree : Dirents
tree =
    more (file (codes "Simfile")) (more (dir (codes "tests") (more (file (codes "1.in")) nil)) nil)

load_from_directory-listing_example :
    (load_from_directory (codes "/tmp/pkg//") false tree empty_contents
      ≡ some (add_all (listing [] tree) empty_contents))
    × (load_from_directory [] true tree empty_contents ≡ none)
load_from_directory-listing_example =
    load_from_directory-listing b'/' (codes "tmp/pkg//") true tree empty_contents
