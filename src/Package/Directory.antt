-- ===== src/Package/Directory.antt =====
-- load_from_directory of src/sim/problem_package.cc against the listing of a directory tree.
use simlib.Common.{
  ℕ, Bool, some, none, ◌+◌, ◌<◌, ◌≡◌, refl, sym, ap, ◌∙◌, true, false, List, [], ◌∷◌, ◌++◌, Bytes,
  arith, ltb, lt→ltb, length, length-append, drop-length, append_assoc, append-nil, ◌==◌,
}
use simlib.StringView.Text.{remove_trailing}
use simlib.Package.{
  PackageContents, add_entry, add_path, Dirent, Dirents, file, dir, nil, more, load_dirent,
  load_dirents, load_from_directory,
}

-- The paths below a directory that is shown as `path`: directories with a slash, before what they
-- hold.
mutual
  pub listing_of : Bytes → Dirent → List Bytes
  listing_of path (file name) = (path ++ name) ∷ []
  listing_of path (dir name files) =
      (path ++ (name ++ b'/' ∷ [])) ∷ listing (path ++ (name ++ b'/' ∷ [])) files

  pub listing : Bytes → Dirents → List Bytes
  listing path nil = []
  listing path (more f files) = listing_of path f ++ listing path files

pub add_all : List Bytes → PackageContents → PackageContents
add_all [] pc = pc
add_all (e ∷ es) pc = add_all es (add_entry pc e)

add_all-append :
    (xs ys : List Bytes) (pc : PackageContents) → add_all (xs ++ ys) pc ≡ add_all ys (add_all xs pc)
unfolding add_all
add_all-append [] ys pc = refl
add_all-append (x ∷ xs) ys pc = add_all-append xs ys (add_entry pc x)

module _ (front : Bytes) (some_front : 0 < length front) where
  add_path-front :
      (q : Bytes) (pc : PackageContents) → add_path (length front) pc (front ++ q) ≡ add_entry pc q
  unfolding add_path
  add_path-front q pc = rw (drop-length front q) refl

  regroup :
      (q name : Bytes) → ((front ++ q) ++ name) ++ b'/' ∷ [] ≡ front ++ (q ++ (name ++ b'/' ∷ []))
  regroup q name =
      append_assoc (front ++ q) name (b'/' ∷ []) ∙ append_assoc front q (name ++ b'/' ∷ [])

  longer :
      (q name : Bytes) → ltb (length name + 1) (length (front ++ (q ++ (name ++ b'/' ∷ [])))) ≡ true
  longer q name = lt→ltb _ _ (
      omega (
        arith,
        some_front,
        length-append front (q ++ (name ++ b'/' ∷ [])),
        length-append q (name ++ b'/' ∷ []),
        length-append name (b'/' ∷ []),
      ))

  mutual
    unfolding load_dirent load_dirents listing_of listing add_all

    load_dirent-listing :
        (q : Bytes) (f : Dirent) (pc : PackageContents)
        → load_dirent (length front) (front ++ q) f pc ≡ add_all (listing_of q f) pc
    load_dirent-listing q (file name) pc =
        ap (add_path (length front) pc) (append_assoc front q name) ∙ add_path-front (q ++ name) pc
    load_dirent-listing q (dir name files) pc =
        let path = q ++ (name ++ b'/' ∷ []) in
        let below = load_dirents-listing path files (add_entry pc path) in
        rw (regroup q name, longer q name, add_path-front path pc) below

    load_dirents-listing :
        (q : Bytes) (files : Dirents) (pc : PackageContents)
        → load_dirents (length front) (front ++ q) files pc ≡ add_all (listing q files) pc
    load_dirents-listing q nil pc = refl
    load_dirents-listing q (more f files) pc =
        ap (load_dirents (length front) (front ++ q) files) (load_dirent-listing q f pc)
        ∙ load_dirents-listing q files _
        ∙ sym (add_all-append (listing_of q f) (listing q files) pc)

-- The package's own directory, which is no entry.
from_top :
    (p : Bytes) (files : Dirents) (pc : PackageContents)
    → load_dirent (length p + 1) [] (dir p files) pc ≡ add_all (listing [] files) pc
unfolding load_dirent
from_top p files pc =
    let top = p ++ b'/' ∷ [] in
    let len : length top ≡ length p + 1 = length-append p (b'/' ∷ []) in
    let own : ltb (length p + 1) (length top) ≡ false = ground arith in
    let below : load_dirents (length top) (top ++ []) files pc ≡ add_all (listing [] files) pc =
      load_dirents-listing top (omega arith) [] files pc in
    rw own (rw (append-nil top, len) at below)

-- Without the prefix, the entries that load_from_directory adds are the paths of the listing,
-- whatever the path of the package is, if it is not empty, and however many slashes it ends with. On
-- the empty path it throws, with the prefix and without.
pub load_from_directory-listing :
    (c : ℕ) (path : Bytes) (retain : Bool) (files : Dirents) (pc : PackageContents)
    → (load_from_directory (c ∷ path) false files pc ≡ some (add_all (listing [] files) pc))
      × (load_from_directory [] retain files pc ≡ none)
unfolding load_from_directory
load_from_directory-listing c path retain files pc =
    (ap some (from_top (remove_trailing (λ c. c == b'/') (c ∷ path)) files pc), refl)
