-- ===== src/Package.antt =====
-- src/sim/problem_package.cc and include/simlib/sim/problem_package.hh: the entries of a problem
-- package, loaded from a directory or an archive. std::set, which the source orders by the entries'
-- texts, is the list of its elements in order; the child module `Set` has its operations.
pub mod Set
pub mod Order
pub mod Entries
pub mod Spans
pub mod Prefix
pub mod Contents
pub mod TopDir
pub mod MainDir
pub mod Directory
pub mod Zip
pub mod ZipMainDir
use simlib.Common.{
  ℕ, zero, suc, ◌+◌, ◌-◌, Bool, true, false, ◌||◌, List, [], ◌∷◌, ◌++◌, Option, none, some, Bytes,
  codes, ltb, ◌==◌, if◌then◌else◌, length, take, drop, map, not,
}
use simlib.StringView.Text.{find, remove_trailing}
use simlib.StringView.Kmp.{find_str}
use simlib.Path.{is_empty}
use simlib.StringTraits.{has_prefix}
use simlib.Package.Set.{
  insert, lower_bound, below, find_elem, erase, erase_while, take_while, last_of,
}

pub record Span : Type 0 where
  pub begin : ℕ
  pub endi : ℕ

pub record PackageContents : Type 0 where
  pub buff : Bytes
  pub entries : List Span

abbrev pub empty_contents : PackageContents
empty_contents = record { buff = []; entries = [] }

abbrev pub to_str : Bytes → Span → Bytes
to_str buff x = take (x.endi - x.begin) (drop x.begin buff)

unfoldable pub add_entry : PackageContents → Bytes → PackageContents
unfolding insert
add_entry pc str =
    let prev_size = length pc.buff in
    let buff' = pc.buff ++ str in
    record {
      buff = buff';
      entries =
          insert (to_str buff') (record { begin = prev_size; endi = length buff' }) pc.entries;
    }

unfoldable pub exists : PackageContents → Bytes → Bool
unfolding find_elem
exists pc entry = find_elem (to_str pc.buff) entry pc.entries

-- The second component tells whether an entry was erased.
unfoldable pub remove : PackageContents → Bytes → PackageContents × Bool
unfolding find_elem erase
remove pc entry =
    if find_elem (to_str pc.buff) entry pc.entries
    then (record pc { entries = erase (to_str pc.buff) entry pc.entries }, true)
    else (pc, false)

unfoldable pub remove_with_prefix : PackageContents → Bytes → PackageContents
unfolding lower_bound below erase_while
remove_with_prefix pc prefix =
    let key = to_str pc.buff in
    let rest = lower_bound key prefix pc.entries in
    record pc {
      entries = below key prefix pc.entries ++ erase_while (λ x. has_prefix (key x) prefix) rest;
    }

-- The entries that the callback gets, in order.
unfoldable pub for_each_with_prefix : PackageContents → Bytes → List Bytes
unfolding lower_bound take_while
for_each_with_prefix pc prefix =
    let key = to_str pc.buff in
    map key (take_while (λ x. has_prefix (key x) prefix) (lower_bound key prefix pc.entries))

-- `[]` is the text "".
unfoldable pub main_dir : PackageContents → Bytes
unfolding find
main_dir pc = elim pc.entries [
  | [] ↦ []
  | x ∷ xs ↦ elim (find (to_str pc.buff x) b'/' 0) [
    | none ↦ []
    | some pos ↦
        let candidate = take (pos + 1) (to_str pc.buff x) in
        if has_prefix (to_str pc.buff (last_of x xs)) candidate then candidate else []
  ]
]

-- The test of an archive's entry for a ".." component.
unfoldable pub is_unsafe : Bytes → Bool
unfolding find_str
is_unsafe epath =
    has_prefix epath (codes "../")
    || elim (find_str epath (codes "/../")) [ none ↦ false | some _ ↦ true ]

-- The entries of an archive in its order. `none` is the exception.
unfoldable pub load_from_zip : List Bytes → PackageContents → Option PackageContents
unfolding is_unsafe add_entry
load_from_zip [] pc = some pc
load_from_zip (epath ∷ names) pc =
    let rest = load_from_zip names (add_entry pc epath) in if is_unsafe epath then none else rest

-- The loop of zip_package_main_dir, for the entries that are left.
unfoldable pub main_dir_loop : List Bytes → Bytes → Option Bytes
unfolding is_unsafe find
main_dir_loop [] res = some res
main_dir_loop (epath ∷ names) res =
    let keep = main_dir_loop names res in
    let init = elim (find epath b'/' 0) as (λ _. Option Bytes) [
      | none ↦ some []
      | some pos ↦ main_dir_loop names (take (pos + 1) epath)
    ] in
    if is_unsafe epath
    then none
    else if length res == 0
    then init
    else if not (has_prefix epath res)
    then some []
    else keep

unfoldable pub zip_package_main_dir : List Bytes → Option Bytes
unfolding main_dir_loop
zip_package_main_dir names = main_dir_loop names []

-- What for_each_dir_component meets: files, and directories with what they hold.
mutual
  pub data Dirent : Type 0 where
    file : Bytes → Dirent
    dir : Bytes → Dirents → Dirent

  pub data Dirents : Type 0 where
    nil : Dirents
    more : Dirent → Dirents → Dirents

-- add_path_to_pc: `skip` is the length of the prefix that is left out.
unfoldable pub add_path : ℕ → PackageContents → Bytes → PackageContents
unfolding add_entry
add_path skip pc path = add_entry pc (drop skip path)

-- recursive_impl behind the first entry, with `path` as the lambda's caller leaves it.
unfoldable mutual
  unfolding add_path

  pub load_dirent : ℕ → Bytes → Dirent → PackageContents → PackageContents
  load_dirent skip path (file name) pc = add_path skip pc (path ++ name)
  load_dirent skip path (dir name files) pc =
      let path' = path ++ name ++ b'/' ∷ [] in
      load_dirents skip path' files
        (if ltb (length name + 1) (length path') then add_path skip pc path' else pc)

  pub load_dirents : ℕ → Bytes → Dirents → PackageContents → PackageContents
  load_dirents skip path nil pc = pc
  load_dirents skip path (more f files) pc =
      load_dirents skip path files (load_dirent skip path f pc)

-- With `retain_pkg_path_prefix` nothing of the path is left out. `none` is the failure of throw_assert.
unfoldable pub load_from_directory :
    Bytes → Bool → Dirents → PackageContents → Option PackageContents
unfolding load_dirent remove_trailing
load_from_directory pkg_path retain files pc =
    let pkg_path' = remove_trailing (λ c. c == b'/') pkg_path in
    if is_empty pkg_path
    then none
    else some (load_dirent (if retain then 0 else length pkg_path' + 1) [] (dir pkg_path' files) pc)
