-- ===== src/Path.antt =====
-- Paths: src/path.cc and include/simlib/path.hh. Which paths exist is the file system's to say, and so
-- a parameter of deepest_ancestor_dir_with_subpath.
use simlib.Common.{
  ℕ, zero, suc, ◌+◌, ◌-◌, ◌&&◌, not, Bool, true, false, List, [], ◌∷◌, ◌++◌, Bytes, Option, none,
  some, codes, length, take, drop, ltb, ◌==◌, if◌then◌else◌,
}
use simlib.StringView.Text.{rfind, leading, remove_leading, str_eq}
use simlib.StringTraits.{has_suffix}
pub mod Names
pub mod Absolute

abbrev pub slash : Bytes
slash = b'/' ∷ []

abbrev pub not_slash : ℕ → Bool
not_slash c = not (c == b'/')

unfoldable pub path_filename : Bytes → Bytes
path_filename path = elim (rfind path b'/' 0) [ none ↦ path | some pos ↦ drop (pos + 1) path ]

unfoldable pub path_extension : Bytes → Bytes
path_extension path =
    let start_pos = elim (rfind path b'/' 0) as (λ _. ℕ) [ none ↦ 0 | some pos ↦ pos + 1 ] in
    elim (rfind path b'.' start_pos) [ none ↦ [] | some x ↦ drop (x + 1) path ]

unfoldable pub path_dirpath : Bytes → Bytes
path_dirpath path = elim (rfind path b'/' 0) [ none ↦ [] | some pos ↦ take (pos + 1) path ]

-- `if (has_suffix(curr_path, "/") and curr_path != "/") curr_path.pop_back();`
unfoldable pub without_slash : Bytes → Bytes
without_slash curr_path =
    if has_suffix curr_path slash && not (str_eq curr_path slash)
    then take (length curr_path - 1) curr_path
    else curr_path

unfoldable pub erase_last_component : Bytes → Bytes
unfolding without_slash path_filename
erase_last_component curr_path =
    let curr_path' = without_slash curr_path in
    take (length curr_path' - length (path_filename curr_path')) curr_path'

abbrev pub is_empty : Bytes → Bool
is_empty [] = true
is_empty (c ∷ s) = false

-- "Current path is a directory"
unfoldable pub as_directory : Bytes → Bytes
as_directory curr_path =
    if not (has_suffix curr_path slash) && not (is_empty curr_path)
    then curr_path ++ slash
    else curr_path

unfoldable pub process_component : Bytes → Bytes → Bytes
unfolding erase_last_component as_directory
process_component curr_path component =
    if str_eq component (codes "..")
    then erase_last_component curr_path
    else if str_eq component (codes ".")
    then as_directory curr_path
    else as_directory curr_path ++ component

-- The loop, of the path from `i` on; a component ends at the next slash, which is skipped.
unfoldable pub component_loop : ℕ → Bytes → Bytes → Bytes
unfolding process_component
component_loop f curr_path [] = curr_path
component_loop zero curr_path (c ∷ s) = curr_path
component_loop (suc f) curr_path (c ∷ s) = elim (c == b'/') [
  | true ↦ component_loop f curr_path s
  | false ↦
      component_loop f (process_component curr_path (leading not_slash (c ∷ s)))
        (drop 1 (remove_leading not_slash (c ∷ s)))
]

-- `if (path.front() == '/') curr_path = '/';` and the slash at its end
unfoldable pub start_dir : Bytes → Bytes → Bytes
start_dir [] curr_dir = curr_dir
start_dir (c ∷ s) curr_dir =
    let curr_path = if c == b'/' then slash else curr_dir in
    if not (has_suffix curr_path slash) then curr_path ++ slash else curr_path

unfoldable pub path_absolute : Bytes → Bytes → Bytes
unfolding start_dir component_loop
path_absolute [] curr_dir = curr_dir
path_absolute (c ∷ s) curr_dir =
    let curr_path = component_loop (length (c ∷ s)) (start_dir (c ∷ s) curr_dir) (c ∷ s) in
    if has_suffix (c ∷ s) slash && not (has_suffix curr_path slash)
    then curr_path ++ slash
    else curr_path

-- `while (true)`; the path is a slash shorter in each turn, so that its length is enough fuel.
unfoldable pub ancestor_loop : (Bytes → Bool) → ℕ → Bytes → Bytes → Option Bytes
unfolding path_dirpath
ancestor_loop path_exists zero path subpath = none
ancestor_loop path_exists (suc f) path subpath =
    let dir = path_dirpath path in
    let candidate = dir ++ subpath in
    elim (path_exists candidate) [
      | true ↦ some candidate
      | false ↦ elim (ltb (length dir) 2) [
        | true ↦ none
        | false ↦ ancestor_loop path_exists f (take (length dir - 1) candidate) subpath
      ]
    ]

unfoldable pub deepest_ancestor_dir_with_subpath : (Bytes → Bool) → Bytes → Bytes → Option Bytes
unfolding ancestor_loop
deepest_ancestor_dir_with_subpath path_exists path subpath =
    ancestor_loop path_exists (length path + 1) path (remove_leading (λ c. c == b'/') subpath)
