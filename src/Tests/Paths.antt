-- ===== src/Tests/Paths.antt =====
-- Paths, at small texts.
use simlib.Common.{◌≡◌, refl, none, ◌||◌, codes, All}
use simlib.StringTraits.{has_suffix}
use simlib.StringView.Text.{rfind}
use simlib.Path.{slash, path_filename, path_extension, path_dirpath, path_absolute}
use simlib.Path.Names.{shown, IsName}
use simlib.Path.Absolute.{components, resolve, root, path_absolute-resolve}

filename_of : path_filename (codes "/my/path/foo.bar") ≡ codes "foo.bar"
unfolding path_filename rfind
filename_of = refl

extension_of : path_extension (codes "/my.path/foo.cc") ≡ codes "cc"
unfolding path_extension rfind
extension_of = refl

dirpath_of : path_dirpath (codes "abc/efg") ≡ codes "abc/"
unfolding path_dirpath rfind
dirpath_of = refl

path_absolute-resolve_example :
    let st = resolve root (components none (codes "in/../../a//b/.")) in
    All IsName st.0
    × (path_absolute (codes "in/../../a//b/.") slash
        ≡ shown (st.0, st.1 || has_suffix (codes "in/../../a//b/.") slash))
path_absolute-resolve_example = path_absolute-resolve (codes "in/../../a//b/.")
