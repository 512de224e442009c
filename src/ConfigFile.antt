-- ===== src/ConfigFile.antt =====
-- class ConfigFile: include/simlib/config_file.hh and src/config_file.cc.
-- `Variable` and the variable set; children `Value` (extract_value), `Load` (the loops of
-- load_config_from_string), `Diagnostics` (throw_parse_error) and `Escape` (the writers).
pub mod Value
pub mod Load
pub mod Diagnostics
pub mod Escape
pub mod Lines
pub mod RoundTrip
pub mod Written
pub mod Reload
pub mod SafeValue
pub mod SafeArray
pub mod SafeLine
pub mod SafeLoad
use simlib.Common.{
  ℕ, Bool, true, false, ◌&&◌, ◌||◌, List, [], ◌∷◌, ◌++◌, Option, none, some, Bytes, if◌then◌else◌,
  codes,
}
use simlib.StringView.Text.{str_eq}
use simlib.StringCompare.{lower_equal}

-- The bits SET and ARRAY of `flag_` are two fields; `beg` and `end` are `value_span_`.
pub record Variable : Type 0 where
  pub set : Bool
  pub array : Bool
  pub str : Bytes
  pub arr : List Bytes
  pub beg : ℕ
  pub end : ℕ

abbrev pub null_var : Variable
null_var = record { set = false; array = false; str = []; arr = []; beg = 0; end = 0 }

-- The span stays as it was.
unfoldable pub unset : Variable → Variable
unset v = record v { set = false; array = false; str = []; arr = [] }

unfoldable pub as_bool : Variable → Bool
as_bool v =
    str_eq v.str (codes "1") || (lower_equal v.str (codes "on") || lower_equal v.str (codes "true"))

-- `std::map<std::string, Variable>`: a list with one entry for a name.
abbrev pub Vars : Type 0
Vars = List (Bytes × Variable)

unfoldable pub find_var : Vars → Bytes → Option Variable
find_var [] name = none
find_var ((k, v) ∷ vars) name = if str_eq k name then some v else find_var vars name

-- Assignment through the reference that `vars[name]` returns.
unfoldable pub put_var : Vars → Bytes → Variable → Vars
put_var [] name v = (name, v) ∷ []
put_var ((k, w) ∷ vars) name v =
    if str_eq k name then (k, v) ∷ vars else (k, w) ∷ put_var vars name v

-- `emplace`: a name that is there keeps its variable.
unfoldable pub add_var : Vars → Bytes → Vars
unfolding find_var
add_var vars name = elim (find_var vars name) [
  | some v ↦ vars
  | none ↦ vars ++ (name, null_var) ∷ []
]

-- operator[] and get_var
unfoldable pub get_var : Vars → Bytes → Variable
unfolding find_var
get_var vars name = elim (find_var vars name) [ some v ↦ v | none ↦ null_var ]

unfoldable pub clear : Vars → Vars
clear vars = []
