-- ===== src/Tests/Config.antt =====
-- The configuration reader and writer, run on small texts.
use simlib.Common.{
  inl, ◌+◌, ◌≡◌, refl, true, false, [], ◌∷◌, ◌++◌, Bytes, codes, All, arith, none, List,
}
use simlib.Tests.{text_of}
use simlib.Ctype.{is_cntrl}
use simlib.ConfigFile.Value.{ok, err, unknown_escape_sequence, extract_value, ends_literal}
use simlib.ConfigFile.Escape.{
  escape_to_double_quoted_string_impl, double_quoted_body, escape_string, full_escape_string,
}
use simlib.ConfigFile.Load.{is_name, loaded, load_config_from_string}
use simlib.ConfigFile.RoundTrip.{
  extract_value-double_quoted, extract_value-nul, extract_value-escape_string,
}
use simlib.ConfigFile.Diagnostics.{line_at, col_at, last_newline, newlines}
use simlib.ConfigFile.Diagnostics.Place.{Place, line_at-Place}
use simlib.ConfigFile.SafeLoad.{Outcome, load_config_from_string-Outcome}
use simlib.ConfigFile.Written.{Entry, IsEntry, config_of}
use simlib.ConfigFile.Reload.{last_value, Becomes, load_config_from_string-config_of}
use simlib.ConfigFile.{Vars, get_var}

abbrev quoted : Bytes
quoted = codes "a\"b"

load_config_from_string-Outcome_example :
    Outcome (7 + 1) (load_config_from_string [] (codes "a: [b, ") true)
load_config_from_string-Outcome_example = load_config_from_string-Outcome [] (codes "a: [b, ") true

extract_value-double_quoted_example :
    extract_value false (escape_to_double_quoted_string_impl quoted is_cntrl ++ codes "\n")
    ≡ ok quoted (codes "\n")
extract_value-double_quoted_example =
    extract_value-double_quoted is_cntrl false quoted (codes "\n") (text_of quoted refl)

extract_value-nul_example :
    extract_value false
      (escape_to_double_quoted_string_impl (quoted ++ 0 ∷ codes "c") is_cntrl ++ codes "\n")
    ≡ err unknown_escape_sequence (codes "0c\"\n")
unfolding double_quoted_body is_cntrl
extract_value-nul_example =
    extract_value-nul is_cntrl false quoted (codes "c") (codes "\n") (text_of quoted refl)

extract_value-escape_string_example :
    (extract_value false (escape_string quoted ++ codes "\n") ≡ ok quoted (codes "\n"))
    × (extract_value false (full_escape_string quoted ++ codes "\n") ≡ ok quoted (codes "\n"))
extract_value-escape_string_example =
    extract_value-escape_string false quoted b'\n' [] (text_of quoted refl)
      (unfold ends_literal in refl)

abbrev entries : List Entry
entries = (codes "name", codes "Sum of digits") ∷ (codes "label", quoted) ∷ []

entries-IsEntry : All IsEntry entries
entries-IsEntry = (
  record {
    name_nonempty = λ e. cc;
    name_chars = unfold is_name in refl;
    text = text_of (codes "Sum of digits") refl;
  },
  (
    record {
      name_nonempty = λ e. cc;
      name_chars = unfold is_name in refl;
      text = text_of quoted refl;
    },
    tt,
  ),
)

load_config_from_string-config_of_example :
    (vars' : Vars) × (load_config_from_string [] (config_of entries []) true ≡ loaded vars')
    × ((name : Bytes)
        → Becomes (last_value entries name none) (get_var [] name) (get_var vars' name))
load_config_from_string-config_of_example =
    load_config_from_string-config_of [] entries entries-IsEntry

-- At the `?` of the second line.
line_at-Place_example :
    Place (codes "a: 1\nb?\n") 6 (line_at (codes "a: 1\nb?\n") 6) (col_at (codes "a: 1\nb?\n") 6)
line_at-Place_example = line_at-Place (codes "a: 1\nb?\n") 6 (omega arith) (inl (omega arith))

second_line : line_at (codes "a: 1\nb?\n") 6 ≡ 2
unfolding line_at last_newline newlines
second_line = refl

second_column : col_at (codes "a: 1\nb?\n") 6 ≡ 2
unfolding col_at line_at last_newline newlines
second_column = refl
