-- ===== src/Tests/Strings.antt =====
-- Views, character classes and comparisons, at small strings.
use simlib.Common.{refl, Bytes, codes, arith}
use simlib.StringView.{View}
use simlib.StringView.Refines.{Shows}

-- The view of `name` in a request line.
abbrev buffer : Bytes
buffer = codes "GET name"

abbrev name_view : View
name_view = record { str = 4; len = 4 }

name_view-Shows : Shows buffer name_view (codes "name")
name_view-Shows = record { fits = ground arith; shown = refl }
