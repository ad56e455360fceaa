-- ===== src/Prelude/TextLists.antt =====
-- Lists of texts: `includes`, `new Set`, `split(",")` and `join`.
use Prim.Native.Char.{Char, code}
use Prim.Native.String
use Prim.Native.String.{String}
use mathlib.Core.Bool.{Bool, false, ◌||◌}
use mathlib.Core.List.{List, [], ◌∷◌}
use text.Mathlib.Text.{◌==◌ as str_eq}
use omnia_note.Prelude.Tests.{◌==◌, if◌then◌else◌}

unfoldable pub includes : List String → String → Bool
includes [] s = false
includes (t ∷ ts) s = str_eq t s || includes ts s

-- `[...new Set(names)]` keeps the first of equal names.
unfoldable pub unique_from : List String → List String → List String
unique_from seen [] = []
unique_from seen (s ∷ rest) =
    if includes seen s then unique_from seen rest else s ∷ unique_from (s ∷ seen) rest

abbrev pub unique : List String → List String
unique names = unique_from [] names

-- A character in front of the first text.
abbrev pub prepend : Char → List String → List String
prepend ch [] = String.◌∷◌ ch "" ∷ []
prepend ch (t ∷ ts) = String.◌∷◌ ch t ∷ ts

unfoldable pub split_commas : String → List String
split_commas String.[] = "" ∷ []
split_commas (String.◌∷◌ ch s) =
    let rest = split_commas s in if code ch == b',' then "" ∷ rest else prepend ch rest

unfoldable pub join : String → List String → String
join separator [] = ""
join separator (t ∷ []) = t
join separator (t ∷ u ∷ ts) = String.◌++◌ t (String.◌++◌ separator (join separator (u ∷ ts)))
