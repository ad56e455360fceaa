-- ===== src/Prelude/Text.antt =====
-- Text: concatenation, as in a template literal, replacement of a character, and trimming.
use Prim.Native.Nat.{ℕ}
use Prim.Native.Char.{code}
use Prim.Native.String
use Prim.Native.String.{String, [], ◌∷◌}
use mathlib.Core.Bool.{Bool, ◌&&◌, ◌||◌}
use mathlib.Core.List.{List}
use text.Mathlib.Text.{◌==◌ as str_eq}
use omnia_note.Prelude.Tests.{◌==◌, leb, if◌then◌else◌}

-- `${a}${b}…`
abbrev pub concat : List String → String
concat List.[] = ""
concat (List.◌∷◌ s rest) = String.◌++◌ s (concat rest)

-- `s.replace(/c/g, by)`
unfoldable pub replace_all : ℕ → String → String → String
replace_all c by [] = ""
replace_all c by (ch ∷ s) =
    let rest = replace_all c by s in if code ch == c then String.◌++◌ by rest else ch ∷ rest

abbrev pub codes : String → List ℕ
codes [] = List.[]
codes (ch ∷ s) = List.◌∷◌ (code ch) (codes s)

-- White space and line terminators of ECMAScript.
abbrev pub is_space : ℕ → Bool
is_space c =
    (leb 9 c && leb c 13)
    || c == 32
    || c == 160
    || c == 0x1680
    || (leb 0x2000 c && leb c 0x200a)
    || c == 0x2028
    || c == 0x2029
    || c == 0x202f
    || c == 0x205f
    || c == 0x3000
    || c == 0xfeff

unfoldable pub trim_start : String → String
trim_start [] = ""
trim_start (ch ∷ s) = let rest = trim_start s in if is_space (code ch) then rest else ch ∷ s

unfoldable pub trim_end : String → String
trim_end [] = ""
trim_end (ch ∷ s) =
    let rest = trim_end s in if is_space (code ch) && str_eq rest "" then "" else ch ∷ rest

unfoldable pub trim : String → String
unfolding trim_start trim_end
trim s = trim_end (trim_start s)
