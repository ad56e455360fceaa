-- ===== src/Mobile/TagsField.antt =====
-- apps/mobile/src/pages/NotePage.tsx and ItemDetailPage.tsx: the field with the names of tags.
mod Names
pub mod RoundTrip
pub mod Toggle
use omnia_note.Prelude.{
  String, not, List, [], ◌∷◌, ◌++◌, map, select, str_eq, trim, includes, unique, split_commas, join,
  if◌then◌else◌,
}

unfoldable pub parse_tags : String → List String
parse_tags text = unique (select (λ t. not (str_eq t "")) (map trim (split_commas text)))

-- A tap on the chip of a tag.
unfoldable pub toggle_tag_chip : String → String → String
toggle_tag_chip tag text =
    let current = parse_tags text in
    join ", " (
      if includes current tag
      then select (λ t. not (str_eq t tag)) current
      else current ++ tag ∷ [])
