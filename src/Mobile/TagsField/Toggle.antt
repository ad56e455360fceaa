-- ===== src/Mobile/TagsField/Toggle.antt =====
-- apps/mobile/src/pages/NotePage.tsx and ItemDetailPage.tsx: toggleTagChip.
use omnia_note.Prelude.{
  String, ◌≡◌, refl, true, false, not, List, [], ◌∷◌, ◌++◌, inl, inr, arith, Bool-cases, str_eq,
  eq_iff, includes, select, if◌then◌else◌,
}
use omnia_note.Mobile.TagsField.{parse_tags, toggle_tag_chip}
use omnia_note.Mobile.TagsField.Names.{IsName}
use omnia_note.Mobile.TagsField.RoundTrip.{
  IsDistinct-select, IsDistinct-append, select-All, append-All, parse_tags-join, parse_tags-IsName,
  parse_tags-IsDistinct,
}

-- The names that the field shows after a tap.
toggled : String → List String → List String
toggled tag names =
    if includes names tag then select (λ t. not (str_eq t tag)) names else names ++ tag ∷ []

parse_tags-toggle_tag_chip :
    (tag text : String)
    → IsName tag
    → parse_tags (toggle_tag_chip tag text) ≡ toggled tag (parse_tags text)
unfolding toggle_tag_chip toggled
parse_tags-toggle_tag_chip tag text h =
    let names = parse_tags text in
    let valid = parse_tags-IsName text in
    let distinct = parse_tags-IsDistinct text in
    let others = λ (t : String). not (str_eq t tag) in
    elim (Bool-cases (includes names tag)) [
      | inl old ↦ rw old (
          parse_tags-join (select others names) (select-All IsName others names valid)
            (IsDistinct-select others [] names distinct))
      | inr new ↦ rw new (
          parse_tags-join (names ++ tag ∷ []) (append-All IsName names tag valid h)
            (IsDistinct-append [] names tag (unfold includes in refl) new distinct))
    ]

includes-removed :
    (tag s : String) (names : List String)
    → includes (select (λ t. not (str_eq t tag)) names) s
      ≡ (if str_eq tag s then false else includes names s)
unfolding includes select
includes-removed tag s [] = ground arith
includes-removed tag s (t ∷ names) =
    ground (arith, eq_iff t tag, eq_iff t s, eq_iff tag s, includes-removed tag s names)

includes-append :
    (tag s : String) (names : List String)
    → includes (names ++ tag ∷ []) s ≡ (if str_eq tag s then true else includes names s)
unfolding includes
includes-append tag s [] = ground arith
includes-append tag s (t ∷ names) = ground (arith, includes-append tag s names)

-- A tap on the chip of a tag, whose name is trimmed, not empty and without a comma, takes the tag into the
-- names of the field if it was not among them, and out if it was; the other names stay.
pub toggle_tag_chip_lem :
    (tag text s : String)
    → IsName tag
    → includes (parse_tags (toggle_tag_chip tag text)) s ≡ (
        if str_eq tag s then not (includes (parse_tags text) tag) else includes (parse_tags text) s)
unfolding toggled
toggle_tag_chip_lem tag text s h =
    let names = parse_tags text in
    rw (parse_tags-toggle_tag_chip tag text h)
      (ground (arith, includes-removed tag s names, includes-append tag s names))
