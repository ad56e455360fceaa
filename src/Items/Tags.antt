-- ===== src/Items/Tags.antt =====
-- apps/api/src/items/items.service.ts: replaceItemTags, getTagNames, listTagNames. Tags are found or
-- created by name within the account.
use omnia_note.Prelude.{
  ℕ, String, Bool, true, false, not, ◌&&◌, ◌||◌, none, some, trim, unique, List, [], ◌∷◌, ◌++◌, map,
  ◌==◌, ltb, str_eq, find_first, select, insert, delete_where, codes, if◌then◌else◌,
}
use omnia_note.World.{Uuid, Tag, ItemTag, World, Draws}

-- the names of a request, trimmed, without the empty ones and the repeated ones
unfoldable pub unique_names : List String → List String
unique_names names = unique (select (λ s. not (str_eq s "")) (map trim names))

abbrev pub tag_named : Uuid → String → Tag → Bool
tag_named account_id name t = t.account_id == account_id && str_eq t.name name

-- tag.upsert for each name; the ids of the tags come back with the table
unfoldable pub upsert_tags : Draws → Uuid → List String → List Tag → List Uuid × List Tag
upsert_tags draws account_id [] tags = ([], tags)
upsert_tags draws account_id (name ∷ names) tags =
    elim (find_first (tag_named account_id name) tags) [
      | some t ↦ (let (ids, tags') = upsert_tags draws account_id names tags in (t.id ∷ ids, tags'))
      | none ↦
          (let new : Tag = record {
            id = draws.tag_id name;
            account_id = account_id;
            name = name;
          } in
            let (ids, tags') = upsert_tags draws account_id names (insert new tags) in
            (new.id ∷ ids, tags'))
    ]

unfoldable pub link_tags : Uuid → List Uuid → List ItemTag
link_tags item_id [] = []
link_tags item_id (id ∷ ids) = record { item_id = item_id; tag_id = id } ∷ link_tags item_id ids

-- The links of the item are replaced in one transaction.
unfoldable pub replace_item_tags : Draws → Uuid → Uuid → List String → World → World
unfolding unique_names upsert_tags link_tags
replace_item_tags draws account_id item_id names w =
    let (ids, tags') = upsert_tags draws account_id (unique_names names) w.tags in
    record w {
      tags = tags';
      item_tags = delete_where (λ l. l.item_id == item_id) w.item_tags ++ link_tags item_id ids;
    }

-- `sort()` of texts, by their characters
text_le : List ℕ → List ℕ → Bool
text_le [] b = true
text_le (x ∷ a) [] = false
text_le (x ∷ a) (y ∷ b) = ltb x y || (x == y && text_le a b)

insert_sorted : String → List String → List String
insert_sorted s [] = s ∷ []
insert_sorted s (t ∷ ts) =
    if text_le (codes s) (codes t) then s ∷ t ∷ ts else t ∷ insert_sorted s ts

unfoldable pub sort_names : List String → List String
unfolding insert_sorted text_le
sort_names [] = []
sort_names (s ∷ ss) = insert_sorted s (sort_names ss)

-- The names of the tags that the links lead to.
unfoldable pub linked_names : List Tag → List ItemTag → List String
linked_names tags [] = []
linked_names tags (l ∷ ls) = elim (find_first (λ (t : Tag). t.id == l.tag_id) tags) [
  | none ↦ linked_names tags ls
  | some t ↦ t.name ∷ linked_names tags ls
]

unfoldable pub get_tag_names : Uuid → World → List String
unfolding sort_names linked_names
get_tag_names item_id w =
    sort_names (linked_names w.tags (select (λ l. l.item_id == item_id) w.item_tags))

unfoldable pub list_tag_names : Uuid → World → List String
unfolding sort_names
list_tag_names account_id w =
    sort_names (map (λ (t : Tag). t.name) (select (λ t. t.account_id == account_id) w.tags))
