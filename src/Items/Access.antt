-- ===== src/Items/Access.antt =====
-- apps/api/src/items/items.service.ts: getOwnedItem, and the queries on single items.
use omnia_note.Prelude.{Option, ◌||◌, ◌==◌, find_first, update_first, delete_first, delete_where}
use omnia_note.Http.{Exec, not_found, forbidden, pure, guard, gets, or_throw, ◌>>=◌, ◌>>◌}
use omnia_note.World.{Uuid, Item, World}

abbrev pub find_item : Uuid → World → Option Item
find_item id w = find_first (λ i. i.id == id) w.items

unfoldable pub get_owned_item : Uuid → Uuid → Exec World Item
get_owned_item account_id item_id = do
  w ← gets (λ s. s)
  item ← or_throw (not_found "Item not found") (find_item item_id w)
  guard (item.account_id == account_id) (forbidden "Item does not belong to this account")
  pure item

-- prisma.item.update
unfoldable pub update_item : Uuid → (Item → Item) → World → World
update_item id f w = record w { items = update_first (λ i. i.id == id) f w.items }

-- prisma.item.delete, with the rows that refer to the item
unfoldable pub delete_item : Uuid → World → World
delete_item id w = record w {
  items = delete_first (λ i. i.id == id) w.items;
  item_tags = delete_where (λ t. t.item_id == id) w.item_tags;
  note_attachments =
      delete_where (λ a. a.note_item_id == id || a.attachment_item_id == id) w.note_attachments;
}
