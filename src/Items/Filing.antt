-- ===== src/Items/Filing.antt =====
-- apps/api/src/items/items.service.ts: file, setTags, setStamps, toggleFavorite, attachToNote.
use omnia_note.Prelude.{
  String, Bool, true, not, ◌&&◌, Option, none, some, List, ◌==◌, is_some, find_first, insert,
}
use omnia_note.Http.{
  Exec, bad_request, forbidden, unique_violation, pure, guard, gets, modify, ◌>>=◌, ◌>>◌,
}
use omnia_note.Shared.Enums.{StampType, is_note}
use omnia_note.World.{Uuid, Item, Location, Folder, Spot, NoteAttachment, World, Draws}
use omnia_note.Search.{index_item}
use omnia_note.Locations.{find_location, find_folder, find_spot}
use omnia_note.Items.Access.{get_owned_item, update_item}
use omnia_note.Items.Tags.{replace_item_tags, get_tag_names}

-- A nullable optional field: absent, null, or an id.
pub data Patch : Type 0 where
  keep clear : Patch
  put : Uuid → Patch

-- FileItemInput
pub record FileItemInput : Type 0 where
  pub location_id : Uuid
  pub folder_id : Patch
  pub spot_id : Patch

-- What prisma's update makes of such a field.
abbrev pub patched : Patch → Option Uuid → Option Uuid
patched keep old = old
patched clear old = none
patched (put id) old = some id

abbrev pub is_account_location : Uuid → Option Location → Bool
is_account_location account_id none = Bool.false
is_account_location account_id (some l) = l.account_id == account_id

abbrev pub folder_at : Uuid → Option Folder → Bool
folder_at location_id none = Bool.false
folder_at location_id (some f) = f.location_id == location_id

abbrev pub spot_at : Uuid → Option Spot → Bool
spot_at location_id none = Bool.false
spot_at location_id (some s) = s.location_id == location_id

-- `if (input.folderId) …`: only an id is looked up.
abbrev pub patch_ok : Patch → (Uuid → Bool) → Bool
patch_ok (put id) known = known id
patch_ok _ known = true

abbrev pub filed : FileItemInput → Item → Item
filed input i = record i {
  location_id = some input.location_id;
  folder_id = patched input.folder_id i.folder_id;
  spot_id = patched input.spot_id i.spot_id;
}

unfoldable pub file : Uuid → Uuid → FileItemInput → Exec World Item
unfolding get_owned_item update_item index_item
file account_id item_id input = do
  item ← get_owned_item account_id item_id
  w ← gets (λ s. s)
  guard (is_account_location account_id (find_location input.location_id w))
      (forbidden "Location does not belong to this account")
  guard (patch_ok input.folder_id (λ id. folder_at input.location_id (find_folder id w)))
      (forbidden "Folder does not belong to this location")
  guard (patch_ok input.spot_id (λ id. spot_at input.location_id (find_spot id w)))
      (forbidden "Spot does not belong to this location")
  modify (update_item item_id (filed input))
  modify (index_item (filed input item))
  pure (filed input item)

unfoldable pub set_tags : Draws → Uuid → Uuid → List String → Exec World (Item × List String)
unfolding get_owned_item replace_item_tags index_item get_tag_names
set_tags draws account_id item_id names = do
  item ← get_owned_item account_id item_id
  modify (replace_item_tags draws account_id item_id names)
  modify (index_item item)
  w ← gets (λ s. s)
  pure (item, get_tag_names item_id w)

unfoldable pub set_stamps : Uuid → Uuid → List StampType → Exec World Item
unfolding get_owned_item update_item index_item
set_stamps account_id item_id stamps = do
  item ← get_owned_item account_id item_id
  modify (update_item item_id (λ i. record i { stamps = stamps }))
  modify (index_item (record item { stamps = stamps }))
  pure (record item { stamps = stamps })

unfoldable pub toggle_favorite : Uuid → Uuid → Exec World Item
unfolding get_owned_item update_item index_item
toggle_favorite account_id item_id = do
  item ← get_owned_item account_id item_id
  modify (update_item item_id (λ i. record i { is_favorite = not item.is_favorite }))
  modify (index_item (record item { is_favorite = not item.is_favorite }))
  pure (record item { is_favorite = not item.is_favorite })

abbrev pub same_link : Uuid → Uuid → NoteAttachment → Bool
same_link note_id attachment_id a =
    a.note_item_id == note_id && a.attachment_item_id == attachment_id

unfoldable pub attach_to_note : Uuid → Uuid → Uuid → Exec World NoteAttachment
unfolding get_owned_item
attach_to_note account_id note_id attachment_id = do
  note ← get_owned_item account_id note_id
  attachment ← get_owned_item account_id attachment_id
  guard (is_note note.type) (bad_request "Attachments can only be added to NOTE items")
  w ← gets (λ s. s)
  guard (not (is_some (find_first (same_link note.id attachment.id) w.note_attachments)))
      unique_violation
  let link : NoteAttachment = record { note_item_id = note.id; attachment_item_id = attachment.id }
  modify (λ s. record s { note_attachments = insert link s.note_attachments })
  pure link
