-- ===== src/Items/Capture.antt =====
-- apps/api/src/items/items.service.ts: create and confirmUpload.
use omnia_note.Prelude.{
  ℕ, ◌+◌, String, Bool, true, false, not, ◌&&◌, Option, none, some, List, [], ◌∷◌, ◌==◌, str_eq,
  is_some, insert, update_first, concat, if◌then◌else◌,
}
use omnia_note.Http.{
  Exec, bad_request, forbidden, unique_violation, foreign_key_violation, pure, throw, guard, gets,
  modify, or_throw, ◌>>=◌, ◌>>◌,
}
use omnia_note.Shared.Enums.{ItemType, photo, note, StampType}
use omnia_note.Shared.Tiers.{tier_name, is_within_storage_limit}
use omnia_note.World.{
  Uuid, Time, Item, ObjectKey, original, thumbnail, World, Draws, find_account, get_account,
}
use omnia_note.Storage.{Url, upload_url, build_object_key, delete_object}
use omnia_note.Search.{index_item, remove_item}
use omnia_note.Locations.{find_location, find_folder, find_spot, exists_or_null}
use omnia_note.Items.Access.{find_item, get_owned_item, update_item, delete_item}
use omnia_note.Items.Tags.{replace_item_tags}

-- CreateItemInput
pub record CreateItemInput : Type 0 where
  pub type : ItemType
  pub title : String
  pub body : Option String
  pub location_id : Option Uuid
  pub folder_id : Option Uuid
  pub spot_id : Option Uuid
  pub stamps : Option (List StampType)
  pub tag_names : Option (List String)
  pub file_extension : Option String
  pub client_created_at : Time

-- `{ item, uploadUrl, thumbnailUploadUrl }`
pub record Created : Type 0 where
  pub item : Item
  pub upload : Option Url
  pub thumbnail_upload : Option Url

abbrev pub is_media : ItemType → Bool
is_media note = false
is_media _ = true

abbrev pub has_thumbnail : ItemType → Bool
has_thumbnail photo = true
has_thumbnail _ = false

-- The extension as a text, an absent one as the empty text, which counts as absent too.
abbrev pub extension : Option String → String
extension none = ""
extension (some e) = e

abbrev pub or_empty {ℓ} : {A : Type ℓ} → Option (List A) → List A
or_empty none = []
or_empty (some xs) = xs

abbrev pub url_for : String → Option ObjectKey → Option Url
url_for content_type none = none
url_for content_type (some key) = some (upload_url key content_type)

-- The row that `create` writes.
unfoldable pub new_item : Draws → Uuid → Uuid → CreateItemInput → Item
unfolding build_object_key
new_item draws account_id user_id input = record {
  id = draws.row_id;
  account_id = account_id;
  location_id = input.location_id;
  folder_id = input.folder_id;
  spot_id = input.spot_id;
  type = input.type;
  title = input.title;
  body = input.body;
  storage_key =
      if is_media input.type
      then some
          (build_object_key account_id original draws.object_uuid (extension input.file_extension))
      else none;
  thumbnail_key =
      if has_thumbnail input.type
      then some (build_object_key account_id thumbnail draws.thumbnail_uuid "jpg")
      else none;
  mime_type = none;
  storage_bytes = 0;
  stamps = or_empty input.stamps;
  is_favorite = false;
  created_by_user_id = user_id;
  client_created_at = input.client_created_at;
}

-- The foreign keys of Item.
unfoldable pub item_keys_exist : Item → World → Bool
item_keys_exist item w =
    is_some (find_account item.account_id w)
    && exists_or_null item.location_id (λ id. is_some (find_location id w))
    && exists_or_null item.folder_id (λ id. is_some (find_folder id w))
    && exists_or_null item.spot_id (λ id. is_some (find_spot id w))

-- `if (input.tagNames?.length)`
abbrev tag_item : Draws → Uuid → Uuid → List String → World → World
tag_item draws account_id item_id [] w = w
tag_item draws account_id item_id (name ∷ names) w =
    replace_item_tags draws account_id item_id (name ∷ names) w

unfoldable pub create : Draws → Uuid → Uuid → CreateItemInput → Exec World Created
unfolding new_item item_keys_exist replace_item_tags index_item
create draws account_id user_id input = do
  guard (not (is_media input.type && str_eq (extension input.file_extension) ""))
      (bad_request "fileExtension is required for photo/video/pdf items")
  w ← gets (λ s. s)
  let item = new_item draws account_id user_id input
  guard (not (is_some (find_item draws.row_id w))) unique_violation
  guard (item_keys_exist item w) foreign_key_violation
  modify (λ s. record s { items = insert item s.items })
  modify (tag_item draws account_id item.id (or_empty input.tag_names))
  modify (index_item item)
  pure (record {
    item = item;
    upload = url_for "application/octet-stream" item.storage_key;
    thumbnail_upload = url_for "image/jpeg" item.thumbnail_key;
  })

-- What `confirmUpload` does with a file that would not fit.
unfoldable pub discard_upload : Uuid → ObjectKey → World → World
unfolding delete_object delete_item remove_item
discard_upload item_id key w = remove_item item_id (delete_item item_id (delete_object key w))

-- The transaction that records the size, on the item and on the account.
unfoldable pub record_upload : Uuid → Uuid → ℕ → String → World → World
unfolding update_item
record_upload account_id item_id storage_bytes mime_type w =
    let w' =
      update_item item_id
        (λ i. record i { storage_bytes = storage_bytes; mime_type = some mime_type }) w in
    record w' {
      accounts =
          update_first (λ a. a.id == account_id)
            (λ a. record a { storage_used_bytes = a.storage_used_bytes + storage_bytes })
            w'.accounts;
    }

unfoldable pub confirm_upload : Uuid → Uuid → ℕ → String → Exec World (Unit {0})
unfolding get_owned_item discard_upload record_upload
confirm_upload account_id item_id storage_bytes mime_type = do
  item ← get_owned_item account_id item_id
  key ← or_throw (bad_request "This item has no associated file upload") item.storage_key
  account ← get_account account_id
  if is_within_storage_limit account.tier account.storage_used_bytes storage_bytes
      then modify (record_upload account_id item_id storage_bytes mime_type)
      else (do
        modify (discard_upload item_id key)
        throw (
            forbidden (
              concat (
                "This upload would exceed your "
                ∷ tier_name account.tier
                ∷ " plan's storage limit."
                ∷ []))))
