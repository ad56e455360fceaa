-- ===== src/Items/Lists.antt =====
-- apps/api/src/items/items.service.ts: get, the lists, search. Equal times stay in the order of the
-- table; the database leaves that order open.
use omnia_note.Prelude.{
  ℕ, zero, suc, String, Bool, true, false, ◌&&◌, Option, none, some, List, [], ◌∷◌, ◌==◌, leb,
  find_first, select, if◌then◌else◌,
}
use omnia_note.Http.{Exec, pure, gets, ◌>>=◌}
use omnia_note.Shared.Enums.{ItemType, is_note}
use omnia_note.World.{Uuid, Item, ObjectKey, NoteAttachment, World}
use omnia_note.Storage.{Url, download_url}
use omnia_note.Search.{Engine}
use omnia_note.Items.Access.{find_item, get_owned_item}
use omnia_note.Items.Tags.{get_tag_names}

-- An item with its `thumbnailUrl`.
pub record Tile : Type 0 where
  pub item : Item
  pub thumbnail_url : Option Url

pub record AttachmentSummary : Type 0 where
  pub id : Uuid
  pub type : ItemType
  pub title : String
  pub thumbnail_url : Option Url

pub record Details : Type 0 where
  pub item : Item
  pub download : Option Url
  pub thumbnail_url : Option Url
  pub tags : List String
  pub attachments : List AttachmentSummary

abbrev pub download_of : Option ObjectKey → Option Url
download_of none = none
download_of (some key) = some (download_url key)

unfoldable pub with_thumbnail_urls : List Item → List Tile
with_thumbnail_urls [] = []
with_thumbnail_urls (i ∷ is) =
    record { item = i; thumbnail_url = download_of i.thumbnail_key } ∷ with_thumbnail_urls is

-- orderBy: { clientCreatedAt: "desc" }
unfoldable pub insert_newest : Item → List Item → List Item
insert_newest i [] = i ∷ []
insert_newest i (j ∷ js) =
    if leb j.client_created_at i.client_created_at then i ∷ j ∷ js else j ∷ insert_newest i js

unfoldable pub newest_first : List Item → List Item
unfolding insert_newest
newest_first [] = []
newest_first (i ∷ is) = insert_newest i (newest_first is)

unfoldable pub take : ℕ → List Item → List Item
take zero is = []
take (suc n) [] = []
take (suc n) (i ∷ is) = i ∷ take n is

-- `null` against a nullable column
abbrev pub same_id : Option Uuid → Option Uuid → Bool
same_id none none = true
same_id (some a) (some b) = a == b
same_id _ _ = false

-- The `where` of each list.
abbrev pub in_inbox : Uuid → Item → Bool
in_inbox account_id i = i.account_id == account_id && same_id i.location_id none

abbrev pub of_account : Uuid → Item → Bool
of_account account_id i = i.account_id == account_id

abbrev pub in_favorites : Uuid → Item → Bool
in_favorites account_id i = i.account_id == account_id && i.is_favorite

abbrev pub in_folder : Uuid → Uuid → Option Uuid → Item → Bool
in_folder account_id location_id none i =
    i.account_id == account_id
    && same_id i.location_id (some location_id)
    && same_id i.folder_id none
    && same_id i.spot_id none
in_folder account_id location_id (some folder_id) i =
    i.account_id == account_id
    && same_id i.location_id (some location_id)
    && same_id i.folder_id (some folder_id)

abbrev pub in_spot : Uuid → Uuid → Item → Bool
in_spot account_id spot_id i = i.account_id == account_id && same_id i.spot_id (some spot_id)

unfoldable pub list_where : (Item → Bool) → World → List Tile
unfolding newest_first with_thumbnail_urls
list_where p w = with_thumbnail_urls (newest_first (select p w.items))

unfoldable pub list_inbox : Uuid → World → List Tile
unfolding list_where
list_inbox account_id = list_where (in_inbox account_id)

unfoldable pub list_recent : Uuid → ℕ → World → List Tile
unfolding newest_first with_thumbnail_urls take
list_recent account_id limit w =
    with_thumbnail_urls (take limit (newest_first (select (of_account account_id) w.items)))

unfoldable pub list_favorites : Uuid → World → List Tile
unfolding list_where
list_favorites account_id = list_where (in_favorites account_id)

unfoldable pub list_by_folder : Uuid → Uuid → Option Uuid → World → List Tile
unfolding list_where
list_by_folder account_id location_id folder_id =
    list_where (in_folder account_id location_id folder_id)

unfoldable pub list_by_spot : Uuid → Uuid → World → List Tile
unfolding list_where
list_by_spot account_id spot_id = list_where (in_spot account_id spot_id)

abbrev pub prepend : Option Item → List Item → List Item
prepend none is = is
prepend (some i) is = i ∷ is

abbrev pub own_item : Uuid → Uuid → Item → Bool
own_item account_id id i = i.id == id && i.account_id == account_id

-- The hits that are items of the account, in the order of the hits.
unfoldable pub resolve : Uuid → List Item → List Uuid → List Item
resolve account_id items [] = []
resolve account_id items (id ∷ ids) =
    prepend (find_first (own_item account_id id) items) (resolve account_id items ids)

unfoldable pub search : Engine → Uuid → String → Option Uuid → World → List Tile
unfolding resolve with_thumbnail_urls
search engine account_id query location_id w =
    with_thumbnail_urls (resolve account_id w.items (engine w.index account_id query location_id))

unfoldable pub note_attachments : World → List NoteAttachment → List AttachmentSummary
note_attachments w [] = []
note_attachments w (a ∷ as') = elim (find_item a.attachment_item_id w) [
  | none ↦ note_attachments w as'
  | some i ↦
      record {
        id = i.id;
        type = i.type;
        title = i.title;
        thumbnail_url = download_of i.thumbnail_key;
      }
      ∷ note_attachments w as'
]

unfoldable pub get : Uuid → Uuid → Exec World Details
unfolding get_owned_item get_tag_names note_attachments
get account_id item_id = do
  item ← get_owned_item account_id item_id
  w ← gets (λ s. s)
  pure (record {
    item = item;
    download = download_of item.storage_key;
    thumbnail_url = download_of item.thumbnail_key;
    tags = get_tag_names item_id w;
    attachments =
        if is_note item.type
        then note_attachments w (select (λ a. a.note_item_id == item_id) w.note_attachments)
        else [];
  })
