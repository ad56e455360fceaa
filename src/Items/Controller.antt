-- ===== src/Items/Controller.antt =====
-- apps/api/src/items/items.controller.ts: the requests about items, each for the account and the user
-- of the access token. The pipes that check the form of ids and bodies are not modelled.
use omnia_note.Prelude.{ℕ, String, Option, List}
use omnia_note.Http.{Exec, pure, gets, ◌>>=◌, ◌>>◌}
use omnia_note.Shared.Enums.{StampType}
use omnia_note.World.{Uuid, Item, NoteAttachment, World, Draws}
use omnia_note.Auth.{Caller}
use omnia_note.Search.{Engine}
use omnia_note.Items.Capture.{CreateItemInput, Created, create, confirm_upload}
use omnia_note.Items.Filing.{
  FileItemInput, file, set_tags, set_stamps, toggle_favorite, attach_to_note,
}
use omnia_note.Items.Tags.{list_tag_names}
use omnia_note.Items.Lists

pub data Request : Type 0 where
  post_item : CreateItemInput → Request
  post_uploaded : (id : Uuid) → (storage_bytes : ℕ) → (mime_type : String) → Request
  get_inbox get_recent get_favorites get_tags : Request
  get_by_folder : (location_id : Uuid) → (folder_id : Option Uuid) → Request
  get_by_spot : (spot_id : Uuid) → Request
  get_search : (q : String) → (location_id : Option Uuid) → Request
  get_item : (id : Uuid) → Request
  patch_file : (id : Uuid) → FileItemInput → Request
  patch_favorite : (id : Uuid) → Request
  patch_stamps : (id : Uuid) → List StampType → Request
  patch_tags : (id : Uuid) → List String → Request
  post_attach : (note_item_id attachment_item_id : Uuid) → Request

pub data Response : Type 0 where
  created : Created → Response
  confirmed : Response
  tiles : List Lists.Tile → Response
  names : List String → Response
  details : Lists.Details → Response
  updated : Item → Response
  tagged : Item → List String → Response
  attached : NoteAttachment → Response

module _ (engine : Engine) (draws : Draws) (user : Caller) where
  unfoldable pub handle : Request → Exec World Response
  handle (post_item input) = do r ← create draws user.account_id user.sub input; pure (created r)
  handle (post_uploaded id bytes mime) = do
    confirm_upload user.account_id id bytes mime
    pure confirmed
  handle get_inbox = do t ← gets (Lists.list_inbox user.account_id); pure (tiles t)
  handle get_recent = do t ← gets (Lists.list_recent user.account_id 20); pure (tiles t)
  handle get_favorites = do t ← gets (Lists.list_favorites user.account_id); pure (tiles t)
  handle get_tags = do t ← gets (list_tag_names user.account_id); pure (names t)
  handle (get_by_folder location_id folder_id) = do
    t ← gets (Lists.list_by_folder user.account_id location_id folder_id)
    pure (tiles t)
  handle (get_by_spot spot_id) = do
    t ← gets (Lists.list_by_spot user.account_id spot_id)
    pure (tiles t)
  handle (get_search q location_id) = do
    t ← gets (Lists.search engine user.account_id q location_id)
    pure (tiles t)
  handle (get_item id) = do d ← Lists.get user.account_id id; pure (details d)
  handle (patch_file id input) = do i ← file user.account_id id input; pure (updated i)
  handle (patch_favorite id) = do i ← toggle_favorite user.account_id id; pure (updated i)
  handle (patch_stamps id stamps) = do i ← set_stamps user.account_id id stamps; pure (updated i)
  handle (patch_tags id tags) = do r ← set_tags draws user.account_id id tags; pure (tagged r.0 r.1)
  handle (post_attach note_id attachment_id) = do
    l ← attach_to_note user.account_id note_id attachment_id
    pure (attached l)
