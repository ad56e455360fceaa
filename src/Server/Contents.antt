-- ===== src/Server/Contents.antt =====
-- What the requests of apps/api/src/locations/locations.controller.ts and
-- apps/api/src/items/items.controller.ts keep of the users, the accounts and the items.
use omnia_note.Prelude.{ℕ, String, Option, List, arith}
use omnia_note.Shared.Enums.{StampType}
use omnia_note.World.{Uuid, Spot, Draws}
use omnia_note.Auth.{Caller}
use omnia_note.Search.{Engine}
use omnia_note.Locations
use omnia_note.Locations.Controller as LocationApi
use omnia_note.Items
use omnia_note.Items.{CreateItemInput, FileItemInput}
use omnia_note.Items.Controller as ItemApi
use omnia_note.Server.Frames.{Statement, Frame, frame}
use omnia_note.Server.Stability.{IsStable, Keeps, Frame-Keeps, kept}

module _ (by_name : List Spot → List Spot) (draws : Draws) (account_id : Uuid) where
  list-Frame : Frame (Locations.list account_id)
  unfolding Locations.list
  list-Frame = frame (λ w. ground arith)

  list_folders-Frame : (id : Uuid) → Frame (Locations.list_folders account_id id)
  unfolding Locations.list_folders
  list_folders-Frame id = frame (λ w. ground arith)

  list_spots-Frame : (id : Uuid) → Frame (Locations.list_spots by_name account_id id)
  unfolding Locations.list_spots
  list_spots-Frame id = frame (λ w. ground arith)

  get_spot-Frame : (id : Uuid) → Frame (Locations.get_spot account_id id)
  unfolding Locations.get_spot
  get_spot-Frame id = frame (λ w. ground arith)

-- What the requests that create locations, folders and spots have to keep.
pub record PlacesKeep (Q : Statement) (stable : IsStable Q) (draws : Draws) (user : Caller)
    : Type 0 where
  pub locations :
      (name : String) (address : Option String)
      → Keeps Q stable (Locations.create draws user.account_id name address)
  pub folders :
      (name : String) (id : Uuid) (parent : Option Uuid)
      → Keeps Q stable (Locations.create_folder draws user.account_id name id parent)
  pub spots :
      (name : String) (id : Uuid)
      → Keeps Q stable (Locations.create_spot draws user.account_id name id)

module _ (Q : Statement) (stable : IsStable Q) (by_name : List Spot → List Spot) (draws : Draws)
    (user : Caller) (keep : PlacesKeep Q stable draws user) where
  pub location_handle-Keeps :
      (r : LocationApi.Request) → Keeps Q stable (LocationApi.handle by_name draws user r)
  unfolding LocationApi.handle
  location_handle-Keeps LocationApi.get_locations =
      search (kept, Frame-Keeps Q stable (list-Frame by_name draws user.account_id))
  location_handle-Keeps (LocationApi.post_location name address) = search (kept, keep.locations)
  location_handle-Keeps (LocationApi.get_folders id) =
      search (kept, Frame-Keeps Q stable (list_folders-Frame by_name draws user.account_id id))
  location_handle-Keeps (LocationApi.post_folder name id parent) = search (kept, keep.folders)
  location_handle-Keeps (LocationApi.get_spots id) =
      search (kept, Frame-Keeps Q stable (list_spots-Frame by_name draws user.account_id id))
  location_handle-Keeps (LocationApi.post_spot name id) = search (kept, keep.spots)
  location_handle-Keeps (LocationApi.get_spot id) =
      search (kept, Frame-Keeps Q stable (get_spot-Frame by_name draws user.account_id id))

module _ (draws : Draws) (account_id : Uuid) where
  set_tags-Frame :
      (id : Uuid) (names : List String) → Frame (Items.set_tags draws account_id id names)
  unfolding Items.set_tags
  set_tags-Frame id names = frame (λ w. ground arith)

  attach_to_note-Frame : (note_id id : Uuid) → Frame (Items.attach_to_note account_id note_id id)
  unfolding Items.attach_to_note
  attach_to_note-Frame note_id id = frame (λ w. ground arith)

  get-Frame : (id : Uuid) → Frame (Items.get account_id id)
  unfolding Items.get
  get-Frame id = frame (λ w. ground arith)

-- What the requests that change items have to keep.
pub record ItemsKeep (Q : Statement) (stable : IsStable Q) (draws : Draws) (user : Caller)
    : Type 0 where
  pub creates :
      (input : CreateItemInput) → Keeps Q stable (Items.create draws user.account_id user.sub input)
  pub confirms :
      (id : Uuid) (bytes : ℕ) (mime : String)
      → Keeps Q stable (Items.confirm_upload user.account_id id bytes mime)
  pub files :
      (id : Uuid) (input : FileItemInput) → Keeps Q stable (Items.file user.account_id id input)
  pub marks : (id : Uuid) → Keeps Q stable (Items.toggle_favorite user.account_id id)
  pub stamps :
      (id : Uuid) (stamps : List StampType)
      → Keeps Q stable (Items.set_stamps user.account_id id stamps)

module _ (Q : Statement) (stable : IsStable Q) (engine : Engine) (draws : Draws) (user : Caller)
    (keep : ItemsKeep Q stable draws user) where
  pub item_handle-Keeps :
      (r : ItemApi.Request) → Keeps Q stable (ItemApi.handle engine draws user r)
  unfolding ItemApi.handle
  item_handle-Keeps (ItemApi.post_item input) = search (kept, keep.creates)
  item_handle-Keeps (ItemApi.post_uploaded id bytes mime) = search (kept, keep.confirms)
  item_handle-Keeps ItemApi.get_inbox = search kept
  item_handle-Keeps ItemApi.get_recent = search kept
  item_handle-Keeps ItemApi.get_favorites = search kept
  item_handle-Keeps ItemApi.get_tags = search kept
  item_handle-Keeps (ItemApi.get_by_folder location_id folder_id) = search kept
  item_handle-Keeps (ItemApi.get_by_spot id) = search kept
  item_handle-Keeps (ItemApi.get_search q location_id) = search kept
  item_handle-Keeps (ItemApi.get_item id) =
      search (kept, Frame-Keeps Q stable (get-Frame draws user.account_id id))
  item_handle-Keeps (ItemApi.patch_file id input) = search (kept, keep.files)
  item_handle-Keeps (ItemApi.patch_favorite id) = search (kept, keep.marks)
  item_handle-Keeps (ItemApi.patch_stamps id stamps) = search (kept, keep.stamps)
  item_handle-Keeps (ItemApi.patch_tags id names) =
      search (kept, Frame-Keeps Q stable (set_tags-Frame draws user.account_id id names))
  item_handle-Keeps (ItemApi.post_attach note_id id) =
      search (kept, Frame-Keeps Q stable (attach_to_note-Frame draws user.account_id note_id id))
