-- ===== src/Locations/Controller.antt =====
-- apps/api/src/locations/locations.controller.ts: the requests about locations, folders and spots.
use omnia_note.Prelude.{String, Option, List}
use omnia_note.Http.{Exec, pure, ◌>>=◌}
use omnia_note.World.{Uuid, Location, Folder, Spot, World, Draws}
use omnia_note.Auth.{Caller}
use omnia_note.Locations.Operations

pub data Request : Type 0 where
  get_locations : Request
  post_location : (name : String) → (address : Option String) → Request
  get_folders get_spots : (location_id : Uuid) → Request
  post_folder : (name : String) → (location_id : Uuid) → (parent_folder_id : Option Uuid) → Request
  post_spot : (name : String) → (location_id : Uuid) → Request
  get_spot : (id : Uuid) → Request

pub data Response : Type 0 where
  locations : List Location → Response
  location : Location → Response
  folders : List Folder → Response
  folder : Folder → Response
  spots : List Spot → Response
  spot : Spot → Response

module _ (by_name : List Spot → List Spot) (draws : Draws) (user : Caller) where
  unfoldable pub handle : Request → Exec World Response
  handle get_locations = do ls ← Operations.list user.account_id; pure (locations ls)
  handle (post_location name address) = do
    l ← Operations.create draws user.account_id name address
    pure (location l)
  handle (get_folders location_id) = do
    fs ← Operations.list_folders user.account_id location_id
    pure (folders fs)
  handle (post_folder name location_id parent_folder_id) = do
    f ← Operations.create_folder draws user.account_id name location_id parent_folder_id
    pure (folder f)
  handle (get_spots location_id) = do
    ss ← Operations.list_spots by_name user.account_id location_id
    pure (spots ss)
  handle (post_spot name location_id) = do
    s ← Operations.create_spot draws user.account_id name location_id
    pure (spot s)
  handle (get_spot id) = do s ← Operations.get_spot user.account_id id; pure (spot s)
