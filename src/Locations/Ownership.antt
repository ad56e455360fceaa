-- ===== src/Locations/Ownership.antt =====
-- The locations, folders and spots in the answers of
-- apps/api/src/locations/locations.controller.ts.
use omnia_note.Prelude.{
  ◌≡◌, some, List, arith, ◌==◌, inl, inr, ◌⊎◌, Bool-cases, Option-cases, select, All, All-select,
}
use omnia_note.Http.{Exception, returned, thrown, not_found, forbidden, answer, Answered}
use omnia_note.World.{Uuid, Location, Folder, Spot, World, Draws}
use omnia_note.Auth.{Caller}
use omnia_note.Locations.Operations.{
  find_location, find_spot, locations_of, folders_at, spots_at, assert_location_ownership, list,
  create, list_folders, create_folder, list_spots, create_spot,
}
use omnia_note.Locations.Operations
use omnia_note.Locations.Controller.{
  Request, Response, get_locations, post_location, get_folders, get_spots, post_folder, post_spot,
  get_spot, locations, location, folders, folder, spots, spot, handle,
}

-- A location of the account.
abbrev pub IsOwn : Uuid → World → Uuid → Type 0
IsOwn account_id w id = (l : Location) × (find_location id w ≡ some l) × (l.account_id ≡ account_id)

abbrev pub OwnPlaces : Uuid → World → Response → Type 0
OwnPlaces account_id w (locations ls) = All (λ (l : Location). l.account_id ≡ account_id) ls
OwnPlaces account_id w (location l) = l.account_id ≡ account_id
OwnPlaces account_id w (folders fs) = All (λ (f : Folder). IsOwn account_id w f.location_id) fs
OwnPlaces account_id w (folder f) = IsOwn account_id w f.location_id
OwnPlaces account_id w (spots ss) = All (λ (s : Spot). IsOwn account_id w s.location_id) ss
OwnPlaces account_id w (spot s) = IsOwn account_id w s.location_id

module _ (account_id location_id : Uuid) (w : World) (own : IsOwn account_id w location_id) where
  All-folders_at :
      All
        (λ (f : Folder). IsOwn account_id w f.location_id)
        (select (folders_at location_id) w.folders)
  All-folders_at =
      All-select (λ (f : Folder). IsOwn account_id w f.location_id) (folders_at location_id)
        w.folders (λ f h. (own.0, ground (arith, own.1), own.2))

  All-spots_at :
      All (λ (s : Spot). IsOwn account_id w s.location_id) (select (spots_at location_id) w.spots)
  All-spots_at =
      All-select (λ (s : Spot). IsOwn account_id w s.location_id) (spots_at location_id) w.spots
        (λ s h. (own.0, ground (arith, own.1), own.2))

assert_location_ownership-cases :
    (account_id location_id : Uuid) (w : World)
    → (IsOwn account_id w location_id
        × (assert_location_ownership account_id location_id w ≡ returned tt w))
      ⊎ ((e : Exception) × (assert_location_ownership account_id location_id w ≡ thrown e w))
unfolding assert_location_ownership
assert_location_ownership-cases account_id location_id w =
    elim (Option-cases (find_location location_id w)) [
      | inl absent ↦ inr (not_found "Location not found", ground arith)
      | inr (l, e) ↦ elim (Bool-cases (l.account_id == account_id)) [
        | inl own ↦ inl ((l, e, ground arith), ground arith)
        | inr other ↦ inr (forbidden "Location does not belong to this account", ground arith)
      ]
    ]

-- If ordering by name keeps what holds of all rows, then the locations that a successful answer shows
-- belong to the account that asked, and the folders and spots stand in locations that belonged to it
-- before the request.
pub handle-OwnPlaces :
    (by_name : List Spot → List Spot) (draws : Draws) (user : Caller) (r : Request) (w : World)
    → ((P : Spot → Type 0) (ss : List Spot) → All P ss → All P (by_name ss))
    → Answered (OwnPlaces user.account_id w) (answer (handle by_name draws user r) w)
unfolding handle
handle-OwnPlaces by_name draws user get_locations w sorts =
    unfold list in All-select _ (locations_of user.account_id) w.locations (λ l h. ground arith)
handle-OwnPlaces by_name draws user (post_location name address) w sorts =
    unfold create in ground arith
handle-OwnPlaces by_name draws user (get_folders location_id) w sorts =
    unfold list_folders in
    elim (assert_location_ownership-cases user.account_id location_id w) [
      | inl (own, passes) ↦ rw passes (All-folders_at user.account_id location_id w own)
      | inr (e, stops) ↦ rw stops tt
    ]
handle-OwnPlaces by_name draws user (post_folder name location_id parent) w sorts =
    unfold create_folder in
    elim (assert_location_ownership-cases user.account_id location_id w) [
      | inl (own, passes) ↦ rw passes (ground (arith, own))
      | inr (e, stops) ↦ rw stops tt
    ]
handle-OwnPlaces by_name draws user (get_spots location_id) w sorts =
    unfold list_spots in
    elim (assert_location_ownership-cases user.account_id location_id w) [
      | inl (own, passes) ↦ rw passes (sorts _ _ (All-spots_at user.account_id location_id w own))
      | inr (e, stops) ↦ rw stops tt
    ]
handle-OwnPlaces by_name draws user (post_spot name location_id) w sorts =
    unfold create_spot in
    elim (assert_location_ownership-cases user.account_id location_id w) [
      | inl (own, passes) ↦ rw passes (ground (arith, own))
      | inr (e, stops) ↦ rw stops tt
    ]
handle-OwnPlaces by_name draws user (get_spot id) w sorts =
    unfold Operations.get_spot in
    elim (Option-cases (find_spot id w)) [
      | inl absent ↦ rw absent tt
      | inr (s, e) ↦ elim (assert_location_ownership-cases user.account_id s.location_id w) [
        | inl (own, passes) ↦ rw (e, passes) own
        | inr (e', stops) ↦ rw (e, stops) tt
      ]
    ]
