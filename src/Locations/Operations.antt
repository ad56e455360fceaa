-- ===== src/Locations/Operations.antt =====
-- apps/api/src/locations/locations.service.ts. Rows stand in the order of their creation; the
-- order by name is the database's, and a parameter.
use omnia_note.Prelude.{
  String, Bool, not, Option, none, some, List, [], ◌∷◌, ◌==◌, is_some, find_first, count, select,
  insert, concat,
}
use omnia_note.Http.{
  Exec, forbidden, not_found, unique_violation, foreign_key_violation, pure, guard, gets, modify,
  or_throw, ◌>>=◌, ◌>>◌,
}
use omnia_note.Shared.Tiers.{
  tier_name, is_within_location_limit, is_within_folder_limit, is_within_spot_limit,
}
use omnia_note.World.{Uuid, Location, Folder, Spot, World, Draws, get_account}

abbrev pub find_location : Uuid → World → Option Location
find_location id w = find_first (λ l. l.id == id) w.locations

abbrev pub find_folder : Uuid → World → Option Folder
find_folder id w = find_first (λ f. f.id == id) w.folders

abbrev pub find_spot : Uuid → World → Option Spot
find_spot id w = find_first (λ s. s.id == id) w.spots

abbrev pub folders_at : Uuid → Folder → Bool
folders_at location_id f = f.location_id == location_id

abbrev pub spots_at : Uuid → Spot → Bool
spots_at location_id s = s.location_id == location_id

abbrev pub locations_of : Uuid → Location → Bool
locations_of account_id l = l.account_id == account_id

unfoldable pub assert_location_ownership : Uuid → Uuid → Exec World (Unit {0})
assert_location_ownership account_id location_id = do
  w ← gets (λ s. s)
  location ← or_throw (not_found "Location not found") (find_location location_id w)
  guard (location.account_id == account_id) (forbidden "Location does not belong to this account")

-- A foreign key that may be null.
abbrev pub exists_or_null : Option Uuid → (Uuid → Bool) → Bool
exists_or_null none known = Bool.true
exists_or_null (some id) known = known id

unfoldable pub list : Uuid → Exec World (List Location)
list account_id = gets (λ w. select (locations_of account_id) w.locations)

unfoldable pub create : Draws → Uuid → String → Option String → Exec World Location
create draws account_id name address = do
  account ← get_account account_id
  w ← gets (λ s. s)
  guard (is_within_location_limit account.tier (count (locations_of account_id) w.locations)) (
      forbidden (
        concat (
          "Your "
          ∷ tier_name account.tier
          ∷ " plan allows a limited number of locations — upgrade to add another."
          ∷ [])))
  guard (not (is_some (find_location draws.row_id w))) unique_violation
  let new : Location = record {
    id = draws.row_id;
    account_id = account_id;
    name = name;
    address = address;
  }
  modify (λ s. record s { locations = insert new s.locations })
  pure new

unfoldable pub list_folders : Uuid → Uuid → Exec World (List Folder)
unfolding assert_location_ownership
list_folders account_id location_id = do
  assert_location_ownership account_id location_id
  gets (λ w. select (folders_at location_id) w.folders)

unfoldable pub create_folder :
    Draws → Uuid → (name : String) → (location_id : Uuid) → Option Uuid → Exec World Folder
unfolding assert_location_ownership
create_folder draws account_id name location_id parent_folder_id = do
  assert_location_ownership account_id location_id
  account ← get_account account_id
  w ← gets (λ s. s)
  guard (is_within_folder_limit account.tier (count (folders_at location_id) w.folders)) (
      forbidden (
        concat (
          "Your "
          ∷ tier_name account.tier
          ∷ " plan allows a limited number of folders per location — upgrade to add more."
          ∷ [])))
  guard (not (is_some (find_folder draws.row_id w))) unique_violation
  guard (exists_or_null parent_folder_id (λ id. is_some (find_folder id w))) foreign_key_violation
  let new : Folder = record {
    id = draws.row_id;
    location_id = location_id;
    parent_folder_id = parent_folder_id;
    name = name;
  }
  modify (λ s. record s { folders = insert new s.folders })
  pure new

unfoldable pub list_spots : (List Spot → List Spot) → Uuid → Uuid → Exec World (List Spot)
unfolding assert_location_ownership
list_spots by_name account_id location_id = do
  assert_location_ownership account_id location_id
  gets (λ w. by_name (select (spots_at location_id) w.spots))

unfoldable pub create_spot : Draws → Uuid → (name : String) → (location_id : Uuid) → Exec World Spot
unfolding assert_location_ownership
create_spot draws account_id name location_id = do
  assert_location_ownership account_id location_id
  account ← get_account account_id
  w ← gets (λ s. s)
  guard (is_within_spot_limit account.tier (count (spots_at location_id) w.spots)) (
      forbidden (
        concat (
          "Your "
          ∷ tier_name account.tier
          ∷ " plan allows a limited number of spots per location — upgrade to add more."
          ∷ [])))
  guard (not (is_some (find_spot draws.row_id w))) unique_violation
  let new : Spot = record { id = draws.row_id; location_id = location_id; name = name }
  modify (λ s. record s { spots = insert new s.spots })
  pure new

unfoldable pub get_spot : Uuid → Uuid → Exec World Spot
unfolding assert_location_ownership
get_spot account_id spot_id = do
  w ← gets (λ s. s)
  spot ← or_throw (not_found "Spot not found") (find_spot spot_id w)
  assert_location_ownership account_id spot.location_id
  pure spot
