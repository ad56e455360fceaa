-- ===== src/Items/Placement.antt =====
-- Where `file` of apps/api/src/items/items.service.ts puts an item, and the favourite mark.
use omnia_note.Prelude.{
  ◌≡◌, refl, Bool, true, false, not, some, arith, ◌==◌, if◌then◌else◌, ap, ◌∙◌, find_first_holds,
  find_first-updated,
}
use omnia_note.Http.{Exception, answer, after, err}
use omnia_note.World.{Uuid, Location, Folder, Spot, Item, World}
use omnia_note.Locations.{find_location, find_folder, find_spot}
use omnia_note.Items.Access.{find_item}
use omnia_note.Items.Filing.{Patch, put, FileItemInput, filed, file, toggle_favorite}

-- The folder, or the spot, that a request names stands in the location that it names.
abbrev pub FolderIn : Uuid → Patch → World → Type 0
FolderIn location_id (put id) w =
    (f : Folder) × (find_folder id w ≡ some f) × (f.location_id ≡ location_id)
FolderIn location_id _ w = Unit

abbrev pub SpotIn : Uuid → Patch → World → Type 0
SpotIn location_id (put id) w =
    (s : Spot) × (find_spot id w ≡ some s) × (s.location_id ≡ location_id)
SpotIn location_id _ w = Unit

-- What holds when a request to file an item has been carried out.
pub record Placement (account_id item_id : Uuid) (input : FileItemInput) (w : World) (item : Item)
    : Type 0 where
  pub old : Item
  pub location : Location
  pub found : find_item item_id w ≡ some old
  pub own_item : old.account_id ≡ account_id
  pub located : find_location input.location_id w ≡ some location
  pub own_location : location.account_id ≡ account_id
  pub folder : FolderIn input.location_id input.folder_id w
  pub spot : SpotIn input.location_id input.spot_id w
  pub written : item ≡ filed input old
  pub stored : find_item item_id (after (file account_id item_id input) w) ≡ some item

-- A request to file an item that is refused changes nothing.
pub file_refused :
    (account_id item_id : Uuid) (input : FileItemInput) (w : World) (e : Exception)
    → answer (file account_id item_id input) w ≡ err e
    → after (file account_id item_id input) w ≡ w
unfolding file
file_refused account_id item_id input w e h = ground arith

abbrev flipped : Item → Item
flipped i = record i { is_favorite = not i.is_favorite }

abbrev toggled : Uuid → Item → Item
toggled account_id i = if i.account_id == account_id then flipped i else i

toggle_favorite-row :
    (account_id item_id : Uuid) (w : World) (i : Item)
    → find_item item_id w ≡ some i
    → find_item item_id (after (toggle_favorite account_id item_id) w) ≡ some (toggled account_id i)
unfolding toggle_favorite
toggle_favorite-row account_id item_id w i found = ground (
  arith,
  find_first_holds (λ (j : Item). j.id == item_id) w.items i found,
  find_first-updated (λ (j : Item). j.id == item_id)
      (λ (j : Item). record j { is_favorite = not i.is_favorite }) w.items i found,
)

not-not : (b : Bool) → not (not b) ≡ b
not-not true = refl
not-not false = refl

toggled-toggled : (account_id : Uuid) (i : Item) → toggled account_id (toggled account_id i) ≡ i
toggled-toggled account_id i = ground (arith, not-not i.is_favorite)

-- Toggling the favourite mark of an item twice gives back its row, whoever asks.
pub toggle_favorite_twice :
    (account_id item_id : Uuid) (w : World) (i : Item)
    → find_item item_id w ≡ some i
    → find_item item_id
        (after (toggle_favorite account_id item_id) (after (toggle_favorite account_id item_id) w))
      ≡ some i
toggle_favorite_twice account_id item_id w i found =
    toggle_favorite-row account_id item_id (after (toggle_favorite account_id item_id) w)
      (toggled account_id i) (toggle_favorite-row account_id item_id w i found)
    ∙ ap some (toggled-toggled account_id i)
