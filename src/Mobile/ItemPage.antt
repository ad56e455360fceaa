-- ===== src/Mobile/ItemPage.antt =====
-- apps/mobile/src/pages/ItemDetailPage.tsx: the page of an item that was loaded. A change of its spot, its
-- folder or its stamps is shown at once and taken back if the server refuses it; tags are shown when they
-- are saved.
mod InStep
mod Answers
pub mod Agreement
use omnia_note.Prelude.{
  String, Bool, true, false, not, Option, none, some, List, [], ◌∷◌, ◌++◌, ◌≡◌, is_some, select,
  if◌then◌else◌, ◌||◌,
}
use omnia_note.Shared.Enums.{StampType}
use omnia_note.World.{Uuid, Item}
use omnia_note.Items.{Patch, keep, clear, put, FileItemInput, filed}
use omnia_note.Mobile.TagsField.{parse_tags}

pub record Shown : Type 0 where
  pub row : Item
  pub tags : List String

-- What a function of the page remembers across its await.
pub record Filing : Type 0 where
  pub previous : Option Uuid
  pub request : FileItemInput

pub record Stamping : Type 0 where
  pub previous : List StampType
  pub stamps : List StampType

pub record Tagging : Type 0 where
  pub item : Shown
  pub names : List String

-- `savingSpot`, `savingFolder`, `savingStamps` and `savingTags` are set while there is an answer to await.
pub record Page : Type 0 where
  pub item : Shown
  pub error : Option String
  pub tags_text : String
  pub saving_spot : Option Filing
  pub saving_folder : Option Filing
  pub saving_stamps : Option Stamping
  pub saving_tags : Option Tagging

-- `spotId || null`
abbrev pub patch_of : Option Uuid → Patch
patch_of none = clear
patch_of (some id) = put id

abbrev pub with_spot : Option Uuid → Page → Page
with_spot id p = record p { item = record p.item { row = record p.item.row { spot_id = id } } }

abbrev pub with_folder : Option Uuid → Page → Page
with_folder id p = record p { item = record p.item { row = record p.item.row { folder_id = id } } }

abbrev pub with_stamps : List StampType → Page → Page
with_stamps stamps p = record p {
  item = record p.item { row = record p.item.row { stamps = stamps } };
}

-- The page without a location does nothing, nor does a second tap while the first is saved.
abbrev pub start_spot : Uuid → Option Uuid → Page → Page
start_spot l choice p = record (with_spot choice p) {
  saving_spot = some (record {
    previous = p.item.row.spot_id;
    request = record { location_id = l; folder_id = keep; spot_id = patch_of choice };
  });
}

unfoldable pub assign_spot : Option Uuid → Page → Page
assign_spot choice p = elim p.item.row.location_id [
  | none ↦ p
  | some l ↦ if is_some p.saving_spot then p else start_spot l choice p
]

abbrev pub start_folder : Uuid → Option Uuid → Page → Page
start_folder l choice p = record (with_folder choice p) {
  saving_folder = some (record {
    previous = p.item.row.folder_id;
    request = record { location_id = l; folder_id = patch_of choice; spot_id = keep };
  });
}

unfoldable pub assign_folder : Option Uuid → Page → Page
assign_folder choice p = elim p.item.row.location_id [
  | none ↦ p
  | some l ↦ if is_some p.saving_folder then p else start_folder l choice p
]

-- `stamps.includes(stamp)`, `stamps.filter((s) => s !== stamp)`; `eq` is the equality of stamps.
abbrev includes_stamp : (StampType → StampType → Bool) → StampType → List StampType → Bool
includes_stamp eq stamp [] = false
includes_stamp eq stamp (s ∷ rest) = eq s stamp || includes_stamp eq stamp rest

unfoldable pub toggled_stamps :
    (StampType → StampType → Bool) → StampType → List StampType → List StampType
toggled_stamps eq stamp stamps =
    if includes_stamp eq stamp stamps
    then select (λ s. not (eq s stamp)) stamps
    else stamps ++ stamp ∷ []

abbrev pub start_stamps : List StampType → Page → Page
start_stamps stamps p = record (with_stamps stamps p) {
  saving_stamps = some (record { previous = p.item.row.stamps; stamps = stamps });
}

unfoldable pub toggle_stamp : (StampType → StampType → Bool) → StampType → Page → Page
unfolding toggled_stamps
toggle_stamp eq stamp p =
    if is_some p.saving_stamps
    then p
    else start_stamps (toggled_stamps eq stamp p.item.row.stamps) p

abbrev pub start_tags : Page → Page
start_tags p = record p {
  error = none;
  saving_tags = some (record { item = p.item; names = parse_tags p.tags_text });
}

unfoldable pub save_tags : Page → Page
save_tags p = if is_some p.saving_tags then p else start_tags p

unfoldable pub spot_saved : Page → Page
spot_saved p = record p { saving_spot = none }

unfoldable pub spot_refused : Filing → Page → Page
spot_refused f p = record (with_spot f.previous p) {
  error = some "Couldn't update the spot — try again.";
  saving_spot = none;
}

unfoldable pub folder_saved : Page → Page
folder_saved p = record p { saving_folder = none }

unfoldable pub folder_refused : Filing → Page → Page
folder_refused f p = record (with_folder f.previous p) {
  error = some "Couldn't update the folder — try again.";
  saving_folder = none;
}

unfoldable pub stamps_saved : Page → Page
stamps_saved p = record p { saving_stamps = none }

unfoldable pub stamps_refused : Stamping → Page → Page
stamps_refused f p = record (with_stamps f.previous p) {
  error = some "Couldn't save that stamp — try again.";
  saving_stamps = none;
}

-- The item is put back as it was when the tags were sent, with the new tags.
unfoldable pub tags_saved : Tagging → Page → Page
tags_saved t p = record p { item = record t.item { tags = t.names }; saving_tags = none }

unfoldable pub tags_refused : Page → Page
tags_refused p = record p {
  error = some "Couldn't save those tags — try again.";
  saving_tags = none;
}

-- The page, and the item as the server has it.
pub record System : Type 0 where
  pub page : Page
  pub stored : Shown

abbrev pub on_page : (Page → Page) → System → System
on_page f s = record s { page = f s.page }

abbrev pub store_row : Item → System → System
store_row row s = record s { stored = record s.stored { row = row } }

-- What happens next: a tap, or the answer to a request that is awaited. A request that fails was not carried out.
pub data Step (eq : StampType → StampType → Bool) : System → System → Type 0 where
  picks_spot : (s : System) (choice : Option Uuid) → Step eq s (on_page (assign_spot choice) s)
  picks_folder : (s : System) (choice : Option Uuid) → Step eq s (on_page (assign_folder choice) s)
  taps_stamp : (s : System) (stamp : StampType) → Step eq s (on_page (toggle_stamp eq stamp) s)
  sends_tags : (s : System) → Step eq s (on_page save_tags s)
  types_tags :
      (s : System) (text : String) → Step eq s (on_page (λ p. record p { tags_text = text }) s)
  files_spot :
      (s : System) (f : Filing)
      → s.page.saving_spot ≡ some f
      → Step eq s (store_row (filed f.request s.stored.row) (on_page spot_saved s))
  refuses_spot :
      (s : System) (f : Filing)
      → s.page.saving_spot ≡ some f
      → Step eq s (on_page (spot_refused f) s)
  files_folder :
      (s : System) (f : Filing)
      → s.page.saving_folder ≡ some f
      → Step eq s (store_row (filed f.request s.stored.row) (on_page folder_saved s))
  refuses_folder :
      (s : System) (f : Filing)
      → s.page.saving_folder ≡ some f
      → Step eq s (on_page (folder_refused f) s)
  saves_stamps :
      (s : System) (f : Stamping)
      → s.page.saving_stamps ≡ some f
      → Step eq s (store_row (record s.stored.row { stamps = f.stamps }) (on_page stamps_saved s))
  refuses_stamps :
      (s : System) (f : Stamping)
      → s.page.saving_stamps ≡ some f
      → Step eq s (on_page (stamps_refused f) s)
  stores_tags :
      (s : System) (t : Tagging)
      → s.page.saving_tags ≡ some t
      → Step eq s
          (record { page = tags_saved t s.page; stored = record s.stored { tags = t.names } })
  refuses_tags : (s : System) → Step eq s (on_page tags_refused s)

pub data Reach (eq : StampType → StampType → Bool) (start : System) : System → Type 0 where
  here : Reach eq start start
  next : {s t : System} → Reach eq start s → Step eq s t → Reach eq start t
