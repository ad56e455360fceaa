-- ===== src/Mobile/Inbox.antt =====
-- apps/mobile/src/pages/InboxPage.tsx: the drafts of where to file each item, and the requests that file them.
mod InPlace
mod Picks
pub mod Filing
use omnia_note.Prelude.{
  ℕ, String, Bool, true, false, not, ◌||◌, Option, none, some, List, [], ◌∷◌, ◌≡◌, ◌⊎◌, ◌==◌,
  is_some, find_first, delete_where, if◌then◌else◌,
}
use omnia_note.Http.{Exception, ok, err, answer, after}
use omnia_note.World.{Uuid, Item, Location, Folder, Spot, World}
use omnia_note.Items.{Patch, clear, put, FileItemInput, file}
use omnia_note.Locations.{list, list_folders, list_spots}

-- FilingDraft; the empty string is none.
pub record Draft : Type 0 where
  pub location_id : Option Uuid
  pub folder_id : Option Uuid
  pub spot_id : Option Uuid

pub record Contents : Type 0 where
  pub folders : List Folder
  pub spots : List Spot

-- `loading` are the locations whose contents were asked for.
pub record Inbox : Type 0 where
  pub items : List Item
  pub locations : List Location
  pub drafts : Uuid → Option Draft
  pub location_contents : Uuid → Option Contents
  pub loading : List Uuid
  pub filing_error : Option String

abbrev pub fresh_inbox : Inbox
fresh_inbox = record {
  items = [];
  locations = [];
  drafts = λ id. none;
  location_contents = λ id. none;
  loading = [];
  filing_error = none;
}

-- `{ ...prev, [key]: value }`
abbrev pub with_key : {A : Type 0} → Uuid → Option A → (Uuid → Option A) → Uuid → Option A
with_key key value prev id = if id == key then value else prev id

abbrev pub only_location : Uuid → Draft
only_location l = record { location_id = some l; folder_id = none; spot_id = none }

unfoldable pub load_location_contents : Uuid → Inbox → Inbox
load_location_contents l p =
    if is_some (p.location_contents l) then p else record p { loading = l ∷ p.loading }

unfoldable pub contents_loaded : Uuid → Contents → Inbox → Inbox
contents_loaded l c p = record p { location_contents = with_key l (some c) p.location_contents }

-- `for (const item of inbox) if (!next[item.id]) …`
unfoldable pub preselected : Uuid → List Item → (Uuid → Option Draft) → Uuid → Option Draft
preselected only [] prev = prev
preselected only (item ∷ inbox) prev =
    preselected only inbox
      (if is_some (prev item.id) then prev else with_key item.id (some (only_location only)) prev)

-- The answer to `listInbox`; `known` are the locations that the effect had when it ran.
unfoldable pub inbox_loaded : List Location → List Item → Inbox → Inbox
unfolding load_location_contents preselected
inbox_loaded (only ∷ []) inbox p =
    load_location_contents only.id
      (record p { items = inbox; drafts = preselected only.id inbox p.drafts })
inbox_loaded _ inbox p = record p { items = inbox }

unfoldable pub pick_location : Uuid → Uuid → Inbox → Inbox
unfolding load_location_contents
pick_location item_id l p =
    load_location_contents l
      (record p { drafts = with_key item_id (some (only_location l)) p.drafts })

abbrev empty_draft : Option Draft → Draft
empty_draft none = record { location_id = none; folder_id = none; spot_id = none }
empty_draft (some d) = d

unfoldable pub pick_folder : Uuid → Option Uuid → Inbox → Inbox
pick_folder item_id folder p = record p {
  drafts =
      with_key item_id (some (record (empty_draft (p.drafts item_id)) { folder_id = folder }))
        p.drafts;
}

unfoldable pub pick_spot : Uuid → Option Uuid → Inbox → Inbox
pick_spot item_id spot p = record p {
  drafts =
      with_key item_id (some (record (empty_draft (p.drafts item_id)) { spot_id = spot })) p.drafts;
}

-- `draft.folderId || null`
abbrev pub or_null : Option Uuid → Patch
or_null none = clear
or_null (some id) = put id

unfoldable pub filing_request : Uuid → Draft → FileItemInput
filing_request l d = record {
  location_id = l;
  folder_id = or_null d.folder_id;
  spot_id = or_null d.spot_id;
}

unfoldable pub item_filed : Uuid → Inbox → Inbox
item_filed item_id p = record p {
  items = delete_where (λ i. i.id == item_id) p.items;
  drafts = with_key item_id none p.drafts;
  filing_error = none;
}

unfoldable pub filing_refused : String → Inbox → Inbox
filing_refused message p = record p { filing_error = some message }

-- The page, and the server.
pub record System : Type 0 where
  pub page : Inbox
  pub world : World

abbrev pub on_page : (Inbox → Inbox) → System → System
on_page f s = record s { page = f s.page }

-- A folder or a spot that the contents of a location offer, or none.
abbrev pub OffersFolder : Option Contents → Option Uuid → Type 0
OffersFolder c none = Unit
OffersFolder none (some id) = ⊥
OffersFolder (some c) (some id) = (f : Folder) × (find_first (λ g. g.id == id) c.folders ≡ some f)

abbrev pub OffersSpot : Option Contents → Option Uuid → Type 0
OffersSpot c none = Unit
OffersSpot none (some id) = ⊥
OffersSpot (some c) (some id) = (t : Spot) × (find_first (λ g. g.id == id) c.spots ≡ some t)

-- What happens next. Folders and spots are picked from the contents of the drafted location, and the only changes
-- of the server are the filings of this page.
pub data Step (a : Uuid) (by_name : List Spot → List Spot) : System → System → Type 0 where
  gets_locations :
      (s : System) (ls : List Location)
      → answer (list a) s.world ≡ ok ls
      → Step a by_name s (on_page (λ p. record p { locations = ls }) s)
  gets_inbox :
      (s : System) (known : List Location) (inbox : List Item)
      → (known ≡ []) ⊎ (known ≡ s.page.locations)
      → Step a by_name s (on_page (inbox_loaded known inbox) s)
  gets_contents :
      (s : System) (l : Uuid) (c : Contents)
      → answer (list_folders a l) s.world ≡ ok c.folders
      → answer (list_spots by_name a l) s.world ≡ ok c.spots
      → Step a by_name s (on_page (contents_loaded l c) s)
  picks_location :
      (s : System) (item_id : Uuid) (l : Location)
      → find_first (λ k. k.id == l.id) s.page.locations ≡ some l
      → Step a by_name s (on_page (pick_location item_id l.id) s)
  picks_folder :
      (s : System) (item_id l : Uuid) (d : Draft) (folder : Option Uuid)
      → s.page.drafts item_id ≡ some d
      → d.location_id ≡ some l
      → OffersFolder (s.page.location_contents l) folder
      → Step a by_name s (on_page (pick_folder item_id folder) s)
  picks_spot :
      (s : System) (item_id l : Uuid) (d : Draft) (spot : Option Uuid)
      → s.page.drafts item_id ≡ some d
      → d.location_id ≡ some l
      → OffersSpot (s.page.location_contents l) spot
      → Step a by_name s (on_page (pick_spot item_id spot) s)
  files :
      (s : System) (item_id l : Uuid) (d : Draft) (i : Item)
      → s.page.drafts item_id ≡ some d
      → d.location_id ≡ some l
      → answer (file a item_id (filing_request l d)) s.world ≡ ok i
      → Step a by_name s (record {
        page = item_filed item_id s.page;
        world = after (file a item_id (filing_request l d)) s.world;
      })
  is_refused :
      (s : System) (item_id l : Uuid) (d : Draft) (e : Exception) (message : String)
      → s.page.drafts item_id ≡ some d
      → d.location_id ≡ some l
      → answer (file a item_id (filing_request l d)) s.world ≡ err e
      → Step a by_name s (on_page (filing_refused message) s)

pub data Reach (a : Uuid) (by_name : List Spot → List Spot) (start : System) : System → Type 0 where
  here : Reach a by_name start start
  next : {s t : System} → Reach a by_name start s → Step a by_name s t → Reach a by_name start t
