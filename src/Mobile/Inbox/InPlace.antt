-- ===== src/Mobile/Inbox/InPlace.antt =====
-- apps/mobile/src/pages/InboxPage.tsx: drafts whose folder and spot stand in the drafted location.
use omnia_note.Prelude.{
  ◌≡◌, Option, none, some, List, [], ◌∷◌, ◌==◌, arith, inl, inr, Bool-cases, is_some, find_first,
  has_key, All, if◌then◌else◌,
}
use omnia_note.World.{Uuid, Item, Location, Folder, Spot}
use omnia_note.Mobile.Inbox.{
  Draft, Contents, Inbox, only_location, load_location_contents, preselected, inbox_loaded,
}

abbrev pub location_key : Location → Uuid
location_key l = l.id

abbrev pub folder_key : Folder → Uuid
folder_key f = f.id

abbrev pub spot_key : Spot → Uuid
spot_key s = s.id

-- The row of an id, in a table, stands at a location.
abbrev pub FolderOf : List Folder → Uuid → Folder → Type 0
FolderOf fs l f = (find_first (has_key folder_key f.id) fs ≡ some f) × (f.location_id ≡ l)

abbrev pub SpotOf : List Spot → Uuid → Spot → Type 0
SpotOf ss l s = (find_first (has_key spot_key s.id) ss ≡ some s) × (s.location_id ≡ l)

abbrev pub OwnAt : Uuid → List Location → Uuid → Type 0
OwnAt a ls id =
    (l : Location) × (find_first (has_key location_key id) ls ≡ some l) × (l.account_id ≡ a)

abbrev pub FolderFits : List Folder → Uuid → Option Uuid → Type 0
FolderFits fs l none = Unit
FolderFits fs l (some id) =
    (f : Folder) × (find_first (has_key folder_key id) fs ≡ some f) × (f.location_id ≡ l)

abbrev pub SpotFits : List Spot → Uuid → Option Uuid → Type 0
SpotFits ss l none = Unit
SpotFits ss l (some id) =
    (s : Spot) × (find_first (has_key spot_key id) ss ≡ some s) × (s.location_id ≡ l)

-- The draft, if it has a location, names an own one, and a folder and a spot there or none.
pub record Fits (a : Uuid) (ls : List Location) (fs : List Folder) (ss : List Spot) (d : Draft)
    : Type 0 where
  pub own : (l : Uuid) → d.location_id ≡ some l → OwnAt a ls l
  pub folder : (l : Uuid) → d.location_id ≡ some l → FolderFits fs l d.folder_id
  pub spot : (l : Uuid) → d.location_id ≡ some l → SpotFits ss l d.spot_id

pub record InPlace (a : Uuid) (p : Inbox) (ls : List Location) (fs : List Folder) (ss : List Spot)
    : Type 0 where
  pub locations : All (λ (l : Location). OwnAt a ls l.id) p.locations
  pub folders :
      (l : Uuid) (c : Contents) → p.location_contents l ≡ some c → All (FolderOf fs l) c.folders
  pub spots : (l : Uuid) (c : Contents) → p.location_contents l ≡ some c → All (SpotOf ss l) c.spots
  pub drafts : (i : Uuid) (d : Draft) → p.drafts i ≡ some d → Fits a ls fs ss d

module _ (a : Uuid) (ls : List Location) (fs : List Folder) (ss : List Spot) where
  pub Fits-only : (l : Uuid) → OwnAt a ls l → Fits a ls fs ss (only_location l)
  Fits-only l own = record {
    own = λ k e. (let same : l ≡ k = ground arith in rw (← same) own);
    folder = λ k e. tt;
    spot = λ k e. tt;
  }

  pub load_location_contents-InPlace :
      (l : Uuid) (p : Inbox)
      → InPlace a p ls fs ss
      → InPlace a (load_location_contents l p) ls fs ss
  unfolding load_location_contents
  load_location_contents-InPlace l p h = elim (Bool-cases (is_some (p.location_contents l))) [
    | inl there ↦ rw there h
    | inr asked ↦ rw asked (record {
      locations = h.locations;
      folders = h.folders;
      spots = h.spots;
      drafts = h.drafts;
    })
  ]

  -- A draft that fits is put in place of another.
  pub with_draft-InPlace :
      (i : Uuid) (d : Draft) (p : Inbox)
      → Fits a ls fs ss d
      → InPlace a p ls fs ss
      → InPlace a (record p { drafts = λ j. if j == i then some d else p.drafts j }) ls fs ss
  with_draft-InPlace i d p fits h = record {
    locations = h.locations;
    folders = h.folders;
    spots = h.spots;
    drafts = λ j e found. elim (Bool-cases (j == i)) [
      | inl same ↦ (let at' : d ≡ e = ground arith in rw (← at') fits)
      | inr other ↦ h.drafts j e (ground arith)
    ];
  }

  pub preselected-Fits :
      (only : Uuid) (inbox : List Item) (prev : Uuid → Option Draft)
      → OwnAt a ls only
      → ((i : Uuid) (d : Draft) → prev i ≡ some d → Fits a ls fs ss d)
      → (i : Uuid) (d : Draft) → preselected only inbox prev i ≡ some d
      → Fits a ls fs ss d
  unfolding preselected
  preselected-Fits only [] prev own h i d e = h i d e
  preselected-Fits only (item ∷ inbox) prev own h i d e =
      preselected-Fits only inbox _ own
        (λ j c found. elim (Bool-cases (is_some (prev item.id))) [
          | inl old ↦ h j c (ground arith)
          | inr new ↦ elim (Bool-cases (j == item.id)) [
            | inl same ↦
                let at' : only_location only ≡ c = ground arith in rw (← at') (Fits-only only own)
            | inr other ↦ h j c (ground arith)
          ]
        ])
        i d e

  pub inbox_loaded-InPlace :
      (known : List Location) (inbox : List Item) (p : Inbox)
      → All (λ (l : Location). OwnAt a ls l.id) known
      → InPlace a p ls fs ss
      → InPlace a (inbox_loaded known inbox p) ls fs ss
  unfolding inbox_loaded
  inbox_loaded-InPlace [] inbox p own h = record {
    locations = h.locations;
    folders = h.folders;
    spots = h.spots;
    drafts = h.drafts;
  }
  inbox_loaded-InPlace (only ∷ []) inbox p own h =
      load_location_contents-InPlace only.id _ (record {
        locations = h.locations;
        folders = h.folders;
        spots = h.spots;
        drafts = preselected-Fits only.id inbox p.drafts own.0 h.drafts;
      })
  inbox_loaded-InPlace (k ∷ l ∷ known) inbox p own h = record {
    locations = h.locations;
    folders = h.folders;
    spots = h.spots;
    drafts = h.drafts;
  }
