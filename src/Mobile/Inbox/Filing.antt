-- ===== src/Mobile/Inbox/Filing.antt =====
-- apps/mobile/src/pages/InboxPage.tsx: what the inbox asks the server to file.
use omnia_note.Prelude.{List, IsKeyed, All}
use omnia_note.World.{Uuid, Spot, World}
use omnia_note.Mobile.Inbox.{Inbox, System, fresh_inbox}
use omnia_note.Mobile.Inbox.InPlace.{location_key, folder_key, spot_key, InPlace}

-- The ids of locations, folders and spots are unique.
pub record IsKeyedWorld (w : World) : Type 0 where
  pub locations : IsKeyed location_key w.locations
  pub folders : IsKeyed folder_key w.folders
  pub spots : IsKeyed spot_key w.spots

abbrev PageFits : Uuid → Inbox → World → Type 0
PageFits a p w = InPlace a p w.locations w.folders w.spots

module _ (a : Uuid) (by_name : List Spot → List Spot)
    (sorts : (P : Spot → Type 0) (ts : List Spot) → All P ts → All P (by_name ts)) where
  abbrev Invariant : System → Type 0
  Invariant s = IsKeyedWorld s.world × PageFits a s.page s.world

abbrev pub opened : World → System
opened w = record { page = fresh_inbox; world = w }
