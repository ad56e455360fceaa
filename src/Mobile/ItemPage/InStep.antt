-- ===== src/Mobile/ItemPage/InStep.antt =====
-- apps/mobile/src/pages/ItemDetailPage.tsx: what the page shows against what the server has stored.
use omnia_note.Prelude.{
  ◌≡◌, refl, sym, ◌⊎◌, ◌∙◌, Bool, Option, none, some, List, arith, inl, inr, Option-cases,
}
use omnia_note.Shared.Enums.{StampType}
use omnia_note.World.{Uuid}
use omnia_note.Items.{Patch, keep, patched, FileItemInput}
use omnia_note.Mobile.ItemPage.{
  Filing, Stamping, Page, System, patch_of, on_page, assign_spot, assign_folder, start_spot,
  start_folder, start_stamps, toggle_stamp, toggled_stamps,
}

-- A place that is shown against the stored one: the same, or the one that was asked for, with the stored one
-- remembered.
abbrev pub FilingState :
    (own other : FileItemInput → Patch)
    → Option Filing
    → (shown stored location : Option Uuid) → Type 0
FilingState own other none shown stored location = shown ≡ stored
FilingState own other (some f) shown stored location =
    (f.previous ≡ stored)
    × (shown ≡ patched (own f.request) stored)
    × (other f.request ≡ keep)
    × (some f.request.location_id ≡ location)

abbrev pub StampState : Option Stamping → (shown stored : List StampType) → Type 0
StampState none shown stored = shown ≡ stored
StampState (some f) shown stored = (f.previous ≡ stored) × (shown ≡ f.stamps)

abbrev pub spot_patch : FileItemInput → Patch
spot_patch r = r.spot_id

abbrev pub folder_patch : FileItemInput → Patch
folder_patch r = r.folder_id

pub record InStep (s : System) : Type 0 where
  pub place : s.page.item.row.location_id ≡ s.stored.row.location_id
  pub spot :
      FilingState spot_patch folder_patch s.page.saving_spot s.page.item.row.spot_id
        s.stored.row.spot_id s.stored.row.location_id
  pub folder :
      FilingState folder_patch spot_patch s.page.saving_folder s.page.item.row.folder_id
        s.stored.row.folder_id s.stored.row.location_id
  pub stamps : StampState s.page.saving_stamps s.page.item.row.stamps s.stored.row.stamps
  pub tags : s.page.item.tags ≡ s.stored.tags

pub patched-patch_of : (choice old : Option Uuid) → patched (patch_of choice) old ≡ choice
patched-patch_of none old = refl
patched-patch_of (some id) old = refl

-- Either nothing happens, or the change begins.
assign_spot-cases :
    (choice : Option Uuid) (p : Page)
    → (assign_spot choice p ≡ p)
      ⊎ ((l : Uuid) × (p.item.row.location_id ≡ some l)
          × (p.saving_spot ≡ none)
          × (assign_spot choice p ≡ start_spot l choice p))
unfolding assign_spot
assign_spot-cases choice p = elim (Option-cases p.item.row.location_id) [
  | inl nowhere ↦ inl (ground arith)
  | inr (l, at') ↦ elim (Option-cases p.saving_spot) [
    | inr (f, busy) ↦ inl (ground arith)
    | inl free ↦ inr (l, at', free, ground arith)
  ]
]

assign_folder-cases :
    (choice : Option Uuid) (p : Page)
    → (assign_folder choice p ≡ p)
      ⊎ ((l : Uuid) × (p.item.row.location_id ≡ some l)
          × (p.saving_folder ≡ none)
          × (assign_folder choice p ≡ start_folder l choice p))
unfolding assign_folder
assign_folder-cases choice p = elim (Option-cases p.item.row.location_id) [
  | inl nowhere ↦ inl (ground arith)
  | inr (l, at') ↦ elim (Option-cases p.saving_folder) [
    | inr (f, busy) ↦ inl (ground arith)
    | inl free ↦ inr (l, at', free, ground arith)
  ]
]

pub FilingState-idle :
    (own other : FileItemInput → Patch) (o : Option Filing) (shown stored location : Option Uuid)
    → o ≡ none
    → FilingState own other o shown stored location
    → shown ≡ stored
FilingState-idle own other none shown stored location e h = h
FilingState-idle own other (some f) shown stored location e h = absurd (ground arith)

pub StampState-idle :
    (o : Option Stamping) (shown stored : List StampType)
    → o ≡ none
    → StampState o shown stored
    → shown ≡ stored
StampState-idle none shown stored e h = h
StampState-idle (some f) shown stored e h = absurd (ground arith)

pub assign_spot-InStep :
    (choice : Option Uuid) (s : System) → InStep s → InStep (on_page (assign_spot choice) s)
assign_spot-InStep choice s h = elim (assign_spot-cases choice s.page) [
  | inl same ↦ rw same h
  | inr (l, at', free, begun) ↦ rw begun (record {
    place = h.place;
    spot = (
      FilingState-idle spot_patch folder_patch s.page.saving_spot _ _ _ free h.spot,
      sym (patched-patch_of choice s.stored.row.spot_id),
      refl,
      sym at' ∙ h.place,
    );
    folder = h.folder;
    stamps = h.stamps;
    tags = h.tags;
  })
]

pub assign_folder-InStep :
    (choice : Option Uuid) (s : System) → InStep s → InStep (on_page (assign_folder choice) s)
assign_folder-InStep choice s h = elim (assign_folder-cases choice s.page) [
  | inl same ↦ rw same h
  | inr (l, at', free, begun) ↦ rw begun (record {
    place = h.place;
    spot = h.spot;
    folder = (
      FilingState-idle folder_patch spot_patch s.page.saving_folder _ _ _ free h.folder,
      sym (patched-patch_of choice s.stored.row.folder_id),
      refl,
      sym at' ∙ h.place,
    );
    stamps = h.stamps;
    tags = h.tags;
  })
]

pub toggle_stamp-InStep :
    (eq : StampType → StampType → Bool) (stamp : StampType) (s : System)
    → InStep s
    → InStep (on_page (toggle_stamp eq stamp) s)
unfolding toggle_stamp
toggle_stamp-InStep eq stamp s h = elim (Option-cases s.page.saving_stamps) [
  | inr (f, busy) ↦ let same : toggle_stamp eq stamp s.page ≡ s.page = ground arith in rw same h
  | inl free ↦
      let begun : toggle_stamp eq stamp s.page
          ≡ start_stamps (toggled_stamps eq stamp s.page.item.row.stamps) s.page =
        ground arith in
      rw begun (record {
        place = h.place;
        spot = h.spot;
        folder = h.folder;
        stamps = (StampState-idle s.page.saving_stamps _ _ free h.stamps, refl);
        tags = h.tags;
      })
]
