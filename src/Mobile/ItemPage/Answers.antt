-- ===== src/Mobile/ItemPage/Answers.antt =====
-- apps/mobile/src/pages/ItemDetailPage.tsx: the answers of the server keep the page in step with what is stored.
use mathlib.Core.Path.{subst}
use omnia_note.Prelude.{◌≡◌, refl, sym, ap, ◌∙◌, Option, some, List, arith, inl, inr, Option-cases}
use omnia_note.Shared.Enums.{StampType}
use omnia_note.World.{Uuid, Item}
use omnia_note.Items.{Patch, patched, FileItemInput, filed}
use omnia_note.Mobile.ItemPage.{
  Shown, Filing, Stamping, Tagging, System, on_page, store_row, start_tags, save_tags, spot_saved,
  spot_refused, folder_saved, folder_refused, stamps_saved, stamps_refused, tags_saved,
}
use omnia_note.Mobile.ItemPage.InStep.{FilingState, StampState, spot_patch, folder_patch, InStep}

-- The state of the one that is being saved.
FilingState-at :
    (own other : FileItemInput → Patch) (o : Option Filing) (f : Filing)
    (shown stored location : Option Uuid)
    → o ≡ some f
    → FilingState own other o shown stored location
    → FilingState own other (some f) shown stored location
FilingState-at own other o f shown stored location e h =
    subst (λ x. FilingState own other x shown stored location) e h

-- The same state, where what is stored is equal.
FilingState-same :
    (own other : FileItemInput → Patch) (o : Option Filing)
    (shown stored stored' location location' : Option Uuid)
    → stored ≡ stored'
    → location ≡ location'
    → FilingState own other o shown stored location
    → FilingState own other o shown stored' location'
FilingState-same own other o shown stored stored' location location' e d h =
    subst (λ x. FilingState own other o shown x location') e
      (subst (λ x. FilingState own other o shown stored x) d h)

pub files_spot-InStep :
    (s : System) (f : Filing)
    → s.page.saving_spot ≡ some f
    → InStep s
    → InStep (store_row (filed f.request s.stored.row) (on_page spot_saved s))
unfolding spot_saved
files_spot-InStep s f e h =
    let (was, shown, kept, at') =
      FilingState-at spot_patch folder_patch s.page.saving_spot f _ _ _ e h.spot in
    record {
      place = h.place ∙ sym at';
      spot = shown;
      folder =
          FilingState-same folder_patch spot_patch s.page.saving_folder _ _ _ _ _
            (sym (ap (λ (t : Patch). patched t s.stored.row.folder_id) kept)) (sym at') h.folder;
      stamps = h.stamps;
      tags = h.tags;
    }

pub refuses_spot-InStep :
    (s : System) (f : Filing)
    → s.page.saving_spot ≡ some f
    → InStep s
    → InStep (on_page (spot_refused f) s)
unfolding spot_refused
refuses_spot-InStep s f e h =
    let (was, shown, kept, at') =
      FilingState-at spot_patch folder_patch s.page.saving_spot f _ _ _ e h.spot in
    record { place = h.place; spot = was; folder = h.folder; stamps = h.stamps; tags = h.tags }

pub files_folder-InStep :
    (s : System) (f : Filing)
    → s.page.saving_folder ≡ some f
    → InStep s
    → InStep (store_row (filed f.request s.stored.row) (on_page folder_saved s))
unfolding folder_saved
files_folder-InStep s f e h =
    let (was, shown, kept, at') =
      FilingState-at folder_patch spot_patch s.page.saving_folder f _ _ _ e h.folder in
    record {
      place = h.place ∙ sym at';
      spot =
          FilingState-same spot_patch folder_patch s.page.saving_spot _ _ _ _ _
            (sym (ap (λ (t : Patch). patched t s.stored.row.spot_id) kept)) (sym at') h.spot;
      folder = shown;
      stamps = h.stamps;
      tags = h.tags;
    }

pub refuses_folder-InStep :
    (s : System) (f : Filing)
    → s.page.saving_folder ≡ some f
    → InStep s
    → InStep (on_page (folder_refused f) s)
unfolding folder_refused
refuses_folder-InStep s f e h =
    let (was, shown, kept, at') =
      FilingState-at folder_patch spot_patch s.page.saving_folder f _ _ _ e h.folder in
    record { place = h.place; spot = h.spot; folder = was; stamps = h.stamps; tags = h.tags }

StampState-at :
    (o : Option Stamping) (f : Stamping) (shown stored : List StampType)
    → o ≡ some f
    → StampState o shown stored
    → StampState (some f) shown stored
StampState-at o f shown stored e h = subst (λ x. StampState x shown stored) e h

pub saves_stamps-InStep :
    (s : System) (f : Stamping)
    → s.page.saving_stamps ≡ some f
    → InStep s
    → InStep (store_row (record s.stored.row { stamps = f.stamps }) (on_page stamps_saved s))
unfolding stamps_saved
saves_stamps-InStep s f e h =
    let (was, shown) = StampState-at s.page.saving_stamps f _ _ e h.stamps in
    record { place = h.place; spot = h.spot; folder = h.folder; stamps = shown; tags = h.tags }

pub refuses_stamps-InStep :
    (s : System) (f : Stamping)
    → s.page.saving_stamps ≡ some f
    → InStep s
    → InStep (on_page (stamps_refused f) s)
unfolding stamps_refused
refuses_stamps-InStep s f e h =
    let (was, shown) = StampState-at s.page.saving_stamps f _ _ e h.stamps in
    record { place = h.place; spot = h.spot; folder = h.folder; stamps = was; tags = h.tags }

pub save_tags-InStep : (s : System) → InStep s → InStep (on_page save_tags s)
unfolding save_tags
save_tags-InStep s h = elim (Option-cases s.page.saving_tags) [
  | inr (t, busy) ↦ (let same : save_tags s.page ≡ s.page = ground arith in rw same h)
  | inl free ↦
      let begun : save_tags s.page ≡ start_tags s.page = ground arith in
      rw begun (record {
        place = h.place;
        spot = h.spot;
        folder = h.folder;
        stamps = h.stamps;
        tags = h.tags;
      })
]

pub stores_tags-InStep :
    (s : System) (t : Tagging)
    → s.page.item ≡ t.item
    → InStep s
    → InStep (record { page = tags_saved t s.page; stored = record s.stored { tags = t.names } })
unfolding tags_saved
stores_tags-InStep s t same h =
    let item = ap (λ (i : Shown). i.row) (sym same) in
    record {
      place = ap (λ (r : Item). r.location_id) item ∙ h.place;
      spot =
          subst
            (λ x.
              FilingState spot_patch folder_patch s.page.saving_spot x s.stored.row.spot_id
                s.stored.row.location_id)
            (ap (λ (r : Item). r.spot_id) (sym item)) h.spot;
      folder =
          subst
            (λ x.
              FilingState folder_patch spot_patch s.page.saving_folder x s.stored.row.folder_id
                s.stored.row.location_id)
            (ap (λ (r : Item). r.folder_id) (sym item)) h.folder;
      stamps =
          subst (λ x. StampState s.page.saving_stamps x s.stored.row.stamps)
            (ap (λ (r : Item). r.stamps) (sym item)) h.stamps;
      tags = refl;
    }
