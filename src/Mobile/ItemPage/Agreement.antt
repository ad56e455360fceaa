-- ===== src/Mobile/ItemPage/Agreement.antt =====
-- apps/mobile/src/pages/ItemDetailPage.tsx: what the page shows against what the server has stored, at rest
-- and when tags are saved while something else changes.
use omnia_note.Prelude.{◌≡◌, refl, ap, ◌∙◌, Bool, Option, none, some, arith, inl, inr, Option-cases}
use omnia_note.Items.{keep, filed}
use omnia_note.Shared.Enums.{StampType}
use omnia_note.World.{Uuid}
use omnia_note.Mobile.ItemPage.{
  Shown, Tagging, Page, System, Step, Reach, here, next, on_page, store_row, patch_of, start_spot,
  start_tags, assign_spot, assign_folder, toggle_stamp, save_tags, spot_saved, spot_refused,
  folder_saved, folder_refused, stamps_saved, stamps_refused, Filing, tags_saved, tags_refused,
  picks_spot, picks_folder, taps_stamp, sends_tags, types_tags, files_spot, refuses_spot,
  files_folder, refuses_folder, saves_stamps, refuses_stamps, stores_tags, refuses_tags,
}
use omnia_note.Mobile.TagsField.{parse_tags}
use omnia_note.Mobile.ItemPage.InStep.{
  InStep, FilingState-idle, StampState-idle, spot_patch, folder_patch, patched-patch_of,
  assign_spot-InStep, assign_folder-InStep, toggle_stamp-InStep,
}
use omnia_note.Mobile.ItemPage.Answers.{
  files_spot-InStep, refuses_spot-InStep, files_folder-InStep, refuses_folder-InStep,
  saves_stamps-InStep, refuses_stamps-InStep, save_tags-InStep, stores_tags-InStep,
}

-- While tags are being saved, the item that is shown is the one that was shown when they were sent.
abbrev TagsHeld : Page → Type 0
TagsHeld p = (t : Tagging) → p.saving_tags ≡ some t → p.item ≡ t.item

TagsHeld-idle : (p : Page) → p.saving_tags ≡ none → TagsHeld p
TagsHeld-idle p idle t e = absurd (ground arith)

TagsHeld-start_tags : (p : Page) → TagsHeld (start_tags p)
TagsHeld-start_tags p t e = ground arith

TagsHeld-save_tags : (p : Page) → TagsHeld p → TagsHeld (save_tags p)
unfolding save_tags
TagsHeld-save_tags p held = elim (Option-cases p.saving_tags) [
  | inr (t, busy) ↦ let same : save_tags p ≡ p = ground arith in rw same held
  | inl free ↦
      let begun : save_tags p ≡ start_tags p = ground arith in rw begun (TagsHeld-start_tags p)
]

module _ (eq : StampType → StampType → Bool) where
  -- A step that changes the spot, the folder or the stamps that are shown, or takes a change back, comes only while
  -- no tags are being saved.
  abbrev pub IsCalmStep : {s t : System} → Step eq s t → Type 0
  IsCalmStep (picks_spot s choice) = s.page.saving_tags ≡ none
  IsCalmStep (picks_folder s choice) = s.page.saving_tags ≡ none
  IsCalmStep (taps_stamp s stamp) = s.page.saving_tags ≡ none
  IsCalmStep (sends_tags s) = Unit
  IsCalmStep (types_tags s text) = Unit
  IsCalmStep (files_spot s f e) = Unit
  IsCalmStep (refuses_spot s f e) = s.page.saving_tags ≡ none
  IsCalmStep (files_folder s f e) = Unit
  IsCalmStep (refuses_folder s f e) = s.page.saving_tags ≡ none
  IsCalmStep (saves_stamps s f e) = Unit
  IsCalmStep (refuses_stamps s f e) = s.page.saving_tags ≡ none
  IsCalmStep (stores_tags s t e) = Unit
  IsCalmStep (refuses_tags s) = Unit

  abbrev pub IsCalm : {s t : System} → Reach eq s t → Type 0
  IsCalm here = Unit
  IsCalm (next r st) = IsCalm r × IsCalmStep st

  Step-TagsHeld :
      {s t : System} (st : Step eq s t) → IsCalmStep st → TagsHeld s.page → TagsHeld t.page
  unfolding assign_spot assign_folder toggle_stamp spot_saved spot_refused folder_saved
      folder_refused stamps_saved stamps_refused tags_saved tags_refused
  Step-TagsHeld (picks_spot s choice) calm held =
      TagsHeld-idle (assign_spot choice s.page) (ground arith)
  Step-TagsHeld (picks_folder s choice) calm held =
      TagsHeld-idle (assign_folder choice s.page) (ground arith)
  Step-TagsHeld (taps_stamp s stamp) calm held =
      TagsHeld-idle (toggle_stamp eq stamp s.page) (ground arith)
  Step-TagsHeld (sends_tags s) calm held = TagsHeld-save_tags s.page held
  Step-TagsHeld (types_tags s text) calm held = held
  Step-TagsHeld (files_spot s f e) calm held = held
  Step-TagsHeld (refuses_spot s f e) calm held = TagsHeld-idle (spot_refused f s.page) calm
  Step-TagsHeld (files_folder s f e) calm held = held
  Step-TagsHeld (refuses_folder s f e) calm held = TagsHeld-idle (folder_refused f s.page) calm
  Step-TagsHeld (saves_stamps s f e) calm held = held
  Step-TagsHeld (refuses_stamps s f e) calm held = TagsHeld-idle (stamps_refused f s.page) calm
  Step-TagsHeld (stores_tags s t e) calm held = TagsHeld-idle (tags_saved t s.page) refl
  Step-TagsHeld (refuses_tags s) calm held = TagsHeld-idle (tags_refused s.page) refl

  Step-InStep : {s t : System} → Step eq s t → TagsHeld s.page → InStep s → InStep t
  unfolding tags_refused
  Step-InStep (picks_spot s choice) held h = assign_spot-InStep choice s h
  Step-InStep (picks_folder s choice) held h = assign_folder-InStep choice s h
  Step-InStep (taps_stamp s stamp) held h = toggle_stamp-InStep eq stamp s h
  Step-InStep (sends_tags s) held h = save_tags-InStep s h
  Step-InStep (types_tags s text) held h = record {
    place = h.place;
    spot = h.spot;
    folder = h.folder;
    stamps = h.stamps;
    tags = h.tags;
  }
  Step-InStep (files_spot s f e) held h = files_spot-InStep s f e h
  Step-InStep (refuses_spot s f e) held h = refuses_spot-InStep s f e h
  Step-InStep (files_folder s f e) held h = files_folder-InStep s f e h
  Step-InStep (refuses_folder s f e) held h = refuses_folder-InStep s f e h
  Step-InStep (saves_stamps s f e) held h = saves_stamps-InStep s f e h
  Step-InStep (refuses_stamps s f e) held h = refuses_stamps-InStep s f e h
  Step-InStep (stores_tags s t e) held h = stores_tags-InStep s t (held t e) h
  Step-InStep (refuses_tags s) held h = record {
    place = h.place;
    spot = h.spot;
    folder = h.folder;
    stamps = h.stamps;
    tags = h.tags;
  }

  Reach-InStep :
      {s t : System} (r : Reach eq s t)
      → IsCalm r
      → TagsHeld s.page × InStep s
      → TagsHeld t.page × InStep t
  Reach-InStep here calm h = h
  Reach-InStep (next r st) calm h =
      let (held, agreed) = Reach-InStep r calm.0 h in
      (Step-TagsHeld st calm.1 held, Step-InStep st held agreed)

  -- The page was loaded: it shows what is stored, and nothing is being saved.
  pub record IsLoaded (s : System) : Type 0 where
    pub same : s.page.item ≡ s.stored
    pub no_spot : s.page.saving_spot ≡ none
    pub no_folder : s.page.saving_folder ≡ none
    pub no_stamps : s.page.saving_stamps ≡ none
    pub no_tags : s.page.saving_tags ≡ none

  -- The place, the stamps and the tags that are shown are the stored ones.
  pub record ShowsStored (s : System) : Type 0 where
    pub place : s.page.item.row.location_id ≡ s.stored.row.location_id
    pub spot : s.page.item.row.spot_id ≡ s.stored.row.spot_id
    pub folder : s.page.item.row.folder_id ≡ s.stored.row.folder_id
    pub stamps : s.page.item.row.stamps ≡ s.stored.row.stamps
    pub tags : s.page.item.tags ≡ s.stored.tags

  IsLoaded-InStep : (s : System) → IsLoaded s → InStep s
  IsLoaded-InStep s h = record {
    place = ap (λ (i : Shown). i.row.location_id) h.same;
    spot = rw h.no_spot (ap (λ (i : Shown). i.row.spot_id) h.same);
    folder = rw h.no_folder (ap (λ (i : Shown). i.row.folder_id) h.same);
    stamps = rw h.no_stamps (ap (λ (i : Shown). i.row.stamps) h.same);
    tags = ap (λ (i : Shown). i.tags) h.same;
  }

  -- From a page that was loaded, whatever is tapped, and in whatever order requests succeed or are refused, if the
  -- spot, the folder and the stamps are neither changed nor taken back while tags are being saved: when no
  -- change of spot, folder or stamps is being saved, the page shows the stored place, stamps and tags.
  pub rests_on_stored :
      {s t : System} (r : Reach eq s t)
      → IsLoaded s
      → IsCalm r
      → t.page.saving_spot ≡ none
      → t.page.saving_folder ≡ none
      → t.page.saving_stamps ≡ none
      → ShowsStored t
  rests_on_stored {s} {t} r loaded calm no_spot no_folder no_stamps =
      let h =
        (Reach-InStep r calm (TagsHeld-idle s.page loaded.no_tags, IsLoaded-InStep s loaded)).1 in
      record {
        place = h.place;
        spot = FilingState-idle spot_patch folder_patch t.page.saving_spot _ _ _ no_spot h.spot;
        folder =
            FilingState-idle folder_patch spot_patch t.page.saving_folder _ _ _ no_folder h.folder;
        stamps = StampState-idle t.page.saving_stamps _ _ no_stamps h.stamps;
        tags = h.tags;
      }

  -- From a page with a location that was loaded, where no tags are being saved, with any choice of a spot, a state can be reached that is at rest, in
  -- which the server has the chosen spot and the sent tags, and the page shows the spot that was there before.
  pub spot_shown_again :
      (s : System) (l : Uuid) (choice : Option Uuid)
      → IsLoaded s
      → s.page.item.row.location_id ≡ some l
      → (t : System) × Reach eq s t
        × (t.page.saving_spot ≡ none)
        × (t.page.saving_folder ≡ none)
        × (t.page.saving_stamps ≡ none)
        × (t.page.saving_tags ≡ none)
        × (t.stored.row.spot_id ≡ choice)
        × (t.stored.tags ≡ parse_tags s.page.tags_text)
        × (t.page.item.row.spot_id ≡ s.page.item.row.spot_id)
  unfolding assign_spot save_tags spot_saved tags_saved
  spot_shown_again s l choice loaded at' =
      let sent : save_tags s.page ≡ start_tags s.page = ground (arith, loaded.no_tags) in
      let begun : assign_spot choice (start_tags s.page) ≡ start_spot l choice (start_tags s.page) =
        ground (arith, loaded.no_spot, at') in
      let picked = ap (assign_spot choice) sent ∙ begun in
      let filing : Filing = record {
        previous = s.page.item.row.spot_id;
        request = record { location_id = l; folder_id = keep; spot_id = patch_of choice };
      } in
      let tagging : Tagging = record { item = s.page.item; names = parse_tags s.page.tags_text } in
      let s1 : System = on_page save_tags s in
      let s2 : System = on_page (assign_spot choice) s1 in
      let s3 : System = store_row (filed filing.request s2.stored.row) (on_page spot_saved s2) in
      let t : System = record {
        page = tags_saved tagging s3.page;
        stored = record s3.stored { tags = tagging.names };
      } in
      let run : Reach eq s t =
        next
          (next (next (next here (sends_tags s)) (picks_spot s1 choice))
            (files_spot s2 filing (ap (λ (p : Page). p.saving_spot) picked)))
          (stores_tags s3 tagging (ap (λ (p : Page). p.saving_tags) picked)) in
      (
        t,
        run,
        refl,
        ap (λ (p : Page). p.saving_folder) picked ∙ loaded.no_folder,
        ap (λ (p : Page). p.saving_stamps) picked ∙ loaded.no_stamps,
        refl,
        patched-patch_of choice s.stored.row.spot_id,
        refl,
        refl,
      )
