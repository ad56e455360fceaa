-- ===== src/Mobile/Inbox/Picks.antt =====
-- apps/mobile/src/pages/InboxPage.tsx: picks, filings and answers keep the drafts in place.
use omnia_note.Prelude.{
  true, ◌≡◌, refl, Option, none, some, List, ◌==◌, arith, inl, inr, Bool-cases, find_first,
  find_first_holds, All, All-find,
}
use omnia_note.World.{Uuid, Location, Folder, Spot}
use omnia_note.Mobile.Inbox.{
  Draft, Contents, Inbox, only_location, contents_loaded, pick_location, pick_folder, pick_spot,
  item_filed, OffersFolder, OffersSpot,
}
use omnia_note.Mobile.Inbox.InPlace.{
  FolderOf, SpotOf, OwnAt, FolderFits, SpotFits, InPlace, Fits-only, with_draft-InPlace,
  load_location_contents-InPlace,
}

module _ (a : Uuid) (ls : List Location) (fs : List Folder) (ss : List Spot) where
  FolderFits-offered :
      (l : Uuid) (o : Option Contents) (folder : Option Uuid)
      → ((c : Contents) → o ≡ some c → All (FolderOf fs l) c.folders)
      → OffersFolder o folder
      → FolderFits fs l folder
  FolderFits-offered l none none sound offered = tt
  FolderFits-offered l none (some id) sound offered = absurd offered
  FolderFits-offered l (some c) none sound offered = tt
  FolderFits-offered l (some c) (some id) sound (f, found) =
      let (there, place) =
        All-find (FolderOf fs l) (λ (g : Folder). g.id == id) c.folders f (sound c refl) found in
      let same : (f.id == id) ≡ true =
        find_first_holds (λ (g : Folder). g.id == id) c.folders f found in
      let at' : f.id ≡ id = ground arith in (f, rw (← at') there, place)

  SpotFits-offered :
      (l : Uuid) (o : Option Contents) (spot : Option Uuid)
      → ((c : Contents) → o ≡ some c → All (SpotOf ss l) c.spots)
      → OffersSpot o spot
      → SpotFits ss l spot
  SpotFits-offered l none none sound offered = tt
  SpotFits-offered l none (some id) sound offered = absurd offered
  SpotFits-offered l (some c) none sound offered = tt
  SpotFits-offered l (some c) (some id) sound (f, found) =
      let (there, place) =
        All-find (SpotOf ss l) (λ (g : Spot). g.id == id) c.spots f (sound c refl) found in
      let same : (f.id == id) ≡ true =
        find_first_holds (λ (g : Spot). g.id == id) c.spots f found in
      let at' : f.id ≡ id = ground arith in (f, rw (← at') there, place)

  pub pick_folder-InPlace :
      (i l : Uuid) (d : Draft) (folder : Option Uuid) (p : Inbox)
      → p.drafts i ≡ some d
      → d.location_id ≡ some l
      → OffersFolder (p.location_contents l) folder
      → InPlace a p ls fs ss
      → InPlace a (pick_folder i folder p) ls fs ss
  unfolding pick_folder
  pick_folder-InPlace i l d folder p drafted at' offered h =
      let old = h.drafts i d drafted in
      let fits =
        FolderFits-offered l (p.location_contents l) folder (λ c e. h.folders l c e) offered in
      rw drafted (
        with_draft-InPlace a ls fs ss i (record d { folder_id = folder }) p
          (record {
            own = old.own;
            folder = λ k e. (let same : l ≡ k = ground arith in rw (← same) fits);
            spot = old.spot;
          })
          h)

  pub pick_spot-InPlace :
      (i l : Uuid) (d : Draft) (spot : Option Uuid) (p : Inbox)
      → p.drafts i ≡ some d
      → d.location_id ≡ some l
      → OffersSpot (p.location_contents l) spot
      → InPlace a p ls fs ss
      → InPlace a (pick_spot i spot p) ls fs ss
  unfolding pick_spot
  pick_spot-InPlace i l d spot p drafted at' offered h =
      let old = h.drafts i d drafted in
      let fits = SpotFits-offered l (p.location_contents l) spot (λ c e. h.spots l c e) offered in
      rw drafted (
        with_draft-InPlace a ls fs ss i (record d { spot_id = spot }) p
          (record {
            own = old.own;
            folder = old.folder;
            spot = λ k e. (let same : l ≡ k = ground arith in rw (← same) fits);
          })
          h)

  pub pick_location-InPlace :
      (i : Uuid) (l : Location) (p : Inbox)
      → find_first (λ (k : Location). k.id == l.id) p.locations ≡ some l
      → InPlace a p ls fs ss
      → InPlace a (pick_location i l.id p) ls fs ss
  unfolding pick_location
  pick_location-InPlace i l p listed h =
      let own =
        All-find (λ (k : Location). OwnAt a ls k.id) (λ (k : Location). k.id == l.id) p.locations l
          h.locations listed in
      load_location_contents-InPlace a ls fs ss l.id _
        (with_draft-InPlace a ls fs ss i (only_location l.id) p (Fits-only a ls fs ss l.id own) h)

  pub item_filed-InPlace :
      (i : Uuid) (p : Inbox) → InPlace a p ls fs ss → InPlace a (item_filed i p) ls fs ss
  unfolding item_filed
  item_filed-InPlace i p h = record {
    locations = h.locations;
    folders = h.folders;
    spots = h.spots;
    drafts = λ j d found. elim (Bool-cases (j == i)) [
      | inl same ↦ absurd (ground arith)
      | inr other ↦ h.drafts j d (ground arith)
    ];
  }

  pub contents_loaded-InPlace :
      (l : Uuid) (c : Contents) (p : Inbox)
      → All (FolderOf fs l) c.folders
      → All (SpotOf ss l) c.spots
      → InPlace a p ls fs ss
      → InPlace a (contents_loaded l c p) ls fs ss
  unfolding contents_loaded
  contents_loaded-InPlace l c p folders spots h = record {
    locations = h.locations;
    folders = λ k e found. elim (Bool-cases (k == l)) [
      | inl same ↦
          (let at' : l ≡ k = ground arith in
            let is : c ≡ e = ground arith in rw (← at', ← is) folders)
      | inr other ↦ h.folders k e (ground arith)
    ];
    spots = λ k e found. elim (Bool-cases (k == l)) [
      | inl same ↦
          (let at' : l ≡ k = ground arith in
            let is : c ≡ e = ground arith in rw (← at', ← is) spots)
      | inr other ↦ h.spots k e (ground arith)
    ];
    drafts = h.drafts;
  }
