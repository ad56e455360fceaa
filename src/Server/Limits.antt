-- ===== src/Server/Limits.antt =====
-- The limits of the tiers through every sequence of requests to apps/api/src: what the handlers keep of them.
use omnia_note.Prelude.{
  ℕ, ◌+◌, String, refl, Option, List, [], ◌∷◌, arith, inl, inr, Option-cases, count, count-insert,
  All,
}
use omnia_note.Shared.Enums.{AccountRole}
use omnia_note.World.{
  Uuid, Account, Location, Folder, Spot, World, Draws, find_account, delete_user,
}
use omnia_note.Auth.{Caller}
use omnia_note.Team.{remove_member, update_member_role}
use omnia_note.Items
use omnia_note.Locations
use omnia_note.Locations.Limits.{location_step, folder_step, spot_step}
use omnia_note.Server.{Call, Libraries, Event, arrives, waits, services, run_events}
use omnia_note.Server.Stability.{Keeps, keeps}
use omnia_note.Server.Contents.{PlacesKeep, ItemsKeep}
use omnia_note.Server.Pipeline.{CallsKeep, EventKeeps, run_events-On}
use omnia_note.Server.Room.{HasPlaceRoom, Roomy, Roomy-adjusted, Roomy-IsStable, PlaceRoom-inserted}

module _ (a l : Uuid) (draws : Draws) (user : Caller) where
  locations-Roomy :
      (name : String) (address : Option String)
      → Keeps (Roomy a l) (Roomy-IsStable a l) (Locations.create draws user.account_id name address)
  locations-Roomy name address = keeps (λ w (h, p).
      elim (Option-cases (find_account user.account_id w)) [
        | inl absent ↦ unfold Locations.create in ground arith
        | inr (b, e) ↦
            let new : Location = record {
              id = draws.row_id;
              account_id = user.account_id;
              name = name;
              address = address;
            } in
            unfold Locations.create in
            (
              ground (
                arith,
                location_step b.tier (count (Locations.locations_of user.account_id) w.locations),
                count-insert (Locations.locations_of a) new w.locations,
              ),
              ground (
                arith,
                PlaceRoom-inserted l (count (Locations.folders_at l) w.folders)
                    (count (Locations.spots_at l) w.spots) new b w.locations w.accounts e p,
              ),
            )
      ])

  folders-Roomy :
      (name : String) (id : Uuid) (parent : Option Uuid)
      → Keeps
          (Roomy a l)
          (Roomy-IsStable a l)
          (Locations.create_folder draws user.account_id name id parent)
  folders-Roomy name id parent = keeps (λ w (h, p).
      elim (Option-cases (find_account user.account_id w)) [
        | inl absent ↦ unfold Locations.create_folder in ground arith
        | inr (b, e) ↦
            let new : Folder = record {
              id = draws.row_id;
              location_id = id;
              parent_folder_id = parent;
              name = name;
            } in
            unfold Locations.create_folder in
            ground (
              arith,
              folder_step b.tier (count (Locations.folders_at id) w.folders),
              count-insert (Locations.folders_at l) new w.folders,
            )
      ])

  spots-Roomy :
      (name : String) (id : Uuid)
      → Keeps (Roomy a l) (Roomy-IsStable a l) (Locations.create_spot draws user.account_id name id)
  spots-Roomy name id = keeps (λ w (h, p). elim (Option-cases (find_account user.account_id w)) [
    | inl absent ↦ unfold Locations.create_spot in ground arith
    | inr (b, e) ↦
        let new : Spot = record { id = draws.row_id; location_id = id; name = name } in
        unfold Locations.create_spot in
        ground (
          arith,
          spot_step b.tier (count (Locations.spots_at id) w.spots),
          count-insert (Locations.spots_at l) new w.spots,
        )
  ])

  places-Roomy : PlacesKeep (Roomy a l) (Roomy-IsStable a l) draws user
  places-Roomy = record {
    locations = locations-Roomy;
    folders = folders-Roomy;
    spots = spots-Roomy;
  }

  confirms-Roomy :
      (id bytes : ℕ) (mime : String)
      → Keeps (Roomy a l) (Roomy-IsStable a l) (Items.confirm_upload user.account_id id bytes mime)
  confirms-Roomy id bytes mime = keeps (λ w h.
      let charged =
        Roomy-adjusted a l user.account_id
          (λ (b : Account). record b { storage_used_bytes = b.storage_used_bytes + bytes })
          (λ b. (refl, refl)) w.users w.accounts w.items w.locations w.folders w.spots h in
      let (h0, p0) = h in
      let (h1, p1) = charged in unfold Items.confirm_upload in (ground arith, ground arith))

  items-Roomy : ItemsKeep (Roomy a l) (Roomy-IsStable a l) draws user
  items-Roomy = record {
    creates = λ input. keeps (λ w (h, p). unfold Items.create in (ground arith, ground arith));
    confirms = confirms-Roomy;
    files = λ id input. keeps (λ w (h, p). unfold Items.file in (ground arith, ground arith));
    marks = λ id. keeps (λ w (h, p). unfold Items.toggle_favorite in (ground arith, ground arith));
    stamps =
        λ id stamps. keeps (λ w (h, p). unfold Items.set_stamps in (ground arith, ground arith));
  }

module _ (a l : Uuid) where
  removes-Roomy :
      (account_id caller_id id : Uuid)
      → Keeps (Roomy a l) (Roomy-IsStable a l) (remove_member account_id caller_id id)
  removes-Roomy account_id caller_id id =
      keeps (λ w (h, p). unfold remove_member delete_user in (ground arith, ground arith))

  changes-Roomy :
      (account_id caller_id id : Uuid) (role : AccountRole)
      → Keeps (Roomy a l) (Roomy-IsStable a l) (update_member_role account_id caller_id id role)
  changes-Roomy account_id caller_id id role =
      keeps (λ w (h, p). unfold update_member_role in (ground arith, ground arith))

  calls-Roomy :
      (draws : Draws) (call : Call) → CallsKeep (Roomy a l) (Roomy-IsStable a l) draws call
  calls-Roomy draws call = record {
    removes = removes-Roomy;
    changes = changes-Roomy;
    places = λ user e. places-Roomy a l draws user;
    items = λ user e. items-Roomy a l draws user;
  }

  events-Roomy :
      (lib : Libraries) (es : List (Event lib))
      → All (EventKeeps (Roomy a l) (Roomy-IsStable a l) lib) es
  events-Roomy lib [] = tt
  events-Roomy lib (arrives r ∷ es) = (calls-Roomy r.draws r.call, events-Roomy lib es)
  events-Roomy lib (waits n ∷ es) = (tt, events-Roomy lib es)
  events-Roomy lib (services m r ∷ es) = (tt, events-Roomy lib es)

  -- If an account has no more locations than its tier allows, and a location no more folders and spots than the tier of
  -- its account allows, this holds after any sequence of requests to the API, by anyone and refused ones
  -- included, of time that passes, and of services that go down and come back. Where there is no such
  -- account or location, the condition is that nothing refers to it.
  pub run_events-HasPlaceRoom :
      (lib : Libraries) (es : List (Event lib)) (w : World)
      → HasPlaceRoom a l w
      → HasPlaceRoom a l (run_events lib es w)
  run_events-HasPlaceRoom lib es w h =
      run_events-On (Roomy a l) (Roomy-IsStable a l) lib es w (events-Roomy lib es) h
