-- ===== src/Server/Isolation.antt =====
-- The items of an account under the requests of others to apps/api/src.
use omnia_note.Prelude.{
  ◌≡◌, ◌≢◌, refl, sym, ap, ◌∙◌, Bool, true, some, List, [], ◌∷◌, arith, ◌==◌, select, All,
}
use omnia_note.Shared.Enums.{AccountRole}
use omnia_note.World.{Uuid, Item, World, Draws, delete_user}
use omnia_note.Auth.{Caller}
use omnia_note.Team.{remove_member, update_member_role}
use omnia_note.Items.Isolation.{
  foreign, foreign_items-create, foreign_items-file, foreign_items-confirm_upload,
  foreign_items-set_stamps, foreign_items-toggle_favorite,
}
use omnia_note.Server.{Libraries, Event, arrives, waits, services, caller_of, run_events}
use omnia_note.Server.Stability.{IsStable, Keeps, keeps}
use omnia_note.Server.Contents.{PlacesKeep, ItemsKeep}
use omnia_note.Server.Frames.{Statement}
use omnia_note.Locations
use omnia_note.Server.Pipeline.{EventKeeps, run_events-On}

abbrev owned : Uuid → Item → Bool
owned a i = i.account_id == a

abbrev pub items_of : Uuid → World → List Item
items_of a w = select (owned a) w.items

select-select :
    (q p : Item → Bool) (xs : List Item)
    → ((x : Item) → q x ≡ true → p x ≡ true)
    → select q (select p xs) ≡ select q xs
unfolding select
select-select q p [] h = refl
select-select q p (x ∷ xs) h = ground (arith, h x, select-select q p xs h)

-- What leaves the items of all but one account alone leaves those of another account alone.
owned_of_foreign :
    (a b : Uuid) (xs ys : List Item)
    → b ≢ a
    → select (foreign b) xs ≡ select (foreign b) ys
    → select (owned a) xs ≡ select (owned a) ys
owned_of_foreign a b xs ys other same =
    sym (select-select (owned a) (foreign b) xs (λ x h. ground arith))
    ∙ ap (select (owned a)) same
    ∙ select-select (owned a) (foreign b) ys (λ x h. ground arith)

-- The request, if it has a caller, is made by a user of another account.
abbrev pub IsByOthers : Uuid → (lib : Libraries) → Event lib → Type 0
IsByOthers a lib (arrives r) = (user : Caller) → caller_of r.call ≡ some user → user.account_id ≢ a
IsByOthers a lib _ = Unit

module _ (a : Uuid) (before : List Item) where
  abbrev Unmoved : Statement
  Unmoved us as' is ls fs ss = select (owned a) is ≡ before

  Unmoved-IsStable : IsStable Unmoved
  Unmoved-IsStable = record {
    joined = λ u us as' is ls fs ss h. h;
    opened = λ new us as' is ls fs ss empty h. h;
    adjusted = λ id f us as' is ls fs ss same h. h;
    renamed = λ id name us as' is ls fs ss h. h;
  }

  items-Unmoved :
      (draws : Draws) (user : Caller)
      → user.account_id ≢ a
      → ItemsKeep Unmoved Unmoved-IsStable draws user
  items-Unmoved draws user other =
      let moved = λ (xs ys : List Item). owned_of_foreign a user.account_id xs ys other in
      record {
        creates = λ input.
            keeps
              (λ w h. moved _ _ (foreign_items-create draws user.account_id user.sub input w) ∙ h);
        confirms = λ id bytes mime.
            keeps
              (λ w h. moved _ _ (foreign_items-confirm_upload user.account_id id w bytes mime) ∙ h);
        files = λ id input.
            keeps (λ w h. moved _ _ (foreign_items-file user.account_id id w input) ∙ h);
        marks =
            λ id. keeps (λ w h. moved _ _ (foreign_items-toggle_favorite user.account_id id w) ∙ h);
        stamps = λ id stamps.
            keeps (λ w h. moved _ _ (foreign_items-set_stamps user.account_id id w stamps) ∙ h);
      }

  places-Unmoved : (draws : Draws) (user : Caller) → PlacesKeep Unmoved Unmoved-IsStable draws user
  places-Unmoved draws user = record {
    locations = λ name address. keeps (λ w h. unfold Locations.create in ground arith);
    folders = λ name id parent. keeps (λ w h. unfold Locations.create_folder in ground arith);
    spots = λ name id. keeps (λ w h. unfold Locations.create_spot in ground arith);
  }

  removes-Unmoved :
      (account_id caller_id id : Uuid)
      → Keeps Unmoved Unmoved-IsStable (remove_member account_id caller_id id)
  removes-Unmoved account_id caller_id id =
      keeps (λ w h. unfold remove_member delete_user in ground arith)

  changes-Unmoved :
      (account_id caller_id id : Uuid) (role : AccountRole)
      → Keeps Unmoved Unmoved-IsStable (update_member_role account_id caller_id id role)
  changes-Unmoved account_id caller_id id role =
      keeps (λ w h. unfold update_member_role in ground arith)

  events-Unmoved :
      (lib : Libraries) (es : List (Event lib))
      → All (IsByOthers a lib) es
      → All (EventKeeps Unmoved Unmoved-IsStable lib) es
  events-Unmoved lib [] h = tt
  events-Unmoved lib (arrives r ∷ es) h = (
    record {
      removes = removes-Unmoved;
      changes = changes-Unmoved;
      places = λ user e. places-Unmoved r.draws user;
      items = λ user e. items-Unmoved r.draws user (h.0 user e);
    },
    events-Unmoved lib es h.1,
  )
  events-Unmoved lib (waits n ∷ es) h = (tt, events-Unmoved lib es h.1)
  events-Unmoved lib (services m r ∷ es) h = (tt, events-Unmoved lib es h.1)

-- Any sequence of requests to the API that come from users of other accounts or from nobody, of time that
-- passes, and of services that go down and come back, leaves the items of an account as they were.
pub items_of-run_events :
    (a : Uuid) (lib : Libraries) (es : List (Event lib)) (w : World)
    → All (IsByOthers a lib) es
    → items_of a (run_events lib es w) ≡ items_of a w
items_of-run_events a lib es w others =
    let before = items_of a w in
    run_events-On (Unmoved a before) (Unmoved-IsStable a before) lib es w
      (events-Unmoved a before lib es others) refl
