-- ===== src/Server/Invariants.antt =====
-- What holds of an account through every sequence of requests to apps/api/src.
use omnia_note.Prelude.{
  String, ◌≡◌, refl, Bool, some, List, [], ◌∷◌, arith, ◌==◌, inl, inr, Option-cases, Bool-cases,
  insert, count, count-insert, find_first, update_first, find_first-insert-some,
  find_first-inserted, find_first-insert, All,
}
use omnia_note.Shared.Enums.{AccountRole}
use omnia_note.Shared.Tiers.{tier_limits}
use omnia_note.World.{Uuid, User, Account, World, Draws, delete_user}
use omnia_note.Auth.{Caller}
use omnia_note.Team.{owner_of, remove_member, update_member_role}
use omnia_note.Team.Owners.{HasOwner, remove_member-HasOwner, update_member_role-HasOwner}
use omnia_note.Items
use omnia_note.Items.Quota.{QuotaOf, IsWithinQuota, confirm_upload-IsWithinQuota}
use omnia_note.Server.{Call, Libraries, Event, arrives, waits, services, run_events}
use omnia_note.Server.Stability.{IsStable, Keeps, keeps}
use omnia_note.Server.Contents.{PlacesKeep, ItemsKeep}
use omnia_note.Server.Frames.{Statement}
use omnia_note.Locations
use omnia_note.Server.Pipeline.{CallsKeep, EventKeeps, run_events-On}

abbrev by_id : Uuid → Account → Bool
by_id id a = a.id == id

-- The account has an owner, and uses no more storage than its tier allows.
abbrev pub IsSound : Uuid → World → Type 0
IsSound a w = HasOwner a w.users × IsWithinQuota a w

abbrev Sound : Uuid → Statement
Sound a us as' is ls fs ss = HasOwner a us × QuotaOf (find_first (by_id a) as')

QuotaOf-opened :
    (a : Uuid) (new : Account) (as' : List Account)
    → new.storage_used_bytes ≡ 0
    → QuotaOf (find_first (by_id a) as')
    → QuotaOf (find_first (by_id a) (insert new as'))
QuotaOf-opened a new as' empty h = elim (Option-cases (find_first (by_id a) as')) [
  | inl missing ↦ elim (Bool-cases (by_id a new)) [
    | inl hit ↦
        rw (find_first-inserted (by_id a) new as' missing hit) (unfold tier_limits in ground arith)
    | inr miss ↦ rw (find_first-insert (by_id a) new as' miss) h
  ]
  | inr (b, e) ↦ rw (find_first-insert-some (by_id a) new as' b e) (ground arith)
]

QuotaOf-renamed :
    (a id : Uuid) (name : String) (as' : List Account)
    → QuotaOf (find_first (by_id a) as')
    → QuotaOf
        (find_first (by_id a) (update_first (by_id id) (λ b. record b { name = some name }) as'))
unfolding find_first update_first
QuotaOf-renamed a id name [] h = h
QuotaOf-renamed a id name (b ∷ as') h = ground (arith, QuotaOf-renamed a id name as')

count-adjusted :
    (p q : User → Bool) (f : User → User) (us : List User)
    → ((u : User) → p (f u) ≡ p u)
    → count p (update_first q f us) ≡ count p us
unfolding count update_first
count-adjusted p q f [] same = refl
count-adjusted p q f (u ∷ us) same = ground (arith, same u, count-adjusted p q f us same)

HasOwner-adjusted :
    (a id : Uuid) (f : User → User) (us : List User)
    → ((u : User) → ((f u).role ≡ u.role) × ((f u).account_id ≡ u.account_id))
    → HasOwner a us
    → HasOwner a (update_first (λ u. u.id == id) f us)
HasOwner-adjusted a id f us same h =
    let kept =
      count-adjusted (owner_of a) (λ (u : User). u.id == id) f us
        (λ u. rw ((same u).0, (same u).1) refl) in
    omega (arith, kept)

Sound-IsStable : (a : Uuid) → IsStable (Sound a)
Sound-IsStable a = record {
  joined = λ u us as' is ls fs ss (h, q). (omega (arith, count-insert (owner_of a) u us), q);
  opened = λ new us as' is ls fs ss empty (h, q). (h, QuotaOf-opened a new as' empty q);
  adjusted = λ id f us as' is ls fs ss same (h, q). (HasOwner-adjusted a id f us same h, q);
  renamed = λ id name us as' is ls fs ss (h, q). (h, QuotaOf-renamed a id name as' q);
}

module _ (a : Uuid) where
  removes-Sound :
      (account_id caller_id id : Uuid)
      → Keeps (Sound a) (Sound-IsStable a) (remove_member account_id caller_id id)
  removes-Sound account_id caller_id id = keeps (λ w (h, q). (
    remove_member-HasOwner a account_id caller_id id w h,
    unfold remove_member delete_user in ground arith,
  ))

  changes-Sound :
      (account_id caller_id id : Uuid) (role : AccountRole)
      → Keeps (Sound a) (Sound-IsStable a) (update_member_role account_id caller_id id role)
  changes-Sound account_id caller_id id role = keeps (λ w (h, q). (
    update_member_role-HasOwner a account_id caller_id id role w h,
    unfold update_member_role in ground arith,
  ))

  places-Sound :
      (draws : Draws) (user : Caller) → PlacesKeep (Sound a) (Sound-IsStable a) draws user
  places-Sound draws user = record {
    locations = λ name address. keeps (λ w h. unfold Locations.create in ground arith);
    folders = λ name id parent. keeps (λ w h. unfold Locations.create_folder in ground arith);
    spots = λ name id. keeps (λ w h. unfold Locations.create_spot in ground arith);
  }

  items-Sound : (draws : Draws) (user : Caller) → ItemsKeep (Sound a) (Sound-IsStable a) draws user
  items-Sound draws user = record {
    creates = λ input. keeps (λ w (h, q). unfold Items.create in (ground arith, ground arith));
    confirms = λ id bytes mime. keeps (λ w (h, q). (
      unfold Items.confirm_upload in ground arith,
      confirm_upload-IsWithinQuota a user.account_id id bytes mime w q,
    ));
    files = λ id input. keeps (λ w (h, q). unfold Items.file in (ground arith, ground arith));
    marks = λ id. keeps (λ w (h, q). unfold Items.toggle_favorite in (ground arith, ground arith));
    stamps =
        λ id stamps. keeps (λ w (h, q). unfold Items.set_stamps in (ground arith, ground arith));
  }

  calls-Sound : (draws : Draws) (call : Call) → CallsKeep (Sound a) (Sound-IsStable a) draws call
  calls-Sound draws call = record {
    removes = removes-Sound;
    changes = changes-Sound;
    places = λ user e. places-Sound draws user;
    items = λ user e. items-Sound draws user;
  }

  events-Sound :
      (lib : Libraries) (es : List (Event lib))
      → All (EventKeeps (Sound a) (Sound-IsStable a) lib) es
  events-Sound lib [] = tt
  events-Sound lib (arrives r ∷ es) = (calls-Sound r.draws r.call, events-Sound lib es)
  events-Sound lib (waits n ∷ es) = (tt, events-Sound lib es)
  events-Sound lib (services m r ∷ es) = (tt, events-Sound lib es)

  -- If an account has an owner and uses no more storage than its tier allows, this holds after any sequence
  -- of requests to the API, by anyone and refused ones included, of time that passes, and of services that
  -- go down and come back.
  pub run_events-IsSound :
      (lib : Libraries) (es : List (Event lib)) (w : World)
      → IsSound a w
      → IsSound a (run_events lib es w)
  run_events-IsSound lib es w h =
      run_events-On (Sound a) (Sound-IsStable a) lib es w (events-Sound lib es) h
