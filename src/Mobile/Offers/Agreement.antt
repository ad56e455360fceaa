-- ===== src/Mobile/Offers/Agreement.antt =====
-- The actions that apps/mobile/src/pages offer against what apps/api/src carries out.
use omnia_note.Prelude.{
  ◌<◌, String, ◌≡◌, refl, ap, Bool, true, false, not, Option, none, some, List, [], ◌∷◌, arith,
  ◌==◌, inl, inr, select, count, count_of_find_some, find_first_holds, find_first, Option-cases,
}
use omnia_note.Http.{Result, ok, err, answer}
use omnia_note.Shared.Enums.{AccountRole, is_owner}
use omnia_note.Shared.Tiers.{
  tier_limits, is_within_location_limit, is_within_folder_limit, is_within_spot_limit,
  is_within_team_member_limit,
}
use omnia_note.World.{Uuid, User, Account, Location, Draws, World, find_user, find_account}
use omnia_note.Auth.{Crypto}
use omnia_note.Auth.Controller.{Profile}
use omnia_note.Team.{
  Overview, in_account, pending_in, pending_for, other_owner_of, seats, list_members, remove_member,
  update_member_role, invite_teammate,
}
use omnia_note.Locations
use omnia_note.Mobile.Offers.{
  length, can_remove, can_change_role, at_limit, at_location_limit, at_folder_limit, at_spot_limit,
}

abbrev pub succeeds : {A : Type 0} → Result A → Bool
succeeds (ok a) = true
succeeds (err e) = false

-- The profile is of a user of the account, and the row shows another user of it.
pub record AreTeam (account_id : Uuid) (profile : Profile) (row : User) (w : World) : Type 0 where
  pub caller : User
  pub called : find_user profile.id w ≡ some caller
  pub role : profile.role ≡ caller.role
  pub caller_account : caller.account_id ≡ account_id
  pub found : find_user row.id w ≡ some row
  pub row_account : row.account_id ≡ account_id

module _ (account_id : Uuid) (profile : Profile) (row : User) (w : World)
    (team : AreTeam account_id profile row w) where
  -- An owner other than the row's user is left.
  owner_stays :
      is_owner profile.role ≡ true
      → (row.id == profile.id) ≡ false
      → 0 < count (other_owner_of account_id row.id) w.users
  owner_stays owns other =
      count_of_find_some (λ (u : User). u.id == profile.id) (other_owner_of account_id row.id)
        w.users team.caller team.called
        (ground (
          arith,
          ap is_owner team.role,
          find_first_holds (λ (u : User). u.id == profile.id) w.users team.caller team.called,
        ))

  remove_agrees :
      succeeds (answer (remove_member account_id profile.id row.id) w) ≡ can_remove profile row
  unfolding remove_member can_remove
  remove_agrees = ground (arith, owner_stays)

  role_agrees :
      (role : AccountRole)
      → can_change_role profile row ≡ true
      → succeeds (answer (update_member_role account_id profile.id row.id role) w) ≡ true
  unfolding update_member_role can_change_role
  role_agrees role offered = ground (arith, owner_stays)

  -- The page of a team offers to remove a member exactly when the server would carry it out, and where it offers
  -- a choice of roles, the server accepts each of them.
  pub member_row_agrees :
      (succeeds (answer (remove_member account_id profile.id row.id) w) ≡ can_remove profile row)
      × ((role : AccountRole)
          → can_change_role profile row ≡ true
          → succeeds (answer (update_member_role account_id profile.id row.id role) w) ≡ true)
  member_row_agrees = (remove_agrees, role_agrees)

length-select : {A : Type 0} (p : A → Bool) (xs : List A) → length (select p xs) ≡ count p xs
unfolding select count
length-select p [] = refl
length-select p (x ∷ xs) = ground (arith, length-select p xs)

-- The team as it is listed has reached its limit exactly when the server counts no seat left.
at_limit-seats :
    (account_id : Uuid) (w : World) (o : Overview) (acc : Account)
    → find_account account_id w ≡ some acc
    → answer (list_members account_id) w ≡ ok o
    → at_limit (some o) ≡ not (is_within_team_member_limit acc.tier (seats w account_id))
unfolding list_members at_limit is_within_team_member_limit tier_limits
at_limit-seats account_id w o acc found listed = ground (
  arith,
  length-select (in_account account_id) w.users,
  length-select (pending_in w.clock account_id) w.invites,
)

-- Where the page says that the team is full, the server refuses an invite to an address that has none pending.
pub invite_form_agrees :
    (c : Crypto) (draws : Draws) (account_id inviter_id : Uuid) (email : String)
    (role : AccountRole) (w : World) (o : Overview)
    → answer (list_members account_id) w ≡ ok o
    → find_first (pending_for w.clock account_id email) w.invites ≡ none
    → at_limit (some o) ≡ true
    → succeeds (answer (invite_teammate c draws account_id inviter_id email role) w) ≡ false
unfolding invite_teammate
invite_form_agrees c draws account_id inviter_id email role w o listed fresh full =
    elim (Option-cases (find_account account_id w)) [
      | inl missing ↦ ground arith
      | inr (acc, found) ↦ ground (arith, at_limit-seats account_id w o acc found listed)
    ]

module _ (draws : Draws) (account_id : Uuid) (w : World) (acc : Account)
    (known : find_account account_id w ≡ some acc) where
  location_agrees :
      (name : String) (address : Option String)
      → Locations.find_location draws.row_id w ≡ none
      → succeeds (answer (Locations.create draws account_id name address) w)
        ≡ not (
            at_location_limit
              (some acc.tier)
              (select (Locations.locations_of account_id) w.locations))
  unfolding Locations.create at_location_limit is_within_location_limit tier_limits
  location_agrees name address fresh =
      ground (arith, length-select (Locations.locations_of account_id) w.locations)

  module _ (l : Uuid) (location : Location) (found : Locations.find_location l w ≡ some location)
      (own : location.account_id ≡ account_id) where
    folder_agrees :
        (name : String)
        → Locations.find_folder draws.row_id w ≡ none
        → succeeds (answer (Locations.create_folder draws account_id name l none) w)
          ≡ not (at_folder_limit (some acc.tier) (select (Locations.folders_at l) w.folders))
    unfolding Locations.create_folder at_folder_limit is_within_folder_limit tier_limits
    folder_agrees name fresh = ground (arith, length-select (Locations.folders_at l) w.folders)

    spot_agrees :
        (name : String)
        → Locations.find_spot draws.row_id w ≡ none
        → succeeds (answer (Locations.create_spot draws account_id name l) w)
          ≡ not (at_spot_limit (some acc.tier) (select (Locations.spots_at l) w.spots))
    unfolding Locations.create_spot at_spot_limit is_within_spot_limit tier_limits
    spot_agrees name fresh = ground (arith, length-select (Locations.spots_at l) w.spots)

    -- With the account's tier and the lists that the server gives, a page hides the box for a new location, folder or
    -- spot exactly when the server would refuse it, if the new id is fresh and the folder stands at the top.
    pub add_box_agrees :
        (name : String)
        → Locations.find_location draws.row_id w ≡ none
        → Locations.find_folder draws.row_id w ≡ none
        → Locations.find_spot draws.row_id w ≡ none
        → (succeeds (answer (Locations.create draws account_id name none) w)
            ≡ not (
                at_location_limit
                  (some acc.tier)
                  (select (Locations.locations_of account_id) w.locations)))
          × (succeeds (answer (Locations.create_folder draws account_id name l none) w)
              ≡ not (at_folder_limit (some acc.tier) (select (Locations.folders_at l) w.folders)))
          × (succeeds (answer (Locations.create_spot draws account_id name l) w)
              ≡ not (at_spot_limit (some acc.tier) (select (Locations.spots_at l) w.spots)))
    add_box_agrees name no_location no_folder no_spot = (
      location_agrees name none no_location,
      folder_agrees name no_folder,
      spot_agrees name no_spot,
    )
