-- ===== src/Team/Members.antt =====
-- apps/api/src/team/team.service.ts: listMembers, updateAccountName, removeMember, updateMemberRole.
use omnia_note.Prelude.{
  ℕ, String, Bool, true, false, not, ◌&&◌, ◌||◌, Option, none, some, List, ◌==◌, select,
  update_first,
}
use omnia_note.Http.{
  Exec, bad_request, forbidden, not_found, pure, guard, gets, modify, or_throw, ◌>>=◌, ◌>>◌,
}
use omnia_note.Shared.Enums.{AccountRole, is_owner, is_member}
use omnia_note.Shared.Tiers.{AccountTier, tier_limits}
use omnia_note.World.{Uuid, User, Invite, World, get_account, get_user, find_user, delete_user}
use omnia_note.Team.Queries.{
  assert_can_manage_team, assert_not_last_owner, in_account, pending_in, account_display_name,
}

pub record Overview : Type 0 where
  pub account_name : String
  pub tier : AccountTier
  pub max_team_members : Option ℕ
  pub members : List User
  pub invites : List Invite

-- Rows stand in the order of their creation, which is the order that the code asks for. They are given whole, where the
-- code selects some of their fields.
unfoldable pub list_members : Uuid → Exec World Overview
unfolding account_display_name tier_limits
list_members account_id = do
  account ← get_account account_id
  w ← gets (λ s. s)
  pure (record {
    account_name = account_display_name account w;
    tier = account.tier;
    max_team_members = (tier_limits account.tier).max_team_members;
    members = select (in_account account_id) w.users;
    invites = select (pending_in w.clock account_id) w.invites;
  })

unfoldable pub update_account_name : Uuid → Uuid → String → Exec World String
update_account_name account_id caller_id name = do
  caller ← get_user caller_id
  guard (is_owner caller.role) (forbidden "Only an owner can rename the team")
  get_account account_id
  modify (λ s. record s {
    accounts =
        update_first (λ a. a.id == account_id) (λ a. record a { name = some name }) s.accounts;
  })
  pure name

-- `!target || target.accountId !== accountId`
abbrev pub member_of : Uuid → Option User → Option User
member_of account_id none = none
member_of account_id (some u) = elim (u.account_id == account_id) [ true ↦ some u | false ↦ none ]

-- `if (b) await m`
abbrev when : Bool → Exec World (Unit {0}) → Exec World (Unit {0})
when true m = m
when false m = pure tt

unfoldable pub remove_member : Uuid → Uuid → Uuid → Exec World (Unit {0})
unfolding assert_can_manage_team assert_not_last_owner
remove_member account_id caller_id target_id = do
  guard (not (caller_id == target_id))
      (bad_request "You can't remove yourself from the team this way")
  caller ← get_user caller_id
  w ← gets (λ s. s)
  target ←
      or_throw (not_found "Team member not found") (member_of account_id (find_user target_id w))
  assert_can_manage_team caller.role
  guard (is_member target.role || is_owner caller.role)
      (forbidden "Only an owner can remove an admin")
  when (is_owner target.role) (assert_not_last_owner account_id target_id)
  modify (delete_user target_id)

-- The updated row is given whole, where the code selects some of its fields.
unfoldable pub update_member_role : Uuid → Uuid → Uuid → AccountRole → Exec World User
unfolding assert_not_last_owner
update_member_role account_id caller_id target_id role = do
  caller ← get_user caller_id
  guard (is_owner caller.role) (forbidden "Only an owner can change roles")
  w ← gets (λ s. s)
  target ←
      or_throw (not_found "Team member not found") (member_of account_id (find_user target_id w))
  when (is_owner target.role && not (is_owner role)) (assert_not_last_owner account_id target_id)
  modify (λ s. record s {
    users = update_first (λ u. u.id == target_id) (λ u. record u { role = role }) s.users;
  })
  pure (record target { role = role })
