-- ===== src/Team/Invitations.antt =====
-- apps/api/src/team/team.service.ts: inviteTeammate, revokeInvite, previewInvite, acceptInvite.
use omnia_note.Prelude.{
  ℕ, ◌+◌, String, Bool, not, ◌&&◌, ◌||◌, Option, none, some, List, [], ◌∷◌, ◌==◌, str_eq, is_some,
  find_first, count, insert, update_first, delete_first, concat, if◌then◌else◌,
}
use omnia_note.Http.{
  Exec, forbidden, not_found, conflict, unique_violation, pure, guard, gets, modify, or_throw,
  throw, transaction, ◌>>=◌, ◌>>◌,
}
use omnia_note.Shared.Enums.{AccountRole}
use omnia_note.Shared.Tiers.{is_within_team_member_limit, tier_name}
use omnia_note.World.{
  Uuid, Token, Time, User, Invite, World, Draws, get_account, get_user, find_user, has_login,
  create_user,
}
use omnia_note.Notifications.{send_team_invite}
use omnia_note.Auth.{Crypto, AuthTokens, new_user, issue_tokens}
use omnia_note.Team.Queries.{
  invite_ttl_ms, assert_can_manage_team, in_account, pending_in, pending_for, get_live_invite,
  account_display_name,
}

-- The answers about an invite: `id`, `email`, `role` and `expiresAt`.
pub record InviteSummary : Type 0 where
  pub id : Uuid
  pub email : String
  pub role : AccountRole
  pub expires_at : Time

pub record InvitePreview : Type 0 where
  pub email : String
  pub role : AccountRole
  pub account_name : String
  pub inviter_name : String

abbrev summary : Invite → InviteSummary
summary i = record { id = i.id; email = i.email; role = i.role; expires_at = i.expires_at }

-- `existingUser` is a conflict, here or elsewhere.
abbrev no_such_user : Uuid → Option User → Exec World (Unit {0})
no_such_user account_id none = pure tt
no_such_user account_id (some u) = throw (
    conflict (
      if u.account_id == account_id
      then "That person is already on this team"
      else "That email already belongs to an account elsewhere"))

abbrev pub seats : World → Uuid → ℕ
seats w account_id =
    count (in_account account_id) w.users + count (pending_in w.clock account_id) w.invites

-- A resent invite is refreshed in place; a new one is a new row.
abbrev pub invite_row : Draws → Uuid → Uuid → String → AccountRole → Time → Option Invite → Invite
invite_row draws account_id inviter_id email role now (some old) = record old {
  role = role;
  token = draws.invite_token;
  expires_at = now + invite_ttl_ms;
  invited_by_user_id = inviter_id;
}
invite_row draws account_id inviter_id email role now none = record {
  id = draws.row_id;
  account_id = account_id;
  email = email;
  role = role;
  token = draws.invite_token;
  invited_by_user_id = inviter_id;
  expires_at = now + invite_ttl_ms;
  accepted_at = none;
}

abbrev put_invite : Option Invite → Invite → List Invite → List Invite
put_invite (some old) new invites = update_first (λ i. i.id == old.id) (λ i. new) invites
put_invite none new invites = insert new invites

-- The unique columns of Invite; an update draws no id.
abbrev pub same_invite : Draws → Option Invite → Invite → Bool
same_invite draws existing i =
    i.token == draws.invite_token || (not (is_some existing) && i.id == draws.row_id)

unfoldable pub store_invite : Draws → Invite → Option Invite → Exec World (Unit {0})
store_invite draws new existing = do
  w ← gets (λ s. s)
  guard (not (is_some (find_first (same_invite draws existing) w.invites))) unique_violation
  modify (λ s. record s { invites = put_invite existing new s.invites })

module _ (c : Crypto) where
  unfoldable pub invite_teammate :
      Draws → Uuid → Uuid → String → AccountRole → Exec World InviteSummary
  unfolding assert_can_manage_team store_invite
  invite_teammate draws account_id inviter_id email role = do
    inviter ← get_user inviter_id
    assert_can_manage_team inviter.role
    w ← gets (λ s. s)
    no_such_user account_id (find_first (λ u. str_eq u.email email) w.users)
    account ← get_account account_id
    let existing = find_first (pending_for w.clock account_id email) w.invites
    guard (is_some existing || is_within_team_member_limit account.tier (seats w account_id)) (
        forbidden (
          concat (
            "Your "
            ∷ tier_name account.tier
            ∷ " plan allows a limited number of team members — upgrade to add another."
            ∷ [])))
    let invite = invite_row draws account_id inviter_id email role w.clock existing
    store_invite draws invite existing
    w' ← gets (λ s. s)
    send_team_invite email (account_display_name account w') inviter.username
        (concat (w'.config.app_url ∷ "/invite/" ∷ c.base64url draws.invite_token ∷ []))
    pure (summary invite)

  -- `existing` of acceptInvite
  abbrev pub no_login : Invite → Option User → Exec World (Unit {0})
  no_login invite none = pure tt
  no_login invite (some u) = throw (
      conflict (
        if str_eq u.email invite.email
        then "An account with this email already exists — sign in instead"
        else "That username is already taken"))

  unfoldable pub accept_invite :
      Draws → Token → (username password mobile_number : String) → Exec World AuthTokens
  unfolding get_live_invite create_user
  accept_invite draws token username password mobile_number = do
    invite ← get_live_invite token
    w ← gets (λ s. s)
    no_login invite (find_first (has_login invite.email username) w.users)
    user ← transaction (do
      user ← create_user (
          new_user c draws invite.account_id invite.email username password mobile_number
            invite.role w.clock)
      modify (λ s. record s {
        invites =
            update_first (λ i. i.id == invite.id) (λ i. record i { accepted_at = some s.clock })
              s.invites;
      })
      pure user)
    issue_tokens c draws user.id

unfoldable pub revoke_invite : Uuid → Uuid → Uuid → Exec World (Unit {0})
unfolding assert_can_manage_team
revoke_invite account_id caller_id invite_id = do
  caller ← get_user caller_id
  assert_can_manage_team caller.role
  w ← gets (λ s. s)
  invite ← or_throw (not_found "Invite not found") (find_first (λ i. i.id == invite_id) w.invites)
  guard (invite.account_id == account_id) (not_found "Invite not found")
  modify (λ s. record s { invites = delete_first (λ i. i.id == invite_id) s.invites })

abbrev inviter_name : Option User → String
inviter_name none = "Someone"
inviter_name (some u) = u.username

unfoldable pub preview_invite : Token → Exec World InvitePreview
unfolding get_live_invite account_display_name
preview_invite token = do
  invite ← get_live_invite token
  account ← get_account invite.account_id
  w ← gets (λ s. s)
  pure (record {
    email = invite.email;
    role = invite.role;
    account_name = account_display_name account w;
    inviter_name = inviter_name (find_user invite.invited_by_user_id w);
  })
