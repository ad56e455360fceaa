-- ===== src/Team/Controller.antt =====
-- apps/api/src/team/team.controller.ts: the requests about a team. The last two are public.
use omnia_note.Prelude.{String}
use omnia_note.Http.{Exec, pure, ◌>>=◌, ◌>>◌}
use omnia_note.Shared.Enums.{AccountRole}
use omnia_note.World.{Uuid, Token, User, World, Draws}
use omnia_note.Auth.{Crypto, Caller, AuthTokens}
use omnia_note.Team.Invitations.{
  InviteSummary, InvitePreview, invite_teammate, revoke_invite, preview_invite, accept_invite,
}
use omnia_note.Team.Members.{
  Overview, list_members, update_account_name, remove_member, update_member_role,
}

pub data Request : Type 0 where
  get_members : Request
  patch_account_name : (name : String) → Request
  post_invite : (email : String) → AccountRole → Request
  delete_invite : (id : Uuid) → Request
  delete_member : (user_id : Uuid) → Request
  patch_role : (user_id : Uuid) → AccountRole → Request

pub data PublicRequest : Type 0 where
  get_invite : Token → PublicRequest
  post_accept : Token → (username password mobile_number : String) → PublicRequest

pub data Response : Type 0 where
  members : Overview → Response
  account_name : String → Response
  invited : InviteSummary → Response
  no_content : Response
  role_changed : User → Response
  preview : InvitePreview → Response
  session : AuthTokens → Response

module _ (c : Crypto) (draws : Draws) where
  unfoldable pub handle : Caller → Request → Exec World Response
  handle user get_members = do o ← list_members user.account_id; pure (members o)
  handle user (patch_account_name name) = do
    n ← update_account_name user.account_id user.sub name
    pure (account_name n)
  handle user (post_invite email role) = do
    i ← invite_teammate c draws user.account_id user.sub email role
    pure (invited i)
  handle user (delete_invite id) = do revoke_invite user.account_id user.sub id; pure no_content
  handle user (delete_member user_id) = do
    remove_member user.account_id user.sub user_id
    pure no_content
  handle user (patch_role user_id role) = do
    u ← update_member_role user.account_id user.sub user_id role
    pure (role_changed u)

  unfoldable pub handle_public : PublicRequest → Exec World Response
  handle_public (get_invite token) = do p ← preview_invite token; pure (preview p)
  handle_public (post_accept token username password mobile_number) = do
    t ← accept_invite c draws token username password mobile_number
    pure (session t)
