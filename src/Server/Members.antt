-- ===== src/Server/Members.antt =====
-- What the requests of apps/api/src/team/team.controller.ts keep of the users, the accounts and the items.
use omnia_note.Prelude.{String, refl, Option, none, some, arith, ◌==◌, update_first}
use omnia_note.Http.{modify}
use omnia_note.Shared.Enums.{AccountRole}
use omnia_note.World.{Uuid, Token, User, Invite, Draws, get_account}
use omnia_note.Auth.{Crypto, Caller}
use omnia_note.Notifications.{send_team_invite}
use omnia_note.Team.{
  get_live_invite, no_login, invite_teammate, revoke_invite, preview_invite, accept_invite,
  list_members, update_account_name, remove_member, update_member_role,
}
use omnia_note.Team.Controller.{
  Request, PublicRequest, get_members, patch_account_name, post_invite, delete_invite,
  delete_member, patch_role, get_invite, post_accept, handle, handle_public,
}
use omnia_note.Server.Frames.{Statement, Frame, frame, issue_tokens-Frame}
use omnia_note.Server.Stability.{IsStable, Keeps, keeps, Frame-Keeps, kept, create_user-Keeps}

list_members-Frame : (account_id : Uuid) → Frame (list_members account_id)
unfolding list_members
list_members-Frame account_id = frame (λ w. ground arith)

invite_teammate-Frame :
    (c : Crypto) (draws : Draws) (account_id inviter_id : Uuid) (email : String)
    (role : AccountRole)
    → Frame (invite_teammate c draws account_id inviter_id email role)
unfolding invite_teammate send_team_invite
invite_teammate-Frame c draws account_id inviter_id email role = frame (λ w. ground arith)

revoke_invite-Frame :
    (account_id caller_id id : Uuid) → Frame (revoke_invite account_id caller_id id)
unfolding revoke_invite
revoke_invite-Frame account_id caller_id id = frame (λ w. ground arith)

preview_invite-Frame : (token : Token) → Frame (preview_invite token)
unfolding preview_invite
preview_invite-Frame token = frame (λ w. ground arith)

get_live_invite-Frame : (token : Token) → Frame (get_live_invite token)
unfolding get_live_invite
get_live_invite-Frame token = frame (λ w. ground arith)

no_login-Frame : (c : Crypto) (i : Invite) (o : Option User) → Frame (no_login c i o)
no_login-Frame c i none = frame (λ w. (refl, refl, refl, refl, refl, refl))
no_login-Frame c i (some u) = frame (λ w. (refl, refl, refl, refl, refl, refl))

get_account-Frame : (id : Uuid) → Frame (get_account id)
get_account-Frame id = frame (λ w. ground arith)

module _ (Q : Statement) (stable : IsStable Q) (c : Crypto) (draws : Draws) where
  accepted-Keeps :
      (id : Uuid)
      → Keeps Q stable (
          modify (λ s. record s {
            invites =
                update_first
                  (λ i. i.id == id)
                  (λ i. record i { accepted_at = some s.clock })
                  s.invites;
          }))
  accepted-Keeps id = keeps (λ w p. p)

  accept_invite-Keeps :
      (token : Token) (username password mobile_number : String)
      → Keeps Q stable (accept_invite c draws token username password mobile_number)
  unfolding accept_invite
  accept_invite-Keeps token username password mobile_number =
      let live = Frame-Keeps Q stable (get_live_invite-Frame token) in
      let free = λ (i : Invite) (o : Option User). Frame-Keeps Q stable (no_login-Frame c i o) in
      let issued = λ (id : Uuid). Frame-Keeps Q stable (issue_tokens-Frame c draws id) in
      search (kept, live, free, create_user-Keeps, accepted-Keeps, issued) depth 12

  renamed-Keeps :
      (id : Uuid) (name : String)
      → Keeps Q stable (
          modify (λ s. record s {
            accounts =
                update_first (λ a. a.id == id) (λ a. record a { name = some name }) s.accounts;
          }))
  renamed-Keeps id name =
      keeps
        (λ w p. stable.renamed id name w.users w.accounts w.items w.locations w.folders w.spots p)

  update_account_name-Keeps :
      (account_id caller_id : Uuid) (name : String)
      → Keeps Q stable (update_account_name account_id caller_id name)
  unfolding update_account_name
  update_account_name-Keeps account_id caller_id name =
      let account = λ (id : Uuid). Frame-Keeps Q stable (get_account-Frame id) in
      search (kept, account, renamed-Keeps) depth 12

  -- Whatever the request of a caller, if removals and changes of roles keep the statement.
  pub team_handle-Keeps :
      ((account_id caller_id id : Uuid) → Keeps Q stable (remove_member account_id caller_id id))
      → ((account_id caller_id id : Uuid) (role : AccountRole)
          → Keeps Q stable (update_member_role account_id caller_id id role))
      → (user : Caller) (r : Request) → Keeps Q stable (handle c draws user r)
  unfolding handle
  team_handle-Keeps removed changed user get_members =
      search (kept, Frame-Keeps Q stable (list_members-Frame user.account_id))
  team_handle-Keeps removed changed user (patch_account_name name) =
      search (kept, update_account_name-Keeps)
  team_handle-Keeps removed changed user (post_invite email role) = search (
    kept,
    Frame-Keeps Q stable (invite_teammate-Frame c draws user.account_id user.sub email role),
  )
  team_handle-Keeps removed changed user (delete_invite id) =
      search (kept, Frame-Keeps Q stable (revoke_invite-Frame user.account_id user.sub id))
  team_handle-Keeps removed changed user (delete_member id) = search (kept, removed)
  team_handle-Keeps removed changed user (patch_role id role) = search (kept, changed)

  pub team_handle_public-Keeps : (r : PublicRequest) → Keeps Q stable (handle_public c draws r)
  unfolding handle_public
  team_handle_public-Keeps (get_invite token) =
      search (kept, Frame-Keeps Q stable (preview_invite-Frame token))
  team_handle_public-Keeps (post_accept token username password mobile_number) =
      search (kept, accept_invite-Keeps)
