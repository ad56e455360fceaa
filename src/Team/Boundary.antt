-- ===== src/Team/Boundary.antt =====
-- The users of other accounts under the requests of apps/api/src/team/team.controller.ts.
use omnia_note.Prelude.{
  ◌≡◌, Bool, not, List, arith, ◌==◌, inl, inr, Option-cases, select, select-update_first,
  select-delete_first,
}
use omnia_note.Http.{after}
use omnia_note.Shared.Enums.{AccountRole}
use omnia_note.World.{Uuid, User, World, Draws, find_user, delete_user}
use omnia_note.Notifications.{send_team_invite}
use omnia_note.Auth.{Crypto, Caller}
use omnia_note.Team.Invitations.{invite_teammate, revoke_invite}
use omnia_note.Team.Members.{list_members, update_account_name, remove_member, update_member_role}
use omnia_note.Team.Controller.{
  Request, get_members, patch_account_name, post_invite, delete_invite, delete_member, patch_role,
  handle,
}

abbrev foreign : Uuid → User → Bool
foreign account_id u = not (u.account_id == account_id)

abbrev pub foreign_users : Uuid → World → List User
foreign_users account_id w = select (foreign account_id) w.users

abbrev by_id : Uuid → User → Bool
by_id id u = u.id == id

module _ (account_id caller_id target_id : Uuid) (w : World) where
  foreign_users-remove_member :
      foreign_users account_id (after (remove_member account_id caller_id target_id) w)
      ≡ foreign_users account_id w
  unfolding remove_member delete_user
  foreign_users-remove_member = elim (Option-cases (find_user target_id w)) [
    | inl missing ↦ ground arith
    | inr (u, e) ↦
        ground (arith, select-delete_first (foreign account_id) (by_id target_id) w.users u e)
  ]

  foreign_users-update_member_role :
      (role : AccountRole)
      → foreign_users account_id (after (update_member_role account_id caller_id target_id role) w)
        ≡ foreign_users account_id w
  unfolding update_member_role
  foreign_users-update_member_role role = elim (Option-cases (find_user target_id w)) [
    | inl missing ↦ ground arith
    | inr (u, e) ↦ ground (
      arith,
      select-update_first (foreign account_id) (by_id target_id)
          (λ (v : User). record v { role = role }) w.users u e,
    )
  ]

-- Whatever the request of a caller and however it ends, the users of the other accounts are the same
-- after it.
pub foreign_users-handle :
    (c : Crypto) (draws : Draws) (user : Caller) (r : Request) (w : World)
    → foreign_users user.account_id (after (handle c draws user r) w)
      ≡ foreign_users user.account_id w
unfolding handle
foreign_users-handle c draws user get_members w = unfold list_members in ground arith
foreign_users-handle c draws user (patch_account_name name) w =
    unfold update_account_name in ground arith
foreign_users-handle c draws user (post_invite email role) w =
    unfold invite_teammate send_team_invite in ground arith
foreign_users-handle c draws user (delete_invite id) w = unfold revoke_invite in ground arith
foreign_users-handle c draws user (delete_member id) w =
    ground (arith, foreign_users-remove_member user.account_id user.sub id w)
foreign_users-handle c draws user (patch_role id role) w =
    ground (arith, foreign_users-update_member_role user.account_id user.sub id w role)
