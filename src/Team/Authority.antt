-- ===== src/Team/Authority.antt =====
-- removeMember of apps/api/src/team/team.service.ts: who may call it, and what it leaves.
use omnia_note.Prelude.{◌≡◌, ◌≢◌, false, arith, some, ◌⊎◌, inl, inr, Option-cases, count, ◌<◌}
use omnia_note.Http.{Exception, ok, err, answer, after}
use omnia_note.Shared.Enums.{owner, admin, member, is_owner}
use omnia_note.World.{Uuid, User, World, find_user, delete_user}
use omnia_note.Team.Queries.{other_owner_of}
use omnia_note.Team.Members.{remove_member}

-- What holds of a removal that is carried out.
pub record Removal (account_id caller_id target_id : Uuid) (w : World) : Type 0 where
  pub caller : User
  pub target : User
  pub called : find_user caller_id w ≡ some caller
  pub found : find_user target_id w ≡ some target
  pub not_self : caller_id ≢ target_id
  pub same_account : target.account_id ≡ account_id
  pub rank : (caller.role ≡ owner) ⊎ ((caller.role ≡ admin) × (target.role ≡ member))
  pub owner_left :
      (is_owner target.role ≡ false) ⊎ (0 < count (other_owner_of account_id target_id) w.users)

-- A member who is removed is not the caller and belongs to the account; the caller is an owner, or an
-- admin who removes a plain member; if an owner is removed, the account has another one. The state
-- after it is the one without the member.
pub remove_member_ok :
    (account_id caller_id target_id : Uuid) (w : World)
    → answer (remove_member account_id caller_id target_id) w ≡ ok tt
    → Removal account_id caller_id target_id w
      × (after (remove_member account_id caller_id target_id) w ≡ delete_user target_id w)
unfolding remove_member
remove_member_ok account_id caller_id target_id w h = elim (Option-cases (find_user target_id w)) [
  | inl missing ↦ ground arith
  | inr (u, found) ↦ elim (Option-cases (find_user caller_id w)) [
    | inl missing ↦ ground arith
    | inr (c, called) ↦ (
      record {
        caller = c;
        target = u;
        called = called;
        found = found;
        not_self = ground arith;
        same_account = ground arith;
        rank = ground arith;
        owner_left = ground arith;
      },
      ground arith,
    )
  ]
]

-- A removal that is refused changes nothing.
pub remove_member_err :
    (account_id caller_id target_id : Uuid) (w : World) (e : Exception)
    → answer (remove_member account_id caller_id target_id) w ≡ err e
    → after (remove_member account_id caller_id target_id) w ≡ w
unfolding remove_member
remove_member_err account_id caller_id target_id w e h = ground arith
