-- ===== src/Team/Owners.antt =====
-- The owners of an account under removeMember and updateMemberRole of
-- apps/api/src/team/team.service.ts.
use omnia_note.Prelude.{
  ◌<◌, ◌≡◌, Bool, true, false, List, arith, ◌==◌, some, ◌⊎◌, inl, inr, Option-cases, count,
  find_first, delete_first, update_first, count_mono, count-delete_first, count-update_first,
  find_first_holds,
}
use omnia_note.Http.{after}
use omnia_note.Shared.Enums.{AccountRole, is_owner}
use omnia_note.World.{Uuid, User, World, find_user, delete_user}
use omnia_note.Team.Queries.{owner_of, other_owner_of}
use omnia_note.Team.Members.{remove_member, update_member_role}

abbrev pub HasOwner : Uuid → List User → Type 0
HasOwner a users = 0 < count (owner_of a) users

abbrev by_id : Uuid → User → Bool
by_id id u = u.id == id

delete-HasOwner :
    (a t : Uuid) (users : List User) (u : User)
    → find_first (by_id t) users ≡ some u
    → (is_owner u.role ≡ false) ⊎ (0 < count (other_owner_of u.account_id t) users)
    → HasOwner a users
    → HasOwner a (delete_first (by_id t) users)
delete-HasOwner a t users u found rest has = ground (
  arith,
  find_first_holds (by_id t) users u found,
  count-delete_first (owner_of a) (by_id t) users u found,
  count-delete_first (other_owner_of u.account_id t) (by_id t) users u found,
  count_mono (other_owner_of u.account_id t) (owner_of u.account_id) (delete_first (by_id t) users)
      (λ x. ground arith),
)

update-HasOwner :
    (a t : Uuid) (role : AccountRole) (users : List User) (u : User)
    → find_first (by_id t) users ≡ some u
    → (is_owner u.role ≡ false)
      ⊎ (is_owner role ≡ true)
      ⊎ (0 < count (other_owner_of u.account_id t) users)
    → HasOwner a users
    → HasOwner a (update_first (by_id t) (λ u. record u { role = role }) users)
update-HasOwner a t role users u found rest has = ground (
  arith,
  find_first_holds (by_id t) users u found,
  count-update_first (owner_of a) (by_id t) (λ u. record u { role = role }) users u found,
  count-update_first (other_owner_of u.account_id t) (by_id t) (λ u. record u { role = role }) users
      u found,
  count_mono (other_owner_of u.account_id t) (owner_of u.account_id)
      (update_first (by_id t) (λ u. record u { role = role }) users) (λ x. ground arith),
)

pub remove_member-HasOwner :
    (a account_id caller_id target_id : Uuid) (w : World)
    → HasOwner a w.users
    → HasOwner a (after (remove_member account_id caller_id target_id) w).users
unfolding remove_member delete_user
remove_member-HasOwner a account_id caller_id target_id w has =
    elim (Option-cases (find_user target_id w)) [
      | inl missing ↦ ground arith
      | inr (u, found) ↦ ground (arith, delete-HasOwner a target_id w.users u found)
    ]

pub update_member_role-HasOwner :
    (a account_id caller_id target_id : Uuid) (role : AccountRole) (w : World)
    → HasOwner a w.users
    → HasOwner a (after (update_member_role account_id caller_id target_id role) w).users
unfolding update_member_role
update_member_role-HasOwner a account_id caller_id target_id role w has =
    elim (Option-cases (find_user target_id w)) [
      | inl missing ↦ ground arith
      | inr (u, found) ↦ ground (arith, update-HasOwner a target_id role w.users u found)
    ]
