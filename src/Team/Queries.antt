-- ===== src/Team/Queries.antt =====
-- The guards and the queries of apps/api/src/team/team.service.ts.
use omnia_note.Prelude.{
  ℕ, ◌*◌, String, Bool, true, false, not, ◌&&◌, Option, none, some, [], ◌∷◌, ◌==◌, ltb, str_eq,
  is_some, find_first, count, concat, if◌then◌else◌,
}
use omnia_note.Http.{
  Exec, bad_request, forbidden, not_found, pure, guard, gets, or_throw, ◌>>=◌, ◌>>◌,
}
use omnia_note.Shared.Enums.{AccountRole, owner, admin, member, is_owner}
use omnia_note.World.{Uuid, Token, Time, Account, User, Invite, World}

-- 7 days
abbrev pub invite_ttl_ms : ℕ
invite_ttl_ms = 7 * 24 * 60 * 60 * 1000

abbrev pub can_manage : AccountRole → Bool
can_manage owner = true
can_manage admin = true
can_manage member = false

unfoldable pub assert_can_manage_team : AccountRole → Exec World (Unit {0})
assert_can_manage_team role =
    guard (can_manage role) (forbidden "Only an owner or admin can manage the team")

abbrev pub in_account : Uuid → User → Bool
in_account account_id u = u.account_id == account_id

abbrev pub owner_of : Uuid → User → Bool
owner_of account_id u = u.account_id == account_id && is_owner u.role

abbrev pub other_owner_of : Uuid → Uuid → User → Bool
other_owner_of account_id user_id u = owner_of account_id u && not (u.id == user_id)

unfoldable pub assert_not_last_owner : Uuid → Uuid → Exec World (Unit {0})
assert_not_last_owner account_id excluding w =
    guard (not (count (other_owner_of account_id excluding) w.users == 0))
      (bad_request "An account must always have at least one owner") w

-- `acceptedAt: null, expiresAt: { gt: new Date() }`
abbrev pub is_pending : Time → Invite → Bool
is_pending now i = not (is_some i.accepted_at) && ltb now i.expires_at

abbrev pub pending_in : Time → Uuid → Invite → Bool
pending_in now account_id i = i.account_id == account_id && is_pending now i

abbrev pub pending_for : Time → Uuid → String → Invite → Bool
pending_for now account_id email i = pending_in now account_id i && str_eq i.email email

-- The invite whose row may still be accepted: `acceptedAt` is null and `expiresAt < new Date()` fails.
unfoldable pub get_live_invite : Token → Exec World Invite
get_live_invite token = do
  w ← gets (λ s. s)
  invite ←
      or_throw (not_found "Invite not found or already used")
        (find_first (λ i. i.token == token) w.invites)
  guard (not (is_some invite.accepted_at)) (not_found "Invite not found or already used")
  guard (not (ltb invite.expires_at w.clock)) (not_found "This invite has expired")
  pure invite

abbrev team_of : Option User → String
team_of none = "your team"
team_of (some u) = concat (u.username ∷ "'s team" ∷ [])

-- An empty name counts as none. Rows stand in the order of their creation.
unfoldable pub account_display_name : Account → World → String
account_display_name account w = elim account.name [
  | none ↦ team_of (find_first (owner_of account.id) w.users)
  | some name ↦ if str_eq name "" then team_of (find_first (owner_of account.id) w.users) else name
]
