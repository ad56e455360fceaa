-- ===== src/Team/Capacity.antt =====
-- The seats of an account, members and pending invites, under the operations of
-- apps/api/src/team/team.service.ts.
use omnia_note.Prelude.{
  ℕ, ◌+◌, ◌≤◌, ◌≡◌, ◌≢◌, true, Option, none, some, arith, ◌==◌, String, inl, inr, Option-cases,
  find_first, find_first_holds, count-insert, count-update_first, count-delete_first, IsKeyed,
  find_by_key,
}
use omnia_note.Http.{state, after}
use omnia_note.Shared.Enums.{AccountRole}
use omnia_note.Shared.Tiers.{AccountTier, tier_limits, is_within_team_member_limit}
use omnia_note.World.{
  Uuid, Token, Account, User, Invite, World, Draws, find_account, find_user, delete_user,
}
use omnia_note.Notifications.{send_email, send_team_invite}
use omnia_note.Auth.{Crypto, new_user, issue_tokens}
use omnia_note.Team.Queries.{in_account, pending_in, pending_for}
use omnia_note.Team.Invitations.{seats, invite_row, invite_teammate, accept_invite, revoke_invite}
use omnia_note.Team.Members.{remove_member}

abbrev pub Within : Option ℕ → ℕ → Type 0
Within none n = Unit
Within (some limit) n = n ≤ limit

Within-le : (limit : Option ℕ) (m n : ℕ) → m ≤ n → Within limit n → Within limit m
Within-le none m n h k = tt
Within-le (some limit) m n h k = omega arith

abbrev pub RoomOf : Option Account → ℕ → Type 0
RoomOf none n = Unit
RoomOf (some acc) n = Within (tier_limits acc.tier).max_team_members n

-- The account with this id, if there is one, has no more seats taken than its tier allows.
abbrev pub HasRoom : Uuid → World → Type 0
HasRoom a w = RoomOf (find_account a w) (seats w a)

pub RoomOf-le : (o : Option Account) (m n : ℕ) → m ≤ n → RoomOf o n → RoomOf o m
RoomOf-le none m n h k = tt
RoomOf-le (some acc) m n h k = Within-le (tier_limits acc.tier).max_team_members m n h k

pub users-send_team_invite :
    (to account inviter url : String) (w : World)
    → state (send_team_invite to account inviter url w)
      ≡ record w { mails = (state (send_team_invite to account inviter url w)).mails }
unfolding send_team_invite send_email
users-send_team_invite to account inviter url w = ground arith

pub revoke_invite-HasRoom :
    (a account_id caller_id invite_id : Uuid) (w : World)
    → HasRoom a w
    → HasRoom a (after (revoke_invite account_id caller_id invite_id) w)
unfolding revoke_invite
revoke_invite-HasRoom a account_id caller_id invite_id w h =
    elim (Option-cases (find_first (λ (i : Invite). i.id == invite_id) w.invites)) [
      | inl missing ↦ ground arith
      | inr (i, e) ↦ ground (
        arith,
        count-delete_first (pending_in w.clock a) (λ (j : Invite). j.id == invite_id) w.invites i e,
      )
    ]

pub remove_member-HasRoom :
    (a account_id caller_id target_id : Uuid) (w : World)
    → HasRoom a w
    → HasRoom a (after (remove_member account_id caller_id target_id) w)
unfolding remove_member delete_user
remove_member-HasRoom a account_id caller_id target_id w h =
    elim (Option-cases (find_user target_id w)) [
      | inl missing ↦ ground arith
      | inr (u, e) ↦
          ground
            (arith, count-delete_first (in_account a) (λ (v : User). v.id == target_id) w.users u e)
    ]

-- One more seat.
below-Within :
    (tier : AccountTier) (n : ℕ)
    → is_within_team_member_limit tier n ≡ true
    → Within (tier_limits tier).max_team_members (n + 1)
unfolding is_within_team_member_limit tier_limits
below-Within tier n h = ground arith

module _ (c : Crypto) (draws : Draws) where
  pub invite_teammate-HasRoom :
      (a account_id inviter_id : Uuid) (email : String) (role : AccountRole) (w : World)
      → IsKeyed (λ (i : Invite). i.id) w.invites
      → HasRoom a w
      → HasRoom a (after (invite_teammate c draws account_id inviter_id email role) w)
  unfolding invite_teammate send_team_invite
  invite_teammate-HasRoom a account_id inviter_id email role w keyed h =
      elim (Option-cases (find_first (pending_for w.clock account_id email) w.invites)) [
        | inl missing ↦ elim (Option-cases (find_account account_id w)) [
          | inl absent ↦ ground arith
          | inr (b, e) ↦ ground (
            arith,
            below-Within b.tier (seats w account_id),
            count-insert (pending_in w.clock a)
                (invite_row draws account_id inviter_id email role w.clock none) w.invites,
          )
        ]
        | inr (i, e) ↦ ground (
          arith,
          find_by_key (λ (i : Invite). i.id) (pending_for w.clock account_id email) w.invites i
              keyed e,
          find_first_holds (pending_for w.clock account_id email) w.invites i e,
          count-update_first (pending_in w.clock a) (λ (j : Invite). j.id == i.id)
              (λ (j : Invite). invite_row draws account_id inviter_id email role w.clock (some i))
              w.invites i,
        )
      ]

  -- An invite that expires at this very millisecond may be accepted, and is not counted as pending.
  pub accept_invite-HasRoom :
      (a : Uuid) (token : Token) (username password mobile_number : String) (w : World)
      → IsKeyed (λ (i : Invite). i.id) w.invites
      → ((i : Invite)
          → find_first (λ (j : Invite). j.token == token) w.invites ≡ some i
          → i.expires_at ≢ w.clock)
      → HasRoom a w
      → HasRoom a (after (accept_invite c draws token username password mobile_number) w)
  unfolding accept_invite issue_tokens
  accept_invite-HasRoom a token username password mobile_number w keyed in_time h =
      elim (Option-cases (find_first (λ (j : Invite). j.token == token) w.invites)) [
        | inl missing ↦ ground arith
        | inr (i, e) ↦ ground (
          arith,
          in_time i e,
          find_by_key (λ (i : Invite). i.id) (λ (j : Invite). j.token == token) w.invites i keyed e,
          count-insert (in_account a)
              (new_user c draws i.account_id i.email username password mobile_number i.role w.clock)
              w.users,
          count-update_first (pending_in w.clock a) (λ (j : Invite). j.id == i.id)
              (λ (j : Invite). record j { accepted_at = some w.clock }) w.invites i,
        )
      ]
