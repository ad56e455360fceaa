-- ===== src/Team/Histories.antt =====
-- Sequences of the operations of apps/api/src/team/team.service.ts, and of the time between them.
use omnia_note.Prelude.{
  ℕ, ◌+◌, ◌≤◌, ◌≡◌, ◌≢◌, none, some, List, [], ◌∷◌, arith, ◌==◌, String, inl, inr, Option-cases,
  find_first, count_mono, count-insert, IsKeyed, IsKeyed-insert, IsKeyed-update, IsKeyed-delete,
  find_none_mono, find_first_holds, find_first-updated, find_first-update_first, count-update_first,
}
use omnia_note.Http.{after}
use omnia_note.Shared.Enums.{AccountRole}
use omnia_note.World.{
  Uuid, Token, Account, User, Invite, World, Draws, find_account, find_user, delete_user,
}
use omnia_note.Notifications.{send_team_invite}
use omnia_note.Auth.{Crypto, new_user, issue_tokens}
use omnia_note.Team.Queries.{in_account, owner_of, pending_in, pending_for}
use omnia_note.Team.Invitations.{
  seats, invite_row, same_invite, invite_teammate, accept_invite, revoke_invite,
}
use omnia_note.Team.Members.{remove_member, update_member_role, update_account_name}
use omnia_note.Team.Owners.{HasOwner, remove_member-HasOwner, update_member_role-HasOwner}
use omnia_note.Team.Capacity.{
  HasRoom, RoomOf-le, invite_teammate-HasRoom, accept_invite-HasRoom, revoke_invite-HasRoom,
  remove_member-HasRoom,
}

pub data Operation : Type 0 where
  invite : Draws → (account_id inviter_id : Uuid) → (email : String) → AccountRole → Operation
  accept : Draws → Token → (username password mobile_number : String) → Operation
  revoke : (account_id caller_id invite_id : Uuid) → Operation
  remove : (account_id caller_id target_id : Uuid) → Operation
  set_role : (account_id caller_id target_id : Uuid) → AccountRole → Operation
  rename : (account_id caller_id : Uuid) → (name : String) → Operation
  wait : (milliseconds : ℕ) → Operation

abbrev invite_id : Invite → Uuid
invite_id i = i.id

-- The room of an account depends on its tier and its seats.
set_role-HasRoom :
    (a account_id caller_id target_id : Uuid) (role : AccountRole) (w : World)
    → HasRoom a w
    → HasRoom a (after (update_member_role account_id caller_id target_id role) w)
unfolding update_member_role
set_role-HasRoom a account_id caller_id target_id role w h =
    elim (Option-cases (find_user target_id w)) [
      | inl missing ↦ ground arith
      | inr (u, e) ↦ ground (
        arith,
        count-update_first (in_account a) (λ (v : User). v.id == target_id)
            (λ (v : User). record v { role = role }) w.users u e,
      )
    ]

abbrev renamed : String → Account → Account
renamed name b = record b { name = some name }

rename-HasRoom :
    (a account_id caller_id : Uuid) (name : String) (w : World)
    → HasRoom a w
    → HasRoom a (after (update_account_name account_id caller_id name) w)
unfolding update_account_name
rename-HasRoom a account_id caller_id name w h = elim (Option-cases (find_account account_id w)) [
  | inl missing ↦ ground arith
  | inr (b, e) ↦ ground (
    arith,
    find_first_holds (λ (x : Account). x.id == account_id) w.accounts b e,
    find_first-updated (λ (x : Account). x.id == account_id) (renamed name) w.accounts b e,
    λ (ne : a ≢ account_id).
        find_first-update_first (λ (x : Account). x.id == a) (λ (x : Account). x.id == account_id)
          (renamed name) w.accounts (λ x. ground arith) (λ x. ground arith),
  )
]

module _ (c : Crypto) where
  pub run : Operation → World → World
  run (invite draws account_id inviter_id email role) =
      after (invite_teammate c draws account_id inviter_id email role)
  run (accept draws token username password mobile_number) =
      after (accept_invite c draws token username password mobile_number)
  run (revoke account_id caller_id id) = after (revoke_invite account_id caller_id id)
  run (remove account_id caller_id target_id) = after (remove_member account_id caller_id target_id)
  run (set_role account_id caller_id target_id role) =
      after (update_member_role account_id caller_id target_id role)
  run (rename account_id caller_id name) = after (update_account_name account_id caller_id name)
  run (wait n) = λ w. record w { clock = w.clock + n }

  pub run_all : List Operation → World → World
  run_all [] w = w
  run_all (o ∷ os) w = run_all os (run o w)

  -- No invite is accepted in the very millisecond of its expiry.
  abbrev pub InTime : Operation → World → Type 0
  InTime (accept draws token username password mobile_number) w =
      (i : Invite)
      → find_first (λ (j : Invite). j.token == token) w.invites ≡ some i
      → i.expires_at ≢ w.clock
  InTime _ w = Unit

  abbrev pub AllInTime : List Operation → World → Type 0
  AllInTime [] w = Unit
  AllInTime (o ∷ os) w = InTime o w × AllInTime os (run o w)

  run-IsKeyed :
      (o : Operation) (w : World)
      → IsKeyed invite_id w.invites
      → IsKeyed invite_id (run o w).invites
  unfolding run
  run-IsKeyed (invite draws account_id inviter_id email role) w h =
      elim (Option-cases (find_first (pending_for w.clock account_id email) w.invites)) [
        | inl missing ↦
            unfold invite_teammate send_team_invite in
            ground (
              arith,
              IsKeyed-insert invite_id
                  (invite_row draws account_id inviter_id email role w.clock none) w.invites,
              find_none_mono (same_invite draws none) (λ (j : Invite). j.id == draws.row_id)
                  w.invites (λ x. ground arith),
            )
        | inr (i, e) ↦
            unfold invite_teammate send_team_invite in
            ground (
              arith,
              IsKeyed-update invite_id (λ (j : Invite). j.id == i.id)
                  (λ (j : Invite).
                    invite_row draws account_id inviter_id email role w.clock (some i))
                  w.invites (λ x. ground arith),
            )
      ]
  run-IsKeyed (accept draws token username password mobile_number) w h =
      elim (Option-cases (find_first (λ (j : Invite). j.token == token) w.invites)) [
        | inl missing ↦ unfold accept_invite in ground arith
        | inr (i, e) ↦
            unfold accept_invite issue_tokens in
            ground (
              arith,
              IsKeyed-update invite_id (λ (j : Invite). j.id == i.id)
                  (λ (j : Invite). record j { accepted_at = some w.clock }) w.invites
                  (λ x. ground arith),
            )
      ]
  run-IsKeyed (revoke account_id caller_id id) w h =
      unfold revoke_invite in
      ground (arith, IsKeyed-delete invite_id (λ (j : Invite). j.id == id) w.invites h)
  run-IsKeyed (remove account_id caller_id target_id) w h =
      unfold remove_member delete_user in ground arith
  run-IsKeyed (set_role account_id caller_id target_id role) w h =
      unfold update_member_role in ground arith
  run-IsKeyed (rename account_id caller_id name) w h = unfold update_account_name in ground arith
  run-IsKeyed (wait n) w h = h

  run-HasOwner :
      (a : Uuid) (o : Operation) (w : World) → HasOwner a w.users → HasOwner a (run o w).users
  unfolding run
  run-HasOwner a (invite draws account_id inviter_id email role) w h =
      unfold invite_teammate send_team_invite in ground arith
  run-HasOwner a (accept draws token username password mobile_number) w h =
      elim (Option-cases (find_first (λ (j : Invite). j.token == token) w.invites)) [
        | inl missing ↦ unfold accept_invite in ground arith
        | inr (i, e) ↦
            unfold accept_invite issue_tokens in
            ground (
              arith,
              count-insert (owner_of a)
                  (new_user c draws i.account_id i.email username password mobile_number i.role
                    w.clock)
                  w.users,
            )
      ]
  run-HasOwner a (revoke account_id caller_id id) w h = unfold revoke_invite in ground arith
  run-HasOwner a (remove account_id caller_id target_id) w h =
      remove_member-HasOwner a account_id caller_id target_id w h
  run-HasOwner a (set_role account_id caller_id target_id role) w h =
      update_member_role-HasOwner a account_id caller_id target_id role w h
  run-HasOwner a (rename account_id caller_id name) w h = unfold update_account_name in ground arith
  run-HasOwner a (wait n) w h = h

  -- An account that has an owner has one after any sequence of team operations and waiting, refused
  -- operations included.
  pub run_all-HasOwner :
      (a : Uuid) (os : List Operation) (w : World)
      → HasOwner a w.users
      → HasOwner a (run_all os w).users
  unfolding run_all
  run_all-HasOwner a [] w h = h
  run_all-HasOwner a (o ∷ os) w h = run_all-HasOwner a os (run o w) (run-HasOwner a o w h)

  wait-seats : (a : Uuid) (n : ℕ) (w : World) → seats (run (wait n) w) a ≤ seats w a
  unfolding run
  wait-seats a n w = ground (
    arith,
    count_mono (pending_in (w.clock + n) a) (pending_in w.clock a) w.invites (λ x. ground arith),
  )

  run-HasRoom :
      (a : Uuid) (o : Operation) (w : World)
      → IsKeyed invite_id w.invites
      → InTime o w
      → HasRoom a w
      → HasRoom a (run o w)
  unfolding run
  run-HasRoom a (invite draws account_id inviter_id email role) w keyed t h =
      invite_teammate-HasRoom c draws a account_id inviter_id email role w keyed h
  run-HasRoom a (accept draws token username password mobile_number) w keyed t h =
      accept_invite-HasRoom c draws a token username password mobile_number w keyed t h
  run-HasRoom a (revoke account_id caller_id id) w keyed t h =
      revoke_invite-HasRoom a account_id caller_id id w h
  run-HasRoom a (remove account_id caller_id target_id) w keyed t h =
      remove_member-HasRoom a account_id caller_id target_id w h
  run-HasRoom a (set_role account_id caller_id target_id role) w keyed t h =
      set_role-HasRoom a account_id caller_id target_id role w h
  run-HasRoom a (rename account_id caller_id name) w keyed t h =
      rename-HasRoom a account_id caller_id name w h
  run-HasRoom a (wait n) w keyed t h =
      RoomOf-le (find_account a w) (seats (run (wait n) w) a) (seats w a) (wait-seats a n w) h

  -- If the ids of invites are unique, and the members and pending invites of an account are within the
  -- limit of its tier, they are within it after any sequence of operations, refused ones included, in
  -- which no invite is accepted in the very millisecond of its expiry.
  pub run_all-HasRoom :
      (a : Uuid) (os : List Operation) (w : World)
      → IsKeyed invite_id w.invites
      → AllInTime os w
      → HasRoom a w
      → HasRoom a (run_all os w)
  unfolding run_all
  run_all-HasRoom a [] w keyed t h = h
  run_all-HasRoom a (o ∷ os) w keyed (t, ts) h =
      run_all-HasRoom a os (run o w) (run-IsKeyed o w keyed) ts (run-HasRoom a o w keyed t h)
