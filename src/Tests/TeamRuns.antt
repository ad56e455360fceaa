-- ===== src/Tests/TeamRuns.antt =====
-- apps/api/src/team on the small state.
use omnia_note.Prelude.{◌≡◌, refl, List, [], ◌∷◌, arith, count, find_first}
use omnia_note.Http.{after}
use omnia_note.Shared.Enums.{owner, member}
use omnia_note.Shared.Tiers.{tier_limits}
use omnia_note.Team.Capacity.{HasRoom}
use omnia_note.Team.Histories.{
  Operation, invite, accept, remove, set_role, wait, run_all, run_all-HasRoom,
}
use omnia_note.Team.Controller.{delete_member, handle}
use omnia_note.Team.Boundary.{foreign_users, foreign_users-handle}
use omnia_note.Tests.Fixtures.{toy_crypto, first_draws, second_draws, today, caller}

-- An acceptance, an invite, a removal that is refused, and a second owner.
abbrev story : List Operation
story =
    accept first_draws 77 "dee" "pw" "+2"
    ∷ invite second_draws 1 10 "eve@a.b" member
    ∷ remove 1 11 10
    ∷ wait 60
    ∷ set_role 1 10 11 owner
    ∷ []

run_all-HasRoom_example : HasRoom 1 (run_all toy_crypto story today)
unfolding find_first count tier_limits
run_all-HasRoom_example =
    run_all-HasRoom toy_crypto 1 story today (refl, tt)
      ((λ i e. ground arith), (tt, (tt, (tt, (tt, tt))))) (ground arith)

foreign_users-handle_example :
    foreign_users 1 (after (handle toy_crypto first_draws caller (delete_member 12)) today)
    ≡ foreign_users 1 today
foreign_users-handle_example =
    foreign_users-handle toy_crypto first_draws caller (delete_member 12) today
