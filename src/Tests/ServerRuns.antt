-- ===== src/Tests/ServerRuns.antt =====
-- Requests to apps/api/src from their arrival to their answer, on the small state.
use omnia_note.Prelude.{◌≡◌, true, false, none, some, List, [], ◌∷◌, arith, count, find_first, All}
use omnia_note.Shared.Tiers.{tier_limits}
use omnia_note.World.{Draws}
use omnia_note.Auth.{Caller}
use omnia_note.Auth.Controller.{post_register}
use omnia_note.Team.Controller.{delete_member}
use omnia_note.Items.Controller.{patch_favorite}
use omnia_note.Server.{
  Call, auth_call, team_call, item_call, location_call, Libraries, Event, arrives, waits, services,
  run_events,
}
use omnia_note.Server.Invariants.{IsSound, run_events-IsSound}
use omnia_note.Server.Room.{HasPlaceRoom}
use omnia_note.Server.Limits.{run_events-HasPlaceRoom}
use omnia_note.Locations.Controller.{post_location, post_folder}
use omnia_note.Server.Isolation.{items_of, IsByOthers, items_of-run_events}
use omnia_note.Tests.Fixtures.{toy_crypto, first_draws, second_draws, today, caller}

abbrev libraries : Libraries
libraries = record {
  crypto = toy_crypto;
  engine = λ w account q location. [];
  by_name = λ spots. spots;
  contains = λ text part. false;
  message = λ e. "Invalid invocation";
}

abbrev request : Draws → Call → Event libraries
request draws call = arrives (record {
  call = call;
  draws = draws;
  method = "POST";
  path = "/api/v1";
  country_header = some "IE";
  log_id = 900;
  stack = none;
})

abbrev neighbours_caller : Caller
neighbours_caller = record { sub = 12; account_id = 2 }

-- An account is opened, a member leaves, and the item of one account is asked for by another.
abbrev day : List (Event libraries)
day =
    request first_draws (auth_call (post_register "flo@a.b" "flo" "pw" "+3" none))
    ∷ request second_draws (team_call caller (delete_member 11))
    ∷ services false true
    ∷ waits 500
    ∷ request second_draws (item_call neighbours_caller (patch_favorite 50))
    ∷ []

run_events-IsSound_example : IsSound 1 (run_events libraries day today)
unfolding count find_first tier_limits
run_events-IsSound_example = run_events-IsSound 1 libraries day today (ground arith, ground arith)

abbrev neighbours_day : List (Event libraries)
neighbours_day =
    request first_draws (auth_call (post_register "flo@a.b" "flo" "pw" "+3" none))
    ∷ request second_draws (item_call neighbours_caller (patch_favorite 50))
    ∷ request second_draws (item_call neighbours_caller (patch_favorite 51))
    ∷ []

by_others : All (IsByOthers 1 libraries) neighbours_day
by_others =
    (λ user e. absurd (ground arith), ((λ user e. ground arith), ((λ user e. ground arith), tt)))

items_of-run_events_example :
    items_of 1 (run_events libraries neighbours_day today) ≡ items_of 1 today
items_of-run_events_example = items_of-run_events 1 libraries neighbours_day today by_others

-- A location and a folder are created, and a second folder is refused to a stranger.
abbrev moving_day : List (Event libraries)
moving_day =
    request first_draws (location_call caller (post_location "Barn" none))
    ∷ request second_draws (location_call caller (post_folder "Loft" 40 none))
    ∷ request second_draws (location_call neighbours_caller (post_folder "Loft" 40 none))
    ∷ day

run_events-HasPlaceRoom_example : HasPlaceRoom 1 40 (run_events libraries moving_day today)
unfolding count find_first tier_limits
run_events-HasPlaceRoom_example =
    run_events-HasPlaceRoom 1 40 libraries moving_day today (ground arith, ground arith)
