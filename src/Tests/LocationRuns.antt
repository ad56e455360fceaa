-- ===== src/Tests/LocationRuns.antt =====
-- apps/api/src/locations on the small state.
use omnia_note.Http.{answer, Answered}
use omnia_note.Locations.Controller.{get_folders, handle}
use omnia_note.Locations.Ownership.{OwnPlaces, handle-OwnPlaces}
use omnia_note.Tests.Fixtures.{first_draws, today, caller}

handle-OwnPlaces_example :
    Answered
      (OwnPlaces 1 today)
      (answer (handle (λ ss. ss) first_draws caller (get_folders 40)) today)
handle-OwnPlaces_example =
    handle-OwnPlaces (λ ss. ss) first_draws caller (get_folders 40) today (λ P ss h. h)
