-- ===== src/Tests/InboxRuns.antt =====
-- apps/mobile/src/pages/InboxPage.tsx: an item is filed into a folder.
use omnia_note.Prelude.{some, [], ◌∷◌}
use omnia_note.Mobile.Inbox.{Contents, System, on_page, pick_location, pick_folder, contents_loaded}
use omnia_note.Mobile.Inbox.Filing.{opened}
use omnia_note.Tests.Fixtures.{today, house, attic}

abbrev at_house : Contents
at_house = record { folders = attic ∷ []; spots = [] }

abbrev listed : System
listed = on_page (λ p. record p { locations = house ∷ [] }) (opened today)

abbrev picked : System
picked = on_page (contents_loaded 40 at_house) (on_page (pick_location 50 40) listed)

abbrev drafted : System
drafted = on_page (pick_folder 50 (some 41)) picked
