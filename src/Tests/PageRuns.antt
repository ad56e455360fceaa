-- ===== src/Tests/PageRuns.antt =====
-- The pages of apps/mobile/src and the operator's pages of apps/api on small inputs.
use omnia_note.Prelude.{
  ℕ, ◌≡◌, refl, Bool, true, false, not, some, none, List, [], ◌∷◌, ◌++◌, arith, ◌==◌, if◌then◌else◌,
  find_first, select, trim, trim_start, trim_end, includes, unique_from, split_commas, join,
}
use omnia_note.Http.{answer}
use omnia_note.Shared.Enums.{StampType, AccountRole, owner}
use omnia_note.World.{ErrorLog, World}
use omnia_note.Auth.Controller.{Profile}
use omnia_note.Team.{remove_member, update_member_role}
use omnia_note.Locations
use omnia_note.Admin.{length}
use omnia_note.Admin.Paging.{follow_errors, follow_errors_all}
use omnia_note.Items.{keep, put}
use omnia_note.Notifications.{escape_html}
use omnia_note.Notifications.Escaping.{escape_each, IsInert, escape_html_lem}
use omnia_note.Mobile.TagsField.{parse_tags, toggle_tag_chip}
use omnia_note.Mobile.TagsField.RoundTrip.{parse_tags-join}
use omnia_note.Mobile.TagsField.Toggle.{toggle_tag_chip_lem}
use omnia_note.Mobile.Offers.{
  can_remove, can_change_role, at_location_limit, at_folder_limit, at_spot_limit,
}
use omnia_note.Mobile.Offers.Agreement.{succeeds, AreTeam, member_row_agrees, add_box_agrees}
use omnia_note.Mobile.ItemPage.{
  Page, System, Reach, here, next, picks_spot, files_spot, on_page, assign_spot, spot_saved,
  with_spot,
}
use omnia_note.Mobile.ItemPage.Agreement.{IsLoaded, ShowsStored, rests_on_stored, spot_shown_again}
use omnia_note.Mobile.NotePage.{Form, Run, PhotoRun, save, stays, attach_photos}
use omnia_note.Mobile.NotePage.Saving.{count_notes, save_again_creates}
use omnia_note.Mobile.Dictation.{Dictation, Report, results, trouble, dictate}
use omnia_note.Mobile.Dictation.Hearing.{dictate_lem}
use omnia_note.Mobile.Dictation.Words.{words}
use omnia_note.Tests.Fixtures.{first_draws, today, ann, bob, plumber, house, cellar_shot}

escape_html_lem_example :
    (escape_html "<a href='x'>&" ≡ escape_each "<a href='x'>&")
    × IsInert (escape_html "<a href='x'>&")
escape_html_lem_example = escape_html_lem "<a href='x'>&"

parse_tags-join_example : parse_tags "roof, red tiles" ≡ "roof" ∷ "red tiles" ∷ []
unfolding trim trim_start trim_end includes join
parse_tags-join_example =
    parse_tags-join ("roof" ∷ "red tiles" ∷ []) ((refl, refl, refl), ((refl, refl, refl), tt))
      (refl, (refl, tt))

toggle_tag_chip_lem_example :
    includes (parse_tags (toggle_tag_chip "roof" "roof, tiles,")) "roof" ≡ false
unfolding trim trim_start trim_end includes parse_tags unique_from split_commas select
toggle_tag_chip_lem_example = toggle_tag_chip_lem "roof" "roof, tiles," "roof" (refl, refl, refl)

abbrev anns_profile : Profile
anns_profile = record {
  id = 10;
  email = "ann@a.b";
  username = "ann";
  mobile_number = "+1";
  role = owner;
  mfa_enabled = true;
  mfa_preferred = none;
}

anns_team : AreTeam 1 anns_profile bob today
unfolding find_first
anns_team = record {
  caller = ann;
  called = refl;
  role = refl;
  caller_account = refl;
  found = refl;
  row_account = refl;
}

member_row_agrees_example :
    (succeeds (answer (remove_member 1 10 11) today) ≡ can_remove anns_profile bob)
    × ((role : AccountRole)
        → can_change_role anns_profile bob ≡ true
        → succeeds (answer (update_member_role 1 10 11 role) today) ≡ true)
member_row_agrees_example = member_row_agrees 1 anns_profile bob today anns_team

add_box_agrees_example :
    (succeeds (answer (Locations.create first_draws 1 "Barn" none) today)
      ≡ not (
          at_location_limit
            (some plumber.tier)
            (select (Locations.locations_of 1) today.locations)))
    × (succeeds (answer (Locations.create_folder first_draws 1 "Barn" 40 none) today)
        ≡ not
            (at_folder_limit (some plumber.tier) (select (Locations.folders_at 40) today.folders)))
    × (succeeds (answer (Locations.create_spot first_draws 1 "Barn" 40) today)
        ≡ not (at_spot_limit (some plumber.tier) (select (Locations.spots_at 40) today.spots)))
unfolding find_first
add_box_agrees_example =
    add_box_agrees first_draws 1 today plumber refl 40 house refl refl "Barn" refl refl refl

abbrev first_page : Page
first_page = record {
  item = record { row = record cellar_shot { location_id = some 40 }; tags = [] };
  error = none;
  tags_text = "leak";
  saving_spot = none;
  saving_folder = none;
  saving_stamps = none;
  saving_tags = none;
}

abbrev loaded : System
loaded = record { page = first_page; stored = first_page.item }

abbrev no_stamp : StampType → StampType → Bool
no_stamp a b = false

abbrev spot_picked : System
spot_picked = on_page (assign_spot (some 44)) loaded

abbrev spot_filed : System
spot_filed = record loaded {
  page = with_spot (some 44) first_page;
  stored = (with_spot (some 44) first_page).item;
}

spot_filed-Reach : Reach no_stamp loaded spot_filed
unfolding assign_spot spot_saved
spot_filed-Reach = next (next here (picks_spot loaded (some 44))) (
    files_spot spot_picked
      (record {
        previous = none;
        request = record { location_id = 40; folder_id = keep; spot_id = put 44 };
      })
      refl)

loaded-IsLoaded : IsLoaded no_stamp loaded
loaded-IsLoaded = record {
  same = refl;
  no_spot = refl;
  no_folder = refl;
  no_stamps = refl;
  no_tags = refl;
}

rests_on_stored_example : ShowsStored no_stamp spot_filed
unfolding spot_filed-Reach
rests_on_stored_example =
    rests_on_stored no_stamp spot_filed-Reach loaded-IsLoaded ((tt, refl), tt) refl refl refl

spot_shown_again_example :
    (t : System) × Reach no_stamp loaded t
    × (t.page.saving_spot ≡ none)
    × (t.page.saving_folder ≡ none)
    × (t.page.saving_stamps ≡ none)
    × (t.page.saving_tags ≡ none)
    × (t.stored.row.spot_id ≡ some 44)
    × (t.stored.tags ≡ parse_tags "leak")
    × (t.page.item.row.spot_id ≡ none)
spot_shown_again_example = spot_shown_again no_stamp loaded 40 (some 44) loaded-IsLoaded refl

abbrev form : Form
form = record {
  title = "Roof ";
  body = "";
  tags_text = "";
  location_id = "";
  folder_id = "";
  spot_id = "";
  photos = record { size = 10; content = 3 } ∷ [];
}

abbrev taken : PhotoRun
taken = record {
  id = 71;
  create_error = none;
  gives_upload_url = true;
  upload_error = none;
  confirm_error = none;
  sends_thumbnail = false;
  attach_error = none;
}

abbrev smooth : Run
smooth = record { online = true; note_id = 70; note_error = none; photo = λ i. taken }

abbrev broken : Run
broken = record smooth {
  photo = λ i. record taken { upload_error = some (some "Failed to fetch") };
}

-- The first photo is attached, and the upload of the second fails.
abbrev half : Run
half = record smooth { photo = λ i. if i == 0 then taken else broken.photo i }

abbrev two_photos : Form
two_photos = record form { photos = record { size = 4; content = 8 } ∷ form.photos }

save_again_creates_example :
    ((save form broken).1 ≡ stays "Failed to fetch")
    × (count_notes ((save form broken).0 ++ (save form smooth).0) ≡ 2)
unfolding trim trim_start trim_end attach_photos
save_again_creates_example =
    save_again_creates form broken smooth (some "Failed to fetch") refl refl refl refl refl refl

abbrev silent : Dictation
silent = record { listening = false; interim_text = ""; error = none; body = "Roof" }

abbrev speech : List Report
speech =
    results (record { is_final = false; transcript = "ti" } ∷ [])
    ∷ results (
        record { is_final = true; transcript = " new tiles" }
        ∷ record { is_final = false; transcript = "are" }
        ∷ [])
    ∷ trouble "network"
    ∷ []

dictate_lem_example :
    (words (dictate speech silent).body ≡ "Roof" ∷ "new" ∷ "tiles" ∷ "are" ∷ [])
    × ((dictate speech silent).listening ≡ false)
    × ((dictate speech silent).interim_text ≡ "")
unfolding words
dictate_lem_example = dictate_lem speech silent

abbrev fault : ℕ → ErrorLog
fault n = record {
  id = n;
  message = "m";
  stack = none;
  path = "/";
  method = "GET";
  status_code = 500;
  user_id = none;
  account_id = none;
  created_at = n;
}

abbrev bad_day : World
bad_day = record today { error_logs = fault 1 ∷ fault 2 ∷ fault 3 ∷ [] }

follow_errors_all_example : follow_errors 4 2 none bad_day ≡ some (fault 3 ∷ fault 2 ∷ fault 1 ∷ [])
unfolding find_first length
follow_errors_all_example = follow_errors_all 4 1 bad_day (refl, (refl, (refl, tt))) (ground arith)
