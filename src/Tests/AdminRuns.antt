-- ===== src/Tests/AdminRuns.antt =====
-- apps/api/src/admin and apps/api/src/common on the small state.
use omnia_note.Prelude.{String, Bool, ◌≤◌, ◌≡◌, refl, true, false, some, none, [], ◌∷◌, find_first}
use omnia_note.Http.{after, Exception}
use omnia_note.World.{World, User, find_user}
use omnia_note.Auth.{Caller, platform_admin_guard}
use omnia_note.Admin.{length, get_overview}
use omnia_note.Admin.Controller.{get_overview_page, overview, handle, respond}
use omnia_note.Admin.Access.{handle_ok}
use omnia_note.Admin.Counts.{get_overview_counts}
use omnia_note.Common.{HttpRequest}
use omnia_note.Tests.Fixtures.{today, caller, ann}

abbrev operators : World
operators = record today { users = record ann { is_platform_admin = true } ∷ [] }

abbrev never : String → String → Bool
never name search = false

handle_ok_example :
    ((by : Caller) × (u : User) × (some caller ≡ some by)
      × (find_user by.sub operators ≡ some u)
      × (u.is_platform_admin ≡ true))
    × (overview (get_overview operators) ≡ respond never get_overview_page operators)
    × (after (handle never (some caller) get_overview_page) operators ≡ operators)
unfolding handle platform_admin_guard find_first
handle_ok_example =
    handle_ok never (some caller) get_overview_page operators (overview (get_overview operators))
      refl

get_overview_counts_example :
    ((get_overview today).total_accounts ≡ length today.accounts)
    × ((get_overview today).online_now ≤ (get_overview today).active_last_24h)
    × ((get_overview today).active_last_24h ≤ (get_overview today).active_last_7d)
    × ((get_overview today).active_last_7d ≤ (get_overview today).total_users)
get_overview_counts_example = get_overview_counts today

abbrev lost : HttpRequest
lost = record {
  method = "GET";
  path = "/api/v1/items/9";
  user = some caller;
  country_header = none;
}

abbrev silent : Exception → String
silent e = ""
