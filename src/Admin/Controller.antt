-- ===== src/Admin/Controller.antt =====
-- apps/api/src/admin/admin.controller.ts: the requests, behind the guard for platform admins. The
-- limit of a page comes as the number that parseLimit gives.
use omnia_note.Prelude.{ℕ, String, Bool, Option}
use omnia_note.Http.{Exec, gets, ◌>>◌}
use omnia_note.World.{Uuid, World}
use omnia_note.Auth.{Caller, platform_admin_guard}
use omnia_note.Admin.Service.{
  Overview, ErrorPage, AccountPage, get_overview, list_errors, list_accounts,
}

pub data Request : Type 0 where
  get_overview_page : Request
  get_errors : (limit : ℕ) → (cursor : Option Uuid) → Request
  get_accounts : (limit : ℕ) → (cursor : Option Uuid) → (search : Option String) → Request

pub data Response : Type 0 where
  overview : Overview → Response
  errors : ErrorPage → Response
  accounts : AccountPage → Response

module _ (contains : String → String → Bool) where
  abbrev pub respond : Request → World → Response
  respond get_overview_page w = overview (get_overview w)
  respond (get_errors limit cursor) w = errors (list_errors limit cursor w)
  respond (get_accounts limit cursor search) w =
      accounts (list_accounts contains limit cursor search w)

  -- `none` is a request without a valid access token.
  unfoldable pub handle : Option Caller → Request → Exec World Response
  unfolding platform_admin_guard
  handle user r = do platform_admin_guard user; gets (respond r)
