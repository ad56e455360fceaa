-- ===== src/Server.antt =====
-- Requests to apps/api/src from their arrival to their answer: the activity interceptor, the handler of
-- a controller, and the error filter, as app.module.ts and main.ts put them together.
pub mod Frames
pub mod Stability
pub mod Members
pub mod Contents
pub mod Pipeline
pub mod Invariants
pub mod Room
pub mod Limits
pub mod Isolation
use omnia_note.Prelude.{ℕ, ◌+◌, String, Bool, Option, none, some, List, [], ◌∷◌}
use omnia_note.Http.{
  Exception, Outcome, returned, thrown, Exec, after, pure, gets, modify, ◌>>=◌, ◌>>◌,
}
use omnia_note.World.{Uuid, Spot, World, Draws}
use omnia_note.Auth.{Crypto, Caller, platform_admin_guard}
use omnia_note.Auth.Controller as AuthApi
use omnia_note.Team.Controller as TeamApi
use omnia_note.Locations.Controller as LocationApi
use omnia_note.Items.Controller as ItemApi
use omnia_note.Search.{Engine}
use omnia_note.Admin.Controller as AdminApi
use omnia_note.Common.{HttpRequest, touch, log_error}

-- A request that passed the check of its access token, by controller.
pub data Call : Type 0 where
  auth_call : AuthApi.Request → Call
  team_call : Caller → TeamApi.Request → Call
  public_team_call : TeamApi.PublicRequest → Call
  location_call : Caller → LocationApi.Request → Call
  item_call : Caller → ItemApi.Request → Call
  admin_call : Option Caller → AdminApi.Request → Call

pub data Answer : Type 0 where
  auth_answer : AuthApi.Response → Answer
  team_answer : TeamApi.Response → Answer
  location_answer : LocationApi.Response → Answer
  item_answer : ItemApi.Response → Answer
  admin_answer : AdminApi.Response → Answer

abbrev auth_caller : AuthApi.Request → Option Caller
auth_caller (AuthApi.get_me user) = some user
auth_caller (AuthApi.post_totp user) = some user
auth_caller (AuthApi.post_email user) = some user
auth_caller (AuthApi.post_totp_verify user code) = some user
auth_caller (AuthApi.post_email_verify user code) = some user
auth_caller _ = none

abbrev pub caller_of : Call → Option Caller
caller_of (auth_call r) = auth_caller r
caller_of (team_call user r) = some user
caller_of (public_team_call r) = none
caller_of (location_call user r) = some user
caller_of (item_call user r) = some user
caller_of (admin_call user r) = user

-- A call with its route and headers, what it draws at random, and what the error filter adds.
pub record Arrival : Type 0 where
  pub call : Call
  pub draws : Draws
  pub method : String
  pub path : String
  pub country_header : Option String
  pub log_id : Uuid
  pub stack : Option String

abbrev pub http_request : Arrival → HttpRequest
http_request a = record {
  method = a.method;
  path = a.path;
  user = caller_of a.call;
  country_header = a.country_header;
}

-- What the server uses of its libraries and services.
pub record Libraries : Type 0 where
  pub crypto : Crypto
  pub engine : Engine
  pub by_name : List Spot → List Spot
  pub contains : String → String → Bool
  pub message : Exception → String

module _ (lib : Libraries) where
  abbrev pub touched : Arrival → Exec World (Unit {0})
  touched a = modify (touch (http_request a))

  -- The guard of the admin pages runs before the interceptor.
  abbrev pub dispatch : Arrival → Call → Exec World Answer
  dispatch a (auth_call r) = do
    touched a
    x ← AuthApi.handle lib.crypto a.draws r
    pure (auth_answer x)
  dispatch a (team_call user r) = do
    touched a
    x ← TeamApi.handle lib.crypto a.draws user r
    pure (team_answer x)
  dispatch a (public_team_call r) = do
    touched a
    x ← TeamApi.handle_public lib.crypto a.draws r
    pure (team_answer x)
  dispatch a (location_call user r) = do
    touched a
    x ← LocationApi.handle lib.by_name a.draws user r
    pure (location_answer x)
  dispatch a (item_call user r) = do
    touched a
    x ← ItemApi.handle lib.engine a.draws user r
    pure (item_answer x)
  dispatch a (admin_call user r) = do
    platform_admin_guard user
    touched a
    x ← gets (AdminApi.respond lib.contains r)
    pure (admin_answer x)

  abbrev pub filtered : Arrival → Outcome World Answer → Outcome World Answer
  filtered a (returned x w) = returned x w
  filtered a (thrown e w) = thrown e (log_error a.log_id lib.message a.stack (http_request a) e w)

  unfoldable pub serve : Arrival → Exec World Answer
  unfolding touch log_error platform_admin_guard
  serve a w = filtered a (dispatch a a.call w)

  -- What happens to the server, one after the other: requests, time that passes, and services that go
  -- down or come back.
  pub data Event : Type 0 where
    arrives : Arrival → Event
    waits : (milliseconds : ℕ) → Event
    services : (meili_succeeds resend_succeeds : Bool) → Event

  unfoldable pub happen : Event → World → World
  unfolding serve
  happen (arrives a) w = after (serve a) w
  happen (waits n) w = record w { clock = w.clock + n }
  happen (services meili resend) w = record w { meili_succeeds = meili; resend_succeeds = resend }

  unfoldable pub run_events : List Event → World → World
  unfolding happen
  run_events [] w = w
  run_events (e ∷ es) w = run_events es (happen e w)
