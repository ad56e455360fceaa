-- ===== src/Common.antt =====
-- apps/api/src/common: what every request passes.
use omnia_note.Prelude.{
  ℕ, zero, suc, String, Bool, true, false, not, ◌&&◌, Option, none, some, List, [], ◌∷◌, ◌==◌, leb,
  codes, insert, update_first, if◌then◌else◌,
}
use omnia_note.Http.{
  Exception, bad_request, unauthorized, forbidden, not_found, conflict, record_not_found,
  unique_violation, foreign_key_violation, internal_error, Result, ok, err,
}
use omnia_note.World.{Uuid, User, ErrorLog, World}
use omnia_note.Auth.{Caller}
pub mod Logging

-- `exception instanceof HttpException ? exception.getStatus() : 500`
abbrev pub status_of : Exception → ℕ
status_of (bad_request m) = 400
status_of (unauthorized m) = 401
status_of (forbidden m) = 403
status_of (not_found m) = 404
status_of (conflict m) = 409
status_of _ = 500

-- The messages of errors that Prisma throws are Prisma's, a parameter.
abbrev pub message_of : (Exception → String) → Exception → String
message_of library (bad_request m) = m
message_of library (unauthorized m) = m
message_of library (forbidden m) = m
message_of library (not_found m) = m
message_of library (conflict m) = m
message_of library (internal_error m) = m
message_of library e = library e

-- What the filter and the interceptor read of a request.
pub record HttpRequest : Type 0 where
  pub method : String
  pub path : String
  pub user : Option Caller
  pub country_header : Option String

-- `s.slice(0, n)`, in characters
unfoldable pub slice : ℕ → String → String
slice zero s = ""
slice (suc n) String.[] = ""
slice (suc n) (String.◌∷◌ ch s) = String.◌∷◌ ch (slice n s)

abbrev pub user_id_of : Option Caller → Option Uuid
user_id_of none = none
user_id_of (some c) = some c.sub

abbrev pub account_id_of : Option Caller → Option Uuid
account_id_of none = none
account_id_of (some c) = some c.account_id

abbrev pub sliced : ℕ → Option String → Option String
sliced n none = none
sliced n (some s) = some (slice n s)

unfoldable pub error_row :
    Uuid → (Exception → String) → Option String → HttpRequest → Exception → World → ErrorLog
unfolding slice
error_row id library stack request e w = record {
  id = id;
  message = slice 2000 (message_of library e);
  stack = sliced 8000 stack;
  path = request.path;
  method = request.method;
  status_code = status_of e;
  user_id = user_id_of request.user;
  account_id = account_id_of request.user;
  created_at = w.clock;
}

-- `catch` of error-logging.filter.ts, the row written at once; the answer is Nest's. Serving the web app
-- for an unknown path is not modelled.
unfoldable pub log_error :
    Uuid → (Exception → String) → Option String → HttpRequest → Exception → World → World
unfolding error_row
log_error id library stack request e w =
    if leb 500 (status_of e)
    then record w { error_logs = insert (error_row id library stack request e w) w.error_logs }
    else w

-- `typeof header === "string" && header.length === 2 ? header : undefined`
abbrev pub is_pair : List ℕ → Bool
is_pair (a ∷ b ∷ []) = true
is_pair _ = false

abbrev pub country_of : Option String → Option String
country_of none = none
country_of (some h) = if is_pair (codes h) then some h else none

abbrev pub with_country : Option String → User → User
with_country none u = u
with_country (some c) u = record u { last_known_country = some c }

-- `intercept` of activity.interceptor.ts; a user who is gone is not updated, and the failure is ignored.
unfoldable pub touch : HttpRequest → World → World
touch request w = elim request.user [
  | none ↦ w
  | some caller ↦ record w {
    users =
        update_first (λ u. u.id == caller.sub)
          (λ u.
            with_country (country_of request.country_header)
              (record u { last_seen_at = some w.clock }))
          w.users;
  }
]
