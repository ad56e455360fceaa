-- ===== src/Auth/Guards.antt =====
-- apps/api/src/auth/strategies/jwt.strategy.ts: what the access token says of the caller, and
-- apps/api/src/common/guards/platform-admin.guard.ts.
use omnia_note.Prelude.{Bool, false, Option, none, some}
use omnia_note.Http.{Exec, unauthorized, forbidden, guard, gets, or_throw, ◌>>=◌}
use omnia_note.World.{Uuid, User, World, find_user}

-- JwtPayload
pub record Caller : Type 0 where
  pub sub : Uuid
  pub account_id : Uuid

-- `user?.isPlatformAdmin`
abbrev pub is_admin_user : Option User → Bool
is_admin_user none = false
is_admin_user (some u) = u.is_platform_admin

-- `none` is a request without a user.
unfoldable pub platform_admin_guard : Option Caller → Exec World (Unit {0})
platform_admin_guard request_user = do
  caller ← or_throw (unauthorized "Unauthorized") request_user
  w ← gets (λ s. s)
  guard (is_admin_user (find_user caller.sub w)) (forbidden "Admin access required")
