-- ===== src/Auth/Controller.antt =====
-- apps/api/src/auth/auth.controller.ts: the requests about sessions and the second factor, and
-- getProfile of auth.service.ts. The last five need an access token.
use omnia_note.Prelude.{String, Bool, Option, List}
use omnia_note.Http.{Exec, pure, ◌>>=◌, ◌>>◌}
use omnia_note.Shared.Enums.{MfaMethod, AccountRole}
use omnia_note.World.{Uuid, Token, World, Draws, get_user}
use omnia_note.Auth.Primitives.{Crypto}
use omnia_note.Auth.Guards.{Caller}
use omnia_note.Auth.Sessions.{AuthTokens, register, refresh, logout}
use omnia_note.Auth.SignIn.{LoginResult, login, verify_mfa_challenge}
use omnia_note.Auth.Enrollment.{
  start_totp_enrollment, confirm_totp_enrollment, start_email_enrollment, confirm_email_enrollment,
}

pub record Profile : Type 0 where
  pub id : Uuid
  pub email : String
  pub username : String
  pub mobile_number : String
  pub role : AccountRole
  pub mfa_enabled : Bool
  pub mfa_preferred : Option MfaMethod

unfoldable pub get_profile : Uuid → Exec World Profile
get_profile user_id = do
  u ← get_user user_id
  pure (record {
    id = u.id;
    email = u.email;
    username = u.username;
    mobile_number = u.mobile_number;
    role = u.role;
    mfa_enabled = u.mfa_enabled;
    mfa_preferred = u.mfa_preferred;
  })

pub data Request : Type 0 where
  post_register :
      (email username password mobile_number : String) → (account_name : Option String) → Request
  post_login : (email_or_username password : String) → Request
  post_challenge : (challenge_token : Token) → (code : String) → Request
  post_refresh post_logout : (refresh_token : Token) → Request
  get_me post_totp post_email : Caller → Request
  post_totp_verify post_email_verify : Caller → (code : String) → Request

pub data Response : Type 0 where
  session : AuthTokens → Response
  login_result : LoginResult → Response
  no_content sent : Response
  profile : Profile → Response
  -- The secret; the picture of it is not modelled.
  totp_secret : Token → Response
  backup : List String → Response

module _ (c : Crypto) (draws : Draws) where
  unfoldable pub handle : Request → Exec World Response
  handle (post_register email username password mobile_number account_name) = do
    t ← register c draws email username password mobile_number account_name
    pure (session t)
  handle (post_login name password) = do r ← login c draws name password; pure (login_result r)
  handle (post_challenge token code) = do
    t ← verify_mfa_challenge c draws token code
    pure (session t)
  handle (post_refresh token) = do t ← refresh c draws token; pure (session t)
  handle (post_logout token) = do logout c token; pure no_content
  handle (get_me user) = do p ← get_profile user.sub; pure (profile p)
  handle (post_totp user) = do s ← start_totp_enrollment c draws user.sub; pure (totp_secret s)
  handle (post_totp_verify user code) = do
    codes ← confirm_totp_enrollment c draws user.sub code
    pure (backup codes)
  handle (post_email user) = do start_email_enrollment c draws user.sub; pure sent
  handle (post_email_verify user code) = do
    codes ← confirm_email_enrollment c draws user.sub code
    pure (backup codes)
