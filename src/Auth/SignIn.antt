-- ===== src/Auth/SignIn.antt =====
-- apps/api/src/auth/auth.service.ts: login and verifyMfaChallenge.
use omnia_note.Prelude.{String, Option, none, some, find_first, if◌then◌else◌}
use omnia_note.Http.{
  Outcome, returned, Exec, unauthorized, internal_error, pure, guard, gets, or_throw, ◌>>=◌, ◌>>◌,
}
use omnia_note.Shared.Enums.{MfaMethod, totp, sms, email}
use omnia_note.World.{Uuid, Token, User, World, Draws, get_user, has_login}
use omnia_note.Auth.Primitives.{Crypto}
use omnia_note.Auth.Sessions.{AuthTokens, issue_tokens}
use omnia_note.Auth.Challenge.{
  create_challenge, get_challenge, send_otp_for_challenge, verify_otp, consume_challenge,
}

pub data LoginResult : Type 0 where
  tokens : AuthTokens → LoginResult
  mfa_required : Token → MfaMethod → LoginResult

module _ (c : Crypto) where
  -- `!user || !verify(user.passwordHash, password)`
  abbrev checked : String → Option User → Option User
  checked password none = none
  checked password (some u) = if c.verify u.password_hash password then some u else none

  -- The methods but TOTP are sent a code; anything but email goes to the phone.
  abbrev pub send_code_by : Draws → Token → User → MfaMethod → World → Outcome World (Unit {0})
  send_code_by draws token user method w = elim method [
    | totp ↦ returned tt w
    | sms ↦ send_otp_for_challenge c draws token user.mobile_number w
    | email ↦ send_otp_for_challenge c draws token user.email w
  ]

  abbrev pub signed_in : Draws → User → Exec World LoginResult
  signed_in draws user = do t ← issue_tokens c draws user.id; pure (tokens t)

  abbrev pub challenged : Draws → User → MfaMethod → Exec World LoginResult
  challenged draws user method = do
    token ← create_challenge draws user.id method
    send_code_by draws token user method
    pure (mfa_required token method)

  -- `!user.mfaEnabled || !user.mfaPreferred` issues the session at once.
  unfoldable pub second_step : Draws → User → World → Outcome World LoginResult
  second_step draws user w =
      if user.mfa_enabled
      then (elim user.mfa_preferred [
        | none ↦ signed_in draws user w
        | some method ↦ challenged draws user method w
      ])
      else signed_in draws user w

  unfoldable pub login : Draws → (email_or_username password : String) → Exec World LoginResult
  login draws email_or_username password = do
    w ← gets (λ s. s)
    user ←
        or_throw (unauthorized "Incorrect email/username or password")
          (checked password (find_first (has_login email_or_username email_or_username) w.users))
    second_step draws user

  -- `decryptSecret(user.mfaTotpSecret!)` throws on null and on a payload that was tampered with.
  unfoldable pub secret_of : User → Option Token
  secret_of u = elim u.mfa_totp_secret [ none ↦ none | some payload ↦ c.decrypt payload ]

  abbrev verify_totp : String → Uuid → Exec World (Unit {0})
  verify_totp code user_id = do
    user ← get_user user_id
    secret ←
        or_throw (internal_error "Unsupported state or unable to authenticate data")
          (secret_of user)
    w ← gets (λ s. s)
    guard (c.totp_verify code secret w.clock) (unauthorized "Incorrect or expired code")

  unfoldable pub verify_code : Token → String → Uuid → MfaMethod → World → Outcome World (Unit {0})
  verify_code token code user_id method w = elim method [
    | totp ↦ verify_totp code user_id w
    | sms ↦ verify_otp c token code w
    | email ↦ verify_otp c token code w
  ]

  unfoldable pub verify_mfa_challenge : Draws → Token → String → Exec World AuthTokens
  verify_mfa_challenge draws challenge_token code = do
    challenge ← get_challenge challenge_token
    verify_code challenge_token code challenge.0 challenge.1
    consume_challenge challenge_token
    issue_tokens c draws challenge.0
