-- ===== src/Auth/Enrollment.antt =====
-- apps/api/src/auth/mfa-enrollment.service.ts: a method is turned on once a code of it was confirmed.
use omnia_note.Prelude.{
  ℕ, zero, suc, ◌*◌, String, true, Option, some, List, [], ◌∷◌, ◌++◌, ◌==◌, update_first,
  delete_where,
}
use omnia_note.Http.{
  Exec, bad_request, internal_error, pure, guard, gets, modify, or_throw, ◌>>=◌, ◌>>◌,
}
use omnia_note.Shared.Enums.{MfaMethod, totp, email}
use omnia_note.World.{
  Uuid, Token, MfaBackupCode, User, RedisKey, RedisValue, World, Draws, get_user,
}
use omnia_note.Redis
use omnia_note.Notifications.{send_otp_code}
use omnia_note.Auth.Primitives.{Crypto}
use omnia_note.Auth.Challenge.{otp_text, check_code}
use omnia_note.Auth.SignIn.{secret_of}

abbrev pub backup_code_count : ℕ
backup_code_count = 8

abbrev pub email_enroll_ttl_seconds : ℕ
email_enroll_ttl_seconds = 5 * 60

module _ (c : Crypto) where
  -- The first `n` of the backup codes that the request draws, and their rows, each code hashed with its own salt.
  unfoldable pub backup_codes : Draws → ℕ → List String
  backup_codes draws zero = []
  backup_codes draws (suc n) = draws.backup_code n ∷ backup_codes draws n

  unfoldable pub backup_rows : Draws → Uuid → ℕ → List MfaBackupCode
  backup_rows draws user_id zero = []
  backup_rows draws user_id (suc n) =
      record {
        id = draws.backup_id n;
        user_id = user_id;
        code_hash = c.hash (draws.backup_salt n) (draws.backup_code n);
      }
      ∷ backup_rows draws user_id n

  abbrev pub enabled : MfaMethod → User → User
  enabled method u = record u { mfa_enabled = true; mfa_preferred = some method }

  -- The update throws P2025 if the user is gone, and the transaction is undone.
  unfoldable pub enable_mfa : Draws → Uuid → MfaMethod → Exec World (List String)
  enable_mfa draws user_id method = do
    get_user user_id
    modify (λ s. record s {
      users = update_first (λ u. u.id == user_id) (enabled method) s.users;
      backup_codes =
          delete_where (λ b. b.user_id == user_id) s.backup_codes
          ++ backup_rows draws user_id backup_code_count;
    })
    pure (backup_codes draws backup_code_count)

  unfoldable pub start_totp_enrollment : Draws → Uuid → Exec World Token
  start_totp_enrollment draws user_id = do
    get_user user_id
    modify (λ s. record s {
      users =
          update_first (λ u. u.id == user_id)
            (λ u. record u { mfa_totp_secret = some (c.encrypt draws.salt draws.totp_secret) })
            s.users;
    })
    pure draws.totp_secret

  abbrev pending : User → Option Token
  pending u = u.mfa_totp_secret

  unfoldable pub confirm_totp_enrollment : Draws → Uuid → String → Exec World (List String)
  unfolding enable_mfa
  confirm_totp_enrollment draws user_id code = do
    user ← get_user user_id
    or_throw (bad_request "No pending TOTP enrollment — call the enroll endpoint first")
        (pending user)
    secret ←
        or_throw (internal_error "Unsupported state or unable to authenticate data")
          (secret_of c user)
    w ← gets (λ s. s)
    guard (c.totp_verify code secret w.clock) (bad_request "Incorrect code")
    enable_mfa draws user_id totp

  unfoldable pub start_email_enrollment : Draws → Uuid → Exec World (Unit {0})
  start_email_enrollment draws user_id = do
    user ← get_user user_id
    modify (
        Redis.set_with_ttl (RedisKey.email_enroll_key user_id)
          (RedisValue.digest (c.hash draws.salt (otp_text draws.otp))) email_enroll_ttl_seconds)
    send_otp_code email user.email (otp_text draws.otp)

  unfoldable pub confirm_email_enrollment : Draws → Uuid → String → Exec World (List String)
  unfolding enable_mfa
  confirm_email_enrollment draws user_id code = do
    w ← gets (λ s. s)
    check_code c (Redis.get (RedisKey.email_enroll_key user_id) w) code
    modify (Redis.del (RedisKey.email_enroll_key user_id))
    enable_mfa draws user_id email
