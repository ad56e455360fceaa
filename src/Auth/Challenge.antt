-- ===== src/Auth/Challenge.antt =====
-- apps/api/src/auth/mfa-challenge.service.ts: the gap between "password checked out" and "session
-- issued". A challenge and its one-time code live in Redis for five minutes.
use Prim.Native.Nat.{◌/◌, ◌%◌}
use omnia_note.Prelude.{ℕ, ◌*◌, String, Option, none, some, [], ◌∷◌, ◌==◌, concat, if◌then◌else◌}
use omnia_note.Http.{
  Outcome, returned, Exec, unauthorized, internal_error, pure, guard, gets, modify, throw, ◌>>=◌,
  ◌>>◌,
}
use omnia_note.Shared.Enums.{MfaMethod, is_totp}
use omnia_note.World.{Uuid, Token, RedisValue, RedisKey, World, Draws}
use omnia_note.Redis
use omnia_note.Notifications.{send_otp_code}
use omnia_note.Auth.Primitives.{Crypto}

abbrev pub challenge_ttl_seconds : ℕ
challenge_ttl_seconds = 5 * 60

abbrev digit_text : ℕ → String
digit_text d =
    if d == 0
    then "0"
    else if d == 1
    then "1"
    else if d == 2
    then "2"
    else if d == 3
    then "3"
    else if d == 4
    then "4"
    else if d == 5
    then "5"
    else if d == 6
    then "6"
    else if d == 7
    then "7"
    else if d == 8
    then "8"
    else "9"

-- `n.toString().padStart(6, "0")` of a number below 1_000_000
unfoldable pub otp_text : ℕ → String
otp_text n = concat (
    digit_text (n / 100000 % 10)
    ∷ digit_text (n / 10000 % 10)
    ∷ digit_text (n / 1000 % 10)
    ∷ digit_text (n / 100 % 10)
    ∷ digit_text (n / 10 % 10)
    ∷ digit_text (n % 10)
    ∷ [])

unfoldable pub create_challenge : Draws → Uuid → MfaMethod → Exec World Token
create_challenge draws user_id method = do
  modify (
      Redis.set_with_ttl (RedisKey.challenge_key draws.challenge_token)
        (RedisValue.payload user_id method) challenge_ttl_seconds)
  pure draws.challenge_token

-- `JSON.parse` of what stands under the key; a digest is no JSON.
abbrev parse_payload : Option RedisValue → Exec World (Uuid × MfaMethod)
parse_payload none = throw (unauthorized "MFA challenge expired or invalid")
parse_payload (some (RedisValue.payload user_id method)) = pure (user_id, method)
parse_payload (some (RedisValue.digest d)) = throw (internal_error "Unexpected token in JSON")

unfoldable pub get_challenge : Token → Exec World (Uuid × MfaMethod)
get_challenge token w = parse_payload (Redis.get (RedisKey.challenge_key token) w) w

module _ (c : Crypto) where
  -- `argon2.verify` of what stands under a key; of no digest it throws.
  unfoldable pub check_code : Option RedisValue → String → Exec World (Unit {0})
  check_code none code = throw (unauthorized "Incorrect or expired code")
  check_code (some (RedisValue.payload user_id method)) code =
      throw (internal_error "pchstr must be a non-empty string")
  check_code (some (RedisValue.digest d)) code =
      guard (c.verify d code) (unauthorized "Incorrect or expired code")

  abbrev pub store_and_send : Draws → Token → String → MfaMethod → Exec World (Unit {0})
  store_and_send draws token destination method = do
    modify (
        Redis.set_with_ttl (RedisKey.otp_key token)
          (RedisValue.digest (c.hash draws.salt (otp_text draws.otp))) challenge_ttl_seconds)
    send_otp_code method destination (otp_text draws.otp)

  -- TOTP codes come from the authenticator app: nothing is sent.
  abbrev pub send_code : Draws → Token → String → MfaMethod → World → Outcome World (Unit {0})
  send_code draws token destination method w =
      if is_totp method then returned tt w else store_and_send draws token destination method w

  unfoldable pub send_otp_for_challenge : Draws → Token → String → Exec World (Unit {0})
  unfolding get_challenge
  send_otp_for_challenge draws token destination = do
    challenge ← get_challenge token
    send_code draws token destination challenge.1

  unfoldable pub verify_otp : Token → String → Exec World (Unit {0})
  unfolding check_code
  verify_otp token code = do
    w ← gets (λ s. s)
    check_code (Redis.get (RedisKey.otp_key token) w) code
    modify (Redis.del (RedisKey.otp_key token))

unfoldable pub consume_challenge : Token → Exec World (Unit {0})
consume_challenge token = modify (Redis.del (RedisKey.challenge_key token))
