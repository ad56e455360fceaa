-- ===== src/Auth/SecondFactor.antt =====
-- login and verifyMfaChallenge of apps/api/src/auth/auth.service.ts with a second factor.
use omnia_note.Prelude.{
  ◌≡◌, refl, String, true, false, none, some, arith, find_first, find_first-delete_where,
}
use omnia_note.Http.{thrown, unauthorized, ok, err, answer, after, Answered}
use omnia_note.Shared.Enums.{MfaMethod, totp, sms, email}
use omnia_note.World.{Uuid, Token, User, RedisKey, RedisEntry, World, Draws, has_login}
use omnia_note.Redis
use omnia_note.Redis.{key_eq, is_live}
use omnia_note.Notifications.{send_otp_code}
use omnia_note.Auth.Primitives.{Crypto}
use omnia_note.Auth.Sessions.{AuthTokens, issue_tokens}
use omnia_note.Auth.Challenge.{
  create_challenge, get_challenge, send_otp_for_challenge, consume_challenge,
}
use omnia_note.Auth.SignIn.{
  LoginResult, tokens, mfa_required, second_step, login, verify_mfa_challenge,
}

abbrev pub IsChallenge : LoginResult → Type 0
IsChallenge (tokens t) = ⊥
IsChallenge (mfa_required token method) = Unit

key_eq_refl : (k : RedisKey) → key_eq k k ≡ true
key_eq_refl (RedisKey.challenge_key t) = ground arith
key_eq_refl (RedisKey.otp_key t) = ground arith
key_eq_refl (RedisKey.email_enroll_key t) = ground arith

-- A value that was deleted is not there.
get-del : (k : RedisKey) (w : World) → Redis.get k (Redis.del k w) ≡ none
unfolding Redis.get Redis.del
get-del k w = ground (
  arith,
  find_first-delete_where (is_live w.clock k) (λ (e : RedisEntry). key_eq e.key k) w.redis
      (λ x. ground arith),
)

module _ (c : Crypto) where
  second_step_challenges :
      (draws : Draws) (w : World) (u : User) (method : MfaMethod)
      → u.mfa_enabled ≡ true
      → u.mfa_preferred ≡ some method
      → Answered IsChallenge (answer (second_step c draws u) w)
        × ((after (second_step c draws u) w).refresh_tokens ≡ w.refresh_tokens)
  unfolding second_step create_challenge get_challenge send_otp_for_challenge send_otp_code
      Redis.set_with_ttl
  second_step_challenges draws w u totp on preferred = rw (on, preferred) (tt, refl)
  second_step_challenges draws w u sms on preferred =
      rw (on, preferred) (ground arith, ground arith)
  second_step_challenges draws w u email on preferred =
      rw (on, preferred) (ground arith, ground arith)

  -- If the user has the second factor on and a preferred method, a sign-in that succeeds answers with a
  -- challenge, and no session is opened: the refresh tokens are as before, also when it fails.
  pub login_challenges :
      (draws : Draws) (name password : String) (w : World) (u : User) (method : MfaMethod)
      → find_first (has_login name name) w.users ≡ some u
      → u.mfa_enabled ≡ true
      → u.mfa_preferred ≡ some method
      → Answered IsChallenge (answer (login c draws name password) w)
        × ((after (login c draws name password) w).refresh_tokens ≡ w.refresh_tokens)
  unfolding login
  login_challenges draws name password w u method found on preferred =
      ground (arith, second_step_challenges draws w u method on preferred)

  -- A sign-in of a user with a password that argon2 does not verify is refused, and nothing changes.
  pub login_wrong_password :
      (draws : Draws) (name password : String) (w : World) (u : User)
      → find_first (has_login name name) w.users ≡ some u
      → c.verify u.password_hash password ≡ false
      → (answer (login c draws name password) w
          ≡ err (unauthorized "Incorrect email/username or password"))
        × (after (login c draws name password) w ≡ w)
  unfolding login
  login_wrong_password draws name password w u found wrong = (ground arith, ground arith)

  get-issue_tokens :
      (draws : Draws) (user_id : Uuid) (k : RedisKey) (s : World)
      → Redis.get k (after (issue_tokens c draws user_id) s) ≡ Redis.get k s
  unfolding issue_tokens Redis.get
  get-issue_tokens draws user_id k s = ground arith

  -- Once a session was issued after the challenge was deleted, the challenge is gone.
  get_challenge_spent :
      (draws : Draws) (token : Token) (user_id : Uuid) (s : World)
      → get_challenge token
          (after (issue_tokens c draws user_id) (Redis.del (RedisKey.challenge_key token) s))
        ≡ thrown
            (unauthorized "MFA challenge expired or invalid")
            (after (issue_tokens c draws user_id) (Redis.del (RedisKey.challenge_key token) s))
  unfolding get_challenge
  get_challenge_spent draws token user_id s = rw (get-issue_tokens, get-del)

  -- If an answer to a challenge opened a session, the next answer to it, right or wrong, is refused.
  pub verify_mfa_challenge_once :
      (draws draws' : Draws) (token : Token) (code code' : String) (w : World) (t : AuthTokens)
      → answer (verify_mfa_challenge c draws token code) w ≡ ok t
      → answer
          (verify_mfa_challenge c draws' token code')
          (after (verify_mfa_challenge c draws token code) w)
        ≡ err (unauthorized "MFA challenge expired or invalid")
  unfolding verify_mfa_challenge consume_challenge
  verify_mfa_challenge_once draws draws' token code code' w t h = grind (arith, get_challenge_spent)
