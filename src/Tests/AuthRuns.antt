-- ===== src/Tests/AuthRuns.antt =====
-- apps/api/src/auth on the small state.
use omnia_note.Prelude.{arith, ℕ, insert, update_first, delete_where, ◌≡◌, refl, find_first}
use omnia_note.Http.{ok, answer, after, err, unauthorized, Answered}
use omnia_note.Shared.Enums.{email}
use omnia_note.Auth.{
  consume_challenge, refresh, issue_tokens, create_refresh_token, login, verify_mfa_challenge,
  AuthTokens, parse_ttl_to_ms, verify_code, verify_otp, check_code, get_challenge,
}
use omnia_note.Redis
use omnia_note.Auth.Rotation.{refused, refresh_single_use}
use omnia_note.Auth.SecondFactor.{IsChallenge, login_challenges, verify_mfa_challenge_once}
use omnia_note.Auth.Renewal.{later, refresh-issue_tokens}
use omnia_note.Tests.Fixtures.{toy_crypto, first_draws, second_draws, today, ann, bob}

-- The token of bob's session.
abbrev raw : ℕ
raw = 500

abbrev renewed : AuthTokens
renewed = record { access_token = 1011; refresh_token = 1004 }

refresh_single_use_example :
    answer (refresh toy_crypto second_draws raw) (after (refresh toy_crypto first_draws raw) today)
    ≡ refused
unfolding refresh issue_tokens create_refresh_token parse_ttl_to_ms find_first insert update_first
refresh_single_use_example =
    refresh_single_use toy_crypto first_draws second_draws raw today renewed (refl, tt) refl

login_challenges_example :
    Answered IsChallenge (answer (login toy_crypto first_draws "ann" "pw") today)
    × ((after (login toy_crypto first_draws "ann" "pw") today).refresh_tokens
        ≡ today.refresh_tokens)
unfolding find_first
login_challenges_example =
    login_challenges toy_crypto first_draws "ann" "pw" today ann email refl refl refl

abbrev opened : AuthTokens
opened = record { access_token = 1010; refresh_token = 1004 }

verify_mfa_challenge_once_example :
    answer
      (verify_mfa_challenge toy_crypto second_draws 70 "123456")
      (after (verify_mfa_challenge toy_crypto first_draws 70 "123456") today)
    ≡ err (unauthorized "MFA challenge expired or invalid")
unfolding verify_mfa_challenge verify_code verify_otp check_code get_challenge consume_challenge
    issue_tokens create_refresh_token parse_ttl_to_ms find_first insert delete_where Redis.get
    Redis.del
verify_mfa_challenge_once_example =
    verify_mfa_challenge_once toy_crypto first_draws second_draws 70 "123456" "123456" today opened
      refl

refresh-issue_tokens_example :
    answer
      (refresh toy_crypto second_draws 1004)
      (later 5000 (after (issue_tokens toy_crypto first_draws 11) today))
    ≡ ok (record { access_token = 6011; refresh_token = 2004 })
unfolding find_first issue_tokens create_refresh_token parse_ttl_to_ms insert
refresh-issue_tokens_example =
    refresh-issue_tokens toy_crypto first_draws second_draws 11 today bob 2592000000 5000 refl refl
      refl refl (ground arith)
