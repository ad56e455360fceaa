-- ===== src/Auth/Sessions.antt =====
-- apps/api/src/auth/auth.service.ts: issueTokens, refresh, logout, register.
use omnia_note.Prelude.{
  ℕ, ◌+◌, ◌-◌, ◌*◌, String, Bool, true, false, not, ◌&&◌, ◌||◌, Option, none, some, List, [], ◌∷◌,
  ◌==◌, leb, ltb, is_some, find_first, insert, update_first, update_where, concat, codes,
  if◌then◌else◌,
}
use omnia_note.Http.{
  Exec, unauthorized, conflict, unique_violation, internal_error, pure, guard, gets, modify,
  or_throw, transaction, ◌>>=◌, ◌>>◌,
}
use omnia_note.Shared.Enums.{AccountRole, owner}
use omnia_note.Shared.Tiers.{free}
use omnia_note.World.{
  Uuid, Token, Time, User, RefreshToken, World, Draws, find_account, get_user, has_login,
  create_user,
}
use omnia_note.Auth.Primitives.{Crypto}

pub record AuthTokens : Type 0 where
  pub access_token : Token
  pub refresh_token : Token

abbrev unit_ms : ℕ → Option ℕ
unit_ms u =
    if u == b's'
    then some 1000
    else if u == b'm'
    then some 60000
    else if u == b'h'
    then some 3600000
    else if u == b'd'
    then some 86400000
    else none

abbrev times : ℕ → Option ℕ → Option ℕ
times n none = none
times n (some ms) = some (n * ms)

abbrev is_digit : ℕ → Bool
is_digit c = leb b'0' c && leb c b'9'

-- /^(\d+)([smhd])$/ and the product; `seen` says that there was a digit, `value` reads them so far.
ttl_from : Bool → ℕ → List ℕ → Option ℕ
ttl_from seen value [] = none
ttl_from seen value (c ∷ []) = if seen then times value (unit_ms c) else none
ttl_from seen value (c ∷ d ∷ rest) =
    let more = ttl_from true (value * 10 + (c - b'0')) (d ∷ rest) in
    if is_digit c then more else none

-- parseTtlToMs; `none` is the Error.
unfoldable pub parse_ttl_to_ms : String → Option ℕ
unfolding ttl_from
parse_ttl_to_ms ttl = ttl_from false 0 (codes ttl)

-- The unique columns of RefreshToken.
abbrev pub same_token : RefreshToken → RefreshToken → Bool
same_token new t = t.id == new.id || t.token_hash == new.token_hash

unfoldable pub create_refresh_token : RefreshToken → Exec World (Unit {0})
create_refresh_token new = do
  tokens ← gets (λ s. s.refresh_tokens)
  guard (not (is_some (find_first (same_token new) tokens))) unique_violation
  modify (λ s. record s { refresh_tokens = insert new s.refresh_tokens })

module _ (c : Crypto) where
  abbrev pub fresh_row : Draws → Uuid → Time → RefreshToken
  fresh_row draws user_id expires_at = record {
    id = draws.refresh_row_id;
    user_id = user_id;
    token_hash = c.sha256 draws.refresh_token;
    expires_at = expires_at;
    revoked_at = none;
  }

  unfoldable pub issue_tokens : Draws → Uuid → Exec World AuthTokens
  unfolding create_refresh_token
  issue_tokens draws user_id = do
    user ← get_user user_id
    w ← gets (λ s. s)
    ttl ←
        or_throw (internal_error (concat ("Invalid TTL format: " ∷ w.config.jwt_refresh_ttl ∷ [])))
          (parse_ttl_to_ms w.config.jwt_refresh_ttl)
    create_refresh_token (fresh_row draws user_id (w.clock + ttl))
    pure (record {
      access_token = c.sign user_id user.account_id w.clock;
      refresh_token = draws.refresh_token;
    })

  -- The row of a user who has just chosen credentials.
  abbrev pub new_user :
      Draws → Uuid → (email username password mobile_number : String) → AccountRole → Time → User
  new_user draws account_id email username password mobile_number role now = record {
    id = draws.row_id;
    account_id = account_id;
    email = email;
    username = username;
    password_hash = c.hash draws.salt password;
    mobile_number = mobile_number;
    role = role;
    is_platform_admin = false;
    last_seen_at = none;
    last_known_country = none;
    mfa_enabled = false;
    mfa_preferred = none;
    mfa_totp_secret = none;
    created_at = now;
  }

  abbrev pub with_hash : Token → RefreshToken → Bool
  with_hash raw t = t.token_hash == c.sha256 raw

  -- `!stored || stored.revokedAt || stored.expiresAt < new Date()`
  abbrev pub is_usable : Time → RefreshToken → Bool
  is_usable now t = not (is_some t.revoked_at) && not (ltb t.expires_at now)

  abbrev usable : Time → Option RefreshToken → Option RefreshToken
  usable now none = none
  usable now (some t) = if is_usable now t then some t else none

  unfoldable pub refresh : Draws → Token → Exec World AuthTokens
  unfolding issue_tokens
  refresh draws raw = do
    w ← gets (λ s. s)
    stored ←
        or_throw (unauthorized "Refresh token is invalid or expired")
          (usable w.clock (find_first (with_hash raw) w.refresh_tokens))
    modify (λ s. record s {
      refresh_tokens =
          update_first (λ t. t.id == stored.id) (λ t. record t { revoked_at = some s.clock })
            s.refresh_tokens;
    })
    issue_tokens draws stored.user_id

  unfoldable pub logout : Token → Exec World (Unit {0})
  logout raw = modify (λ s. record s {
    refresh_tokens =
        update_where (with_hash raw) (λ t. record t { revoked_at = some s.clock }) s.refresh_tokens;
  })

  -- The transaction of `register`: on a failure nothing of it stays.
  abbrev pub create_owner :
      Draws → (email username password mobile_number : String) → Option String → Exec World User
  create_owner draws email username password mobile_number account_name = transaction (do
    w ← gets (λ s. s)
    guard (not (is_some (find_account draws.account_row_id w))) unique_violation
    modify (λ s. record s {
      accounts =
          insert
            (record {
              id = draws.account_row_id;
              name = account_name;
              tier = free;
              storage_used_bytes = 0;
              created_at = s.clock;
            })
            s.accounts;
    })
    create_user
        (new_user draws draws.account_row_id email username password mobile_number owner w.clock))

  unfoldable pub register :
      Draws
      → (email username password mobile_number : String) → Option String
      → Exec World AuthTokens
  unfolding issue_tokens create_user
  register draws email username password mobile_number account_name = do
    w ← gets (λ s. s)
    guard (not (is_some (find_first (has_login email username) w.users)))
        (conflict "An account with that email or username already exists")
    user ← create_owner draws email username password mobile_number account_name
    issue_tokens draws user.id
