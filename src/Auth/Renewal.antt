-- ===== src/Auth/Renewal.antt =====
-- issueTokens and then refresh of apps/api/src/auth/auth.service.ts.
use omnia_note.Prelude.{
  ℕ, ◌+◌, ◌≤◌, ◌≡◌, refl, true, none, some, arith, ◌==◌, find_first, insert, update_first,
  find_none-update, find_none_mono, find_first-inserted,
}
use mathlib.Core.Path.{subst}
use omnia_note.Http.{ok, answer, after}
use omnia_note.World.{Uuid, Token, User, RefreshToken, World, Draws, find_user}
use omnia_note.Auth.Primitives.{Crypto}
use omnia_note.Auth.Sessions.{
  with_hash, is_usable, fresh_row, same_token, parse_ttl_to_ms, create_refresh_token, issue_tokens,
  refresh,
}

abbrev pub later : ℕ → World → World
later ms w = record w { clock = w.clock + ms }

-- No token of the table has the id or the digest of the token that the request would issue.
abbrev pub IsFresh : Crypto → Draws → World → Type 0
IsFresh c draws w = find_first (same_token (fresh_row c draws 0 0)) w.refresh_tokens ≡ none

module _ (c : Crypto) (draws : Draws) (user_id : Uuid) where
  abbrev issued_row : ℕ → World → RefreshToken
  issued_row ttl w = fresh_row c draws user_id (w.clock + ttl)

  -- Issuing tokens for a user who exists, with a lifetime that can be read.
  issue_tokens_ok :
      (w : World) (u : User) (ttl : ℕ)
      → find_user user_id w ≡ some u
      → parse_ttl_to_ms w.config.jwt_refresh_ttl ≡ some ttl
      → IsFresh c draws w
      → (answer (issue_tokens c draws user_id) w
          ≡ ok (record {
            access_token = c.sign user_id u.account_id w.clock;
            refresh_token = draws.refresh_token;
          }))
        × (after (issue_tokens c draws user_id) w
            ≡ record w { refresh_tokens = insert (issued_row ttl w) w.refresh_tokens })
  unfolding issue_tokens create_refresh_token
  issue_tokens_ok w u ttl found good fresh = (ground arith, ground arith)

  found_issued :
      (w : World) (ttl : ℕ)
      → IsFresh c draws w
      → find_first (with_hash c draws.refresh_token) (insert (issued_row ttl w) w.refresh_tokens)
        ≡ some (issued_row ttl w)
  found_issued w ttl fresh =
      find_first-inserted (with_hash c draws.refresh_token) (issued_row ttl w) w.refresh_tokens
        (find_none_mono (same_token (fresh_row c draws 0 0)) (with_hash c draws.refresh_token)
          w.refresh_tokens (λ x. ground arith) fresh)
        (ground arith)

abbrev spent : Uuid → World → World
spent id v = record v {
  refresh_tokens =
      update_first (λ (s : RefreshToken). s.id == id)
        (λ (s : RefreshToken). record s { revoked_at = some v.clock }) v.refresh_tokens;
}

IsFresh-spent :
    (c : Crypto) (draws : Draws) (id : Uuid) (v : World)
    → IsFresh c draws v
    → IsFresh c draws (spent id v)
IsFresh-spent c draws id v fresh =
    find_none-update (same_token (fresh_row c draws 0 0)) (λ (s : RefreshToken). s.id == id)
      (λ (s : RefreshToken). record s { revoked_at = some v.clock }) v.refresh_tokens (λ x h. refl)
      fresh

refresh_ok :
    (c : Crypto) (draws : Draws) (raw : Token) (v : World) (t : RefreshToken) (u : User) (ttl : ℕ)
    → find_first (with_hash c raw) v.refresh_tokens ≡ some t
    → is_usable c v.clock t ≡ true
    → find_user t.user_id v ≡ some u
    → parse_ttl_to_ms v.config.jwt_refresh_ttl ≡ some ttl
    → IsFresh c draws v
    → answer (refresh c draws raw) v
      ≡ ok (record {
        access_token = c.sign t.user_id u.account_id v.clock;
        refresh_token = draws.refresh_token;
      })
unfolding refresh
refresh_ok c draws raw v t u ttl e usable found good fresh = ground (
  arith,
  (issue_tokens_ok c draws t.user_id (spent t.id v) u ttl found good
      (IsFresh-spent c draws t.id v fresh)).0,
)

-- A token that was issued to a user of the table is refreshed within its lifetime, whatever time passes
-- until then, if the new token is fresh: the answer is a new pair of tokens for the same user.
pub refresh-issue_tokens :
    (c : Crypto) (draws draws' : Draws) (user_id : Uuid) (w : World) (u : User) (ttl ms : ℕ)
    → find_user user_id w ≡ some u
    → parse_ttl_to_ms w.config.jwt_refresh_ttl ≡ some ttl
    → IsFresh c draws w
    → IsFresh c draws' (after (issue_tokens c draws user_id) w)
    → ms ≤ ttl
    → answer
        (refresh c draws' draws.refresh_token)
        (later ms (after (issue_tokens c draws user_id) w))
      ≡ ok (record {
        access_token = c.sign user_id u.account_id (w.clock + ms);
        refresh_token = draws'.refresh_token;
      })
refresh-issue_tokens c draws draws' user_id w u ttl ms found good fresh fresh' in_time =
    let v =
      later ms (record w {
        refresh_tokens = insert (issued_row c draws user_id ttl w) w.refresh_tokens;
      }) in
    let issued = (issue_tokens_ok c draws user_id w u ttl found good fresh).1 in
    rw issued (
      refresh_ok c draws' draws.refresh_token v (issued_row c draws user_id ttl w) u ttl
        (found_issued c draws user_id w ttl fresh) (ground (arith, in_time)) found good
        (subst (λ x. IsFresh c draws' x) issued fresh'))
