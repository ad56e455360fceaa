-- ===== src/Auth/Rotation.antt =====
-- The life of a refresh token: refresh and logout of apps/api/src/auth/auth.service.ts.
use omnia_note.Prelude.{
  ◌+◌, ◌≡◌, true, false, some, arith, ◌==◌, is_some, inl, inr, Option-cases, find_first,
  find_first_holds, find_first-insert-some, IsKeyed, find_by_key, find_first-updated_via,
  update_first, update_where, List, [], ◌∷◌,
}
use omnia_note.Http.{Result, unauthorized, ok, err, answer, after}
use omnia_note.World.{Uuid, Token, Time, RefreshToken, World, Draws}
use omnia_note.Auth.Primitives.{Crypto}
use omnia_note.Auth.Sessions.{
  AuthTokens, with_hash, is_usable, fresh_row, parse_ttl_to_ms, refresh, logout,
}

abbrev pub refused : Result AuthTokens
refused = err (unauthorized "Refresh token is invalid or expired")

abbrev token_id : RefreshToken → Uuid
token_id t = t.id

abbrev revoked : Time → RefreshToken → RefreshToken
revoked now t = record t { revoked_at = some now }

module _ (c : Crypto) where
  -- A token that is not in the table, was revoked, or has expired.
  refresh-refused :
      (draws : Draws) (raw : Token) (w : World)
      → ((t : RefreshToken)
          → find_first (with_hash c raw) w.refresh_tokens ≡ some t
          → is_usable c w.clock t ≡ false)
      → answer (refresh c draws raw) w ≡ refused
  unfolding refresh
  refresh-refused draws raw w h =
      elim (Option-cases (find_first (with_hash c raw) w.refresh_tokens)) [
        | inl missing ↦ ground arith
        | inr (t, e) ↦ ground (arith, h t e)
      ]

  spent_by_id :
      (raw : Token) (w : World) (t : RefreshToken)
      → IsKeyed token_id w.refresh_tokens
      → find_first (with_hash c raw) w.refresh_tokens ≡ some t
      → with_hash c raw t ≡ true
      → find_first
          (with_hash c raw)
          (update_first (λ (s : RefreshToken). s.id == t.id) (revoked w.clock) w.refresh_tokens)
        ≡ some (revoked w.clock t)
  spent_by_id raw w t keyed e =
      find_first-updated_via (with_hash c raw) (λ (s : RefreshToken). s.id == t.id)
        (revoked w.clock) w.refresh_tokens t e
        (find_by_key token_id (with_hash c raw) w.refresh_tokens t keyed e)

  spent_row :
      (draws : Draws) (raw : Token) (w : World) (t : RefreshToken)
      → IsKeyed token_id w.refresh_tokens
      → find_first (with_hash c raw) w.refresh_tokens ≡ some t
      → is_usable c w.clock t ≡ true
      → find_first (with_hash c raw) (after (refresh c draws raw) w).refresh_tokens
        ≡ some (revoked w.clock t)
  unfolding refresh
  spent_row draws raw w t keyed e usable =
      elim (Option-cases (parse_ttl_to_ms w.config.jwt_refresh_ttl)) [
        | inl bad ↦ ground (
          arith,
          find_first_holds (with_hash c raw) w.refresh_tokens t e,
          spent_by_id raw w t keyed e,
        )
        | inr (ttl, good) ↦ ground (
          arith,
          find_first_holds (with_hash c raw) w.refresh_tokens t e,
          spent_by_id raw w t keyed e,
          find_first-insert-some (with_hash c raw) (fresh_row c draws t.user_id (w.clock + ttl))
              (update_first (λ (s : RefreshToken). s.id == t.id) (revoked w.clock) w.refresh_tokens)
              (revoked w.clock t),
        )
      ]

  answered_usable :
      (draws : Draws) (raw : Token) (w : World) (tokens : AuthTokens) (t : RefreshToken)
      → answer (refresh c draws raw) w ≡ ok tokens
      → find_first (with_hash c raw) w.refresh_tokens ≡ some t
      → is_usable c w.clock t ≡ true
  unfolding refresh
  answered_usable draws raw w tokens t h e = ground arith

  -- If the ids of the refresh tokens are unique, a token that was refreshed is refused when it is
  -- presented again next, whatever is drawn at random.
  pub refresh_single_use :
      (draws draws' : Draws) (raw : Token) (w : World) (tokens : AuthTokens)
      → IsKeyed token_id w.refresh_tokens
      → answer (refresh c draws raw) w ≡ ok tokens
      → answer (refresh c draws' raw) (after (refresh c draws raw) w) ≡ refused
  refresh_single_use draws draws' raw w tokens keyed h =
      elim (Option-cases (find_first (with_hash c raw) w.refresh_tokens)) [
        | inl missing ↦ unfold refresh in ground arith
        | inr (t, e) ↦
            let e' = spent_row draws raw w t keyed e (answered_usable draws raw w tokens t h e) in
            refresh-refused draws' raw (after (refresh c draws raw) w) (λ s es. ground (arith, e'))
      ]

  logged_out_row :
      (raw : Token) (now : Time) (ts : List RefreshToken) (t : RefreshToken)
      → find_first (with_hash c raw) (update_where (with_hash c raw) (revoked now) ts) ≡ some t
      → is_some t.revoked_at ≡ true
  unfolding find_first update_where
  logged_out_row raw now [] t h = ground arith
  logged_out_row raw now (x ∷ ts) t h = ground (arith, logged_out_row raw now ts t)

  -- Right after a logout with a token, a refresh with it is refused.
  pub refresh-logout :
      (draws : Draws) (raw : Token) (w : World)
      → answer (refresh c draws raw) (after (logout c raw) w) ≡ refused
  refresh-logout draws raw w =
      refresh-refused draws raw (after (logout c raw) w)
        (λ t e. unfold logout in ground (arith, logged_out_row raw w.clock w.refresh_tokens t e))
