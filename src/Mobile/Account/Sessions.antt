-- ===== src/Mobile/Account/Sessions.antt =====
-- apps/mobile/src/lib/auth.ts: who counts as signed in.
use omnia_note.Prelude.{
  ℕ, Bool, Option, none, some, insert, true, false, ◌≡◌, refl, ap, ◌∙◌, List, [], ◌∷◌, ◌==◌, arith,
  inl, inr, is_some, Bool-cases, Option-cases,
}
use omnia_note.Mobile.ApiClient.{
  Tokens, Reply, Api, Client, Fetched, value, nothing, failed, rejected, Renewal, renewed, denied,
  unreachable, on_renewal, after_reply, set_tokens, clear, send, retry_if, refresh_tokens,
  api_fetch_again, api_fetch,
}
use omnia_note.Mobile.Account.{
  LoginResponse, tokens, mfa_required, Outcome, signed_in, signed_out, register, login,
  verify_mfa_challenge, logout, is_logged_in, on_tokens, on_login, on_response, Call, registers,
  logs_in, answers_challenge, logs_out, fetches, run_call, run_calls,
}

-- The store has both tokens or none.
abbrev pub IsPaired : Client → Type 0
IsPaired c = is_some c.access ≡ is_some c.refresh

-- What the outcomes say of the session: the last sign-in or sign-out decides.
abbrev pub session_after : Outcome → Bool → Bool
session_after (signed_in t) before = true
session_after signed_out before = false
session_after _ before = before

abbrev pub session : List Outcome → Bool → Bool
session [] before = before
session (o ∷ os) before = session os (session_after o before)

-- A call keeps the store paired, and the user signed in or out.
abbrev KeepsSession : Client → Client → Type 0
KeepsSession c d = IsPaired d × (is_some d.access ≡ is_some c.access)

on_renewal-KeepsSession :
    (r : Renewal) (c : Client)
    → IsPaired c
    → is_some c.refresh ≡ true
    → KeepsSession c (on_renewal r c).1
unfolding set_tokens
on_renewal-KeepsSession (renewed t) c h stored = (refl, ground arith)
on_renewal-KeepsSession denied c h stored = (h, refl)
on_renewal-KeepsSession unreachable c h stored = (h, refl)

refresh_tokens-KeepsSession :
    (api : Api) (c : Client) → IsPaired c → KeepsSession c (refresh_tokens api c).1
unfolding refresh_tokens set_tokens
refresh_tokens-KeepsSession api c h = elim (Option-cases c.refresh) [
  | inl absent ↦ (ground arith, ground arith)
  | inr (token, e) ↦
      let asked : Client = record c { renewals = insert token c.renewals } in
      let steps : refresh_tokens api c ≡ on_renewal (api.renew token) asked = ground (arith, e) in
      rw steps (on_renewal-KeepsSession (api.renew token) asked h (ground (arith, e)))
]

retry_if-KeepsSession :
    (api : Api) (reply : Reply) (r : Option Bool × Client)
    → IsPaired r.1
    → KeepsSession r.1 (retry_if api reply r).1
unfolding api_fetch_again
retry_if-KeepsSession api reply (some true, c) h = (h, refl)
retry_if-KeepsSession api reply (some false, c) h = (h, refl)
retry_if-KeepsSession api reply (none, c) h = (h, refl)

after_reply-KeepsSession :
    (api : Api) (reply : Option Reply) (c : Client)
    → IsPaired c
    → KeepsSession c (after_reply api reply c).1
after_reply-KeepsSession api none c h = (h, refl)
after_reply-KeepsSession api (some reply) c h = elim (Bool-cases (reply.status == 401)) [
  | inl unauthorized ↦
      let (paired, same) = refresh_tokens-KeepsSession api c h in
      let (paired', same') = retry_if-KeepsSession api reply (refresh_tokens api c) paired in
      rw unauthorized (paired', same' ∙ same)
  | inr other ↦ rw other (h, refl)
]

api_fetch-KeepsSession : (api : Api) (c : Client) → IsPaired c → KeepsSession c (api_fetch api c).1
unfolding api_fetch
api_fetch-KeepsSession api c h = after_reply-KeepsSession api (api.first c.access) (send c) h

-- The outcome of a call agrees with the store.
abbrev Agrees : Client → Outcome × Client → Type 0
Agrees c r = IsPaired r.1 × (is_some r.1.access ≡ session_after r.0 (is_some c.access))

on_tokens-Agrees :
    (c : Client) (read : ℕ → Tokens) (r : Fetched × Client)
    → KeepsSession c r.1
    → Agrees c (on_tokens read r)
unfolding set_tokens
on_tokens-Agrees c read (value v, d) h = (refl, refl)
on_tokens-Agrees c read (nothing, d) h = h
on_tokens-Agrees c read (failed e, d) h = h
on_tokens-Agrees c read (rejected, d) h = h

on_response-Agrees :
    (c d : Client) (r : LoginResponse) → KeepsSession c d → Agrees c (on_response r d)
unfolding set_tokens
on_response-Agrees c d (tokens t) h = (refl, refl)
on_response-Agrees c d (mfa_required token) h = h

on_login-Agrees :
    (c : Client) (read : ℕ → LoginResponse) (r : Fetched × Client)
    → KeepsSession c r.1
    → Agrees c (on_login read r)
on_login-Agrees c read (value v, d) h = on_response-Agrees c d (read v) h
on_login-Agrees c read (nothing, d) h = h
on_login-Agrees c read (failed e, d) h = h
on_login-Agrees c read (rejected, d) h = h

run_call-Agrees : (k : Call) (c : Client) → IsPaired c → Agrees c (run_call k c)
unfolding run_call
run_call-Agrees (registers api read) c h =
    unfold register in on_tokens-Agrees c read (api_fetch api c) (api_fetch-KeepsSession api c h)
run_call-Agrees (logs_in api read) c h =
    unfold login in on_login-Agrees c read (api_fetch api c) (api_fetch-KeepsSession api c h)
run_call-Agrees (answers_challenge api read) c h =
    unfold verify_mfa_challenge in
    on_tokens-Agrees c read (api_fetch api c) (api_fetch-KeepsSession api c h)
run_call-Agrees (logs_out api) c h =
    unfold logout clear in
    elim (Option-cases c.refresh) [
      | inl absent ↦ rw absent (refl, refl)
      | inr (token, e) ↦ rw e (refl, refl)
    ]
run_call-Agrees (fetches api) c h = api_fetch-KeepsSession api c h

-- Whatever the API answers to the calls of a client that has both tokens or none, requests that do not reach it, renewals that fail and
-- sign-outs that it refuses included: the client keeps both or none, and counts as signed in exactly if the last
-- sign-in that succeeded came after the last sign-out, or if it was signed in before and there was
-- neither.
pub run_calls-session :
    (ks : List Call) (c : Client)
    → IsPaired c
    → IsPaired (run_calls ks c).1
      × (is_logged_in (run_calls ks c).1 ≡ session (run_calls ks c).0 (is_logged_in c))
unfolding run_calls is_logged_in
run_calls-session [] c h = (h, refl)
run_calls-session (k ∷ ks) c h =
    let (paired, agrees) = run_call-Agrees k c h in
    let (paired', agrees') = run_calls-session ks (run_call k c).1 paired in
    (paired', agrees' ∙ ap (session (run_calls ks (run_call k c).1).0) agrees)
