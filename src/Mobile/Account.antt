-- ===== src/Mobile/Account.antt =====
-- apps/mobile/src/lib/auth.ts: signing in and out, over the calls of apiClient.ts and the token store.
pub mod Sessions
use omnia_note.Prelude.{ℕ, Bool, true, false, Option, none, some, List, [], ◌∷◌, is_some}
use omnia_note.Mobile.ApiClient.{
  Token, Tokens, Api, Client, Fetched, value, nothing, failed, rejected, ApiError, set_tokens,
  clear, api_fetch,
}

-- LoginResponse
pub data LoginResponse : Type 0 where
  tokens : Tokens → LoginResponse
  mfa_required : (challenge_token : Token) → LoginResponse

-- What a call comes to; `thrown` is an error of the call: an ApiError, or the rejection of a `fetch` or of reading a body that is
-- not there.
pub data Outcome : Type 0 where
  signed_in : Tokens → Outcome
  challenged : (challenge_token : Token) → Outcome
  thrown : Option ApiError → Outcome
  signed_out : Outcome
  fetched : Fetched → Outcome

abbrev pub keep_tokens : Tokens → Client → Outcome × Client
keep_tokens t client = (signed_in t, set_tokens t client)

-- `register` and `verifyMfaChallenge`: the body of the answer is read as tokens.
abbrev pub on_tokens : (ℕ → Tokens) → Fetched × Client → Outcome × Client
on_tokens read (value v, client) = keep_tokens (read v) client
on_tokens read (nothing, client) = (thrown none, client)
on_tokens read (failed e, client) = (thrown (some e), client)
on_tokens read (rejected, client) = (thrown none, client)

unfoldable pub register : Api → (ℕ → Tokens) → Client → Outcome × Client
unfolding api_fetch set_tokens
register api read client = on_tokens read (api_fetch api client)

unfoldable pub verify_mfa_challenge : Api → (ℕ → Tokens) → Client → Outcome × Client
unfolding api_fetch set_tokens
verify_mfa_challenge api read client = on_tokens read (api_fetch api client)

abbrev pub on_response : LoginResponse → Client → Outcome × Client
on_response (tokens t) client = keep_tokens t client
on_response (mfa_required token) client = (challenged token, client)

abbrev pub on_login : (ℕ → LoginResponse) → Fetched × Client → Outcome × Client
on_login read (value v, client) = on_response (read v) client
on_login read (nothing, client) = (thrown none, client)
on_login read (failed e, client) = (thrown (some e), client)
on_login read (rejected, client) = (thrown none, client)

unfoldable pub login : Api → (ℕ → LoginResponse) → Client → Outcome × Client
unfolding api_fetch set_tokens
login api read client = on_login read (api_fetch api client)

-- The server is told only of a refresh token that there is, and its answer does not matter.
unfoldable pub logout : Api → Client → Outcome × Client
unfolding api_fetch clear
logout api client = elim client.refresh [
  | none ↦ (signed_out, clear client)
  | some token ↦ (signed_out, clear (api_fetch api client).1)
]

unfoldable pub is_logged_in : Client → Bool
is_logged_in client = is_some client.access

-- What the pages call, one after the other.
pub data Call : Type 0 where
  registers : Api → (ℕ → Tokens) → Call
  logs_in : Api → (ℕ → LoginResponse) → Call
  answers_challenge : Api → (ℕ → Tokens) → Call
  logs_out : Api → Call
  fetches : Api → Call

abbrev fetch : Fetched × Client → Outcome × Client
fetch (r, client) = (fetched r, client)

unfoldable pub run_call : Call → Client → Outcome × Client
unfolding register login verify_mfa_challenge logout api_fetch
run_call (registers api read) = register api read
run_call (logs_in api read) = login api read
run_call (answers_challenge api read) = verify_mfa_challenge api read
run_call (logs_out api) = logout api
run_call (fetches api) = λ client. fetch (api_fetch api client)

-- The outcomes, in order, and the client at the end.
unfoldable pub run_calls : List Call → Client → List Outcome × Client
unfolding run_call
run_calls [] client = ([], client)
run_calls (c ∷ cs) client =
    let (o, client') = run_call c client in let (os, last) = run_calls cs client' in (o ∷ os, last)
