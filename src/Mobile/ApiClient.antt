-- ===== src/Mobile/ApiClient.antt =====
-- apps/mobile/src/lib/apiClient.ts and tokenStore.ts: a request to the API, with one retry after the
-- tokens were refreshed. One call at a time: calls that share a refresh in flight are not modelled.
use omnia_note.Prelude.{
  ℕ, String, Bool, true, false, not, ◌&&◌, Option, none, some, List, ◌==◌, ltb, leb, insert,
  if◌then◌else◌,
}

abbrev pub Token : Type 0
Token = ℕ

-- A response: its status, the `message` of a body that is JSON, and the value that it carries.
pub record Reply : Type 0 where
  pub status : ℕ
  pub error_text : Option String
  pub value : ℕ

pub record Tokens : Type 0 where
  pub access : Token
  pub refresh : Token

-- The answer to a refresh: new tokens, a response that is not ok, or a `fetch` that rejects.
pub data Renewal : Type 0 where
  renewed : Tokens → Renewal
  denied : Renewal
  unreachable : Renewal

-- What the API answers to the first and to the second attempt, given the access token that it bears, and
-- to a refresh; `none` is a `fetch` that rejects.
pub record Api : Type 0 where
  pub first : Option Token → Option Reply
  pub second : Option Token → Option Reply
  pub renew : Token → Renewal

-- The token store, and what the client has sent: the access tokens of its requests, in order, and the
-- refresh tokens.
pub record Client : Type 0 where
  pub access : Option Token
  pub refresh : Option Token
  pub sent : List (Option Token)
  pub renewals : List Token

-- ApiError
pub record ApiError : Type 0 where
  pub status : ℕ
  pub message : String

pub data Fetched : Type 0 where
  value : ℕ → Fetched
  -- a 204
  nothing : Fetched
  failed : ApiError → Fetched
  -- the rejection of a `fetch` goes on to the caller
  rejected : Fetched

abbrev pub is_ok : ℕ → Bool
is_ok status = leb 200 status && ltb status 300

-- `body.message ?? "Request failed"`
abbrev text_or : Option String → String
text_or none = "Request failed"
text_or (some m) = m

unfoldable pub set_tokens : Tokens → Client → Client
set_tokens t client = record client { access = some t.access; refresh = some t.refresh }

unfoldable pub clear : Client → Client
clear client = record client { access = none; refresh = none }

-- Whether the tokens were refreshed; `none` if the `fetch` rejects.
abbrev pub on_renewal : Renewal → Client → Option Bool × Client
on_renewal (renewed t) client = (some true, set_tokens t client)
on_renewal denied client = (some false, client)
on_renewal unreachable client = (none, client)

unfoldable pub refresh_tokens : Api → Client → Option Bool × Client
unfolding set_tokens
refresh_tokens api client = elim client.refresh [
  | none ↦ (some false, client)
  | some token ↦
      on_renewal (api.renew token) (record client { renewals = insert token client.renewals })
]

abbrev pub finish : Reply → Fetched
finish r =
    if not (is_ok r.status)
    then failed (record { status = r.status; message = text_or r.error_text })
    else if r.status == 204
    then nothing
    else value r.value

abbrev pub finish_call : Option Reply → Fetched
finish_call none = rejected
finish_call (some r) = finish r

abbrev pub send : Client → Client
send client = record client { sent = insert client.access client.sent }

-- The call with `_retried`.
unfoldable pub api_fetch_again : Api → Client → Fetched × Client
api_fetch_again api client = (finish_call (api.second client.access), send client)

abbrev pub retry_if : Api → Reply → Option Bool × Client → Fetched × Client
retry_if api reply (some true, client) = api_fetch_again api client
retry_if api reply (some false, client) = (finish reply, client)
retry_if api reply (none, client) = (rejected, client)

abbrev pub after_reply : Api → Option Reply → Client → Fetched × Client
after_reply api none client = (rejected, client)
after_reply api (some reply) client =
    if reply.status == 401
    then retry_if api reply (refresh_tokens api client)
    else (finish reply, client)

unfoldable pub api_fetch : Api → Client → Fetched × Client
unfolding refresh_tokens api_fetch_again
api_fetch api client = after_reply api (api.first client.access) (send client)
