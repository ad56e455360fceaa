-- ===== src/Server/Frames.antt =====
-- What the requests of apps/api/src/auth/auth.controller.ts leave alone.
use omnia_note.Prelude.{
  ℕ, String, ◌≡◌, refl, ◌∙◌, Bool, true, false, Option, none, some, List, arith, inl, inr,
  Option-cases, if◌then◌else◌,
}
use omnia_note.Http.{
  Exception, Exec, Outcome, returned, thrown, after, state, ◌>>=◌, ◌>>◌, continue, or_throw, gets,
  pure, modify,
}
use omnia_note.Redis
use omnia_note.Shared.Enums.{MfaMethod, totp, sms, email, is_totp}
use omnia_note.World.{
  Uuid, Token, User, Account, Item, Location, Folder, Spot, World, Draws, RedisValue, RedisKey,
  find_user, get_user,
}
use omnia_note.Notifications.{send_email, send_otp_code}
use omnia_note.Auth.{
  Crypto, issue_tokens, refresh, logout, login, second_step, verify_mfa_challenge, verify_code,
  verify_otp, check_code, get_challenge, consume_challenge, create_challenge,
  send_otp_for_challenge, send_code_by, store_and_send, send_code, signed_in, challenged,
  start_email_enrollment,
}

-- A statement about the users, the accounts, the items, the locations, the folders and the spots.
abbrev pub Statement : Type 1
Statement = List User → List Account → List Item → List Location → List Folder → List Spot → Type 0

-- All of these rows are as before.
abbrev pub Same : World → World → Type 0
Same w v =
    (v.users ≡ w.users)
    × (v.accounts ≡ w.accounts)
    × (v.items ≡ w.items)
    × (v.locations ≡ w.locations)
    × (v.folders ≡ w.folders)
    × (v.spots ≡ w.spots)

Same-trans : (w v u : World) → Same w v → Same v u → Same w u
Same-trans w v u (a, b, c, d, e, f) (a', b', c', d', e', f') =
    (a' ∙ a, b' ∙ b, c' ∙ c, d' ∙ d, e' ∙ e, f' ∙ f)

-- However the handler ends.
pub data Frame {A : Type 0} (m : Exec World A) : Type 0 where
  frame : ((w : World) → Same w (after m w)) → Frame m

pub rows_unmoved : {A : Type 0} {m : Exec World A} → Frame m → (w : World) → Same w (after m w)
rows_unmoved (frame h) = h

continue-Same :
    {A B : Type 0} (w : World) (o : Outcome World A) (f : A → Exec World B)
    → Same w (state o)
    → ((a : A) → Frame (f a))
    → Same w (state (continue o f))
continue-Same w (returned a v) f h k = Same-trans w v (after (f a) v) h (rows_unmoved (k a) v)
continue-Same w (thrown e v) f h k = h

pub bind-Frame :
    {A B : Type 0} {m : Exec World A} {f : A → Exec World B}
    → Frame m
    → ((a : A) → Frame (f a))
    → Frame (m >>= f)
bind-Frame {m} {f} (frame h) k = frame (λ w. continue-Same w (m w) f (h w) k)

pub then-Frame :
    {A B : Type 0} {m : Exec World A} {n : Exec World B} → Frame m → Frame n → Frame (m >> n)
then-Frame h k = bind-Frame h (λ _. k)

if-Same :
    {A : Type 0} (w : World) (b : Bool) (o p : Outcome World A)
    → Same w (state o)
    → Same w (state p)
    → Same w (state (if b then o else p))
if-Same w true o p h k = h
if-Same w false o p h k = k

pub gets-Frame : {A : Type 0} (f : World → A) → Frame (gets f)
gets-Frame f = frame (λ w. (refl, refl, refl, refl, refl, refl))

pub pure-Frame : {A : Type 0} (a : A) → Frame (pure a)
pure-Frame a = frame (λ w. (refl, refl, refl, refl, refl, refl))

or_throw-Same :
    {A : Type 0} (e : Exception) (o : Option A) (w : World) → Same w (after (or_throw e o) w)
or_throw-Same e none w = (refl, refl, refl, refl, refl, refl)
or_throw-Same e (some a) w = (refl, refl, refl, refl, refl, refl)

pub or_throw-Frame : {A : Type 0} (e : Exception) (o : Option A) → Frame (or_throw e o)
or_throw-Frame e o = frame (or_throw-Same e o)

pub get_user-Frame : (id : Uuid) → Frame (get_user id)
get_user-Frame id = frame (λ w. or_throw-Same _ (find_user id w) w)

pub set_with_ttl-Frame :
    (key : RedisKey) (value : RedisValue) (seconds : ℕ)
    → Frame (modify (Redis.set_with_ttl key value seconds))
unfolding Redis.set_with_ttl
set_with_ttl-Frame key value seconds = frame (λ w. (refl, refl, refl, refl, refl, refl))

pub del-Frame : (key : RedisKey) → Frame (modify (Redis.del key))
unfolding Redis.del
del-Frame key = frame (λ w. (refl, refl, refl, refl, refl, refl))

pub ruleset frames = (
  bind-Frame, then-Frame, gets-Frame, pure-Frame, or_throw-Frame, get_user-Frame,
  set_with_ttl-Frame, del-Frame,
)

send_otp_code-Frame :
    (method : MfaMethod) (destination code : String) → Frame (send_otp_code method destination code)
unfolding send_otp_code send_email
send_otp_code-Frame method destination code = frame (λ w. ground arith)

get_challenge-Same : (token : Token) (w : World) → Same w (after (get_challenge token) w)
unfolding get_challenge
get_challenge-Same token w = elim (Option-cases (Redis.get (RedisKey.challenge_key token) w)) [
  | inl gone ↦ rw gone (refl, refl, refl, refl, refl, refl)
  | inr (RedisValue.payload id method, e) ↦ rw e (refl, refl, refl, refl, refl, refl)
  | inr (RedisValue.digest d, e) ↦ rw e (refl, refl, refl, refl, refl, refl)
]

get_challenge-Frame : (token : Token) → Frame (get_challenge token)
get_challenge-Frame token = frame (get_challenge-Same token)

module _ (c : Crypto) (draws : Draws) where
  pub issue_tokens-Frame : (id : Uuid) → Frame (issue_tokens c draws id)
  unfolding issue_tokens
  issue_tokens-Frame id = frame (λ w. ground arith)

  pub refresh-Frame : (raw : Token) → Frame (refresh c draws raw)
  unfolding refresh issue_tokens
  refresh-Frame raw = frame (λ w. ground arith)

  pub logout-Frame : (raw : Token) → Frame (logout c raw)
  unfolding logout
  logout-Frame raw = frame (λ w. (refl, refl, refl, refl, refl, refl))

  code_sent-Frame :
      (token : Token) (destination : String) (method : MfaMethod)
      → Frame (store_and_send c draws token destination method)
  code_sent-Frame token destination method = search (frames, send_otp_code-Frame)

  send_code-Frame :
      (token : Token) (destination : String) (method : MfaMethod)
      → Frame (send_code c draws token destination method)
  send_code-Frame token destination method = frame (λ w.
      if-Same w (is_totp method) _ _ (refl, refl, refl, refl, refl, refl)
        (rows_unmoved (code_sent-Frame token destination method) w))

  send_otp_for_challenge-Frame :
      (token : Token) (destination : String)
      → Frame (send_otp_for_challenge c draws token destination)
  unfolding send_otp_for_challenge
  send_otp_for_challenge-Frame token destination =
      search (frames, get_challenge-Frame, send_code-Frame)

  send_code_by-Same :
      (token : Token) (u : User) (m : MfaMethod) (w : World)
      → Same w (after (send_code_by c draws token u m) w)
  send_code_by-Same token u totp w = (refl, refl, refl, refl, refl, refl)
  send_code_by-Same token u sms w =
      rows_unmoved (send_otp_for_challenge-Frame token u.mobile_number) w
  send_code_by-Same token u email w = rows_unmoved (send_otp_for_challenge-Frame token u.email) w

  send_code_by-Frame :
      (token : Token) (u : User) (m : MfaMethod) → Frame (send_code_by c draws token u m)
  send_code_by-Frame token u m = frame (send_code_by-Same token u m)

  create_challenge-Frame : (id : Uuid) (m : MfaMethod) → Frame (create_challenge draws id m)
  unfolding create_challenge
  create_challenge-Frame id m = search frames

  signed_in-Frame : (u : User) → Frame (signed_in c draws u)
  signed_in-Frame u = search (frames, issue_tokens-Frame)

  challenged-Frame : (u : User) (m : MfaMethod) → Frame (challenged c draws u m)
  challenged-Frame u m = search (frames, create_challenge-Frame, send_code_by-Frame)

  second_step-Frame : (u : User) → Frame (second_step c draws u)
  unfolding second_step
  second_step-Frame u = frame (λ w.
      if-Same w u.mfa_enabled _ _
        (elim (Option-cases u.mfa_preferred) [
          | inl unset ↦ rw unset (rows_unmoved (signed_in-Frame u) w)
          | inr (m, e) ↦ rw e (rows_unmoved (challenged-Frame u m) w)
        ])
        (rows_unmoved (signed_in-Frame u) w))

  pub login-Frame : (name password : String) → Frame (login c draws name password)
  unfolding login
  login-Frame name password = search (frames, second_step-Frame)

  check_code-Same :
      (stored : Option RedisValue) (code : String) (w : World)
      → Same w (after (check_code c stored code) w)
  unfolding check_code
  check_code-Same none code w = (refl, refl, refl, refl, refl, refl)
  check_code-Same (some (RedisValue.payload id method)) code w =
      (refl, refl, refl, refl, refl, refl)
  check_code-Same (some (RedisValue.digest d)) code w = ground arith

  pub check_code-Frame :
      (stored : Option RedisValue) (code : String) → Frame (check_code c stored code)
  check_code-Frame stored code = frame (check_code-Same stored code)

  verify_otp-Frame : (token : Token) (code : String) → Frame (verify_otp c token code)
  unfolding verify_otp
  verify_otp-Frame token code = search (frames, check_code-Frame)

  verify_code-Same :
      (token : Token) (code : String) (id : Uuid) (m : MfaMethod) (w : World)
      → Same w (after (verify_code c token code id m) w)
  unfolding verify_code
  verify_code-Same token code id totp w = ground arith
  verify_code-Same token code id sms w = rows_unmoved (verify_otp-Frame token code) w
  verify_code-Same token code id email w = rows_unmoved (verify_otp-Frame token code) w

  verify_code-Frame :
      (token : Token) (code : String) (id : Uuid) (m : MfaMethod)
      → Frame (verify_code c token code id m)
  verify_code-Frame token code id m = frame (verify_code-Same token code id m)

  pub verify_mfa_challenge-Frame :
      (token : Token) (code : String) → Frame (verify_mfa_challenge c draws token code)
  unfolding verify_mfa_challenge consume_challenge
  verify_mfa_challenge-Frame token code =
      search (frames, get_challenge-Frame, verify_code-Frame, issue_tokens-Frame)

  pub start_email_enrollment-Frame : (id : Uuid) → Frame (start_email_enrollment c draws id)
  unfolding start_email_enrollment
  start_email_enrollment-Frame id = search (frames, send_otp_code-Frame)
