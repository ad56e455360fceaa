-- ===== src/Server/Stability.antt =====
-- What the requests of apps/api/src/auth/auth.controller.ts, which may open an account or change the second
-- factor of a user, keep of the users, the accounts and the items.
use omnia_note.Prelude.{
  String, ◌≡◌, refl, Bool, true, false, Option, none, some, List, ◌==◌, insert, update_first,
  delete_where, ◌++◌,
}
use omnia_note.Http.{
  Exception, Exec, Outcome, returned, thrown, after, state, ◌>>=◌, ◌>>◌, continue, or_throw, guard,
  gets, pure, modify, transaction, rollback,
}
use omnia_note.Shared.Tiers.{free}
use omnia_note.Shared.Enums.{MfaMethod}
use omnia_note.World.{
  RedisKey, RedisValue, MfaBackupCode, Token, Uuid, User, Account, Item, Location, Folder, Spot,
  World, Draws, get_user, create_user,
}
use omnia_note.Auth.{
  Crypto, register, create_owner, start_totp_enrollment, confirm_totp_enrollment,
  confirm_email_enrollment, enable_mfa, enabled,
}
use omnia_note.Auth.Controller.{
  Request, post_register, post_login, post_challenge, post_refresh, post_logout, get_me, post_totp,
  post_email, post_totp_verify, post_email_verify, handle, get_profile,
}
use omnia_note.Server.Frames.{
  Statement, Same, Frame, rows_unmoved, get_user-Frame, issue_tokens-Frame, refresh-Frame,
  logout-Frame, login-Frame, verify_mfa_challenge-Frame, start_email_enrollment-Frame,
  check_code-Frame, del-Frame,
}

-- A statement that holds on when a user joins, when an
-- account opens without files, when a user changes in neither role nor account, and when an account
-- is renamed.
pub record IsStable (Q : Statement) : Type 0 where
  pub joined :
      (u : User) (us : List User) (as' : List Account) (is : List Item) (ls : List Location)
      (fs : List Folder) (ss : List Spot)
      → Q us as' is ls fs ss
      → Q (insert u us) as' is ls fs ss
  pub opened :
      (a : Account) (us : List User) (as' : List Account) (is : List Item) (ls : List Location)
      (fs : List Folder) (ss : List Spot)
      → a.storage_used_bytes ≡ 0
      → Q us as' is ls fs ss
      → Q us (insert a as') is ls fs ss
  pub adjusted :
      (id : Uuid) (f : User → User) (us : List User) (as' : List Account) (is : List Item)
      (ls : List Location) (fs : List Folder) (ss : List Spot)
      → ((u : User) → ((f u).role ≡ u.role) × ((f u).account_id ≡ u.account_id))
      → Q us as' is ls fs ss
      → Q (update_first (λ u. u.id == id) f us) as' is ls fs ss
  pub renamed :
      (id : Uuid) (name : String) (us : List User) (as' : List Account) (is : List Item)
      (ls : List Location) (fs : List Folder) (ss : List Spot)
      → Q us as' is ls fs ss
      → Q us (update_first (λ a. a.id == id) (λ a. record a { name = some name }) as') is ls fs ss

module _ (Q : Statement) (stable : IsStable Q) where
  abbrev pub On : World → Type 0
  On w = Q w.users w.accounts w.items w.locations w.folders w.spots

  pub Same-On : (w v : World) → Same w v → On w → On v
  Same-On w v (us, as', is, ls, fs, ss) h = rw (us, as', is, ls, fs, ss) h

  -- However the handler ends.
  pub data Keeps {A : Type 0} (m : Exec World A) : Type 0 where
    keeps : ((w : World) → On w → On (after m w)) → Keeps m

  pub keeps_at : {A : Type 0} {m : Exec World A} → Keeps m → (w : World) → On w → On (after m w)
  keeps_at (keeps h) = h

  pub Frame-Keeps : {A : Type 0} {m : Exec World A} → Frame m → Keeps m
  Frame-Keeps {m} h = keeps (λ w. Same-On w (after m w) (rows_unmoved h w))

  continue-On :
      {A B : Type 0} (o : Outcome World A) (f : A → Exec World B)
      → On (state o)
      → ((a : A) → Keeps (f a))
      → On (state (continue o f))
  continue-On (returned a v) f h k = keeps_at (k a) v h
  continue-On (thrown e v) f h k = h

  pub bind-Keeps :
      {A B : Type 0} {m : Exec World A} {f : A → Exec World B}
      → Keeps m
      → ((a : A) → Keeps (f a))
      → Keeps (m >>= f)
  bind-Keeps {m} {f} (keeps h) k = keeps (λ w p. continue-On (m w) f (h w p) k)

  pub then-Keeps :
      {A B : Type 0} {m : Exec World A} {n : Exec World B} → Keeps m → Keeps n → Keeps (m >> n)
  then-Keeps h k = bind-Keeps h (λ _. k)

  pub gets-Keeps : {A : Type 0} (f : World → A) → Keeps (gets f)
  gets-Keeps f = keeps (λ w p. p)

  pub pure-Keeps : {A : Type 0} (a : A) → Keeps (pure a)
  pure-Keeps a = keeps (λ w p. p)

  or_throw-On :
      {A : Type 0} (e : Exception) (o : Option A) (w : World) → On w → On (after (or_throw e o) w)
  or_throw-On e none w p = p
  or_throw-On e (some a) w p = p

  pub or_throw-Keeps : {A : Type 0} (e : Exception) (o : Option A) → Keeps (or_throw e o)
  or_throw-Keeps e o = keeps (or_throw-On e o)

  guard-On : (b : Bool) (e : Exception) (w : World) → On w → On (after (guard b e) w)
  guard-On true e w p = p
  guard-On false e w p = p

  pub guard-Keeps : (b : Bool) (e : Exception) → Keeps (guard b e)
  guard-Keeps b e = keeps (guard-On b e)

  rollback-On :
      {A : Type 0} (w : World) (o : Outcome World A)
      → On w
      → On (state o)
      → On (state (rollback w o))
  rollback-On w (returned a v) p q = q
  rollback-On w (thrown e v) p q = p

  pub transaction-Keeps : {A : Type 0} {m : Exec World A} → Keeps m → Keeps (transaction m)
  transaction-Keeps {m} (keeps h) = keeps (λ w p. rollback-On w (m w) p (h w p))

  pub get_user-Keeps : (id : Uuid) → Keeps (get_user id)
  get_user-Keeps id = Frame-Keeps (get_user-Frame id)

  pub join-Keeps : (u : User) → Keeps (modify (λ s. record s { users = insert u s.users }))
  join-Keeps u =
      keeps (λ w p. stable.joined u w.users w.accounts w.items w.locations w.folders w.spots p)

  pub ruleset kept = (
    bind-Keeps, then-Keeps, gets-Keeps, pure-Keeps, or_throw-Keeps, guard-Keeps, transaction-Keeps,
    get_user-Keeps, join-Keeps,
  )

  pub create_user-Keeps : (u : User) → Keeps (create_user u)
  unfolding create_user
  create_user-Keeps u = search kept

  open-Keeps :
      (id : Uuid) (name : Option String)
      → Keeps (
          modify (λ s. record s {
            accounts =
                insert
                  (record {
                    id = id;
                    name = name;
                    tier = free;
                    storage_used_bytes = 0;
                    created_at = s.clock;
                  })
                  s.accounts;
          }))
  open-Keeps id name =
      keeps (λ w p. stable.opened _ w.users w.accounts w.items w.locations w.folders w.spots refl p)

  module _ (c : Crypto) (draws : Draws) where
    create_owner-Keeps :
        (email username password mobile_number : String) (account_name : Option String)
        → Keeps (create_owner c draws email username password mobile_number account_name)
    create_owner-Keeps email username password mobile_number account_name =
        search (kept, open-Keeps, create_user-Keeps)

    register-Keeps :
        (email username password mobile_number : String) (account_name : Option String)
        → Keeps (register c draws email username password mobile_number account_name)
    unfolding register
    register-Keeps email username password mobile_number account_name =
        let issued = λ (id : Uuid). Frame-Keeps (issue_tokens-Frame c draws id) in
        search (kept, create_owner-Keeps, issued)

    mfa_on-Keeps :
        (id : Uuid) (m : MfaMethod) (rows : List MfaBackupCode)
        → Keeps (
            modify (λ s. record s {
              users = update_first (λ u. u.id == id) (enabled c m) s.users;
              backup_codes = delete_where (λ b. b.user_id == id) s.backup_codes ++ rows;
            }))
    mfa_on-Keeps id m rows = keeps (λ w p.
        stable.adjusted id (enabled c m) w.users w.accounts w.items w.locations w.folders w.spots
          (λ v. (refl, refl)) p)

    enable_mfa-Keeps : (id : Uuid) (m : MfaMethod) → Keeps (enable_mfa c draws id m)
    unfolding enable_mfa
    enable_mfa-Keeps id m = search (kept, mfa_on-Keeps)

    secret_set-Keeps :
        (id : Uuid) (secret : Option Token)
        → Keeps (
            modify (λ s. record s {
              users =
                  update_first
                    (λ u. u.id == id)
                    (λ u. record u { mfa_totp_secret = secret })
                    s.users;
            }))
    secret_set-Keeps id secret = keeps (λ w p.
        stable.adjusted id (λ u. record u { mfa_totp_secret = secret }) w.users w.accounts w.items
          w.locations w.folders w.spots (λ v. (refl, refl)) p)

    start_totp_enrollment-Keeps : (id : Uuid) → Keeps (start_totp_enrollment c draws id)
    unfolding start_totp_enrollment
    start_totp_enrollment-Keeps id = search (kept, secret_set-Keeps)

    confirm_totp_enrollment-Keeps :
        (id : Uuid) (code : String) → Keeps (confirm_totp_enrollment c draws id code)
    unfolding confirm_totp_enrollment
    confirm_totp_enrollment-Keeps id code = search (kept, enable_mfa-Keeps) depth 12

    confirm_email_enrollment-Keeps :
        (id : Uuid) (code : String) → Keeps (confirm_email_enrollment c draws id code)
    unfolding confirm_email_enrollment
    confirm_email_enrollment-Keeps id code =
        let checked = λ (o : Option RedisValue). Frame-Keeps (check_code-Frame c draws o code) in
        let deleted = λ (k : RedisKey). Frame-Keeps (del-Frame k) in
        search (kept, checked, deleted, enable_mfa-Keeps)

    -- Whatever the request about sessions and the second factor.
    pub auth_handle-Keeps : (r : Request) → Keeps (handle c draws r)
    unfolding handle get_profile
    auth_handle-Keeps (post_register email username password mobile_number account_name) =
        search (kept, register-Keeps)
    auth_handle-Keeps (post_login name password) =
        search (kept, Frame-Keeps (login-Frame c draws name password))
    auth_handle-Keeps (post_challenge token code) =
        search (kept, Frame-Keeps (verify_mfa_challenge-Frame c draws token code))
    auth_handle-Keeps (post_refresh token) =
        search (kept, Frame-Keeps (refresh-Frame c draws token))
    auth_handle-Keeps (post_logout token) = search (kept, Frame-Keeps (logout-Frame c draws token))
    auth_handle-Keeps (get_me user) = search kept
    auth_handle-Keeps (post_totp user) = search (kept, start_totp_enrollment-Keeps)
    auth_handle-Keeps (post_totp_verify user code) = search (kept, confirm_totp_enrollment-Keeps)
    auth_handle-Keeps (post_email user) =
        search (kept, Frame-Keeps (start_email_enrollment-Frame c draws user.sub))
    auth_handle-Keeps (post_email_verify user code) = search (kept, confirm_email_enrollment-Keeps)
