-- ===== src/Shared/Schemas.antt =====
-- packages/shared/src/schemas: what a body must satisfy before a handler sees it. Emails, uuids and
-- dates are zod's tests, a parameter; a length counts UTF-16 units.
use omnia_note.Prelude.{
  ℕ, ◌+◌, String, Bool, true, false, ◌&&◌, ◌||◌, Option, none, some, List, [], ◌∷◌, ◌==◌, ltb, leb,
  codes, if◌then◌else◌,
}

-- z.string().email(), .uuid() and .datetime()
pub record Formats : Type 0 where
  pub is_email : String → Bool
  pub is_uuid : String → Bool
  pub is_datetime : String → Bool

abbrev pub units_of : List ℕ → ℕ
units_of [] = 0
units_of (c ∷ cs) = (if ltb c 0x10000 then 1 else 2) + units_of cs

-- `s.length`
unfoldable pub units : String → ℕ
units s = units_of (codes s)

abbrev pub between : ℕ → ℕ → String → Bool
between low high s = leb low (units s) && leb (units s) high

unfoldable pub any_code : (ℕ → Bool) → List ℕ → Bool
any_code p [] = false
any_code p (c ∷ cs) = p c || any_code p cs

unfoldable pub all_codes : (ℕ → Bool) → List ℕ → Bool
all_codes p [] = true
all_codes p (c ∷ cs) = p c && all_codes p cs

abbrev pub is_upper : ℕ → Bool
is_upper c = leb b'A' c && leb c b'Z'

abbrev pub is_lower : ℕ → Bool
is_lower c = leb b'a' c && leb c b'z'

abbrev pub is_digit : ℕ → Bool
is_digit c = leb b'0' c && leb c b'9'

abbrev pub is_username_code : ℕ → Bool
is_username_code c = is_lower c || is_upper c || is_digit c || c == b'_' || c == b'.' || c == b'-'

unfoldable pub password_schema : String → Bool
unfolding units any_code
password_schema s =
    leb 10 (units s)
    && any_code is_upper (codes s)
    && any_code is_lower (codes s)
    && any_code is_digit (codes s)

-- The username of a registration and of an accepted invite: the regular expression wants one code at
-- least, which the length gives.
unfoldable pub username_schema : String → Bool
unfolding units all_codes
username_schema s = between 3 32 s && all_codes is_username_code (codes s)

abbrev pub optional {ℓ} : {A : Type ℓ} → (A → Bool) → Option A → Bool
optional p none = true
optional p (some a) = p a

pub record RegisterInput : Type 0 where
  pub email : String
  pub username : String
  pub password : String
  pub mobile_number : String
  pub account_name : Option String

pub record LoginInput : Type 0 where
  pub email_or_username : String
  pub password : String

pub record AcceptInviteInput : Type 0 where
  pub username : String
  pub password : String
  pub mobile_number : String

module _ (formats : Formats) where
  unfoldable pub register_schema : RegisterInput → Bool
  unfolding username_schema password_schema
  register_schema input =
      formats.is_email input.email
      && username_schema input.username
      && password_schema input.password
      && between 8 20 input.mobile_number
      && optional (between 1 120) input.account_name

  unfoldable pub invite_teammate_schema : (email : String) → Bool
  invite_teammate_schema email = formats.is_email email

  unfoldable pub create_folder_schema :
      (name location_id : String) → (parent_folder_id : Option String) → Bool
  create_folder_schema name location_id parent_folder_id =
      between 1 120 name && formats.is_uuid location_id && optional formats.is_uuid parent_folder_id

  unfoldable pub create_spot_schema : (name location_id : String) → Bool
  create_spot_schema name location_id = between 1 120 name && formats.is_uuid location_id

unfoldable pub login_schema : LoginInput → Bool
login_schema input = leb 3 (units input.email_or_username) && leb 1 (units input.password)

unfoldable pub accept_invite_schema : AcceptInviteInput → Bool
unfolding username_schema password_schema
accept_invite_schema input =
    username_schema input.username
    && password_schema input.password
    && between 8 20 input.mobile_number

-- `z.string().length(6).regex(/^\d+$/)`
unfoldable pub code_schema : String → Bool
code_schema s = units s == 6 && all_codes is_digit (codes s)

unfoldable pub mfa_challenge_schema : (challenge_token code : String) → Bool
unfolding code_schema
mfa_challenge_schema challenge_token code = leb 1 (units challenge_token) && code_schema code

unfoldable pub refresh_token_schema : String → Bool
refresh_token_schema refresh_token = leb 1 (units refresh_token)

unfoldable pub create_location_schema : (name : String) → (address : Option String) → Bool
create_location_schema name address =
    between 1 120 name && optional (λ s. leb (units s) 240) address

unfoldable pub update_account_name_schema : (name : String) → Bool
update_account_name_schema name = between 1 120 name
