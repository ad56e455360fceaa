-- ===== src/World/Rows.antt =====
-- Rows of the tables of apps/api/prisma/schema.prisma, and the rest of the state.
use omnia_note.Prelude.{ℕ, String, Bool, Option, List}
use omnia_note.Shared.Enums.{ItemType, MfaMethod, StampType, AccountRole}
use omnia_note.Shared.Tiers.{AccountTier}

abbrev pub Uuid : Type 0
Uuid = ℕ

abbrev pub Token : Type 0
Token = ℕ

abbrev pub Digest : Type 0
Digest = ℕ

-- milliseconds since the epoch
abbrev pub Time : Type 0
Time = ℕ

pub record Account : Type 0 where
  pub id : Uuid
  pub name : Option String
  pub tier : AccountTier
  pub storage_used_bytes : ℕ
  pub created_at : Time

pub record User : Type 0 where
  pub id : Uuid
  pub account_id : Uuid
  pub email : String
  pub username : String
  pub password_hash : Digest
  pub mobile_number : String
  pub role : AccountRole
  pub is_platform_admin : Bool
  pub last_seen_at : Option Time
  pub last_known_country : Option String
  pub mfa_enabled : Bool
  pub mfa_preferred : Option MfaMethod
  pub mfa_totp_secret : Option Token
  pub created_at : Time

pub record Invite : Type 0 where
  pub id : Uuid
  pub account_id : Uuid
  pub email : String
  pub role : AccountRole
  pub token : Token
  pub invited_by_user_id : Uuid
  pub expires_at : Time
  pub accepted_at : Option Time

pub record MfaBackupCode : Type 0 where
  pub id : Uuid
  pub user_id : Uuid
  pub code_hash : Digest

pub record RefreshToken : Type 0 where
  pub id : Uuid
  pub user_id : Uuid
  pub token_hash : Digest
  pub expires_at : Time
  pub revoked_at : Option Time

pub record Location : Type 0 where
  pub id : Uuid
  pub account_id : Uuid
  pub name : String
  pub address : Option String

pub record Folder : Type 0 where
  pub id : Uuid
  pub location_id : Uuid
  pub parent_folder_id : Option Uuid
  pub name : String

pub record Spot : Type 0 where
  pub id : Uuid
  pub location_id : Uuid
  pub name : String

pub record Tag : Type 0 where
  pub id : Uuid
  pub account_id : Uuid
  pub name : String

pub data ObjectKind : Type 0 where
  original thumbnail : ObjectKind

-- `accounts/${accountId}/${kind}/${uuid}.${ext}`
pub record ObjectKey : Type 0 where
  pub account_id : Uuid
  pub kind : ObjectKind
  pub uuid : Uuid
  pub ext : String

pub record Item : Type 0 where
  pub id : Uuid
  pub account_id : Uuid
  pub location_id : Option Uuid
  pub folder_id : Option Uuid
  pub spot_id : Option Uuid
  pub type : ItemType
  pub title : String
  pub body : Option String
  pub storage_key : Option ObjectKey
  pub thumbnail_key : Option ObjectKey
  pub mime_type : Option String
  pub storage_bytes : ℕ
  pub stamps : List StampType
  pub is_favorite : Bool
  pub created_by_user_id : Uuid
  pub client_created_at : Time

pub record ItemTag : Type 0 where
  pub item_id : Uuid
  pub tag_id : Uuid

pub record NoteAttachment : Type 0 where
  pub note_item_id : Uuid
  pub attachment_item_id : Uuid

pub record ErrorLog : Type 0 where
  pub id : Uuid
  pub message : String
  pub stack : Option String
  pub path : String
  pub method : String
  pub status_code : ℕ
  pub user_id : Option Uuid
  pub account_id : Option Uuid
  pub created_at : Time

pub data SubscriptionStatus : Type 0 where
  active grace_period expired cancelled : SubscriptionStatus

pub record Subscription : Type 0 where
  pub id : Uuid
  pub account_id : Uuid
  pub tier : AccountTier
  pub status : SubscriptionStatus

-- The keys `mfa:challenge:…`, `mfa:otp:…` and `mfa:email-enroll:…`, and the values under them.
pub data RedisKey : Type 0 where
  challenge_key otp_key : Token → RedisKey
  email_enroll_key : Uuid → RedisKey

pub data RedisValue : Type 0 where
  payload : Uuid → MfaMethod → RedisValue
  digest : Digest → RedisValue

pub record RedisEntry : Type 0 where
  pub key : RedisKey
  pub value : RedisValue
  pub expires_at : Time

pub record Mail : Type 0 where
  pub to : String
  pub subject : String
  pub html : String

-- The part of EnvConfig that the modelled code reads.
pub record Config : Type 0 where
  pub app_url : String
  pub jwt_refresh_ttl : String
  pub resend_api_key : Option String

pub record World : Type 0 where
  pub accounts : List Account
  pub users : List User
  pub invites : List Invite
  pub backup_codes : List MfaBackupCode
  pub refresh_tokens : List RefreshToken
  pub locations : List Location
  pub folders : List Folder
  pub spots : List Spot
  pub tags : List Tag
  pub items : List Item
  pub item_tags : List ItemTag
  pub note_attachments : List NoteAttachment
  pub error_logs : List ErrorLog
  pub subscriptions : List Subscription
  pub redis : List RedisEntry
  pub objects : List ObjectKey
  -- the documents of the search index; each is the item that it was made from
  pub index : List Item
  pub mails : List Mail
  pub clock : Time
  pub config : Config
  -- whether Meilisearch completes a task, and Resend takes a mail, at this time
  pub meili_succeeds : Bool
  pub resend_succeeds : Bool

-- The random values and default ids that one request draws.
pub record Draws : Type 0 where
  pub row_id : Uuid
  pub account_row_id : Uuid
  pub refresh_row_id : Uuid
  pub salt : ℕ
  pub backup_salt : ℕ → ℕ
  pub invite_token : Token
  pub refresh_token : Token
  pub challenge_token : Token
  pub otp : ℕ
  pub totp_secret : Token
  pub backup_code : ℕ → String
  pub backup_id : ℕ → Uuid
  pub object_uuid : Uuid
  pub thumbnail_uuid : Uuid
  pub tag_id : String → Uuid
