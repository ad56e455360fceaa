-- ===== src/Tests/Fixtures.antt =====
-- A small state: an account with an owner and a member, another account, an item with a file.
use omnia_note.Prelude.{ℕ, ◌+◌, true, false, none, some, List, [], ◌∷◌, ◌==◌, codes}
use omnia_note.Shared.Enums.{photo, email, owner, member}
use omnia_note.Shared.Tiers.{free, basic}
use omnia_note.World.{
  Account, User, Invite, RefreshToken, Location, Folder, Item, original, thumbnail, ObjectKey,
  World, Draws, RedisKey, RedisValue, RedisEntry,
}
use omnia_note.Auth.{Crypto, Caller}

abbrev pub text_sum : List ℕ → ℕ
text_sum [] = 0
text_sum (c ∷ cs) = c + text_sum cs

abbrev pub toy_crypto : Crypto
toy_crypto = record {
  hash = λ salt text. text_sum (codes text);
  verify = λ digest text. digest == text_sum (codes text);
  sha256 = λ token. token + 1;
  sign = λ user_id account_id now. user_id + now;
  encrypt = λ iv secret. secret;
  decrypt = λ payload. some payload;
  totp_verify = λ code secret now. secret == text_sum (codes code);
  base64url = λ token. "token";
}

abbrev pub draws_from : ℕ → Draws
draws_from n = record {
  row_id = n;
  account_row_id = n + 1;
  refresh_row_id = n + 2;
  salt = n;
  backup_salt = λ i. n + 20 + i;
  invite_token = n + 3;
  refresh_token = n + 4;
  challenge_token = n + 5;
  otp = 123456;
  totp_secret = n + 6;
  backup_code = λ i. "code";
  backup_id = λ i. n + 10 + i;
  object_uuid = n + 7;
  thumbnail_uuid = n + 8;
  tag_id = λ name. n + text_sum (codes name);
}

abbrev pub first_draws : Draws
first_draws = draws_from 1000

abbrev pub second_draws : Draws
second_draws = draws_from 2000

abbrev pub plumber : Account
plumber = record { id = 1; name = none; tier = basic; storage_used_bytes = 100; created_at = 0 }

abbrev pub neighbour : Account
neighbour = record {
  id = 2;
  name = some "Neighbour";
  tier = free;
  storage_used_bytes = 1073741800;
  created_at = 0;
}

abbrev pub ann : User
ann = record {
  id = 10;
  account_id = 1;
  email = "ann@a.b";
  username = "ann";
  password_hash = text_sum (codes "pw");
  mobile_number = "+1";
  role = owner;
  is_platform_admin = false;
  last_seen_at = none;
  last_known_country = none;
  mfa_enabled = true;
  mfa_preferred = some email;
  mfa_totp_secret = none;
  created_at = 0;
}

abbrev pub bob : User
bob = record ann {
  id = 11;
  email = "bob@a.b";
  username = "bob";
  role = member;
  mfa_enabled = false;
  mfa_preferred = none;
}

abbrev pub cy : User
cy = record bob { id = 12; account_id = 2; email = "cy@a.b"; username = "cy"; role = owner }

abbrev pub pending : Invite
pending = record {
  id = 20;
  account_id = 1;
  email = "dee@a.b";
  role = member;
  token = 77;
  invited_by_user_id = 10;
  expires_at = 9000;
  accepted_at = none;
}

abbrev pub session : RefreshToken
session = record { id = 30; user_id = 11; token_hash = 501; expires_at = 8000; revoked_at = none }

abbrev pub cellar_shot : Item
cellar_shot = record {
  id = 50;
  account_id = 1;
  location_id = none;
  folder_id = none;
  spot_id = none;
  type = photo;
  title = "Cellar";
  body = none;
  storage_key = some (record { account_id = 1; kind = original; uuid = 60; ext = "jpg" });
  thumbnail_key = some (record { account_id = 1; kind = thumbnail; uuid = 61; ext = "jpg" });
  mime_type = none;
  storage_bytes = 0;
  stamps = [];
  is_favorite = false;
  created_by_user_id = 10;
  client_created_at = 5;
}

abbrev pub shop_key : ObjectKey
shop_key = record { account_id = 2; kind = original; uuid = 62; ext = "jpg" }

abbrev pub shop_shot : Item
shop_shot = record cellar_shot { id = 51; account_id = 2; storage_key = some shop_key }

abbrev pub house : Location
house = record { id = 40; account_id = 1; name = "House"; address = none }

abbrev pub attic : Folder
attic = record { id = 41; location_id = 40; parent_folder_id = none; name = "Attic" }

abbrev pub challenge : RedisEntry
challenge = record {
  key = RedisKey.challenge_key 70;
  value = RedisValue.payload 10 email;
  expires_at = 4000;
}

abbrev pub code : RedisEntry
code = record {
  key = RedisKey.otp_key 70;
  value = RedisValue.digest (text_sum (codes "123456"));
  expires_at = 4000;
}

abbrev pub today : World
today = record {
  accounts = plumber ∷ neighbour ∷ [];
  users = ann ∷ bob ∷ cy ∷ [];
  invites = pending ∷ [];
  backup_codes = [];
  refresh_tokens = session ∷ [];
  locations = house ∷ [];
  folders = attic ∷ [];
  spots = [];
  tags = [];
  items = cellar_shot ∷ shop_shot ∷ [];
  item_tags = [];
  note_attachments = [];
  error_logs = [];
  subscriptions = [];
  redis = challenge ∷ code ∷ [];
  objects = shop_key ∷ [];
  index = cellar_shot ∷ shop_shot ∷ [];
  mails = [];
  clock = 1000;
  config = record { app_url = "https://a.b"; jwt_refresh_ttl = "30d"; resend_api_key = none };
  meili_succeeds = true;
  resend_succeeds = true;
}

abbrev pub caller : Caller
caller = record { sub = 10; account_id = 1 }
