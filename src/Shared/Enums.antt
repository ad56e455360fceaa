-- ===== src/Shared/Enums.antt =====
-- packages/shared/src/enums.ts. The tests are the `===` and the `includes` that the code makes.
use omnia_note.Prelude.{Bool, true, false}

pub data ItemType : Type 0 where
  photo video pdf note : ItemType

pub data SyncStatus : Type 0 where
  queued uploading synced failed : SyncStatus

pub data MfaMethod : Type 0 where
  totp sms email : MfaMethod

pub data StampType : Type 0 where
  leak electrical safety_hazard parts_needed fixed : StampType

pub data AccountRole : Type 0 where
  owner admin member : AccountRole

abbrev pub is_owner : AccountRole → Bool
is_owner owner = true
is_owner _ = false

abbrev pub is_member : AccountRole → Bool
is_member member = true
is_member _ = false

abbrev pub is_note : ItemType → Bool
is_note note = true
is_note _ = false

abbrev pub is_totp : MfaMethod → Bool
is_totp totp = true
is_totp _ = false

abbrev pub is_sms : MfaMethod → Bool
is_sms sms = true
is_sms _ = false
