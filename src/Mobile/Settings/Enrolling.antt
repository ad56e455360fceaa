-- ===== src/Mobile/Settings/Enrolling.antt =====
-- apps/mobile/src/pages/SettingsPage.tsx: what the page shows after an enrollment against what the server has stored.
use omnia_note.Prelude.{String, Bool, true, false, ◌≡◌, List, ◌==◌, update_first, select}
use omnia_note.Redis
use omnia_note.Shared.Enums.{MfaMethod}
use omnia_note.World.{Uuid, MfaBackupCode, World, Draws}
use omnia_note.Auth.{Crypto, backup_codes, backup_rows, backup_code_count, enabled}
use omnia_note.Mobile.Settings.{SettingsStep, email_verify, totp_verify, Settings}

abbrev of_user : Uuid → MfaBackupCode → Bool
of_user id b = b.user_id == id

-- The method is on for the user, and the codes are the user's only ones, stored by their hashes.
pub record IsEnrolled (c : Crypto) (draws : Draws) (id : Uuid) (m : MfaMethod) (codes : List String)
    (w v : World) : Type 0 where
  pub codes_drawn : codes ≡ backup_codes c draws backup_code_count
  pub users : v.users ≡ update_first (λ u. u.id == id) (enabled c m) w.users
  pub rows : select (of_user id) v.backup_codes ≡ backup_rows c draws id backup_code_count

-- The page waits for a code.
abbrev pub is_verifying : SettingsStep → Bool
is_verifying (totp_verify secret) = true
is_verifying email_verify = true
is_verifying _ = false
