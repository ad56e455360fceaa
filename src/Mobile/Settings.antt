-- ===== src/Mobile/Settings.antt =====
-- apps/mobile/src/pages/SettingsPage.tsx: turning on the second factor, with the answers of
-- apps/api/src/auth/mfa-enrollment.service.ts. One request at a time.
pub mod Enrolling
use omnia_note.Prelude.{String, Bool, true, false, Option, none, some, List}
use omnia_note.Http.{Exception, Outcome, returned, thrown}
use omnia_note.Shared.Enums.{MfaMethod, totp, email}
use omnia_note.World.{Uuid, Token, World, Draws}
use omnia_note.Auth.{
  Crypto, start_totp_enrollment, confirm_totp_enrollment, start_email_enrollment,
  confirm_email_enrollment,
}
use omnia_note.Auth.Controller.{Profile, get_profile}

-- Step; the QR code is left out.
pub data SettingsStep : Type 0 where
  loading overview choose email_verify : SettingsStep
  failed_to_load : (message : String) → SettingsStep
  totp_verify : (secret : Token) → SettingsStep
  backup_codes_shown : List String → MfaMethod → SettingsStep

pub record Settings : Type 0 where
  pub profile : Option Profile
  pub step : SettingsStep
  pub code : String
  pub form_error : Option String

pub record System : Type 0 where
  pub page : Settings
  pub world : World

-- `err.message`
module _ (message : Exception → String) where
  abbrev pub refused : Settings → Exception → Settings
  refused p e = record p { form_error = some (message e) }

  abbrev on_loaded : Settings → Outcome World Profile → System
  on_loaded p (returned profile w) = record {
    page = record p { profile = some profile; step = overview };
    world = w;
  }
  on_loaded p (thrown e w) = record {
    page = record p { step = failed_to_load (message e) };
    world = w;
  }

  unfoldable pub load : Uuid → System → System
  unfolding get_profile
  load user_id s = on_loaded s.page (get_profile user_id s.world)

  abbrev on_totp : Settings → Outcome World Token → System
  on_totp p (returned secret w) = record {
    page = record p { step = totp_verify secret };
    world = w;
  }
  on_totp p (thrown e w) = record { page = refused p e; world = w }

  unfoldable pub begin_totp : Crypto → Draws → Uuid → System → System
  unfolding start_totp_enrollment
  begin_totp c draws user_id s =
      on_totp (record s.page { form_error = none }) (start_totp_enrollment c draws user_id s.world)

  abbrev on_email : Settings → Outcome World (Unit {0}) → System
  on_email p (returned sent w) = record { page = record p { step = email_verify }; world = w }
  on_email p (thrown e w) = record { page = refused p e; world = w }

  unfoldable pub begin_email : Crypto → Draws → Uuid → System → System
  unfolding start_email_enrollment
  begin_email c draws user_id s =
      on_email (record s.page { form_error = none })
        (start_email_enrollment c draws user_id s.world)

  abbrev pub on_confirmed : MfaMethod → Settings → Outcome World (List String) → System
  on_confirmed method p (returned codes w) = record {
    page = record p { step = backup_codes_shown codes method };
    world = w;
  }
  on_confirmed method p (thrown e w) = record { page = refused p e; world = w }

  abbrev pub submit_at : Crypto → Draws → Uuid → SettingsStep → System → System
  submit_at c draws user_id (totp_verify secret) s =
      on_confirmed totp (record s.page { form_error = none })
        (confirm_totp_enrollment c draws user_id s.page.code s.world)
  submit_at c draws user_id email_verify s =
      on_confirmed email (record s.page { form_error = none })
        (confirm_email_enrollment c draws user_id s.page.code s.world)
  submit_at c draws user_id _ s = s

  unfoldable pub submit_code : Crypto → Draws → Uuid → System → System
  unfolding confirm_totp_enrollment confirm_email_enrollment
  submit_code c draws user_id s = submit_at c draws user_id s.page.step s

abbrev finished : SettingsStep → Option Profile → Option Profile
finished (backup_codes_shown codes method) (some profile) =
    some (record profile { mfa_enabled = true; mfa_preferred = some method })
finished _ profile = profile

unfoldable pub finish_backup_codes : Settings → Settings
finish_backup_codes p = record p { profile = finished p.step p.profile; code = ""; step = overview }
