-- ===== src/Tests/SettingsRuns.antt =====
-- apps/mobile/src/pages/SettingsPage.tsx: a code that was sent by email is submitted.
use omnia_note.Prelude.{String, true, false, some, none, List, [], ◌∷◌, codes}
use omnia_note.Http.{Exception}
use omnia_note.Shared.Enums.{member, email}
use omnia_note.World.{World, RedisKey, RedisValue}
use omnia_note.Redis
use omnia_note.Auth.{backup_codes, backup_code_count}
use omnia_note.Auth.Controller.{Profile}
use omnia_note.Mobile.Settings.{System, email_verify, submit_code}
use omnia_note.Tests.Fixtures.{toy_crypto, first_draws, today, text_sum}

abbrev with_code : World
with_code = record today {
  redis =
      record {
        key = RedisKey.email_enroll_key 11;
        value = RedisValue.digest (text_sum (codes "123456"));
        expires_at = 4000;
      }
      ∷ [];
}

abbrev bobs_profile : Profile
bobs_profile = record {
  id = 11;
  email = "bob@a.b";
  username = "bob";
  mobile_number = "+1";
  role = member;
  mfa_enabled = false;
  mfa_preferred = none;
}

abbrev waiting : System
waiting = record {
  page = record {
    profile = some bobs_profile;
    step = email_verify;
    code = "123456";
    form_error = none;
  };
  world = with_code;
}

abbrev told : Exception → String
told e = "Incorrect code"

abbrev submitted : System
submitted = submit_code told toy_crypto first_draws 11 waiting

abbrev new_codes : List String
new_codes = backup_codes toy_crypto first_draws backup_code_count

abbrev new_profile : Profile
new_profile = record bobs_profile { mfa_enabled = true; mfa_preferred = some email }
