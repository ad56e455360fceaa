-- ===== src/Tests/SharedRuns.antt =====
-- packages/shared/src/schemas on concrete bodies.
use omnia_note.Prelude.{◌≡◌, refl, true, none}
use omnia_note.Shared.Schemas.{
  Formats, RegisterInput, AcceptInviteInput, units, any_code, all_codes, password_schema,
  username_schema, register_schema, accept_invite_schema, login_schema,
}
use omnia_note.Shared.Credentials.{login_schema_admits}

abbrev lenient : Formats
lenient = record { is_email = λ s. true; is_uuid = λ s. true; is_datetime = λ s. true }

abbrev newcomer : RegisterInput
newcomer = record {
  email = "dee@a.b";
  username = "dee.d";
  password = "Correct4Horse";
  mobile_number = "+4912345678";
  account_name = none;
}

abbrev invitee : AcceptInviteInput
invitee = record { username = "eve_2"; password = "Battery9Staple"; mobile_number = "+4987654321" }

login_schema_admits_example :
    (login_schema (record { email_or_username = "dee.d"; password = "Correct4Horse" }) ≡ true)
    × (login_schema (record { email_or_username = "eve_2"; password = "Battery9Staple" }) ≡ true)
unfolding register_schema accept_invite_schema username_schema password_schema any_code all_codes
    units
login_schema_admits_example = login_schema_admits lenient newcomer invitee refl refl
