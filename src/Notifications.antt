-- ===== src/Notifications.antt =====
-- apps/api/src/notifications/notification.service.ts. The mails that Resend took stand in `mails`;
-- what only goes to the log leaves no trace in the state.
pub mod Escaping
use omnia_note.Prelude.{
  Bool, false, not, Option, str_eq, String, none, some, [], ◌∷◌, insert, concat, replace_all,
  if◌then◌else◌,
}
use omnia_note.Http.{returned, thrown, Exec, internal_error}
use omnia_note.Shared.Enums.{MfaMethod, is_sms}
use omnia_note.World.{World}

unfoldable pub escape_html : String → String
escape_html value = replace_all b'\'' "&#39;" (
    replace_all b'"' "&quot;"
      (replace_all b'>' "&gt;" (replace_all b'<' "&lt;" (replace_all b'&' "&amp;" value))))

-- `apiKey ? new Resend(apiKey) : null`: an empty key counts as none.
abbrev has_key : Option String → Bool
has_key none = false
has_key (some key) = not (str_eq key "")

unfoldable pub send_email : String → String → String → Exec World (Unit {0})
send_email to subject html w =
    if not (has_key w.config.resend_api_key)
    then returned tt w
    else if w.resend_succeeds
    then returned tt
        (record w { mails = insert (record { to = to; subject = subject; html = html }) w.mails })
    else thrown (internal_error "Failed to send email") w

-- `sms` delivery is not implemented: the code is logged and not sent. The type of the method leaves
-- `totp` out.
unfoldable pub send_otp_code : MfaMethod → String → String → Exec World (Unit {0})
unfolding send_email
send_otp_code method destination code w =
    if is_sms method
    then returned tt w
    else send_email destination "Your OmniaNote verification code"
        (concat (
          "<p>Your verification code is <strong>" ∷ code
          ∷ "</strong>.</p><p>It expires in 5 minutes. If you didn't request this, you can ignore this email.</p>"
          ∷ []))
        w

unfoldable pub send_team_invite : String → String → String → String → Exec World (Unit {0})
unfolding send_email escape_html
send_team_invite destination account_name inviter_name accept_url =
    send_email destination
      (concat (inviter_name ∷ " invited you to join " ∷ account_name ∷ " on OmniaNote" ∷ []))
      (concat (
        "<p><strong>"
        ∷ escape_html inviter_name
        ∷ "</strong> invited you to join <strong>"
        ∷ escape_html account_name
        ∷ "</strong> on OmniaNote.</p><p><a href=\""
        ∷ accept_url
        ∷ "\">Accept the invite</a> to set up your account. This link expires in 7 days.</p>"
        ∷ "<p>If you weren't expecting this, you can ignore this email.</p>"
        ∷ []))
