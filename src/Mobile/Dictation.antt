-- ===== src/Mobile/Dictation.antt =====
-- apps/mobile/src/lib/dictation.ts: the events of a speech recognition; what is final goes to the page, which
-- appends it to the body of the note (NotePage.tsx).
pub mod Words
mod Appending
pub mod Hearing
use omnia_note.Prelude.{
  String, Bool, true, false, Option, none, some, List, [], ◌∷◌, ◌++◌, str_eq, trim, concat,
  if◌then◌else◌,
}
use omnia_note.Mobile.NotePage.{append_dictated_text}

pub record Heard : Type 0 where
  pub is_final : Bool
  pub transcript : String

-- The state of the hook, with the body of the note that its callback writes.
pub record Dictation : Type 0 where
  pub listening : Bool
  pub interim_text : String
  pub error : Option String
  pub body : String

unfoldable pub on_final_text : String → Dictation → Dictation
unfolding append_dictated_text
on_final_text text d = record d { body = append_dictated_text text d.body }

unfoldable pub start : Dictation → Dictation
start d = record d { listening = true; interim_text = ""; error = none }

-- The loop of `onresult` over the results from `resultIndex` on.
unfoldable pub hear : List Heard → String → Dictation → Dictation
unfolding on_final_text
hear [] interim d = record d { interim_text = interim }
hear (r ∷ rs) interim d =
    hear rs (if r.is_final then interim else concat (interim ∷ r.transcript ∷ []))
      (if r.is_final then on_final_text r.transcript d else d)

unfoldable pub on_result : List Heard → Dictation → Dictation
unfolding hear
on_result results d = hear results "" d

unfoldable pub on_error : String → Dictation → Dictation
on_error reason d =
    if str_eq reason "no-speech"
    then d
    else if str_eq reason "aborted"
    then d
    else record d { error = some (concat ("Dictation stopped: " ∷ reason ∷ [])) }

unfoldable pub on_end : Dictation → Dictation
unfolding on_final_text
on_end d =
    let told = if str_eq (trim d.interim_text) "" then d else on_final_text d.interim_text d in
    record told { interim_text = ""; listening = false }

-- What the recogniser reports between its start and its end.
pub data Report : Type 0 where
  results : List Heard → Report
  trouble : (reason : String) → Report

unfoldable pub listen : List Report → Dictation → Dictation
unfolding on_result on_error
listen [] d = d
listen (results rs ∷ es) d = listen es (on_result rs d)
listen (trouble reason ∷ es) d = listen es (on_error reason d)

-- One dictation, from start to end.
unfoldable pub dictate : List Report → Dictation → Dictation
unfolding start listen on_end
dictate reports d = on_end (listen reports (start d))
