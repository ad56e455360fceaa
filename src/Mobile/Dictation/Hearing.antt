-- ===== src/Mobile/Dictation/Hearing.antt =====
-- apps/mobile/src/lib/dictation.ts: what a dictation makes of the body of the note.
use omnia_note.Prelude.{
  String, ◌≡◌, refl, sym, ap, ◌∙◌, false, List, [], ◌∷◌, ◌++◌, arith, inl, inr, Bool-cases, str_eq,
  trim, concat, if◌then◌else◌,
}
use omnia_note.Mobile.NotePage.{append_dictated_text}
use omnia_note.Mobile.Dictation.Words.{words, append-none, append-append}
use omnia_note.Mobile.Dictation.Appending.{words-append_dictated_text}
use omnia_note.Mobile.Dictation.{
  Heard, Dictation, Report, results, trouble, on_final_text, start, hear, on_result, on_error,
  on_end, listen, dictate,
}

-- The transcripts that are final, in order.
abbrev finals : List Heard → List String
finals [] = []
finals (r ∷ rs) = let rest = finals rs in if r.is_final then r.transcript ∷ rest else rest

-- The others, joined.
abbrev unfinished : List Heard → String → String
unfinished [] text = text
unfinished (r ∷ rs) text =
    unfinished rs (if r.is_final then text else concat (text ∷ r.transcript ∷ []))

-- All that was heard in final form, and what was unfinished in the last report of results.
abbrev all_finals : List Report → List String
all_finals [] = []
all_finals (results rs ∷ es) = finals rs ++ all_finals es
all_finals (trouble reason ∷ es) = all_finals es

abbrev last_unfinished : List Report → String → String
last_unfinished [] text = text
last_unfinished (results rs ∷ es) text = last_unfinished es (unfinished rs "")
last_unfinished (trouble reason ∷ es) text = last_unfinished es text

-- Texts appended to the body, one after the other.
abbrev append_all : List String → String → String
append_all [] body = body
append_all (t ∷ ts) body = append_all ts (append_dictated_text t body)

append_all-append :
    (ts us : List String) (body : String)
    → append_all (ts ++ us) body ≡ append_all us (append_all ts body)
append_all-append [] us body = refl
append_all-append (t ∷ ts) us body = append_all-append ts us (append_dictated_text t body)

hear_lem :
    (rs : List Heard) (interim : String) (d : Dictation)
    → ((hear rs interim d).body ≡ append_all (finals rs) d.body)
      × ((hear rs interim d).interim_text ≡ unfinished rs interim)
unfolding hear on_final_text
hear_lem [] interim d = (refl, refl)
hear_lem (r ∷ rs) interim d = elim (Bool-cases r.is_final) [
  | inl final ↦ rw final (hear_lem rs interim (on_final_text r.transcript d))
  | inr partial ↦ rw partial (hear_lem rs (concat (interim ∷ r.transcript ∷ [])) d)
]

on_error_lem :
    (reason : String) (d : Dictation)
    → ((on_error reason d).body ≡ d.body) × ((on_error reason d).interim_text ≡ d.interim_text)
unfolding on_error
on_error_lem reason d = ground arith

listen_lem :
    (es : List Report) (d : Dictation)
    → ((listen es d).body ≡ append_all (all_finals es) d.body)
      × ((listen es d).interim_text ≡ last_unfinished es d.interim_text)
unfolding listen on_result
listen_lem [] d = (refl, refl)
listen_lem (results rs ∷ es) d =
    let (body, text) = hear_lem rs "" d in
    let (body', text') = listen_lem es (hear rs "" d) in
    (
      body'
          ∙ ap (append_all (all_finals es)) body
          ∙ sym (append_all-append (finals rs) (all_finals es) d.body),
      text' ∙ ap (last_unfinished es) text,
    )
listen_lem (trouble reason ∷ es) d =
    let (body, text) = listen_lem es (on_error reason d) in
    let (same_body, same_text) = on_error_lem reason d in
    (body ∙ ap (append_all (all_finals es)) same_body, text ∙ ap (last_unfinished es) same_text)

-- At the end, the text that was not final is appended.
on_end-append : (d : Dictation) → (on_end d).body ≡ append_dictated_text d.interim_text d.body
unfolding on_end on_final_text
on_end-append d = elim (Bool-cases (str_eq (trim d.interim_text) "")) [
  | inl blank ↦ rw blank refl
  | inr told ↦ rw told refl
]

-- The words of texts, one text after the other.
abbrev pub all_words : List String → List String
all_words [] = []
all_words (t ∷ ts) = words t ++ all_words ts

words-append_all :
    (ts : List String) (body : String) → words (append_all ts body) ≡ words body ++ all_words ts
words-append_all [] body = sym (append-none (words body))
words-append_all (t ∷ ts) body =
    words-append_all ts (append_dictated_text t body)
    ∙ ap (λ l. l ++ all_words ts) (words-append_dictated_text t body)
    ∙ append-append (words body) (words t) (all_words ts)

body-dictate :
    (es : List Report) (d : Dictation)
    → (dictate es d).body ≡ append_all (all_finals es ++ last_unfinished es "" ∷ []) d.body
unfolding dictate start
body-dictate es d =
    let begun = start d in
    let (body, text) = listen_lem es begun in
    on_end-append (listen es begun)
    ∙ ap (λ t. append_dictated_text t (listen es begun).body) text
    ∙ ap (append_dictated_text (last_unfinished es "")) body
    ∙ sym (append_all-append (all_finals es) (last_unfinished es "" ∷ []) d.body)

-- After a dictation the words of the body are the words before it, then those of every final transcript in the order in
-- which it was heard, and then those of what was unfinished in the last report of results: none is lost,
-- added or joined to another; and the hook no longer listens.
pub dictate_lem :
    (es : List Report) (d : Dictation)
    → (words (dictate es d).body
        ≡ words d.body ++ all_words (all_finals es ++ last_unfinished es "" ∷ []))
      × ((dictate es d).listening ≡ false)
      × ((dictate es d).interim_text ≡ "")
unfolding dictate on_end
dictate_lem es d =
    let heard = all_finals es ++ last_unfinished es "" ∷ [] in
    (ap words (body-dictate es d) ∙ words-append_all heard d.body, refl, refl)
