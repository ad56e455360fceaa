-- ===== src/Tests/SearchRuns.antt =====
-- apps/mobile/src/pages/SearchPage.tsx on two queries, the first answered last.
use omnia_note.Prelude.{
  ℕ, String, ◌≡◌, refl, List, [], ◌∷◌, str_eq, trim, trim_start, trim_end, find_first, delete_where,
  if◌then◌else◌,
}
use omnia_note.Mobile.SearchBox.{
  Box, Flight, fresh_box, type_query, send_request, receive_hits, Reach, types, elapses, answers,
  here, next,
}
use omnia_note.Mobile.SearchBox.Settled.{Settles, settled_results, search_completes}

abbrev hits : String → List ℕ
hits text = if str_eq text "ab" then 2 ∷ [] else 1 ∷ []

abbrev sent_once : Box ℕ
sent_once = send_request "a" (type_query "a" fresh_box)

abbrev sent_twice : Box ℕ
sent_twice = send_request "ab" (type_query " ab" sent_once)

abbrev first_flight : Flight
first_flight = record { id = 1; text = "a" }

abbrev second_flight : Flight
second_flight = record { id = 2; text = "ab" }

abbrev answered : Box ℕ
answered = receive_hits 1 (hits "a") (receive_hits 2 (hits "ab") sent_twice)

sent_once-Reach : Reach hits fresh_box sent_once
unfolding type_query trim trim_start trim_end
sent_once-Reach =
    next (next here (types fresh_box "a")) (elapses (type_query "a" fresh_box) "a" refl)

sent_twice-Reach : Reach hits fresh_box sent_twice
unfolding type_query trim trim_start trim_end
sent_twice-Reach =
    next (next sent_once-Reach (types sent_once " ab"))
      (elapses (type_query " ab" sent_once) "ab" refl)

answered-Reach : Reach hits fresh_box answered
unfolding type_query send_request receive_hits trim trim_start trim_end find_first delete_where
answered-Reach =
    next (next sent_twice-Reach (answers sent_twice second_flight refl))
      (answers (receive_hits 2 (hits "ab") sent_twice) first_flight refl)

shown : answered.results ≡ 2 ∷ []
unfolding type_query send_request receive_hits trim trim_start trim_end
shown = refl

settled_results_example : answered.results ≡ hits (trim answered.query)
unfolding type_query send_request receive_hits trim trim_start trim_end find_first delete_where
settled_results_example = settled_results hits answered-Reach refl refl refl refl

search_completes_example : Settles hits sent_twice
unfolding type_query send_request trim trim_start trim_end find_first
search_completes_example = search_completes hits sent_twice-Reach refl refl
