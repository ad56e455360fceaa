-- ===== src/Mobile/SearchBox/Settled.antt =====
-- apps/mobile/src/pages/SearchPage.tsx: what the search box shows when nothing is under way.
use omnia_note.Prelude.{
  ℕ, suc, String, ◌≡◌, refl, true, false, Option, none, some, List, [], ◌∷◌, ◌==◌, ◌⊎◌, inl, inr,
  ap, sym, ◌∙◌, ◌||◌, arith, str_eq, trim, trim_start, trim_end, find_first, find_first_holds,
  delete_where, is_some, Option-cases, Bool-cases, if◌then◌else◌,
}
use omnia_note.Mobile.SearchBox.{
  Box, Flight, fresh_box, numbered, type_query, send_request, receive_hits, receive_failure, Step,
  Reach, types, elapses, answers, fails, here, next,
}

module _ {Hit : Type 0} (search : String → List Hit) where
  -- The request that was sent last, while its answer is awaited.
  abbrev pub latest : Box Hit → Option Flight
  latest b = find_first (numbered b.request_id) b.flying

  abbrev pub IsBlank : String → Type 0
  IsBlank text = str_eq (trim text) "" ≡ true

  abbrev IsDone : Box Hit → Type 0
  IsDone b = (is_some b.error ≡ true) ⊎ (b.results ≡ search (trim b.query))

  record IsCurrent (b : Box Hit) : Type 0 where
    armed : (text : String) → b.timer ≡ some text → text ≡ trim b.query
    sent :
        b.timer ≡ none
        → str_eq (trim b.query) "" ≡ false
        → ((f : Flight) × (latest b ≡ some f) × (f.text ≡ trim b.query))
          ⊎ ((latest b ≡ none) × IsDone b)

  find-landed :
      (id j : ℕ) (fs : List Flight)
      → find_first (numbered id) (delete_where (numbered j) fs)
        ≡ (if j == id then none else find_first (numbered id) fs)
  unfolding find_first delete_where
  find-landed id j [] = ground arith
  find-landed id j (f ∷ fs) = ground (arith, find-landed id j fs)

  type_query-IsCurrent : (text : String) (b : Box Hit) → IsCurrent b → IsCurrent (type_query text b)
  unfolding type_query
  type_query-IsCurrent text b c = elim (Bool-cases (str_eq (trim text) "")) [
    | inl blank ↦
        rw blank
          (record { armed = λ t h. ground arith; sent = λ h nonblank. absurd (ground arith) })
    | inr more ↦
        rw more (record { armed = λ t h. ground arith; sent = λ h nonblank. absurd (ground arith) })
  ]

  send_request-IsCurrent :
      (text : String) (b : Box Hit)
      → b.timer ≡ some text
      → IsCurrent b
      → IsCurrent (send_request text b)
  unfolding send_request find_first
  send_request-IsCurrent text b h c = record {
    armed = λ t k. absurd (ground arith);
    sent = λ k nonblank.
        inl (record { id = suc b.request_id; text = text }, ground arith, c.armed text h);
  }

  -- The answer to the request that was sent last is for the query in the box.
  latest_text :
      (f : Flight) (b : Box Hit)
      → IsCurrent b
      → find_first (numbered f.id) b.flying ≡ some f
      → (f.id == b.request_id) ≡ true
      → b.timer ≡ none
      → str_eq (trim b.query) "" ≡ false
      → f.text ≡ trim b.query
  latest_text f b c found same idle nonblank =
      let at' : f.id ≡ b.request_id = ground arith in
      let found' : latest b ≡ some f =
        ap (λ (i : ℕ). find_first (numbered i) b.flying) (sym at') ∙ found in
      elim (c.sent idle nonblank) [
        | inl (g, is_g, fits) ↦ ground arith
        | inr (gone, done) ↦ absurd (ground arith)
      ]

  not_latest :
      (id : ℕ) (b : Box Hit)
      → (id == b.request_id) ≡ false
      → find_first (numbered b.request_id) (delete_where (numbered id) b.flying) ≡ latest b
  not_latest id b other = find-landed b.request_id id b.flying ∙ ground arith

  is_latest :
      (id : ℕ) (b : Box Hit)
      → (id == b.request_id) ≡ true
      → find_first (numbered b.request_id) (delete_where (numbered id) b.flying) ≡ none
  is_latest id b same = find-landed b.request_id id b.flying ∙ ground arith

  receive_hits-IsCurrent :
      (f : Flight) (b : Box Hit)
      → find_first (numbered f.id) b.flying ≡ some f
      → IsCurrent b
      → IsCurrent (receive_hits f.id (search f.text) b)
  unfolding receive_hits
  receive_hits-IsCurrent f b found c = elim (Bool-cases (f.id == b.request_id)) [
    | inl same ↦ rw same (record {
      armed = c.armed;
      sent = λ idle nonblank.
          inr (is_latest f.id b same, inr (ap search (latest_text f b c found same idle nonblank)));
    })
    | inr other ↦ rw other (record {
      armed = c.armed;
      sent = λ idle nonblank. rw (not_latest f.id b other) (c.sent idle nonblank);
    })
  ]

  receive_failure-IsCurrent :
      (f : Flight) (message : String) (b : Box Hit)
      → IsCurrent b
      → IsCurrent (receive_failure f.id message b)
  unfolding receive_failure
  receive_failure-IsCurrent f message b c = elim (Bool-cases (f.id == b.request_id)) [
    | inl same ↦
        rw same (record {
          armed = c.armed;
          sent = λ idle nonblank. inr (is_latest f.id b same, inl refl);
        })
    | inr other ↦ rw other (record {
      armed = c.armed;
      sent = λ idle nonblank. rw (not_latest f.id b other) (c.sent idle nonblank);
    })
  ]

  Step-IsCurrent : {b c : Box Hit} → Step search b c → IsCurrent b → IsCurrent c
  Step-IsCurrent (types b text) h = type_query-IsCurrent text b h
  Step-IsCurrent (elapses b text e) h = send_request-IsCurrent text b e h
  Step-IsCurrent (answers b f e) h = receive_hits-IsCurrent f b e h
  Step-IsCurrent (fails b f message e) h = receive_failure-IsCurrent f message b h

  Reach-IsCurrent : {b : Box Hit} → Reach search fresh_box b → IsCurrent b
  unfolding trim trim_start trim_end
  Reach-IsCurrent here = record {
    armed = λ t h. absurd (ground arith);
    sent = λ h nonblank. absurd (ground arith);
  }
  Reach-IsCurrent (next r s) = Step-IsCurrent s (Reach-IsCurrent r)

  -- Whatever is typed, and in whatever order the answers come: when the query is not blank, the timer is not
  -- set, the request sent last was answered and no error is shown, the box shows what the server finds for
  -- the trimmed query.
  pub settled_results :
      {b : Box Hit}
      → Reach search fresh_box b
      → str_eq (trim b.query) "" ≡ false
      → b.timer ≡ none
      → latest b ≡ none
      → b.error ≡ none
      → b.results ≡ search (trim b.query)
  settled_results {b} r nonblank idle answered fine =
      elim ((Reach-IsCurrent r).sent idle nonblank) [
        | inl (f, flies, fits) ↦ absurd (ground arith)
        | inr (gone, inl bad) ↦ absurd (ground arith)
        | inr (gone, inr shown) ↦ shown
      ]

  -- The box shows the hits of its query, and nothing else.
  abbrev pub Shows : String → Box Hit → Type 0
  Shows query c =
      (c.query ≡ query) × (c.results ≡ search (trim query)) × (c.loading ≡ false) × (c.error ≡ none)

  -- Nothing is typed on the way and no request fails: only the timer elapses and answers come.
  abbrev pub IsUndisturbed : {b c : Box Hit} → Reach search b c → Type 0
  IsUndisturbed here = Unit
  IsUndisturbed (next r (types b text)) = ⊥
  IsUndisturbed (next r (elapses b text e)) = IsUndisturbed r
  IsUndisturbed (next r (answers b f e)) = IsUndisturbed r
  IsUndisturbed (next r (fails b f message e)) = ⊥

  -- The box settles on its query by itself.
  abbrev pub Settles : Box Hit → Type 0
  Settles b = (c : Box Hit) × (r : Reach search b c) × IsUndisturbed r × Shows b.query c

  answer_latest : (b : Box Hit) (f : Flight) → latest b ≡ some f → f.text ≡ trim b.query → Settles b
  unfolding receive_hits
  answer_latest b f flies fits =
      let same : (f.id == b.request_id) ≡ true =
        find_first_holds (numbered b.request_id) b.flying f flies in
      let at' : f.id ≡ b.request_id = ground arith in
      (
        receive_hits f.id (search f.text) b,
        next here (answers b f (ap (λ (i : ℕ). find_first (numbered i) b.flying) at' ∙ flies)),
        tt,
        rw same (refl, ap search fits, refl, refl),
      )

  send_and_answer :
      (b : Box Hit) (text : String) → b.timer ≡ some text → text ≡ trim b.query → Settles b
  unfolding send_request receive_hits find_first
  send_and_answer b text set' fits =
      let f : Flight = record { id = suc b.request_id; text = text } in
      (
        receive_hits (suc b.request_id) (search text) (send_request text b),
        next (next here (elapses b text set')) (answers (send_request text b) f (ground arith)),
        tt,
        (ground arith, ground arith, ground arith, ground arith),
      )

  -- From every box that can come about, with a query that is not blank and with its timer set or its last request
  -- unanswered, an error shown or not, the timer and the answers of the server alone, without anything
  -- being typed and without a failure, can lead to the box that shows what the server finds for the
  -- query, without an error and not loading.
  pub search_completes :
      {b : Box Hit}
      → Reach search fresh_box b
      → str_eq (trim b.query) "" ≡ false
      → (is_some b.timer || is_some (latest b)) ≡ true
      → Settles b
  search_completes {b} r nonblank busy =
      let current = Reach-IsCurrent r in
      elim (Option-cases b.timer) [
        | inr (text, set') ↦ send_and_answer b text set' (current.armed text set')
        | inl idle ↦ elim (current.sent idle nonblank) [
          | inl (f, flies, fits) ↦ answer_latest b f flies fits
          | inr (gone, done) ↦ absurd (ground arith)
        ]
      ]

  -- If the query is cleared while the last request is unanswered, its answer fills the box again, although
  -- the query is blank.
  pub cleared_box_fills :
      (b : Box Hit) (f : Flight) (text : String)
      → latest b ≡ some f
      → IsBlank text
      → let cleared = type_query text b in
        (cleared.results ≡ [])
        × ((receive_hits f.id (search f.text) cleared).results ≡ search f.text)
        × ((receive_hits f.id (search f.text) cleared).query ≡ text)
  unfolding type_query receive_hits
  cleared_box_fills b f text flies blank =
      let same : (f.id == b.request_id) ≡ true =
        find_first_holds (numbered b.request_id) b.flying f flies in
      (ground arith, ground arith, ground arith)
