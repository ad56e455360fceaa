-- ===== src/Mobile/Delivery.antt =====
-- apps/mobile/src/lib/syncQueue.ts: a pass while the network works.
use omnia_note.Prelude.{
  ℕ, zero, suc, ◌<◌, ◌≡◌, refl, ap, true, false, none, some, List, [], ◌∷◌, arith, ◌==◌, find_first,
  count, inl, inr, Option-cases, Bool-cases, if◌then◌else◌,
}
use omnia_note.Shared.Enums.{uploading, synced}
use omnia_note.Mobile.Outbox.{OutboxEntry, Store, put, delete, find, find-put, find-delete}
use omnia_note.Mobile.SyncQueue.{
  Queue, Attempt, Round, Pass, contains, untried, marked, upload_failure, started, server_created,
  server_completed, shown_as_synced, removed, after_create, sync_stages, sync_one, enqueue_all,
  handle_entry, drain, drain_queue,
}
use omnia_note.Mobile.Durability.{IsKept, keeps, drain-IsKept}
use omnia_note.Mobile.Termination.{arriving, size, drain_returns}

-- The server answers, and the device is online; nothing is captured meanwhile.
pub record IsGood (r : Round) : Type 0 where
  pub online : r.online ≡ true
  pub creates : r.attempt.create_error ≡ none
  pub uploads : r.attempt.upload_error ≡ none
  pub confirms : r.attempt.confirm_error ≡ none
  pub quiet : r.arrivals ≡ []

upload_failure_good :
    (a : Attempt) (e : OutboxEntry)
    → a.upload_error ≡ none
    → a.confirm_error ≡ none
    → upload_failure a e ≡ none
upload_failure_good a e uploads confirms = ground arith

store-sync_one :
    (a : Attempt) (e : OutboxEntry) (q : Queue)
    → a.create_error ≡ none
    → upload_failure a e ≡ none
    → (sync_one a e q).store
      ≡ delete e.local_id (put (marked synced none e) (put (marked uploading none e) q.store))
unfolding sync_one sync_stages after_create started server_created server_completed shown_as_synced
    removed
store-sync_one a e q creates uploads = ground arith

-- The entry is gone from the store, and the others are as before.
find-handle_entry :
    (id : ℕ) (r : Round) (e : OutboxEntry) (q : Queue)
    → IsGood r
    → find id (handle_entry r.attempt e q).store
      ≡ (if e.local_id == id then none else find id q.store)
unfolding handle_entry removed
find-handle_entry id r e q good =
    let up = marked uploading none e in
    let done = marked synced none e in
    let fine = upload_failure_good r.attempt e good.uploads good.confirms in
    ground (
      arith,
      find-delete id e.local_id q.store,
      ap (find id) (store-sync_one r.attempt e q good.creates fine),
      find-delete id e.local_id (put done (put up q.store)),
      find-put id done (put up q.store),
      find-put id up q.store,
    )

-- No entry that was tried stands in the store.
abbrev Clean : List ℕ → Queue → Type 0
Clean tried q = (id : ℕ) → contains id tried ≡ true → find id q.store ≡ none

Clean-step :
    (tried : List ℕ) (r : Round) (e : OutboxEntry) (q : Queue)
    → IsGood r
    → Clean tried q
    → Clean (e.local_id ∷ tried) (enqueue_all r.arrivals (handle_entry r.attempt e q))
unfolding enqueue_all
Clean-step tried r e q good clean id known =
    rw good.quiet (ground (arith, find-handle_entry id r e q good, clean id))

-- An entry that stands in the store is found by the search for one that was not tried.
stands-untried :
    (tried : List ℕ) (id : ℕ) (store : Store)
    → contains id tried ≡ false
    → find_first (untried tried) store ≡ none
    → find id store ≡ none
unfolding find find_first
stands-untried tried id [] fresh h = refl
stands-untried tried id (x ∷ xs) fresh h = elim (Bool-cases (x.local_id == id)) [
  | inl hit ↦
      let at' : x.local_id ≡ id = ground arith in
      absurd (ground (arith, ap (λ i. contains i tried) at'))
  | inr miss ↦ ground (arith, stands-untried tried id xs fresh)
]

drain_empties :
    (fuel id : ℕ) (rounds : ℕ → Round) (tried : List ℕ) (q : Queue) (p : Pass)
    → ((n : ℕ) → IsGood (rounds n))
    → Clean tried q
    → drain fuel rounds tried q ≡ some p
    → find id p.queue.store ≡ none
unfolding drain
drain_empties zero id rounds tried q p good clean h = absurd (ground arith)
drain_empties (suc fuel) id rounds tried q p good clean h =
    let online = (good fuel).online in
    elim (Option-cases
      (if (rounds fuel).online then find_first (untried tried) q.store else none)) [
        | inl over ↦
            let same : q ≡ p.queue = ground arith in
            let all : find_first (untried tried) q.store ≡ none = ground arith in
            rw⁻¹ same (elim (Bool-cases (contains id tried)) [
              | inl known ↦ clean id known
              | inr fresh ↦ stands-untried tried id q.store fresh all
            ])
        | inr (e, next) ↦
            let round = rounds fuel in
            let q' = enqueue_all round.arrivals (handle_entry round.attempt e q) in
            let h' : drain fuel rounds (e.local_id ∷ tried) q' ≡ some p = ground (arith, next, h) in
            drain_empties fuel id rounds (e.local_id ∷ tried) q' p good
              (Clean-step tried round e q (good fuel) clean) h'
      ]

arriving_none : (rounds : ℕ → Round) (n : ℕ) → ((m : ℕ) → IsGood (rounds m)) → arriving rounds n ≡ 0
unfolding arriving
arriving_none rounds zero good = refl
arriving_none rounds (suc n) good =
    omega (arith, ap size (good n).quiet, arriving_none rounds n good)

-- While the device is online, the server accepts what it is sent and nothing new is captured, a pass with more fuel
-- than entries ends; an item that stood in the outbox or was created is then created and no longer
-- in the outbox.
pub drain_queue_delivers :
    (fuel id : ℕ) (rounds : ℕ → Round) (q : Queue)
    → ((n : ℕ) → IsGood (rounds n))
    → count (untried []) q.store < fuel
    → IsKept id q
    → (p : Pass) × (drain_queue fuel rounds q ≡ some p)
      × (find id p.queue.store ≡ none)
      × (contains id p.queue.created ≡ true)
unfolding drain_queue
drain_queue_delivers fuel id rounds q good enough kept =
    let returns =
      drain_returns fuel rounds [] q (omega (arith, enough, arriving_none rounds fuel good)) in
    elim (Option-cases (drain fuel rounds [] q)) [
      | inl stuck ↦ absurd (ground arith)
      | inr (p, e) ↦
          let gone =
            drain_empties fuel id rounds [] q p good (λ i known. absurd (ground arith)) e in
          let kept' = drain-IsKept fuel id rounds [] q p kept e in
          (p, e, gone, unfold keeps in ground arith)
    ]
