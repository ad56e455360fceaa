-- ===== src/Mobile/Duplicates.antt =====
-- apps/mobile/src/lib/syncQueue.ts: how often the server is asked to create an entry.
use omnia_note.Prelude.{
  ℕ, zero, suc, ◌+◌, ◌≤◌, ◌≡◌, refl, ap, not, count, count-insert, indicator, find_first,
  find_first_holds, inl, inr, Option-cases, Bool-cases, true, none, some, List, [], ◌∷◌, arith,
  ◌==◌, insert, if◌then◌else◌,
}
use omnia_note.Shared.Enums.{failed}
use omnia_note.Mobile.Outbox.{OutboxEntry, find, find-put}
use omnia_note.Mobile.SyncQueue.{
  Queue, Attempt, Failure, Round, Pass, contains, untried, is_synced, enqueue, enqueue_all,
  handle_entry, drain, started, server_created, server_completed, kept_as_failed, shown_as_synced,
  removed, after_create, sync_stages, sync_one, retry, upload_failure, marked, message,
}

module _ (a : Attempt) (e : OutboxEntry) (q : Queue) (f : Failure) where
  half_done :
      a.create_error ≡ none
      → upload_failure a e ≡ some f
      → sync_one a e q ≡ kept_as_failed e f (server_created e (started e q))
  unfolding sync_one sync_stages after_create
  half_done created lost = ground arith

created-sync_one :
    (a : Attempt) (e : OutboxEntry) (q : Queue)
    → a.create_error ≡ none
    → (sync_one a e q).created ≡ insert e.local_id q.created
unfolding sync_one sync_stages after_create started server_created server_completed kept_as_failed
    shown_as_synced removed
created-sync_one a e q fine = ground arith

-- If an item was created and its upload fails, the entry stays, FAILED, with the message of the failure;
-- and if the next retry, online, reaches the server, the server creates an item for the same entry again.
pub retry_creates_again :
    (a b : Attempt) (e : OutboxEntry) (q : Queue) (f : Failure)
    → a.create_error ≡ none
    → upload_failure a e ≡ some f
    → b.create_error ≡ none
    → (find e.local_id (sync_one a e q).store ≡ some (marked failed (some (message f)) e))
      × ((retry true b e.local_id (sync_one a e q)).created
          ≡ insert e.local_id (insert e.local_id q.created))
retry_creates_again a b e q f created lost reached =
    let e' = marked failed (some (message f)) e in
    let stays : find e.local_id (sync_one a e q).store ≡ some e' =
      rw (half_done a e q f created lost) (
        unfold kept_as_failed in
        ground (arith, find-put e.local_id e' (server_created e (started e q)).store)) in
    let first = created-sync_one a e q created in
    (
      stays,
      unfold retry in ground (arith, stays, first, created-sync_one b e' (sync_one a e q) reached),
    )

-- How often an id stands in a list.
abbrev pub times : ℕ → List ℕ → ℕ
times id xs = count (λ (x : ℕ). x == id) xs

times-sync_one :
    (id : ℕ) (a : Attempt) (e : OutboxEntry) (q : Queue)
    → times id (sync_one a e q).created ≤ indicator (e.local_id == id) + times id q.created
times-sync_one id a e q = elim (Option-cases a.create_error) [
  | inl fine ↦
      rw (created-sync_one a e q fine)
        (omega (arith, count-insert (λ (x : ℕ). x == id) e.local_id q.created))
  | inr (f, refused) ↦ unfold sync_one sync_stages started kept_as_failed in ground arith
]

times-handle_entry :
    (id : ℕ) (a : Attempt) (e : OutboxEntry) (q : Queue)
    → times id (handle_entry a e q).created ≤ indicator (e.local_id == id) + times id q.created
unfolding handle_entry removed
times-handle_entry id a e q = elim (Bool-cases (is_synced e.status)) [
  | inl yes' ↦ rw yes' (omega arith)
  | inr no' ↦ rw no' (times-sync_one id a e q)
]

created-enqueue_all : (es : List OutboxEntry) (q : Queue) → (enqueue_all es q).created ≡ q.created
unfolding enqueue_all enqueue
created-enqueue_all [] q = refl
created-enqueue_all (e ∷ es) q = created-enqueue_all es (enqueue e q)

-- In a pass that ends, whatever the network answers, an entry that was tried before is not created again, and any
-- other is created once at most.
pub drain_creates_once :
    (fuel id : ℕ) (rounds : ℕ → Round) (tried : List ℕ) (q : Queue) (p : Pass)
    → drain fuel rounds tried q ≡ some p
    → times id p.queue.created ≤ indicator (not (contains id tried)) + times id q.created
unfolding drain
drain_creates_once zero id rounds tried q p h = absurd (ground arith)
drain_creates_once (suc fuel) id rounds tried q p h =
    elim (Option-cases
      (if (rounds fuel).online then find_first (untried tried) q.store else none)) [
        | inl over ↦ (let same : q ≡ p.queue = ground arith in rw⁻¹ same (omega arith))
        | inr (e, next) ↦
            let round = rounds fuel in
            let q1 = handle_entry round.attempt e q in
            let q' = enqueue_all round.arrivals q1 in
            let h' : drain fuel rounds (e.local_id ∷ tried) q' ≡ some p = ground (arith, next, h) in
            let found : find_first (untried tried) q.store ≡ some e = ground (arith, next) in
            let fresh = find_first_holds (untried tried) q.store e found in
            let after' = drain_creates_once fuel id rounds (e.local_id ∷ tried) q' p h' in
            let kept = ap (times id) (created-enqueue_all round.arrivals q1) in
            let once = times-handle_entry id round.attempt e q in
            ground (arith, fresh, after', kept, once)
      ]
