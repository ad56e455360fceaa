-- ===== src/Mobile/Termination.antt =====
-- apps/mobile/src/lib/syncQueue.ts: the loop of `drainQueue`.
use omnia_note.Prelude.{
  ℕ, zero, suc, ◌+◌, ◌<◌, ◌≤◌, ◌≡◌, Bool, true, none, some, List, [], ◌∷◌, arith, delete_where,
  is_some, find_first, count, indicator, count_mono, inl, inr, Option-cases, Bool-cases, All,
  if◌then◌else◌,
}
use omnia_note.Shared.Enums.{queued, uploading, synced, failed}
use omnia_note.Mobile.Outbox.{OutboxEntry, Store, put, delete}
use omnia_note.Mobile.SyncQueue.{
  Queue, Attempt, Failure, Round, contains, is_synced, untried, started, server_created,
  server_completed, kept_as_failed, shown_as_synced, removed, after_create, sync_stages, sync_one,
  enqueue, enqueue_all, handle_entry, drain, upload_failure, marked, message,
}
use omnia_note.Mobile.Durability.{last_or-All}

abbrev waiting : List ℕ → Queue → ℕ
waiting tried q = count (untried tried) q.store

count-put :
    (p : OutboxEntry → Bool) (e : OutboxEntry) (store : Store)
    → count p (put e store) ≤ indicator (p e) + count p store
unfolding count put
count-put p e [] = ground arith
count-put p e (x ∷ xs) = ground (arith, count-put p e xs)

count-delete :
    (p : OutboxEntry → Bool) (id : ℕ) (store : Store) → count p (delete id store) ≤ count p store
unfolding count delete delete_where
count-delete p id [] = ground arith
count-delete p id (x ∷ xs) = ground (arith, count-delete p id xs)

-- Trying an entry takes it off those that wait.
waiting_less :
    (tried : List ℕ) (e : OutboxEntry) (store : Store)
    → find_first (untried tried) store ≡ some e
    → count (untried (e.local_id ∷ tried)) store < count (untried tried) store
unfolding find_first count
waiting_less tried e [] h = ground arith
waiting_less tried e (x ∷ xs) h = elim (Bool-cases (untried tried x)) [
  | inl yes' ↦
      ground
        (arith, count_mono (untried (e.local_id ∷ tried)) (untried tried) xs (λ y. ground arith))
  | inr no' ↦ ground (arith, waiting_less tried e xs)
]

module _ (tried : List ℕ) (n : ℕ) (e : OutboxEntry) (known : contains e.local_id tried ≡ true) where
  abbrev Few : Queue → Type 0
  Few q = waiting tried q ≤ n

  Few-started : (q : Queue) → Few q → Few (started e q)
  unfolding started
  Few-started q h = ground (arith, count-put (untried tried) (marked uploading none e) q.store)

  Few-server_created : (q : Queue) → Few q → Few (server_created e q)
  unfolding server_created
  Few-server_created q h = h

  Few-server_completed : (a : Attempt) (q : Queue) → Few q → Few (server_completed a e q)
  unfolding server_completed
  Few-server_completed a q h = h

  Few-kept_as_failed : (f : Failure) (q : Queue) → Few q → Few (kept_as_failed e f q)
  unfolding kept_as_failed
  Few-kept_as_failed f q h =
      ground (arith, count-put (untried tried) (marked failed (some (message f)) e) q.store)

  Few-shown_as_synced : (q : Queue) → Few q → Few (shown_as_synced e q)
  unfolding shown_as_synced
  Few-shown_as_synced q h = ground (arith, count-put (untried tried) (marked synced none e) q.store)

  Few-removed : (q : Queue) → Few q → Few (removed e q)
  unfolding removed
  Few-removed q h = ground (arith, count-delete (untried tried) e.local_id q.store)

  Few-after_create : (a : Attempt) (q : Queue) → Few q → All Few (after_create a e q)
  unfolding after_create
  Few-after_create a q h = elim (Option-cases (upload_failure a e)) [
    | inl fine ↦
        let whole = server_completed a e q in
        let few = Few-shown_as_synced whole (Few-server_completed a q h) in
        rw (fine, All)
          (Few-server_completed a q h, (few, (Few-removed (shown_as_synced e whole) few, tt)))
    | inr (f, bad) ↦ rw (bad, All) (Few-kept_as_failed f q h, tt)
  ]

  Few-sync_stages : (a : Attempt) (q : Queue) → Few q → All Few (sync_stages a e q)
  unfolding sync_stages
  Few-sync_stages a q h =
      let h' = Few-started q h in
      elim (Option-cases a.create_error) [
        | inl fine ↦ rw fine (
          h',
          (
            Few-server_created (started e q) h',
            Few-after_create a (server_created e (started e q))
                (Few-server_created (started e q) h'),
          ),
        )
        | inr (f, bad) ↦ rw bad (h', (Few-kept_as_failed f (started e q) h', tt))
      ]

  Few-handle_entry : (a : Attempt) (q : Queue) → Few q → Few (handle_entry a e q)
  unfolding handle_entry sync_one
  Few-handle_entry a q h = elim (Bool-cases (is_synced e.status)) [
    | inl yes' ↦ rw yes' (Few-removed q h)
    | inr no' ↦ rw no' (last_or-All Few q (sync_stages a e q) h (Few-sync_stages a q h))
  ]

abbrev pub size : List OutboxEntry → ℕ
size [] = 0
size (e ∷ es) = suc (size es)

waiting-enqueue_all :
    (tried : List ℕ) (es : List OutboxEntry) (q : Queue)
    → waiting tried (enqueue_all es q) ≤ size es + waiting tried q
unfolding enqueue_all enqueue count
waiting-enqueue_all tried [] q = ground arith
waiting-enqueue_all tried (e ∷ es) q = ground (
  arith,
  count-put (untried tried) (marked queued none e) q.store,
  waiting-enqueue_all tried es (enqueue e q),
)

-- How many entries arrive in the rounds below this number.
unfoldable pub arriving : (ℕ → Round) → ℕ → ℕ
arriving rounds zero = 0
arriving rounds (suc n) = size (rounds n).arrivals + arriving rounds n

-- If the fuel is more than the entries that wait and those that arrive during the pass together, the
-- pass ends.
pub drain_returns :
    (fuel : ℕ) (rounds : ℕ → Round) (tried : List ℕ) (q : Queue)
    → count (untried tried) q.store + arriving rounds fuel < fuel
    → is_some (drain fuel rounds tried q) ≡ true
unfolding drain arriving
drain_returns zero rounds tried q h = ground arith
drain_returns (suc fuel) rounds tried q h =
    elim (Option-cases
      (if (rounds fuel).online then find_first (untried tried) q.store else none)) [
        | inl over ↦ ground (arith, over)
        | inr (e, next) ↦
            let round = rounds fuel in
            let q1 = handle_entry round.attempt e q in
            let q' = enqueue_all round.arrivals q1 in
            let tried' = e.local_id ∷ tried in
            let step : drain (suc fuel) rounds tried q ≡ drain fuel rounds tried' q' =
              ground (arith, next) in
            let found : find_first (untried tried) q.store ≡ some e = ground (arith, next) in
            let less : count (untried tried') q.store < count (untried tried) q.store =
              waiting_less tried e q.store found in
            let few : count (untried tried') q1.store ≤ count (untried tried') q.store =
              Few-handle_entry tried' (count (untried tried') q.store) e (ground arith)
                round.attempt q (omega arith) in
            let more : count (untried tried') q'.store
                ≤ size round.arrivals + count (untried tried') q1.store =
              waiting-enqueue_all tried' round.arrivals q1 in
            rw (step, is_some)
              (drain_returns fuel rounds tried' q' (omega (arith, h, less, few, more)))
      ]
