-- ===== src/Mobile/Durability.antt =====
-- apps/mobile/src/lib/syncQueue.ts: what becomes of a captured item.
use omnia_note.Prelude.{
  ℕ, zero, suc, ◌≡◌, ◌≢◌, ap, Bool, true, not, ◌&&◌, ◌||◌, Option, none, some, List, [], ◌∷◌, arith,
  ◌==◌, is_some, find_first, find_first_holds, insert, inl, inr, Option-cases, Bool-cases, All,
  if◌then◌else◌,
}
use omnia_note.Shared.Enums.{queued, uploading, synced, failed}
use omnia_note.Mobile.Outbox.{OutboxEntry, Store, find, find-put, find-delete}
use omnia_note.Mobile.SyncQueue.{
  Queue, Attempt, Failure, Round, Pass, contains, is_synced, untried, started, server_created,
  server_completed, kept_as_failed, shown_as_synced, removed, after_create, sync_stages, sync_one,
  last_or, enqueue, enqueue_all, handle_entry, drain, upload_failure, marked, message,
}

contains-insert : (id x : ℕ) (xs : List ℕ) → contains id (insert x xs) ≡ (x == id || contains id xs)
unfolding insert
contains-insert id x [] = ground arith
contains-insert id x (y ∷ xs) = ground (arith, contains-insert id x xs)

abbrev pub honest : Bool → Option OutboxEntry → Bool
honest was_created none = true
honest was_created (some e) = not (is_synced e.status) || was_created

-- The item stands in the outbox or was created, and if it is shown as synced it was created.
unfoldable pub keeps : ℕ → Queue → Bool
keeps id q =
    (is_some (find id q.store) || contains id q.created)
    && honest (contains id q.created) (find id q.store)

abbrev pub IsKept : ℕ → Queue → Type 0
IsKept id q = keeps id q ≡ true

module _ (id : ℕ) (e : OutboxEntry) (q : Queue) (kept : IsKept id q) where
  started-IsKept : IsKept id (started e q)
  unfolding keeps started
  started-IsKept = ground (arith, find-put id (marked uploading none e) q.store)

  enqueue-IsKept : IsKept id (enqueue e q)
  unfolding keeps enqueue
  enqueue-IsKept = ground (arith, find-put id (marked queued none e) q.store)

  server_created-IsKept : IsKept id (server_created e q)
  unfolding keeps server_created
  server_created-IsKept =
      ground (arith, contains-insert id e.local_id q.created, Option-cases (find id q.store))

  server_completed-IsKept : (a : Attempt) → IsKept id (server_completed a e q)
  unfolding keeps server_completed
  server_completed-IsKept a = kept

  kept_as_failed-IsKept : (f : Failure) → IsKept id (kept_as_failed e f q)
  unfolding keeps kept_as_failed
  kept_as_failed-IsKept f = ground (arith, find-put id (marked failed (some (message f)) e) q.store)

  shown_as_synced-IsKept : contains e.local_id q.created ≡ true → IsKept id (shown_as_synced e q)
  unfolding keeps shown_as_synced
  shown_as_synced-IsKept has = ground (arith, find-put id (marked synced none e) q.store)

  removed-IsKept : contains e.local_id q.created ≡ true → IsKept id (removed e q)
  unfolding keeps removed
  removed-IsKept has = ground (arith, find-delete id e.local_id q.store)

contains-server_created :
    (e : OutboxEntry) (q : Queue) → contains e.local_id (server_created e q).created ≡ true
unfolding server_created
contains-server_created e q = ground (arith, contains-insert e.local_id e.local_id q.created)

after_create-IsKept :
    (id : ℕ) (a : Attempt) (e : OutboxEntry) (q : Queue)
    → contains e.local_id q.created ≡ true
    → IsKept id q
    → All (IsKept id) (after_create a e q)
unfolding after_create
after_create-IsKept id a e q has kept = elim (Option-cases (upload_failure a e)) [
  | inl fine ↦
      let whole = server_completed a e q in
      let has' : contains e.local_id whole.created ≡ true = unfold server_completed in has in
      let kept1 = server_completed-IsKept id e q kept a in
      let kept2 = shown_as_synced-IsKept id e whole kept1 has' in
      rw (fine, All)
        (
          kept1,
          (
            kept2,
            (
              removed-IsKept id e (shown_as_synced e whole) kept2 (unfold shown_as_synced in has'),
              tt,
            ),
          ),
        )
  | inr (f, bad) ↦ rw (bad, All) (kept_as_failed-IsKept id e q kept f, tt)
]

-- If an item stands in the outbox or was created by the server, and is shown as synced only if it was
-- created, then this holds at every state that `syncOne` passes through, whatever the network answers.
sync_stages-IsKept :
    (id : ℕ) (a : Attempt) (e : OutboxEntry) (q : Queue)
    → IsKept id q
    → All (IsKept id) (sync_stages a e q)
unfolding sync_stages
sync_stages-IsKept id a e q kept =
    let kept' = started-IsKept id e q kept in
    elim (Option-cases a.create_error) [
      | inl fine ↦ rw fine (
        kept',
        (
          server_created-IsKept id e (started e q) kept',
          after_create-IsKept id a e (server_created e (started e q))
              (contains-server_created e (started e q))
              (server_created-IsKept id e (started e q) kept'),
        ),
      )
      | inr (f, bad) ↦ rw bad (kept', (kept_as_failed-IsKept id e (started e q) kept' f, tt))
    ]

pub last_or-All {ℓ} :
    (P : Queue → Type ℓ) (q : Queue) (qs : List Queue) → P q → All P qs → P (last_or q qs)
last_or-All P q [] h hs = h
last_or-All P q (r ∷ rs) h (k, ks) = last_or-All P r rs k ks

sync_one-IsKept :
    (id : ℕ) (a : Attempt) (e : OutboxEntry) (q : Queue) → IsKept id q → IsKept id (sync_one a e q)
unfolding sync_one
sync_one-IsKept id a e q kept =
    last_or-All (IsKept id) q (sync_stages a e q) kept (sync_stages-IsKept id a e q kept)

enqueue_all-IsKept :
    (id : ℕ) (es : List OutboxEntry) (q : Queue) → IsKept id q → IsKept id (enqueue_all es q)
unfolding enqueue_all
enqueue_all-IsKept id [] q kept = kept
enqueue_all-IsKept id (e ∷ es) q kept =
    enqueue_all-IsKept id es (enqueue e q) (enqueue-IsKept id e q kept)

pub find-untried :
    (tried : List ℕ) (store : Store) (e : OutboxEntry)
    → find_first (untried tried) store ≡ some e
    → find e.local_id store ≡ some e
unfolding find find_first
find-untried tried [] e h = ground arith
find-untried tried (x ∷ xs) e h = elim (Bool-cases (untried tried x)) [
  | inl yes' ↦ ground arith
  | inr no' ↦
      let later : find_first (untried tried) xs ≡ some e = ground (arith, no', h) in
      let fresh = find_first_holds (untried tried) xs e later in
      let apart : x.local_id ≢ e.local_id =
        λ same. ground (arith, ap (λ i. contains i tried) same, no', fresh) in
      ground (arith, apart, find-untried tried xs e later)
]

handle_entry-IsKept :
    (id : ℕ) (a : Attempt) (e : OutboxEntry) (q : Queue)
    → find e.local_id q.store ≡ some e
    → IsKept id q
    → IsKept id (handle_entry a e q)
unfolding handle_entry
handle_entry-IsKept id a e q at' kept = elim (Bool-cases (is_synced e.status)) [
  | inl yes' ↦ rw yes' (unfold removed keeps in ground (arith, find-delete id e.local_id q.store))
  | inr no' ↦ rw no' (sync_one-IsKept id a e q kept)
]

-- If an item stands in the outbox or was created by the server, and is shown as synced only if it was
-- created, then this still holds when a pass has ended, whatever the network answers and whatever is
-- enqueued meanwhile.
pub drain-IsKept :
    (fuel id : ℕ) (rounds : ℕ → Round) (tried : List ℕ) (q : Queue) (p : Pass)
    → IsKept id q
    → drain fuel rounds tried q ≡ some p
    → IsKept id p.queue
unfolding drain
drain-IsKept zero id rounds tried q p kept h = ground arith
drain-IsKept (suc fuel) id rounds tried q p kept h =
    elim (Option-cases
      (if (rounds fuel).online then find_first (untried tried) q.store else none)) [
        | inl over ↦ ground arith
        | inr (e, next) ↦
            let q' = enqueue_all (rounds fuel).arrivals (handle_entry (rounds fuel).attempt e q) in
            let h' : drain fuel rounds (e.local_id ∷ tried) q' ≡ some p = ground (arith, next, h) in
            let found : find e.local_id q.store ≡ some e =
              ground (arith, next, find-untried tried q.store e) in
            drain-IsKept fuel id rounds (e.local_id ∷ tried) q' p
              (enqueue_all-IsKept id (rounds fuel).arrivals (handle_entry (rounds fuel).attempt e q)
                (handle_entry-IsKept id (rounds fuel).attempt e q found kept))
              h'
      ]
