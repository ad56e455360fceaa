-- ===== src/Mobile/Safekeeping.antt =====
-- apps/mobile/src/lib/syncQueue.ts: a captured item, with its contents and its file, against what the server has.
use mathlib.Core.Path.{subst}
use omnia_note.Prelude.{
  ℕ, zero, suc, String, ◌≡◌, ap, ◌⊎◌, ◌∙◌, sym, true, false, Option, none, some, List, [], ◌∷◌,
  arith, ◌==◌, find_first, insert, inl, inr, Option-cases, Bool-cases, All, if◌then◌else◌,
}
use omnia_note.Shared.Enums.{SyncStatus, queued, uploading, synced, failed}
use omnia_note.Mobile.Outbox.{OutboxEntry, find, put, delete, find-put, find-delete}
use omnia_note.Mobile.SyncQueue.{
  Queue, Attempt, Round, Pass, is_synced, untried, store_entry, started, server_created,
  server_completed, kept_as_failed, shown_as_synced, removed, after_create, sync_stages, sync_one,
  enqueue, enqueue_all, handle_entry, drain, upload_failure, is_complete, marked, message,
}
use omnia_note.Mobile.Durability.{last_or-All, find-untried}

-- What was captured, whatever its status.
abbrev as_captured : OutboxEntry → OutboxEntry
as_captured e = marked queued none e

-- The same contents and file are among the entries.
abbrev Has : OutboxEntry → List OutboxEntry → Type 0
Has x [] = ⊥
Has x (e ∷ es) = (as_captured e ≡ as_captured x) ⊎ Has x es

-- What is shown as synced is on the server in full.
abbrev IsHonest : OutboxEntry → SyncStatus → List OutboxEntry → Type 0
IsHonest x synced completed = Has x completed
IsHonest x queued completed = Unit
IsHonest x uploading completed = Unit
IsHonest x failed completed = Unit

-- Either the entry stands in the outbox as it was captured, shown as synced only if the server has it in full, or it
-- does not stand there and the server has it in full.
abbrev IsSafeAt : OutboxEntry → Option OutboxEntry → List OutboxEntry → Type 0
IsSafeAt x none completed = Has x completed
IsSafeAt x (some e) completed = (as_captured e ≡ as_captured x) × IsHonest x e.status completed

abbrev pub IsSafe : OutboxEntry → Queue → Type 0
IsSafe x q = IsSafeAt x (find x.local_id q.store) q.completed

Has-insert : (x e : OutboxEntry) (es : List OutboxEntry) → Has x es → Has x (insert e es)
unfolding insert
Has-insert x e [] h = absurd h
Has-insert x e (y ∷ es) (inl same) = inl same
Has-insert x e (y ∷ es) (inr later) = inr (Has-insert x e es later)

Has-inserted :
    (x e : OutboxEntry) (es : List OutboxEntry)
    → as_captured e ≡ as_captured x
    → Has x (insert e es)
unfolding insert
Has-inserted x e [] same = inl same
Has-inserted x e (y ∷ es) same = inr (Has-inserted x e es same)

IsHonest-insert :
    (x e : OutboxEntry) (status : SyncStatus) (es : List OutboxEntry)
    → IsHonest x status es
    → IsHonest x status (insert e es)
IsHonest-insert x e synced es h = Has-insert x e es h
IsHonest-insert x e queued es h = tt
IsHonest-insert x e uploading es h = tt
IsHonest-insert x e failed es h = tt

IsHonest-synced :
    (x : OutboxEntry) (status : SyncStatus) (es : List OutboxEntry)
    → is_synced status ≡ true
    → IsHonest x status es
    → Has x es
IsHonest-synced x synced es e h = h
IsHonest-synced x queued es e h = absurd (ground arith)
IsHonest-synced x uploading es e h = absurd (ground arith)
IsHonest-synced x failed es e h = absurd (ground arith)

IsSafeAt-insert :
    (x e : OutboxEntry) (o : Option OutboxEntry) (es : List OutboxEntry)
    → IsSafeAt x o es
    → IsSafeAt x o (insert e es)
IsSafeAt-insert x e none es h = Has-insert x e es h
IsSafeAt-insert x e (some y) es h = (h.0, IsHonest-insert x e y.status es h.1)

is_complete_lem :
    (a : Attempt) (e : OutboxEntry) → upload_failure a e ≡ none → is_complete a e ≡ true
is_complete_lem a e fine = ground arith

-- An entry `e` that is worked on; if it has the id of `x`, it is what was captured as `x`.
module _ (x e : OutboxEntry)
    (mine : (e.local_id == x.local_id) ≡ true → as_captured e ≡ as_captured x) where
  store_entry-IsSafe :
      (status : SyncStatus) (error : Option String) (q : Queue)
      → ((e.local_id == x.local_id) ≡ true → IsHonest x status q.completed)
      → IsSafe x q
      → IsSafe x (store_entry (marked status error e) q)
  store_entry-IsSafe status error q honest h =
      let e' = marked status error e in
      let found = find-put x.local_id e' q.store in
      elim (Bool-cases (e.local_id == x.local_id)) [
        | inl hit ↦
            let at' : find x.local_id (put e' q.store) ≡ some e' = ground (arith, found, hit) in
            rw at' (mine hit, honest hit)
        | inr miss ↦
            let at' : find x.local_id (put e' q.store) ≡ find x.local_id q.store =
              ground (arith, found, miss) in
            rw at' h
      ]

  removed-IsSafe :
      (q : Queue)
      → ((e.local_id == x.local_id) ≡ true → Has x q.completed)
      → IsSafe x q
      → IsSafe x (removed e q)
  unfolding removed
  removed-IsSafe q whole h =
      let found = find-delete x.local_id e.local_id q.store in
      elim (Bool-cases (e.local_id == x.local_id)) [
        | inl hit ↦
            let at' : find x.local_id (delete e.local_id q.store) ≡ none =
              ground (arith, found, hit) in
            rw at' (whole hit)
        | inr miss ↦
            let at' : find x.local_id (delete e.local_id q.store) ≡ find x.local_id q.store =
              ground (arith, found, miss) in
            rw at' h
      ]

  after_create-IsSafe : (a : Attempt) (q : Queue) → IsSafe x q → All (IsSafe x) (after_create a e q)
  unfolding after_create kept_as_failed shown_as_synced server_completed
  after_create-IsSafe a q h = elim (Option-cases (upload_failure a e)) [
    | inr (f, bad) ↦
        rw (bad, All) (store_entry-IsSafe failed (some (message f)) q (λ hit. tt) h, tt)
    | inl fine ↦
        let whole = server_completed a e q in
        let sent = is_complete_lem a e fine in
        let has : (e.local_id == x.local_id) ≡ true → Has x whole.completed =
          λ hit. rw sent (Has-inserted x e q.completed (mine hit)) in
        let safe : IsSafe x whole =
          rw sent (IsSafeAt-insert x e (find x.local_id q.store) q.completed h) in
        let shown = store_entry-IsSafe synced none whole has safe in
        rw (fine, All) (safe, (shown, (removed-IsSafe (shown_as_synced e whole) has shown, tt)))
  ]

  stages-IsSafe : (a : Attempt) (q : Queue) → IsSafe x q → All (IsSafe x) (sync_stages a e q)
  unfolding sync_stages started server_created kept_as_failed
  stages-IsSafe a q h =
      let begun = store_entry-IsSafe uploading none q (λ hit. tt) h in
      elim (Option-cases a.create_error) [
        | inl fine ↦
            rw fine (begun, (begun, after_create-IsSafe a (server_created e (started e q)) begun))
        | inr (f, bad) ↦ rw bad (
          begun,
          (store_entry-IsSafe failed (some (message f)) (started e q) (λ hit. tt) begun, tt),
        )
      ]

-- An entry that stands in the store is what was captured under its id.
IsSafe-mine :
    (x e : OutboxEntry) (q : Queue)
    → find e.local_id q.store ≡ some e
    → IsSafe x q
    → (e.local_id == x.local_id) ≡ true
    → IsSafeAt x (some e) q.completed
IsSafe-mine x e q at' h hit =
    let same : e.local_id ≡ x.local_id = ground (arith, hit) in
    let found : find x.local_id q.store ≡ some e = ap (λ i. find i q.store) (sym same) ∙ at' in
    subst (λ o. IsSafeAt x o q.completed) found h

-- `syncOne` of any entry of the outbox, whatever the network answers, keeps a captured item safe at every state that it
-- passes through: the item stands in the outbox with all its contents and its file, and is shown as synced
-- only if the server has it in full, or it does not stand there and the server has it in full: created,
-- and the file that the server asked for uploaded and confirmed.
pub sync_stages-IsSafe :
    (x : OutboxEntry) (a : Attempt) (e : OutboxEntry) (q : Queue)
    → find e.local_id q.store ≡ some e
    → IsSafe x q
    → All (IsSafe x) (sync_stages a e q)
sync_stages-IsSafe x a e q at' h = stages-IsSafe x e (λ hit. (IsSafe-mine x e q at' h hit).0) a q h

handle_entry-IsSafe :
    (x : OutboxEntry) (a : Attempt) (e : OutboxEntry) (q : Queue)
    → find e.local_id q.store ≡ some e
    → IsSafe x q
    → IsSafe x (handle_entry a e q)
unfolding handle_entry sync_one
handle_entry-IsSafe x a e q at' h =
    let mine = IsSafe-mine x e q at' h in
    elim (Bool-cases (is_synced e.status)) [
      | inl done ↦ rw done (
          removed-IsSafe x e (λ hit. (mine hit).0) q
            (λ hit. IsHonest-synced x e.status q.completed done (mine hit).1) h)
      | inr open' ↦
          rw open'
            (last_or-All (IsSafe x) q (sync_stages a e q) h (sync_stages-IsSafe x a e q at' h))
    ]

-- What is enqueued under another id.
abbrev pub IsOther : OutboxEntry → OutboxEntry → Type 0
IsOther x e = (e.local_id == x.local_id) ≡ false

enqueue_all-IsSafe :
    (x : OutboxEntry) (es : List OutboxEntry) (q : Queue)
    → All (IsOther x) es
    → IsSafe x q
    → IsSafe x (enqueue_all es q)
unfolding enqueue_all enqueue
enqueue_all-IsSafe x [] q others h = h
enqueue_all-IsSafe x (e ∷ es) q others h = enqueue_all-IsSafe x es (enqueue e q) others.1 (
    store_entry-IsSafe x e (λ hit. absurd (ground (arith, hit, others.0))) queued none q (λ hit. tt)
      h)

-- Whatever the network answers in a pass that ends, and whatever is enqueued meanwhile under other ids, a captured item
-- that was safe is safe afterwards: it stands in the outbox with all its contents and its file, and is
-- shown as synced only if the server has it in full, or it does not stand there and the server has it in
-- full.
pub drain-IsSafe :
    (fuel : ℕ) (x : OutboxEntry) (rounds : ℕ → Round) (tried : List ℕ) (q : Queue) (p : Pass)
    → ((n : ℕ) → All (IsOther x) (rounds n).arrivals)
    → IsSafe x q
    → drain fuel rounds tried q ≡ some p
    → IsSafe x p.queue
unfolding drain
drain-IsSafe zero x rounds tried q p others safe h = absurd (ground arith)
drain-IsSafe (suc fuel) x rounds tried q p others safe h =
    let round = rounds fuel in
    elim (Option-cases (if round.online then find_first (untried tried) q.store else none)) [
      | inl over ↦ (let same : q ≡ p.queue = ground arith in rw⁻¹ same safe)
      | inr (e, next) ↦
          let q1 = handle_entry round.attempt e q in
          let q' = enqueue_all round.arrivals q1 in
          let h' : drain fuel rounds (e.local_id ∷ tried) q' ≡ some p = ground (arith, next, h) in
          let found : find e.local_id q.store ≡ some e =
            ground (arith, next, find-untried tried q.store e) in
          drain-IsSafe fuel x rounds (e.local_id ∷ tried) q' p others
            (enqueue_all-IsSafe x round.arrivals q1 (others fuel)
              (handle_entry-IsSafe x round.attempt e q found safe))
            h'
    ]
