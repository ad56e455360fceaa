-- ===== src/Mobile/SyncQueue.antt =====
-- apps/mobile/src/lib/syncQueue.ts: the outbox is drained entry by entry. What the network answers is
-- the environment's: an `Attempt` for each call of `syncOne`, a `Round` for each turn of the loop.
use omnia_note.Prelude.{
  ℕ, zero, suc, String, Bool, true, false, not, ◌&&◌, ◌||◌, Option, none, some, List, [], ◌∷◌, ◌==◌,
  is_some, find_first, insert, if◌then◌else◌,
}
use omnia_note.Shared.Enums.{SyncStatus, queued, uploading, synced, failed}
use omnia_note.Mobile.Outbox.{OutboxEntry, Store, put, delete, find}

-- The outbox; the local ids of the entries for which the server has created an item, in order; and the entries that
-- the server has in full, their file, where it asked for one, uploaded and confirmed. The last two are not
-- stored anywhere, and serve to state what the server has.
pub record Queue : Type 0 where
  pub store : Store
  pub created : List ℕ
  pub completed : List OutboxEntry

-- A rejected promise: the message of an Error, or anything else.
abbrev pub Failure : Type 0
Failure = Option String

-- What the network answers during one call of `syncOne`: whether `itemsApi.create` fails, or which
-- URLs it gives; whether the upload fails, and the confirmation.
pub record Attempt : Type 0 where
  pub create_error : Option Failure
  pub gives_upload_url : Bool
  pub upload_error : Option Failure
  pub confirm_error : Option Failure

abbrev pub message : Failure → String
message none = "Couldn't sync — will retry automatically."
message (some m) = m

abbrev pub marked : SyncStatus → Option String → OutboxEntry → OutboxEntry
marked status error e = record e { status = status; error_message = error }

abbrev pub store_entry : OutboxEntry → Queue → Queue
store_entry e q = record q { store = put e q.store }

-- The upload and its confirmation, where there is a URL and a file. The thumbnail's upload is best
-- effort, and its failure has no effect.
abbrev pub upload_failure : Attempt → OutboxEntry → Option Failure
upload_failure a e =
    if a.gives_upload_url && is_some e.file_blob
    then (elim a.upload_error [ none ↦ a.confirm_error | some f ↦ some f ])
    else none

-- The states that the store passes through in `syncOne`, an await between each two: the app may be
-- closed at any of them. The last one is the result.
unfoldable pub started : OutboxEntry → Queue → Queue
started e q = store_entry (marked uploading none e) q

unfoldable pub server_created : OutboxEntry → Queue → Queue
server_created e q = record q { created = insert e.local_id q.created }

-- Whether the server has the whole of an entry that it created: either no file was to be sent, or the file was
-- uploaded and confirmed.
abbrev pub is_complete : Attempt → OutboxEntry → Bool
is_complete a e =
    not (a.gives_upload_url && is_some e.file_blob)
    || not (is_some a.upload_error) && not (is_some a.confirm_error)

unfoldable pub server_completed : Attempt → OutboxEntry → Queue → Queue
server_completed a e q = record q {
  completed = (if is_complete a e then insert e q.completed else q.completed);
}

unfoldable pub kept_as_failed : OutboxEntry → Failure → Queue → Queue
kept_as_failed e f q = store_entry (marked failed (some (message f)) e) q

unfoldable pub shown_as_synced : OutboxEntry → Queue → Queue
shown_as_synced e q = store_entry (marked synced none e) q

unfoldable pub removed : OutboxEntry → Queue → Queue
removed e q = record q { store = delete e.local_id q.store }

unfoldable pub after_create : Attempt → OutboxEntry → Queue → List Queue
unfolding server_completed kept_as_failed shown_as_synced removed
after_create a e q = elim (upload_failure a e) [
  | some f ↦ kept_as_failed e f q ∷ []
  | none ↦
      server_completed a e q
      ∷ shown_as_synced e (server_completed a e q)
      ∷ removed e (shown_as_synced e (server_completed a e q))
      ∷ []
]

unfoldable pub sync_stages : Attempt → OutboxEntry → Queue → List Queue
unfolding started server_created kept_as_failed after_create
sync_stages a e q = elim a.create_error [
  | some f ↦ started e q ∷ kept_as_failed e f (started e q) ∷ []
  | none ↦
      started e q
      ∷ server_created e (started e q)
      ∷ after_create a e (server_created e (started e q))
]

abbrev pub last_or : Queue → List Queue → Queue
last_or q [] = q
last_or q (r ∷ rs) = last_or r rs

unfoldable pub sync_one : Attempt → OutboxEntry → Queue → Queue
unfolding sync_stages
sync_one a e q = last_or q (sync_stages a e q)

-- Omit<OutboxEntry, …> with the id, the status and the time that `enqueue` adds
unfoldable pub enqueue : OutboxEntry → Queue → Queue
enqueue e q = store_entry (marked queued none e) q

unfoldable pub enqueue_all : List OutboxEntry → Queue → Queue
unfolding enqueue
enqueue_all [] q = q
enqueue_all (e ∷ es) q = enqueue_all es (enqueue e q)

abbrev pub is_failed : SyncStatus → Bool
is_failed failed = true
is_failed _ = false

abbrev pub is_synced : SyncStatus → Bool
is_synced synced = true
is_synced _ = false

-- The action of a tap on "retry", while it holds the lock.
unfoldable pub retry : (online : Bool) → Attempt → ℕ → Queue → Queue
unfolding sync_one
retry online a id q =
    if online
    then (elim (find id q.store) [
      | none ↦ q
      | some e ↦ if is_failed e.status then sync_one a e q else q
    ])
    else q

abbrev pub contains : ℕ → List ℕ → Bool
contains id [] = false
contains id (x ∷ xs) = x == id || contains id xs

-- One turn of the loop of `drainQueue`: whether the device is online at its start, the network's
-- answers, and the entries that are enqueued before the store is read again.
pub record Round : Type 0 where
  pub online : Bool
  pub attempt : Attempt
  pub arrivals : List OutboxEntry

-- A pass ends with the queue and the ids that it tried.
pub record Pass : Type 0 where
  pub queue : Queue
  pub tried : List ℕ

abbrev pub untried : List ℕ → OutboxEntry → Bool
untried tried e = not (contains e.local_id tried)

-- A SYNCED entry was created before the app closed: it is only cleaned up.
unfoldable pub handle_entry : Attempt → OutboxEntry → Queue → Queue
unfolding removed sync_one
handle_entry a e q = if is_synced e.status then removed e q else sync_one a e q

-- The loop, on fuel; `none` means that the fuel ran out.
unfoldable pub drain : ℕ → (ℕ → Round) → List ℕ → Queue → Option Pass
unfolding handle_entry enqueue_all
drain zero rounds tried q = none
drain (suc fuel) rounds tried q =
    let round = rounds fuel in
    elim (if round.online then find_first (untried tried) q.store else none) [
      | none ↦ some (record { queue = q; tried = tried })
      | some e ↦
          drain fuel rounds (e.local_id ∷ tried)
            (enqueue_all round.arrivals (handle_entry round.attempt e q))
    ]

-- `drainQueue` starts with an empty set, under the lock.
unfoldable pub drain_queue : ℕ → (ℕ → Round) → Queue → Option Pass
unfolding drain
drain_queue fuel rounds q = drain fuel rounds [] q
