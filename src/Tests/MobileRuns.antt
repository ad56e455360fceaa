-- ===== src/Tests/MobileRuns.antt =====
-- apps/mobile/src/lib/syncQueue.ts on a small outbox.
use omnia_note.Prelude.{
  arith, ◌+◌, ◌≤◌, ◌≡◌, Option, is_some, count, ℕ, insert, if◌then◌else◌, ◌==◌, delete_where, refl,
  true, some, none, [], ◌∷◌, List, find_first, All, indicator, not,
}
use omnia_note.Shared.Enums.{queued, failed, photo}
use omnia_note.Mobile.Outbox.{OutboxEntry, put, delete, find}
use omnia_note.Mobile.SyncQueue.{
  Queue, Attempt, Round, Pass, sync_stages, drain, handle_entry, enqueue_all, sync_one, started,
  server_created, server_completed, kept_as_failed, shown_as_synced, removed, after_create,
}
use omnia_note.Mobile.Durability.{keeps}
use omnia_note.Mobile.Safekeeping.{IsSafe, sync_stages-IsSafe, drain-IsSafe}
use omnia_note.Mobile.Termination.{arriving, drain_returns}
use omnia_note.Mobile.SyncQueue.{marked, message, retry, contains, drain_queue}
use omnia_note.Mobile.Delivery.{drain_queue_delivers}
use omnia_note.Mobile.Duplicates.{times, retry_creates_again, drain_creates_once}
use omnia_note.Mobile.ApiClient.{Reply, Renewal, renewed, denied, Api, Client}
use omnia_note.Mobile.Account.{
  Call, logs_in, fetches, logs_out, tokens, mfa_required, run_calls, is_logged_in,
}
use omnia_note.Mobile.Account.Sessions.{IsPaired, session, run_calls-session}

abbrev captured : OutboxEntry
captured = record {
  local_id = 1;
  type = photo;
  title = "Roof";
  body = none;
  location_id = none;
  folder_id = none;
  spot_id = none;
  stamps = none;
  tag_names = none;
  file_extension = some "jpg";
  content_type = some "image/jpeg";
  file_blob = some (record { size = 10; content = 3 });
  thumbnail_blob = none;
  client_created_at = 5;
  status = queued;
  error_message = none;
  created_at = 5;
}

abbrev outbox : Queue
outbox = record {
  store = captured ∷ record captured { local_id = 2; status = failed } ∷ [];
  created = [];
  completed = [];
}

-- The item is created, and its upload fails.
abbrev upload_fails : Attempt
upload_fails = record {
  create_error = none;
  gives_upload_url = true;
  upload_error = some (some "Failed to fetch");
  confirm_error = none;
}

abbrev all_well : Attempt
all_well = record upload_fails { upload_error = none }

-- The first entry's upload fails, the second succeeds.
abbrev rounds : ℕ → Round
rounds fuel = record {
  online = true;
  attempt = (if fuel == 2 then upload_fails else all_well);
  arrivals = [];
}

sync_stages-IsSafe_example : All (IsSafe captured) (sync_stages upload_fails captured outbox)
unfolding find find_first
sync_stages-IsSafe_example =
    sync_stages-IsSafe captured upload_fails captured outbox refl (refl, tt)

abbrev first_kept : Pass
first_kept = record {
  queue = record {
    store = record captured { status = failed; error_message = some "Failed to fetch" } ∷ [];
    created = 1 ∷ 2 ∷ [];
    completed = record captured { local_id = 2; status = failed } ∷ [];
  };
  tried = 2 ∷ 1 ∷ [];
}

drain-IsSafe_example : IsSafe captured first_kept.queue
unfolding find find_first drain handle_entry enqueue_all sync_one sync_stages started server_created
    server_completed kept_as_failed shown_as_synced removed after_create put delete insert
    delete_where
drain-IsSafe_example = drain-IsSafe 3 captured rounds [] outbox first_kept (λ n. tt) (refl, tt) refl

drain_returns_example : is_some (drain 3 rounds [] outbox) ≡ true
unfolding count arriving
drain_returns_example = drain_returns 3 rounds [] outbox (ground arith)

-- An API that takes only the access token 9, and gives it for the refresh token 5.
abbrev answers : Option ℕ → Option Reply
answers none = some (record { status = 401; error_text = none; value = 0 })
answers (some t) =
    if t == 9
    then some (record { status = 200; error_text = none; value = 42 })
    else some (record { status = 401; error_text = some "Unauthorized"; value = 0 })

abbrev renews : ℕ → Renewal
renews t = if t == 5 then renewed (record { access = 9; refresh = 6 }) else denied

abbrev small_api : Api
small_api = record { first = answers; second = answers; renew = renews }

abbrev client : Client
client = record { access = some 8; refresh = some 5; sent = []; renewals = [] }

retry_creates_again_example :
    (find 1 (sync_one upload_fails captured outbox).store
      ≡ some (marked failed (some (message (some "Failed to fetch"))) captured))
    × ((retry true all_well 1 (sync_one upload_fails captured outbox)).created
        ≡ insert 1 (insert 1 outbox.created))
retry_creates_again_example =
    retry_creates_again upload_fails all_well captured outbox (some "Failed to fetch") refl refl
      refl

drain_creates_once_example :
    times 1 first_kept.queue.created ≤ indicator (not (contains 1 [])) + times 1 outbox.created
unfolding find_first drain handle_entry enqueue_all sync_one sync_stages started server_created
    server_completed kept_as_failed shown_as_synced removed after_create put delete insert
    delete_where
drain_creates_once_example = drain_creates_once 3 1 rounds [] outbox first_kept refl

abbrev good_rounds : ℕ → Round
good_rounds fuel = record { online = true; attempt = all_well; arrivals = [] }

drain_queue_delivers_example :
    (p : Pass) × (drain_queue 3 good_rounds outbox ≡ some p)
    × (find 1 p.queue.store ≡ none)
    × (contains 1 p.queue.created ≡ true)
unfolding keeps find find_first count
drain_queue_delivers_example =
    drain_queue_delivers 3 1 good_rounds outbox
      (λ n. record { online = refl; creates = refl; uploads = refl; confirms = refl; quiet = refl })
      (ground arith) refl

-- A sign-in, a request after it, and a sign-out that is followed by a sign-in asking for a code.
abbrev visits : List Call
visits =
    logs_in small_api (λ v. tokens (record { access = 9; refresh = 6 }))
    ∷ fetches small_api
    ∷ logs_out small_api
    ∷ logs_in small_api (λ v. mfa_required 3)
    ∷ []

run_calls-session_example :
    IsPaired (run_calls visits client).1
    × (is_logged_in (run_calls visits client).1
        ≡ session (run_calls visits client).0 (is_logged_in client))
run_calls-session_example = run_calls-session visits client refl
