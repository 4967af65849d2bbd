-- ===== src/Tests/Watchers.antt =====
-- The theorems about the subscribers of the store, on concrete channels.
use batchiepatchie.Prelude.{
  ◌⊎◌, some, inl, ℕ, ◌+◌, ◌≤◌, ◌≡◌, refl, none, List, [], ◌∷◌, ◌++◌, arith, length,
}
use batchiepatchie.Prelude.Dict.{lookup}
use batchiepatchie.Jobs.{Job}
use batchiepatchie.Store.Upsert.Batch.{upsert_all}
use batchiepatchie.Store.Stale.{stale_db, stale_events, stale_rows, stale_row, is_stale}
use batchiepatchie.Store.Calls.{store, stale}
use batchiepatchie.Store.Calls.Notified.{with_db}
use batchiepatchie.Store.Calls.Tells.{HasRoom, Tells, store-Tells, stale-Tells}
use batchiepatchie.Store.Calls.Atomic.{FlushedFrom, store_atomic, stale_atomic}
use batchiepatchie.Store.Calls.Marks.{IsMarked, stale-marks}
use batchiepatchie.Store.Upsert.{upsert_db, upsert_events, add_event}
use batchiepatchie.Store.Db.{Db}
use batchiepatchie.Store.Queries.{job_of_row}
use batchiepatchie.Store.Subscriptions.Flush.{present}
use batchiepatchie.Store.Calls.Told.{told, copies, status_change-told}
use batchiepatchie.Store.Upsert.Rows.{find_row}
use batchiepatchie.Store.Upsert.Events.{status_at}
use batchiepatchie.Prelude.Io.{ok}
use batchiepatchie.Store.Subscriptions.{StoreState, channels, capacity}
use batchiepatchie.Handlers.Notify.{notified_job, job_status_notification}
use batchiepatchie.Handlers.Notify.Told.{job_status_notification-told}
use batchiepatchie.Tests.{job_with, row_with, later, some_db, some_store, noon}
use batchiepatchie.Tests.Api.{marshal, notification}

abbrev two_sends : List (ℕ × Job)
two_sends = (0, job_with "a" "RUNNING" none) ∷ (0, job_with "b" "FAILED" none) ∷ []

abbrev empty_buffer : ℕ → List Job
empty_buffer c = []

-- A store whose events were all told.
abbrev quiet_store : StoreState
quiet_store = with_db (record some_db { job_status_events = [] }) some_store

channels_of_a : channels "a" quiet_store.hub ≡ 0 ∷ 1 ∷ []
unfolding channels lookup
channels_of_a = refl

has_room :
    (job : Job) (c : ℕ)
    → length (quiet_store.hub.buffer c) + length (copies c job (channels "a" quiet_store.hub))
      ≤ capacity
has_room job c = rw channels_of_a (ground arith)

status_change-told_example :
    let j = job_with "a" "FAILED" none in
    ((store (j ∷ []) quiet_store).0 ≡ ok tt)
    × ((told j quiet_store.session.db).status ≡ "FAILED")
    × ((c : ℕ)
        → (store (j ∷ []) quiet_store).1.hub.buffer c
          ≡ quiet_store.hub.buffer c
            ++ copies c (told j quiet_store.session.db) (channels "a" quiet_store.hub))
unfolding status_at find_row
status_change-told_example =
    status_change-told (job_with "a" "FAILED" none) quiet_store refl refl refl
      (has_room (told (job_with "a" "FAILED" none) quiet_store.session.db))

job_status_notification-told_example :
    let r = job_status_notification marshal store noon (inl notification) quiet_store in
    let row = told (notified_job marshal noon notification.detail) quiet_store.session.db in
    (r.0 ≡ ok tt)
    × (row.status ≡ "FAILED")
    × ((c : ℕ)
        → r.1.hub.buffer c
          ≡ quiet_store.hub.buffer c ++ copies c row (channels "a" quiet_store.hub))
unfolding status_at find_row
job_status_notification-told_example =
    job_status_notification-told marshal noon notification quiet_store refl refl refl refl
      (has_room (told (notified_job marshal noon notification.detail) quiet_store.session.db))

-- The tables once a job is written, and once the jobs are marked.
abbrev stored_db : Db
stored_db = upsert_all (job_with "a" "FAILED" none ∷ []) some_store.session.db

abbrev staled_db : Db
staled_db = stale_db ("b" ∷ []) some_store.session.now some_store.session.db

store-HasRoom : HasRoom some_store.hub stored_db
unfolding upsert_all upsert_db upsert_events add_event present channels lookup job_of_row
store-HasRoom c = ground arith

stale-HasRoom : HasRoom some_store.hub staled_db
unfolding stale_db stale_events stale_rows stale_row is_stale add_event present channels lookup
    job_of_row
stale-HasRoom c = ground arith

store-Tells_example :
    Tells some_store.hub stored_db (store (job_with "a" "FAILED" none ∷ []) some_store)
store-Tells_example = store-Tells (job_with "a" "FAILED" none) [] some_store refl store-HasRoom

stale-Tells_example : Tells some_store.hub staled_db (stale ("b" ∷ []) some_store)
stale-Tells_example = stale-Tells ("b" ∷ []) some_store refl (refl, tt) stale-HasRoom

-- The flush fails in its first call.
abbrev failing_store : StoreState
failing_store = record some_store {
  session = record later { answers = none ∷ none ∷ none ∷ none ∷ some "connection reset" ∷ [] };
}

store_atomic_example :
    let after = (store (job_with "a" "FAILED" none ∷ []) failing_store).1.session.db in
    FlushedFrom failing_store.session.db after ⊎ FlushedFrom stored_db after
store_atomic_example = store_atomic (job_with "a" "FAILED" none ∷ []) failing_store

stale_atomic_example :
    let after = (stale ("b" ∷ []) failing_store).1.session.db in
    FlushedFrom failing_store.session.db after ⊎ FlushedFrom staled_db after
stale_atomic_example = stale_atomic ("b" ∷ []) failing_store

stale-marks_example :
    IsMarked later.now
      ("b" ∷ [])
      (row_with "a" "RUNNING")
      (find_row "a" (stale ("b" ∷ []) some_store).1.session.db.jobs)
unfolding find_row
stale-marks_example =
    stale-marks ("b" ∷ []) some_store "a" (row_with "a" "RUNNING") refl (refl, tt) refl
