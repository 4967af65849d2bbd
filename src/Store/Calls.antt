-- ===== src/Store/Calls.antt =====
-- jobs/postgres_store.go: `Store` and `StaleOldJobs` as their callers see them, with the flush of
-- the subscriptions that ends both.
pub mod Notified
pub mod Told
pub mod Tells
pub mod Atomic
pub mod Marks
use batchiepatchie.Prelude.{String, List, [], ◌∷◌}
use batchiepatchie.Prelude.Io.{pure, ◌>>=◌, ◌>>◌, Io}
use batchiepatchie.Jobs.{Job}
use batchiepatchie.Store.Upsert.{store_jobs}
use batchiepatchie.Store.Stale.{stale_old_jobs}
use batchiepatchie.Store.Subscriptions.{StoreState, on_session, flush_job_status_subscriptions}

-- `Store`: nothing is done for no jobs.
unfoldable pub store : List Job → Io StoreState (Unit {0})
store [] = pure tt
store (job ∷ jobs) = on_session (store_jobs (job ∷ jobs)) >> flush_job_status_subscriptions

-- `StaleOldJobs`.
unfoldable pub stale : List String → Io StoreState (Unit {0})
stale known = on_session (stale_old_jobs known) >> flush_job_status_subscriptions
