-- ===== src/Handlers/Notify/Stored.antt =====
-- From a notification of handlers/job_status_notification.go to the rows of jobs/postgres_store.go.
use batchiepatchie.Prelude.{String, false, some, List, [], ◌∷◌, ◌≡◌, refl, ◌==◌, if◌then◌else◌, inl}
use batchiepatchie.Prelude.Io.{ok}
use batchiepatchie.Jobs.{Time}
use batchiepatchie.Store.Db.{Session}
use batchiepatchie.Store.Transactions.{NoFaults}
use batchiepatchie.Store.Upsert.{store_jobs, upsert_db}
use batchiepatchie.Store.Upsert.Rows.{find_row, find_row-upsert, written}
use batchiepatchie.Store.Upsert.Events.{status_at}
use batchiepatchie.Store.Upsert.Batch.{store_jobs-NoFaults, upsert_all, status_at-upsert}
use batchiepatchie.Handlers.Notify.{JobStatusNotification, notified_job, job_status_notification}

-- Without faults a notification that names its job is stored: the row of its job is the one that
-- the statement writes for it, with the status of the notification, and no other row changes.
pub job_status_notification_lem :
    (marshal : List String → String) (now : Time) (notification : JobStatusNotification)
    (s : Session) (k : String)
    → NoFaults s
    → (notification.detail.job_name == "") ≡ false
    → let r = job_status_notification marshal store_jobs now (inl notification) s in
      let job = notified_job marshal now notification.detail in
      (r.0 ≡ ok tt)
      × (find_row k r.1.db.jobs ≡ (
          if job.id == k then some (written job (find_row k s.db.jobs)) else find_row k s.db.jobs))
      × (status_at k r.1.db.jobs ≡ (
          if notification.detail.job_id == k
          then some notification.detail.status
          else status_at k s.db.jobs))
unfolding job_status_notification upsert_all upsert_db notified_job
job_status_notification_lem marshal now notification s k h n =
    let job = notified_job marshal now notification.detail in
    rw n (
      rw (store_jobs-NoFaults (job ∷ []) s h)
        (refl, find_row-upsert job k s.db.jobs, status_at-upsert job k s.db.jobs))
