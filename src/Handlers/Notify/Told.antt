-- ===== src/Handlers/Notify/Told.antt =====
-- From a notification of handlers/job_status_notification.go to the subscribers of its job.
use batchiepatchie.Prelude.{
  ℕ, ◌+◌, ◌≤◌, String, false, some, List, [], ◌++◌, ◌≡◌, ◌==◌, inl, length,
}
use batchiepatchie.Prelude.Io.{ok}
use batchiepatchie.Jobs.{Time}
use batchiepatchie.Store.Transactions.{NoFaults}
use batchiepatchie.Store.Upsert.Events.{status_at, same_status}
use batchiepatchie.Store.Subscriptions.{StoreState, channels, capacity}
use batchiepatchie.Store.Calls.{store}
use batchiepatchie.Store.Calls.Told.{told, copies, status_change-told}
use batchiepatchie.Handlers.Notify.{JobStatusNotification, notified_job, job_status_notification}

-- Without faults, with no event pending and with room in the buffers, a notification that names its
-- job and has a new status for it is sent once to each channel of the job's subscribers, behind what
-- waits there, as the job's row with that status, and to no other channel.
pub job_status_notification-told :
    (marshal : List String → String) (now : Time) (notification : JobStatusNotification)
    (w : StoreState)
    → (notification.detail.job_name == "") ≡ false
    → NoFaults w.session
    → w.session.db.job_status_events ≡ []
    → same_status
        (status_at notification.detail.job_id w.session.db.jobs)
        (some notification.detail.status)
      ≡ false
    → ((c : ℕ)
        → length (w.hub.buffer c)
            + length (
                copies c
                  (told (notified_job marshal now notification.detail) w.session.db)
                  (channels notification.detail.job_id w.hub))
          ≤ capacity)
    → let r = job_status_notification marshal store now (inl notification) w in
      let row = told (notified_job marshal now notification.detail) w.session.db in
      (r.0 ≡ ok tt)
      × (row.status ≡ notification.detail.status)
      × ((c : ℕ)
          → r.1.hub.buffer c
            ≡ w.hub.buffer c ++ copies c row (channels notification.detail.job_id w.hub))
unfolding job_status_notification notified_job
job_status_notification-told marshal now notification w named h n new room =
    rw named (status_change-told (notified_job marshal now notification.detail) w h n new room)
