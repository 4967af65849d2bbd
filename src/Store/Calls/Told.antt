-- ===== src/Store/Calls/Told.antt =====
-- From a new status of a job to the channels of its subscribers.
use batchiepatchie.Prelude.{
  ℕ, ◌+◌, ◌≤◌, String, false, ◌≡◌, refl, sym, subst, ap, eqb, ◌∙◌, some, List, [], ◌∷◌, ◌++◌, ◌==◌,
  length, eq_iff, eq_refl, Bool-cases, inl, inr, Option-cases, if◌then◌else◌,
}
use mathlib.Core.List.{append-nil}
use batchiepatchie.Prelude.Io.{ok}
use batchiepatchie.Jobs.{Job}
use batchiepatchie.Store.Db.{JobRow, Db}
use batchiepatchie.Store.Transactions.{NoFaults}
use batchiepatchie.Store.Queries.{find_task, job_of_row}
use batchiepatchie.Store.Upsert.{add_event, upsert_events, upsert_db}
use batchiepatchie.Store.Upsert.Rows.{
  find_row, find_row-upsert, write_row-job_id, insert_row-job_id, written,
}
use batchiepatchie.Store.Upsert.Events.{status_at, same_status, upsert_events_lem}
use batchiepatchie.Store.Upsert.Batch.{upsert_all, written-status}
use batchiepatchie.Store.Subscriptions.{
  StoreState, Hub, channels, capacity, to_each, sends, run_sends, sent, deliver,
}
use batchiepatchie.Store.Subscriptions.Delivery.{for_channel, run_sends_order, run_sends_done}
use batchiepatchie.Store.Subscriptions.Flush.{present}
use batchiepatchie.Store.Calls.{store}
use batchiepatchie.Store.Calls.Notified.{store_lem}

-- The job as its subscribers are told of it: the row as it is written, with its task.
abbrev pub told : Job → Db → Job
told j db =
    let row = written j (find_row j.id db.jobs) in
    job_of_row row (find_task row.task_arn db.task_arns)

find_row-job_id :
    (k : String) (rows : List JobRow) {row : JobRow} → find_row k rows ≡ some row → row.job_id ≡ k
unfolding find_row
find_row-job_id k [] h = cc
find_row-job_id k (r ∷ rows) {row} h = elim (Bool-cases (r.job_id == k)) [
  | inl e ↦
      let same : r ≡ row = cc (rw e at h) in ap (λ x. x.job_id) (sym same) ∙ (eq_iff r.job_id k).0 e
  | inr e ↦ find_row-job_id k rows (rw e at h)
]

told-id : (j : Job) (db : Db) → (told j db).id ≡ j.id
unfolding job_of_row
told-id j db = elim (Option-cases (find_row j.id db.jobs)) [
  | inl e ↦ rw e (insert_row-job_id j)
  | inr (row, e) ↦ rw e (write_row-job_id j row ∙ find_row-job_id j.id db.jobs e)
]

told-status : (j : Job) (db : Db) → (told j db).status ≡ j.status
unfolding job_of_row
told-status j db = written-status j (find_row j.id db.jobs)

new_event :
    (j : Job) (db : Db)
    → same_status (status_at j.id db.jobs) (some j.status) ≡ false
    → upsert_events j db.jobs [] ≡ j.id ∷ []
unfolding add_event
new_event j db h =
    rw (upsert_events_lem j db.jobs [], written-status j (find_row j.id db.jobs), h) refl

present-told : (j : Job) (db : Db) → present (j.id ∷ []) (upsert_db j db) ≡ told j db ∷ []
unfolding present upsert_db
present-told j db = rw (find_row-upsert j j.id db.jobs, eq_refl j.id) refl

events-told :
    (j : Job) (db : Db)
    → db.job_status_events ≡ []
    → same_status (status_at j.id db.jobs) (some j.status) ≡ false
    → (upsert_db j db).job_status_events ≡ j.id ∷ []
unfolding upsert_db
events-told j db n h = ap (upsert_events j db.jobs) n ∙ new_event j db h

sends-told :
    (j : Job) (db : Db) (hub : Hub)
    → db.job_status_events ≡ []
    → same_status (status_at j.id db.jobs) (some j.status) ≡ false
    → sends (present (upsert_db j db).job_status_events (upsert_db j db)) hub
      ≡ to_each (told j db) (channels j.id hub)
unfolding sends
sends-told j db hub n h =
    ap (λ ids. sends (present ids (upsert_db j db)) hub) (events-told j db n h)
    ∙ ap (λ jobs. sends jobs hub) (present-told j db)
    ∙ append-nil (to_each (told j db) (channels (told j db).id hub))
    ∙ ap (λ id. to_each (told j db) (channels id hub)) (told-id j db)

-- Sends that all have room are all made.
pub sent-room :
    (c : ℕ) (s : List (ℕ × Job)) (hub : Hub)
    → ((c : ℕ) → length (hub.buffer c) + length (for_channel c s) ≤ capacity)
    → ((sent (run_sends s hub.buffer) hub).0 ≡ ok tt)
      × ((sent (run_sends s hub.buffer) hub).1.buffer c ≡ hub.buffer c ++ for_channel c s)
unfolding for_channel
sent-room c s hub room =
    let o = run_sends_order c s hub.buffer in
    let d = run_sends_done s hub.buffer room in
    rw d (refl, sym (append-nil ((run_sends s hub.buffer).0 c)) ∙ rw d at o)

-- A job, once for each time that a channel stands in a list.
abbrev pub copies : ℕ → Job → List ℕ → List Job
copies c job [] = []
copies c job (d ∷ ds) = if eqb d c then job ∷ copies c job ds else copies c job ds

pub for_channel-to_each :
    (c : ℕ) (job : Job) (cs : List ℕ) → for_channel c (to_each job cs) ≡ copies c job cs
unfolding for_channel to_each
for_channel-to_each c job [] = refl
for_channel-to_each c job (d ∷ ds) = rw (for_channel-to_each c job ds)

-- Without faults, with no event pending and with room in the buffers, a job that is stored with a
-- new status is sent once to each channel of its subscribers, behind what waits there, as it was
-- written and with the new status, and to no other channel.
pub status_change-told :
    (j : Job) (w : StoreState)
    → NoFaults w.session
    → w.session.db.job_status_events ≡ []
    → same_status (status_at j.id w.session.db.jobs) (some j.status) ≡ false
    → ((c : ℕ)
        → length (w.hub.buffer c) + length (copies c (told j w.session.db) (channels j.id w.hub))
          ≤ capacity)
    → ((store (j ∷ []) w).0 ≡ ok tt)
      × ((told j w.session.db).status ≡ j.status)
      × ((c : ℕ)
          → (store (j ∷ []) w).1.hub.buffer c
            ≡ w.hub.buffer c ++ copies c (told j w.session.db) (channels j.id w.hub))
unfolding upsert_all deliver
status_change-told j w h n new room =
    let t = told j w.session.db in
    let cs = channels j.id w.hub in
    let one = to_each t cs in
    let same : (c : ℕ) → for_channel c one ≡ copies c t cs = λ c. for_channel-to_each c t cs in
    let enough : (c : ℕ) → length (w.hub.buffer c) + length (for_channel c one) ≤ capacity =
      λ c. subst (λ l. length (w.hub.buffer c) + length l ≤ capacity) (sym (same c)) (room c) in
    rw (store_lem j [] w h) (
      rw (sends-told j w.session.db w.hub n new) (
        (sent-room 0 one w.hub enough).0,
        told-status j w.session.db,
        λ c. (sent-room c one w.hub enough).1 ∙ ap (λ l. w.hub.buffer c ++ l) (same c),
      ))
