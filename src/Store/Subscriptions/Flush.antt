-- ===== src/Store/Subscriptions/Flush.antt =====
-- What a flush of jobs/postgres_store.go takes from the database and whom it tells.
use batchiepatchie.Prelude.{String, ◌≡◌, refl, ◌∙◌, ap, Option, none, some, List, [], ◌∷◌, ◌++◌}
use mathlib.Core.List.{append_assoc, append-nil}
use batchiepatchie.Prelude.Io.{Outcome, ok, err, bind_outcome, attempt_outcome, ◌>>=◌, ◌>>◌, pure}
use batchiepatchie.Jobs.{Job}
use batchiepatchie.Store.Db.{Db, Session, query, exec}
use batchiepatchie.Store.Transactions.{
  NoFaults, query-NoFaults, exec-NoFaults, transaction-NoFaults,
}
use batchiepatchie.Store.Upsert.Rows.{find_row}
use batchiepatchie.Store.Queries.{find_one, joined, scan_row}
use batchiepatchie.Store.Queries.One.{found, joined-find_row}
use batchiepatchie.Store.Subscriptions.{
  StoreState, take_events, add_found, find_each, deliver, flush_job_status_subscriptions,
}

take_events-NoFaults :
    (s : Session)
    → NoFaults s
    → take_events s
      ≡ (ok s.db.job_status_events, record s { db = record (s.db) { job_status_events = [] } })
unfolding take_events
take_events-NoFaults s h = transaction-NoFaults _ s _ s.db.job_status_events h body h
  where
    body :
        (query (λ _ db. db.job_status_events) >>= λ ids.
        exec (λ _ db. record db { job_status_events = [] }) >> pure ids)
          s
        ≡ (ok s.db.job_status_events, record s { db = record (s.db) { job_status_events = [] } })
    body =
        rw (query-NoFaults (λ _ db. db.job_status_events) s h)
          (rw (exec-NoFaults (λ _ db. record db { job_status_events = [] }) s h))

abbrev add_some : Option Job → List Job → List Job
add_some none jobs = jobs
add_some (some job) jobs = job ∷ jobs

-- The jobs of a list of ids, as `FindOne` reads them; an id without a row is passed over.
unfoldable pub present : List String → Db → List Job
present [] db = []
present (id ∷ ids) db = add_some (found db.task_arns (find_row id db.jobs)) (present ids db)

abbrev find_one_outcome : Option Job → Outcome Job
find_one_outcome none = err "sql: Scan called without calling Next"
find_one_outcome (some job) = ok job

find_one-NoFaults :
    (id : String) (s : Session)
    → NoFaults s
    → find_one id s ≡ (find_one_outcome (found s.db.task_arns (find_row id s.db.jobs)), s)
unfolding find_one
find_one-NoFaults id s h = rw (query-NoFaults (λ _ db. joined id db.task_arns db.jobs) s h) (
    rw (joined-find_row id s.db.task_arns s.db.jobs)
      (go (found s.db.task_arns (find_row id s.db.jobs))))
  where
    go : (o : Option Job) → scan_row o s ≡ (find_one_outcome o, s)
    go none = refl
    go (some job) = refl

add_found_lem :
    (ids : List String) (jobs : List Job) (s : Session) (o : Option Job)
    → ((l : List Job) → find_each ids l s ≡ (ok (l ++ present ids s.db), s))
    → bind_outcome (attempt_outcome (find_one_outcome o)) (λ f. find_each ids (add_found f jobs)) s
      ≡ (ok (jobs ++ add_some o (present ids s.db)), s)
add_found_lem ids jobs s none ih = ih jobs
add_found_lem ids jobs s (some job) ih =
    ih (jobs ++ job ∷ []) ∙ ap (λ l. (ok l, s)) (append_assoc jobs (job ∷ []) (present ids s.db))

-- The jobs do not depend on the events.
present_same :
    (ids : List String) (db : Db)
    → present ids (record db { job_status_events = [] }) ≡ present ids db
unfolding present
present_same [] db = refl
present_same (id ∷ ids) db =
    ap (add_some (found db.task_arns (find_row id db.jobs))) (present_same ids db)

find_each-NoFaults :
    (ids : List String) (jobs : List Job) (s : Session)
    → NoFaults s
    → find_each ids jobs s ≡ (ok (jobs ++ present ids s.db), s)
unfolding find_each present
find_each-NoFaults [] jobs s h = rw append-nil
find_each-NoFaults (id ∷ ids) jobs s h = rw (find_one-NoFaults id s h) (
    add_found_lem ids jobs s (found s.db.task_arns (find_row id s.db.jobs))
      (λ l. find_each-NoFaults ids l s h))

-- With no fault, the events are taken out of the database.
abbrev pub without_events : StoreState → StoreState
without_events w = record w {
  session = record (w.session) { db = record (w.session.db) { job_status_events = [] } };
}

-- A flush without faults empties the table of events, and sends the row of each job that has an
-- event and a row, in the order of the events.
pub flush-NoFaults :
    (w : StoreState)
    → NoFaults w.session
    → flush_job_status_subscriptions w
      ≡ deliver (present w.session.db.job_status_events w.session.db) (without_events w)
unfolding flush_job_status_subscriptions
flush-NoFaults w h = rw (take_events-NoFaults w.session h) (
    rw (find_each-NoFaults w.session.db.job_status_events [] (without_events w).session h) (
      ap (λ jobs. deliver jobs (without_events w))
        (present_same w.session.db.job_status_events w.session.db)))
