-- ===== src/Store/Calls/Notified.antt =====
-- What the subscribers of a store are sent when jobs are written or marked.
use batchiepatchie.Prelude.{String, ◌≡◌, List, ◌∷◌}
use batchiepatchie.Prelude.Dict.{Distinct}
use batchiepatchie.Prelude.Io.{Outcome}
use batchiepatchie.Jobs.{Job}
use batchiepatchie.Store.Db.{Db}
use batchiepatchie.Store.Transactions.{NoFaults}
use batchiepatchie.Store.Upsert.Batch.{upsert_all, store_jobs-NoFaults}
use batchiepatchie.Store.Stale.{stale_db}
use batchiepatchie.Store.Stale.Run.{stale_old_jobs-NoFaults}
use batchiepatchie.Store.Subscriptions.{StoreState, deliver}
use batchiepatchie.Store.Subscriptions.Flush.{present, without_events, flush-NoFaults}
use batchiepatchie.Store.Calls.{store, stale}

-- The state of a store with other tables.
abbrev pub with_db : Db → StoreState → StoreState
with_db db w = record w { session = record (w.session) { db = db } }

-- What a flush does in a state.
abbrev pub flushed : StoreState → Outcome (Unit {0}) × StoreState
flushed w = deliver (present w.session.db.job_status_events w.session.db) (without_events w)

-- Without faults, `Store` of one or more jobs writes them all, and then empties the table of
-- events and sends the subscribers the rows, as they were written, of the jobs with an event.
pub store_lem :
    (j : Job) (js : List Job) (w : StoreState)
    → NoFaults w.session
    → store (j ∷ js) w ≡ flushed (with_db (upsert_all (j ∷ js) w.session.db) w)
unfolding store
store_lem j js w h =
    rw (store_jobs-NoFaults (j ∷ js) w.session h)
      (flush-NoFaults (with_db (upsert_all (j ∷ js) w.session.db) w) h)

-- Without faults, and with distinct ids, `StaleOldJobs` marks the jobs, and then empties the table
-- of events and sends the subscribers the rows, as they were marked, of the jobs with an event.
pub stale_lem :
    (known : List String) (w : StoreState)
    → NoFaults w.session
    → Distinct known
    → stale known w ≡ flushed (with_db (stale_db known w.session.now w.session.db) w)
unfolding stale
stale_lem known w h d =
    rw (stale_old_jobs-NoFaults known w.session h d)
      (flush-NoFaults (with_db (stale_db known w.session.now w.session.db) w) h)
