-- ===== src/Store/Queues.antt =====
-- jobs/postgres_store.go: the job queues that batchiepatchie watches.
pub mod Laws
use batchiepatchie.Prelude.{String, Bool, true, false, List, [], ◌∷◌, ◌++◌, ◌==◌, if◌then◌else◌}
use batchiepatchie.Prelude.Dict.{member}
use batchiepatchie.Prelude.Io.{Io}
use batchiepatchie.Store.Db.{QueueRow, Db, Session, query, exec, strict_transaction}

unfoldable pub queue_names : List QueueRow → List String
queue_names [] = []
queue_names (row ∷ rows) = row.job_queue ∷ queue_names rows

-- `WHERE forced_scaling`.
unfoldable pub forced_names : List QueueRow → List String
forced_names [] = []
forced_names (row ∷ rows) =
    let rest = forced_names rows in if row.forced_scaling then row.job_queue ∷ rest else rest

-- `INSERT ... ON CONFLICT DO NOTHING`; `forced_scaling` is 'f' by default.
unfoldable pub add_queue : String → List QueueRow → List QueueRow
add_queue name [] = record { job_queue = name; forced_scaling = false } ∷ []
add_queue name (row ∷ rows) =
    if row.job_queue == name then row ∷ rows else row ∷ add_queue name rows

-- `DELETE FROM activated_job_queues WHERE job_queue = $1`.
unfoldable pub remove_queue : String → List QueueRow → List QueueRow
remove_queue name [] = []
remove_queue name (row ∷ rows) =
    if row.job_queue == name then remove_queue name rows else row ∷ remove_queue name rows

unfoldable pub activate_job_queue : String → Io Session (Unit {0})
activate_job_queue name =
    strict_transaction
      (exec (λ _ db. record db { activated_job_queues = add_queue name db.activated_job_queues }))

unfoldable pub deactivate_job_queue : String → Io Session (Unit {0})
deactivate_job_queue name =
    strict_transaction (
      exec (λ _ db. record db { activated_job_queues = remove_queue name db.activated_job_queues }))

unfoldable pub list_active_job_queues : Io Session (List String)
list_active_job_queues = query (λ _ db. queue_names db.activated_job_queues)

unfoldable pub list_forced_scaling_job_queues : Io Session (List String)
list_forced_scaling_job_queues = query (λ _ db. forced_names db.activated_job_queues)
