-- ===== src/Store/Queues/Laws.antt =====
-- What activating and deactivating a queue in jobs/postgres_store.go does.
use batchiepatchie.Prelude.{String, ◌≡◌, refl, not, ◌||◌, ◌&&◌, List, [], ◌∷◌, ◌==◌, eq_iff, arith}
use batchiepatchie.Prelude.Dict.{member}
use batchiepatchie.Store.Db.{QueueRow, Session}
use batchiepatchie.Store.Transactions.{AllOrError, strict_exec}
use batchiepatchie.Store.Queues.{
  queue_names, forced_names, add_queue, remove_queue, activate_job_queue, deactivate_job_queue,
}

-- Activating adds the queue to the names; it changes no queue's forced scaling.
pub add_queue_lem :
    (name k : String) (rows : List QueueRow)
    → (member k (queue_names (add_queue name rows)) ≡ (member k (queue_names rows) || name == k))
      × (member k (forced_names (add_queue name rows)) ≡ member k (forced_names rows))
unfolding queue_names forced_names add_queue
add_queue_lem name k [] = (ground arith, refl)
add_queue_lem name k (row ∷ rows) =
    let (p, q) = add_queue_lem name k rows in
    (
      ground (arith, p, eq_iff row.job_queue name, eq_iff row.job_queue k, eq_iff name k),
      ground (arith, q),
    )

-- Deactivating takes the queue, and only it, off the names and off the forced scaling.
pub remove_queue_lem :
    (name k : String) (rows : List QueueRow)
    → (member k (queue_names (remove_queue name rows))
        ≡ (member k (queue_names rows) && not (name == k)))
      × (member k (forced_names (remove_queue name rows))
          ≡ (member k (forced_names rows) && not (name == k)))
unfolding queue_names forced_names remove_queue
remove_queue_lem name k [] = (refl, refl)
remove_queue_lem name k (row ∷ rows) =
    let (p, q) = remove_queue_lem name k rows in
    (
      ground (arith, p, eq_iff row.job_queue name, eq_iff row.job_queue k, eq_iff name k),
      ground (arith, q, eq_iff row.job_queue name, eq_iff row.job_queue k, eq_iff name k),
    )

-- Whatever fails, an activation and a deactivation end either in success, with the change made, or
-- in an error, with the tables as they were.
pub activation_reported :
    (name : String) (s : Session)
    → AllOrError s.db
        (record (s.db) { activated_job_queues = add_queue name s.db.activated_job_queues })
        (activate_job_queue name s)
      × AllOrError s.db
          (record (s.db) { activated_job_queues = remove_queue name s.db.activated_job_queues })
          (deactivate_job_queue name s)
unfolding activate_job_queue deactivate_job_queue
activation_reported name s = (
  strict_exec (λ _ db. record db { activated_job_queues = add_queue name db.activated_job_queues })
      s,
  strict_exec
      (λ _ db. record db { activated_job_queues = remove_queue name db.activated_job_queues }) s,
)
