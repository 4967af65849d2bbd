-- ===== src/Store/Queries/One.antt =====
-- The queries of jobs/postgres_store.go about one job.
use batchiepatchie.Prelude.{
  String, ◌≡◌, refl, subst, false, Option, none, some, List, [], ◌∷◌, ◌==◌, eq_iff, Bool-cases, inl,
  inr,
}
use batchiepatchie.Prelude.Dict.{member, Distinct}
use batchiepatchie.Prelude.Io.{ok}
use batchiepatchie.Jobs.{Job, JobStatus}
use batchiepatchie.Store.Db.{JobRow, TaskRow, Session}
use batchiepatchie.Store.Transactions.{NoFaults, query-NoFaults}
use batchiepatchie.Store.Upsert.Rows.{find_row, ids}
use batchiepatchie.Store.Queries.{find_task, job_of_row, joined, status_row, get_status}

-- The row of a job as the caller of `FindOne` gets it.
abbrev pub found : List TaskRow → Option JobRow → Option Job
found tasks none = none
found tasks (some row) = some (job_of_row row (find_task row.task_arn tasks))

pub joined-find_row :
    (id : String) (tasks : List TaskRow) (rows : List JobRow)
    → joined id tasks rows ≡ found tasks (find_row id rows)
unfolding joined find_row
joined-find_row id tasks [] = refl
joined-find_row id tasks (row ∷ rows) = elim (Bool-cases (row.job_id == id)) [
  | inl e ↦ rw e
  | inr e ↦ rw e (joined-find_row id tasks rows)
]

abbrev pub status_view : Option JobRow → Option JobStatus
status_view none = none
status_view (some row) = some (record { id = row.job_id; status = row.status })

no_status_row :
    (id : String) (rows : List JobRow) (o : Option JobStatus)
    → member id (ids rows) ≡ false
    → status_row id rows o ≡ o
unfolding status_row
no_status_row id [] o h = refl
no_status_row id (row ∷ rows) o h = elim (Bool-cases (row.job_id == id)) [
  | inl e ↦ cc (rw e at h)
  | inr e ↦ rw e (no_status_row id rows o (rw e at h))
]

status_row-find_row :
    (id : String) (rows : List JobRow)
    → Distinct (ids rows)
    → status_row id rows none ≡ status_view (find_row id rows)
unfolding status_row find_row
status_row-find_row id [] d = refl
status_row-find_row id (row ∷ rows) d = elim (Bool-cases (row.job_id == id)) [
  | inl e ↦ rw e (
      no_status_row id rows _
        (subst (λ k. member k (ids rows) ≡ false) ((eq_iff row.job_id id).0 e) d.0))
  | inr e ↦ rw e (status_row-find_row id rows d.1)
]

-- With no fault, and if no job has two rows, `GetStatus` answers with the id and the status of the
-- job's row, or with nil if there is none.
pub get_status_lem :
    (id : String) (s : Session)
    → NoFaults s
    → Distinct (ids s.db.jobs)
    → get_status id s ≡ (ok (status_view (find_row id s.db.jobs)), s)
unfolding get_status
get_status_lem id s h d =
    rw (query-NoFaults (λ _ db. status_row id db.jobs none) s h)
      (rw (status_row-find_row id s.db.jobs d))
