-- ===== src/Store/Upsert/Batch.antt =====
-- The batch of jobs that `Store` of jobs/postgres_store.go writes in one transaction.
use batchiepatchie.Prelude.{
  String, ◌≡◌, refl, ◌∙◌, ap, ◌⊎◌, inl, inr, Option, none, some, List, [], ◌∷◌, ◌==◌, eq_iff, arith,
  if◌then◌else◌, Bool-cases,
}
use batchiepatchie.Prelude.Io.{ok, ◌>>◌, bind-ok}
use batchiepatchie.Jobs.{Time, Job}
use batchiepatchie.Store.Db.{JobRow, Db, Session, call, exec}
use batchiepatchie.Store.Transactions.{
  NoFaults, call-db, call-NoFaults, exec-NoFaults, exec-ok, transaction-Atomic,
  transaction-NoFaults,
}
use batchiepatchie.Store.Upsert.{
  insert_row, where_clause, update_row, write_row, upsert, upsert_db, store_rows, store_jobs,
}
use batchiepatchie.Store.Upsert.Rows.{find_row, find_row-upsert, written}
use batchiepatchie.Store.Upsert.Events.{status_at}

-- The tables after each job of a batch was written, in order.
unfoldable pub upsert_all : List Job → Db → Db
upsert_all [] db = db
upsert_all (j ∷ js) db = upsert_all js (upsert_db j db)

-- Whenever the loop over the jobs ends without an error, every job was written.
pub store_rows-upsert_all :
    (js : List Job) (s : Session) {u : Unit {0}}
    → (store_rows js s).0 ≡ ok u
    → (store_rows js s).1.db ≡ upsert_all js s.db
unfolding store_rows upsert_all
store_rows-upsert_all [] s h = refl
store_rows-upsert_all (j ∷ js) s h =
    let change : Time → Db → Db = λ _ db. upsert_db j db in
    let (_, p, q) = bind-ok (exec change s).0 (λ _. call >> store_rows js) (exec change s).1 h in
    let t = (exec change s).1 in
    let (_, p', q') = bind-ok (call t).0 (λ _. store_rows js) (call t).1 (rw q at h) in
    rw (q, q')
      (rw (store_rows-upsert_all js (call t).1 (rw (q, q') at h), call-db t)
        (ap (upsert_all js) (exec-ok change s p).0))

-- Up to the flush, storing jobs is all or nothing: the tables are left alone, or the transaction
-- reports success and every job was written, in order. This holds whichever calls of the database
-- fail.
pub store_jobs_atomic :
    (js : List Job) (s : Session)
    → ((store_jobs js s).1.db ≡ s.db)
      ⊎ (((store_jobs js s).0 ≡ ok tt) × ((store_jobs js s).1.db ≡ upsert_all js s.db))
unfolding store_jobs
store_jobs_atomic [] s = inl refl
store_jobs_atomic (j ∷ js) s = elim (transaction-Atomic (store_rows (j ∷ js)) s) [
  | inl same ↦ inl same
  | inr (a, p, q, e) ↦
      inr
        (q, e ∙ store_rows-upsert_all (j ∷ js) (call s).1 p ∙ ap (upsert_all (j ∷ js)) (call-db s))
]

store_rows-NoFaults :
    (js : List Job) (s : Session)
    → NoFaults s
    → store_rows js s ≡ (ok tt, record s { db = upsert_all js s.db })
unfolding store_rows upsert_all
store_rows-NoFaults [] s h = refl
store_rows-NoFaults (j ∷ js) s h =
    let t : Session = record s { db = upsert_db j s.db } in
    rw (exec-NoFaults (λ _ db. upsert_db j db) s h)
      (rw (call-NoFaults t h) (store_rows-NoFaults js t h))

-- With no fault every job is written.
pub store_jobs-NoFaults :
    (js : List Job) (s : Session)
    → NoFaults s
    → store_jobs js s ≡ (ok tt, record s { db = upsert_all js s.db })
unfolding store_jobs
store_jobs-NoFaults [] s h = unfold upsert_all in refl
store_jobs-NoFaults (j ∷ js) s h =
    transaction-NoFaults (store_rows (j ∷ js)) s _ tt h (store_rows-NoFaults (j ∷ js) s h) h

-- Status after writing: the job's own, whether or not the row is updated.
pub written-status : (j : Job) (o : Option JobRow) → (written j o).status ≡ j.status
unfolding insert_row write_row update_row where_clause
written-status j none = refl
written-status j (some row) = elim (Bool-cases (row.status == j.status)) [
  | inl e ↦ ground (arith, eq_iff row.status j.status)
  | inr e ↦ rw e
]

pub status_at-upsert :
    (j : Job) (k : String) (rows : List JobRow)
    → status_at k (upsert j rows) ≡ (if j.id == k then some j.status else status_at k rows)
unfolding status_at
status_at-upsert j k rows =
    rw (find_row-upsert j k rows) (ground (arith, written-status j (find_row k rows)))

-- The status that the last mention of a job in a batch gives it.
unfoldable pub latest : String → List Job → Option String → Option String
latest k [] old = old
latest k (j ∷ js) old = latest k js (if j.id == k then some j.status else old)

-- After a batch every job has the status of its last mention there, and the others keep theirs.
pub status_at-upsert_all :
    (k : String) (js : List Job) (db : Db)
    → status_at k (upsert_all js db).jobs ≡ latest k js (status_at k db.jobs)
unfolding upsert_all latest upsert_db
status_at-upsert_all k [] db = refl
status_at-upsert_all k (j ∷ js) db =
    status_at-upsert_all k js (upsert_db j db) ∙ ap (latest k js) (status_at-upsert j k db.jobs)
