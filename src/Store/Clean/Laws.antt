-- ===== src/Store/Clean/Laws.antt =====
-- What the cleaner of jobs/postgres_store.go removes and what it leaves.
use batchiepatchie.Prelude.{
  ◌+◌, ◌*◌, ap, ◌∙◌, ltb, ◌&&◌, ◌||◌, ◌==◌, Bool-cases, inl, inr, String, ◌≡◌, refl, Bool, false,
  not, Option, none, some, List, [], ◌∷◌, eq_iff, arith, if◌then◌else◌, keep,
}
use batchiepatchie.Prelude.Dict.{member, Distinct}
use batchiepatchie.Prelude.Io.{ok, ◌>>◌}
use batchiepatchie.Jobs.{Time}
use batchiepatchie.Store.Db.{JobRow, TaskRow, Session, exec}
use batchiepatchie.Store.Transactions.{NoFaults, exec-NoFaults, checked-NoFaults}
use batchiepatchie.Store.Upsert.Rows.{find_row, ids}
use batchiepatchie.Store.Queries.{find_task}
use batchiepatchie.Store.Clean.{add_arn, is_old, old_arns, clean_tasks, clean_jobs, clean_old_jobs}

-- A row, if it was updated in the 30 days before a time.
abbrev pub recent : Time → Option JobRow → Option JobRow
recent now none = none
recent now (some row) =
    if ltb (row.last_updated + 30 * 24 * 3600 * 1000000000) now then none else some row

abbrev pub is_named : String → Option String → Bool
is_named arn none = false
is_named arn (some other) = other == arn

-- Whether some job that was last updated more than 30 days before a time has a task.
abbrev pub has_old_job : Time → String → List JobRow → Bool
has_old_job now arn [] = false
has_old_job now arn (row ∷ rows) =
    (ltb (row.last_updated + 30 * 24 * 3600 * 1000000000) now && is_named arn row.task_arn)
    || has_old_job now arn rows

member-add_arn :
    (arn : String) (o : Option String) (arns : List String)
    → member arn (add_arn o arns) ≡ (is_named arn o || member arn arns)
member-add_arn arn none arns = refl
member-add_arn arn (some a) arns = refl

member-old_arns :
    (now : Time) (arn : String) (rows : List JobRow)
    → member arn (old_arns now rows) ≡ has_old_job now arn rows
unfolding old_arns
member-old_arns now arn [] = refl
member-old_arns now arn (row ∷ rows) = elim (Bool-cases (is_old now row.last_updated)) [
  | inl e ↦
      rw e (
        rw (member-add_arn arn row.task_arn (old_arns now rows), member-old_arns now arn rows) refl)
  | inr e ↦ rw e (member-old_arns now arn rows)
]

absent_kept :
    (p : JobRow → Bool) (k : String) (rows : List JobRow)
    → member k (ids rows) ≡ false
    → find_row k (keep p rows) ≡ none
unfolding find_row
absent_kept p k [] h = refl
absent_kept p k (row ∷ rows) h = ground (arith, absent_kept p k rows)

recent_rows :
    (now : Time) (k : String) (rows : List JobRow)
    → Distinct (ids rows)
    → find_row k (keep (λ row. not (is_old now row.last_updated)) rows)
      ≡ recent now (find_row k rows)
unfolding find_row
recent_rows now k [] d = refl
recent_rows now k (row ∷ rows) d = ground (
  arith,
  eq_iff row.job_id k,
  recent_rows now k rows d.1,
  absent_kept (λ (r : JobRow). not (is_old now r.last_updated)) k rows,
)

tasks_lem :
    (arns : List String) (arn : String) (tasks : List TaskRow)
    → find_task (some arn) (keep (λ t. not (member t.task_arn arns)) tasks)
      ≡ (if member arn arns then none else find_task (some arn) tasks)
unfolding find_task
tasks_lem arns arn [] = ground arith
tasks_lem arns arn (t ∷ tasks) = ground (arith, eq_iff t.task_arn arn, tasks_lem arns arn tasks)

-- With no fault, and if no job has two rows, cleaning succeeds, removes a job exactly if it was last
-- updated more than 30 days ago, and the instance of a task exactly if a job that was last updated
-- more than 30 days ago has that task.
pub clean_old_jobs_lem :
    (s : Session)
    → NoFaults s
    → Distinct (ids s.db.jobs)
    → let (r, t) = clean_old_jobs s in
      (r ≡ ok tt)
      × ((k : String) → find_row k t.db.jobs ≡ recent s.now (find_row k s.db.jobs))
      × ((arn : String)
          → find_task (some arn) t.db.task_arns ≡ (
              if has_old_job s.now arn s.db.jobs
              then none
              else find_task (some arn) s.db.task_arns))
unfolding clean_old_jobs
clean_old_jobs_lem s h d = rw run (
  refl,
  λ k. unfold clean_jobs clean_tasks in recent_rows s.now k s.db.jobs d,
  λ arn.
      unfold clean_jobs clean_tasks in
      tasks_lem (old_arns s.now s.db.jobs) arn s.db.task_arns
      ∙ ap (λ b. if b then none else find_task (some arn) s.db.task_arns)
          (member-old_arns s.now arn s.db.jobs),
)
  where
    run : clean_old_jobs s ≡ (ok tt, record s { db = clean_jobs s.now (clean_tasks s.now s.db) })
    run =
        checked-NoFaults (exec clean_tasks >> exec clean_jobs) s _ h
          (rw (exec-NoFaults clean_tasks s h)
            (exec-NoFaults clean_jobs (record s { db = clean_tasks s.now s.db }) h))
          h
