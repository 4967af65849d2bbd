-- ===== src/Tests/Statements.antt =====
-- The theorems about the transactions and the queries of the store, on concrete sessions.
use batchiepatchie.Prelude.{String, ◌≡◌, refl, none, some, List, [], ◌∷◌, if◌then◌else◌}
use batchiepatchie.Prelude.Dict.{lookup}
use batchiepatchie.Prelude.Io.{ok}
use batchiepatchie.Jobs.{RunningLoad}
use batchiepatchie.Store.Upsert.{store_jobs}
use batchiepatchie.Store.Upsert.Rows.{find_row}
use batchiepatchie.Store.Stale.{stale_old_jobs}
use batchiepatchie.Store.Queries.{load_or_zero, find_task, estimate_running_load_by_job_queue}
use batchiepatchie.Store.Queries.Load.{total_load, estimate_lem}
use batchiepatchie.Store.Clean.{clean_old_jobs}
use batchiepatchie.Store.Clean.Laws.{recent, has_old_job, clean_old_jobs_lem}
use batchiepatchie.Store.Steps.{IsValid, nothing, then_step, stored, staled, Steps-IsValid}
use batchiepatchie.Tests.{job_with, later, failing}

estimate_example :
    (mapping : List (String × RunningLoad)) × (estimate_running_load_by_job_queue
        ("cpu" ∷ "gpu" ∷ [])
        later
      ≡ (ok mapping, later))
    × (lookup "gpu" mapping ≡ some (total_load "gpu" later.db.jobs (load_or_zero none)))
estimate_example = estimate_lem ("cpu" ∷ "gpu" ∷ []) later "gpu" refl refl

clean_old_jobs_example :
    let (r, t) = clean_old_jobs later in
    (r ≡ ok tt)
    × ((k : String) → find_row k t.db.jobs ≡ recent later.now (find_row k later.db.jobs))
    × ((arn : String)
        → find_task (some arn) t.db.task_arns ≡ (
            if has_old_job later.now arn later.db.jobs
            then none
            else find_task (some arn) later.db.task_arns))
clean_old_jobs_example = clean_old_jobs_lem later refl (refl, (refl, tt))

steps_example :
    IsValid
      (stale_old_jobs ("b" ∷ []) (store_jobs (job_with "a" "FAILED" none ∷ []) failing).1).1.db
steps_example =
    Steps-IsValid
      (then_step (then_step nothing (stored (job_with "a" "FAILED" none ∷ []))) (staled ("b" ∷ [])))
      (record { one_row = (refl, (refl, tt)); one_event = (refl, tt) })
