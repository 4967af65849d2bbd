-- ===== src/Tests/Rows.antt =====
-- The theorems about the table of jobs, on concrete rows.
use batchiepatchie.Prelude.{◌≡◌, refl, none, [], ◌∷◌}
use batchiepatchie.Store.Sql.{holds}
use batchiepatchie.Store.Upsert.{where_clause}
use batchiepatchie.Store.Upsert.Where.{wants_update, where_clause_lem}
use batchiepatchie.Store.Upsert.Events.{status_at}
use batchiepatchie.Store.Upsert.Batch.{upsert_all, latest, status_at-upsert_all}
use batchiepatchie.Tests.{job_with, row_with, some_db}

where_clause_example :
    holds (where_clause (job_with "a" "FAILED" none) (row_with "a" "RUNNING"))
    ≡ wants_update (job_with "a" "FAILED" none) (row_with "a" "RUNNING") none
where_clause_example =
    where_clause_lem (job_with "a" "FAILED" none) (row_with "a" "RUNNING") none refl

status_at-upsert_all_example :
    status_at "a"
      (upsert_all (job_with "a" "FAILED" none ∷ job_with "c" "PENDING" none ∷ []) some_db).jobs
    ≡ latest "a"
        (job_with "a" "FAILED" none ∷ job_with "c" "PENDING" none ∷ [])
        (status_at "a" some_db.jobs)
status_at-upsert_all_example =
    status_at-upsert_all "a" (job_with "a" "FAILED" none ∷ job_with "c" "PENDING" none ∷ []) some_db
