-- ===== src/Store/Stale.antt =====
-- jobs/postgres_store.go: `StaleOldJobs` marks as GONE the jobs that AWS Batch has forgotten.
pub mod Marks
pub mod Run
use batchiepatchie.Prelude.{
  ℕ, ◌+◌, String, Bool, true, false, not, ◌&&◌, List, [], ◌∷◌, ◌++◌, ◌==◌, if◌then◌else◌, ltb,
}
use batchiepatchie.Prelude.Dict.{member}
use batchiepatchie.Prelude.Io.{Io, ◌>>=◌, ◌>>◌, pure, fail}
use batchiepatchie.Jobs.{Time, status_failed, status_succeeded}
use batchiepatchie.Store.Db.{JobRow, Db, Session, call, exec, transaction}
use batchiepatchie.Store.Upsert.{add_event}

abbrev pub status_gone : String
status_gone = "GONE"

-- The statuses that the statement never overwrites.
abbrev pub settled : List String
settled = status_gone ∷ status_succeeded ∷ status_failed ∷ []

-- 300 seconds, in nanoseconds.
abbrev pub grace : Time
grace = 300000000000

-- `where_clause` of `StaleOldJobs`, over the table `jobs_known_about`.
unfoldable pub is_stale : Time → List String → JobRow → Bool
is_stale now known row =
    not (member row.status settled)
    && not (member row.job_id known)
    && ltb (row.last_updated + grace) now

unfoldable pub stale_row : Time → List String → JobRow → JobRow
stale_row now known row =
    if is_stale now known row then record row { status = status_gone } else row

-- `UPDATE jobs j SET status = 'GONE' WHERE ...`.
unfoldable pub stale_rows : Time → List String → List JobRow → List JobRow
stale_rows now known [] = []
stale_rows now known (row ∷ rows) = stale_row now known row ∷ stale_rows now known rows

-- The trigger of migrations/00018, on each updated row.
unfoldable pub stale_events : Time → List String → List JobRow → List String → List String
stale_events now known [] ids = ids
stale_events now known (row ∷ rows) ids =
    stale_events now known rows
      (if (stale_row now known row).status == row.status then ids else add_event row.job_id ids)

unfoldable pub stale_db : List String → Time → Db → Db
stale_db known now db = record db {
  jobs = stale_rows now known db.jobs;
  job_status_events = stale_events now known db.jobs db.job_status_events;
}

-- The inserts into the temporary table, whose `job_id` is a primary key.
unfoldable pub insert_known : List String → List String → Io Session (List String)
insert_known [] table = pure table
insert_known (id ∷ ids) table =
    let rest = insert_known ids (table ++ id ∷ []) in
    call >> (if member id table then fail "duplicate key value" else rest)

-- `StaleOldJobs` up to the flush of the subscriptions.
unfoldable pub stale_old_jobs : List String → Io Session (Unit {0})
stale_old_jobs ids = transaction do call; known ← insert_known ids []; exec (stale_db known)
