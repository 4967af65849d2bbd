-- ===== src/Store/Clean.antt =====
-- jobs/postgres_store.go: the cleaner's deletions of what is older than 30 days.
pub mod Laws
use batchiepatchie.Prelude.{
  ℕ, ◌+◌, String, Bool, true, false, not, Option, none, some, List, [], ◌∷◌, if◌then◌else◌, ltb,
  keep,
}
use batchiepatchie.Prelude.Dict.{member}
use batchiepatchie.Prelude.Io.{Io, ◌>>=◌, ◌>>◌}
use batchiepatchie.Jobs.{Time}
use batchiepatchie.Store.Db.{
  JobRow, TaskRow, InstanceEventRow, Db, Session, exec, checked_transaction,
}

-- 30 days, in nanoseconds.
abbrev pub thirty_days : Time
thirty_days = 2592000000000000

-- `t < NOW() - INTERVAL '30 day'`.
abbrev pub is_old : Time → Time → Bool
is_old now t = ltb (t + thirty_days) now

abbrev pub add_arn : Option String → List String → List String
add_arn none arns = arns
add_arn (some arn) arns = arn ∷ arns

-- `SELECT task_arn FROM jobs WHERE last_updated < ...`; a NULL among them matches nothing.
unfoldable pub old_arns : Time → List JobRow → List String
old_arns now [] = []
old_arns now (row ∷ rows) =
    let rest = old_arns now rows in
    if is_old now row.last_updated then add_arn row.task_arn rest else rest

unfoldable pub clean_tasks : Time → Db → Db
clean_tasks now db = record db {
  task_arns = keep (λ t. not (member t.task_arn (old_arns now db.jobs))) db.task_arns;
}

unfoldable pub clean_jobs : Time → Db → Db
clean_jobs now db = record db { jobs = keep (λ row. not (is_old now row.last_updated)) db.jobs }

unfoldable pub clean_old_jobs : Io Session (Unit {0})
clean_old_jobs = checked_transaction (exec clean_tasks >> exec clean_jobs)

unfoldable pub clean_events : Time → Db → Db
clean_events now db = record db {
  instance_event_log = keep (λ row. not (is_old now row.timestamp)) db.instance_event_log;
}

unfoldable pub clean_old_instance_event_logs : Io Session (Unit {0})
clean_old_instance_event_logs = checked_transaction (exec clean_events)
