-- ===== src/Store/Db.antt =====
-- The database that jobs/postgres_store.go works on: the tables of migrations/, the calls of
-- database/sql with the errors that they may return, and the transactions around them.
use batchiepatchie.Prelude.{ℕ, ◌*◌, ◌-◌, suc, String, Bool, Option, none, some, List, [], ◌∷◌}
use batchiepatchie.Prelude.Int.{ℤ, pos, negsuc}
use batchiepatchie.Prelude.Io.{Io, Outcome, ok, err, panic, hang, Error, ◌>>◌}
use batchiepatchie.Jobs.{Time, Ec2Info}
use batchiepatchie.Jobs.Json.{Json}

-- A row of `jobs`.
pub record JobRow : Type 0 where
  pub job_id : String
  pub job_name : String
  pub job_definition : String
  pub job_queue : String
  pub image : String
  pub status : String
  pub created_at : Time
  pub stopped_at : Option Time
  pub vcpus : ℤ
  pub memory : ℤ
  pub timeout : ℤ
  pub command_line : String
  pub last_updated : Time
  pub status_reason : Option String
  pub run_started_at : Option Time
  pub exitcode : Option ℤ
  pub log_stream_name : Option String
  pub termination_requested : Bool
  pub task_arn : Option String
  pub array_properties : Option Json

-- A row of `activated_job_queues`.
pub record QueueRow : Type 0 where
  pub job_queue : String
  pub forced_scaling : Bool

-- A row of `job_summary_event_log`.
pub record SummaryRow : Type 0 where
  pub timestamp : Time
  pub job_queue : String
  pub submitted : ℕ
  pub pending : ℕ
  pub runnable : ℕ
  pub starting : ℕ
  pub running : ℕ

-- A row of `compute_environment_event_log`.
pub record EnvironmentRow : Type 0 where
  pub timestamp : Time
  pub compute_environment : String
  pub desired_vcpus : ℤ
  pub max_vcpus : ℤ
  pub min_vcpus : ℤ
  pub state : String
  pub service_role : String

-- A row of `task_arns_to_instance_info`, whose columns are all NOT NULL.
pub record TaskRow : Type 0 where
  pub task_arn : String
  pub instance_id : String
  pub public_ip : String
  pub private_ip : String

-- A row of `instances`.
pub record InstanceRow : Type 0 where
  pub appeared_at : Time
  pub disappeared_at : Option Time
  pub instance_id : String
  pub info : Ec2Info

-- A row of `instance_event_log`.
pub record InstanceEventRow : Type 0 where
  pub timestamp : Time
  pub instance_id : String
  pub active_jobs : List String

-- The tables. `job_status_events` is the list of its keys.
pub record Db : Type 0 where
  pub jobs : List JobRow
  pub job_status_events : List String
  pub activated_job_queues : List QueueRow
  pub job_summary_event_log : List SummaryRow
  pub compute_environment_event_log : List EnvironmentRow
  pub task_arns : List TaskRow
  pub instances : List InstanceRow
  pub instance_event_log : List InstanceEventRow

-- A connection: the tables, the database's clock, and how the calls to come will end. A call ends
-- in the error at the head of `answers`; past the end of the list every call succeeds.
pub record Session : Type 0 where
  pub db : Db
  pub now : Time
  pub answers : List (Option Error)

abbrev pub answered : List (Option Error) → Outcome (Unit {0})
answered [] = ok tt
answered (none ∷ rest) = ok tt
answered (some e ∷ rest) = err e

abbrev unanswered : List (Option Error) → List (Option Error)
unanswered [] = []
unanswered (a ∷ rest) = rest

-- Any one call of database/sql.
unfoldable pub call : Io Session (Unit {0})
call s = (answered s.answers, record s { answers = unanswered s.answers })

-- `Query` with its `Scan`s: a value read off the tables, at the database's time.
unfoldable pub query : {A : Type 0} → (Time → Db → A) → Io Session A
query read = call >> λ s. (ok (read s.now s.db), s)

-- `Exec`: the tables after a statement that succeeds.
unfoldable pub exec : (Time → Db → Db) → Io Session (Unit {0})
exec change = call >> λ s. (ok tt, record s { db = change s.now s.db })

abbrev pub rolled_back : Db → Session → Session
rolled_back before s = record s { db = before }

-- An error that `Commit` returns is only logged.
abbrev pub logged_commit :
    {A : Type 0} → Db → A → Outcome (Unit {0}) × Session → Outcome A × Session
logged_commit before a (ok _, s) = (ok a, s)
logged_commit before a (err e, s) = (ok a, rolled_back before s)
logged_commit before a (panic, s) = (ok a, rolled_back before s)
logged_commit before a (hang, s) = (ok a, rolled_back before s)

-- The deferred `final` of a transaction: a value commits, an error rolls back, and so does a panic.
unfoldable pub finish : {A : Type 0} → Db → Outcome A × Session → Outcome A × Session
finish before (ok a, s) = logged_commit before a (call s)
finish before (err e, s) = (err e, rolled_back before (call s).1)
finish before (panic, s) = (panic, rolled_back before (call s).1)
finish before (hang, s) = (hang, rolled_back before (call s).1)

-- `Begin`, the statements, and `final`.
unfoldable pub transaction : {A : Type 0} → Io Session A → Io Session A
transaction body = call >> λ s. finish s.db (body s)

-- A transaction that ends in `return err` after a `Commit` that fails.
abbrev pub returned_commit : Db → Outcome (Unit {0}) × Session → Outcome (Unit {0}) × Session
returned_commit before (ok _, s) = (ok tt, s)
returned_commit before (err e, s) = (err e, rolled_back before s)
returned_commit before (panic, s) = (panic, rolled_back before s)
returned_commit before (hang, s) = (hang, rolled_back before s)

unfoldable pub strict_finish : Db → Outcome (Unit {0}) × Session → Outcome (Unit {0}) × Session
strict_finish before (ok a, s) = returned_commit before (call s)
strict_finish before (err e, s) = (err e, rolled_back before (call s).1)
strict_finish before (panic, s) = (panic, rolled_back before (call s).1)
strict_finish before (hang, s) = (hang, rolled_back before (call s).1)

unfoldable pub strict_transaction : Io Session (Unit {0}) → Io Session (Unit {0})
strict_transaction body = call >> λ s. strict_finish s.db (body s)

-- The same, where the error of a `Rollback` that fails is returned in place of the first one.
abbrev pub returned_rollback :
    Error → Db → Outcome (Unit {0}) × Session → Outcome (Unit {0}) × Session
returned_rollback e before (ok _, s) = (err e, rolled_back before s)
returned_rollback e before (err e', s) = (err e', rolled_back before s)
returned_rollback e before (panic, s) = (panic, rolled_back before s)
returned_rollback e before (hang, s) = (hang, rolled_back before s)

unfoldable pub checked_finish : Db → Outcome (Unit {0}) × Session → Outcome (Unit {0}) × Session
checked_finish before (ok a, s) = returned_commit before (call s)
checked_finish before (err e, s) = returned_rollback e before (call s)
checked_finish before (panic, s) = (panic, rolled_back before (call s).1)
checked_finish before (hang, s) = (hang, rolled_back before (call s).1)

unfoldable pub checked_transaction : Io Session (Unit {0}) → Io Session (Unit {0})
checked_transaction body = call >> λ s. checked_finish s.db (body s)

-- `interval '1 second' * n`, in nanoseconds.
abbrev pub seconds : ℤ → ℤ
seconds (pos n) = pos (n * 1000000000)
seconds (negsuc n) = negsuc (suc n * 1000000000 - 1)
