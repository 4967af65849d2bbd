-- ===== src/Store/ChangeLog.antt =====
-- jobs/postgres_store.go: the two logs that get a row only when something changed, of job
-- summaries and of compute environments. Their code is the same but for the table. Which of
-- several rows with the latest time the database returns is left open.
pub mod Newest
pub mod Latest
pub mod Logged
use batchiepatchie.Prelude.{
  String, Bool, true, false, not, ◌&&◌, ◌||◌, Option, none, some, List, [], ◌∷◌, ◌++◌, ◌==◌, keep,
  eqb,
}
use batchiepatchie.Prelude.Int.{eqb_ℤ}
use batchiepatchie.Prelude.Io.{Io, pure, ◌>>=◌, ◌>>◌}
use batchiepatchie.Jobs.{Time, JobSummary, ComputeEnvironment}
use batchiepatchie.Store.Db.{
  SummaryRow, EnvironmentRow, Db, Session, call, query, exec, transaction,
}

-- A log: its table, what a row says, and whether a row already says what an entry says.
pub record Log (R E : Type 0) : Type 0 where
  pub table : Db → List R
  pub with_table : List R → Db → Db
  pub time : R → Time
  pub name : R → String
  pub entry_name : E → String
  pub row_at : Time → E → R
  pub same : R → E → Bool

module _ {R E : Type 0} (log : Log R E) where
  open log use {table, with_table, name, entry_name, row_at, same}

  -- `ok_to_insert`.
  abbrev pub ok_to_insert : Option R → E → Bool
  ok_to_insert none e = true
  ok_to_insert (some row) e = not (same row e)

  unfoldable pub insert_entry : Bool → E → Io Session (Unit {0})
  insert_entry false e = pure tt
  insert_entry true e = exec (λ now db. with_table (table db ++ row_at now e ∷ []) db)

  -- `newest` is the `ORDER BY timestamp DESC LIMIT 1` of the database.
  module _ (newest : List R → Option R) where
    -- `WHERE name = $1 ORDER BY timestamp DESC LIMIT 1`.
    unfoldable pub latest_row : String → List R → Option R
    latest_row k rows = newest (keep (λ row. name row == k) rows)

    -- The loop over the entries.
    unfoldable pub log_each : List E → Io Session (Unit {0})
    log_each [] = pure tt
    log_each (e ∷ es) = do
      existing ← query (λ _ db. latest_row (entry_name e) (table db))
      insert_entry (ok_to_insert existing e) e
      log_each es

abbrev pub summary_log : Log SummaryRow JobSummary
summary_log = record {
  table = λ db. db.job_summary_event_log;
  with_table = λ rows db. record db { job_summary_event_log = rows };
  time = λ row. row.timestamp;
  name = λ row. row.job_queue;
  entry_name = λ e. e.job_queue;
  row_at = λ now e. record {
    timestamp = now;
    job_queue = e.job_queue;
    submitted = e.submitted;
    pending = e.pending;
    runnable = e.runnable;
    starting = e.starting;
    running = e.running;
  };
  same = λ row e.
      not (row.job_queue == e.job_queue)
      || (eqb row.submitted e.submitted
          && eqb row.pending e.pending
          && eqb row.runnable e.runnable
          && eqb row.starting e.starting
          && eqb row.running e.running);
}

abbrev pub environment_log : Log EnvironmentRow ComputeEnvironment
environment_log = record {
  table = λ db. db.compute_environment_event_log;
  with_table = λ rows db. record db { compute_environment_event_log = rows };
  time = λ row. row.timestamp;
  name = λ row. row.compute_environment;
  entry_name = λ e. e.name;
  row_at = λ now e. record {
    timestamp = now;
    compute_environment = e.name;
    desired_vcpus = e.wanted_vcpus;
    max_vcpus = e.max_vcpus;
    min_vcpus = e.min_vcpus;
    state = e.state;
    service_role = e.service_role;
  };
  same = λ row e.
      eqb_ℤ row.desired_vcpus e.wanted_vcpus
      && eqb_ℤ row.max_vcpus e.max_vcpus
      && eqb_ℤ row.min_vcpus e.min_vcpus
      && (row.state == e.state)
      && (row.service_role == e.service_role);
}

unfoldable pub update_job_summary_log :
    (List SummaryRow → Option SummaryRow) → List JobSummary → Io Session (Unit {0})
update_job_summary_log newest summaries = transaction (log_each summary_log newest summaries)

-- The first call sets the isolation level.
unfoldable pub update_compute_environments_log :
    (List EnvironmentRow → Option EnvironmentRow) → List ComputeEnvironment → Io Session (Unit {0})
update_compute_environments_log newest environments =
    transaction (call >> log_each environment_log newest environments)
