-- ===== src/Store/ChangeLog/Logged.antt =====
-- The log of job summaries and the log of compute environments of jobs/postgres_store.go.
use batchiepatchie.Prelude.{
  ◌<◌, All, Option, map, String, ◌≡◌, refl, Bool, true, false, ◌&&◌, List, ◌==◌, eq_iff, arith,
}
use batchiepatchie.Prelude.Int.{eqb_ℤ, eqb_ℤ_iff}
use batchiepatchie.Prelude.Dict.{Distinct}
use batchiepatchie.Prelude.Io.{ok, ◌>>◌}
use batchiepatchie.Jobs.{JobSummary, ComputeEnvironment}
use batchiepatchie.Store.Db.{SummaryRow, EnvironmentRow, Session, call}
use batchiepatchie.Store.Transactions.{NoFaults, call-NoFaults, transaction-NoFaults}
use batchiepatchie.Store.ChangeLog.{
  latest_row, log_each, summary_log, environment_log, update_job_summary_log,
  update_compute_environments_log,
}
use batchiepatchie.Store.ChangeLog.Newest.{IsNewest}
use batchiepatchie.Store.ChangeLog.Latest.{
  viewed, Lawful, log_all, last_entry, log_all-latest, log_each-NoFaults,
}

abbrev pub summary_of : SummaryRow → JobSummary
summary_of row = record {
  job_queue = row.job_queue;
  submitted = row.submitted;
  pending = row.pending;
  runnable = row.runnable;
  starting = row.starting;
  running = row.running;
}

abbrev pub environment_of : EnvironmentRow → ComputeEnvironment
environment_of row = record {
  name = row.compute_environment;
  wanted_vcpus = row.desired_vcpus;
  min_vcpus = row.min_vcpus;
  max_vcpus = row.max_vcpus;
  state = row.state;
  service_role = row.service_role;
}

same_summary :
    (row : SummaryRow) (e : JobSummary)
    → row.job_queue ≡ e.job_queue
    → summary_log.same row e ≡ true
    → summary_of row ≡ e
same_summary row e n s =
    let a : row.submitted ≡ e.submitted = ground (arith, eq_iff row.job_queue e.job_queue) in
    let b : row.pending ≡ e.pending = ground (arith, eq_iff row.job_queue e.job_queue) in
    let c : row.runnable ≡ e.runnable = ground (arith, eq_iff row.job_queue e.job_queue) in
    let d : row.starting ≡ e.starting = ground (arith, eq_iff row.job_queue e.job_queue) in
    let f : row.running ≡ e.running = ground (arith, eq_iff row.job_queue e.job_queue) in
    rw (n, a, b, c, d, f)

split_and : (a b : Bool) → (a && b) ≡ true → (a ≡ true) × (b ≡ true)
split_and true b h = (refl, h)
split_and false b h = cc

same_environment :
    (row : EnvironmentRow) (e : ComputeEnvironment)
    → row.compute_environment ≡ e.name
    → environment_log.same row e ≡ true
    → environment_of row ≡ e
same_environment row e n s =
    let (s₁, f) = split_and _ (row.service_role == e.service_role) s in
    let (s₂, d) = split_and _ (row.state == e.state) s₁ in
    let (s₃, c) = split_and _ (eqb_ℤ row.min_vcpus e.min_vcpus) s₂ in
    let (a, b) =
      split_and (eqb_ℤ row.desired_vcpus e.wanted_vcpus) (eqb_ℤ row.max_vcpus e.max_vcpus) s₃ in
    rw (
      n,
      (eqb_ℤ_iff row.desired_vcpus e.wanted_vcpus).0 a,
      (eqb_ℤ_iff row.max_vcpus e.max_vcpus).0 b,
      (eqb_ℤ_iff row.min_vcpus e.min_vcpus).0 c,
      (eq_iff row.state e.state).0 d,
      (eq_iff row.service_role e.service_role).0 f,
    )

pub summary_log-Lawful : Lawful summary_log summary_of
summary_log-Lawful = record {
  table_set = λ rows db. refl;
  set_twice = λ rows more db. refl;
  set_same = λ db. refl;
  name_at = λ now e. refl;
  time_at = λ now e. refl;
  view_at = λ now e. refl;
  same_view = λ row e n s. same_summary row e n s;
}

pub environment_log-Lawful : Lawful environment_log environment_of
environment_log-Lawful = record {
  table_set = λ rows db. refl;
  set_twice = λ rows more db. refl;
  set_same = λ db. refl;
  name_at = λ now e. refl;
  time_at = λ now e. refl;
  view_at = λ now e. refl;
  same_view = λ row e n s. same_environment row e n s;
}

module _ (newest : List SummaryRow → Option SummaryRow) where
  -- Without faults, when no queue stands twice in the batch and every row is from before now, and
  -- when the database returns one of the rows of a queue of which no other is later, the update of
  -- the log returns no error, and afterwards the latest row of each queue says the summary of that
  -- queue in the batch, or what it said before where there is none.
  pub update_job_summary_log_lem :
      (summaries : List JobSummary) (s : Session) (k : String)
      → IsNewest (λ row. row.timestamp) newest
      → NoFaults s
      → Distinct (map (λ e. e.job_queue) summaries)
      → All (λ row. row.timestamp < s.now) s.db.job_summary_event_log
      → let (r, t) = update_job_summary_log newest summaries s in
        (r ≡ ok tt)
        × (viewed summary_of (latest_row summary_log newest k t.db.job_summary_event_log)
            ≡ last_entry summary_log k summaries
                (viewed summary_of (latest_row summary_log newest k s.db.job_summary_event_log)))
  unfolding update_job_summary_log
  update_job_summary_log_lem summaries s k n h d b =
      rw
        (transaction-NoFaults (log_each summary_log newest summaries) s _ tt h
          (log_each-NoFaults summary_log summary_of summary_log-Lawful newest summaries s h) h)
        (
          refl,
          log_all-latest summary_log summary_of summary_log-Lawful newest s.now k summaries
              s.db.job_summary_event_log n d b,
        )

module _ (newest : List EnvironmentRow → Option EnvironmentRow) where
  environments-NoFaults :
      (environments : List ComputeEnvironment) (s : Session)
      → NoFaults s
      → (call >> log_each environment_log newest environments) s ≡ (
        ok tt,
        record s {
          db = record (s.db) {
            compute_environment_event_log =
                log_all environment_log environment_of environment_log-Lawful newest s.now
                  environments s.db.compute_environment_event_log;
          };
        },
      )
  environments-NoFaults environments s h = rw (call-NoFaults s h) (
      log_each-NoFaults environment_log environment_of environment_log-Lawful newest environments s
        h)

  -- Without faults, when no environment stands twice in the batch and every row is from before now,
  -- and when the database returns one of the rows of an environment of which no other is later, the
  -- update of the log returns no error, and afterwards the latest row of each environment says the
  -- entry of that environment in the batch, or what it said before where there is none.
  pub update_compute_environments_log_lem :
      (environments : List ComputeEnvironment) (s : Session) (k : String)
      → IsNewest (λ row. row.timestamp) newest
      → NoFaults s
      → Distinct (map (λ e. e.name) environments)
      → All (λ row. row.timestamp < s.now) s.db.compute_environment_event_log
      → let (r, t) = update_compute_environments_log newest environments s in
        (r ≡ ok tt)
        × (viewed environment_of
              (latest_row environment_log newest k t.db.compute_environment_event_log)
            ≡ last_entry environment_log k environments (
                viewed environment_of
                  (latest_row environment_log newest k s.db.compute_environment_event_log)))
  unfolding update_compute_environments_log
  update_compute_environments_log_lem environments s k n h d b =
      rw
        (transaction-NoFaults (call >> log_each environment_log newest environments) s _ tt h
          (environments-NoFaults environments s h) h)
        (
          refl,
          log_all-latest environment_log environment_of environment_log-Lawful newest s.now k
              environments s.db.compute_environment_event_log n d b,
        )
