-- ===== src/Tests/Logs.antt =====
-- The theorems about the change logs, on a concrete log with one row for the queue "gpu".
use batchiepatchie.Prelude.{
  ℕ, ◌≤◌, ◌≡◌, refl, sym, ap, ◌∙◌, arith, List, [], ◌∷◌, ◌++◌, Option, none, some, ◌⊎◌, inl, inr,
  ltb, if◌then◌else◌, All, Bool-cases, Option-cases,
}
use batchiepatchie.Prelude.Int.{pos}
use batchiepatchie.Prelude.Io.{ok}
use batchiepatchie.Jobs.{JobSummary, ComputeEnvironment}
use batchiepatchie.Store.Db.{SummaryRow, Session}
use batchiepatchie.Store.ChangeLog.{latest_row, summary_log, update_job_summary_log}
use batchiepatchie.Store.ChangeLog.Newest.{IsNewest}
use batchiepatchie.Store.ChangeLog.Latest.{viewed, last_entry}
use batchiepatchie.Store.ChangeLog.Logged.{summary_of, update_job_summary_log_lem}
use batchiepatchie.Tests.{noon, some_db}

abbrev logging : Session
logging = record {
  db = record some_db {
    job_summary_event_log =
        record {
          timestamp = noon;
          job_queue = "gpu";
          submitted = 0;
          pending = 0;
          runnable = 2;
          starting = 0;
          running = 1;
        }
        ∷ [];
    compute_environment_event_log =
        record {
          timestamp = noon;
          compute_environment = "spot";
          desired_vcpus = pos 4;
          max_vcpus = pos 16;
          min_vcpus = pos 0;
          state = "ENABLED";
          service_role = "role";
        }
        ∷ [];
  };
  now = 1500000600000000000;
  answers = [];
}

abbrev summaries : List JobSummary
summaries =
    record {
      job_queue = "gpu";
      submitted = 0;
      pending = 0;
      runnable = 0;
      starting = 1;
      running = 2;
    }
    ∷ []

abbrev environments : List ComputeEnvironment
environments =
    record {
      name = "spot";
      wanted_vcpus = pos 8;
      min_vcpus = pos 0;
      max_vcpus = pos 16;
      state = "ENABLED";
      service_role = "role";
    }
    ∷ []

-- The last of the rows with the latest time.
abbrev later_of : SummaryRow → Option SummaryRow → SummaryRow
later_of row none = row
later_of row (some r) = if ltb r.timestamp row.timestamp then row else r

unfoldable newest : List SummaryRow → Option SummaryRow
newest [] = none
newest (row ∷ rows) = some (later_of row (newest rows))

later_of-one :
    (row : SummaryRow) (o : Option SummaryRow)
    → (later_of row o ≡ row) ⊎ (o ≡ some (later_of row o))
later_of-one row none = inl refl
later_of-one row (some r) = elim (Bool-cases (ltb r.timestamp row.timestamp)) [
  | inl e ↦ rw e (inl refl)
  | inr e ↦ rw e (inr refl)
]

newest-of_some :
    (row : SummaryRow) (rows : List SummaryRow) → (r : SummaryRow) × (newest (row ∷ rows) ≡ some r)
unfolding newest
newest-of_some row rows = (later_of row (newest rows), refl)

newest-one_of :
    (rows : List SummaryRow) (r : SummaryRow)
    → newest rows ≡ some r
    → (before : List SummaryRow) × (after : List SummaryRow) × (rows ≡ before ++ r ∷ after)
unfolding newest
newest-one_of [] r h = cc
newest-one_of (row ∷ rows) r h =
    let same : later_of row (newest rows) ≡ r = cc h in
    elim (later_of-one row (newest rows)) [
      | inl e ↦ ([], rows, ap (λ x. x ∷ rows) (sym e ∙ same))
      | inr e ↦
          let (before, after, s) = newest-one_of rows r (e ∙ ap some same) in
          (row ∷ before, after, ap (λ l. row ∷ l) s)
    ]

earlier_too :
    (a b : ℕ) (rows : List SummaryRow)
    → a ≤ b
    → All (λ row. row.timestamp ≤ a) rows
    → All (λ row. row.timestamp ≤ b) rows
earlier_too a b [] h p = tt
earlier_too a b (row ∷ rows) h p = (omega (arith, p.0), earlier_too a b rows h p.1)

first_late :
    (row : SummaryRow) (o : Option SummaryRow) (r : SummaryRow)
    → later_of row o ≡ r
    → row.timestamp ≤ r.timestamp
first_late row none r h = rw (← h) (omega arith)
first_late row (some s) r h = rw (← h) (elim (Bool-cases (ltb s.timestamp row.timestamp)) [
  | inl e ↦ rw e (omega arith)
  | inr e ↦ rw e (ground arith)
])

other_late : (row s r : SummaryRow) → later_of row (some s) ≡ r → s.timestamp ≤ r.timestamp
other_late row s r h = rw (← h) (elim (Bool-cases (ltb s.timestamp row.timestamp)) [
  | inl e ↦ rw e (ground arith)
  | inr e ↦ rw e (omega arith)
])

no_rows :
    (rows : List SummaryRow) → newest rows ≡ none → (t : ℕ) → All (λ row. row.timestamp ≤ t) rows
unfolding newest
no_rows [] h t = tt
no_rows (row ∷ rows) h t = cc

newest-none_later :
    (rows : List SummaryRow) (r : SummaryRow)
    → newest rows ≡ some r
    → All (λ row. row.timestamp ≤ r.timestamp) rows
unfolding newest
newest-none_later [] r h = tt
newest-none_later (row ∷ rows) r h =
    let same : later_of row (newest rows) ≡ r = cc h in
    elim (Option-cases (newest rows)) [
      | inl o ↦ (first_late row none r (rw o at same), no_rows rows o r.timestamp)
      | inr (s, o) ↦ (
        first_late row (some s) r (rw o at same),
        earlier_too s.timestamp r.timestamp rows (other_late row s r (rw o at same))
            (newest-none_later rows s o),
      )
    ]

newest-IsNewest : IsNewest (λ row. row.timestamp) newest
newest-IsNewest = record {
  of_none = unfold newest in refl;
  of_some = newest-of_some;
  one_of = newest-one_of;
  none_later = newest-none_later;
}

update_job_summary_log_example :
    let (r, t) = update_job_summary_log newest summaries logging in
    (r ≡ ok tt)
    × (viewed summary_of (latest_row summary_log newest "gpu" t.db.job_summary_event_log)
        ≡ last_entry summary_log "gpu" summaries (
            viewed summary_of
              (latest_row summary_log newest "gpu" logging.db.job_summary_event_log)))
update_job_summary_log_example =
    update_job_summary_log_lem newest summaries logging "gpu" newest-IsNewest refl (refl, tt)
      (omega arith, tt)
