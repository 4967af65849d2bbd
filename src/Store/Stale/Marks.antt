-- ===== src/Store/Stale/Marks.antt =====
-- Which jobs `StaleOldJobs` of jobs/postgres_store.go marks, and which events that adds.
use batchiepatchie.Prelude.{
  ℕ, ◌+◌, ◌≤◌, String, ◌≡◌, ◌↔◌, refl, ap, ◌⊎◌, inl, inr, Bool, true, false, not, ◌||◌, ◌&&◌,
  Option, none, some, List, [], ◌∷◌, ◌==◌, eq_iff, eq_refl, arith, ltb, Bool-cases,
}
use batchiepatchie.Prelude.Dict.{member, Distinct}
use batchiepatchie.Jobs.{Time}
use batchiepatchie.Store.Db.{JobRow}
use batchiepatchie.Store.Upsert.{add_event}
use batchiepatchie.Store.Upsert.Rows.{find_row, ids}
use batchiepatchie.Store.Upsert.Events.{status_of, status_at, same_status, member-add_event}
use batchiepatchie.Store.Stale.{
  status_gone, settled, grace, is_stale, stale_row, stale_rows, stale_events,
}

-- A job that has ended, that AWS Batch still knows, or that was updated in the last 300 seconds.
abbrev pub Kept : Time → List String → JobRow → Type 0
Kept now known row =
    (member row.status settled ≡ true)
    ⊎ (member row.job_id known ≡ true)
    ⊎ (now ≤ row.last_updated + grace)

stale_test :
    (a b : Bool) (x y : ℕ)
    → ((not a && not b && ltb x y) ≡ false) ↔ ((a ≡ true) ⊎ (b ≡ true) ⊎ (y ≤ x))
stale_test true b x y = ground arith
stale_test false true x y = ground arith
stale_test false false x y = ground arith

-- The WHERE clause keeps a row from being marked exactly if it is to be kept.
pub is_stale_iff :
    (now : Time) (known : List String) (row : JobRow)
    → (is_stale now known row ≡ false) ↔ Kept now known row
unfolding is_stale
is_stale_iff now known row =
    stale_test (member row.status settled) (member row.job_id known) (row.last_updated + grace) now

-- Each row is either to be kept and left alone, or not to be kept and GONE, with nothing else of
-- it changed.
pub stale_row_lem :
    (now : Time) (known : List String) (row : JobRow)
    → (Kept now known row × (stale_row now known row ≡ row))
      ⊎ ((¬ Kept now known row) × (stale_row now known row ≡ record row { status = status_gone }))
unfolding stale_row
stale_row_lem now known row = elim (Bool-cases (is_stale now known row)) [
  | inl e ↦ rw e (inr (λ k. cc ((is_stale_iff now known row).1 k), refl))
  | inr e ↦ rw e (inl ((is_stale_iff now known row).0 e, refl))
]

pub stale_row-job_id :
    (now : Time) (known : List String) (row : JobRow)
    → (stale_row now known row).job_id ≡ row.job_id
unfolding stale_row
stale_row-job_id now known row = ground arith

abbrev pub mapped : (JobRow → JobRow) → Option JobRow → Option JobRow
mapped f none = none
mapped f (some row) = some (f row)

-- The row of each job after the statement.
pub find_row-stale_rows :
    (now : Time) (known : List String) (k : String) (rows : List JobRow)
    → find_row k (stale_rows now known rows) ≡ mapped (stale_row now known) (find_row k rows)
unfolding find_row stale_rows
find_row-stale_rows now known k [] = refl
find_row-stale_rows now known k (row ∷ rows) = ground (
  arith,
  stale_row-job_id now known row,
  eq_iff row.job_id k,
  eq_iff (stale_row now known row).job_id k,
  find_row-stale_rows now known k rows,
)

abbrev is_stale_at : Time → List String → Option JobRow → Bool
is_stale_at now known none = false
is_stale_at now known (some row) = is_stale now known row

not_yet_gone :
    (now : Time) (known : List String) (row : JobRow)
    → is_stale now known row ≡ true
    → (status_gone == row.status) ≡ false
unfolding is_stale
not_yet_gone now known row e = ground arith

stale_row-status :
    (now : Time) (known : List String) (row : JobRow)
    → ((stale_row now known row).status == row.status) ≡ not (is_stale now known row)
unfolding stale_row
stale_row-status now known row = elim (Bool-cases (is_stale now known row)) [
  | inl e ↦ rw e (not_yet_gone now known row e)
  | inr e ↦ rw e (eq_refl row.status)
]

member-absent :
    (k : String) (rows : List JobRow) → member k (ids rows) ≡ false → find_row k rows ≡ none
unfolding find_row
member-absent k [] h = refl
member-absent k (row ∷ rows) h = ground (arith, member-absent k rows)

member-stale_events :
    (now : Time) (known : List String) (k : String) (rows : List JobRow) (events : List String)
    → Distinct (ids rows)
    → member k (stale_events now known rows events)
      ≡ (member k events || is_stale_at now known (find_row k rows))
unfolding stale_events find_row
member-stale_events now known k [] events d = ground arith
member-stale_events now known k (row ∷ rows) events d =
    let ih = λ (e : List String). member-stale_events now known k rows e d.1 in
    ground (
      arith,
      stale_row-status now known row,
      ih events,
      ih (add_event row.job_id events),
      member-add_event k row.job_id events,
      eq_iff row.job_id k,
      member-absent k rows,
    )

marked-status :
    (now : Time) (known : List String) (o : Option JobRow)
    → is_stale_at now known o
      ≡ not (same_status (status_of o) (status_of (mapped (stale_row now known) o)))
marked-status now known none = refl
marked-status now known (some row) = ground (arith, stale_row-status now known row)

-- If no job has two rows, the events after the statement are those before it, and each job whose
-- status it changed.
pub member-stale_events_lem :
    (now : Time) (known : List String) (k : String) (rows : List JobRow) (events : List String)
    → Distinct (ids rows)
    → member k (stale_events now known rows events) ≡ (
        member k events
        || not (same_status (status_at k rows) (status_at k (stale_rows now known rows))))
unfolding status_at
member-stale_events_lem now known k rows events d =
    rw (member-stale_events now known k rows events d, find_row-stale_rows now known k rows)
      (ap (◌||◌ (member k events)) (marked-status now known (find_row k rows)))
