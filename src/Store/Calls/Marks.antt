-- ===== src/Store/Calls/Marks.antt =====
-- Which rows `StaleOldJobs` of jobs/postgres_store.go makes GONE, flush included.
use batchiepatchie.Prelude.{
  ◌+◌, ◌*◌, ◌≤◌, String, ◌≡◌, refl, ap, ◌⊎◌, inl, inr, true, Option, some, List, eq_iff, arith,
}
use batchiepatchie.Prelude.Dict.{member, Distinct}
use batchiepatchie.Jobs.{Time}
use batchiepatchie.Store.Db.{JobRow}
use batchiepatchie.Store.Transactions.{NoFaults}
use batchiepatchie.Store.Upsert.Rows.{find_row}
use batchiepatchie.Store.Stale.{settled, stale_row, stale_db}
use batchiepatchie.Store.Stale.Marks.{Kept, stale_row_lem, find_row-stale_rows}
use batchiepatchie.Store.Subscriptions.{StoreState, deliver}
use batchiepatchie.Store.Calls.{stale}
use batchiepatchie.Store.Calls.Notified.{stale_lem}

-- A job that is gone already, has ended, is known, or was updated in the last 300 seconds.
abbrev pub IsSpared : Time → List String → JobRow → Type 0
IsSpared now known row =
    (row.status ≡ "GONE")
    ⊎ (row.status ≡ "SUCCEEDED")
    ⊎ (row.status ≡ "FAILED")
    ⊎ (member row.job_id known ≡ true)
    ⊎ (now ≤ row.last_updated + 300 * 1000000000)

-- A row is left alone and to be spared, or GONE and not to be spared.
abbrev pub IsMarked : Time → List String → JobRow → Option JobRow → Type 0
IsMarked now known row after =
    (IsSpared now known row × (after ≡ some row))
    ⊎ ((¬ IsSpared now known row) × (after ≡ some (record row { status = "GONE" })))

settled_lem :
    (status : String)
    → member status settled ≡ true
    → (status ≡ "GONE") ⊎ (status ≡ "SUCCEEDED") ⊎ (status ≡ "FAILED")
settled_lem status h =
    ground (arith, eq_iff "GONE" status, eq_iff "SUCCEEDED" status, eq_iff "FAILED" status)

Kept→IsSpared :
    (now : Time) (known : List String) (row : JobRow) → Kept now known row → IsSpared now known row
Kept→IsSpared now known row (inl h) = elim (settled_lem row.status h) [
  | inl e ↦ inl e
  | inr (inl e) ↦ inr (inl e)
  | inr (inr e) ↦ inr (inr (inl e))
]
Kept→IsSpared now known row (inr (inl h)) = inr (inr (inr (inl h)))
Kept→IsSpared now known row (inr (inr h)) = inr (inr (inr (inr h)))

IsSpared→Kept :
    (now : Time) (known : List String) (row : JobRow) → IsSpared now known row → Kept now known row
IsSpared→Kept now known row (inl e) = inl (rw e refl)
IsSpared→Kept now known row (inr (inl e)) = inl (rw e refl)
IsSpared→Kept now known row (inr (inr (inl e))) = inl (rw e refl)
IsSpared→Kept now known row (inr (inr (inr (inl h)))) = inr (inl h)
IsSpared→Kept now known row (inr (inr (inr (inr h)))) = inr (inr h)

marked_lem :
    (now : Time) (known : List String) (row : JobRow)
    → IsMarked now known row (some (stale_row now known row))
marked_lem now known row = elim (stale_row_lem now known row) [
  | inl (k, e) ↦ inl (Kept→IsSpared now known row k, ap some e)
  | inr (k, e) ↦ inr (λ h. k (IsSpared→Kept now known row h), ap some e)
]

-- Without faults and with distinct known ids, after `StaleOldJobs` the row of each job is as it
-- was, if its status was GONE, SUCCEEDED or FAILED, if it is known, or if it was updated in the last
-- 300 seconds; and otherwise it is GONE, with nothing else of it changed.
pub stale-marks :
    (known : List String) (w : StoreState) (k : String) (row : JobRow)
    → NoFaults w.session
    → Distinct known
    → find_row k w.session.db.jobs ≡ some row
    → IsMarked w.session.now known row (find_row k (stale known w).1.session.db.jobs)
unfolding deliver stale_db
stale-marks known w k row h d e = rw (stale_lem known w h d) (
    rw (find_row-stale_rows w.session.now known k w.session.db.jobs)
      (rw e (marked_lem w.session.now known row)))
