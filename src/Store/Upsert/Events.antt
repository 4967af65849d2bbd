-- ===== src/Store/Upsert/Events.antt =====
-- The events of migrations/00018 beside an upsert of jobs/postgres_store.go.
use batchiepatchie.Prelude.{
  String, ◌≡◌, refl, Bool, true, false, not, ◌||◌, Option, none, some, List, [], ◌∷◌, ◌++◌, ◌==◌,
  eq_iff, eq_refl, arith, if◌then◌else◌, Bool-cases, inl, inr,
}
use batchiepatchie.Prelude.Dict.{member}
use batchiepatchie.Jobs.{Job}
use batchiepatchie.Store.Db.{JobRow}
use batchiepatchie.Store.Upsert.{upsert, add_event, upsert_events}
use batchiepatchie.Store.Upsert.Rows.{find_row, find_row-upsert, written}

abbrev pub status_of : Option JobRow → Option String
status_of none = none
status_of (some row) = some row.status

-- The status of a job, if it has a row.
unfoldable pub status_at : String → List JobRow → Option String
unfolding find_row
status_at k rows = status_of (find_row k rows)

abbrev pub same_status : Option String → Option String → Bool
same_status none none = true
same_status none (some t) = false
same_status (some s) none = false
same_status (some s) (some t) = t == s

pub same_status_refl : (s : Option String) → same_status s s ≡ true
same_status_refl none = refl
same_status_refl (some s) = eq_refl s

member-append-one :
    (k id : String) (ids : List String) → member k (ids ++ id ∷ []) ≡ (member k ids || id == k)
member-append-one k id [] = ground arith
member-append-one k id (i ∷ ids) = ground (arith, member-append-one k id ids)

pub member-add_event :
    (k id : String) (ids : List String) → member k (add_event id ids) ≡ (member k ids || id == k)
unfolding add_event
member-add_event k id ids = ground (arith, member-append-one k id ids, eq_iff id k)

pub upsert_events_lem :
    (j : Job) (rows : List JobRow) (ids : List String)
    → upsert_events j rows ids ≡ (
        if same_status (status_at j.id rows) (some (written j (find_row j.id rows)).status)
        then ids
        else add_event j.id ids)
unfolding upsert_events status_at
upsert_events_lem j [] ids = refl
upsert_events_lem j (row ∷ rows) ids = elim (Bool-cases (row.job_id == j.id)) [
  | inl e ↦ rw e
  | inr e ↦ rw e (upsert_events_lem j rows ids)
]

-- The events after an upsert are those before it, and the job's if its status is another or new.
pub member-upsert_events :
    (j : Job) (k : String) (rows : List JobRow) (ids : List String)
    → member k (upsert_events j rows ids)
      ≡ (member k ids || not (same_status (status_at k rows) (status_at k (upsert j rows))))
unfolding status_at
member-upsert_events j k rows ids = elim (Bool-cases (j.id == k)) [
  | inl e ↦
      let p : j.id ≡ k = (eq_iff j.id k).0 e in
      rw (upsert_events_lem j rows ids, find_row-upsert j k rows, e, ← p)
        (ground (arith, member-add_event j.id j.id ids, eq_refl j.id))
  | inr e ↦
      rw
        (
          upsert_events_lem j rows ids,
          find_row-upsert j k rows,
          e,
          same_status_refl (status_of (find_row k rows)),
        )
        (ground (arith, member-add_event k j.id ids))
]
