-- ===== src/Store/Upsert/Rows.antt =====
-- What one upsert of jobs/postgres_store.go does to the table `jobs`.
use batchiepatchie.Prelude.{
  String, ◌≡◌, refl, ◌||◌, Option, none, some, List, [], ◌∷◌, ◌==◌, eq_iff, if◌then◌else◌, arith,
  inl, inr, Bool-cases,
}
use batchiepatchie.Prelude.Dict.{member, Distinct}
use batchiepatchie.Jobs.{Job}
use batchiepatchie.Store.Sql.{holds}
use batchiepatchie.Store.Db.{JobRow}
use batchiepatchie.Store.Upsert.{insert_row, where_clause, update_row, write_row, upsert}

-- The row of a job: `job_id` is the primary key.
unfoldable pub find_row : String → List JobRow → Option JobRow
find_row k [] = none
find_row k (row ∷ rows) = if row.job_id == k then some row else find_row k rows

pub write_row-job_id : (j : Job) (row : JobRow) → (write_row j row).job_id ≡ row.job_id
unfolding write_row update_row
write_row-job_id j row = ground arith

-- The row that the statement leaves for the job that it is about.
abbrev pub written : Job → Option JobRow → JobRow
written j none = insert_row j
written j (some row) = write_row j row

pub insert_row-job_id : (j : Job) → (insert_row j).job_id ≡ j.id
unfolding insert_row
insert_row-job_id j = refl

-- After an upsert, the row of the job is the inserted or the written one, and the row of any other
-- job is what it was.
pub find_row-upsert :
    (j : Job) (k : String) (rows : List JobRow)
    → find_row k (upsert j rows)
      ≡ (if j.id == k then some (written j (find_row k rows)) else find_row k rows)
unfolding find_row upsert
find_row-upsert j k [] = rw (insert_row-job_id j)
find_row-upsert j k (row ∷ rows) = ground (
  arith,
  eq_iff row.job_id j.id,
  eq_iff row.job_id k,
  eq_iff j.id k,
  write_row-job_id j row,
  eq_iff (write_row j row).job_id k,
  find_row-upsert j k rows,
)

abbrev pub ids : List JobRow → List String
ids [] = []
ids (row ∷ rows) = row.job_id ∷ ids rows

pub member-ids-upsert :
    (j : Job) (k : String) (rows : List JobRow)
    → member k (ids (upsert j rows)) ≡ (j.id == k || member k (ids rows))
unfolding upsert
member-ids-upsert j k [] = rw (insert_row-job_id j)
member-ids-upsert j k (row ∷ rows) = ground (
  arith,
  eq_iff row.job_id j.id,
  eq_iff row.job_id k,
  eq_iff j.id k,
  write_row-job_id j row,
  member-ids-upsert j k rows,
)

-- An upsert keeps the primary key: if no job had two rows, none has two afterwards.
pub upsert-Distinct :
    (j : Job) (rows : List JobRow) → Distinct (ids rows) → Distinct (ids (upsert j rows))
unfolding upsert
upsert-Distinct j [] d = (refl, tt)
upsert-Distinct j (row ∷ rows) d = ground (
  arith,
  eq_iff row.job_id j.id,
  eq_iff j.id row.job_id,
  write_row-job_id j row,
  member-ids-upsert j row.job_id rows,
  upsert-Distinct j rows d.1,
)

-- The columns that `do update` never sets.
pub record SameJob (old new : JobRow) : Type 0 where
  pub job_id : new.job_id ≡ old.job_id
  pub job_name : new.job_name ≡ old.job_name
  pub job_definition : new.job_definition ≡ old.job_definition
  pub job_queue : new.job_queue ≡ old.job_queue
  pub image : new.image ≡ old.image
  pub created_at : new.created_at ≡ old.created_at
  pub vcpus : new.vcpus ≡ old.vcpus
  pub memory : new.memory ≡ old.memory
  pub timeout : new.timeout ≡ old.timeout
  pub command_line : new.command_line ≡ old.command_line
  pub termination_requested : new.termination_requested ≡ old.termination_requested

-- A write to a row changes none of the columns that describe the job itself, nor the mark of a
-- requested termination.
pub write_row-SameJob : (j : Job) (row : JobRow) → SameJob row (write_row j row)
unfolding write_row update_row
write_row-SameJob j row = elim (Bool-cases (holds (where_clause j row))) [
  | inl e ↦ rw e (ground arith)
  | inr e ↦ rw e (ground arith)
]
