-- ===== src/Store/Upsert/Again.antt =====
-- Writing a job again, as every synchronisation does.
use batchiepatchie.Prelude.{
  ◌≡◌, refl, Bool, true, false, Option, none, some, List, [], ◌∷◌, ◌==◌, eq_iff, eq_refl, arith,
  Bool-cases, inl, inr,
}
use batchiepatchie.Prelude.Int.{eqb_ℤ, eqb_ℤ_refl}
use batchiepatchie.Jobs.{Job}
use batchiepatchie.Jobs.Json.{ArrayProperties}
use batchiepatchie.Store.Sql.{holds}
use batchiepatchie.Store.Db.{JobRow}
use batchiepatchie.Store.Upsert.{
  insert_row, where_clause, update_row, write_row, upsert, stored_properties,
}
use batchiepatchie.Store.Upsert.Rows.{write_row-job_id}
use batchiepatchie.Store.Upsert.Where.{is_news, is_first, where_clause_lem}

not_news {ℓ} :
    {A : Type ℓ} (eq : A → A → Bool) (same : (a : A) → eq a a ≡ true) (o : Option A)
    → is_news eq o o ≡ false
not_news eq same none = refl
not_news eq same (some a) = rw (same a)

not_first : (o : Option ArrayProperties) → is_first o o ≡ false
not_first none = refl
not_first (some a) = refl

-- The columns that the WHERE clause compares are already those of the job.
record Agrees (j : Job) (row : JobRow) : Type 0 where
  status : row.status ≡ j.status
  status_reason : row.status_reason ≡ j.status_reason
  exitcode : row.exitcode ≡ j.exit_code
  log_stream_name : row.log_stream_name ≡ j.log_stream_name
  task_arn : row.task_arn ≡ j.task_arn
  array_properties : row.array_properties ≡ stored_properties j.array_properties

Agrees-where_clause : (j : Job) (row : JobRow) → Agrees j row → holds (where_clause j row) ≡ false
Agrees-where_clause j row a = rw (where_clause_lem j row j.array_properties a.array_properties) (
    rw (a.status, a.status_reason, a.exitcode, a.log_stream_name, a.task_arn)
      (rw (
        eq_refl j.status,
        not_news ◌==◌ eq_refl j.status_reason,
        not_news eqb_ℤ eqb_ℤ_refl j.exit_code,
        not_news ◌==◌ eq_refl j.log_stream_name,
        not_news ◌==◌ eq_refl j.task_arn,
        not_first j.array_properties,
      )))

insert_row-Agrees : (j : Job) → Agrees j (insert_row j)
unfolding insert_row
insert_row-Agrees j = ground arith

update_row-Agrees : (j : Job) (row : JobRow) → Agrees j (update_row j row)
unfolding update_row
update_row-Agrees j row = ground arith

unchanged : (j : Job) (row : JobRow) → holds (where_clause j row) ≡ false → write_row j row ≡ row
unfolding write_row
unchanged j row e = rw e

write_row_again : (j : Job) (row : JobRow) → write_row j (write_row j row) ≡ write_row j row
write_row_again j row = elim (Bool-cases (holds (where_clause j row))) [
  | inl e ↦
      let u : write_row j row ≡ update_row j row = unfold write_row in (rw e) in
      rw u (unchanged j _ (Agrees-where_clause j _ (update_row-Agrees j row)))
  | inr e ↦ rw (unchanged j row e) (unchanged j row e)
]

-- Writing a job a second time changes nothing.
pub upsert_again : (j : Job) (rows : List JobRow) → upsert j (upsert j rows) ≡ upsert j rows
unfolding upsert
upsert_again j [] =
    let w = unchanged j (insert_row j) (Agrees-where_clause j _ (insert_row-Agrees j)) in
    let e : (insert_row j).job_id ≡ j.id = unfold insert_row in refl in
    ground (arith, w, e, eq_iff (insert_row j).job_id j.id)
upsert_again j (row ∷ rows) = ground (
  arith,
  eq_iff row.job_id j.id,
  write_row-job_id j row,
  eq_iff (write_row j row).job_id j.id,
  write_row_again j row,
  upsert_again j rows,
)
