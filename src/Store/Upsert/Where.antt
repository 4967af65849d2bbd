-- ===== src/Store/Upsert/Where.antt =====
-- When the WHERE clause of `do update` in jobs/postgres_store.go lets an update through.
use batchiepatchie.Prelude.{
  ◌≡◌, refl, Bool, true, false, not, ◌||◌, ◌&&◌, Option, none, some, ◌==◌, arith,
}
use batchiepatchie.Prelude.Int.{eqb_ℤ}
use batchiepatchie.Jobs.{Job}
use batchiepatchie.Jobs.Json.{ArrayProperties, value, get_key, get_field}
use batchiepatchie.Store.Sql.{◌and◌, differs, is_null, is_not_null, holds, holds-or, holds-and}
use batchiepatchie.Store.Db.{JobRow}
use batchiepatchie.Store.Upsert.{stored_properties, extra_where_check, where_clause}

-- A new value that is not NULL and that the old one does not have.
abbrev pub is_news {ℓ} : {A : Type ℓ} → (A → A → Bool) → Option A → Option A → Bool
is_news eq old none = false
is_news eq none (some b) = true
is_news eq (some a) (some b) = not (eq a b)

-- The first `ArrayProperties` of a job.
abbrev pub is_first : Option ArrayProperties → Option ArrayProperties → Bool
is_first none (some a) = true
is_first _ _ = false

news_lem {ℓ} :
    {A : Type ℓ} (eq : A → A → Bool) (old new : Option A)
    → is_news eq old new ≡ (holds (differs eq old new) || holds (is_null old and is_not_null new))
news_lem eq none none = refl
news_lem eq none (some b) = refl
news_lem eq (some a) none = refl
news_lem eq (some a) (some b) = ground arith

-- A stored object has no key in capitals, so each comparison of a count is NULL.
extra_where_check_lem :
    (old new : Option ArrayProperties)
    → holds (extra_where_check new (stored_properties old)) ≡ is_first old new
unfolding extra_where_check value get_key get_field
extra_where_check_lem none none = refl
extra_where_check_lem none (some a) = refl
extra_where_check_lem (some b) none = refl
extra_where_check_lem (some b) (some a) = refl

regroup :
    (s d1 d2 d3 d4 n1 n2 n3 n4 x : Bool)
    → (s || (d1 || (d2 || (d3 || (d4 || (n4 || (n3 || (n1 || (n2 || x)))))))))
      ≡ (s || (d1 || n1) || (d2 || n2) || (d3 || n3) || (d4 || n4) || x)
regroup true d1 d2 d3 d4 n1 n2 n3 n4 x = refl
regroup false true d2 d3 d4 n1 n2 n3 n4 x = refl
regroup false false true d3 d4 true n2 n3 n4 x = refl
regroup false false true d3 d4 false n2 n3 n4 x = refl
regroup false false false d3 d4 n1 n2 n3 n4 x = ground arith

-- What the update is for: a new status, a new reason, exit code, log stream or task that is not
-- NULL, or the first array properties.
abbrev pub wants_update : Job → JobRow → Option ArrayProperties → Bool
wants_update j row old =
    not (row.status == j.status)
    || is_news ◌==◌ row.status_reason j.status_reason
    || is_news eqb_ℤ row.exitcode j.exit_code
    || is_news ◌==◌ row.log_stream_name j.log_stream_name
    || is_news ◌==◌ row.task_arn j.task_arn
    || is_first old j.array_properties

-- For a row whose array properties were written by `Value`, or are NULL, an update is let through
-- exactly for a new status, a new reason, exit code, log stream or task that is not NULL, or the
-- first array properties; so not for new counts of an array job.
pub where_clause_lem :
    (j : Job) (row : JobRow) (old : Option ArrayProperties)
    → row.array_properties ≡ stored_properties old
    → holds (where_clause j row) ≡ wants_update j row old
unfolding where_clause
where_clause_lem j row old e =
    let d1 = holds (differs ◌==◌ row.status_reason j.status_reason) in
    let d2 = holds (differs eqb_ℤ row.exitcode j.exit_code) in
    let d3 = holds (differs ◌==◌ row.log_stream_name j.log_stream_name) in
    let d4 = holds (differs ◌==◌ row.task_arn j.task_arn) in
    let n1 = holds (is_null row.status_reason) && holds (is_not_null j.status_reason) in
    let n2 = holds (is_null row.exitcode) && holds (is_not_null j.exit_code) in
    let n3 = holds (is_null row.log_stream_name) && holds (is_not_null j.log_stream_name) in
    let n4 = holds (is_null row.task_arn) && holds (is_not_null j.task_arn) in
    let first = is_first old j.array_properties in
    rw e (
      simp (holds-or, holds-and, news_lem, extra_where_check_lem)
        (regroup (not (row.status == j.status)) d1 d2 d3 d4 n1 n2 n3 n4 first))
