-- ===== src/Store/Queries/Timeouts.antt =====
-- The jobs that jobs/postgres_store.go finds to be past their timeout.
use batchiepatchie.Prelude.{
  ℕ, ◌+◌, ◌*◌, ◌<◌, String, ◌≡◌, ◌≢◌, ◌↔◌, refl, Bool, true, false, not, ◌&&◌, Option, none, some,
  List, [], ◌∷◌, ◌==◌, eq_iff, arith,
}
use batchiepatchie.Prelude.Dict.{member, Distinct}
use batchiepatchie.Prelude.Int.{pos, negsuc, ◌+ℤ◌}
use batchiepatchie.Jobs.{Time}
use batchiepatchie.Store.Db.{JobRow}
use batchiepatchie.Store.Upsert.Rows.{find_row, ids}
use batchiepatchie.Store.Queries.{is_timed_out, timed_out, request_rows}

-- A job with a timeout of `t` seconds is past it: it has not ended, no one has asked for its
-- termination, and more than `t` seconds have passed since it was created.
pub record PastTimeout (now : Time) (t : ℕ) (row : JobRow) : Type 0 where
  pub late : row.created_at + t * 1000000000 < now
  pub not_succeeded : row.status ≢ "SUCCEEDED"
  pub not_gone : row.status ≢ "GONE"
  pub not_failed : row.status ≢ "FAILED"
  pub not_requested : row.termination_requested ≡ false

-- A job with a timeout of `t` seconds, not negative, is found exactly if it has not ended, no one
-- has asked for its termination, and more than `t` seconds have passed since it was created.
pub is_timed_out_iff :
    (now : Time) (t : ℕ) (row : JobRow)
    → row.timeout ≡ pos t
    → (is_timed_out now row ≡ true) ↔ PastTimeout now t row
unfolding is_timed_out ◌+ℤ◌
is_timed_out_iff now t row e = rw e (
  (λ h. record {
    late = ground arith;
    not_succeeded = ground (arith, eq_iff row.status "SUCCEEDED");
    not_gone = ground (arith, eq_iff row.status "GONE");
    not_failed = ground (arith, eq_iff row.status "FAILED");
    not_requested = ground arith;
  }),
  (λ p.
      ground (
        arith,
        eq_iff row.status "SUCCEEDED",
        eq_iff row.status "GONE",
        eq_iff row.status "FAILED",
      )),
)

-- A job with the timeout -1 is never found.
pub no_timeout : (now : Time) (row : JobRow) → row.timeout ≡ negsuc 0 → is_timed_out now row ≡ false
unfolding is_timed_out
no_timeout now row e = rw e (ground arith)

requested_lem :
    (now : Time) (row : JobRow)
    → is_timed_out now (record row { termination_requested = true }) ≡ false
unfolding is_timed_out
requested_lem now row = ground arith

-- Once the termination of a job was requested it is not found again, and this is all that the
-- mark changes in what is found.
pub member-timed_out-request_rows :
    (now : Time) (id k : String) (rows : List JobRow)
    → member k (timed_out now (request_rows id rows))
      ≡ (member k (timed_out now rows) && not (id == k))
unfolding timed_out request_rows
member-timed_out-request_rows now id k [] = refl
member-timed_out-request_rows now id k (row ∷ rows) = ground (
  arith,
  requested_lem now row,
  eq_iff row.job_id id,
  eq_iff row.job_id k,
  eq_iff id k,
  member-timed_out-request_rows now id k rows,
)

abbrev pub is_timed_out_at : Time → Option JobRow → Bool
is_timed_out_at now none = false
is_timed_out_at now (some row) = is_timed_out now row

absent :
    (now : Time) (k : String) (rows : List JobRow)
    → member k (ids rows) ≡ false
    → member k (timed_out now rows) ≡ false
unfolding timed_out
absent now k [] h = refl
absent now k (row ∷ rows) h = ground (arith, absent now k rows)

-- A job is found exactly if its row is past its timeout.
pub member-timed_out :
    (now : Time) (k : String) (rows : List JobRow)
    → Distinct (ids rows)
    → member k (timed_out now rows) ≡ is_timed_out_at now (find_row k rows)
unfolding timed_out find_row
member-timed_out now k [] d = refl
member-timed_out now k (row ∷ rows) d =
    ground (arith, eq_iff row.job_id k, absent now k rows, member-timed_out now k rows d.1)
