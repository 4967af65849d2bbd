-- ===== src/Store/Steps.antt =====
-- jobs/postgres_store.go: the operations on the tables of jobs and of events, as steps of the
-- database in any order and with any faults.
use batchiepatchie.Prelude.{
  String, ◌≡◌, refl, sym, subst, ◌∙◌, ap, ap₂, ◌⊎◌, inl, inr, false, Option, List, [], ◌∷◌, ◌++◌,
  ◌==◌, eq_iff, arith, Bool-cases,
}
use batchiepatchie.Prelude.Dict.{member, Distinct, member-append}
use batchiepatchie.Prelude.Io.{ok, Error, ◌>>=◌, ◌>>◌, bind-ok, pure}
use batchiepatchie.Jobs.{Time, Job}
use batchiepatchie.Store.Db.{JobRow, Db, Session, call, query, exec}
use batchiepatchie.Store.Transactions.{
  call-db, call-now, call-Returns, exec-ok, query-ok, transaction-Atomic,
}
use batchiepatchie.Store.Upsert.{write_row, add_event, upsert_events, upsert_db, store_jobs}
use batchiepatchie.Store.Upsert.Rows.{ids, upsert-Distinct}
use batchiepatchie.Store.Upsert.Batch.{upsert_all, store_jobs_atomic}
use batchiepatchie.Store.Stale.{stale_row, stale_rows, stale_events, stale_db, stale_old_jobs}
use batchiepatchie.Store.Stale.Marks.{stale_row-job_id}
use batchiepatchie.Store.Stale.Run.{stale_old_jobs_atomic}
use batchiepatchie.Store.Queries.{request_rows, update_job_log_termination_requested}
use batchiepatchie.Store.Subscriptions.{take_events}

-- The primary keys of the two tables.
pub record IsValid (db : Db) : Type 0 where
  pub one_row : Distinct (ids db.jobs)
  pub one_event : Distinct db.job_status_events

-- One operation with whatever faults are to come, or the passing of time, with new faults.
pub data Step : Session → Session → Type 0 where
  stored : {s : Session} (js : List Job) → Step s (store_jobs js s).1
  staled : {s : Session} (known : List String) → Step s (stale_old_jobs known s).1
  requested : {s : Session} (id : String) → Step s (update_job_log_termination_requested id s).1
  taken : {s : Session} → Step s (take_events s).1
  passed :
      {s : Session} (now : Time) (answers : List (Option Error))
      → Step s (record { db = s.db; now = now; answers = answers })

pub data Steps : Session → Session → Type 0 where
  nothing : {s : Session} → Steps s s
  then_step : {s t u : Session} → Steps s t → Step t u → Steps s u

add_event-Distinct :
    (id : String) (events : List String) → Distinct events → Distinct (add_event id events)
unfolding add_event
add_event-Distinct id events d = elim (Bool-cases (member id events)) [
  | inl e ↦ rw e d
  | inr e ↦ rw e (fresh events d e)
]
  where
    fresh : (ks : List String) → Distinct ks → member id ks ≡ false → Distinct (ks ++ id ∷ [])
    fresh [] d e = (refl, tt)
    fresh (k ∷ ks) d e = (
      ground (arith, member-append k ks (id ∷ []), eq_iff id k, eq_iff k id),
      fresh ks d.1 (ground arith),
    )

upsert_events-Distinct :
    (j : Job) (rows : List JobRow) (events : List String)
    → Distinct events
    → Distinct (upsert_events j rows events)
unfolding upsert_events
upsert_events-Distinct j [] events d = add_event-Distinct j.id events d
upsert_events-Distinct j (row ∷ rows) events d =
    let a = add_event-Distinct j.id events d in
    let b = upsert_events-Distinct j rows events d in
    elim (Bool-cases (row.job_id == j.id)) [
      | inl e ↦ rw e (elim (Bool-cases ((write_row j row).status == row.status)) [
        | inl f ↦ rw f d
        | inr f ↦ rw f a
      ])
      | inr e ↦ rw e b
    ]

upsert_all-IsValid : (js : List Job) (db : Db) → IsValid db → IsValid (upsert_all js db)
unfolding upsert_all upsert_db
upsert_all-IsValid [] db v = v
upsert_all-IsValid (j ∷ js) db v = upsert_all-IsValid js (upsert_db j db) (record {
  one_row = upsert-Distinct j db.jobs v.one_row;
  one_event = upsert_events-Distinct j db.jobs db.job_status_events v.one_event;
})

ids-stale_rows :
    (now : Time) (known : List String) (rows : List JobRow)
    → ids (stale_rows now known rows) ≡ ids rows
unfolding stale_rows
ids-stale_rows now known [] = refl
ids-stale_rows now known (row ∷ rows) =
    ap₂ ◌∷◌ (stale_row-job_id now known row) (ids-stale_rows now known rows)

stale_events-Distinct :
    (now : Time) (known : List String) (rows : List JobRow) (events : List String)
    → Distinct events
    → Distinct (stale_events now known rows events)
unfolding stale_events
stale_events-Distinct now known [] events d = d
stale_events-Distinct now known (row ∷ rows) events d =
    stale_events-Distinct now known rows _
      (elim (Bool-cases ((stale_row now known row).status == row.status)) [
        | inl f ↦ rw f d
        | inr f ↦ rw f (add_event-Distinct row.job_id events d)
      ])

stale_db-IsValid :
    (known : List String) (now : Time) (db : Db) → IsValid db → IsValid (stale_db known now db)
unfolding stale_db
stale_db-IsValid known now db v = record {
  one_row = rw (ids-stale_rows now known db.jobs) (v.one_row);
  one_event = stale_events-Distinct now known db.jobs db.job_status_events v.one_event;
}

ids-request_rows : (id : String) (rows : List JobRow) → ids (request_rows id rows) ≡ ids rows
unfolding request_rows
ids-request_rows id [] = refl
ids-request_rows id (row ∷ rows) = elim (Bool-cases (row.job_id == id)) [
  | inl e ↦ rw e (ap (◌∷◌ row.job_id) (ids-request_rows id rows))
  | inr e ↦ rw e (ap (◌∷◌ row.job_id) (ids-request_rows id rows))
]

exec-db :
    (change : Time → Db → Db) (s : Session)
    → ((exec change s).1.db ≡ s.db) ⊎ ((exec change s).1.db ≡ change s.now s.db)
unfolding exec
exec-db change s = elim (call-Returns s) [
  | inl (u, e) ↦ inr (rw e (ap₂ change (call-now s) (call-db s)))
  | inr (x, e) ↦ inl (rw e (call-db s))
]

-- What a flush that commits leaves of the two tables.
taken-db :
    (s : Session) {a : List String}
    → ((query (λ _ db. db.job_status_events) >>= λ found.
          exec (λ _ db. record db { job_status_events = [] }) >> pure found)
        s).0
      ≡ ok a
    → ((query (λ _ db. db.job_status_events) >>= λ found.
          exec (λ _ db. record db { job_status_events = [] }) >> pure found)
        s).1.db
      ≡ record (s.db) { job_status_events = [] }
taken-db s h =
    let empty : Time → Db → Db = λ _ db. record db { job_status_events = [] } in
    let q = query (λ _ db. db.job_status_events) s in
    let (found, p, r) = bind-ok q.0 (λ found. exec empty >> pure found) q.1 h in
    let x = exec empty q.1 in
    let (_, p', r') = bind-ok x.0 (λ _. pure found) x.1 (rw r at h) in
    let (_, d, _) = query-ok (λ _ db. db.job_status_events) s p in
    rw (r, r') ((exec-ok empty q.1 p').0 ∙ ap (λ (db : Db). record db { job_status_events = [] }) d)

valid : (a b : Db) → b ≡ a → IsValid a → IsValid b
valid a b e v = subst IsValid (sym e) v

Step-IsValid : {s t : Session} → Step s t → IsValid s.db → IsValid t.db
unfolding update_job_log_termination_requested take_events
Step-IsValid {s} (stored js) v = elim (store_jobs_atomic js s) [
  | inl e ↦ valid s.db _ e v
  | inr (_, e) ↦ valid (upsert_all js s.db) _ e (upsert_all-IsValid js s.db v)
]
Step-IsValid {s} (staled known) v = elim (stale_old_jobs_atomic known s) [
  | inl e ↦ valid s.db _ e v
  | inr (_, e) ↦ valid (stale_db known s.now s.db) _ e (stale_db-IsValid known s.now s.db v)
]
Step-IsValid {s} (requested id) v =
    elim (exec-db (λ _ db. record db { jobs = request_rows id db.jobs }) s) [
      | inl e ↦ valid s.db _ e v
      | inr e ↦
          valid (record (s.db) { jobs = request_rows id s.db.jobs }) _ e
            (record {
              one_row = rw (ids-request_rows id s.db.jobs) (v.one_row);
              one_event = v.one_event;
            })
    ]
Step-IsValid {s} taken v =
    elim (transaction-Atomic
      (query (λ _ db. db.job_status_events) >>= λ found.
        exec (λ _ db. record db { job_status_events = [] }) >> pure found)
      s) [
        | inl e ↦ valid s.db _ e v
        | inr (a, p, _, e) ↦
            valid (record (s.db) { job_status_events = [] }) _
              (e
                ∙ taken-db (call s).1 p
                ∙ ap (λ (db : Db). record db { job_status_events = [] }) (call-db s))
              (record { one_row = v.one_row; one_event = tt })
      ]
Step-IsValid (passed now answers) v = v

-- Whatever the operations on jobs and events do in whatever order, and whichever of their calls
-- fail: if no job has two rows or two events, none ever has.
pub Steps-IsValid : {s t : Session} → Steps s t → IsValid s.db → IsValid t.db
Steps-IsValid nothing v = v
Steps-IsValid (then_step rest last) v = Step-IsValid last (Steps-IsValid rest v)
