-- ===== src/Store/Stale/Run.antt =====
-- `StaleOldJobs` of jobs/postgres_store.go as a transaction.
use batchiepatchie.Prelude.{
  String, ◌≡◌, refl, ap, ap₂, ◌∙◌, ◌⊎◌, inl, inr, List, [], ◌∷◌, ◌++◌, Bool-cases,
}
use mathlib.Core.List.{append-nil, append_assoc}
use batchiepatchie.Prelude.Dict.{member, Distinct, Distinct-before}
use batchiepatchie.Prelude.Io.{ok, ◌>>=◌, ◌>>◌, bind-ok, fail}
use batchiepatchie.Store.Db.{Session, call, exec}
use batchiepatchie.Store.Transactions.{
  NoFaults, call-db, call-now, call-NoFaults, exec-NoFaults, exec-ok, transaction-Atomic,
  transaction-NoFaults,
}
use batchiepatchie.Store.Upsert.Rows.{ids}
use batchiepatchie.Store.Stale.{stale_db, insert_known, stale_old_jobs}

insert_known-NoFaults :
    (ids table : List String) (s : Session)
    → NoFaults s
    → Distinct (table ++ ids)
    → insert_known ids table s ≡ (ok (table ++ ids), s)
unfolding insert_known
insert_known-NoFaults [] table s h d = rw append-nil
insert_known-NoFaults (id ∷ ids) table s h d =
    let e : (table ++ id ∷ []) ++ ids ≡ table ++ id ∷ ids = append_assoc table (id ∷ []) ids in
    rw (call-NoFaults s h) (
      rw (Distinct-before id table ids d)
        (rw (insert_known-NoFaults ids (table ++ id ∷ []) s h (rw e d)) (rw e)))

-- With no fault, and with the keys of a map as the known jobs, the statement is carried out.
pub stale_old_jobs-NoFaults :
    (ids : List String) (s : Session)
    → NoFaults s
    → Distinct ids
    → stale_old_jobs ids s ≡ (ok tt, record s { db = stale_db ids s.now s.db })
unfolding stale_old_jobs
stale_old_jobs-NoFaults ids s h d = transaction-NoFaults _ s _ tt h body h
  where
    body :
        (call >> (insert_known ids [] >>= λ known. exec (stale_db known))) s
        ≡ (ok tt, record s { db = stale_db ids s.now s.db })
    body =
        rw (call-NoFaults s h)
          (rw (insert_known-NoFaults ids [] s h d) (exec-NoFaults (stale_db ids) s h))

insert_known-ok :
    (ids table : List String) (s : Session) {t : List String}
    → (insert_known ids table s).0 ≡ ok t
    → (t ≡ table ++ ids)
      × ((insert_known ids table s).1.db ≡ s.db)
      × ((insert_known ids table s).1.now ≡ s.now)
unfolding insert_known
insert_known-ok [] table s h = (rw append-nil (cc), refl, refl)
insert_known-ok (id ∷ more) table s h = elim (Bool-cases (member id table)) [
  | inl e ↦
      let (_, p, q) = bind-ok (call s).0 (λ _. fail "duplicate key value") (call s).1 (rw e at h) in
      cc q
  | inr e ↦
      let next = insert_known more (table ++ id ∷ []) in
      let (_, p, q) = bind-ok (call s).0 (λ _. next) (call s).1 (rw e at h) in
      let (r, d, n) = insert_known-ok more (table ++ id ∷ []) (call s).1 (rw (e, q) at h) in
      rw (e, q) (r ∙ append_assoc table (id ∷ []) more, d ∙ call-db s, n ∙ call-now s)
]

-- Up to the flush, marking is all or nothing: the tables are left alone, or the transaction reports
-- success and the statement was carried out with all known jobs. This holds whichever calls of the
-- database fail.
pub stale_old_jobs_atomic :
    (known : List String) (s : Session)
    → ((stale_old_jobs known s).1.db ≡ s.db)
      ⊎ (((stale_old_jobs known s).0 ≡ ok tt)
          × ((stale_old_jobs known s).1.db ≡ stale_db known s.now s.db))
unfolding stale_old_jobs
stale_old_jobs_atomic known s =
    elim (transaction-Atomic (call >> (insert_known known [] >>= λ table. exec (stale_db table)))
      s) [
        | inl same ↦ inl same
        | inr (a, p, q, e) ↦
            inr (q, e ∙ body (call s).1 p ∙ ap₂ (stale_db known) (call-now s) (call-db s))
      ]
  where
    body :
        (t : Session) {a : Unit {0}}
        → ((call >> (insert_known known [] >>= λ table. exec (stale_db table))) t).0 ≡ ok a
        → ((call >> (insert_known known [] >>= λ table. exec (stale_db table))) t).1.db
          ≡ stale_db known t.now t.db
    body t h =
        let (_, p, q) =
          bind-ok (call t).0 (λ _. insert_known known [] >>= λ table. exec (stale_db table))
            (call t).1 h in
        let u = insert_known known [] (call t).1 in
        let (table, p', q') = bind-ok u.0 (λ table. exec (stale_db table)) u.1 (rw q at h) in
        let (r, d, n) = insert_known-ok known [] (call t).1 p' in
        let (x, _) = exec-ok (stale_db table) u.1 (rw (q, q') at h) in
        rw (q, q')
          (x
            ∙ ap₂ (stale_db table) (n ∙ call-now t) (d ∙ call-db t)
            ∙ ap (λ (k : List String). stale_db k t.now t.db) r)
