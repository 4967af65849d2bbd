-- ===== src/Store/Calls/Atomic.antt =====
-- `Store` and `StaleOldJobs` of jobs/postgres_store.go when calls of the database fail, those of the
-- flush at their ends included.
use batchiepatchie.Prelude.{
  ℕ, String, ◌≡◌, refl, sym, subst, ◌∙◌, ap, ◌⊎◌, inl, inr, Option, none, some, List, [], ◌∷◌,
}
use batchiepatchie.Prelude.Io.{
  Io, Outcome, ok, err, panic, hang, bind_outcome, bind-ok, attempt_outcome, ◌>>=◌, ◌>>◌, pure,
}
use batchiepatchie.Jobs.{Job}
use batchiepatchie.Store.Db.{Db, Session, call, query, exec}
use batchiepatchie.Store.Transactions.{call-db, exec-ok, transaction-Atomic}
use batchiepatchie.Store.Queries.{find_one, joined, scan_row}
use batchiepatchie.Store.Upsert.{store_jobs}
use batchiepatchie.Store.Upsert.Batch.{upsert_all, store_jobs_atomic}
use batchiepatchie.Store.Stale.{stale_db, stale_old_jobs}
use batchiepatchie.Store.Stale.Run.{stale_old_jobs_atomic}
use batchiepatchie.Store.Subscriptions.{
  StoreState, on_session, take_events, add_found, find_each, deliver,
  flush_job_status_subscriptions,
}
use batchiepatchie.Store.Calls.{store, stale}

-- Tables as they were, or with the events deleted and nothing else changed.
abbrev pub FlushedFrom : Db → Db → Type 0
FlushedFrom db after = (after ≡ db) ⊎ (after ≡ record db { job_status_events = [] })

-- What follows a call keeps what one looks at in the state.
bind_keeps :
    {W A B C : Type 0} (look : W → C) (r : Outcome A) (f : A → Io W B) (w : W)
    → ((a : A) (w : W) → look (f a w).1 ≡ look w)
    → look (bind_outcome r f w).1 ≡ look w
bind_keeps look (ok a) f w h = h a w
bind_keeps look (err e) f w h = refl
bind_keeps look panic f w h = refl
bind_keeps look hang f w h = refl

scan_row-db : (o : Option Job) (s : Session) → (scan_row o s).1.db ≡ s.db
scan_row-db none s = refl
scan_row-db (some job) s = refl

query-db : {A : Type 0} (read : ℕ → Db → A) (s : Session) → (query read s).1.db ≡ s.db
unfolding query
query-db read s =
    bind_keeps (λ (t : Session). t.db) (call s).0 (λ _ t. (ok (read t.now t.db), t)) (call s).1
      (λ _ t. refl)
    ∙ call-db s

find_one-db : (id : String) (s : Session) → (find_one id s).1.db ≡ s.db
unfolding find_one
find_one-db id s =
    let r = query (λ _ db. joined id db.task_arns db.jobs) s in
    bind_keeps (λ (t : Session). t.db) r.0 scan_row r.1 scan_row-db
    ∙ query-db (λ _ db. joined id db.task_arns db.jobs) s

find_each-db :
    (ids : List String) (jobs : List Job) (s : Session) → (find_each ids jobs s).1.db ≡ s.db
unfolding find_each
find_each-db [] jobs s = refl
find_each-db (id ∷ ids) jobs s =
    let r = find_one id s in
    bind_keeps (λ (t : Session). t.db) (attempt_outcome r.0)
      (λ found. find_each ids (add_found found jobs)) r.1
      (λ found. find_each-db ids (add_found found jobs))
    ∙ find_one-db id s

take_events-FlushedFrom : (s : Session) → FlushedFrom s.db (take_events s).1.db
unfolding take_events
take_events-FlushedFrom s =
    elim (transaction-Atomic
      (query (λ _ db. db.job_status_events) >>= λ ids.
        exec (λ _ db. record db { job_status_events = [] }) >> pure ids)
      s) [
        | inl same ↦ inl same
        | inr (a, p, q, e) ↦ inr (
            e
            ∙ body (call s).1 p
            ∙ ap (λ (db : Db). record db { job_status_events = [] }) (call-db s))
      ]
  where
    emptied : Io Session (Unit {0})
    emptied = exec (λ _ db. record db { job_status_events = [] })

    body :
        (t : Session) {a : List String}
        → ((query (λ _ db. db.job_status_events) >>= λ ids. emptied >> pure ids) t).0 ≡ ok a
        → ((query (λ _ db. db.job_status_events) >>= λ ids. emptied >> pure ids) t).1.db
          ≡ record (t.db) { job_status_events = [] }
    body t h =
        let u = query (λ _ db. db.job_status_events) t in
        let (ids, _, q) = bind-ok u.0 (λ ids. emptied >> pure ids) u.1 h in
        let v = emptied u.1 in
        let (_, p', q') = bind-ok v.0 (λ _. pure ids) v.1 (rw q at h) in
        rw (q, q')
          ((exec-ok (λ _ db. record db { job_status_events = [] }) u.1 p').0
            ∙ ap (λ (db : Db). record db { job_status_events = [] })
                (query-db (λ _ db. db.job_status_events) t))

deliver-session : (jobs : List Job) (w : StoreState) → (deliver jobs w).1.session ≡ w.session
unfolding deliver
deliver-session jobs w = refl

-- However it ends, a flush leaves the tables alone but for the events.
flush-FlushedFrom :
    (w : StoreState) → FlushedFrom w.session.db (flush_job_status_subscriptions w).1.session.db
unfolding flush_job_status_subscriptions
flush-FlushedFrom w =
    let u = on_session take_events w in
    subst (FlushedFrom w.session.db)
      (sym (
        bind_keeps (λ (v : StoreState). v.session.db) u.0
          (λ ids. on_session (find_each ids []) >>= deliver) u.1 rest))
      (take_events-FlushedFrom w.session)
  where
    rest :
        (ids : List String) (v : StoreState)
        → ((on_session (find_each ids []) >>= deliver) v).1.session.db ≡ v.session.db
    rest ids v =
        let x = on_session (find_each ids []) v in
        bind_keeps (λ (v : StoreState). v.session.db) x.0 deliver x.1
          (λ jobs y. ap (λ (s : Session). s.db) (deliver-session jobs y))
        ∙ find_each-db ids [] v.session

-- A flush that runs after a call that returned.
then_flush-FlushedFrom :
    (r : Outcome (Unit {0})) (w : StoreState)
    → FlushedFrom w.session.db (bind_outcome r (λ _. flush_job_status_subscriptions) w).1.session.db
then_flush-FlushedFrom (ok u) w = flush-FlushedFrom w
then_flush-FlushedFrom (err e) w = inl refl
then_flush-FlushedFrom panic w = inl refl
then_flush-FlushedFrom hang w = inl refl

-- Whichever calls of the database fail, also in the flush, and whatever is returned: but for the
-- events, which are kept or all deleted, `Store` leaves the tables as they were or writes all jobs,
-- in order.
pub store_atomic :
    (js : List Job) (w : StoreState)
    → FlushedFrom w.session.db (store js w).1.session.db
      ⊎ FlushedFrom (upsert_all js w.session.db) (store js w).1.session.db
unfolding store
store_atomic [] w = inl (inl refl)
store_atomic (j ∷ js) w =
    let u = on_session (store_jobs (j ∷ js)) w in
    let after = then_flush-FlushedFrom u.0 u.1 in
    elim (store_jobs_atomic (j ∷ js) w.session) [
      | inl same ↦ inl (rw same at after)
      | inr (_, written) ↦ inr (rw written at after)
    ]

-- Whichever calls of the database fail, also in the flush, and whatever is returned: but for the
-- events, which are kept or all deleted, `StaleOldJobs` leaves the tables as they were or carries
-- out the statement for all known jobs.
pub stale_atomic :
    (known : List String) (w : StoreState)
    → FlushedFrom w.session.db (stale known w).1.session.db
      ⊎ FlushedFrom (stale_db known w.session.now w.session.db) (stale known w).1.session.db
unfolding stale
stale_atomic known w =
    let u = on_session (stale_old_jobs known) w in
    let after = then_flush-FlushedFrom u.0 u.1 in
    elim (stale_old_jobs_atomic known w.session) [
      | inl same ↦ inl (rw same at after)
      | inr (_, marked) ↦ inr (rw marked at after)
    ]
