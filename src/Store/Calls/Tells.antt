-- ===== src/Store/Calls/Tells.antt =====
-- What `Store` and `StaleOldJobs` of jobs/postgres_store.go put into the channels of all subscribers.
use batchiepatchie.Prelude.{
  ℕ, ◌+◌, ◌≤◌, String, ◌≡◌, refl, sym, subst, ap, ap₂, ◌∙◌, List, [], ◌∷◌, ◌++◌, length, eqb,
  Bool-cases, inl, inr,
}
use batchiepatchie.Prelude.Dict.{Distinct}
use batchiepatchie.Prelude.Io.{Outcome, ok}
use batchiepatchie.Jobs.{Job}
use batchiepatchie.Store.Db.{Db}
use batchiepatchie.Store.Transactions.{NoFaults}
use batchiepatchie.Store.Upsert.Batch.{upsert_all}
use batchiepatchie.Store.Stale.{stale_db}
use batchiepatchie.Store.Subscriptions.{
  StoreState, Hub, channels, capacity, to_each, sends, deliver,
}
use batchiepatchie.Store.Subscriptions.Delivery.{for_channel}
use batchiepatchie.Store.Subscriptions.Flush.{present}
use batchiepatchie.Store.Calls.{store, stale}
use batchiepatchie.Store.Calls.Notified.{with_db, flushed, store_lem, stale_lem}
use batchiepatchie.Store.Calls.Told.{sent-room, copies, for_channel-to_each}

-- The jobs of a list in order, each once for each time that a channel is among its own.
abbrev pub copies_all : ℕ → List Job → Hub → List Job
copies_all c [] hub = []
copies_all c (job ∷ jobs) hub = copies c job (channels job.id hub) ++ copies_all c jobs hub

for_channel-append :
    (c : ℕ) (s t : List (ℕ × Job)) → for_channel c (s ++ t) ≡ for_channel c s ++ for_channel c t
unfolding for_channel
for_channel-append c [] t = refl
for_channel-append c ((d, job) ∷ s) t = elim (Bool-cases (eqb d c)) [
  | inl e ↦ rw e (ap (λ l. job ∷ l) (for_channel-append c s t))
  | inr e ↦ rw e (for_channel-append c s t)
]

for_channel-sends :
    (c : ℕ) (jobs : List Job) (hub : Hub) → for_channel c (sends jobs hub) ≡ copies_all c jobs hub
unfolding sends
for_channel-sends c [] hub = unfold for_channel in refl
for_channel-sends c (job ∷ jobs) hub =
    for_channel-append c (to_each job (channels job.id hub)) (sends jobs hub)
    ∙ ap₂ ◌++◌ (for_channel-to_each c job (channels job.id hub)) (for_channel-sends c jobs hub)

-- The buffers have room for the rows of all jobs with an event.
abbrev pub HasRoom : Hub → Db → Type 0
HasRoom hub db =
    (c : ℕ)
    → length (hub.buffer c) + length (copies_all c (present db.job_status_events db) hub) ≤ capacity

-- A call that returns no error, leaves given tables with no event, and puts the rows of all jobs
-- with an event behind what waits in the channels of their subscribers, and in no other.
abbrev pub Tells : Hub → Db → Outcome (Unit {0}) × StoreState → Type 0
Tells hub db r =
    (r.0 ≡ ok tt)
    × (r.1.session.db ≡ record db { job_status_events = [] })
    × ((c : ℕ)
        → r.1.hub.buffer c ≡ hub.buffer c ++ copies_all c (present db.job_status_events db) hub)

flushed-Tells : (w : StoreState) → HasRoom w.hub w.session.db → Tells w.hub w.session.db (flushed w)
unfolding deliver
flushed-Tells w room =
    let jobs = present w.session.db.job_status_events w.session.db in
    let s = sends jobs w.hub in
    let same : (c : ℕ) → for_channel c s ≡ copies_all c jobs w.hub =
      λ c. for_channel-sends c jobs w.hub in
    let enough : (c : ℕ) → length (w.hub.buffer c) + length (for_channel c s) ≤ capacity =
      λ c. subst (λ l. length (w.hub.buffer c) + length l ≤ capacity) (sym (same c)) (room c) in
    (
      (sent-room 0 s w.hub enough).0,
      refl,
      λ c. (sent-room c s w.hub enough).1 ∙ ap (λ l. w.hub.buffer c ++ l) (same c),
    )

-- Without faults, and with room in the buffers for the rows of the jobs with an event once all jobs
-- are written, `Store` of one or more jobs returns no error, leaves the tables with all jobs
-- written and no event, and puts the row of each job with an event, as it was written, behind what
-- waits in each channel of its subscribers, in the order of the events, and into no other channel.
pub store-Tells :
    (j : Job) (js : List Job) (w : StoreState)
    → NoFaults w.session
    → HasRoom w.hub (upsert_all (j ∷ js) w.session.db)
    → Tells w.hub (upsert_all (j ∷ js) w.session.db) (store (j ∷ js) w)
store-Tells j js w h room =
    let db = upsert_all (j ∷ js) w.session.db in
    subst (Tells w.hub db) (sym (store_lem j js w h)) (flushed-Tells (with_db db w) room)

-- Without faults, with distinct known ids, and with room in the buffers for the rows of the jobs
-- with an event once the statement has run, `StaleOldJobs` returns no error, leaves the tables with
-- the statement carried out and no event, and puts the row of each job with an event, as it was
-- marked, behind what waits in each channel of its subscribers, in the order of the events, and
-- into no other channel.
pub stale-Tells :
    (known : List String) (w : StoreState)
    → NoFaults w.session
    → Distinct known
    → HasRoom w.hub (stale_db known w.session.now w.session.db)
    → Tells w.hub (stale_db known w.session.now w.session.db) (stale known w)
stale-Tells known w h d room =
    let db = stale_db known w.session.now w.session.db in
    subst (Tells w.hub db) (sym (stale_lem known w h d)) (flushed-Tells (with_db db w) room)
