-- ===== src/Store/Subscriptions.antt =====
-- jobs/postgres_store.go: the subscribers to job statuses, in memory, and the flush that tells them
-- of the jobs with an event. A channel is a number; its buffer holds what was sent and not received.
pub mod Registry
pub mod Delivery
pub mod Flush
use batchiepatchie.Prelude.{
  ℕ, zero, suc, ◌+◌, String, Bool, true, false, not, ◌≡◌, Option, none, some, List, [], ◌∷◌, ◌++◌,
  ◌==◌, ◌⊎◌, inl, inr, if◌then◌else◌, ltb, eqb, length,
}
use batchiepatchie.Prelude.Dict.{lookup, insert, delete}
use batchiepatchie.Prelude.Io.{Io, Outcome, ok, err, panic, hang, Error, ◌>>=◌, ◌>>◌, pure, attempt}
use batchiepatchie.Jobs.{Job}
use batchiepatchie.Store.Db.{JobRow, Db, Session, call, query, exec, transaction}
use batchiepatchie.Store.Queries.{find_one}

-- `jobStatusSubscribers`, and the channels that `make` has given out so far.
pub record Hub : Type 0 where
  pub subscribers : List (String × List ℕ)
  pub next_channel : ℕ
  pub buffer : ℕ → List Job

abbrev pub capacity : ℕ
capacity = 20

abbrev pub channels_or_none : Option (List ℕ) → List ℕ
channels_or_none none = []
channels_or_none (some channels) = channels

-- The channels of a job.
unfoldable pub channels : String → Hub → List ℕ
channels id hub = channels_or_none (lookup id hub.subscribers)

abbrev pub set_buffer : (ℕ → List Job) → ℕ → List Job → ℕ → List Job
set_buffer buffer c jobs d = if eqb c d then jobs else buffer d

-- `SubscribeToJobStatus`: a new channel at the end of the job's list.
unfoldable pub subscribe : String → Hub → ℕ × Hub
unfolding channels
subscribe id hub = (
  hub.next_channel,
  record hub {
    subscribers = insert id (channels id hub ++ hub.next_channel ∷ []) hub.subscribers;
    next_channel = suc hub.next_channel;
    buffer = set_buffer hub.buffer hub.next_channel [];
  },
)

unfoldable pub without : ℕ → List ℕ → List ℕ
without c [] = []
without c (d ∷ ds) = if eqb d c then without c ds else d ∷ without c ds

abbrev pub reduced : String → List ℕ → List (String × List ℕ) → List (String × List ℕ)
reduced id [] subscribers = delete id subscribers
reduced id (c ∷ cs) subscribers = insert id (c ∷ cs) subscribers

-- `unsubscribe`: the channel goes, and with the last one the job's key.
abbrev pub dropped : String → ℕ → Option (List ℕ) → List (String × List ℕ) → List (String × List ℕ)
dropped id c none subscribers = subscribers
dropped id c (some existing) subscribers = reduced id (without c existing) subscribers

unfoldable pub unsubscribe : String → ℕ → Hub → Hub
unsubscribe id c hub = record hub {
  subscribers = dropped id c (lookup id hub.subscribers) hub.subscribers;
}

-- The sends that the last loops of `flushJobStatusSubscriptions` make, in order. The lock keeps
-- the map as it is meanwhile.
unfoldable pub to_each : Job → List ℕ → List (ℕ × Job)
to_each job [] = []
to_each job (c ∷ cs) = (c, job) ∷ to_each job cs

unfoldable pub sends : List Job → Hub → List (ℕ × Job)
sends [] hub = []
sends (job ∷ jobs) hub = to_each job (channels job.id hub) ++ sends jobs hub

-- The sends with no reader at work: what stands in the buffers, and what is left to send once a
-- buffer is full and the send blocks.
unfoldable pub run_sends : List (ℕ × Job) → (ℕ → List Job) → (ℕ → List Job) × List (ℕ × Job)
run_sends [] buffer = (buffer, [])
run_sends ((c, job) ∷ rest) buffer =
    let next = run_sends rest (set_buffer buffer c (buffer c ++ job ∷ [])) in
    if ltb (length (buffer c)) capacity then next else (buffer, (c, job) ∷ rest)

-- The first part of the flush: the jobs with an event, whose events are deleted.
unfoldable pub take_events : Io Session (List String)
take_events = transaction do
  ids ← query (λ _ db. db.job_status_events)
  exec (λ _ db. record db { job_status_events = [] })
  pure ids

abbrev pub add_found : Job ⊎ Error → List Job → List Job
add_found (inl job) jobs = jobs ++ job ∷ []
add_found (inr e) jobs = jobs

-- The second part: a job that is not found is only logged.
unfoldable pub find_each : List String → List Job → Io Session (List Job)
find_each [] jobs = pure jobs
find_each (id ∷ ids) jobs = do found ← attempt (find_one id); find_each ids (add_found found jobs)

-- The state of a `postgreSQLStore`.
pub record StoreState : Type 0 where
  pub session : Session
  pub hub : Hub

-- A call that uses the database alone.
abbrev pub on_session : {A : Type 0} → Io Session A → Io StoreState A
on_session m w = ((m w.session).0, record w { session = (m w.session).1 })

-- A send that blocks while nobody reads never returns.
abbrev pub sent : (ℕ → List Job) × List (ℕ × Job) → Hub → Outcome (Unit {0}) × Hub
sent (buffer, []) hub = (ok tt, record hub { buffer = buffer })
sent (buffer, s ∷ rest) hub = (hang, record hub { buffer = buffer })

unfoldable pub deliver : List Job → Io StoreState (Unit {0})
deliver jobs w =
    let (r, hub) = sent (run_sends (sends jobs w.hub) w.hub.buffer) w.hub in
    (r, record w { hub = hub })

-- `flushJobStatusSubscriptions`.
unfoldable pub flush_job_status_subscriptions : Io StoreState (Unit {0})
flush_job_status_subscriptions = do
  ids ← on_session take_events
  jobs ← on_session (find_each ids [])
  deliver jobs
