-- ===== src/Handlers/Socket.antt =====
-- handlers/job_status_subscriptions.go: a websocket that is told of each new status of a job. The
-- websocket, the database and JSON are parameters; the reader that closes the websocket is left out.
pub mod Released
use batchiepatchie.Prelude.{ℕ, zero, suc, String, Option, none, some, ◌⊎◌, inl, inr}
use batchiepatchie.Prelude.Io.{
  Io, Outcome, ok, err, panic, hang, Error, pure, attempt, returned, out_of_fuel, ◌>>=◌, ◌>>◌,
}
use batchiepatchie.Jobs.{Job}
use batchiepatchie.Store.Subscriptions.{Hub, subscribe, unsubscribe}

-- The subscribers of the store, and all else that the handler works on.
pub record Server (W : Type 0) : Type 0 where
  pub hub : Hub
  pub outside : W

-- What the handler uses. `receive` waits for a job from a channel, and is `none` after 5 seconds.
pub record SocketService (W : Type 0) : Type 0 where
  pub upgrade : Io (Server W) (Unit {0})
  pub close : Server W → Server W
  pub find_one : String → Io (Server W) Job
  pub receive : ℕ → Io (Server W) (Option Job)
  pub set_write_deadline : Io (Server W) (Unit {0})
  pub write_message : String → Io (Server W) (Unit {0})
  pub marshal : Job → String ⊎ Error

-- `defer`: a last step, however a call ends; a call that never ends has none.
abbrev pub run_last : {W A : Type 0} → (W → W) → Outcome A × W → Outcome A × W
run_last last (ok a, w) = (ok a, last w)
run_last last (err e, w) = (err e, last w)
run_last last (panic, w) = (panic, last w)
run_last last (hang, w) = (hang, w)

abbrev pub deferred : {W A : Type 0} → (W → W) → Io W A → Io W A
deferred last m w = run_last last (m w)

abbrev pub subscribed : {W : Type 0} → String → Io (Server W) ℕ
subscribed id w = (ok (subscribe id w.hub).0, record w { hub = (subscribe id w.hub).1 })

abbrev pub unsubscribed : {W : Type 0} → String → ℕ → Server W → Server W
unsubscribed id c w = record w { hub = unsubscribe id c w.hub }

abbrev pub latest : Option Job → Option Job → Option Job
latest none previous = previous
latest (some job) previous = some job

module _ {W : Type 0} (service : SocketService W) where
  open service use {receive, set_write_deadline, write_message, marshal}

  abbrev pub send_text : String → Io (Server W) (Unit {0})
  send_text text = set_write_deadline >> write_message text

  abbrev pub send_job : Job → Io (Server W) (Unit {0})
  send_job job = returned (marshal job) >>= send_text

  -- The last status that is known; an empty message where there is none.
  abbrev pub send_status : Option Job → Io (Server W) (Unit {0})
  send_status none = send_text ""
  send_status (some job) = send_job job

  -- The loop, on fuel; it ends only by an error.
  unfoldable pub follow : ℕ → ℕ → Option Job → Io (Server W) (Unit {0})
  follow zero c previous = out_of_fuel
  follow (suc fuel) c previous = do
    job_status ← receive c
    send_status (latest job_status previous)
    follow fuel c (latest job_status previous)

  -- The status at first, if the job is found.
  abbrev pub greet : Job ⊎ Error → Io (Server W) (Option Job)
  greet (inl job) = send_job job >> pure (some job)
  greet (inr e) = pure none

  abbrev pub greet_and_follow : ℕ → String → ℕ → Io (Server W) (Unit {0})
  greet_and_follow fuel id c =
      attempt (service.find_one id) >>= λ found. greet found >>= follow fuel c

  abbrev pub watch : ℕ → String → Io (Server W) (Unit {0})
  watch fuel id = subscribed id >>= λ c. deferred (unsubscribed id c) (greet_and_follow fuel id c)

  unfoldable pub subscribe_to_job_event : ℕ → String → Io (Server W) (Unit {0})
  subscribe_to_job_event fuel id = service.upgrade >> deferred service.close (watch fuel id)
