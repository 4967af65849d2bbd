-- ===== src/Handlers.antt =====
-- handlers/handlers.go: the answers of the HTTP API. The store, the killer, AWS and the framework
-- that writes an answer are parameters; the parsing of queries is the framework's.
pub mod Kill
pub mod Logs
pub mod Stats
pub mod Notify
pub mod Queues
pub mod Socket
use batchiepatchie.Prelude.{
  ℕ, zero, suc, String, Option, none, some, List, [], ◌∷◌, ◌++◌, ◌⊎◌, inl, inr,
}
use batchiepatchie.Prelude.Io.{Io, Error, pure, fail, deref, attempt, out_of_fuel, ◌>>=◌, ◌>>◌}
use batchiepatchie.Aws.{JobQueueDetail}
use batchiepatchie.Aws.Paging.{PageOf}
use batchiepatchie.Jobs.{Job, JobStatus}

-- What an answer holds.
pub data Body : Type 0 where
  error_body : Error → Body
  text_body : String → Body
  job_body : Job → Body
  jobs_body : List Job → Body
  status_body : Option JobStatus → Body
  names_body : List String → Body
  results_body : List (String × String) → Body

-- What the handlers use of `jobs.FinderStorer`.
pub record ApiStore (W : Type 0) : Type 0 where
  pub find_one : String → Io W Job
  pub get_status : String → Io W (Option JobStatus)
  pub list_active_job_queues : Io W (List String)
  pub activate_job_queue : String → Io W (Unit {0})
  pub deactivate_job_queue : String → Io W (Unit {0})

module _ {W : Type 0} where
  unfoldable pub add_names : List JobQueueDetail → List String → Io W (List String)
  add_names [] result = pure result
  add_names (d ∷ ds) result = do name ← deref d.job_queue_name; add_names ds (result ++ (name ∷ []))

-- `send` is the framework's `c.JSON` or `c.String`: a status code and what the answer holds.
module _ {W : Type 0} (send : ℕ → Body → Io W (Unit {0})) where
  -- The answer to an error, which the handler then returns; or the error of the answer itself.
  abbrev pub failed : Error → Io W (Unit {0})
  failed e = send 500 (error_body e) >> fail e

  abbrev pub answer_to : {A : Type 0} → (A → Io W (Unit {0})) → A ⊎ Error → Io W (Unit {0})
  answer_to answer (inl a) = answer a
  answer_to answer (inr e) = failed e

  -- A call of which an error is answered.
  unfoldable pub respond : {A : Type 0} → Io W A → (A → Io W (Unit {0})) → Io W (Unit {0})
  respond m answer = attempt m >>= answer_to answer

  abbrev status_answer : Option JobStatus → Io W (Unit {0})
  status_answer none = send 404 (status_body none)
  status_answer (some job) = send 200 (status_body (some job))

  unfoldable pub get_status : ApiStore W → String → Io W (Unit {0})
  get_status store id = respond (store.get_status id) status_answer

  unfoldable pub find_one : ApiStore W → String → Io W (Unit {0})
  find_one store id = respond (store.find_one id) (λ job. send 200 (job_body job))

  unfoldable pub list_active_job_queues : ApiStore W → Io W (Unit {0})
  list_active_job_queues store =
      respond store.list_active_job_queues (λ names. send 200 (names_body names))

  unfoldable pub activate_job_queue : ApiStore W → String → Io W (Unit {0})
  activate_job_queue store name =
      respond (store.activate_job_queue name) (λ _. send 200 (text_body "[]"))

  unfoldable pub deactivate_job_queue : ApiStore W → String → Io W (Unit {0})
  deactivate_job_queue store name =
      respond (store.deactivate_job_queue name) (λ _. send 200 (text_body "[]"))

  -- The loop of `ListAllJobQueues`, on fuel: it ends by the token that it sent.
  unfoldable pub list_pages :
      (Option String → Io W (PageOf JobQueueDetail))
      → ℕ
      → Option String
      → List String
      → Io W (Unit {0})
  list_pages describe zero token result = out_of_fuel
  list_pages describe (suc fuel) token result = respond (describe token) λ page. do
    names ← add_names page.items result
    elim token [
      | none ↦ send 200 (names_body names)
      | some t ↦ list_pages describe fuel (some t) names
    ]

  unfoldable pub list_all_job_queues :
      (Option String → Io W (PageOf JobQueueDetail)) → ℕ → Io W (Unit {0})
  list_all_job_queues describe fuel = list_pages describe fuel none []
