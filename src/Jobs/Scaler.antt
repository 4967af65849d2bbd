-- ===== src/Jobs/Scaler.antt =====
-- jobs/scaler.go: the scaling of compute environments to the load of their queues. The services of
-- AWS and the store are parameters; the logs are left out. Where Go ranges over a map in an order
-- of its own, the model goes through the entries in the order of the list.
pub mod Laws
pub mod Wanted
pub mod Requests
pub mod Order
use batchiepatchie.Prelude.{
  String, Bool, true, false, ◌&&◌, not, Option, none, some, List, [], ◌∷◌, ◌==◌, ◌⊎◌, inl, inr,
  if◌then◌else◌,
}
use batchiepatchie.Prelude.Dict.{lookup, insert, keys}
use batchiepatchie.Prelude.Int.{ℤ, ◌+ℤ◌, int64, ltb_ℤ, eqb_ℤ}
use batchiepatchie.Prelude.Io.{Io, Error, pure, deref, attempt, ◌>>=◌, ◌>>◌}
use batchiepatchie.Aws.{JobQueueDetail, ComputeResources, EnvironmentDetail}
use batchiepatchie.Jobs.{RunningLoad}

-- What the scaler uses of AWS Batch and of the store.
pub record ScalingService (W : Type 0) : Type 0 where
  pub estimate_running_load_by_job_queue : List String → Io W (List (String × RunningLoad))
  pub describe_job_queues : List String → Io W (List JobQueueDetail)
  pub describe_compute_environments : List String → Io W (List EnvironmentDetail)
  pub update_compute_environment : String → ℤ → Io W (Unit {0})

abbrev pub Wanted : Type 0
Wanted = List (String × ℤ)

-- The search of `queues` for an active job queue.
unfoldable pub is_allowed : String → List String → Bool
is_allowed queue [] = false
is_allowed queue (q ∷ qs) = if queue == q then true else is_allowed queue qs

abbrev pub plus : Option ℤ → ℤ → ℤ
plus none load = load
plus (some old) load = int64 (old +ℤ load)

-- `wanted_vcpus_by_ce[*ce_name]`, with the load of one more queue.
unfoldable pub add_wanted : String → ℤ → Wanted → Wanted
add_wanted ce load m = insert ce (plus (lookup ce m) load) m

abbrev pub is_live : Option String → Option String → Bool
is_live (some status) (some state) = (status == "VALID") && (state == "ENABLED")
is_live none state = false
is_live (some status) none = false

-- `wanted`, at most `batch_max_vcpus`.
abbrev pub capped : ℤ → ℤ → ℤ
capped wanted most = if ltb_ℤ most wanted then most else wanted

module _ {W : Type 0} where
  unfoldable pub name_queues :
      List JobQueueDetail → List (String × JobQueueDetail) → Io W (List (String × JobQueueDetail))
  name_queues [] m = pure m
  name_queues (d ∷ ds) m = do name ← deref d.job_queue_name; name_queues ds (insert name d m)

  -- One queue of the loop over `running_loads`: the first compute environment is taken.
  unfoldable pub add_first : List (Option String) → ℤ → Wanted → Io W Wanted
  add_first [] load m = pure m
  add_first (ce ∷ ces) load m = do name ← deref ce; pure (add_wanted name load m)

  abbrev pub add_described : Option JobQueueDetail → Bool → ℤ → Wanted → Io W Wanted
  add_described none allowed load m = pure m
  add_described (some d) false load m = pure m
  add_described (some d) true load m = add_first d.compute_environment_order load m

  unfoldable pub wanted_vcpus :
      List String
      → List (String × JobQueueDetail)
      → List (String × RunningLoad)
      → Wanted
      → Io W Wanted
  wanted_vcpus queues descs [] m = pure m
  wanted_vcpus queues descs ((queue, load) ∷ loads) m = do
    m' ← add_described (lookup queue descs) (is_allowed queue queues) load.wanted_vcpus m
    wanted_vcpus queues descs loads m'

  -- The minimum to set for an environment, if it is to be changed: `*MinvCpus` is read without a
  -- test for nil.
  unfoldable pub new_minimum : ℤ → EnvironmentDetail → Io W (Option ℤ)
  new_minimum wanted detail =
      if not (is_live detail.status detail.state)
      then pure none
      else elim detail.compute_resources [
        | none ↦ pure none
        | some r ↦ elim r.desired_vcpus [
          | none ↦ pure none
          | some desired ↦ elim r.max_vcpus [
            | none ↦ pure none
            | some most ↦ deref r.min_vcpus >>= λ least.
                pure (if eqb_ℤ (capped wanted most) least then none else some (capped wanted most))
          ]
        ]
      ]

module _ {W : Type 0} (service : ScalingService W) where
  open service use {
    estimate_running_load_by_job_queue, describe_job_queues, describe_compute_environments,
    update_compute_environment,
  }

  -- The call of UpdateComputeEnvironment; its error is only logged.
  unfoldable pub update : String → Option ℤ → Io W (Unit {0})
  update ce none = pure tt
  update ce (some minimum) = attempt (update_compute_environment ce minimum) >>= λ _. pure tt

  -- What is done with the answer of DescribeComputeEnvironments: it must be one environment.
  unfoldable pub scale_described : String → ℤ → List EnvironmentDetail ⊎ Error → Io W (Unit {0})
  scale_described ce wanted (inr e) = pure tt
  scale_described ce wanted (inl []) = pure tt
  scale_described ce wanted (inl (detail ∷ [])) = new_minimum wanted detail >>= update ce
  scale_described ce wanted (inl (detail ∷ another ∷ rest)) = pure tt

  unfoldable pub scale_each : Wanted → Io W (Unit {0})
  scale_each [] = pure tt
  scale_each ((ce, wanted) ∷ rest) = do
    out ← attempt (describe_compute_environments (ce ∷ []))
    scale_described ce wanted out
    scale_each rest

  unfoldable pub scale_queues :
      List String → List (String × RunningLoad) → List JobQueueDetail ⊎ Error → Io W (Unit {0})
  scale_queues queues loads (inr e) = pure tt
  scale_queues queues loads (inl descs) = do
    by_name ← name_queues descs []
    wanted ← wanted_vcpus queues by_name loads []
    scale_each wanted

  unfoldable pub scale_loads : List String → List (String × RunningLoad) ⊎ Error → Io W (Unit {0})
  scale_loads queues (inr e) = pure tt
  scale_loads queues (inl loads) =
      attempt (describe_job_queues (keys loads)) >>= scale_queues queues loads

  -- `ScaleComputeEnvironments`.
  unfoldable pub scale_compute_environments : List String → Io W (Unit {0})
  scale_compute_environments [] = pure tt
  scale_compute_environments (queue ∷ queues) =
      attempt (estimate_running_load_by_job_queue (queue ∷ queues)) >>= scale_loads (queue ∷ queues)
