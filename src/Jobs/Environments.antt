-- ===== src/Jobs/Environments.antt =====
-- jobs/compute_environment_monitor.go: the log of the compute environments. AWS Batch and the store
-- are parameters; the logs of the program itself are left out.
pub mod Laws
use batchiepatchie.Prelude.{ℕ, String, Option, none, some, List, [], ◌∷◌, ◌++◌, ◌⊎◌, inl, inr}
use batchiepatchie.Prelude.Io.{Io, Error, pure, attempt, ◌>>=◌}
use batchiepatchie.Aws.{ComputeResources, EnvironmentDetail}
use batchiepatchie.Aws.Paging.{PageOf, read_pages}
use batchiepatchie.Jobs.{ComputeEnvironment}

pub record MonitorService (W : Type 0) : Type 0 where
  pub describe_compute_environments : ℕ → Option String → Io W (PageOf EnvironmentDetail)
  pub update_compute_environments_log : List ComputeEnvironment → Io W (Unit {0})

-- `*MaxvCpus`, `*MinvCpus` and `*DesiredvCpus`, none of which may be nil.
abbrev pub with_resources : String → String → String → ComputeResources → Option ComputeEnvironment
with_resources name role state r = elim r.max_vcpus [
  | none ↦ none
  | some most ↦ elim r.min_vcpus [
    | none ↦ none
    | some least ↦ elim r.desired_vcpus [
      | none ↦ none
      | some desired ↦ some (record {
        name = name;
        wanted_vcpus = desired;
        min_vcpus = least;
        max_vcpus = most;
        state = state;
        service_role = role;
      })
    ]
  ]
]

-- The internal form of an environment, unless something that it needs is nil.
unfoldable pub to_internal : EnvironmentDetail → Option ComputeEnvironment
to_internal ce = elim ce.compute_environment_name [
  | none ↦ none
  | some name ↦ elim ce.compute_resources [
    | none ↦ none
    | some r ↦ elim ce.service_role [
      | none ↦ none
      | some role ↦ elim ce.state [ none ↦ none | some state ↦ with_resources name role state r ]
    ]
  ]
]

abbrev pub add_known : Option ComputeEnvironment → List ComputeEnvironment → List ComputeEnvironment
add_known none rest = rest
add_known (some ce) rest = ce ∷ rest

unfoldable pub all_internal : List EnvironmentDetail → List ComputeEnvironment
all_internal [] = []
all_internal (ce ∷ ces) = add_known (to_internal ce) (all_internal ces)

module _ {W : Type 0} (service : MonitorService W) where
  -- `GetComputeEnvironments`, on fuel for the pages.
  unfoldable pub get_compute_environments : ℕ → Io W (List ComputeEnvironment)
  get_compute_environments fuel = do
    details ←
        read_pages (service.describe_compute_environments 100) fuel
          (λ got items. pure (got ++ items)) none []
    pure (all_internal details)

  abbrev pub log_environments : List ComputeEnvironment ⊎ Error → Io W (Unit {0})
  log_environments (inl ces) =
      attempt (service.update_compute_environments_log ces) >>= λ _. pure tt
  log_environments (inr e) = pure tt

  -- `MonitorComputeEnvironments`: an error is only logged.
  unfoldable pub monitor_compute_environments : ℕ → List String → Io W (Unit {0})
  monitor_compute_environments fuel [] = pure tt
  monitor_compute_environments fuel (queue ∷ queues) =
      attempt (get_compute_environments fuel) >>= log_environments
