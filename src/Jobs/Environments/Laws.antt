-- ===== src/Jobs/Environments/Laws.antt =====
-- What the monitor of compute environments logs.
use batchiepatchie.Prelude.{
  ℕ, ◌<◌, ◌⊎◌, inl, inr, Option-cases, some, String, ◌≡◌, refl, ◌∙◌, none, List, [], ◌∷◌, ◌++◌,
  length,
}
use mathlib.Core.List.{append_assoc}
use batchiepatchie.Prelude.Io.{Outcome, ok, err, panic, hang, bind_outcome, attempt_outcome, pure}
use batchiepatchie.Aws.{ComputeResources, EnvironmentDetail}
use batchiepatchie.Aws.Paging.{Served, over_pages, read_pages_lem}
use batchiepatchie.Jobs.{ComputeEnvironment}
use batchiepatchie.Jobs.Environments.{
  MonitorService, with_resources, to_internal, all_internal, get_compute_environments,
  monitor_compute_environments,
}

-- The environments of all pages, in order.
abbrev pub all_items : {A : Type 0} → List A → List (List A) → List A
all_items page [] = page
all_items page (next ∷ more) = page ++ all_items next more

over_pages-append :
    {A : Type 0} (page : List A) (more : List (List A)) (got : List A)
    → over_pages (λ (s items : List A). s ++ items) page more got ≡ got ++ all_items page more
over_pages-append page [] got = refl
over_pages-append page (next ∷ more) got =
    over_pages-append next more (got ++ page) ∙ append_assoc got page (all_items next more)

-- An entry has the fields of an environment.
abbrev pub IsEntryOf : EnvironmentDetail → ComputeEnvironment → Type 0
IsEntryOf ce entry =
    (ce.compute_environment_name ≡ some entry.name)
    × (ce.service_role ≡ some entry.service_role)
    × (ce.state ≡ some entry.state)
    × ((r : ComputeResources) × (ce.compute_resources ≡ some r)
        × (r.max_vcpus ≡ some entry.max_vcpus)
        × (r.min_vcpus ≡ some entry.min_vcpus)
        × (r.desired_vcpus ≡ some entry.wanted_vcpus))

-- An environment lacks a name, its resources, one of their numbers, a service role or a state.
abbrev pub Lacks : EnvironmentDetail → Type 0
Lacks ce =
    (ce.compute_environment_name ≡ none)
    ⊎ (ce.compute_resources ≡ none)
    ⊎ (ce.service_role ≡ none)
    ⊎ (ce.state ≡ none)
    ⊎ ((r : ComputeResources) × (ce.compute_resources ≡ some r)
        × ((r.max_vcpus ≡ none) ⊎ (r.min_vcpus ≡ none) ⊎ (r.desired_vcpus ≡ none)))

-- The entries of some environments, in order: one of each that lacks nothing.
pub data EntriesOf : List EnvironmentDetail → List ComputeEnvironment → Type 0 where
  no_more : EntriesOf [] []
  entered :
      {ce : EnvironmentDetail} {entry : ComputeEnvironment} {ces : List EnvironmentDetail}
      {entries : List ComputeEnvironment}
      → IsEntryOf ce entry
      → EntriesOf ces entries
      → EntriesOf (ce ∷ ces) (entry ∷ entries)
  passed_over :
      {ce : EnvironmentDetail} {ces : List EnvironmentDetail} {entries : List ComputeEnvironment}
      → Lacks ce
      → EntriesOf ces entries
      → EntriesOf (ce ∷ ces) entries

-- Its internal form is an entry of an environment, or it lacks something and has none.
abbrev Converted : EnvironmentDetail → Type 0
Converted ce =
    (Lacks ce × (to_internal ce ≡ none))
    ⊎ ((entry : ComputeEnvironment) × IsEntryOf ce entry × (to_internal ce ≡ some entry))

with_resources-Converted :
    (ce : EnvironmentDetail) (name role state : String) (r : ComputeResources)
    → ce.compute_environment_name ≡ some name
    → ce.compute_resources ≡ some r
    → ce.service_role ≡ some role
    → ce.state ≡ some state
    → to_internal ce ≡ with_resources name role state r
    → Converted ce
with_resources-Converted ce name role state r n c s t i = elim (Option-cases r.max_vcpus) [
  | inl e ↦ inl (inr (inr (inr (inr (r, c, inl e)))), i ∙ rw e refl)
  | inr (most, e) ↦ elim (Option-cases r.min_vcpus) [
    | inl f ↦ inl (inr (inr (inr (inr (r, c, inr (inl f))))), i ∙ rw (e, f) refl)
    | inr (least, f) ↦ elim (Option-cases r.desired_vcpus) [
      | inl g ↦ inl (inr (inr (inr (inr (r, c, inr (inr g))))), i ∙ rw (e, f, g) refl)
      | inr (desired, g) ↦ inr (
        record {
          name = name;
          wanted_vcpus = desired;
          min_vcpus = least;
          max_vcpus = most;
          state = state;
          service_role = role;
        },
        (n, s, t, (r, c, e, f, g)),
        i ∙ rw (e, f, g) refl,
      )
    ]
  ]
]

to_internal-Converted : (ce : EnvironmentDetail) → Converted ce
unfolding to_internal
to_internal-Converted ce = elim (Option-cases ce.compute_environment_name) [
  | inl n ↦ inl (inl n, rw n refl)
  | inr (name, n) ↦ elim (Option-cases ce.compute_resources) [
    | inl c ↦ inl (inr (inl c), rw (n, c) refl)
    | inr (r, c) ↦ elim (Option-cases ce.service_role) [
      | inl s ↦ inl (inr (inr (inl s)), rw (n, c, s) refl)
      | inr (role, s) ↦ elim (Option-cases ce.state) [
        | inl t ↦ inl (inr (inr (inr (inl t))), rw (n, c, s, t) refl)
        | inr (state, t) ↦
            with_resources-Converted ce name role state r n c s t (rw (n, c, s, t) refl)
      ]
    ]
  ]
]

all_internal-EntriesOf : (ces : List EnvironmentDetail) → EntriesOf ces (all_internal ces)
unfolding all_internal
all_internal-EntriesOf [] = no_more
all_internal-EntriesOf (ce ∷ ces) = elim (to_internal-Converted ce) [
  | inl (lacks, e) ↦ rw e (passed_over lacks (all_internal-EntriesOf ces))
  | inr (entry, is, e) ↦ rw e (entered is (all_internal-EntriesOf ces))
]

-- What is left when the error of a call is only logged.
abbrev pub logged : {W : Type 0} → Outcome (Unit {0}) × W → Outcome (Unit {0}) × W
logged (ok u, w) = (ok tt, w)
logged (err e, w) = (ok tt, w)
logged (panic, w) = (panic, w)
logged (hang, w) = (hang, w)

logged_lem :
    {W : Type 0} (r : Outcome (Unit {0}) × W)
    → bind_outcome (attempt_outcome r.0) (λ _. pure tt) r.1 ≡ logged r
logged_lem (ok u, w) = refl
logged_lem (err e, w) = refl
logged_lem (panic, w) = refl
logged_lem (hang, w) = refl

module _ {W : Type 0} (service : MonitorService W) where
  get_lem :
      (fuel : ℕ) {page : List EnvironmentDetail} {more : List (List EnvironmentDetail)} {w w' : W}
      → Served (service.describe_compute_environments 100) none page more w w'
      → length more < fuel
      → get_compute_environments service fuel w ≡ (ok (all_internal (all_items page more)), w')
  unfolding get_compute_environments
  get_lem fuel {page} {more} p h = rw (
    read_pages_lem (service.describe_compute_environments 100) (λ s items. s ++ items) fuel [] p h,
    over_pages-append page more [],
  )

  -- When AWS serves the environments on these pages, and with fuel for each of them, a round with
  -- queues makes one call of the log, and ends with it, even if it returns an error. The call gets
  -- one entry with the fields of each environment of all pages, in order, but for those that lack
  -- something.
  pub monitor_compute_environments_lem :
      (fuel : ℕ) (queue : String) (queues : List String) {page : List EnvironmentDetail}
      {more : List (List EnvironmentDetail)} {w w' : W}
      → Served (service.describe_compute_environments 100) none page more w w'
      → length more < fuel
      → (entries : List ComputeEnvironment) × EntriesOf (all_items page more) entries
        × (monitor_compute_environments service fuel (queue ∷ queues) w
            ≡ logged (service.update_compute_environments_log entries w'))
  unfolding monitor_compute_environments
  monitor_compute_environments_lem fuel queue queues {page} {more} {w' = w'} p h = (
    all_internal (all_items page more),
    all_internal-EntriesOf (all_items page more),
    rw (get_lem fuel p h) (
        logged_lem
          (service.update_compute_environments_log (all_internal (all_items page more)) w')),
  )
