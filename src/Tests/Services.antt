-- ===== src/Tests/Services.antt =====
-- The theorem about the scaler, over a concrete service.
use mathlib.Core.List.{Permᴰ}
use batchiepatchie.Prelude.{
  String, true, ◌≡◌, refl, subst, ◌⊎◌, inl, Option, none, some, List, [], ◌∷◌,
}
use batchiepatchie.Prelude.Dict.{lookup, keys, Distinct}
use batchiepatchie.Prelude.Int.{ℤ, pos, ◌+ℤ◌, int64}
use batchiepatchie.Prelude.Io.{Error, ok}
use batchiepatchie.Aws.{JobQueueDetail, EnvironmentDetail}
use batchiepatchie.Jobs.{RunningLoad}
use batchiepatchie.Jobs.Scaler.{scale_compute_environments, is_allowed}
use batchiepatchie.Jobs.Scaler.Wanted.{IsNamed, described, expected}
use batchiepatchie.Jobs.Scaler.Order.{scale_any_order}
use batchiepatchie.Jobs.Scaler.Requests.{
  recorder, request_for, min_known, scale_compute_environments_lem,
}

abbrev environment : EnvironmentDetail
environment = record {
  status = some "VALID";
  state = some "ENABLED";
  compute_resources =
      some (record {
        desired_vcpus = some (pos 2);
        max_vcpus = some (pos 8);
        min_vcpus = some (pos 0);
      });
  compute_environment_name = some "spot";
  compute_environment_arn = some "arn:spot";
  service_role = some "role";
  ecs_cluster_arn = some "arn:cluster";
}

abbrev loads : List String → List (String × RunningLoad)
loads queues =
    ("gpu", record { wanted_vcpus = pos 3; wanted_memory = pos 0 })
    ∷ ("cpu", record { wanted_vcpus = pos 4; wanted_memory = pos 0 })
    ∷ []

abbrev on_spot : String → JobQueueDetail
on_spot name = record { job_queue_name = some name; compute_environment_order = some "spot" ∷ [] }

abbrev descriptions : List String → List JobQueueDetail
descriptions queues = on_spot "gpu" ∷ on_spot "cpu" ∷ []

abbrev environments : String → List EnvironmentDetail ⊎ Error
environments ce = inl (environment ∷ [])

abbrev never_refused : String → ℤ → Option Error
never_refused ce minimum = none

on_spot-IsNamed : (name : String) → IsNamed (on_spot name)
on_spot-IsNamed name = record { name = name; named = refl; first = refl }

all_known :
    (ce : String) (d : EnvironmentDetail)
    → environments ce ≡ inl (d ∷ [])
    → min_known d.compute_resources ≡ true
all_known ce d h =
    let e : environment ≡ d = cc in subst (λ x. min_known x.compute_resources ≡ true) e refl

scale_compute_environments_example :
    (asked : List (String × ℤ)) × (scale_compute_environments
        (recorder loads descriptions environments never_refused)
        ("gpu" ∷ "cpu" ∷ [])
        []
      ≡ (ok tt, asked))
    × Distinct (keys asked)
    × ((ce : String)
        → lookup ce asked
          ≡ request_for
              (expected
                ("gpu" ∷ "cpu" ∷ [])
                (λ q. described q (on_spot "gpu" ∷ on_spot "cpu" ∷ []) none)
                ce
                (loads ("gpu" ∷ "cpu" ∷ []))
                none)
              (inl (environment ∷ [])))
scale_compute_environments_example =
    scale_compute_environments_lem loads descriptions environments never_refused "gpu" ("cpu" ∷ [])
      (on_spot-IsNamed "gpu", (on_spot-IsNamed "cpu", tt)) all_known

-- Both queues have the environment first.
seven_wanted :
    lookup "spot" (("spot", pos 7) ∷ [])
    ≡ request_for
        (expected
          ("gpu" ∷ "cpu" ∷ [])
          (λ q. described q (on_spot "gpu" ∷ on_spot "cpu" ∷ []) none)
          "spot"
          (loads ("gpu" ∷ "cpu" ∷ []))
          none)
        (inl (environment ∷ []))
unfolding expected described lookup is_allowed int64 ◌+ℤ◌
seven_wanted = refl

-- The same loads the other way around.
abbrev turned_loads : List String → List (String × RunningLoad)
turned_loads queues =
    ("cpu", record { wanted_vcpus = pos 4; wanted_memory = pos 0 })
    ∷ ("gpu", record { wanted_vcpus = pos 3; wanted_memory = pos 0 })
    ∷ []

scale_any_order_example :
    (asked asked' : List (String × ℤ)) × (scale_compute_environments
        (recorder loads descriptions environments never_refused)
        ("gpu" ∷ "cpu" ∷ [])
        []
      ≡ (ok tt, asked))
    × (scale_compute_environments
          (recorder turned_loads descriptions environments never_refused)
          ("gpu" ∷ "cpu" ∷ [])
          []
        ≡ (ok tt, asked'))
    × ((ce : String) → lookup ce asked ≡ lookup ce asked')
scale_any_order_example =
    scale_any_order loads turned_loads descriptions environments never_refused "gpu" ("cpu" ∷ [])
      (Permᴰ.swap refl refl) refl (on_spot-IsNamed "gpu", (on_spot-IsNamed "cpu", tt)) all_known
