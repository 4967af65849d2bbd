-- ===== src/Jobs/Scaler/Requests.antt =====
-- What jobs/scaler.go asks AWS for, over a whole call.
use mathlib.Core.List.{append_assoc, append-nil}
use batchiepatchie.Prelude.{
  String, Bool, true, false, ◌≡◌, refl, sym, ap, ◌∙◌, Option, none, some, List, [], ◌∷◌, ◌++◌, ◌⊎◌,
  inl, inr, ◌==◌, eq_iff, subst, if◌then◌else◌, All, Bool-cases, Option-cases, arith,
}
use batchiepatchie.Prelude.Dict.{lookup, keys, member, is_some, Distinct, lookup-absent}
use batchiepatchie.Prelude.Int.{ℤ, eqb_ℤ}
use batchiepatchie.Prelude.Io.{Error, Outcome, ok, err, bind_outcome, attempt_outcome, deref}
use batchiepatchie.Aws.{JobQueueDetail, ComputeResources, EnvironmentDetail}
use batchiepatchie.Jobs.{RunningLoad}
use batchiepatchie.Jobs.Scaler.{
  ScalingService, Wanted, is_live, capped, new_minimum, update, scale_described, scale_each,
  scale_queues, scale_loads, scale_compute_environments, wanted_vcpus,
}
use batchiepatchie.Jobs.Scaler.Wanted.{
  IsNamed, described, expected, name_queues_lem, wanted_vcpus-Added,
}

abbrev pub between : ℤ → Option ℤ → Option ℤ → Option ℤ → Option ℤ
between wanted (some desired) (some most) (some least) =
    if eqb_ℤ (capped wanted most) least then none else some (capped wanted most)
between wanted desired most least = none

abbrev pub of_resources : ℤ → Option ComputeResources → Option ℤ
of_resources wanted none = none
of_resources wanted (some r) = between wanted r.desired_vcpus r.max_vcpus r.min_vcpus

-- The minimum to ask for: the smaller of the wanted and the maximal vcpus, unless it is in place,
-- for an environment that is valid and enabled and has its numbers set.
abbrev pub minimum_for : ℤ → EnvironmentDetail → Option ℤ
minimum_for wanted d =
    if is_live d.status d.state then of_resources wanted d.compute_resources else none

-- The minimum to ask for where AWS describes an environment so.
abbrev pub answer_minimum : ℤ → List EnvironmentDetail ⊎ Error → Option ℤ
answer_minimum wanted (inl (d ∷ [])) = minimum_for wanted d
answer_minimum wanted answer = none

abbrev pub request_for : Option ℤ → List EnvironmentDetail ⊎ Error → Option ℤ
request_for none answer = none
request_for (some wanted) answer = answer_minimum wanted answer

abbrev pub min_known : Option ComputeResources → Bool
min_known none = true
min_known (some r) = is_some r.min_vcpus

deref_minimum :
    {W : Type 0} (wanted desired most : ℤ) (least : Option ℤ) (w : W)
    → is_some least ≡ true
    → bind_outcome
        (deref least w).0
        (λ n v. (ok (if eqb_ℤ (capped wanted most) n then none else some (capped wanted most)), v))
        (deref least w).1
      ≡ (ok (between wanted (some desired) (some most) least), w)
deref_minimum wanted desired most none w h = cc
deref_minimum wanted desired most (some n) w h = refl

new_minimum_lem :
    {W : Type 0} (wanted : ℤ) (d : EnvironmentDetail) (w : W)
    → min_known d.compute_resources ≡ true
    → new_minimum wanted d w ≡ (ok (minimum_for wanted d), w)
unfolding new_minimum
new_minimum_lem wanted d w h = elim (Bool-cases (is_live d.status d.state)) [
  | inr e ↦ rw e refl
  | inl e ↦ rw e (elim (Option-cases d.compute_resources) [
    | inl p ↦ rw p refl
    | inr (r, p) ↦
        let k : is_some r.min_vcpus ≡ true = rw p at h in
        rw p (elim (Option-cases r.desired_vcpus) [
          | inl q ↦ rw q refl
          | inr (desired, q) ↦ rw q (elim (Option-cases r.max_vcpus) [
            | inl m ↦ rw m refl
            | inr (most, m) ↦ rw m (deref_minimum wanted desired most r.min_vcpus w k)
          ])
        ])
  ])
]

-- A service that answers in given ways, and a world that is the list of the requests so far.
module _ (loads : List String → List (String × RunningLoad))
    (descriptions : List String → List JobQueueDetail)
    (environments : String → List EnvironmentDetail ⊎ Error)
    (refused : String → ℤ → Option Error) where
  abbrev pub Requests : Type 0
  Requests = List (String × ℤ)

  abbrev pub settled : {A : Type 0} → A ⊎ Error → Outcome A
  settled (inl a) = ok a
  settled (inr e) = err e

  abbrev pub accepted : Option Error → Outcome (Unit {0})
  accepted none = ok tt
  accepted (some e) = err e

  abbrev pub answered : List String → Outcome (List EnvironmentDetail)
  answered (ce ∷ []) = settled (environments ce)
  answered names = err "not one environment"

  abbrev pub recorder : ScalingService Requests
  recorder = record {
    estimate_running_load_by_job_queue = λ queues w. (ok (loads queues), w);
    describe_job_queues = λ queues w. (ok (descriptions queues), w);
    describe_compute_environments = λ names w. (answered names, w);
    update_compute_environment = λ ce n w. (accepted (refused ce n), w ++ (ce, n) ∷ []);
  }

  abbrev request : String → Option ℤ → Requests → Requests
  request ce none rest = rest
  request ce (some n) rest = (ce, n) ∷ rest

  unfoldable requests : Wanted → Requests
  requests [] = []
  requests ((ce, wanted) ∷ rest) =
      request ce (answer_minimum wanted (environments ce)) (requests rest)

  abbrev MinKnown : Type 0
  MinKnown =
      (ce : String) (d : EnvironmentDetail)
      → environments ce ≡ inl (d ∷ [])
      → min_known d.compute_resources ≡ true

  update_lem :
      (ce : String) (o : Option ℤ) (w : Requests)
      → update recorder ce o w ≡ (ok tt, w ++ request ce o [])
  unfolding update
  update_lem ce none w = ap (λ l. (ok tt, l)) (sym (append-nil w))
  update_lem ce (some n) w = elim (Option-cases (refused ce n)) [
    | inl e ↦ rw e refl
    | inr (d, e) ↦ rw e refl
  ]

  described_lem :
      (ce : String) (wanted : ℤ) (answer : List EnvironmentDetail ⊎ Error) (w : Requests)
      → environments ce ≡ answer
      → MinKnown
      → scale_described recorder ce wanted answer w
        ≡ (ok tt, w ++ request ce (answer_minimum wanted answer) [])
  unfolding scale_described
  described_lem ce wanted (inr e) w h k = ap (λ l. (ok tt, l)) (sym (append-nil w))
  described_lem ce wanted (inl []) w h k = ap (λ l. (ok tt, l)) (sym (append-nil w))
  described_lem ce wanted (inl (d ∷ [])) w h k =
      ap (λ r. bind_outcome r.0 (update recorder ce) r.1) (new_minimum_lem wanted d w (k ce d h))
      ∙ update_lem ce (minimum_for wanted d) w
  described_lem ce wanted (inl (d ∷ other ∷ rest)) w h k = ap (λ l. (ok tt, l)) (sym (append-nil w))

  attempt-settled : {A : Type 0} (r : A ⊎ Error) → attempt_outcome (settled r) ≡ ok r
  attempt-settled (inl a) = refl
  attempt-settled (inr e) = refl

  request-append :
      (ce : String) (o : Option ℤ) (w rest : Requests)
      → (w ++ request ce o []) ++ rest ≡ w ++ request ce o rest
  request-append ce none w rest = ap (λ l. l ++ rest) (append-nil w)
  request-append ce (some n) w rest = append_assoc w ((ce, n) ∷ []) rest

  scale_each_lem :
      (wanted : Wanted) (w : Requests)
      → MinKnown
      → scale_each recorder wanted w ≡ (ok tt, w ++ requests wanted)
  unfolding scale_each requests
  scale_each_lem [] w k = ap (λ l. (ok tt, l)) (sym (append-nil w))
  scale_each_lem ((ce, n) ∷ rest) w k =
      ap
        (λ r.
          bind_outcome r
            (λ out v.
              bind_outcome (scale_described recorder ce n out v).0 (λ _. scale_each recorder rest)
                (scale_described recorder ce n out v).1)
            w)
        (attempt-settled (environments ce))
      ∙ ap (λ r. bind_outcome r.0 (λ _. scale_each recorder rest) r.1)
          (described_lem ce n (environments ce) w refl k)
      ∙ scale_each_lem rest (w ++ request ce (answer_minimum n (environments ce)) []) k
      ∙ ap (λ l. (ok tt, l))
          (request-append ce (answer_minimum n (environments ce)) w (requests rest))

  lookup-request :
      (name ce : String) (o : Option ℤ) (rest : Requests)
      → (name ≡ ce → lookup ce rest ≡ none)
      → lookup ce (request name o rest) ≡ (if name == ce then o else lookup ce rest)
  unfolding lookup
  lookup-request name ce none rest h = elim (Bool-cases (name == ce)) [
    | inl e ↦ rw e (h ((eq_iff name ce).0 e))
    | inr e ↦ rw e refl
  ]
  lookup-request name ce (some n) rest h = refl

  requests_lem :
      (wanted : Wanted) (ce : String)
      → Distinct (keys wanted)
      → lookup ce (requests wanted) ≡ request_for (lookup ce wanted) (environments ce)
  unfolding requests lookup
  requests_lem [] ce d = refl
  requests_lem ((name, n) ∷ rest) ce d =
      lookup-request name ce (answer_minimum n (environments name)) (requests rest) (λ e.
        requests_lem rest ce d.1
        ∙ ap (λ o. request_for o (environments ce))
            (lookup-absent ce rest (subst (λ k. member k (keys rest) ≡ false) e d.0)))
      ∙ elim (Bool-cases (name == ce)) [
        | inl e ↦ rw e (ap (λ k. answer_minimum n (environments k)) ((eq_iff name ce).0 e))
        | inr e ↦ rw e (requests_lem rest ce d.1)
      ]

  member-request :
      (name ce : String) (o : Option ℤ) (rest : Requests)
      → member ce (keys rest) ≡ false
      → (name == ce) ≡ false
      → member ce (keys (request name o rest)) ≡ false
  member-request name ce none rest h e = h
  member-request name ce (some n) rest h e = rw (e, h) refl

  member-requests :
      (wanted : Wanted) (ce : String)
      → member ce (keys wanted) ≡ false
      → member ce (keys (requests wanted)) ≡ false
  unfolding requests
  member-requests [] ce h = refl
  member-requests ((name, n) ∷ rest) ce h =
      member-request name ce (answer_minimum n (environments name)) (requests rest)
        (member-requests rest ce (ground arith)) (ground arith)

  request-Distinct :
      (name : String) (o : Option ℤ) (rest : Requests)
      → member name (keys rest) ≡ false
      → Distinct (keys rest)
      → Distinct (keys (request name o rest))
  request-Distinct name none rest h d = d
  request-Distinct name (some n) rest h d = (h, d)

  requests-Distinct : (wanted : Wanted) → Distinct (keys wanted) → Distinct (keys (requests wanted))
  unfolding requests
  requests-Distinct [] d = tt
  requests-Distinct ((name, n) ∷ rest) d =
      request-Distinct name (answer_minimum n (environments name)) (requests rest)
        (member-requests rest name d.0) (requests-Distinct rest d.1)

  -- When the store estimates the loads, AWS describes the queues, each with a name and no nil at the
  -- head of its environments, and no description of an environment lacks its minimum, then a call
  -- of ScaleComputeEnvironments asks at most once for each environment: for the smaller of its
  -- maximum and the sum of the loads of the queues to scale that have it first, unless that is its
  -- minimum already, and only if it is valid, enabled and described alone with its numbers.
  pub scale_compute_environments_lem :
      (queue : String) (queues : List String)
      → All IsNamed (descriptions (keys (loads (queue ∷ queues))))
      → ((ce : String) (d : EnvironmentDetail)
          → environments ce ≡ inl (d ∷ [])
          → min_known d.compute_resources ≡ true)
      → (asked : List (String × ℤ)) × (scale_compute_environments recorder (queue ∷ queues) []
          ≡ (ok tt, asked))
        × Distinct (keys asked)
        × ((ce : String)
            → lookup ce asked
              ≡ request_for
                  (expected
                    (queue ∷ queues)
                    (λ q. described q (descriptions (keys (loads (queue ∷ queues)))) none)
                    ce
                    (loads (queue ∷ queues))
                    none)
                  (environments ce))
  unfolding scale_compute_environments scale_loads scale_queues lookup
  scale_compute_environments_lem queue queues named k =
      let ls = loads (queue ∷ queues) in
      let ds = descriptions (keys ls) in
      let by = name_queues_lem ds [] [] named (λ q d h. cc) in
      let wanted = wanted_vcpus-Added (queue ∷ queues) by.by_name ls [] [] by.no_nil in
      (
        requests wanted.after,
        ap
              (λ r.
                bind_outcome r.0
                  (λ m v.
                    bind_outcome (wanted_vcpus (queue ∷ queues) m ls [] v).0 (scale_each recorder)
                      (wanted_vcpus (queue ∷ queues) m ls [] v).1)
                  r.1)
              by.returns
            ∙ ap (λ r. bind_outcome r.0 (scale_each recorder) r.1) wanted.returns
            ∙ scale_each_lem wanted.after [] k,
        requests-Distinct wanted.after (wanted.distinct tt),
        λ ce.
            requests_lem wanted.after ce (wanted.distinct tt)
            ∙ ap (λ o. request_for o (environments ce))
                (wanted.found ce
                  ∙ ap (λ f. expected (queue ∷ queues) f ce ls none) (λ i. λ q. by.found q i)),
      )
