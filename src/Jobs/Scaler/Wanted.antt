-- ===== src/Jobs/Scaler/Wanted.antt =====
-- How many vcpus jobs/scaler.go wants in each compute environment.
use batchiepatchie.Prelude.{
  String, Bool, true, false, ◌≡◌, refl, sym, ap, ◌∙◌, Option, none, some, List, [], ◌∷◌, ◌==◌,
  eq_iff, if◌then◌else◌, All, Bool-cases, inl, inr, subst,
}
use batchiepatchie.Prelude.Dict.{lookup, insert, keys, lookup-insert, insert-Distinct, Distinct}
use batchiepatchie.Prelude.Int.{ℤ}
use batchiepatchie.Prelude.Io.{Outcome, ok, deref, bind_outcome}
use batchiepatchie.Aws.{JobQueueDetail}
use batchiepatchie.Jobs.{RunningLoad}
use batchiepatchie.Jobs.Scaler.{
  Wanted, is_allowed, plus, add_wanted, name_queues, add_first, add_described, wanted_vcpus,
}

-- The first compute environment of an order.
abbrev pub first_of : List (Option String) → Option String
first_of [] = none
first_of (ce ∷ ces) = ce

abbrev pub no_nil_first : List (Option String) → Bool
no_nil_first [] = true
no_nil_first (none ∷ ces) = false
no_nil_first (some ce ∷ ces) = true

-- A description as AWS gives it: with a name, and an order that does not begin with nil.
pub record IsNamed (d : JobQueueDetail) : Type 0 where
  pub name : String
  pub named : d.job_queue_name ≡ some name
  pub first : no_nil_first d.compute_environment_order ≡ true

abbrev pub is_named : String → Option String → Bool
is_named queue none = false
is_named queue (some name) = name == queue

-- The last description of a queue.
unfoldable pub described :
    String → List JobQueueDetail → Option JobQueueDetail → Option JobQueueDetail
described queue [] found = found
described queue (d ∷ ds) found =
    described queue ds (if is_named queue d.job_queue_name then some d else found)

-- Where the load of a queue goes, if it is one of the queues to scale.
abbrev pub target_of : Option JobQueueDetail → Bool → Option String
target_of none allowed = none
target_of (some d) false = none
target_of (some d) true = first_of d.compute_environment_order

-- `find` is the description of a queue. The loads of the queues whose first compute environment this is, added up.
unfoldable pub expected :
    List String
    → (String → Option JobQueueDetail)
    → String
    → List (String × RunningLoad)
    → Option ℤ
    → Option ℤ
expected queues find ce [] sum = sum
expected queues find ce ((queue, load) ∷ loads) sum = expected queues find ce loads (
    if is_named ce (target_of (find queue) (is_allowed queue queues))
    then some (plus sum load.wanted_vcpus)
    else sum)

abbrev pub NoNilFirst : List (String × JobQueueDetail) → Type 0
NoNilFirst m =
    (queue : String) (d : JobQueueDetail)
    → lookup queue m ≡ some d
    → no_nil_first d.compute_environment_order ≡ true

insert-NoNilFirst :
    (name : String) (d : JobQueueDetail) (m : List (String × JobQueueDetail))
    → no_nil_first d.compute_environment_order ≡ true
    → NoNilFirst m
    → NoNilFirst (insert name d m)
insert-NoNilFirst name d m f n queue found h =
    let l = sym (lookup-insert name queue d m) ∙ h in
    elim (Bool-cases (name == queue)) [
      | inl e ↦
          let c : d ≡ found = cc (rw e at l) in
          subst (λ x. no_nil_first x.compute_environment_order ≡ true) c f
      | inr e ↦ n queue found (rw e at l)
    ]

-- The map of the descriptions by their names.
pub record Named {W : Type 0} (ds : List JobQueueDetail) (m : List (String × JobQueueDetail))
    (w : W) : Type 0 where
  pub by_name : List (String × JobQueueDetail)
  pub returns : name_queues ds m w ≡ (ok by_name, w)
  pub no_nil : NoNilFirst by_name
  pub found : (queue : String) → lookup queue by_name ≡ described queue ds (lookup queue m)

pub name_queues_lem :
    {W : Type 0} (ds : List JobQueueDetail) (m : List (String × JobQueueDetail)) (w : W)
    → All IsNamed ds
    → NoNilFirst m
    → Named ds m w
unfolding name_queues described
name_queues_lem [] m w a n = record {
  by_name = m;
  returns = refl;
  no_nil = n;
  found = λ queue. refl;
}
name_queues_lem (d ∷ ds) m w a n =
    let r =
      name_queues_lem ds (insert a.0.name d m) w a.1 (insert-NoNilFirst a.0.name d m a.0.first n) in
    record {
      by_name = r.by_name;
      returns =
          ap
            (λ o.
              bind_outcome (deref o w).0 (λ name. name_queues ds (insert name d m)) (deref o w).1)
            a.0.named
          ∙ r.returns;
      no_nil = r.no_nil;
      found = λ queue.
          r.found queue
          ∙ ap (described queue ds) (
              lookup-insert a.0.name queue d m
              ∙ ap (λ o. if is_named queue o then some d else lookup queue m) (sym a.0.named));
    }

-- A map of wanted vcpus after some steps: the sums have changed so.
pub record Added {W : Type 0} (change : String → Option ℤ → Option ℤ) (before : Wanted)
    (outcome : Outcome Wanted × W) (w : W) : Type 0 where
  pub after : Wanted
  pub returns : outcome ≡ (ok after, w)
  pub distinct : Distinct (keys before) → Distinct (keys after)
  pub found : (ce : String) → lookup ce after ≡ change ce (lookup ce before)

abbrev with_load : Option String → ℤ → String → Option ℤ → Option ℤ
with_load target load ce sum = if is_named ce target then some (plus sum load) else sum

add_wanted-found :
    (name : String) (load : ℤ) (m : Wanted) (ce : String)
    → lookup ce (add_wanted name load m) ≡ with_load (some name) load ce (lookup ce m)
unfolding add_wanted
add_wanted-found name load m ce =
    lookup-insert name ce (plus (lookup name m) load) m ∙ elim (Bool-cases (name == ce)) [
      | inl e ↦ rw e (ap (λ n. some (plus (lookup n m) load)) ((eq_iff name ce).0 e))
      | inr e ↦ rw e refl
    ]

add_first-Added :
    {W : Type 0} (ces : List (Option String)) (load : ℤ) (m : Wanted) (w : W)
    → no_nil_first ces ≡ true
    → Added (with_load (first_of ces) load) m (add_first ces load m w) w
unfolding add_first add_wanted
add_first-Added [] load m w h = record {
  after = m;
  returns = refl;
  distinct = λ d. d;
  found = λ ce. refl;
}
add_first-Added (none ∷ ces) load m w h = cc
add_first-Added (some name ∷ ces) load m w h = record {
  after = add_wanted name load m;
  returns = refl;
  distinct = insert-Distinct name (plus (lookup name m) load) m;
  found = add_wanted-found name load m;
}

add_described-Added :
    {W : Type 0} (o : Option JobQueueDetail) (allowed : Bool) (load : ℤ) (m : Wanted) (w : W)
    → ((d : JobQueueDetail) → o ≡ some d → no_nil_first d.compute_environment_order ≡ true)
    → Added (with_load (target_of o allowed) load) m (add_described o allowed load m w) w
add_described-Added none allowed load m w h = record {
  after = m;
  returns = refl;
  distinct = λ d. d;
  found = λ ce. refl;
}
add_described-Added (some d) false load m w h = record {
  after = m;
  returns = refl;
  distinct = λ d. d;
  found = λ ce. refl;
}
add_described-Added (some d) true load m w h =
    add_first-Added d.compute_environment_order load m w (h d refl)

pub wanted_vcpus-Added :
    {W : Type 0} (queues : List String) (descs : List (String × JobQueueDetail))
    (loads : List (String × RunningLoad)) (m : Wanted) (w : W)
    → NoNilFirst descs
    → Added
        (λ ce. expected queues (λ q. lookup q descs) ce loads)
        m
        (wanted_vcpus queues descs loads m w)
        w
unfolding wanted_vcpus expected
wanted_vcpus-Added queues descs [] m w n = record {
  after = m;
  returns = refl;
  distinct = λ d. d;
  found = λ ce. refl;
}
wanted_vcpus-Added queues descs ((queue, load) ∷ loads) m w n =
    let one =
      add_described-Added (lookup queue descs) (is_allowed queue queues) load.wanted_vcpus m w
        (n queue) in
    let rest = wanted_vcpus-Added queues descs loads one.after w n in
    record {
      after = rest.after;
      returns =
          ap (λ r. bind_outcome r.0 (wanted_vcpus queues descs loads) r.1) one.returns
          ∙ rest.returns;
      distinct = λ d. rest.distinct (one.distinct d);
      found =
          λ ce. rest.found ce ∙ ap (expected queues (λ q. lookup q descs) ce loads) (one.found ce);
    }
