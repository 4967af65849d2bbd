-- ===== src/Jobs/Scaler/Laws.antt =====
-- What the scaler asks of a compute environment.
use batchiepatchie.Prelude.{
  String, true, ◌≡◌, ◌≢◌, ◌∙◌, ◌⊎◌, inl, inr, Option, none, some, eq_iff, arith, if◌then◌else◌,
  Bool-cases, Option-cases,
}
use batchiepatchie.Prelude.Int.{ℤ, ◌≤ℤ◌, eqb_ℤ, eqb_ℤ_iff}
use batchiepatchie.Prelude.Io.{ok, panic}
use batchiepatchie.Aws.{ComputeResources, EnvironmentDetail}
use batchiepatchie.Jobs.Scaler.{is_live, capped, new_minimum}

is_live_lem :
    (status state : Option String)
    → is_live status state ≡ true
    → (status ≡ some "VALID") × (state ≡ some "ENABLED")
is_live_lem none state h = cc
is_live_lem (some s) none h = cc
is_live_lem (some s) (some t) h = ground (arith, eq_iff s "VALID", eq_iff t "ENABLED")

capped_lem :
    (wanted most : ℤ)
    → (capped wanted most ≤ℤ wanted)
      × (capped wanted most ≤ℤ most)
      × ((capped wanted most ≡ wanted) ⊎ (capped wanted most ≡ most))
capped_lem wanted most = ground arith

-- The facts behind a request to set the minimum of an environment.
pub record Justified (wanted : ℤ) (detail : EnvironmentDetail) (minimum : ℤ) : Type 0 where
  pub resources : ComputeResources
  pub most : ℤ
  pub least : ℤ
  pub valid : detail.status ≡ some "VALID"
  pub enabled : detail.state ≡ some "ENABLED"
  pub described : detail.compute_resources ≡ some resources
  pub max_known : resources.max_vcpus ≡ some most
  pub min_known : resources.min_vcpus ≡ some least
  pub changed : minimum ≢ least
  pub at_most_wanted : minimum ≤ℤ wanted
  pub at_most_max : minimum ≤ℤ most
  pub reached : (minimum ≡ wanted) ⊎ (minimum ≡ most)

no_minimum : {A : Type 0} (minimum : ℤ) → ok none ≡ ok (some minimum) → A
no_minimum minimum h = absurd (cc)

no_panic : {A : Type 0} (minimum : ℤ) → panic ≡ ok (some minimum) → A
no_panic minimum h = absurd (cc)

justified :
    (wanted : ℤ) (detail : EnvironmentDetail) (r : ComputeResources) (most least minimum : ℤ)
    → is_live detail.status detail.state ≡ true
    → detail.compute_resources ≡ some r
    → r.max_vcpus ≡ some most
    → r.min_vcpus ≡ some least
    → ok (if eqb_ℤ (capped wanted most) least then none else some (capped wanted most))
      ≡ ok (some minimum)
    → Justified wanted detail minimum
justified wanted detail r most least minimum e p m l h =
    elim (Bool-cases (eqb_ℤ (capped wanted most) least)) [
      | inl c ↦ no_minimum minimum (rw c at h)
      | inr c ↦
          let k : ok (some (capped wanted most)) ≡ ok (some minimum) = rw c at h in
          let s : capped wanted most ≡ minimum = cc in
          let (a, b, d) = capped_lem wanted most in
          let (v, n) = is_live_lem detail.status detail.state e in
          record {
            resources = r;
            most = most;
            least = least;
            valid = v;
            enabled = n;
            described = p;
            max_known = m;
            min_known = l;
            changed = λ x. let t = (eqb_ℤ_iff (capped wanted most) least).1 (s ∙ x) in cc;
            at_most_wanted = rw s at a;
            at_most_max = rw s at b;
            reached = rw s at d;
          }
    ]

-- A minimum is set only for a valid and enabled environment, when it differs from the one in
-- place, and it is the smaller of the wanted and the maximal vcpus.
pub new_minimum-Justified :
    {W : Type 0} (wanted : ℤ) (detail : EnvironmentDetail) (w : W) (minimum : ℤ)
    → (new_minimum wanted detail w).0 ≡ ok (some minimum)
    → Justified wanted detail minimum
unfolding new_minimum
new_minimum-Justified wanted detail w minimum h =
    elim (Bool-cases (is_live detail.status detail.state)) [
      | inr e ↦ no_minimum minimum (rw e at h)
      | inl e ↦ elim (Option-cases detail.compute_resources) [
        | inl p ↦ no_minimum minimum (rw (e, p) at h)
        | inr (r, p) ↦ elim (Option-cases r.desired_vcpus) [
          | inl q ↦ no_minimum minimum (rw (e, p, q) at h)
          | inr (d, q) ↦ elim (Option-cases r.max_vcpus) [
            | inl m ↦ no_minimum minimum (rw (e, p, q, m) at h)
            | inr (most, m) ↦ elim (Option-cases r.min_vcpus) [
              | inl l ↦ no_panic minimum (rw (e, p, q, m, l) at h)
              | inr (least, l) ↦
                  justified wanted detail r most least minimum e p m l (rw (e, p, q, m, l) at h)
            ]
          ]
        ]
      ]
    ]
