-- ===== src/Jobs/Scaler/Order.antt =====
-- The order in which jobs/scaler.go ranges over the loads of the queues, which Go leaves open.
use mathlib.Core.List.{Permᴰ}
use batchiepatchie.Prelude.{
  String, ◌≡◌, refl, sym, ap, ◌∙◌, Bool, true, false, Option, none, some, List, [], ◌∷◌, ◌⊎◌, inl,
  All, subst, if◌then◌else◌, arith,
}
use batchiepatchie.Prelude.Dict.{lookup, keys}
use batchiepatchie.Prelude.Int.{ℤ, pos, negsuc, ◌+ℤ◌, int64, +ℤ_parts, eq_of_parts}
use batchiepatchie.Prelude.Io.{Error, ok}
use batchiepatchie.Aws.{JobQueueDetail, EnvironmentDetail}
use batchiepatchie.Jobs.{RunningLoad}
use batchiepatchie.Jobs.Scaler.{plus, is_allowed, scale_compute_environments}
use batchiepatchie.Jobs.Scaler.Wanted.{IsNamed, described, expected, is_named, target_of}
use batchiepatchie.Jobs.Scaler.Requests.{
  recorder, request_for, min_known, scale_compute_environments_lem,
}

add_comm : (a b : ℤ) → a +ℤ b ≡ b +ℤ a
add_comm a b = eq_of_parts (a +ℤ b) (b +ℤ a) (omega (arith, +ℤ_parts a b, +ℤ_parts b a))

add_swap : (a b c : ℤ) → (a +ℤ b) +ℤ c ≡ (a +ℤ c) +ℤ b
add_swap a b c =
    eq_of_parts ((a +ℤ b) +ℤ c) ((a +ℤ c) +ℤ b)
      (omega (arith, +ℤ_parts a b, +ℤ_parts (a +ℤ b) c, +ℤ_parts a c, +ℤ_parts (a +ℤ c) b))

-- A wrap-around before a sum does not change what the sum wraps to.
wrapped : (a b : ℤ) → int64 (int64 a +ℤ b) ≡ int64 (a +ℤ b)
unfolding int64 ◌+ℤ◌
wrapped (pos n) b = ground arith
wrapped (negsuc n) b = ground arith

plus_swap : (sum : Option ℤ) (a b : ℤ) → plus (some (plus sum a)) b ≡ plus (some (plus sum b)) a
plus_swap none a b = ap int64 (add_comm a b)
plus_swap (some x) a b = wrapped (x +ℤ a) b ∙ ap int64 (add_swap x a b) ∙ sym (wrapped (x +ℤ b) a)

module _ (queues : List String) (find : String → Option JobQueueDetail) (ce : String) where
  abbrev goes_here : String → Bool
  goes_here queue = is_named ce (target_of (find queue) (is_allowed queue queues))

  abbrev counted : String × RunningLoad → Option ℤ → Option ℤ
  counted (queue, load) sum = if goes_here queue then some (plus sum load.wanted_vcpus) else sum

  counted_swap :
      (here there : Bool) (a b : ℤ) (sum : Option ℤ)
      → (if there
          then some (plus (if here then some (plus sum a) else sum) b)
          else if here
          then some (plus sum a)
          else sum)
        ≡ (if here
            then some (plus (if there then some (plus sum b) else sum) a)
            else if there
            then some (plus sum b)
            else sum)
  counted_swap true true a b sum = ap some (plus_swap sum a b)
  counted_swap true false a b sum = refl
  counted_swap false true a b sum = refl
  counted_swap false false a b sum = refl

  expected-Perm :
      {loads loads' : List (String × RunningLoad)} (sum : Option ℤ)
      → Permᴰ loads loads'
      → expected queues find ce loads sum ≡ expected queues find ce loads' sum
  unfolding expected
  expected-Perm sum Permᴰ.nil = refl
  expected-Perm sum (Permᴰ.cons {a} {b} {l₁} {l₂} e p) =
      expected-Perm (counted a sum) p ∙ ap (λ x. expected queues find ce l₂ (counted x sum)) e
  expected-Perm sum (Permᴰ.swap {a} {b} {a'} {b'} {l} e f) =
      ap (expected queues find ce l)
        (counted_swap (goes_here a.0) (goes_here b.0) a.1.wanted_vcpus b.1.wanted_vcpus sum)
      ∙ ap (λ x. expected queues find ce l (counted x (counted b sum))) e
      ∙ ap (λ y. expected queues find ce l (counted b' (counted y sum))) f
  expected-Perm sum (Permᴰ.trans p q) = expected-Perm sum p ∙ expected-Perm sum q

-- Go ranges over the loads in an order of its own. Two orders of the same loads, of which AWS
-- describes the queues alike, make ScaleComputeEnvironments ask for the same: the same environments,
-- and the same minimum for each. The conditions are that AWS names each queue, with no nil at the
-- head of its environments, and that no description of an environment lacks its minimum.
pub scale_any_order :
    (loads loads' : List String → List (String × RunningLoad))
    (descriptions : List String → List JobQueueDetail)
    (environments : String → List EnvironmentDetail ⊎ Error) (refused : String → ℤ → Option Error)
    (queue : String) (queues : List String)
    → Permᴰ (loads (queue ∷ queues)) (loads' (queue ∷ queues))
    → descriptions (keys (loads (queue ∷ queues))) ≡ descriptions (keys (loads' (queue ∷ queues)))
    → All IsNamed (descriptions (keys (loads (queue ∷ queues))))
    → ((ce : String) (d : EnvironmentDetail)
        → environments ce ≡ inl (d ∷ [])
        → min_known d.compute_resources ≡ true)
    → (asked asked' : List (String × ℤ)) × (scale_compute_environments
          (recorder loads descriptions environments refused)
          (queue ∷ queues)
          []
        ≡ (ok tt, asked))
      × (scale_compute_environments
            (recorder loads' descriptions environments refused)
            (queue ∷ queues)
            []
          ≡ (ok tt, asked'))
      × ((ce : String) → lookup ce asked ≡ lookup ce asked')
scale_any_order loads loads' descriptions environments refused queue queues p same named known =
    let qs = queue ∷ queues in
    let (asked, run, _, found) =
      scale_compute_environments_lem loads descriptions environments refused queue queues named
        known in
    let (asked', run', _, found') =
      scale_compute_environments_lem loads' descriptions environments refused queue queues
        (subst (All IsNamed) same named) known in
    (
      asked,
      asked',
      run,
      run',
      λ ce.
          found ce
          ∙ ap (λ o. request_for o (environments ce))
              (expected-Perm qs (λ q. described q (descriptions (keys (loads qs))) none) ce none p
                ∙ ap (λ ds. expected qs (λ q. described q ds none) ce (loads' qs) none) same)
          ∙ sym (found' ce),
    )
