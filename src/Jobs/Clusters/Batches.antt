-- ===== src/Jobs/Clusters/Batches.antt =====
-- The batches of jobs/monitor_ecs_clusters.go.
use batchiepatchie.Prelude.{
  ℕ, zero, suc, ◌-◌, ◌≤◌, ◌≡◌, refl, ◌∙◌, ap, String, List, [], ◌∷◌, ◌++◌, arith, All, length, take,
  drop,
}
use batchiepatchie.Prelude.Io.{Io, bind-ext, ◌>>=◌, pure}
use batchiepatchie.Jobs.Clusters.{by_fifty}

abbrev pub all_of {ℓ} : {A : Type ℓ} → List (List A) → List A
all_of [] = []
all_of (b ∷ bs) = b ++ all_of bs

take-drop {ℓ} : {A : Type ℓ} (n : ℕ) (xs : List A) → take n xs ++ drop n xs ≡ xs
take-drop zero xs = refl
take-drop (suc n) [] = refl
take-drop (suc n) (x ∷ xs) = ap (◌∷◌ x) (take-drop n xs)

length-take {ℓ} : {A : Type ℓ} (n : ℕ) (xs : List A) → length (take n xs) ≤ n
length-take zero xs = omega arith
length-take (suc n) [] = omega arith
length-take (suc n) (x ∷ xs) = omega (arith, length-take n xs)

length-drop {ℓ} : {A : Type ℓ} (n : ℕ) (xs : List A) → length (drop n xs) ≡ length xs - n
length-drop zero xs = omega arith
length-drop (suc n) [] = omega arith
length-drop (suc n) (x ∷ xs) = omega (arith, length-drop n xs)

module _ {W S : Type 0} (call : List String → S → Io W S) where
  -- One call for each batch.
  unfoldable pub call_each : List (List String) → S → Io W S
  call_each [] s = pure s
  call_each (b ∷ bs) s = call b s >>= λ s'. call_each bs s'

  fifty_batches :
      (fuel : ℕ) (xs : List String)
      → length xs ≤ fuel
      → (bs : List (List String)) × ((s : S) (w : W) → by_fifty fuel call xs s w ≡ call_each bs s w)
        × (all_of bs ≡ xs)
        × All (λ b. (1 ≤ length b) × (length b ≤ 50)) bs
  unfolding by_fifty call_each
  fifty_batches fuel [] h = ([], λ s w. refl, refl, tt)
  fifty_batches zero (x ∷ xs) h = absurd (omega arith)
  fifty_batches (suc fuel) (x ∷ xs) h =
      let (bs, e, c, a) = fifty_batches fuel (drop 49 xs) (omega (arith, length-drop 49 xs)) in
      (
        (x ∷ take 49 xs) ∷ bs,
        λ s w.
            let r = call (x ∷ take 49 xs) s w in
            bind-ext r.0 (by_fifty fuel call (drop 49 xs)) (call_each bs) r.1 (λ s'. e s' r.1),
        ap (λ l. x ∷ (take 49 xs ++ l)) c ∙ ap (◌∷◌ x) (take-drop 49 xs),
        ((omega arith, omega (arith, length-take 49 xs)), a),
      )

  -- With fuel for each element, the loop with the cursor makes one call for each batch of a list,
  -- and the batches have 1 to 50 elements each and hold every element once, in order.
  pub by_fifty_lem :
      (xs : List String) (s : S) (w : W)
      → (bs : List (List String)) × (by_fifty (length xs) call xs s w ≡ call_each bs s w)
        × (all_of bs ≡ xs)
        × All (λ b. (1 ≤ length b) × (length b ≤ 50)) bs
  by_fifty_lem xs s w =
      let (bs, e, c, a) = fifty_batches (length xs) xs (omega arith) in (bs, e s w, c, a)
