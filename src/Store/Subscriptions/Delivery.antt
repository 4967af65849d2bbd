-- ===== src/Store/Subscriptions/Delivery.antt =====
-- The sends of a flush in jobs/postgres_store.go into the buffers of the channels.
use batchiepatchie.Prelude.{
  ℕ, ◌+◌, ◌≤◌, ◌≡◌, refl, ◌∙◌, ap, true, false, List, [], ◌∷◌, ◌++◌, arith, if◌then◌else◌, eqb, ltb,
  length, length-append, Bool-cases, inl, inr,
}
use mathlib.Core.List.{append_assoc}
use batchiepatchie.Jobs.{Job}
use batchiepatchie.Store.Subscriptions.{capacity, set_buffer, run_sends}

-- What a sequence of sends puts into one channel, in order.
unfoldable pub for_channel : ℕ → List (ℕ × Job) → List Job
for_channel c [] = []
for_channel c ((d, job) ∷ rest) = if eqb d c then job ∷ for_channel c rest else for_channel c rest

run_sends_room :
    (c : ℕ) (job : Job) (rest : List (ℕ × Job)) (buffer : ℕ → List Job)
    → ltb (length (buffer c)) capacity ≡ true
    → run_sends ((c, job) ∷ rest) buffer
      ≡ run_sends rest (set_buffer buffer c (buffer c ++ job ∷ []))
unfolding run_sends
run_sends_room c job rest buffer e =
    ap
      (λ b.
        if b
        then run_sends rest (set_buffer buffer c (buffer c ++ job ∷ []))
        else (buffer, (c, job) ∷ rest))
      e

run_sends_full :
    (c : ℕ) (job : Job) (rest : List (ℕ × Job)) (buffer : ℕ → List Job)
    → ltb (length (buffer c)) capacity ≡ false
    → run_sends ((c, job) ∷ rest) buffer ≡ (buffer, (c, job) ∷ rest)
unfolding run_sends
run_sends_full c job rest buffer e =
    ap
      (λ b.
        if b
        then run_sends rest (set_buffer buffer c (buffer c ++ job ∷ []))
        else (buffer, (c, job) ∷ rest))
      e

run_sends_nil : (buffer : ℕ → List Job) → run_sends [] buffer ≡ (buffer, [])
unfolding run_sends
run_sends_nil buffer = refl

-- Nothing is lost, added or reordered: what a channel holds, and what is still to be sent to it
-- when a send blocks, is what it held and what was to be sent.
pub run_sends_order :
    (c : ℕ) (s : List (ℕ × Job)) (buffer : ℕ → List Job)
    → let (after, left) = run_sends s buffer in
      after c ++ for_channel c left ≡ buffer c ++ for_channel c s
unfolding for_channel
run_sends_order c [] buffer = rw (run_sends_nil buffer)
run_sends_order c ((d, job) ∷ rest) buffer = elim (Bool-cases (ltb (length (buffer d)) capacity)) [
  | inl e ↦
      rw (run_sends_room d job rest buffer e)
        (run_sends_order c rest (set_buffer buffer d (buffer d ++ job ∷ [])) ∙ step)
  | inr e ↦ rw (run_sends_full d job rest buffer e)
]
  where
    step :
        (if eqb d c then buffer d ++ job ∷ [] else buffer c) ++ for_channel c rest
        ≡ buffer c ++ (if eqb d c then job ∷ for_channel c rest else for_channel c rest)
    step = elim (Bool-cases (eqb d c)) [
      | inl e ↦
          let p : d ≡ c = ground arith in
          rw (e, p) (append_assoc (buffer c) (job ∷ []) (for_channel c rest))
      | inr e ↦ rw e
    ]

-- If no buffer is over the capacity of its channel before the sends, none is afterwards.
pub run_sends-capacity :
    (s : List (ℕ × Job)) (buffer : ℕ → List Job)
    → ((c : ℕ) → length (buffer c) ≤ capacity)
    → (c : ℕ) → length ((run_sends s buffer).0 c) ≤ capacity
run_sends-capacity [] buffer h c = rw (run_sends_nil buffer) (h c)
run_sends-capacity ((d, job) ∷ rest) buffer h c =
    elim (Bool-cases (ltb (length (buffer d)) capacity)) [
      | inl e ↦ rw (run_sends_room d job rest buffer e) (
          run_sends-capacity rest (set_buffer buffer d (buffer d ++ job ∷ []))
            (λ b. ground (arith, h b, length-append (buffer d) (job ∷ []))) c)
      | inr e ↦ rw (run_sends_full d job rest buffer e) (h c)
    ]

-- If each buffer has room for all that is sent to it, every send is made.
pub run_sends_done :
    (s : List (ℕ × Job)) (buffer : ℕ → List Job)
    → ((c : ℕ) → length (buffer c) + length (for_channel c s) ≤ capacity)
    → (run_sends s buffer).1 ≡ []
unfolding for_channel
run_sends_done [] buffer h = rw (run_sends_nil buffer)
run_sends_done ((d, job) ∷ rest) buffer h =
    let room : ltb (length (buffer d)) capacity ≡ true = ground (arith, h d) in
    rw (run_sends_room d job rest buffer room) (
      run_sends_done rest (set_buffer buffer d (buffer d ++ job ∷ []))
        (λ b. ground (arith, h b, length-append (buffer d) (job ∷ []))))

-- A send that is left has met a full buffer.
pub Blocks : (ℕ → List Job) → List (ℕ × Job) → Type 0
Blocks buffer [] = Unit {0}
Blocks buffer ((c, job) ∷ rest) = capacity ≤ length (buffer c)

pub run_sends-Blocks :
    (s : List (ℕ × Job)) (buffer : ℕ → List Job)
    → Blocks (run_sends s buffer).0 (run_sends s buffer).1
unfolding Blocks
run_sends-Blocks [] buffer = rw (run_sends_nil buffer) tt
run_sends-Blocks ((d, job) ∷ rest) buffer = elim (Bool-cases (ltb (length (buffer d)) capacity)) [
  | inl e ↦
      rw (run_sends_room d job rest buffer e)
        (run_sends-Blocks rest (set_buffer buffer d (buffer d ++ job ∷ [])))
  | inr e ↦ rw (run_sends_full d job rest buffer e) (ground arith)
]
