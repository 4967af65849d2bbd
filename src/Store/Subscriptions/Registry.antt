-- ===== src/Store/Subscriptions/Registry.antt =====
-- Subscribing and unsubscribing in jobs/postgres_store.go.
use batchiepatchie.Prelude.{
  ℕ, suc, ◌<◌, String, ◌≡◌, refl, ◌∙◌, ap₂, ◌≤◌, Option, none, some, List, [], ◌∷◌, ◌++◌, ◌==◌,
  eq_iff, arith, if◌then◌else◌, Bool-cases, Option-cases, inl, inr, All, All-append,
}
use mathlib.Core.List.{append-nil}
use batchiepatchie.Prelude.Dict.{lookup, lookup-insert, lookup-delete}
use batchiepatchie.Store.Subscriptions.{
  Hub, channels, channels_or_none, subscribe, without, reduced, dropped, unsubscribe,
}

-- Every channel of a map was given out before `n`.
abbrev pub Below : ℕ → List ℕ → Type 0
Below n cs = All (λ c. c < n) cs

abbrev pub NonEmpty : Option (List ℕ) → Type 0
NonEmpty none = Unit {0}
NonEmpty (some []) = ⊥
NonEmpty (some (c ∷ cs)) = Unit {0}

-- The map of subscribers: it names only channels that exist, and no key without a channel.
pub record HubInv (hub : Hub) : Type 0 where
  pub given_out : (id : String) → Below hub.next_channel (channels id hub)
  pub no_empty_key : (id : String) → NonEmpty (lookup id hub.subscribers)

channels-subscribe :
    (id k : String) (hub : Hub)
    → channels k (subscribe id hub).1
      ≡ (if id == k then channels k hub ++ hub.next_channel ∷ [] else channels k hub)
unfolding channels subscribe
channels-subscribe id k hub = ground (
  arith,
  eq_iff id k,
  lookup-insert id k (channels_or_none (lookup id hub.subscribers) ++ hub.next_channel ∷ [])
      hub.subscribers,
)

reduced_lem :
    (id k : String) (cs : List ℕ) (m : List (String × List ℕ))
    → channels_or_none (lookup k (reduced id cs m))
      ≡ (if id == k then cs else channels_or_none (lookup k m))
reduced_lem id k [] m = rw (lookup-delete id k m) (ground arith)
reduced_lem id k (c ∷ cs) m = rw (lookup-insert id k (c ∷ cs) m) (ground arith)

-- Unsubscribing takes the channel off the job's list and leaves every other list alone.
pub channels-unsubscribe :
    (id k : String) (c : ℕ) (hub : Hub)
    → channels k (unsubscribe id c hub)
      ≡ (if id == k then without c (channels k hub) else channels k hub)
unfolding channels unsubscribe
channels-unsubscribe id k c hub = elim (Option-cases (lookup id hub.subscribers)) [
  | inl e ↦ rw e (ground (arith, eq_iff id k, without-nil c))
  | inr (cs, e) ↦
      rw e (rw (reduced_lem id k (without c cs) hub.subscribers) (ground (arith, eq_iff id k)))
]
  where
    without-nil : (d : ℕ) → without d [] ≡ []
    without-nil d = unfold without in refl

without-append : (c : ℕ) (xs ys : List ℕ) → without c (xs ++ ys) ≡ without c xs ++ without c ys
unfolding without
without-append c [] ys = refl
without-append c (x ∷ xs) ys = ground (arith, without-append c xs ys)

without-fresh : (c : ℕ) (xs : List ℕ) → Below c xs → without c xs ≡ xs
unfolding without
without-fresh c [] b = refl
without-fresh c (x ∷ xs) b = ground (arith, without-fresh c xs b.1)

without-one : (c : ℕ) → without c (c ∷ []) ≡ []
unfolding without
without-one c = ground arith

subscribe-channel : (id : String) (hub : Hub) → (subscribe id hub).0 ≡ hub.next_channel
unfolding subscribe
subscribe-channel id hub = refl

without_new : (c : ℕ) (xs : List ℕ) → Below c xs → without c (xs ++ c ∷ []) ≡ xs
without_new c xs b =
    without-append c xs (c ∷ []) ∙ ap₂ ◌++◌ (without-fresh c xs b) (without-one c) ∙ append-nil xs

-- In a map that has the invariant, a subscription that is undone leaves every job with the channels
-- that it had.
pub unsubscribe-subscribe :
    (id k : String) (hub : Hub)
    → HubInv hub
    → let (c, subscribed) = subscribe id hub in
      channels k (unsubscribe id c subscribed) ≡ channels k hub
unsubscribe-subscribe id k hub v =
    let (c, subscribed) = subscribe id hub in
    channels-unsubscribe id k c subscribed ∙ elim (Bool-cases (id == k)) [
      | inl e ↦
          rw (e, channels-subscribe id k hub, e, subscribe-channel id hub)
            (without_new hub.next_channel (channels k hub) (v.given_out k))
      | inr e ↦ rw (e, channels-subscribe id k hub, e)
    ]

Below-mono : (m n : ℕ) (xs : List ℕ) → m ≤ n → Below m xs → Below n xs
Below-mono m n [] h b = tt
Below-mono m n (x ∷ xs) h b = (omega arith, Below-mono m n xs h b.1)

Below-without : (n c : ℕ) (xs : List ℕ) → Below n xs → Below n (without c xs)
unfolding without
Below-without n c [] b = tt
Below-without n c (x ∷ xs) b = ground (arith, Below-without n c xs b.1)

Below-new : (n : ℕ) (xs : List ℕ) → Below n xs → Below (suc n) (xs ++ n ∷ [])
Below-new n xs b =
    All-append _ xs (n ∷ []) (Below-mono n (suc n) xs (omega arith) b) (omega arith, tt)

NonEmpty-append : (xs : List ℕ) (c : ℕ) → NonEmpty (some (xs ++ c ∷ []))
NonEmpty-append [] c = tt
NonEmpty-append (x ∷ xs) c = tt

subscribe-next :
    (id : String) (hub : Hub) → (subscribe id hub).1.next_channel ≡ suc hub.next_channel
unfolding subscribe
subscribe-next id hub = refl

subscribe-no_empty_key :
    (id k : String) (hub : Hub) → HubInv hub → NonEmpty (lookup k (subscribe id hub).1.subscribers)
unfolding subscribe
subscribe-no_empty_key id k hub v =
    rw (lookup-insert id k (channels id hub ++ hub.next_channel ∷ []) hub.subscribers)
      (elim (Bool-cases (id == k)) [
        | inl e ↦ rw e (NonEmpty-append (channels id hub) hub.next_channel)
        | inr e ↦ rw e (v.no_empty_key k)
      ])

-- Subscribing keeps the invariant of the map.
pub subscribe-HubInv : (id : String) (hub : Hub) → HubInv hub → HubInv (subscribe id hub).1
subscribe-HubInv id hub v = record {
  given_out = λ k.
      rw (channels-subscribe id k hub, subscribe-next id hub)
        (elim (Bool-cases (id == k)) [
          | inl e ↦ rw e (Below-new hub.next_channel (channels k hub) (v.given_out k))
          | inr e ↦ rw e (
              Below-mono hub.next_channel (suc hub.next_channel) (channels k hub) (omega arith)
                (v.given_out k))
        ]);
  no_empty_key = λ k. subscribe-no_empty_key id k hub v;
}

reduced-NonEmpty :
    (id k : String) (cs : List ℕ) (m : List (String × List ℕ))
    → NonEmpty (lookup k m)
    → NonEmpty (lookup k (reduced id cs m))
reduced-NonEmpty id k [] m h =
    rw (lookup-delete id k m) (elim (Bool-cases (id == k)) [ inl e ↦ rw e tt | inr e ↦ rw e h ])
reduced-NonEmpty id k (c ∷ cs) m h =
    rw (lookup-insert id k (c ∷ cs) m)
      (elim (Bool-cases (id == k)) [ inl e ↦ rw e tt | inr e ↦ rw e h ])

dropped-NonEmpty :
    (id k : String) (c : ℕ) (o : Option (List ℕ)) (m : List (String × List ℕ))
    → NonEmpty (lookup k m)
    → NonEmpty (lookup k (dropped id c o m))
dropped-NonEmpty id k c none m h = h
dropped-NonEmpty id k c (some cs) m h = reduced-NonEmpty id k (without c cs) m h

unsubscribe-no_empty_key :
    (id k : String) (c : ℕ) (hub : Hub)
    → HubInv hub
    → NonEmpty (lookup k (unsubscribe id c hub).subscribers)
unfolding unsubscribe
unsubscribe-no_empty_key id k c hub v =
    dropped-NonEmpty id k c (lookup id hub.subscribers) hub.subscribers (v.no_empty_key k)

unsubscribe-next :
    (id : String) (c : ℕ) (hub : Hub) → (unsubscribe id c hub).next_channel ≡ hub.next_channel
unfolding unsubscribe
unsubscribe-next id c hub = refl

-- Unsubscribing keeps the invariant: no key is left without a channel, so the map does not grow
-- with the jobs that were once watched.
pub unsubscribe-HubInv :
    (id : String) (c : ℕ) (hub : Hub) → HubInv hub → HubInv (unsubscribe id c hub)
unsubscribe-HubInv id c hub v = record {
  given_out = λ k.
      rw (channels-unsubscribe id k c hub, unsubscribe-next id c hub)
        (elim (Bool-cases (id == k)) [
          | inl e ↦ rw e (Below-without hub.next_channel c (channels k hub) (v.given_out k))
          | inr e ↦ rw e (v.given_out k)
        ]);
  no_empty_key = λ k. unsubscribe-no_empty_key id k c hub v;
}
