-- ===== src/Handlers/Socket/Released.antt =====
-- That the handler of handlers/job_status_subscriptions.go gives its subscription back.
use batchiepatchie.Prelude.{
  ℕ, zero, suc, String, Option, none, some, ◌≡◌, ◌≢◌, refl, sym, subst, ap, ◌∙◌, ◌⊎◌, inl, inr,
}
use batchiepatchie.Prelude.Io.{
  Io, Outcome, ok, err, panic, hang, Error, pure, attempt, returned, bind_outcome, ◌>>=◌, ◌>>◌,
}
use batchiepatchie.Jobs.{Job}
use batchiepatchie.Store.Subscriptions.{Hub, channels, subscribe, unsubscribe}
use batchiepatchie.Store.Subscriptions.Registry.{HubInv, unsubscribe-subscribe}
use batchiepatchie.Handlers.Socket.{
  Server, SocketService, deferred, run_last, unsubscribed, latest, send_text, send_job, send_status,
  follow, greet, greet_and_follow, watch, subscribe_to_job_event,
}

-- A call that subscribes no one and takes no one's subscription away.
abbrev pub KeepsSubscribers : {W A : Type 0} → Io (Server W) A → Type 0
KeepsSubscribers {W} m = (w : Server W) → (m w).1.hub.subscribers ≡ w.hub.subscribers

-- The websocket and the database have nothing to do with the subscribers, and to receive from a
-- channel changes its buffer at most.
pub record IsApart {W : Type 0} (service : SocketService W) : Type 0 where
  pub upgrades : (w : Server W) → (service.upgrade w).1.hub ≡ w.hub
  pub closes : (w : Server W) → (service.close w).hub.subscribers ≡ w.hub.subscribers
  pub finds : (id : String) → KeepsSubscribers (service.find_one id)
  pub receives : (c : ℕ) → KeepsSubscribers (service.receive c)
  pub sets : KeepsSubscribers service.set_write_deadline
  pub writes : (text : String) → KeepsSubscribers (service.write_message text)

outcome-Keeps :
    {W A B : Type 0} (r : Outcome A) (f : A → Io (Server W) B) (w : Server W)
    → ((a : A) → KeepsSubscribers (f a))
    → (bind_outcome r f w).1.hub.subscribers ≡ w.hub.subscribers
outcome-Keeps (ok a) f w k = k a w
outcome-Keeps (err e) f w k = refl
outcome-Keeps panic f w k = refl
outcome-Keeps hang f w k = refl

bind-Keeps :
    {W A B : Type 0} (m : Io (Server W) A) (f : A → Io (Server W) B)
    → KeepsSubscribers m
    → ((a : A) → KeepsSubscribers (f a))
    → KeepsSubscribers (m >>= f)
bind-Keeps m f h k w = outcome-Keeps (m w).0 f (m w).1 k ∙ h w

channels-unsubscribe_same :
    (id k : String) (c : ℕ) (before after : Hub)
    → after.subscribers ≡ before.subscribers
    → channels k (unsubscribe id c after) ≡ channels k (unsubscribe id c before)
unfolding channels unsubscribe
channels-unsubscribe_same id k c before after e = rw e

module _ {W : Type 0} (service : SocketService W) where
  send_text-Keeps : (text : String) → IsApart service → KeepsSubscribers (send_text service text)
  send_text-Keeps text apart =
      bind-Keeps service.set_write_deadline (λ _. service.write_message text) apart.sets
        (λ _. apart.writes text)

  returned-Keeps : {A : Type 0} (r : A ⊎ Error) → KeepsSubscribers {W = W} (returned r)
  returned-Keeps (inl a) w = refl
  returned-Keeps (inr e) w = refl

  send_job-Keeps : (job : Job) → IsApart service → KeepsSubscribers (send_job service job)
  send_job-Keeps job apart =
      bind-Keeps (returned (service.marshal job)) (send_text service)
        (returned-Keeps (service.marshal job)) (λ text. send_text-Keeps text apart)

  send_status-Keeps :
      (status : Option Job) → IsApart service → KeepsSubscribers (send_status service status)
  send_status-Keeps none apart = send_text-Keeps "" apart
  send_status-Keeps (some job) apart = send_job-Keeps job apart

  follow-Keeps :
      (fuel c : ℕ) (previous : Option Job)
      → IsApart service
      → KeepsSubscribers (follow service fuel c previous)
  unfolding follow
  follow-Keeps zero c previous apart = λ w. refl
  follow-Keeps (suc fuel) c previous apart =
      bind-Keeps (service.receive c)
        (λ job.
          send_status service (latest job previous) >> follow service fuel c (latest job previous))
        (apart.receives c)
        (λ job.
          bind-Keeps (send_status service (latest job previous))
            (λ _. follow service fuel c (latest job previous))
            (send_status-Keeps (latest job previous) apart)
            (λ _. follow-Keeps fuel c (latest job previous) apart))

  greet-Keeps : (found : Job ⊎ Error) → IsApart service → KeepsSubscribers (greet service found)
  greet-Keeps (inl job) apart =
      bind-Keeps (send_job service job) (λ _. pure (some job)) (send_job-Keeps job apart)
        (λ _ w. refl)
  greet-Keeps (inr e) apart = λ w. refl

  greet_and_follow-Keeps :
      (fuel : ℕ) (id : String) (c : ℕ)
      → IsApart service
      → KeepsSubscribers (greet_and_follow service fuel id c)
  greet_and_follow-Keeps fuel id c apart =
      bind-Keeps (attempt (service.find_one id))
        (λ found. greet service found >>= follow service fuel c) (apart.finds id)
        (λ found.
          bind-Keeps (greet service found) (follow service fuel c) (greet-Keeps found apart)
            (λ previous. follow-Keeps fuel c previous apart))

  closed :
      (k : String) (w : Server W)
      → IsApart service
      → channels k (service.close w).hub ≡ channels k w.hub
  unfolding channels
  closed k w apart = rw (apart.closes w)

  -- What the deferred steps leave, if the call in them ends.
  ended :
      (id k : String) (c : ℕ) (before : Hub) (r : Outcome (Unit {0}) × Server W)
      → IsApart service
      → r.1.hub.subscribers ≡ before.subscribers
      → (run_last service.close (run_last (unsubscribed id c) r)).0 ≢ hang
      → channels k (run_last service.close (run_last (unsubscribed id c) r)).1.hub
        ≡ channels k (unsubscribe id c before)
  ended id k c before (ok u, w) apart e h =
      closed k (unsubscribed id c w) apart ∙ channels-unsubscribe_same id k c before w.hub e
  ended id k c before (err x, w) apart e h =
      closed k (unsubscribed id c w) apart ∙ channels-unsubscribe_same id k c before w.hub e
  ended id k c before (panic, w) apart e h =
      closed k (unsubscribed id c w) apart ∙ channels-unsubscribe_same id k c before w.hub e
  ended id k c before (hang, w) apart e h = absurd (h refl)

  upgraded :
      (fuel : ℕ) (id k : String) (r : Outcome (Unit {0}) × Server W)
      → IsApart service
      → HubInv r.1.hub
      → let s = bind_outcome r.0 (λ _. deferred service.close (watch service fuel id)) r.1 in
        s.0 ≢ hang → channels k s.1.hub ≡ channels k r.1.hub
  upgraded fuel id k (ok u, w) apart v h =
      let w' = record w { hub = (subscribe id w.hub).1 } in
      let c = (subscribe id w.hub).0 in
      ended id k c w'.hub (greet_and_follow service fuel id c w') apart
        (greet_and_follow-Keeps fuel id c apart w') h
      ∙ unsubscribe-subscribe id k w.hub v
  upgraded fuel id k (err e, w) apart v h = refl
  upgraded fuel id k (panic, w) apart v h = refl
  upgraded fuel id k (hang, w) apart v h = refl

  -- However the handler of a websocket ends, by an error of the websocket, of JSON or by a panic,
  -- and whatever it has received, each job has the channels that it had before.
  pub subscribe_to_job_event_lem :
      (fuel : ℕ) (id k : String) (w : Server W)
      → IsApart service
      → HubInv w.hub
      → (subscribe_to_job_event service fuel id w).0 ≢ hang
      → channels k (subscribe_to_job_event service fuel id w).1.hub ≡ channels k w.hub
  unfolding subscribe_to_job_event
  subscribe_to_job_event_lem fuel id k w apart v h =
      let e = apart.upgrades w in
      upgraded fuel id k (service.upgrade w) apart (subst HubInv (sym e) v) h ∙ ap (channels k) e
