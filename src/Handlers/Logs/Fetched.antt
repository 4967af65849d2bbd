-- ===== src/Handlers/Logs/Fetched.antt =====
-- The whole of `FetchLogs` of handlers/handlers.go: where the log is found, and what is answered.
use batchiepatchie.Prelude.{
  ℕ, ◌<◌, String, ◌≡◌, refl, ap, ◌∙◌, ◌⊎◌, inl, inr, Option, none, some, List, [], ◌∷◌, length,
}
use batchiepatchie.Prelude.Io.{
  Io, Error, ok, err, bind_outcome, bind-ext, attempt_outcome, ◌>>=◌, ◌>>◌, pure,
}
use batchiepatchie.Jobs.{Job}
use batchiepatchie.Handlers.{Body, respond, answer_to}
use batchiepatchie.Handlers.Logs.{
  LogService, old_style_logs, new_style_logs, find_streams, write_events, copy_events, copy_logs,
  fetch_logs,
}
use batchiepatchie.Handlers.Logs.Pages.{Followed, all_events, copy_events_lem}

module _ {W : Type 0} (service : LogService W) where
  -- No streams, or an error.
  abbrev pub FindsNone : String → Type 0
  FindsNone name =
      (w : W)
      → (service.describe_log_streams name w ≡ (ok [], w))
        ⊎ ((e : Error) × (service.describe_log_streams name w ≡ (err e, w)))

  abbrev pub FindsFirst : String → Option String → Type 0
  FindsFirst name stream =
      (others : List (Option String)) × ((w : W)
        → service.describe_log_streams name w ≡ (ok (stream ∷ others), w))

  -- The stream is the first one by the prefix of the job's name, or else by its own stream's.
  abbrev pub FoundAt : String → Job → Option String → Type 0
  FoundAt id job stream =
      FindsFirst (old_style_logs service id job) stream
      ⊎ (FindsNone (old_style_logs service id job)
          × ((name : String) × (new_style_logs service job ≡ some name) × FindsFirst name stream))

  finds_first :
      (name : String) (names : List (Option String)) (last : List (Option String) ⊎ Error)
      (stream : Option String) (found : FindsFirst name stream) (w : W)
      → find_streams service (some name ∷ names) last w ≡ (ok (inl (stream ∷ found.0)), w)
  unfolding find_streams
  finds_first name names last stream found w = rw (found.1 w) refl

  finds_next :
      (name : String) (next : Option String) (w : W)
      → FindsNone name
      → (last : List (Option String) ⊎ Error) × (find_streams service
            (some name ∷ next ∷ [])
            (inl [])
            w
          ≡ find_streams service (next ∷ []) last w)
  unfolding find_streams
  finds_next name next w h = elim (h w) [
    | inl e ↦ (inl [], rw e refl)
    | inr (d, e) ↦ (inr d, rw e refl)
  ]

  found_lem :
      (id : String) (job : Job) (stream : Option String) (w : W)
      → FoundAt id job stream
      → (others : List (Option String)) × (find_streams service
            (some (old_style_logs service id job) ∷ new_style_logs service job ∷ [])
            (inl [])
            w
          ≡ (ok (inl (stream ∷ others)), w))
  found_lem id job stream w (inl found) = (
    found.0,
    finds_first (old_style_logs service id job) (new_style_logs service job ∷ []) (inl []) stream
        found w,
  )
  found_lem id job stream w (inr (nothing, (name, n, found))) =
      let (last, e) =
        finds_next (old_style_logs service id job) (new_style_logs service job) w nothing in
      (
        found.0,
        e
            ∙ ap (λ o. find_streams service (o ∷ []) last w) n
            ∙ finds_first name [] last stream found w,
      )

module _ {W : Type 0} (send : ℕ → Body → Io W (Unit {0})) (service : LogService W) where
  abbrev copied : ℕ → String → Job → Io W (Unit {0})
  copied fuel id job =
      find_streams service (some (old_style_logs service id job) ∷ new_style_logs service job ∷ [])
        (inl [])
      >>= copy_logs send service fuel

  to_copied :
      (fuel : ℕ) (id : String) (job : Job) (w w' : W)
      → service.find_one id w ≡ (ok job, w')
      → fetch_logs send service fuel "text" id w ≡ copied fuel id job w'
  unfolding fetch_logs respond
  to_copied fuel id job w w' h =
      ap (λ r. bind_outcome (attempt_outcome r.0) (answer_to send (copied fuel id)) r.1) h

  -- For a job that is found, whose log CloudWatch lists by one of its two prefixes and serves on
  -- given pages, and with fuel for each of them, FetchLogs does what one loop over the messages of
  -- all pages does after the code 200.
  pub fetch_logs_lem :
      (fuel : ℕ) (id : String) (job : Job) (stream : Option String) {events : List (Option String)}
      {more : List (List (Option String))} (w w' : W)
      → service.find_one id w ≡ (ok job, w')
      → FoundAt service id job stream
      → Followed service stream none events more
      → length more < fuel
      → fetch_logs send service fuel "text" id w
        ≡ (service.write_header 200
              >> (write_events service (all_events service events more) 0 >>= λ _. pure tt))
            w'
  unfolding copy_logs
  fetch_logs_lem fuel id job stream {events} {more} w w' h found pages enough =
      let (others, e) = found_lem service id job stream w' found in
      let header = service.write_header 200 w' in
      to_copied fuel id job w w' h
      ∙ ap (λ r. bind_outcome r.0 (copy_logs send service fuel) r.1) e
      ∙ bind-ext header.0 (λ _. copy_events service fuel stream none 0)
          (λ _. write_events service (all_events service events more) 0 >>= λ _. pure tt) header.1
          (λ _. copy_events_lem service stream fuel 0 header.1 pages enough)

  -- For a job that is found and has no log stream of its own, an error of CloudWatch in the search
  -- by its name is forgotten: the answer is an empty log with the code 200.
  pub fetch_logs-forgets :
      (fuel : ℕ) (id : String) (job : Job) (e : Error) (w w' w'' : W)
      → service.find_one id w ≡ (ok job, w')
      → service.describe_log_streams (old_style_logs service id job) w' ≡ (err e, w'')
      → new_style_logs service job ≡ none
      → fetch_logs send service fuel "text" id w ≡ (service.write_header 200 >> service.flush) w''
  unfolding copy_logs find_streams
  fetch_logs-forgets fuel id job e w w' w'' h d n =
      to_copied fuel id job w w' h
      ∙ ap
          (λ o.
            bind_outcome
              (find_streams service (some (old_style_logs service id job) ∷ o ∷ []) (inl []) w').0
              (copy_logs send service fuel)
              (find_streams service (some (old_style_logs service id job) ∷ o ∷ []) (inl []) w').1)
          n
      ∙ rw d refl
