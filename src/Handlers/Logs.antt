-- ===== src/Handlers/Logs.antt =====
-- handlers/handlers.go: `FetchLogs`, which copies the log of a job from CloudWatch to the answer.
pub mod Pages
pub mod Fetched
pub mod Answered
use batchiepatchie.Prelude.{
  ℕ, zero, suc, ◌<◌, String, Option, none, some, List, [], ◌∷◌, ◌++◌, ◌⊎◌, inl, inr, ◌==◌, eqb, ltb,
  Bool, true, false, if◌then◌else◌, length,
}
use batchiepatchie.Prelude.Text.{concat}
use batchiepatchie.Prelude.Io.{Io, Error, pure, fail, deref, attempt, out_of_fuel, ◌>>=◌, ◌>>◌}
use batchiepatchie.Jobs.{Job}
use batchiepatchie.Handlers.{Body, text_body, failed, respond}

-- cloudwatchlogs.GetLogEventsOutput: the messages, and the token of what follows.
pub record LogEvents : Type 0 where
  pub events : List (Option String)
  pub next_forward_token : Option String

-- What the handler uses of CloudWatch, by the name or the prefix of the log stream, and of the
-- answer. `cut` is a Go slice of a text's first bytes, `size` its length.
pub record LogService (W : Type 0) : Type 0 where
  pub find_one : String → Io W Job
  pub describe_log_streams : String → Io W (List (Option String))
  pub get_log_events : Option String → Option String → Io W LogEvents
  pub write_header : ℕ → Io W (Unit {0})
  pub write : String → Io W (Unit {0})
  pub flush : Io W (Unit {0})
  pub size : String → ℕ
  pub cut : ℕ → String → String

module _ {W : Type 0} (service : LogService W) where
  open service use {describe_log_streams, get_log_events, write, flush, size, cut}

  -- `oldStyleLogs`.
  unfoldable pub old_style_logs : String → Job → String
  old_style_logs id job =
      let name = if ltb 50 (size job.name) then cut 50 job.name else job.name in
      concat name (concat "/" (concat id "/"))

  -- `newStyleLogs`: no name is `none`.
  abbrev pub named : Option String → Option String
  named none = none
  named (some name) = if eqb (size name) 0 then none else some name

  unfoldable pub new_style_logs : Job → Option String
  new_style_logs job = named job.log_stream_name

  -- What `logStreams` and `err` are when a source has no name.
  abbrev pub no_error : List (Option String) ⊎ Error → List (Option String) ⊎ Error
  no_error (inl streams) = inl streams
  no_error (inr e) = inl []

  -- The loop over `logSources`: the first call that finds streams ends it.
  unfoldable pub find_streams :
      List (Option String) → List (Option String) ⊎ Error → Io W (List (Option String) ⊎ Error)
  find_streams [] last = pure last
  find_streams (none ∷ names) last = find_streams names (no_error last)
  find_streams (some name ∷ names) last = do
    r ← attempt (describe_log_streams name)
    elim r [
      | inl (stream ∷ streams) ↦ pure (inl (stream ∷ streams))
      | inl [] ↦ find_streams names (inl [])
      | inr e ↦ find_streams names (inr e)
    ]

  -- The loop over the messages of a page; `pushed` is `lines_pushed`.
  unfoldable pub write_events : List (Option String) → ℕ → Io W ℕ
  write_events [] pushed = pure pushed
  write_events (event ∷ events) pushed = do
    message ← deref event
    write (concat message "\n")
    (if ltb (suc pushed) 1000 then pure tt else flush)
    write_events events (suc pushed)

  -- Whether a page is the last: it has no token, or the one that it was asked for by.
  abbrev pub is_last : Option String → Option String → Bool
  is_last previous none = true
  is_last none (some next) = false
  is_last (some previous) (some next) = previous == next

  -- The loop over the pages, on fuel.
  unfoldable pub copy_events : ℕ → Option String → Option String → ℕ → Io W (Unit {0})
  copy_events zero stream token pushed = out_of_fuel
  copy_events (suc fuel) stream token pushed = do
    page ← get_log_events stream token
    pushed' ← write_events page.events pushed
    elim (is_last token page.next_forward_token) [
      | true ↦ pure tt
      | false ↦ copy_events fuel stream page.next_forward_token pushed'
    ]

  abbrev copy_first : ℕ → List (Option String) → Io W (Unit {0})
  copy_first fuel [] = flush
  copy_first fuel (stream ∷ streams) = copy_events fuel stream none 0

module _ {W : Type 0} (send : ℕ → Body → Io W (Unit {0})) (service : LogService W) where
  unfoldable pub copy_logs : ℕ → List (Option String) ⊎ Error → Io W (Unit {0})
  copy_logs fuel (inr e) = send 500 (text_body e) >> fail e
  copy_logs fuel (inl streams) = service.write_header 200 >> copy_first service fuel streams

  unfoldable pub fetch_logs : ℕ → String → String → Io W (Unit {0})
  fetch_logs fuel format id =
      let logs : Io W (Unit {0}) = respond send (service.find_one id) λ job.
        find_streams service
          (some (old_style_logs service id job) ∷ new_style_logs service job ∷ []) (inl [])
        >>= copy_logs fuel in
      if format == "text"
      then logs
      else send 400 (text_body "Only 'text' format is supported. Add format=text to your query.")
