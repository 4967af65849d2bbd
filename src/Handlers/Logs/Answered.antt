-- ===== src/Handlers/Logs/Answered.antt =====
-- The text that `FetchLogs` of handlers/handlers.go answers.
use batchiepatchie.Prelude.{
  ℕ, suc, ◌<◌, String, ◌≡◌, refl, sym, ap, ◌∙◌, Bool, true, false, Option, none, some, List, [],
  ◌∷◌, map, length, ltb, if◌then◌else◌,
}
use text.Mathlib.TextLemmas.{append-nil, append_assoc}
use batchiepatchie.Prelude.Text.{concat}
use batchiepatchie.Prelude.Io.{Io, Outcome, ok, ◌>>=◌, pure}
use batchiepatchie.Jobs.{Job}
use batchiepatchie.Handlers.{Body}
use batchiepatchie.Handlers.Logs.{LogService, write_events, fetch_logs}
use batchiepatchie.Handlers.Logs.Pages.{Followed, all_events}
use batchiepatchie.Handlers.Logs.Fetched.{FoundAt, fetch_logs_lem}

-- Some texts, each ended by a newline.
abbrev pub lines : List String → String
lines [] = ""
lines (text ∷ texts) = concat text (concat "\n" (lines texts))

module _ {W : Type 0} (service : LogService W) (code : W → ℕ) (body : W → String) where
  -- A call that returns a value, and after which the answer has a code and a body.
  abbrev pub Leaves : {A : Type 0} → ℕ → String → Outcome A × W → Type 0
  Leaves {A} c text end =
      ((value : A) × (end.0 ≡ ok value)) × (code end.1 ≡ c) × (body end.1 ≡ text)

  -- The answer takes what is written, without an error: WriteHeader sets the code, Write adds a
  -- text to the body, and Flush adds nothing.
  pub record IsWriter : Type 0 where
    pub sets_code : (c : ℕ) (w : W) → Leaves c (body w) (service.write_header c w)
    pub adds_text :
        (text : String) (w : W) → Leaves (code w) (concat (body w) text) (service.write text w)
    pub adds_nothing : (w : W) → Leaves (code w) (body w) (service.flush w)

  -- What follows a call that leaves the answer in some state.
  then_Leaves :
      {A B : Type 0} (m : Io W A) (f : A → Io W B) (w : W) {c d : ℕ} {s t : String}
      → Leaves c s (m w)
      → ((a : A) (v : W) → code v ≡ c → body v ≡ s → Leaves d t (f a v))
      → Leaves d t ((m >>= f) w)
  then_Leaves m f w ((a, e), p, q) h = rw e (h a (m w).1 p q)

  one_more :
      (s m rest : String)
      → concat (concat s (concat m "\n")) rest ≡ concat s (concat m (concat "\n" rest))
  one_more s m rest = append_assoc s (concat m "\n") rest ∙ ap (concat s) (append_assoc m "\n" rest)

  flush_sometimes :
      (b : Bool) (w : W)
      → IsWriter
      → Leaves (code w) (body w) ((if b then pure tt else service.flush) w)
  flush_sometimes true w h = ((tt, refl), refl, refl)
  flush_sometimes false w h = h.adds_nothing w

  write_events-lines :
      (messages : List String) (n : ℕ) (w : W) {c : ℕ} {s : String}
      → IsWriter
      → code w ≡ c
      → body w ≡ s
      → Leaves c (concat s (lines messages)) (write_events service (map some messages) n w)
  unfolding write_events
  write_events-lines [] n w {s = s} h p q = ((n, refl), p, q ∙ sym (append-nil s))
  write_events-lines (m ∷ messages) n w {c} {s} h p q =
      then_Leaves (service.write (concat m "\n")) _ w (h.adds_text (concat m "\n") w) λ _ v p' q'.
        then_Leaves (if ltb (suc n) 1000 then pure tt else service.flush) _ v
          (flush_sometimes (ltb (suc n) 1000) v h)
          λ _ u p'' q''. rw (← one_more s m (lines messages)) (
            write_events-lines messages (suc n) u h (p'' ∙ p' ∙ p)
              (q'' ∙ q' ∙ ap (λ b. concat b (concat m "\n")) q))

  -- For a job that is found, whose log CloudWatch lists by one of its two prefixes and serves on
  -- given pages of messages that are not nil, with fuel for each page, and with an answer that takes
  -- what is written without an error, FetchLogs returns no error, answers the code 200, and adds to
  -- the body all messages of the log, in order, each ended by a newline.
  pub fetch_logs-answers :
      (send : ℕ → Body → Io W (Unit {0})) (fuel : ℕ) (id : String) (job : Job)
      (stream : Option String) {events : List (Option String)} {more : List (List (Option String))}
      (messages : List String) (w w' : W)
      → service.find_one id w ≡ (ok job, w')
      → FoundAt service id job stream
      → Followed service stream none events more
      → length more < fuel
      → all_events service events more ≡ map some messages
      → IsWriter
      → Leaves 200 (concat (body w') (lines messages)) (fetch_logs send service fuel "text" id w)
  fetch_logs-answers send fuel id job stream {events} {more} messages w w' h found pages enough same
        writer =
      rw (fetch_logs_lem send service fuel id job stream w w' h found pages enough) (
        rw same (
          then_Leaves (service.write_header 200)
            (λ _. write_events service (map some messages) 0 >>= λ _. pure tt) w'
            (writer.sets_code 200 w')
            λ _ v p q.
              then_Leaves (write_events service (map some messages) 0) (λ _. pure tt) v
                (write_events-lines messages 0 v writer p q) λ _ u p' q'. ((tt, refl), p', q')))
