-- ===== src/Handlers/Logs/Pages.antt =====
-- The loops of `FetchLogs` of handlers/handlers.go, against one loop over all messages of a log.
use batchiepatchie.Prelude.{
  sym, ap, ℕ, zero, suc, ◌<◌, String, true, false, ◌≡◌, refl, ◌∙◌, Option, none, some, List, [],
  ◌∷◌, ◌++◌, arith, length, if◌then◌else◌, ltb,
}
use batchiepatchie.Prelude.Text.{concat}
use batchiepatchie.Prelude.Io.{
  Io, Outcome, ok, err, panic, hang, bind_outcome, bind-ext, ◌>>=◌, ◌>>◌, pure,
}
use batchiepatchie.Handlers.Logs.{LogService, write_events, is_last, copy_events}

outcome_assoc :
    {W A B C : Type 0} (r : Outcome A) (f : A → Io W B) (g : B → Io W C) (w : W)
    → bind_outcome (bind_outcome r f w).0 g (bind_outcome r f w).1
      ≡ bind_outcome r (λ a. f a >>= g) w
outcome_assoc (ok a) f g w = refl
outcome_assoc (err e) f g w = refl
outcome_assoc panic f g w = refl
outcome_assoc hang f g w = refl

-- A call before two programs that do the same.
then_assoc :
    {W A B : Type 0} (m : Io W (Unit {0})) (k : Io W A) (k' : Io W B) (g : A → Io W B)
    → ((w : W) → k' w ≡ (k >>= g) w)
    → (w : W) → (m >> k') w ≡ ((m >> k) >>= g) w
then_assoc m k k' g h w =
    bind-ext (m w).0 (λ _. k') (λ _. k >>= g) (m w).1 (λ _. h (m w).1)
    ∙ sym (outcome_assoc (m w).0 (λ _. k) g (m w).1)

module _ {W : Type 0} (service : LogService W) where
  write-append :
      (xs ys : List (Option String)) (n : ℕ) (w : W)
      → write_events service (xs ++ ys) n w
        ≡ (write_events service xs n >>= write_events service ys) w
  unfolding write_events
  write-append [] ys n w = refl
  write-append (none ∷ xs) ys n w = refl
  write-append (some m ∷ xs) ys n w =
      let writes = service.write (concat m "\n") in
      let flushes : Io W (Unit {0}) = if ltb (suc n) 1000 then pure tt else service.flush in
      let rest = write_events service xs (suc n) in
      let both = write_events service (xs ++ ys) (suc n) in
      then_assoc writes (flushes >> rest) (flushes >> both) (write_events service ys)
        (then_assoc flushes rest both (write_events service ys) (write-append xs ys (suc n))) w

  -- The pages of a log stream from a token on, as CloudWatch serves them: a page is the last one if
  -- it has no token, or the token that it was asked for by.
  pub data Followed (stream : Option String)
      : Option String → List (Option String) → List (List (Option String)) → Type 0 where
    last_page :
        {token next : Option String} {events : List (Option String)}
        → ((w : W)
            → service.get_log_events stream token w
              ≡ (ok (record { events = events; next_forward_token = next }), w))
        → is_last service token next ≡ true
        → Followed stream token events []
    more_pages :
        {token next : Option String} {events following : List (Option String)}
        {more : List (List (Option String))}
        → ((w : W)
            → service.get_log_events stream token w
              ≡ (ok (record { events = events; next_forward_token = next }), w))
        → is_last service token next ≡ false
        → Followed stream next following more
        → Followed stream token events (following ∷ more)

  abbrev pub all_events : List (Option String) → List (List (Option String)) → List (Option String)
  all_events events [] = events
  all_events events (next ∷ more) = events ++ all_events next more

  -- When CloudWatch serves a log on these pages from a token on, whatever the handler writes in
  -- between, and with fuel for each of them, the loop over the pages does what one loop over all
  -- their messages does: it writes them all in order, or ends in the first error of a write.
  pub copy_events_lem :
      (stream : Option String) (fuel : ℕ) {token : Option String} {events : List (Option String)}
      {more : List (List (Option String))} (n : ℕ) (w : W)
      → Followed stream token events more
      → length more < fuel
      → copy_events service fuel stream token n w
        ≡ (write_events service (all_events events more) n >>= λ _. pure tt) w
  unfolding copy_events
  copy_events_lem stream zero n w p h = absurd (omega arith)
  copy_events_lem stream (suc fuel) n w (last_page {events} e l) h = rw (e w) (
      bind-ext (write_events service events n w).0 _ (λ _. pure tt)
        (write_events service events n w).1 λ a. rw l)
  copy_events_lem stream (suc fuel) n w (more_pages {events} {following} {more} e l p) h =
      let c = write_events service events n w in
      rw (e w) (
        bind-ext c.0 _ (λ a. write_events service (all_events following more) a >>= λ _. pure tt)
          c.1 (λ a. rw l (copy_events_lem stream fuel a c.1 p (omega arith)))
        ∙ sym (
            outcome_assoc c.0 (write_events service (all_events following more)) (λ _. pure tt) c.1)
        ∙ ap (λ r. bind_outcome r.0 (λ _. pure tt) r.1)
            (sym (write-append events (all_events following more) n w)))
