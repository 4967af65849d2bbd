-- ===== src/Program/Preparations.antt =====
-- The preparations of batchiepatchie.go return no error: one that they meet is fatal.
use batchiepatchie.Prelude.{String, ◌≢◌, ◌⊎◌, inl, inr, Option, none, some, List, ◌==◌, Bool-cases}
use batchiepatchie.Prelude.Io.{
  Io, Outcome, Error, ok, err, panic, hang, attempt, attempt_outcome, pure, ◌>>=◌, ◌>>◌,
  bind_outcome,
}
use batchiepatchie.Config.{Config, read_configuration, or_fatal}
use batchiepatchie.Store.Connection.{NewStore, new_postgresql_store}
use batchiepatchie.Program.{
  Machine, configuration_file, of_option, fatal, config_service, set_up_log_entries_hooks,
  connect_logs, tracer_of, or_basic, index_of, fetch_index, prepare_with, prepare_from, prepare,
  with_index, with_killer, with_storage, trace, open_storage, act, log_host,
}

-- A call that returns no error.
abbrev NeverErrs : {W A : Type 0} → Io W A → Type 0
NeverErrs {W} m = (w : W) (e : Error) → (m w).0 ≢ err e

outcome-NeverErrs :
    {W A B : Type 0} (r : Outcome A) (f : A → Io W B) (w : W) (e : Error)
    → r ≢ err e
    → ((a : A) → NeverErrs (f a))
    → (bind_outcome r f w).0 ≢ err e
outcome-NeverErrs (ok a) f w e h k = k a w e
outcome-NeverErrs (err d) f w e h k = λ p. h (cc p)
outcome-NeverErrs panic f w e h k = λ p. cc
outcome-NeverErrs hang f w e h k = λ p. cc

then-NeverErrs :
    {W A B : Type 0} (m : Io W A) (f : A → Io W B)
    → NeverErrs m
    → ((a : A) → NeverErrs (f a))
    → NeverErrs (m >>= f)
then-NeverErrs m f h k w e = outcome-NeverErrs (m w).0 f (m w).1 e (h w e) k

attempt_outcome-NeverErrs : {A : Type 0} (r : Outcome A) (e : Error) → attempt_outcome r ≢ err e
attempt_outcome-NeverErrs (ok a) e = λ p. cc
attempt_outcome-NeverErrs (err d) e = λ p. cc
attempt_outcome-NeverErrs panic e = λ p. cc
attempt_outcome-NeverErrs hang e = λ p. cc

attempt-NeverErrs : {W A : Type 0} (m : Io W A) → NeverErrs (attempt m)
attempt-NeverErrs m w e = attempt_outcome-NeverErrs (m w).0 e

pure-NeverErrs : {W A : Type 0} (a : A) → NeverErrs (pure {W = W} a)
pure-NeverErrs a w e p = cc

or_fatal-NeverErrs : {W A : Type 0} (r : A ⊎ Error) → NeverErrs (or_fatal {W = W} r)
or_fatal-NeverErrs (inl a) w e p = cc
or_fatal-NeverErrs (inr d) w e p = cc

module _ {W Connection Killer Hook Client Object : Type 0}
    (machine : Machine W Connection Killer Hook Client Object) where
  fatal-NeverErrs : {A : Type 0} (m : Io W A) → NeverErrs (fatal machine m)
  fatal-NeverErrs m = then-NeverErrs (attempt m) or_fatal (attempt-NeverErrs m) or_fatal-NeverErrs

  act-NeverErrs : (change : W → W) → NeverErrs (act machine change)
  act-NeverErrs change w e p = cc

  connect_logs-NeverErrs : (c : Config) → NeverErrs (connect_logs machine c)
  unfolding connect_logs set_up_log_entries_hooks
  connect_logs-NeverErrs c = elim (Bool-cases (c.log_entries_key == "")) [
    | inl h ↦ rw h (pure-NeverErrs tt)
    | inr h ↦ rw h (
        then-NeverErrs (fatal machine (machine.new_logentries_hook (log_host c) c.log_entries_key))
          (λ hook. act machine (machine.add_hook hook))
          (fatal-NeverErrs (machine.new_logentries_hook (log_host c) c.log_entries_key))
          (λ hook. act-NeverErrs (machine.add_hook hook)))
  ]

  index_of-NeverErrs : (c : Config) → NeverErrs (index_of machine c)
  unfolding index_of
  index_of-NeverErrs c =
      then-NeverErrs (attempt (fetch_index machine c)) (λ fetched. pure (or_basic machine fetched))
        (attempt-NeverErrs (fetch_index machine c))
        (λ fetched. pure-NeverErrs (or_basic machine fetched))

  with_killer-NeverErrs :
      (c : Config) (storage : NewStore Connection) (killer : Killer)
      → NeverErrs (with_killer machine c storage killer)
  with_killer-NeverErrs c storage killer =
      then-NeverErrs (index_of machine c) (with_index machine c storage killer)
        (index_of-NeverErrs c)
        (λ index.
          pure-NeverErrs (record { config = c; storage = storage; killer = killer; index = index }))

  open_storage-NeverErrs : (c : Config) → NeverErrs (open_storage machine c)
  open_storage-NeverErrs c =
      then-NeverErrs (fatal machine (new_postgresql_store machine.driver c))
        (with_storage machine c) (fatal-NeverErrs (new_postgresql_store machine.driver c))
        (λ storage.
          then-NeverErrs (fatal machine machine.new_killer_handler) (with_killer machine c storage)
            (fatal-NeverErrs machine.new_killer_handler) (with_killer-NeverErrs c storage))

  prepare_with-NeverErrs : (c : Config) → NeverErrs (prepare_with machine c)
  unfolding prepare_with
  prepare_with-NeverErrs c =
      then-NeverErrs (connect_logs machine c) (λ _. trace machine c >> open_storage machine c)
        (connect_logs-NeverErrs c)
        (λ _.
          then-NeverErrs (trace machine c) (λ _. open_storage machine c)
            (act-NeverErrs (machine.set_global_tracer (tracer_of machine.getenv c)))
            (λ _. open_storage-NeverErrs c))

  of_option-NeverErrs : (file : Option String) → NeverErrs (of_option machine file)
  of_option-NeverErrs none w e p = cc
  of_option-NeverErrs (some a) w e p = cc

  pub prepare-NeverErrs : (args : List String) → NeverErrs (prepare machine args)
  unfolding prepare
  prepare-NeverErrs args =
      then-NeverErrs (of_option machine (configuration_file machine.getenv args))
        (prepare_from machine) (of_option-NeverErrs (configuration_file machine.getenv args))
        (λ file.
          then-NeverErrs (fatal machine (read_configuration (config_service machine) file))
            (prepare_with machine)
            (fatal-NeverErrs (read_configuration (config_service machine) file))
            prepare_with-NeverErrs)
