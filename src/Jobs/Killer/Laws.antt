-- ===== src/Jobs/Killer/Laws.antt =====
-- What the killer does with the calls that fail.
use batchiepatchie.Prelude.{String, ◌≡◌, refl, Option, none, some, List, [], ◌∷◌}
use batchiepatchie.Prelude.Io.{Io, Error, Outcome, ok, err}
use batchiepatchie.Jobs.Killer.{
  Terminator, KillStore, kill_one, kill_each, kill_instances, kill_all, kill_timed_out_jobs,
}

-- The calls of a service that answers each of them: the states it goes through and, in order, the
-- errors that it returned.
pub data Calls {W : Type 0} (call : String → Io W (Unit {0}))
    : List String → W → List Error → W → Type 0 where
  done : {w : W} → Calls call [] w [] w
  answered :
      {id : String} {ids : List String} {w w' w'' : W} {errors : List Error}
      → call id w ≡ (ok tt, w')
      → Calls call ids w' errors w''
      → Calls call (id ∷ ids) w errors w''
  refused :
      {id : String} {ids : List String} {w w' w'' : W} {e : Error} {errors : List Error}
      → call id w ≡ (err e, w')
      → Calls call ids w' errors w''
      → Calls call (id ∷ ids) w (e ∷ errors) w''

-- The last error of a sequence of calls, or the one recorded before.
abbrev pub last_error : Option Error → List Error → Option Error
last_error e [] = e
last_error e (x ∷ errors) = last_error (some x) errors

abbrev pub outcome_of : Option Error → Outcome (Unit {0})
outcome_of none = ok tt
outcome_of (some e) = err e

module _ {W : Type 0} (aws : Terminator W) where
  kill_each_lem :
      {ids : List String} {w w' : W} {errors : List Error} (final_ret : Option Error)
      → Calls (λ id. aws.terminate_instances (id ∷ [])) ids w errors w'
      → kill_each aws ids final_ret w ≡ (outcome_of (last_error final_ret errors), w')
  unfolding kill_each
  kill_each_lem none done = refl
  kill_each_lem (some e) done = refl
  kill_each_lem final_ret (answered e c) = rw e (kill_each_lem final_ret c)
  kill_each_lem final_ret (refused {e = x} e c) = rw e (kill_each_lem (some x) c)

  -- When each call ends in success or in an error, every instance is tried, whatever the calls
  -- before it returned, and the last error is the result.
  pub kill_instances_lem :
      {ids : List String} {w w' : W} {errors : List Error}
      → Calls (λ id. aws.terminate_instances (id ∷ [])) ids w errors w'
      → kill_instances aws ids w ≡ (outcome_of (last_error none errors), w')
  unfolding kill_instances
  kill_instances_lem done = refl
  kill_instances_lem (answered e c) = kill_each_lem none (answered e c)
  kill_instances_lem (refused e c) = kill_each_lem none (refused e c)

module _ {W : Type 0} (aws : Terminator W) (store : KillStore W) where
  kill_all_lem :
      {ids : List String} {w w' : W} {errors : List Error}
      → Calls (λ id. kill_one aws store id "timeout") ids w errors w'
      → kill_all aws store ids w ≡ (ok tt, w')
  unfolding kill_all
  kill_all_lem done = refl
  kill_all_lem (answered e c) = rw e (kill_all_lem c)
  kill_all_lem (refused e c) = rw e (kill_all_lem c)

  -- When the jobs are found and each `KillOne` ends in success or in an error, the round asks for
  -- the end of every job that timed out, in order, and returns without an error.
  pub kill_timed_out_jobs_lem :
      {ids : List String} {w w' w'' : W} {errors : List Error}
      → store.find_timedout_jobs w ≡ (ok ids, w')
      → Calls (λ id. kill_one aws store id "timeout") ids w' errors w''
      → kill_timed_out_jobs aws store w ≡ (ok tt, w'')
  unfolding kill_timed_out_jobs
  kill_timed_out_jobs_lem e c = rw e (kill_all_lem c)
