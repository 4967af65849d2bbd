-- ===== src/Handlers/Kill.antt =====
-- handlers/handlers.go: the requests to terminate jobs.
pub mod Results
use batchiepatchie.Prelude.{ℕ, String, List, [], ◌∷◌, ◌⊎◌, inl, inr}
use batchiepatchie.Prelude.Dict.{insert}
use batchiepatchie.Prelude.Io.{Io, Error, attempt, fail, ◌>>=◌, ◌>>◌, pure}
use batchiepatchie.Handlers.{Body, error_body, text_body, results_body, respond}

abbrev pub reason : String
reason = "terminated from UI"

-- `results[value] = err.Error()`, if there is an error.
abbrev pub note_error : String → Unit {0} ⊎ Error → List (String × String) → List (String × String)
note_error id (inl u) results = results
note_error id (inr e) results = insert id e results

-- `kill` is `KillOne` of the killer, by job and reason.
module _ {W : Type 0} (kill : String → String → Io W (Unit {0})) where
  -- The loop of `KillMany`.
  unfoldable pub kill_results : List String → List (String × String) → Io W (List (String × String))
  kill_results [] results = pure results
  kill_results (id ∷ ids) results = do
    r ← attempt (kill id reason)
    kill_results ids (insert id "OK" (note_error id r results))

module _ {W : Type 0} (send : ℕ → Body → Io W (Unit {0}))
    (kill : String → String → Io W (Unit {0})) where
  -- `inl` is the ids of a request's body, `inr` why it cannot be read.
  unfoldable pub kill_many : List String ⊎ Error → Io W (Unit {0})
  kill_many (inr e) = send 400 (text_body "{\"error\": \"Cannot deserialize\"}") >> fail e
  kill_many (inl ids) = kill_results kill ids [] >>= λ results. send 200 (results_body results)

  unfoldable pub kill_one : String ⊎ Error → Io W (Unit {0})
  kill_one (inr e) = fail e
  kill_one (inl id) = respond send (kill id reason) (λ _. send 200 (text_body id))
