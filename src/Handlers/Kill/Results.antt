-- ===== src/Handlers/Kill/Results.antt =====
-- What `KillMany` of handlers/handlers.go answers.
use batchiepatchie.Prelude.{
  ℕ, String, ◌≡◌, refl, List, [], ◌∷◌, ◌⊎◌, inl, inr, arith, eq_iff, eq_refl,
}
use batchiepatchie.Prelude.Dict.{insert, insert_all}
use batchiepatchie.Prelude.Io.{Io, Error, Returns, ok}
use batchiepatchie.Handlers.{Body, results_body}
use batchiepatchie.Handlers.Kill.{reason, kill_results, kill_many, note_error}

-- The world after each job of a list was killed, in order.
abbrev pub after_kills : {W : Type 0} → (String → String → Io W (Unit {0})) → List String → W → W
after_kills kill [] w = w
after_kills kill (id ∷ ids) w = after_kills kill ids (kill id reason w).1

insert_again :
    (k v v' : String) (m : List (String × String)) → insert k v (insert k v' m) ≡ insert k v m
unfolding insert
insert_again k v v' [] = rw (eq_refl k)
insert_again k v v' ((j, x) ∷ m) = ground (arith, eq_iff j k, eq_refl k, insert_again k v v' m)

insert-note_error :
    (id : String) (r : Unit {0} ⊎ Error) (m : List (String × String))
    → insert id "OK" (note_error id r m) ≡ insert id "OK" m
insert-note_error id (inl u) m = refl
insert-note_error id (inr e) m = insert_again id "OK" e m

kill_results_lem :
    {W : Type 0} (kill : String → String → Io W (Unit {0}))
    → ((id : String) (w : W) → Returns (kill id reason w).0)
    → (ids : List String) (m : List (String × String)) (w : W)
    → kill_results kill ids m w ≡ (ok (insert_all "OK" ids m), after_kills kill ids w)
unfolding kill_results insert_all
kill_results_lem kill returns [] m w = refl
kill_results_lem kill returns (id ∷ ids) m w =
    let next = kill_results_lem kill returns ids (insert id "OK" m) (kill id reason w).1 in
    elim (returns id w) [
      | inl (u, e) ↦ rw e next
      | inr (x, e) ↦ rw e (rw (insert-note_error id (inr x) m) next)
    ]

-- A killer whose calls return, with errors or without, is called for every id of the request, in
-- order, and the answer says "OK" of each id, whichever of the calls failed.
pub kill_many_lem :
    {W : Type 0} (send : ℕ → Body → Io W (Unit {0})) (kill : String → String → Io W (Unit {0}))
    (ids : List String) (w : W)
    → ((id : String) (w : W) → Returns (kill id reason w).0)
    → kill_many send kill (inl ids) w
      ≡ send 200 (results_body (insert_all "OK" ids [])) (after_kills kill ids w)
unfolding kill_many
kill_many_lem send kill ids w returns = rw (kill_results_lem kill returns ids [] w)
