-- ===== src/Handlers/Queues.antt =====
-- `ListAllJobQueues` of handlers/handlers.go, whose loop ends by the token that it sent.
use mathlib.Core.List.{append_assoc, append-nil}
use batchiepatchie.Prelude.{
  ℕ, suc, String, ◌≡◌, refl, ap, ◌∙◌, Option, none, some, List, [], ◌∷◌, ◌++◌,
}
use batchiepatchie.Prelude.Io.{Io, ok}
use batchiepatchie.Aws.{JobQueueDetail}
use batchiepatchie.Aws.Paging.{PageOf}
use batchiepatchie.Handlers.{Body, names_body, add_names, list_pages, list_all_job_queues, respond}

-- The queues with these names, in order.
pub data Named : List JobQueueDetail → List String → Type 0 where
  no_queues : Named [] []
  named_queue :
      {d : JobQueueDetail} {ds : List JobQueueDetail} {name : String} {names : List String}
      → d.job_queue_name ≡ some name
      → Named ds names
      → Named (d ∷ ds) (name ∷ names)

add_names_lem :
    {W : Type 0} {ds : List JobQueueDetail} {names : List String} (before : List String) (w : W)
    → Named ds names
    → add_names ds before w ≡ (ok (before ++ names), w)
unfolding add_names
add_names_lem before w no_queues = rw (append-nil before) refl
add_names_lem before w (named_queue {d} {ds} {name} {names} e p) = rw e (
    add_names_lem (before ++ name ∷ []) w p
    ∙ ap (λ l. (ok l, w)) (append_assoc before (name ∷ []) names))

-- Whatever token the first page has for the next, the answer is the names of the first page: no
-- other page is asked for, with any fuel.
pub list_all_job_queues_lem :
    {W : Type 0} (send : ℕ → Body → Io W (Unit {0}))
    (describe : Option String → Io W (PageOf JobQueueDetail)) (fuel : ℕ)
    (page : PageOf JobQueueDetail) (names : List String) (w w' : W)
    → describe none w ≡ (ok page, w')
    → Named page.items names
    → list_all_job_queues send describe (suc fuel) w ≡ send 200 (names_body names) w'
unfolding list_all_job_queues list_pages respond
list_all_job_queues_lem send describe fuel page names w w' e p =
    rw e (rw (add_names_lem {names = names} [] w' p))
