-- ===== src/Syncer/Listing/Batches.antt =====
-- The batches in which syncer/batchsync.go asks for descriptions.
use batchiepatchie.Prelude.{
  ◌≤◌, ◌<◌, String, ◌≡◌, refl, sym, ◌∙◌, some, List, [], ◌∷◌, ◌++◌, arith, if◌then◌else◌, leb,
  length, length-append, All, Bool-cases, inl, inr,
}
use mathlib.Core.List.{append_assoc, append-nil}
use batchiepatchie.Prelude.Io.{Io, bind-ext, bind-pure, ◌>>=◌, pure}
use batchiepatchie.Aws.{JobListing, Batch}
use batchiepatchie.Syncer.Listing.{Details, max_described, do_description_sync, describe_page}

-- The ids of listed jobs, none of which is nil.
abbrev pub NamedAs : List JobListing → List String → Type 0
NamedAs [] [] = Unit {0}
NamedAs [] (id ∷ ids) = ⊥
NamedAs (job ∷ jobs) [] = ⊥
NamedAs (job ∷ jobs) (id ∷ ids) = (job.job_id ≡ some id) × NamedAs jobs ids

-- The batches for the ids that are still to come, after those that are pending.
unfoldable pub batches : List String → List String → List (List String)
batches [] [] = []
batches [] (p ∷ pending) = (p ∷ pending) ∷ []
batches (id ∷ ids) pending =
    let pending' = pending ++ id ∷ [] in
    let full = pending' ∷ batches ids [] in
    let open_batch = batches ids pending' in
    if leb max_described (length pending') then full else open_batch

abbrev pub joined : List (List String) → List String
joined [] = []
joined (b ∷ bs) = b ++ joined bs

abbrev IsBatch : List String → Type 0
IsBatch b = (1 ≤ length b) × (length b ≤ max_described)

-- Every id stands in one batch, in order, and a batch has from 1 to 100 ids.
pub batches_lem :
    (ids pending : List String)
    → length pending < max_described
    → (joined (batches ids pending) ≡ pending ++ ids)
      × All (λ b. (1 ≤ length b) × (length b ≤ max_described)) (batches ids pending)
unfolding batches
batches_lem [] [] h = (refl, tt)
batches_lem [] (p ∷ pending) h = (rw append-nil, ((omega arith, omega arith), tt))
batches_lem (id ∷ ids) pending h =
    elim (Bool-cases (leb max_described (length (pending ++ id ∷ [])))) [
      | inl e ↦
          let (p, q) = batches_lem ids [] (omega arith) in
          let n = length-append pending (id ∷ []) in
          rw e
            (rw p (append_assoc pending (id ∷ []) ids), ((omega (arith, n), omega (arith, n)), q))
      | inr e ↦
          let (p, q) = batches_lem ids (pending ++ id ∷ []) (ground arith) in
          rw e (p ∙ append_assoc pending (id ∷ []) ids, q)
    ]

module _ {W : Type 0} (aws : Batch W) where
  -- One description call for each batch.
  unfoldable pub describe_batches : List (List String) → Details → Io W Details
  describe_batches [] results = pure results
  describe_batches (b ∷ bs) results =
      do_description_sync aws b results >>= λ results'. describe_batches bs results'

  pub describe_page-batches :
      (jobs : List JobListing) (ids pending : List String) (results : Details) (w : W)
      → NamedAs jobs ids
      → describe_page aws jobs pending results w ≡ describe_batches (batches ids pending) results w
  unfolding describe_page batches describe_batches
  describe_page-batches [] [] [] results w h = refl
  describe_page-batches [] [] (p ∷ pending) results w h =
      let r = do_description_sync aws (p ∷ pending) results w in sym (bind-pure r.0 r.1)
  describe_page-batches [] (id ∷ ids) pending results w h = absurd h
  describe_page-batches (job ∷ jobs) [] pending results w h = absurd h
  describe_page-batches (job ∷ jobs) (id ∷ ids) pending results w h =
      let next = pending ++ id ∷ [] in
      let r = do_description_sync aws next results w in
      rw (h.0) (elim (Bool-cases (leb max_described (length next))) [
        | inl e ↦ rw e (
            bind-ext r.0 (describe_page aws jobs []) (describe_batches (batches ids [])) r.1
              (λ results'. describe_page-batches jobs ids [] results' r.1 h.1))
        | inr e ↦ rw e (describe_page-batches jobs ids next results w h.1)
      ])

  -- For a page whose jobs all have ids, the code asks for descriptions in batches that hold every
  -- id once, in order, and that have from 1 to 100 ids each.
  pub describe_page_lem :
      (jobs : List JobListing) (ids : List String) (results : Details) (w : W)
      → NamedAs jobs ids
      → (bs : List (List String)) × (describe_page aws jobs [] results w
          ≡ describe_batches bs results w)
        × (joined bs ≡ ids)
        × All (λ b. (1 ≤ length b) × (length b ≤ max_described)) bs
  describe_page_lem jobs ids results w h =
      let (p, q) = batches_lem ids [] (omega arith) in
      (batches ids [], describe_page-batches jobs ids [] results w h, p, q)
