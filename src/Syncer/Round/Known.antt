-- ===== src/Syncer/Round/Known.antt =====
-- Which jobs a round of syncer/batchsync.go takes as known to AWS Batch.
use batchiepatchie.Prelude.{
  ℕ, ◌<◌, String, ◌≡◌, refl, sym, subst, ◌∙◌, ap, true, Option, none, some, List, [], ◌∷◌, ◌++◌,
  ◌==◌, eq_iff, arith, length, All, Bool-cases, ◌⊎◌, inl, inr,
}
use batchiepatchie.Prelude.Dict.{member, lookup, insert, keys, member-append, member-keys-insert}
use batchiepatchie.Prelude.Int.{ℤ}
use batchiepatchie.Prelude.Io.{Io, ok, bind_outcome, bind-ok, ◌>>=◌, ◌>>◌, pure}
use batchiepatchie.Jobs.{Job}
use batchiepatchie.Aws.{JobListing, JobDetail, Batch}
use batchiepatchie.Syncer.Listing.{Listings, Details, add_details, do_description_sync}
use batchiepatchie.Syncer.Listing.Batches.{
  describe_page-batches, batches, batches_lem, describe_batches, joined,
}
use batchiepatchie.Syncer.Listing.Pages.{Page, Lists, last_of, all_listings, list_pages_lem}
use batchiepatchie.Syncer.Convert.{make_job, container_timeout}
use batchiepatchie.Syncer.Round.{
  Storer, Progress, Built, count_job, command_of, add_job, build_job, build_jobs, sync_queue,
}

lookup-member {ℓ} :
    {V : Type ℓ} (k : String) (m : List (String × V)) (v : V)
    → lookup k m ≡ some v
    → member k (keys m) ≡ true
unfolding lookup
lookup-member k [] v h = cc
lookup-member k ((j, w) ∷ m) v h = ground (arith, lookup-member k m v)

-- Every key of a map has a property.
abbrev pub KeysIn {ℓ} : {V : Type ℓ} → (String → Type 0) → List (String × V) → Type 0
KeysIn S m = (k : String) → member k (keys m) ≡ true → S k

insert-KeysIn {ℓ} :
    {V : Type ℓ} (S : String → Type 0) (id : String) (v : V) (m : List (String × V))
    → S id
    → KeysIn S m
    → KeysIn S (insert id v m)
insert-KeysIn S id v m h s k mem = elim (Bool-cases (id == k)) [
  | inl e ↦ subst S ((eq_iff id k).0 e) h
  | inr e ↦ s k (ground (arith, member-keys-insert id k v m))
]

module _ {W : Type 0} (aws : Batch W) where
  open aws use {describe_jobs}

  -- DescribeJobs answers for jobs that it was asked about.
  abbrev pub AnswersAsked : Type 0
  AnswersAsked =
      (ids : List String) (w : W) (descs : List JobDetail)
      → (describe_jobs ids w).0 ≡ ok descs
      → All (λ d. (id : String) × (d.job_id ≡ some id) × (member id ids ≡ true)) descs

module _ {W : Type 0} (aws : Batch W) (answers : AnswersAsked aws) (S : String → Type 0) where
  add_details-KeysIn :
      (ids : List String) (descs : List JobDetail) (results : Details) (w : W) {r : Details}
      → ((k : String) → member k ids ≡ true → S k)
      → All (λ d. (id : String) × (d.job_id ≡ some id) × (member id ids ≡ true)) descs
      → KeysIn S results
      → (add_details aws descs results w).0 ≡ ok r
      → KeysIn S r
  unfolding add_details
  add_details-KeysIn ids [] results w asked a s h = subst (KeysIn S) (cc) s
  add_details-KeysIn ids (d ∷ descs) results w asked a s h =
      let (id, p, q) = a.0 in
      add_details-KeysIn ids descs (insert id d results) w asked a.1
        (insert-KeysIn S id d results (asked id q) s) (simp p at h)

  sync-KeysIn :
      (ids : List String) (results : Details) (w : W) {r : Details}
      → ((k : String) → member k ids ≡ true → S k)
      → KeysIn S results
      → (do_description_sync aws ids results w).0 ≡ ok r
      → KeysIn S r
  unfolding do_description_sync
  sync-KeysIn ids results w asked s h =
      let c = aws.describe_jobs ids w in
      let (descs, p, q) = bind-ok c.0 (λ descs. add_details aws descs results) c.1 h in
      add_details-KeysIn ids descs results c.1 asked (answers ids w descs p) s (rw q at h)

  describe_batches-KeysIn :
      (bs : List (List String)) (results : Details) (w : W) {r : Details}
      → ((k : String) → member k (joined bs) ≡ true → S k)
      → KeysIn S results
      → (describe_batches aws bs results w).0 ≡ ok r
      → KeysIn S r
  unfolding describe_batches
  describe_batches-KeysIn [] results w asked s h = subst (KeysIn S) (cc) s
  describe_batches-KeysIn (b ∷ bs) results w asked s h =
      let c = do_description_sync aws b results w in
      let (r, p, q) = bind-ok c.0 (describe_batches aws bs) c.1 h in
      describe_batches-KeysIn bs r c.1
        (λ k m. asked k (ground (arith, member-append k b (joined bs))))
        (sync-KeysIn b results w (λ k m. asked k (ground (arith, member-append k b (joined bs)))) s
          p)
        (rw q at h)

kept :
    (S : String → Type 0) (b b' : Built)
    → ok b ≡ ok b'
    → KeysIn S b.progress.known
    → KeysIn S b'.progress.known
kept S b b' e s = subst (λ (x : Built). KeysIn S x.progress.known) {x = b} {y = b'} (cc) s

module _ {W : Type 0} (aws : Batch W) (storer : Storer W) (S : String → Type 0) where
  add_job-KeysIn :
      (queue id : String) (job : JobListing) (desc : JobDetail) (timeout : ℤ) (b : Built)
      (command : Option String) (w : W) {b' : Built}
      → S id
      → KeysIn S b.progress.known
      → (add_job aws storer queue id job desc timeout b command w).0 ≡ ok b'
      → KeysIn S b'.progress.known
  unfolding add_job
  add_job-KeysIn queue id job desc timeout b none w {b'} i s h = kept S b b' h s
  add_job-KeysIn queue id job desc timeout b (some command) w {b'} i s h =
      let t = aws.time_now w in
      let rest : Job → Io W Built = λ made. pure (record {
        jobs = b.jobs ++ made ∷ [];
        progress = record {
          known = insert id true b.progress.known;
          summaries = b.progress.summaries;
        };
      }) in
      let (now, p, q) =
        bind-ok t.0 (λ now. make_job now queue command timeout job desc >>= rest) t.1 h in
      let m = make_job now queue command timeout job desc t.1 in
      let (made, p', q') = bind-ok m.0 rest m.1 (rw q at h) in
      let e : ok (record {
        jobs = b.jobs ++ made ∷ [];
        progress = record {
          known = insert id true b.progress.known;
          summaries = b.progress.summaries;
        };
      })
          ≡ ok b' =
        sym (ap (λ r. r.0) q') ∙ (rw q at h) in
      kept S
        (record {
          jobs = b.jobs ++ made ∷ [];
          progress = record {
            known = insert id true b.progress.known;
            summaries = b.progress.summaries;
          };
        })
        b' e (insert-KeysIn S id true b.progress.known i s)

  build_job-KeysIn :
      (queue id : String) (job : JobListing) (b : Built) (o : Option JobDetail) (w : W) {b' : Built}
      → ((desc : JobDetail) → o ≡ some desc → S id)
      → KeysIn S b.progress.known
      → (build_job aws storer queue id job b o w).0 ≡ ok b'
      → KeysIn S b'.progress.known
  unfolding build_job
  build_job-KeysIn queue id job b none w {b'} i s h = kept S b b' h s
  build_job-KeysIn queue id job b (some desc) w i s h =
      let c = container_timeout desc.container w in
      let b₁ : Built = record b {
        progress = record {
          known = b.progress.known;
          summaries = count_job queue desc.status b.progress.summaries;
        };
      } in
      let (timeout, p, q) =
        bind-ok c.0
          (λ timeout.
            add_job aws storer queue id job desc timeout b₁ (command_of aws storer desc.container))
          c.1 h in
      add_job-KeysIn queue id job desc timeout b₁ (command_of aws storer desc.container) c.1
        (i desc refl) s (rw q at h)

  build_jobs-KeysIn :
      (queue : String) (details : Details) (listings : Listings) (b : Built) (w : W) {b' : Built}
      → KeysIn S details
      → KeysIn S b.progress.known
      → (build_jobs aws storer queue details listings b w).0 ≡ ok b'
      → KeysIn S b'.progress.known
  unfolding build_jobs
  build_jobs-KeysIn queue details [] b w {b'} d s h = kept S b b' h s
  build_jobs-KeysIn queue details ((id, job) ∷ rest) b w d s h =
      let c = build_job aws storer queue id job b (lookup id details) w in
      let (b₁, p, q) = bind-ok c.0 (build_jobs aws storer queue details rest) c.1 h in
      build_jobs-KeysIn queue details rest b₁ c.1 d
        (build_job-KeysIn queue id job b (lookup id details) w
          (λ desc e. d id (lookup-member id details desc e)) s p)
        (rw q at h)

module _ {W : Type 0} (aws : Batch W) (storer : Storer W) (answers : AnswersAsked aws) where
  -- When AWS lists a queue on these pages, DescribeJobs answers only for what it is asked, and the
  -- synchronisation of the queue returns, then every job that it added to the known ones stands on
  -- the last page.
  pub sync_queue-known :
      (fuel : ℕ) (status queue : String) {page : Page} {more : List Page} {w w' : W} (p : Progress)
      {p' : Progress}
      → Lists aws queue status none page more w w'
      → length more < fuel
      → (sync_queue aws storer fuel status queue p w).0 ≡ ok p'
      → (k : String) → member k (keys p'.known) ≡ true
      → (member k (keys p.known) ≡ true) ⊎ (member k (last_of page more).ids ≡ true)
  unfolding sync_queue
  sync_queue-known fuel status queue {page} {more} {w} {w'} p {p'} l f h =
      let S : String → Type 0 =
        λ k. (member k (keys p.known) ≡ true) ⊎ (member k (last_of page more).ids ≡ true) in
      let last = last_of page more in
      let listed = all_listings page more [] in
      let b : Built = record { jobs = []; progress = p } in
      let stored : Built → Io W Progress =
        λ built. storer.store built.jobs >> pure built.progress in
      let after : Details → Io W Progress =
        λ details. build_jobs aws storer queue details listed b >>= stored in
      let d = describe_batches aws (batches last.ids []) [] w' in
      let t = describe_page-batches aws last.output.job_summary_list last.ids [] [] w' last.named in
      let h' : (bind_outcome d.0 after d.1).0 ≡ ok p' =
        rw (list_pages_lem aws fuel queue status [] l f, t) at h in
      let (details, e, q) = bind-ok d.0 after d.1 h' in
      let built = build_jobs aws storer queue details listed b d.1 in
      let h₁ : (bind_outcome built.0 stored built.1).0 ≡ ok p' = rw q at h' in
      let (r, e', q') = bind-ok built.0 stored built.1 h₁ in
      let c = storer.store r.jobs built.1 in
      let h₂ : (bind_outcome c.0 (λ _. pure r.progress) c.1).0 ≡ ok p' = rw q' at h₁ in
      let (_, _, q₂) = bind-ok c.0 (λ _. pure r.progress) c.1 h₂ in
      let k₁ : KeysIn S details =
        describe_batches-KeysIn aws answers S (batches last.ids []) [] w'
          (λ k m. inr (rw ((batches_lem last.ids [] (omega arith)).0) at m)) (λ k m. absurd (cc))
          e in
      let k₂ = build_jobs-KeysIn aws storer S queue details listed b d.1 k₁ (λ k m. inl m) e' in
      let e₂ : ok r.progress ≡ ok p' = rw q₂ at h₂ in
      kept S r (record { jobs = r.jobs; progress = p' }) (cc) k₂
