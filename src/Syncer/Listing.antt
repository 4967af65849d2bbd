-- ===== src/Syncer/Listing.antt =====
-- syncer/batchsync.go: the listing of the jobs of one queue and status, page by page, and their
-- description in batches.
pub mod Batches
pub mod Pages
use batchiepatchie.Prelude.{
  ℕ, zero, suc, String, Option, none, some, List, [], ◌∷◌, ◌++◌, if◌then◌else◌, leb, length,
}
use batchiepatchie.Prelude.Dict.{insert}
use batchiepatchie.Prelude.Io.{Io, ◌>>=◌, ◌>>◌, pure, deref, out_of_fuel}
use batchiepatchie.Aws.{JobListing, ListJobsOutput, JobDetail, Batch}

abbrev pub Listings : Type 0
Listings = List (String × JobListing)

abbrev pub Details : Type 0
Details = List (String × JobDetail)

abbrev pub max_described : ℕ
max_described = 100

-- `job_results` and the last `jobList.JobSummaryList`.
pub record Listed : Type 0 where
  pub job_results : Listings
  pub last_page : List JobListing

module _ {W : Type 0} (aws : Batch W) where
  open aws use {list_jobs, describe_jobs}

  -- `job_results[*job.JobId] = job`, for each job of a page.
  unfoldable pub add_listings : List JobListing → Listings → Io W Listings
  add_listings [] results = pure results
  add_listings (job ∷ jobs) results = do
    id ← deref job.job_id
    add_listings jobs (insert id job results)

  -- The loop over the pages, on fuel.
  unfoldable pub list_pages : ℕ → String → String → Option String → Listings → Io W Listed
  list_pages zero queue status token results = out_of_fuel
  list_pages (suc fuel) queue status token results = do
    page ← list_jobs queue status token
    results' ← add_listings page.job_summary_list results
    elim page.next_token [
      | none ↦ pure (record { job_results = results'; last_page = page.job_summary_list })
      | some next ↦ list_pages fuel queue status (some next) results'
    ]

  -- `job_description_results[*desc.JobId] = desc`, for each job described.
  unfoldable pub add_details : List JobDetail → Details → Io W Details
  add_details [] results = pure results
  add_details (desc ∷ descs) results = do
    id ← deref desc.job_id
    add_details descs (insert id desc results)

  -- `doDescriptionSync`.
  unfoldable pub do_description_sync : List String → Details → Io W Details
  do_description_sync ids results = do descs ← describe_jobs ids; add_details descs results

  -- The description of the jobs of the last page, in batches of at most 100; the second argument
  -- is `describe_jobs.Jobs`.
  unfoldable pub describe_page : List JobListing → List String → Details → Io W Details
  describe_page [] [] results = pure results
  describe_page [] (id ∷ ids) results = do_description_sync (id ∷ ids) results
  describe_page (job ∷ jobs) pending results = do
    id ← deref job.job_id
    let pending' = pending ++ id ∷ []
    let full = do_description_sync pending' results >>= λ results'. describe_page jobs [] results'
    let open_batch = describe_page jobs pending' results
    if leb max_described (length pending') then full else open_batch
