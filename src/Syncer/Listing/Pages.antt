-- ===== src/Syncer/Listing/Pages.antt =====
-- The loop of syncer/batchsync.go over the pages of a listing.
use batchiepatchie.Prelude.{
  ℕ, zero, suc, ◌<◌, String, ◌≡◌, refl, Option, none, some, List, [], ◌∷◌, arith, length,
}
use batchiepatchie.Prelude.Dict.{insert}
use batchiepatchie.Prelude.Io.{ok, ◌>>=◌}
use batchiepatchie.Aws.{JobListing, ListJobsOutput, Batch}
use batchiepatchie.Syncer.Listing.{Listings, add_listings, list_pages, describe_page}
use batchiepatchie.Syncer.Listing.Batches.{
  NamedAs, batches, describe_batches, describe_page-batches,
}

-- One page of a listing: its jobs, by their ids, and what AWS sent.
pub record Page : Type 0 where
  pub output : ListJobsOutput
  pub ids : List String
  pub named : NamedAs output.job_summary_list ids

-- What the first pages put into `job_results`.
unfoldable pub add_named : List JobListing → List String → Listings → Listings
add_named [] ids results = results
add_named (job ∷ jobs) [] results = results
add_named (job ∷ jobs) (id ∷ ids) results = add_named jobs ids (insert id job results)

unfoldable pub all_listings : Page → List Page → Listings → Listings
all_listings page [] results = add_named page.output.job_summary_list page.ids results
all_listings page (next ∷ more) results =
    all_listings next more (add_named page.output.job_summary_list page.ids results)

abbrev pub last_of : Page → List Page → Page
last_of page [] = page
last_of page (next ∷ more) = last_of next more

module _ {W : Type 0} (aws : Batch W) where
  open aws use {list_jobs}

  -- From the state `w`, AWS lists the jobs of a queue and status on these pages, and leaves the
  -- world in the state `w'`.
  pub data Lists (queue status : String) : Option String → Page → List Page → W → W → Type 0 where
    last_page :
        {token : Option String} {page : Page} {w w' : W}
        → list_jobs queue status token w ≡ (ok page.output, w')
        → page.output.next_token ≡ none
        → Lists queue status token page [] w w'
    next_page :
        {token : Option String} {page next : Page} {more : List Page} {w w' w'' : W} {t : String}
        → list_jobs queue status token w ≡ (ok page.output, w')
        → page.output.next_token ≡ some t
        → Lists queue status (some t) next more w' w''
        → Lists queue status token page (next ∷ more) w w''

  add_listings_lem :
      (jobs : List JobListing) (ids : List String) (results : Listings) (w : W)
      → NamedAs jobs ids
      → add_listings aws jobs results w ≡ (ok (add_named jobs ids results), w)
  unfolding add_listings add_named
  add_listings_lem [] [] results w h = refl
  add_listings_lem [] (id ∷ ids) results w h = absurd h
  add_listings_lem (job ∷ jobs) [] results w h = absurd h
  add_listings_lem (job ∷ jobs) (id ∷ ids) results w h =
      simp (h.0) (add_listings_lem jobs ids (insert id job results) w h.1)

  -- When AWS lists the jobs on these pages, the loop ends with fuel for each page, with the jobs of
  -- all pages in `job_results` and those of the last page alone in `jobList`.
  pub list_pages_lem :
      (fuel : ℕ) (queue status : String) {token : Option String} {page : Page} {more : List Page}
      {w w' : W} (results : Listings)
      → Lists queue status token page more w w'
      → length more < fuel
      → list_pages aws fuel queue status token results w ≡ (
        ok (record {
          job_results = all_listings page more results;
          last_page = (last_of page more).output.job_summary_list;
        }),
        w',
      )
  unfolding list_pages all_listings
  list_pages_lem zero queue status results l h = absurd (omega arith)
  list_pages_lem (suc fuel) queue status {page = page} {w' = w'} results (last_page e t) h =
      rw (e, add_listings_lem page.output.job_summary_list page.ids results w' page.named, t)
  list_pages_lem (suc fuel) queue status {page = page} results (next_page {w' = v} e t l) h =
      rw (e, add_listings_lem page.output.job_summary_list page.ids results v page.named, t)
        (list_pages_lem fuel queue status (add_named page.output.job_summary_list page.ids results)
          l (omega arith))

  -- When AWS lists the jobs on these pages and the fuel passes their number, the descriptions that
  -- follow the listing are asked for the jobs of the last page, and for no other.
  pub described_last_page :
      (fuel : ℕ) (queue status : String) {page : Page} {more : List Page} {w w' : W}
      → Lists queue status none page more w w'
      → length more < fuel
      → (list_pages aws fuel queue status none [] >>= λ l. describe_page aws l.last_page [] []) w
        ≡ describe_batches aws (batches (last_of page more).ids []) [] w'
  described_last_page fuel queue status {page} {more} {w} {w'} l h =
      rw (list_pages_lem fuel queue status [] l h) (
        describe_page-batches aws (last_of page more).output.job_summary_list
          (last_of page more).ids [] [] w' (last_of page more).named)
