-- ===== src/Tests/Rounds.antt =====
-- The theorems about a round of the syncer, over concrete answers of AWS Batch: the queue "gpu"
-- has one job on each of two pages.
use batchiepatchie.Prelude.{
  ℕ, suc, String, true, ◌≡◌, refl, subst, ◌⊎◌, Option, none, some, List, [], ◌∷◌, eq_refl, arith,
  All, ◌≤◌, length,
}
use batchiepatchie.Prelude.Dict.{member, keys, lookup, insert}
use batchiepatchie.Prelude.Io.{ok}
use batchiepatchie.Aws.{JobListing, ListJobsOutput, JobDetail, Batch}
use batchiepatchie.Syncer.Listing.{
  max_described, list_pages, describe_page, add_listings, add_details, do_description_sync,
}
use batchiepatchie.Syncer.Listing.Batches.{joined, describe_batches, describe_page_lem}
use batchiepatchie.Syncer.Listing.Pages.{
  Page, Lists, last_page, next_page, all_listings, list_pages_lem,
}
use batchiepatchie.Syncer.Convert.{make_job, find_timeout}
use batchiepatchie.Syncer.Round.{
  Storer, Progress, count_job, add_job, build_job, build_jobs, sync_queue,
}
use batchiepatchie.Syncer.Round.Known.{AnswersAsked, sync_queue-known}

abbrev listing : String → JobListing
listing id = record { job_id = some id; job_name = some "train" }

abbrev detail : String → JobDetail
detail id = record {
  job_id = some id;
  status = some "RUNNING";
  job_definition = some "train:1";
  created_at = some 1500000000000;
  stopped_at = none;
  status_reason = none;
  attempts = [];
  container = none;
  array_properties = none;
}

abbrev details : List String → List JobDetail
details [] = []
details (id ∷ ids) = detail id ∷ details ids

abbrev page_of : Option String → ListJobsOutput
page_of none = record { job_summary_list = listing "a" ∷ []; next_token = some "2" }
page_of (some token) = record { job_summary_list = listing "b" ∷ []; next_token = none }

abbrev aws : Batch ℕ
aws = record {
  list_jobs = λ queue status token n. (ok (page_of token), suc n);
  describe_jobs = λ ids n. (ok (details ids), suc n);
  time_now = λ n. (ok 1500000000000000000, n);
  marshal_command = λ command. some "[]";
}

abbrev storer : Storer ℕ
storer = record {
  store = λ jobs n. (ok tt, suc n);
  update_job_summary_log = λ summaries n. (ok tt, suc n);
  stale_old_jobs = λ ids n. (ok tt, suc n);
}

abbrev first : Page
first = record { output = page_of none; ids = "a" ∷ []; named = (refl, tt) }

abbrev second : Page
second = record { output = page_of (some "2"); ids = "b" ∷ []; named = (refl, tt) }

two_pages : Lists aws "gpu" "RUNNING" none first (second ∷ []) 0 2
two_pages = next_page refl refl (last_page refl refl)

details-asked :
    (asked ids : List String)
    → ((k : String) → member k ids ≡ true → member k asked ≡ true)
    → All (λ d. (id : String) × (d.job_id ≡ some id) × (member id asked ≡ true)) (details ids)
details-asked asked [] h = tt
details-asked asked (id ∷ ids) h =
    ((id, refl, h id (rw (eq_refl id))), details-asked asked ids (λ k m. h k (ground (arith))))

aws-AnswersAsked : AnswersAsked aws
aws-AnswersAsked ids w descs h =
    subst (All (λ d. (id : String) × (d.job_id ≡ some id) × (member id ids ≡ true)))
      {x = details ids} {y = descs} (cc) (details-asked ids ids (λ k m. m))

describe_page_example :
    (bs : List (List String)) × (describe_page aws (listing "a" ∷ listing "b" ∷ []) [] [] 0
      ≡ describe_batches aws bs [] 0)
    × (joined bs ≡ "a" ∷ "b" ∷ [])
    × All (λ b. (1 ≤ length b) × (length b ≤ max_described)) bs
describe_page_example =
    describe_page_lem aws (listing "a" ∷ listing "b" ∷ []) ("a" ∷ "b" ∷ []) [] 0 (refl, (refl, tt))

list_pages_example : list_pages aws 5 "gpu" "RUNNING" none [] 0 ≡ (
  ok (record {
    job_results = all_listings first (second ∷ []) [];
    last_page = second.output.job_summary_list;
  }),
  2,
)
list_pages_example = list_pages_lem aws 5 "gpu" "RUNNING" [] two_pages (omega arith)

abbrev nothing : Progress
nothing = record { known = []; summaries = [] }

abbrev knows_b : Progress
knows_b = record { known = ("b", true) ∷ []; summaries = [] }

sync_queue_run : (sync_queue aws storer 5 "RUNNING" "gpu" nothing 0).0 ≡ ok knows_b
unfolding sync_queue list_pages add_listings describe_page do_description_sync add_details
    build_jobs build_job add_job count_job find_timeout make_job lookup insert
sync_queue_run = refl

sync_queue-known_example : (member "b" (keys nothing.known) ≡ true) ⊎ (member "b" ("b" ∷ []) ≡ true)
sync_queue-known_example =
    sync_queue-known aws storer aws-AnswersAsked 5 "RUNNING" "gpu" nothing two_pages (omega arith)
      sync_queue_run "b" refl
