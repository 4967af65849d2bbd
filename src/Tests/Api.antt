-- ===== src/Tests/Api.antt =====
-- The theorems about the HTTP API, over a concrete framework.
use batchiepatchie.Prelude.{
  ℕ, String, ◌≡◌, refl, arith, Option, none, some, List, [], ◌∷◌, inl, inr,
}
use batchiepatchie.Prelude.Dict.{insert_all}
use batchiepatchie.Prelude.Int.{pos}
use batchiepatchie.Prelude.Io.{◌>>◌, Io, Returns, ok, err}
use batchiepatchie.Prelude.Text.{concat}
use batchiepatchie.Aws.{JobQueueDetail}
use batchiepatchie.Aws.Paging.{PageOf}
use batchiepatchie.Store.Upsert.{store_jobs}
use batchiepatchie.Store.Upsert.Rows.{find_row, written}
use batchiepatchie.Store.Upsert.Events.{status_at}
use batchiepatchie.Handlers.{Body, names_body, results_body, list_all_job_queues}
use batchiepatchie.Handlers.Queues.{no_queues, named_queue, list_all_job_queues_lem}
use batchiepatchie.Handlers.Kill.{kill_many}
use batchiepatchie.Handlers.Kill.Results.{after_kills, kill_many_lem}
use batchiepatchie.Handlers.Logs.{LogEvents, LogService, new_style_logs, fetch_logs}
use batchiepatchie.Handlers.Logs.Pages.{last_page, more_pages}
use batchiepatchie.Handlers.Logs.Fetched.{fetch_logs-forgets}
use batchiepatchie.Handlers.Logs.Answered.{lines, Leaves, fetch_logs-answers}
use batchiepatchie.Handlers.Stats.{duration, interval}
use batchiepatchie.Handlers.Stats.Intervals.{Fits, interval_lem}
use batchiepatchie.Handlers.Notify.{JobStatusNotification, notified_job, job_status_notification}
use batchiepatchie.Handlers.Notify.Stored.{job_status_notification_lem}
use batchiepatchie.Tests.{later, noon, job_with}

-- The world is what was answered.
abbrev Answers : Type 0
Answers = List (ℕ × Body)

abbrev send : ℕ → Body → Io Answers (Unit {0})
send code body w = (ok tt, (code, body) ∷ w)

abbrev queue : String → JobQueueDetail
queue name = record { job_queue_name = some name; compute_environment_order = [] }

-- Two pages of queues.
abbrev describe : Option String → Io Answers (PageOf JobQueueDetail)
describe none w = (ok (record { items = queue "gpu" ∷ []; next_token = some "2" }), w)
describe (some token) w = (ok (record { items = queue "cpu" ∷ []; next_token = none }), w)

list_all_job_queues_example :
    list_all_job_queues send describe 2 [] ≡ (ok tt, (200, names_body ("gpu" ∷ [])) ∷ [])
list_all_job_queues_example =
    list_all_job_queues_lem send describe 1
      (record { items = queue "gpu" ∷ []; next_token = some "2" }) ("gpu" ∷ []) [] [] refl
      (named_queue refl no_queues)

abbrev kill : String → String → Io Answers (Unit {0})
kill id why w = (err "no such job", w)

kill-Returns : (id : String) (w : Answers) → Returns (kill id "terminated from UI" w).0
kill-Returns id w = inr ("no such job", refl)

kill_many_example :
    kill_many send kill (inl ("a" ∷ "b" ∷ [])) []
    ≡ send 200
        (results_body (insert_all "OK" ("a" ∷ "b" ∷ []) []))
        (after_kills kill ("a" ∷ "b" ∷ []) [])
kill_many_example = kill_many_lem send kill ("a" ∷ "b" ∷ []) [] kill-Returns

-- The events after a token: the last page has the token that it is asked for by.
abbrev events_after : Option String → LogEvents
events_after none = record { events = some "one" ∷ []; next_forward_token = some "t" }
events_after (some token) = record { events = some "two" ∷ []; next_forward_token = some token }

-- The world is the text of the answer.
abbrev log_service : LogService String
log_service = record {
  find_one = λ id w. (err "no such job", w);
  describe_log_streams = λ name w. (ok [], w);
  get_log_events = λ stream token w. (ok (events_after token), w);
  write_header = λ code w. (ok tt, w);
  write = λ text w. (ok tt, concat w text);
  flush = λ w. (ok tt, w);
  size = λ text. 0;
  cut = λ n text. text;
}

abbrev listing : LogService String
listing = record log_service {
  find_one = λ id w. (ok (job_with "a" "FAILED" none), w);
  describe_log_streams = λ name w. (ok (some "stream" ∷ []), w);
}

-- The same, where the world is the code and the body of the answer.
abbrev coded : LogService (ℕ × String)
coded = record {
  find_one = λ id w. (ok (job_with "a" "FAILED" none), w);
  describe_log_streams = λ name w. (ok (some "stream" ∷ []), w);
  get_log_events = λ stream token w. (ok (events_after token), w);
  write_header = λ code w. (ok tt, (code, w.1));
  write = λ text w. (ok tt, (w.0, concat w.1 text));
  flush = λ w. (ok tt, w);
  size = λ text. 0;
  cut = λ n text. text;
}

fetch_logs-answers_example :
    Leaves coded
      (λ w. w.0)
      (λ w. w.1)
      200
      (concat "" (lines ("one" ∷ "two" ∷ [])))
      (fetch_logs (λ code body w. (ok tt, w)) coded 3 "text" "a" (0, ""))
fetch_logs-answers_example =
    fetch_logs-answers coded (λ w. w.0) (λ w. w.1) (λ code body w. (ok tt, w)) 3 "a"
      (job_with "a" "FAILED" none) (some "stream") ("one" ∷ "two" ∷ []) (0, "") (0, "") refl
      (inl ([], λ w. refl)) (more_pages (λ w. refl) refl (last_page (λ w. refl) refl)) (omega arith)
      refl
      (record {
        sets_code = λ c w. ((tt, refl), refl, refl);
        adds_text = λ text w. ((tt, refl), refl, refl);
        adds_nothing = λ w. ((tt, refl), refl, refl);
      })

abbrev throttled : LogService String
throttled = record listing { describe_log_streams = λ name w. (err "throttled", w) }

fetch_logs-forgets_example :
    fetch_logs (λ code body w. (ok tt, w)) throttled 3 "text" "a" ""
    ≡ (throttled.write_header 200 >> throttled.flush) ""
unfolding new_style_logs
fetch_logs-forgets_example =
    fetch_logs-forgets (λ code body w. (ok tt, w)) throttled 3 "a" (job_with "a" "FAILED" none)
      "throttled" "" "" "" refl refl refl

interval_example : Fits 7200 (interval (duration (pos 0) (pos 7200)))
interval_example = interval_lem 0 7200 (omega arith) (omega arith)

abbrev pub notification : JobStatusNotification
notification = record {
  time = "";
  detail = record {
    job_name = "train";
    job_id = "a";
    job_queue = "arn:aws:batch:us-west-2:1:job-queue/gpu";
    status = "FAILED";
    created_at = 1500000000000;
    started_at = none;
    container = record {
      image = "train:latest";
      vcpus = pos 4;
      memory = pos 2000;
      command = [];
      environment = [];
      task_arn = none;
    };
    job_definition = "train:1";
  };
}

abbrev pub marshal : List String → String
marshal command = "[]"

job_status_notification_example :
    let r = job_status_notification marshal store_jobs noon (inl notification) later in
    let job = notified_job marshal noon notification.detail in
    (r.0 ≡ ok tt)
    × (find_row "a" r.1.db.jobs ≡ some (written job (find_row "a" later.db.jobs)))
    × (status_at "a" r.1.db.jobs ≡ some "FAILED")
unfolding notified_job
job_status_notification_example =
    job_status_notification_lem marshal noon notification later "a" refl refl
