-- ===== src/Jobs/ControlTests.antt =====
-- The theorems on retries, fencing and the API's control of jobs, at concrete tables.
use smart_email_manager.Prelude.{
  ◌+◌, ◌*◌, ◌≤◌, ◌<◌, min, ◌≡◌, refl, sym, ◌∙◌, subst, some-injective, true, false, List, none,
  some, [], ◌∷◌, arith, leb, ◌==◌, All,
}
use smart_email_manager.Problem.{Failure, ok, err, after}
use smart_email_manager.Jobs.Model.{
  JobItem, JobItemStatus, JobStatus, Db, get_job, get_item, retry_wait,
}
use smart_email_manager.Jobs.Queue.Claim.{item_is_free}
use smart_email_manager.Jobs.Queue.Settle.{
  owned_by, finish_item, retry_item, schedule_retry, retry_delay,
}
use smart_email_manager.Jobs.Keys.{UniqueIds}
use smart_email_manager.Jobs.Backoff.{retry_delay_doubles, schedule_retry_waits}
use smart_email_manager.Jobs.Fencing.{lost_lease_raises, stale_retry_overruns}
use smart_email_manager.Jobs.Machine.{
  cancel, pause, resume, Request, response, ask, serve, follow, expected_failure, failure_of,
}
use smart_email_manager.Jobs.Serving.{ask-answer, serve-follows}
use smart_email_manager.Jobs.Samples.{
  running_code, created, leased, lease1, item1, running_job, running_job_there,
}

retry_delay_doubles_example :
    (retry_delay none 1 ≡ 5)
    × (retry_delay none (4 + 2) ≡ min (2 * retry_delay none (4 + 1)) 300)
    × (5 ≤ retry_delay none 4)
    × (retry_delay none 4 ≤ 300)
    × (retry_delay (some 0) 4 ≡ retry_delay none 4)
    × (retry_delay (some 5) 4 ≡ 5)
retry_delay_doubles_example = retry_delay_doubles 4

retried : Db
retried = after leased (schedule_retry 130 lease1 "E" "e" none none leased)

retrying : schedule_retry 130 lease1 "E" "e" none none leased ≡ ok retried
unfolding running_code retried leased created
retrying = refl

distinct_ids : UniqueIds leased.items
unfolding running_code leased created
distinct_ids = ((refl, tt), (tt, tt))

schedule_retry_waits_example :
    All
      (λ i. (i.id == 10) ≡ true → item_is_free 134 i ≡ leb (130 + retry_delay none 1) 134)
      retried.items
schedule_retry_waits_example =
    schedule_retry_waits 130 134 lease1 "E" "e" none none leased retried distinct_ids retrying

waiting_row : JobItem
unfolding running_code
waiting_row = record item1 {
  status = JobItemStatus.pending;
  attempt_count = 0;
  lease_owner = none;
  lease_expires_at = none;
  started_at = none;
}

waiting_row_there : get_item created 10 ≡ some waiting_row
unfolding running_code created waiting_row
waiting_row_there = refl

not_owned :
    (item : JobItem) → get_item created 10 ≡ some item → owned_by item.lease_owner "w1" ≡ false
unfolding waiting_row
not_owned item e =
    subst (λ (i : JobItem). owned_by i.lease_owner "w1" ≡ false)
      (some-injective waiting_row item (sym waiting_row_there ∙ e)) refl

lost_lease_raises_example :
    (f : Failure) × (finish_item 130 lease1 JobItemStatus.succeeded none
        (some "E")
        (some "e")
        created
      ≡ err f)
    × (retry_item 130 lease1 "E" "e" none none created ≡ err f)
lost_lease_raises_example =
    lost_lease_raises 130 lease1 JobItemStatus.succeeded none "E" "e" none created not_owned

-- Two processes under the name "w1": the item is at the third attempt, the old lease at the first.
abbrev spent_item : JobItem
spent_item = record item1 { attempt_count = 3 }

abbrev shared_name : Db
shared_name = record { jobs = []; items = spent_item ∷ []; events = []; next_sequence = 1 }

spent_item_there : get_item shared_name 10 ≡ some spent_item
unfolding running_code
spent_item_there = refl

stale_retry_overruns_example :
    (db' : Db) × (row : JobItem) × (retry_item 130 lease1 "E" "e" none none shared_name ≡ ok db')
    × (get_item db' 10 ≡ some row)
    × (row.status ≡ retry_wait)
    × (row.max_attempts < row.attempt_count + 1)
stale_retry_overruns_example =
    stale_retry_overruns 130 lease1 "E" "e" none none shared_name spent_item spent_item_there refl
      (omega arith) refl

-- The job of the lease is paused, resumed and cancelled; a request for another job comes between.
api_calls : List Request
api_calls =
    record { verb = pause; time = 140; job_id = 1 }
    ∷ record { verb = cancel; time = 141; job_id = 2 }
    ∷ record { verb = resume; time = 142; job_id = 1 }
    ∷ record { verb = cancel; time = 143; job_id = 1 }
    ∷ record { verb = pause; time = 144; job_id = 1 }
    ∷ []

serve-follows_example :
    get_job (serve api_calls leased) 1
    ≡ some (record running_job { status = JobStatus.cancelling; cancel_requested_at = some 143 })
unfolding running_code running_job api_calls follow response
serve-follows_example = serve-follows api_calls leased 1 running_job running_job_there

ask-answer_example :
    failure_of (ask resume 140 1 leased) ≡ expected_failure resume (get_job leased 1)
ask-answer_example = ask-answer resume 140 1 leased
