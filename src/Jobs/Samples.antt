-- ===== src/Jobs/Samples.antt =====
-- Tables and leases at which the theorems of the job system are applied.
use smart_email_manager.Prelude.{
  is_in, ℕ, ◌≡◌, refl, is_some, Bool, true, false, none, some, [], ◌∷◌, Memᴰ, str_eq, find_where,
  select_where, update_where, count_where, best_from,
}
use smart_email_manager.Problem.{Result, ok, err, after}
use smart_email_manager.Jobs.Model.{
  Job, JobItem, JobItemStatus, JobStatus, Db, account, get_job, get_item, put_job, put_item,
  add_event, is_held, is_waiting, is_unfinished, is_succeeded, is_failed, is_skipped, is_runnable,
  is_terminal, is_cancelling, is_pausing, is_paused,
}
use smart_email_manager.Jobs.Queue.Summary.{
  count_items, counted, settled, settled_status, refresh_job_summary, refresh_by_id, refresh_all,
}
use smart_email_manager.Jobs.Queue.Claim.{
  LeasedJobItem, item_is_free, job_is_open, eligible, candidates, precedes, lease_row, lease_rows,
  leased_item, start_job, announce, lease_next_item,
}
use smart_email_manager.Jobs.Queue.Settle.{
  has_expired, recover_row, distinct, recover_expired_leases, held_item, finish_row, finish_item,
  retry_delay, retry_row, schedule_retry, retry_item, cancelling_ids, is_cancellable, cancel_row,
  cancel_pending_items,
}
use smart_email_manager.Jobs.Create.{
  JobRequest, Fresh, existing_job, job_with_key, key_is_taken, new_item, new_items, new_job,
  close_if_empty, create_job,
}
use smart_email_manager.Jobs.System.{System, empty, claims, creates, Reach, started, then_step}
use smart_email_manager.Jobs.Control.{
  get_job_or_404, request_job_cancel, request_job_pause, resume_job,
}

-- Everything that a run computes with.
unfoldable pub running_code : Unit {0}
unfolding find_where select_where update_where count_where best_from get_job get_item put_job
    put_item add_event is_held is_waiting is_unfinished is_succeeded is_failed is_skipped
    is_runnable is_terminal is_cancelling is_pausing is_paused count_items counted settled
    settled_status refresh_job_summary refresh_by_id refresh_all item_is_free job_is_open eligible
    candidates precedes lease_row lease_rows leased_item start_job announce lease_next_item
    has_expired recover_row is_in distinct recover_expired_leases held_item finish_row finish_item
    retry_delay retry_row schedule_retry retry_item cancelling_ids is_cancellable cancel_row
    cancel_pending_items existing_job job_with_key key_is_taken new_item new_items new_job
    close_if_empty create_job get_job_or_404 request_job_cancel request_job_pause resume_job
running_code = tt

abbrev pub request : JobRequest
request = record {
  job_type = "account.token_refresh";
  idempotency_key = some "nightly";
  payload = [];
  item_payload = [];
  created_data = [];
  empty_message = "None.";
}

abbrev pub fresh : Fresh
fresh = record { job_id = 1; item_id = 10; now = 100; wall = 100 }

abbrev pub tables : Result (Db × Job) → Db
tables (ok (db, job)) = db
tables (err e) = empty.db

abbrev pub the_job : Result (Db × Job) → Job
the_job (ok (db, job)) = job
the_job (err e) = new_job request fresh 0

-- The tables after a job with two items was created, and after a worker leased the first.
unfoldable pub created : Db
unfolding running_code
created = tables (create_job request fresh (7 ∷ 8 ∷ []) empty.db)

unfoldable pub job1 : Job
unfolding running_code
job1 = the_job (create_job request fresh (7 ∷ 8 ∷ []) empty.db)

pub creation : create_job request fresh (7 ∷ 8 ∷ []) empty.db ≡ ok (created, job1)
unfolding running_code created job1
creation = refl

abbrev pub nobody : ℕ → Bool
nobody id = false

abbrev pub lease1 : LeasedJobItem
lease1 = record {
  id = 10;
  job_id = 1;
  job_type = "account.token_refresh";
  item_key = account 7;
  subject_type = "account";
  subject_id = some 7;
  payload = [];
  attempt_count = 1;
  max_attempts = 3;
  lease_owner = "w1";
}

unfoldable pub leased : Db
leased = (lease_next_item nobody 100 100 "w1" 60 created).0

pub leasing : lease_next_item nobody 100 100 "w1" 60 created ≡ (leased, some lease1)
unfolding running_code created leased
leasing = refl

abbrev pub system : System
system = record { db = leased; held = lease1 ∷ [] }

pub history : Reach empty system
history =
    then_step (then_step started (creates request fresh (7 ∷ 8 ∷ []) created job1 tt creation))
      (claims nobody 100 100 "w1" 60 leased lease1 tt leasing)

abbrev pub item1 : JobItem
item1 = record {
  id = 10;
  job_id = 1;
  item_key = account 7;
  subject_type = "account";
  subject_id = some 7;
  status = JobItemStatus.running;
  payload = [];
  result = [];
  attempt_count = 1;
  max_attempts = 3;
  run_after = none;
  lease_owner = some "w1";
  lease_expires_at = some 160;
  started_at = some 100;
  finished_at = none;
  error_code = none;
  error_summary = none;
  created_at = 100;
}

pub item1_is_leased : get_item leased 10 ≡ some item1
unfolding running_code leased created
item1_is_leased = refl

pub item1_in_table : Memᴰ item1 leased.items
unfolding running_code leased created
item1_in_table = Memᴰ.head refl

pub not_yet_expired : has_expired 120 item1 ≡ false
unfolding has_expired
not_yet_expired = refl

pub item1_held : is_held item1.status ≡ true
unfolding is_held
item1_held = refl

unfoldable pub finished : Db
finished = after leased (finish_item 130 lease1 JobItemStatus.succeeded none none none leased)

pub finishing : finish_item 130 lease1 JobItemStatus.succeeded none none none leased ≡ ok finished
unfolding running_code finished leased created
finishing = refl

unfoldable pub running_job : Job
unfolding running_code
running_job = record job1 { status = JobStatus.running; started_at = some 100 }

pub running_job_there : get_job leased 1 ≡ some running_job
unfolding running_code running_job leased created job1
running_job_there = refl

unfoldable pub cancelling_job : Job
unfolding running_code
cancelling_job = record job1 { status = JobStatus.cancelling; cancel_requested_at = some 105 }

unfoldable pub cancelling_db : Db
cancelling_db = after created (request_job_cancel 105 1 created)

pub cancelling_there : get_job cancelling_db 1 ≡ some cancelling_job
unfolding running_code cancelling_job cancelling_db created job1
cancelling_there = refl

pub is_cancelling_job : is_cancelling cancelling_job.status ≡ true
unfolding running_code cancelling_job
is_cancelling_job = refl

pub cancel_asked : is_some cancelling_job.cancel_requested_at ≡ true
unfolding cancelling_job
cancel_asked = refl

pub nothing_held : count_items cancelling_db 1 is_held ≡ 0
unfolding running_code cancelling_db created
nothing_held = refl

pub named : str_eq "nightly" "" ≡ false
named = refl

pub no_job_yet : existing_job (some "nightly") empty.db ≡ none
unfolding running_code
no_job_yet = refl
