-- ===== src/Jobs/Queue/Settle.antt =====
-- The other transactions of jobs/queue.py: recovery of expired leases, the end of an item, its
-- retry, and the cancellation of waiting items.
use smart_email_manager.Prelude.{
  ℕ, suc, ◌+◌, ◌-◌, ◌*◌, ◌^◌, min, String, Bool, false, ◌&&◌, Option, none, some, List, [], ◌∷◌,
  map, leb, if◌then◌else◌, or_else, str_eq, select_where, update_where, count_where, is_in,
}
use smart_email_manager.Problem.{Result, ok, err, crash, ◌>>=◌}
use smart_email_manager.Jobs.Model.{
  JobItem, Db, Data, num, JobItemStatus, is_held, is_waiting, is_cancelling, get_job, get_item,
  put_item, add_event,
}
use smart_email_manager.Jobs.Queue.Summary.{refresh_job_summary, refresh_all}
use smart_email_manager.Jobs.Queue.Claim.{LeasedJobItem, before}

-- status IN ('leased', 'running') AND lease_expires_at < now()
unfoldable pub has_expired : ℕ → JobItem → Bool
unfolding is_held
has_expired now item = is_held item.status && before item.lease_expires_at now

-- The CASE expressions of the update.
unfoldable pub recover_row : JobItem → JobItem
recover_row item =
    let spent = leb item.max_attempts item.attempt_count in
    record item {
      status = if spent then JobItemStatus.failed else JobItemStatus.pending;
      error_code = if spent then some "LEASE_EXPIRED" else item.error_code;
      error_summary =
          if spent then some "Worker lease expired too many times." else item.error_summary;
      lease_owner = none;
      lease_expires_at = none;
    }

-- SELECT DISTINCT
unfoldable pub distinct : List ℕ → List ℕ
unfolding is_in
distinct [] = []
distinct (n ∷ ns) = let rest = distinct ns in if is_in n rest then rest else n ∷ rest

unfoldable pub recover_expired_leases : ℕ → ℕ → Db → Db × ℕ
recover_expired_leases now wall db =
    elim (distinct (map (λ i. i.job_id) (select_where (has_expired now) db.items))) [
      | [] ↦ (db, 0)
      | job_id ∷ rest ↦ (
        refresh_all wall (job_id ∷ rest)
            (record db { items = update_where (has_expired now) recover_row db.items }),
        count_where (has_expired now) db.items,
      )
    ]

-- f"job_item.{status}"
abbrev pub item_event : JobItemStatus → String
item_event JobItemStatus.pending = "job_item.pending"
item_event JobItemStatus.leased = "job_item.leased"
item_event JobItemStatus.running = "job_item.running"
item_event JobItemStatus.retry_wait = "job_item.retry_wait"
item_event JobItemStatus.succeeded = "job_item.succeeded"
item_event JobItemStatus.failed = "job_item.failed"
item_event JobItemStatus.skipped = "job_item.skipped"
item_event JobItemStatus.cancelled = "job_item.cancelled"

abbrev pub item_level : JobItemStatus → String
item_level JobItemStatus.failed = "error"
item_level JobItemStatus.running = "info"
item_level _ = "info"

abbrev pub owned_by : Option String → String → Bool
owned_by none owner = false
owned_by (some other) owner = str_eq other owner

-- The item of a lease, if its owner is still the lease's.
unfoldable pub held_item : LeasedJobItem → Db → Result JobItem
held_item lease db = elim (get_item db lease.id) [
  | none ↦ err (crash "Leased item disappeared")
  | some item ↦
      if owned_by item.lease_owner lease.lease_owner
      then ok item
      else err (crash "Lease ownership changed")
]

unfoldable pub finish_row :
    ℕ → JobItemStatus → Option Data → Option String → Option String → JobItem → JobItem
finish_row wall status result error_code error_summary item = record item {
  status = status;
  result = or_else result [];
  error_code = error_code;
  error_summary = error_summary;
  finished_at = some wall;
  lease_owner = none;
  lease_expires_at = none;
}

unfoldable pub finish_item :
    ℕ → LeasedJobItem → JobItemStatus → Option Data → Option String → Option String → Db → Result Db
finish_item wall lease status result error_code error_summary db = do
  item ← held_item lease db
  let db' =
      add_event (put_item db (finish_row wall status result error_code error_summary item))
        lease.job_id (some lease.id) (item_event status) (item_level status) (or_else result [])
  elim (get_job db' lease.job_id) [
    | none ↦ err (crash "Job disappeared")
    | some job ↦ ok (refresh_job_summary wall job db')
  ]

-- delay_seconds or min(5 * 2 ** max(0, attempt_count - 1), 300): a delay of 0 counts as none
unfoldable pub retry_delay : Option ℕ → ℕ → ℕ
retry_delay (some (suc n)) attempt_count = suc n
retry_delay _ attempt_count = min (5 * 2 ^ (attempt_count - 1)) 300

unfoldable pub retry_row : ℕ → ℕ → Option Data → String → String → JobItem → JobItem
retry_row wall delay result error_code error_summary item = record item {
  status = JobItemStatus.retry_wait;
  run_after = some (wall + delay);
  result = or_else result [];
  error_code = some error_code;
  error_summary = some error_summary;
  finished_at = none;
  lease_owner = none;
  lease_expires_at = none;
}

-- The branch of `retry_item` with attempts left.
unfoldable pub schedule_retry :
    ℕ → LeasedJobItem → String → String → Option Data → Option ℕ → Db → Result Db
schedule_retry wall lease error_code error_summary result delay_seconds db = do
  item ← held_item lease db
  let delay = retry_delay delay_seconds lease.attempt_count
  ok (
      add_event (put_item db (retry_row wall delay result error_code error_summary item))
        lease.job_id (some lease.id) "job_item.retry_scheduled" "warning"
        (("attempt_count", num lease.attempt_count)
          ∷ ("max_attempts", num lease.max_attempts)
          ∷ ("delay_seconds", num delay)
          ∷ ("next_attempt", num (lease.attempt_count + 1))
          ∷ or_else result []))

unfoldable pub retry_item :
    ℕ → LeasedJobItem → String → String → Option Data → Option ℕ → Db → Result Db
retry_item wall lease error_code error_summary result delay_seconds db =
    if leb lease.max_attempts lease.attempt_count
    then finish_item wall lease JobItemStatus.failed result (some error_code) (some error_summary)
        db
    else schedule_retry wall lease error_code error_summary result delay_seconds db

-- SELECT id FROM jobs WHERE status = 'cancelling'
unfoldable pub cancelling_ids : Db → List ℕ
cancelling_ids db = map (λ j. j.id) (select_where (λ j. is_cancelling j.status) db.jobs)

unfoldable pub is_cancellable : List ℕ → JobItem → Bool
unfolding is_in is_waiting
is_cancellable job_ids item = is_in item.job_id job_ids && is_waiting item.status

unfoldable pub cancel_row : ℕ → JobItem → JobItem
cancel_row now item = record item { status = JobItemStatus.cancelled; finished_at = some now }

unfoldable pub cancel_pending_items : ℕ → ℕ → Db → Db × ℕ
cancel_pending_items now wall db =
    let job_ids = cancelling_ids db in
    (
      refresh_all wall job_ids
          (record db { items = update_where (is_cancellable job_ids) (cancel_row now) db.items }),
      count_where (is_cancellable job_ids) db.items,
    )
