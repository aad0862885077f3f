-- ===== src/Jobs/Queue/Claim.antt =====
-- `LEASE_SQL` and `lease_next_item`: a worker takes the next item.
use smart_email_manager.Prelude.{
  ℕ, ◌+◌, String, Bool, false, not, ◌&&◌, ◌||◌, Option, none, some, List, [], ◌∷◌, ltb, leb, ◌==◌,
  if◌then◌else◌, is_some, or_else, update_where, best,
}
use smart_email_manager.Jobs.Model.{
  Job, JobItem, JobStatus, ItemKey, Db, Data, num, text, JobItemStatus, queued, is_waiting,
  is_runnable, get_job, put_job, add_event,
}

pub record LeasedJobItem : Type 0 where
  pub id : ℕ
  pub job_id : ℕ
  pub job_type : String
  pub item_key : ItemKey
  pub subject_type : String
  pub subject_id : Option ℕ
  pub payload : Data
  pub attempt_count : ℕ
  pub max_attempts : ℕ
  pub lease_owner : String

-- column <= now(), and column < now(): NULL is not true
abbrev pub at_most : Option ℕ → ℕ → Bool
at_most none now = false
at_most (some t) now = leb t now

abbrev pub before : Option ℕ → ℕ → Bool
before none now = false
before (some t) now = ltb t now

-- The conditions of LEASE_SQL on the item.
unfoldable pub item_is_free : ℕ → JobItem → Bool
unfolding is_waiting
item_is_free now item =
    is_waiting item.status
    && (not (is_some item.run_after) || at_most item.run_after now)
    && (not (is_some item.lease_expires_at) || before item.lease_expires_at now)

-- Its conditions on the job.
unfoldable pub job_is_open : Job → Bool
unfolding is_runnable
job_is_open job = is_runnable job.status && not (is_some job.cancel_requested_at)

-- One row of the join, if the WHERE clause keeps it.
unfoldable pub eligible : (ℕ → Bool) → ℕ → Db → JobItem → Option (JobItem × Job)
eligible locked now db item = elim (get_job db item.job_id) [
  | none ↦ none
  | some job ↦
      if not (locked item.id) && item_is_free now item && job_is_open job
      then some (item, job)
      else none
]

abbrev pub consider {ℓ} : {A : Type ℓ} → Option A → List A → List A
consider none rest = rest
consider (some a) rest = a ∷ rest

unfoldable pub candidates : (ℕ → Bool) → ℕ → Db → List JobItem → List (JobItem × Job)
candidates locked now db [] = []
candidates locked now db (item ∷ items) =
    consider (eligible locked now db item) (candidates locked now db items)

-- ORDER BY j.priority DESC, ji.created_at ASC, ji.id ASC
unfoldable pub precedes : JobItem × Job → JobItem × Job → Bool
precedes (item, job) (item', job') =
    ltb job'.priority job.priority
    || (job.priority == job'.priority
        && (ltb item.created_at item'.created_at
            || (item.created_at == item'.created_at && ltb item.id item'.id)))

-- SET status = 'running', ...
unfoldable pub lease_row : ℕ → ℕ → String → JobItem → JobItem
lease_row now lease_seconds worker_id item = record item {
  status = JobItemStatus.running;
  lease_owner = some worker_id;
  lease_expires_at = some (now + lease_seconds);
  attempt_count = item.attempt_count + 1;
  started_at = some (or_else item.started_at now);
}

unfoldable pub lease_rows : ℕ → ℕ → String → ℕ → Db → Db
lease_rows now lease_seconds worker_id item_id db = record db {
  items = update_where (λ i. i.id == item_id) (lease_row now lease_seconds worker_id) db.items;
}

-- The row that RETURNING gives, with the type of its job.
unfoldable pub leased_item : Job → JobItem → String → LeasedJobItem
leased_item job row worker_id = record {
  id = row.id;
  job_id = row.job_id;
  job_type = job.job_type;
  item_key = row.item_key;
  subject_type = row.subject_type;
  subject_id = row.subject_id;
  payload = row.payload;
  attempt_count = row.attempt_count;
  max_attempts = row.max_attempts;
  lease_owner = worker_id;
}

-- The first lease of a queued job starts the job.
unfoldable pub start_job : ℕ → Job → Job
start_job wall job = elim job.status [
  | queued ↦ record job { status = JobStatus.running; started_at = some wall }
  | _ ↦ job
]

-- What follows the statement: the job, the event, the commit. `none` is a rollback.
unfoldable pub announce : ℕ → String → JobItem → Db → Db → Db × Option LeasedJobItem
announce wall worker_id row rolled_back db = elim (get_job db row.job_id) [
  | none ↦ (rolled_back, none)
  | some job ↦ (
    add_event (put_job db (start_job wall job)) job.id (some row.id) "job_item.started" "info"
        (("attempt_count", num row.attempt_count) ∷ ("worker_id", text worker_id) ∷ []),
    some (leased_item job row worker_id),
  )
]

unfoldable pub lease_next_item : (ℕ → Bool) → ℕ → ℕ → String → ℕ → Db → Db × Option LeasedJobItem
lease_next_item locked now wall worker_id lease_seconds db =
    elim (best precedes (candidates locked now db db.items)) [
      | none ↦ (db, none)
      | some (item, _) ↦
          announce wall worker_id (lease_row now lease_seconds worker_id item) db
            (lease_rows now lease_seconds worker_id item.id db)
    ]
