-- ===== src/Jobs/Model.antt =====
-- The enums of domain/enums.py and the rows of db/models.py that the job system reads and writes.
-- Identifiers and times are native numbers. `updated_at` and the text of `message` are left out.
use smart_email_manager.Prelude.{
  ℕ, ◌+◌, String, Bool, true, false, Option, List, [], ◌∷◌, ◌++◌, ◌==◌, find_where, update_where,
}
pub use smart_email_manager.Json.{Value, num, text, flag, ids, Data}

pub data JobStatus : Type 0 where
  queued running pausing paused cancelling cancelled completed partial failed : JobStatus

pub data JobItemStatus : Type 0 where
  pending leased running retry_wait succeeded failed skipped cancelled : JobItemStatus

-- f"account:{account_id}"
pub data ItemKey : Type 0 where
  account : ℕ → ItemKey

pub record Job : Type 0 where
  pub id : ℕ
  pub job_type : String
  pub status : JobStatus
  pub priority : ℕ
  pub idempotency_key : Option String
  pub payload : Data
  pub result : Data
  pub total_count : ℕ
  pub succeeded_count : ℕ
  pub failed_count : ℕ
  pub skipped_count : ℕ
  pub cancel_requested_at : Option ℕ
  pub started_at : Option ℕ
  pub finished_at : Option ℕ
  pub created_at : ℕ

pub record JobItem : Type 0 where
  pub id : ℕ
  pub job_id : ℕ
  pub item_key : ItemKey
  pub subject_type : String
  pub subject_id : Option ℕ
  pub status : JobItemStatus
  pub payload : Data
  pub result : Data
  pub attempt_count : ℕ
  pub max_attempts : ℕ
  pub run_after : Option ℕ
  pub lease_owner : Option String
  pub lease_expires_at : Option ℕ
  pub started_at : Option ℕ
  pub finished_at : Option ℕ
  pub error_code : Option String
  pub error_summary : Option String
  pub created_at : ℕ

pub record JobEvent : Type 0 where
  pub sequence : ℕ
  pub job_id : ℕ
  pub job_item_id : Option ℕ
  pub event_type : String
  pub level : String
  pub info : Data

pub record Db : Type 0 where
  pub jobs : List Job
  pub items : List JobItem
  pub events : List JobEvent
  pub next_sequence : ℕ

-- status IN ('leased', 'running')
unfoldable pub is_held : JobItemStatus → Bool
is_held leased = true
is_held running = true
is_held _ = false

-- status IN ('pending', 'retry_wait')
unfoldable pub is_waiting : JobItemStatus → Bool
is_waiting pending = true
is_waiting retry_wait = true
is_waiting _ = false

-- status IN ('pending', 'leased', 'running', 'retry_wait')
unfoldable pub is_unfinished : JobItemStatus → Bool
is_unfinished pending = true
is_unfinished leased = true
is_unfinished running = true
is_unfinished retry_wait = true
is_unfinished _ = false

unfoldable pub is_succeeded : JobItemStatus → Bool
is_succeeded succeeded = true
is_succeeded _ = false

unfoldable pub is_failed : JobItemStatus → Bool
is_failed failed = true
is_failed _ = false

unfoldable pub is_skipped : JobItemStatus → Bool
is_skipped skipped = true
is_skipped _ = false

-- status IN ('queued', 'running')
unfoldable pub is_runnable : JobStatus → Bool
is_runnable queued = true
is_runnable running = true
is_runnable _ = false

-- status in {COMPLETED, PARTIAL, FAILED, CANCELLED}
unfoldable pub is_terminal : JobStatus → Bool
is_terminal completed = true
is_terminal partial = true
is_terminal failed = true
is_terminal cancelled = true
is_terminal _ = false

unfoldable pub is_cancelling : JobStatus → Bool
is_cancelling cancelling = true
is_cancelling _ = false

unfoldable pub is_pausing : JobStatus → Bool
is_pausing pausing = true
is_pausing _ = false

unfoldable pub is_paused : JobStatus → Bool
is_paused paused = true
is_paused _ = false

-- session.get(Job, job_id)
unfoldable pub get_job : Db → ℕ → Option Job
get_job db job_id = find_where (λ j. j.id == job_id) db.jobs

-- session.get(JobItem, item_id)
unfoldable pub get_item : Db → ℕ → Option JobItem
get_item db item_id = find_where (λ i. i.id == item_id) db.items

-- What the attributes of a loaded row were set to is written on flush.
unfoldable pub put_job : Db → Job → Db
put_job db job = record db { jobs = update_where (λ j. j.id == job.id) (λ _. job) db.jobs }

unfoldable pub put_item : Db → JobItem → Db
put_item db item = record db { items = update_where (λ i. i.id == item.id) (λ _. item) db.items }

-- session.add(JobEvent(...)), with the sequence that the database assigns
unfoldable pub add_event : Db → ℕ → Option ℕ → String → String → Data → Db
add_event db job_id item_id event_type level info = record db {
  events = db.events ++ event ∷ [];
  next_sequence = db.next_sequence + 1;
}
  where
    event : JobEvent
    event = record {
      sequence = db.next_sequence;
      job_id = job_id;
      job_item_id = item_id;
      event_type = event_type;
      level = level;
      info = info;
    }
