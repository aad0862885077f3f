-- ===== src/Jobs/System.antt =====
-- The job system as a whole: the tables, and the leases that workers hold in memory, one for each
-- worker at most since `run_once` takes its items one by one. A step is one transaction of the API
-- or of a worker, so that a sequence of steps is an interleaving of them.
mod Consistency
mod Transactions
pub mod Invariant
pub mod Exclusion
use smart_email_manager.Prelude.{
  ℕ, ◌<◌, ◌≡◌, String, Bool, true, false, not, Option, some, List, [], ◌∷◌, Memᴰ, str_eq,
  select_where, All,
}
use smart_email_manager.Problem.{ok}
use smart_email_manager.Jobs.Model.{Db, Job, JobItemStatus, Data, is_unfinished}
use smart_email_manager.Jobs.Queue.Claim.{LeasedJobItem, lease_next_item}
use smart_email_manager.Jobs.Queue.Settle.{
  recover_expired_leases, finish_item, retry_item, cancel_pending_items,
}
use smart_email_manager.Jobs.Control.{
  request_job_cancel, request_job_pause, resume_job, finalize_pausing_jobs,
}
use smart_email_manager.Jobs.Create.{JobRequest, Fresh, create_job}

pub record System : Type 0 where
  pub db : Db
  pub held : List LeasedJobItem

abbrev pub empty : System
empty = record { db = record { jobs = []; items = []; events = []; next_sequence = 1 }; held = [] }

-- The worker has no lease in memory.
abbrev pub IsIdle : String → List LeasedJobItem → Type 0
IsIdle worker_id = All (λ l. str_eq worker_id l.lease_owner ≡ false)

-- The worker forgets its lease.
abbrev pub drop_lease : LeasedJobItem → List LeasedJobItem → List LeasedJobItem
drop_lease lease = select_where (λ l. not (str_eq l.lease_owner lease.lease_owner))

pub data Step (s : System) : System → Type 0 where
  claims :
      (locked : ℕ → Bool) (now wall : ℕ) (worker_id : String) (lease_seconds : ℕ) (db' : Db)
      (lease : LeasedJobItem)
      → IsIdle worker_id s.held
      → lease_next_item locked now wall worker_id lease_seconds s.db ≡ (db', some lease)
      → Step s (record { db = db'; held = lease ∷ s.held })
  finishes :
      (wall : ℕ) (lease : LeasedJobItem) (status : JobItemStatus) (result : Option Data)
      (error_code error_summary : Option String) (db' : Db)
      → Memᴰ lease s.held
      → is_unfinished status ≡ false
      → finish_item wall lease status result error_code error_summary s.db ≡ ok db'
      → Step s (record { db = db'; held = drop_lease lease s.held })
  retries :
      (wall : ℕ) (lease : LeasedJobItem) (error_code error_summary : String) (result : Option Data)
      (delay_seconds : Option ℕ) (db' : Db)
      → Memᴰ lease s.held
      → retry_item wall lease error_code error_summary result delay_seconds s.db ≡ ok db'
      → Step s (record { db = db'; held = drop_lease lease s.held })
  -- a crash of the worker, or of its last transaction
  loses : (lease : LeasedJobItem) → Step s (record s { held = drop_lease lease s.held })
  recovers : (now wall : ℕ) → Step s (record s { db = (recover_expired_leases now wall s.db).0 })
  cancels_items : (now wall : ℕ) → Step s (record s { db = (cancel_pending_items now wall s.db).0 })
  finalizes : (locked : ℕ → Bool) → Step s (record s { db = (finalize_pausing_jobs locked s.db).0 })
  cancels :
      (wall job_id : ℕ) (db' : Db)
      → request_job_cancel wall job_id s.db ≡ ok db'
      → Step s (record s { db = db' })
  pauses :
      (job_id : ℕ) (db' : Db)
      → request_job_pause job_id s.db ≡ ok db'
      → Step s (record s { db = db' })
  resumes :
      (job_id : ℕ) (db' : Db) → resume_job job_id s.db ≡ ok db' → Step s (record s { db = db' })
  creates :
      (request : JobRequest) (fresh : Fresh) (selected : List ℕ) (db' : Db) (job : Job)
      → All (λ i. i.id < fresh.item_id) s.db.items
      → create_job request fresh selected s.db ≡ ok (db', job)
      → Step s (record s { db = db' })

pub data Reach (s : System) : System → Type 0 where
  started : Reach s s
  then_step : {t u : System} → Reach s t → Step t u → Reach s u
