-- ===== src/Jobs/Inversion.antt =====
-- What a successful transaction of the queue did, as equations on the tables.
use smart_email_manager.Prelude.{
  ℕ, String, ◌≡◌, refl, sym, ◌∙◌, Bool, true, inl, inr, Option, some, [], ◌∷◌, arith, best, or_else,
  Option-cases,
}
use smart_email_manager.Problem.{ok, first_step}
use smart_email_manager.Jobs.Model.{
  Job, JobItem, JobItemStatus, Db, Data, num, text, get_job, get_item, put_job, put_item, add_event,
}
use smart_email_manager.Jobs.Queue.Summary.{refresh_job_summary}
use smart_email_manager.Jobs.Queue.Claim.{
  LeasedJobItem, candidates, precedes, lease_row, lease_rows, announce, leased_item, start_job,
  lease_next_item,
}
use smart_email_manager.Jobs.Queue.Settle.{
  item_event, item_level, owned_by, held_item, finish_row, finish_item, retry_delay, retry_row,
  schedule_retry,
}

-- The tables after item `item` of `job` was leased.
abbrev pub granted : ℕ → ℕ → ℕ → String → JobItem → Job → Db → Db
granted now wall lease_seconds worker_id item job db =
    let row = lease_row now lease_seconds worker_id item in
    add_event (put_job (lease_rows now lease_seconds worker_id item.id db) (start_job wall job))
      job.id (some row.id) "job_item.started" "info"
      (("attempt_count", num row.attempt_count) ∷ ("worker_id", text worker_id) ∷ [])

pub record Granted (locked : ℕ → Bool) (now wall : ℕ) (worker_id : String) (lease_seconds : ℕ)
    (db db' : Db) (lease : LeasedJobItem) : Type 0 where
  pub item : JobItem
  pub joined : Job
  pub job : Job
  pub chosen : best precedes (candidates locked now db db.items) ≡ some (item, joined)
  pub loaded : get_job db item.job_id ≡ some job
  pub leased : lease ≡ leased_item job (lease_row now lease_seconds worker_id item) worker_id
  pub result : db' ≡ granted now wall lease_seconds worker_id item job db

get_job-lease_rows :
    (now secs : ℕ) (w : String) (id : ℕ) (db : Db) (job_id : ℕ)
    → get_job (lease_rows now secs w id db) job_id ≡ get_job db job_id
unfolding get_job lease_rows
get_job-lease_rows now secs w id db job_id = refl

pub lease-Granted :
    (locked : ℕ → Bool) (now wall : ℕ) (worker_id : String) (lease_seconds : ℕ) (db db' : Db)
    (lease : LeasedJobItem)
    → lease_next_item locked now wall worker_id lease_seconds db ≡ (db', some lease)
    → Granted locked now wall worker_id lease_seconds db db' lease
unfolding lease_next_item announce lease_row
lease-Granted locked now wall w secs db db' lease h =
    elim (Option-cases (best precedes (candidates locked now db db.items))) [
      | inl e ↦ absurd (ground arith)
      | inr (c, e) ↦ elim (Option-cases (get_job (lease_rows now secs w c.0.id db) c.0.job_id)) [
        | inl n ↦ absurd (ground arith)
        | inr (j, n) ↦ record {
          item = c.0;
          joined = c.1;
          job = j;
          chosen = e;
          loaded = sym (get_job-lease_rows now secs w c.0.id db c.0.job_id) ∙ n;
          leased = ground arith;
          result = ground arith;
        }
      ]
    ]

-- The tables after the item of a lease ended, before the summary of its job is refreshed.
abbrev pub ended :
    ℕ
    → LeasedJobItem
    → JobItemStatus
    → Option Data
    → Option String
    → Option String
    → JobItem
    → Db
    → Db
ended wall lease status result error_code error_summary item db =
    add_event (put_item db (finish_row wall status result error_code error_summary item))
      lease.job_id (some lease.id) (item_event status) (item_level status) (or_else result [])

pub record Ended (wall : ℕ) (lease : LeasedJobItem) (status : JobItemStatus) (result : Option Data)
    (error_code error_summary : Option String) (db db' : Db) : Type 0 where
  pub item : JobItem
  pub found : get_item db lease.id ≡ some item
  pub owned : owned_by item.lease_owner lease.lease_owner ≡ true
  pub job : Job
  pub loaded : get_job db lease.job_id ≡ some job
  pub final :
      db'
      ≡ refresh_job_summary wall job
          (ended wall lease status result error_code error_summary item db)

pub held_item-ok :
    (lease : LeasedJobItem) (db : Db) (item : JobItem)
    → held_item lease db ≡ ok item
    → (get_item db lease.id ≡ some item) × (owned_by item.lease_owner lease.lease_owner ≡ true)
unfolding held_item
held_item-ok lease db item h = ground arith

pub get_job-ended :
    (wall : ℕ) (lease : LeasedJobItem) (status : JobItemStatus) (result : Option Data)
    (error_code error_summary : Option String) (item : JobItem) (db : Db) (id : ℕ)
    → get_job (ended wall lease status result error_code error_summary item db) id ≡ get_job db id
unfolding get_job add_event put_item
get_job-ended wall lease status result error_code error_summary item db id = refl

pub finish_item-Ended :
    (wall : ℕ) (lease : LeasedJobItem) (status : JobItemStatus) (result : Option Data)
    (error_code error_summary : Option String) (db db' : Db)
    → finish_item wall lease status result error_code error_summary db ≡ ok db'
    → Ended wall lease status result error_code error_summary db db'
unfolding finish_item
finish_item-Ended wall lease status result error_code error_summary db db' h =
    let (item, held, rest) = first_step _ (held_item lease db) db' h in
    let (found, owned) = held_item-ok lease db item held in
    elim (Option-cases
      (get_job (ended wall lease status result error_code error_summary item db) lease.job_id)) [
        | inl e ↦ absurd (ground arith)
        | inr (j, e) ↦ record {
          item = item;
          found = found;
          owned = owned;
          job = j;
          loaded =
              sym (
                get_job-ended wall lease status result error_code error_summary item db
                  lease.job_id)
              ∙ e;
          final = ground arith;
        }
      ]

-- The tables after a retry was scheduled.
pub record Retried (wall : ℕ) (lease : LeasedJobItem) (error_code error_summary : String)
    (result : Option Data) (delay_seconds : Option ℕ) (db db' : Db) : Type 0 where
  pub item : JobItem
  pub found : get_item db lease.id ≡ some item
  pub owned : owned_by item.lease_owner lease.lease_owner ≡ true
  pub items :
      db'.items
      ≡ (put_item db (
          retry_row wall
            (retry_delay delay_seconds lease.attempt_count)
            result
            error_code
            error_summary
            item)).items
  pub jobs : db'.jobs ≡ db.jobs

pub schedule_retry-Retried :
    (wall : ℕ) (lease : LeasedJobItem) (error_code error_summary : String) (result : Option Data)
    (delay_seconds : Option ℕ) (db db' : Db)
    → schedule_retry wall lease error_code error_summary result delay_seconds db ≡ ok db'
    → Retried wall lease error_code error_summary result delay_seconds db db'
unfolding schedule_retry add_event put_item
schedule_retry-Retried wall lease error_code error_summary result delay_seconds db db' h =
    let (item, held, rest) = first_step _ (held_item lease db) db' h in
    let (found, owned) = held_item-ok lease db item held in
    record { item = item; found = found; owned = owned; items = ground arith; jobs = ground arith }
