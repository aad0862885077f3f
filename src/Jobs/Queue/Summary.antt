-- ===== src/Jobs/Queue/Summary.antt =====
-- `_refresh_job_summary`: the counters of a job and, once no item is unfinished, its final status.
use smart_email_manager.Prelude.{
  ℕ, Bool, ◌&&◌, ◌||◌, Option, none, some, List, [], ◌∷◌, ltb, ◌==◌, if◌then◌else◌, is_some,
  count_where,
}
use smart_email_manager.Jobs.Model.{
  Job, JobItemStatus, JobStatus, Db, Data, num, completed, partial, is_succeeded, is_failed,
  is_skipped, is_unfinished, get_job, put_job, add_event,
}

-- func.count().filter(...) over the items of one job
unfoldable pub count_items : Db → ℕ → (JobItemStatus → Bool) → ℕ
count_items db job_id test = count_where (λ i. i.job_id == job_id && test i.status) db.items

unfoldable pub settled_status : Option ℕ → ℕ → ℕ → ℕ → JobStatus
settled_status cancel_requested_at succeeded failed skipped =
    if is_some cancel_requested_at
    then JobStatus.cancelled
    else if ltb 0 failed && (ltb 0 succeeded || ltb 0 skipped)
    then partial
    else if ltb 0 failed
    then JobStatus.failed
    else completed

-- The job with its counters, before the test on unfinished items.
unfoldable pub counted : Db → Job → Job
counted db job = record job {
  succeeded_count = count_items db job.id is_succeeded;
  failed_count = count_items db job.id is_failed;
  skipped_count = count_items db job.id is_skipped;
}

abbrev pub summary_data : Job → Data
summary_data job =
    ("succeeded_count", num job.succeeded_count)
    ∷ ("failed_count", num job.failed_count)
    ∷ ("skipped_count", num job.skipped_count)
    ∷ []

-- The job with its final status and its end.
unfoldable pub settled : ℕ → Job → Job
settled wall job = record job {
  finished_at = some wall;
  status =
      settled_status job.cancel_requested_at job.succeeded_count job.failed_count job.skipped_count;
}

unfoldable pub refresh_job_summary : ℕ → Job → Db → Db
refresh_job_summary wall job db =
    let job' = counted db job in
    if ltb 0 (count_items db job.id is_unfinished)
    then put_job db job'
    else add_event (put_job db (settled wall job')) job.id none "job.finished" "info"
        (summary_data job')

-- The loop of the callers: `job = await session.get(...)`, and the refresh if the job is there.
unfoldable pub refresh_by_id : ℕ → ℕ → Db → Db
refresh_by_id wall job_id db = elim (get_job db job_id) [
  | none ↦ db
  | some job ↦ refresh_job_summary wall job db
]

unfoldable pub refresh_all : ℕ → List ℕ → Db → Db
refresh_all wall [] db = db
refresh_all wall (job_id ∷ rest) db = refresh_all wall rest (refresh_by_id wall job_id db)
