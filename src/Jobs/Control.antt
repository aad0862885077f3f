-- ===== src/Jobs/Control.antt =====
-- services/jobs.py: cancel, pause, resume, and the pass of the worker that finalizes pauses.
use smart_email_manager.Prelude.{
  ℕ, ◌+◌, Bool, ◌&&◌, ◌||◌, not, none, some, List, [], ◌∷◌, ltb, if◌then◌else◌, is_some,
  select_where, take_rows,
}
use smart_email_manager.Problem.{Result, ok, err, problem, ◌>>=◌}
use smart_email_manager.Jobs.Model.{
  Job, JobStatus, Db, is_held, is_terminal, is_cancelling, is_pausing, is_paused, queued, pausing,
  paused, cancelling, get_job, put_job, add_event,
}
use smart_email_manager.Jobs.Queue.Summary.{count_items}

unfoldable pub get_job_or_404 : ℕ → Db → Result Job
get_job_or_404 job_id db = elim (get_job db job_id) [
  | none ↦ err (problem 404 "JOB_NOT_FOUND")
  | some job ↦ ok job
]

unfoldable pub request_job_cancel : ℕ → ℕ → Db → Result Db
request_job_cancel wall job_id db = do
  job ← get_job_or_404 job_id db
  if is_terminal job.status
      then ok db
      else ok (
          add_event
            (put_job db (record job { cancel_requested_at = some wall; status = cancelling }))
            job.id none "job.cancel_requested" "info" [])

unfoldable pub request_job_pause : ℕ → Db → Result Db
request_job_pause job_id db = do
  job ← get_job_or_404 job_id db
  if is_terminal job.status || is_paused job.status
      then ok db
      else if is_cancelling job.status
      then err (problem 409 "JOB_CANCELLING")
      else ok (
          add_event (put_job db (record job { status = pausing })) job.id none "job.pause_requested"
            "info" [])

-- One job of the loop of `finalize_pausing_jobs`.
unfoldable pub finalize_one : Job → Db × ℕ → Db × ℕ
finalize_one job (db, n) = if ltb 0 (count_items db job.id is_held) then (db, n) else (
  add_event (put_job db (record job { status = paused })) job.id none "job.paused" "info" [],
  n + 1,
)

unfoldable pub finalize_loop : List Job → Db × ℕ → Db × ℕ
finalize_loop [] s = s
finalize_loop (job ∷ jobs) s = finalize_loop jobs (finalize_one job s)

-- SELECT ... WHERE status = 'pausing' FOR UPDATE SKIP LOCKED LIMIT 100
unfoldable pub pausing_jobs : (ℕ → Bool) → Db → List Job
pausing_jobs locked db =
    take_rows 100 (select_where (λ j. not (locked j.id) && is_pausing j.status) db.jobs)

unfoldable pub finalize_pausing_jobs : (ℕ → Bool) → Db → Db × ℕ
finalize_pausing_jobs locked db = finalize_loop (pausing_jobs locked db) (db, 0)

unfoldable pub resume_job : ℕ → Db → Result Db
resume_job job_id db = do
  job ← get_job_or_404 job_id db
  if is_paused job.status
      then ok (
          add_event
            (put_job db (record job {
              status = if is_some job.started_at then JobStatus.running else queued;
            }))
            job.id none "job.resumed" "info" [])
      else err (problem 409 "JOB_NOT_PAUSED")
