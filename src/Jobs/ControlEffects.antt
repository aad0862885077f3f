-- ===== src/Jobs/ControlEffects.antt =====
-- The state machine that the API sees: what cancel, pause and resume do to every job.
use smart_email_manager.Prelude.{
  ℕ, ◌≡◌, ◌∙◌, String, true, false, none, some, [], arith, ◌==◌, if◌then◌else◌, is_some,
}
use smart_email_manager.Problem.{ok, err, problem}
use smart_email_manager.Jobs.Model.{
  Job, JobStatus, Db, queued, pausing, cancelling, get_job, put_job, add_event, is_terminal,
  is_paused, is_cancelling,
}
use smart_email_manager.Jobs.Control.{
  get_job_or_404, request_job_cancel, request_job_pause, resume_job,
}
use smart_email_manager.Jobs.Rows.{get_job-id, get_job-put_job}

-- The tables differ in one job row at most, which is now `job`.
abbrev pub Rewrites : ℕ → Job → Db → Db → Type 0
Rewrites id job db db' = (k : ℕ) → get_job db' k ≡ (if id == k then some job else get_job db k)

put-Rewrites :
    (db : Db) (id : ℕ) (old job : Job)
    → get_job db id ≡ some old
    → job.id ≡ id
    → Rewrites id job db (put_job db job)
put-Rewrites db id old job e same k = get_job-put_job db job k ∙ ground arith

-- A job that has ended stays as it is: a cancellation or a pause changes nothing, and a resumption
-- is refused.
pub terminal_stays :
    (wall id : ℕ) (db : Db) (job : Job)
    → get_job db id ≡ some job
    → is_terminal job.status ≡ true
    → (request_job_cancel wall id db ≡ ok db)
      × (request_job_pause id db ≡ ok db)
      × (resume_job id db ≡ err (problem 409 "JOB_NOT_PAUSED"))
unfolding request_job_cancel request_job_pause resume_job get_job_or_404 is_terminal is_paused
terminal_stays wall id db job e t = ground arith

-- An unknown job is a 404 for each of the three, and the tables stay.
pub unknown_job :
    (wall id : ℕ) (db : Db)
    → get_job db id ≡ none
    → let missing = err (problem 404 "JOB_NOT_FOUND") in
      (request_job_cancel wall id db ≡ missing)
      × (request_job_pause id db ≡ missing)
      × (resume_job id db ≡ missing)
unfolding request_job_cancel request_job_pause resume_job get_job_or_404
unknown_job wall id db e = ground arith

add_event-Rewrites :
    (id : ℕ) (job : Job) (db db' : Db) (event_type : String)
    → Rewrites id job db db'
    → Rewrites id job db (add_event db' job.id none event_type "info" [])
unfolding add_event get_job
add_event-Rewrites id job db db' event_type h = h

-- A job that has not ended is cancelling after a cancellation, with its time on record, and no
-- other job changes.
pub cancel_effect :
    (wall id : ℕ) (db : Db) (job : Job)
    → get_job db id ≡ some job
    → is_terminal job.status ≡ false
    → (db' : Db) × (request_job_cancel wall id db ≡ ok db')
      × Rewrites id (record job { cancel_requested_at = some wall; status = cancelling }) db db'
unfolding request_job_cancel get_job_or_404
cancel_effect wall id db job e t =
    let job' : Job = record job { cancel_requested_at = some wall; status = cancelling } in
    (
      add_event (put_job db job') job.id none "job.cancel_requested" "info" [],
      ground arith,
      add_event-Rewrites id job' db (put_job db job') "job.cancel_requested"
          (put-Rewrites db id job job' e (get_job-id db id job e)),
    )

-- A pause marks a queued, running or pausing job as pausing, is refused for a cancelling one, and
-- leaves a paused one; a paused job resumes to running if it had started, and to queued if not, and
-- no other job is resumed. No other job changes in either.
pub pause_effect :
    (id : ℕ) (db : Db) (job : Job)
    → get_job db id ≡ some job
    → is_terminal job.status ≡ false
    → (is_cancelling job.status ≡ true
        → request_job_pause id db ≡ err (problem 409 "JOB_CANCELLING"))
      × (is_paused job.status ≡ true
          → (request_job_pause id db ≡ ok db)
            × ((db' : Db) × (resume_job id db ≡ ok db')
                × Rewrites id
                    (record job {
                      status = if is_some job.started_at then JobStatus.running else queued;
                    })
                    db
                    db'))
      × (is_paused job.status ≡ false → resume_job id db ≡ err (problem 409 "JOB_NOT_PAUSED"))
      × (is_paused job.status ≡ false
          → is_cancelling job.status ≡ false
          → (db' : Db) × (request_job_pause id db ≡ ok db')
            × Rewrites id (record job { status = pausing }) db db')
unfolding request_job_pause resume_job get_job_or_404 is_paused is_cancelling
pause_effect id db job e t =
    let key = get_job-id db id job e in
    let paused' : Job = record job { status = pausing } in
    let resumed' : Job = record job {
      status = if is_some job.started_at then JobStatus.running else queued;
    } in
    (
      λ c. ground arith,
      λ p. (
        ground arith,
        (
          add_event (put_job db resumed') job.id none "job.resumed" "info" [],
          ground arith,
          add_event-Rewrites id resumed' db (put_job db resumed') "job.resumed"
              (put-Rewrites db id job resumed' e key),
        ),
      ),
      λ p. ground arith,
      λ p c. (
        add_event (put_job db paused') job.id none "job.pause_requested" "info" [],
        ground arith,
        add_event-Rewrites id paused' db (put_job db paused') "job.pause_requested"
            (put-Rewrites db id job paused' e key),
      ),
    )
