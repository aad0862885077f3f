-- ===== src/Jobs/Machine.antt =====
-- The requests of the API on the run of a job, cancel, pause and resume of services/jobs.py, against
-- a table of what each does in each status.
use smart_email_manager.Prelude.{
  ℕ, Bool, true, false, String, Option, none, some, List, [], ◌∷◌, ◌==◌, if◌then◌else◌, is_some,
}
use smart_email_manager.Problem.{Failure, Result, ok, err, problem, after}
use smart_email_manager.Jobs.Model.{
  Job, JobStatus, Db, queued, pausing, paused, cancelling, cancelled, completed, partial,
}
use smart_email_manager.Jobs.Control.{request_job_cancel, request_job_pause, resume_job}

pub data Verb : Type 0 where
  cancel pause resume : Verb

-- What a request does to a job in a status: it stays, it changes, or it is refused.
pub data Response : Type 0 where
  stays : Response
  becomes : JobStatus → Response
  refused : String → Response

-- The table, for a job of which no item ran yet and for one that was started.
unfoldable pub response : Verb → Bool → JobStatus → Response
response cancel started queued = becomes cancelling
response cancel started JobStatus.running = becomes cancelling
response cancel started pausing = becomes cancelling
response cancel started paused = becomes cancelling
response cancel started cancelling = becomes cancelling
response cancel started cancelled = stays
response cancel started completed = stays
response cancel started partial = stays
response cancel started JobStatus.failed = stays
response pause started queued = becomes pausing
response pause started JobStatus.running = becomes pausing
response pause started pausing = becomes pausing
response pause started paused = stays
response pause started cancelling = refused "JOB_CANCELLING"
response pause started cancelled = stays
response pause started completed = stays
response pause started partial = stays
response pause started JobStatus.failed = stays
response resume false paused = becomes queued
response resume true paused = becomes JobStatus.running
response resume started _ = refused "JOB_NOT_PAUSED"

-- The time of the last cancellation after a request that changes the job.
abbrev pub asked_at : Verb → ℕ → Option ℕ → Option ℕ
asked_at cancel time last = some time
asked_at pause time last = last
asked_at resume time last = last

-- The row after a response.
abbrev pub respond : Response → Verb → ℕ → Job → Job
respond stays verb time job = job
respond (becomes status) verb time job = record job {
  status = status;
  cancel_requested_at = asked_at verb time job.cancel_requested_at;
}
respond (refused code) verb time job = job

abbrev pub answered : Verb → ℕ → Job → Job
answered verb time job = respond (response verb (is_some job.started_at) job.status) verb time job

pub record Request : Type 0 where
  pub verb : Verb
  pub time : ℕ
  pub job_id : ℕ

unfoldable pub ask : Verb → ℕ → ℕ → Db → Result Db
ask cancel time job_id db = request_job_cancel time job_id db
ask pause time job_id db = request_job_pause job_id db
ask resume time job_id db = resume_job job_id db

-- The requests one after the other: a refused one changes nothing.
unfoldable pub serve : List Request → Db → Db
serve [] db = db
serve (r ∷ requests) db = serve requests (after db (ask r.verb r.time r.job_id db))

-- The row that the table makes of a job over the same requests, of which those for other jobs do
-- nothing.
unfoldable pub follow : List Request → ℕ → Job → Job
follow [] id job = job
follow (r ∷ requests) id job =
    follow requests id (if r.job_id == id then answered r.verb r.time job else job)

-- The failure that a table entry stands for.
abbrev pub refusal : Response → Option Failure
refusal stays = none
refusal (becomes status) = none
refusal (refused code) = some (problem 409 code)

abbrev pub expected_failure : Verb → Option Job → Option Failure
expected_failure verb none = some (problem 404 "JOB_NOT_FOUND")
expected_failure verb (some job) = refusal (response verb (is_some job.started_at) job.status)

abbrev pub failure_of : Result Db → Option Failure
failure_of (err failure) = some failure
failure_of (ok db) = none
