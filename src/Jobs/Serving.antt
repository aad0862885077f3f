-- ===== src/Jobs/Serving.antt =====
-- Cancel, pause and resume of services/jobs.py beside the table of Jobs/Machine, request by request.
use smart_email_manager.Prelude.{
  ℕ, ◌≡◌, refl, sym, ◌∙◌, ap, Bool, true, false, inl, inr, some, List, [], ◌∷◌, arith, ◌==◌, ==_iff,
  if◌then◌else◌, is_some, Bool-cases, Option-cases,
}
use smart_email_manager.Problem.{after}
use smart_email_manager.Jobs.Model.{
  Job, JobStatus, Db, queued, pausing, cancelling, get_job, is_terminal, is_paused, is_cancelling,
}
use smart_email_manager.Jobs.Control.{
  get_job_or_404, request_job_cancel, request_job_pause, resume_job,
}
use smart_email_manager.Jobs.ControlEffects.{
  Rewrites, terminal_stays, unknown_job, cancel_effect, pause_effect,
}
use smart_email_manager.Jobs.Machine.{
  becomes, Verb, cancel, pause, resume, response, answered, Request, ask, serve, follow,
  expected_failure, failure_of,
}

same-Rewrites : (id : ℕ) (job : Job) (db : Db) → get_job db id ≡ some job → Rewrites id job db db
same-Rewrites id job db e k = elim (Bool-cases (id == k)) [
  | inl hit ↦ let same = (==_iff id k).0 hit in ap (get_job db) (sym same) ∙ e ∙ rw hit refl
  | inr miss ↦ rw miss refl
]

-- What one request does to the tables: the job that it names becomes what the table makes of it.
abbrev Effect : Verb → ℕ → ℕ → Db → Job → Type 0
Effect verb time id db job =
    Rewrites id (answered verb time job) db (after db (ask verb time id db))

terminal-response :
    (verb : Verb) (time : ℕ) (job : Job)
    → is_terminal job.status ≡ true
    → answered verb time job ≡ job
unfolding is_terminal response
terminal-response cancel time job h = ground arith
terminal-response pause time job h = ground arith
terminal-response resume time job h = ground arith

cancel-response :
    (started : Bool) (status : JobStatus)
    → is_terminal status ≡ false
    → response cancel started status ≡ becomes cancelling
unfolding is_terminal response
cancel-response started status h = ground arith

-- A job that is cancelling or paused stays at a pause, and one that is not paused at a resumption.
quiet-response :
    (time : ℕ) (job : Job)
    → (is_cancelling job.status ≡ true → answered pause time job ≡ job)
      × (is_paused job.status ≡ true → answered pause time job ≡ job)
      × (is_paused job.status ≡ false → answered resume time job ≡ job)
unfolding is_cancelling is_paused response
quiet-response time job = (λ h. ground arith, λ h. ground arith, λ h. ground arith)

pause-response :
    (started : Bool) (status : JobStatus)
    → is_terminal status ≡ false
    → is_cancelling status ≡ false
    → is_paused status ≡ false
    → response pause started status ≡ becomes pausing
unfolding is_terminal is_cancelling is_paused response
pause-response started status h k l = ground arith

resume-response :
    (started : Bool) (status : JobStatus)
    → is_paused status ≡ true
    → response resume started status ≡ becomes (if started then JobStatus.running else queued)
unfolding is_paused response
resume-response started status h = ground arith

-- A request that leaves the tables, at a job that it leaves.
stays-Effect :
    (verb : Verb) (time id : ℕ) (db : Db) (job : Job)
    → get_job db id ≡ some job
    → after db (ask verb time id db) ≡ db
    → answered verb time job ≡ job
    → Effect verb time id db job
stays-Effect verb time id db job e same quiet = rw (same, quiet) (same-Rewrites id job db e)

ask-Effect :
    (verb : Verb) (time id : ℕ) (db : Db) (job : Job)
    → get_job db id ≡ some job
    → Effect verb time id db job
unfolding ask
ask-Effect verb time id db job e = elim (Bool-cases (is_terminal job.status)) [
  | inl t ↦
      let still = terminal_stays time id db job e t in
      stays-Effect verb time id db job e
        (elim verb as (λ v. after db (ask v time id db) ≡ db) [
          | cancel ↦ ap (after db) still.0
          | pause ↦ ap (after db) still.1
          | resume ↦ ap (after db) still.2
        ])
        (terminal-response verb time job t)
  | inr t ↦ go verb t
]
  where
    go : (v : Verb) → is_terminal job.status ≡ false → Effect v time id db job
    go cancel t =
        let (db', made, writes) = cancel_effect time id db job e t in
        rw (cancel-response (is_some job.started_at) job.status t, made) writes
    go pause t =
        let (busy, idle, shut, free) = pause_effect id db job e t in
        let quiet = quiet-response time job in
        elim (Bool-cases (is_cancelling job.status)) [
          | inl c ↦ stays-Effect pause time id db job e (ap (after db) (busy c)) (quiet.0 c)
          | inr c ↦ elim (Bool-cases (is_paused job.status)) [
            | inl p ↦ stays-Effect pause time id db job e (ap (after db) (idle p).0) (quiet.1 p)
            | inr p ↦
                let (db', made, writes) = free p c in
                rw (pause-response (is_some job.started_at) job.status t c p, made) writes
          ]
        ]
    go resume t =
        let (busy, idle, shut, free) = pause_effect id db job e t in
        let quiet = quiet-response time job in
        elim (Bool-cases (is_paused job.status)) [
          | inr p ↦ stays-Effect resume time id db job e (ap (after db) (shut p)) (quiet.2 p)
          | inl p ↦
              let (db', made, writes) = (idle p).1 in
              rw (resume-response (is_some job.started_at) job.status p, made) writes
        ]

-- The job after one request, for it or for another job.
served-once :
    (r : Request) (db : Db) (id : ℕ) (job : Job)
    → get_job db id ≡ some job
    → get_job (after db (ask r.verb r.time r.job_id db)) id
      ≡ some (if r.job_id == id then answered r.verb r.time job else job)
unfolding ask
served-once r db id job e = elim (Bool-cases (r.job_id == id)) [
  | inl hit ↦
      let same = (==_iff r.job_id id).0 hit in
      ask-Effect r.verb r.time r.job_id db job (ap (get_job db) same ∙ e) id ∙ rw hit refl
  | inr miss ↦ elim (Option-cases (get_job db r.job_id)) [
    | inl n ↦
        let missing = unknown_job r.time r.job_id db n in
        let still : after db (ask r.verb r.time r.job_id db) ≡ db =
          elim r.verb as (λ v. after db (ask v r.time r.job_id db) ≡ db) [
            | cancel ↦ ap (after db) missing.0
            | pause ↦ ap (after db) missing.1
            | resume ↦ ap (after db) missing.2
          ] in
        ap (λ d. get_job d id) still ∙ e ∙ rw miss refl
    | inr (other, f) ↦ ask-Effect r.verb r.time r.job_id db other f id ∙ rw miss e
  ]
]

-- A request fails exactly where the table of Jobs.Machine refuses it, with a 409 and the code of the
-- table, and with a 404 where there is no such job; everywhere else it is answered.
pub ask-answer :
    (verb : Verb) (time id : ℕ) (db : Db)
    → failure_of (ask verb time id db) ≡ expected_failure verb (get_job db id)
unfolding ask request_job_cancel request_job_pause resume_job get_job_or_404 response is_terminal
    is_paused is_cancelling
ask-answer cancel time id db = elim (Option-cases (get_job db id)) [
  | inl e ↦ rw (e, get_job_or_404) refl
  | inr (job, e) ↦ ground arith
]
ask-answer pause time id db = elim (Option-cases (get_job db id)) [
  | inl e ↦ rw (e, get_job_or_404) refl
  | inr (job, e) ↦ ground arith
]
ask-answer resume time id db = elim (Option-cases (get_job db id)) [
  | inl e ↦ rw (e, get_job_or_404) refl
  | inr (job, e) ↦ ground arith
]

-- Whatever cancellations, pauses and resumptions the API serves, of whatever jobs and in whatever
-- order, the row of a job that is there is in the end what the table of Jobs.Machine makes of it: its
-- status and the time of its last cancellation are those of the table, and the rest of the row stays.
pub serve-follows :
    (requests : List Request) (db : Db) (id : ℕ) (job : Job)
    → get_job db id ≡ some job
    → get_job (serve requests db) id ≡ some (follow requests id job)
unfolding serve follow
serve-follows [] db id job e = e
serve-follows (r ∷ requests) db id job e =
    serve-follows requests (after db (ask r.verb r.time r.job_id db)) id
      (if r.job_id == id then answered r.verb r.time job else job) (served-once r db id job e)
