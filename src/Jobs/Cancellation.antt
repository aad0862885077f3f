-- ===== src/Jobs/Cancellation.antt =====
-- Cancelling a job: what `cancel_pending_items` leaves, and that a round ends a cancelling job.
use smart_email_manager.Prelude.{
  is_in, ℕ, ◌≡◌, refl, sym, ◌∙◌, ap, some-injective, ◌⊎◌, inl, inr, true, false, ◌&&◌, Option, none,
  some, List, [], ◌∷◌, map, arith, ◌==◌, ==_iff, is_some, find_where, select_where, update_where,
  count_where, All, All-update, All-unit, All-mono, Memᴰ, Mem-update_where, Bool-cases,
}
use smart_email_manager.Jobs.Model.{
  Job, JobItem, JobStatus, Db, get_job, is_held, is_waiting, is_unfinished, is_cancelling,
}
use smart_email_manager.Jobs.Queue.Summary.{
  count_items, counted, settled, settled_status, refresh_job_summary, refresh_by_id, refresh_all,
}
use smart_email_manager.Jobs.Queue.Settle.{
  cancelling_ids, is_cancellable, cancel_row, cancel_pending_items,
}
use smart_email_manager.Jobs.Rows.{get_job-id, get_job-refresh, refreshed, count_items-cong}
use smart_email_manager.Jobs.Items.{items-refresh_job_summary, items-cancel_pending}

-- The unfinished items of such a job are then those that workers hold.
count-cancelled :
    (now id : ℕ) (ids : List ℕ) (is : List JobItem)
    → is_in id ids ≡ true
    → count_where
        (λ i. i.job_id == id && is_unfinished i.status)
        (update_where (is_cancellable ids) (cancel_row now) is)
      ≡ count_where (λ i. i.job_id == id && is_held i.status) is
unfolding count_where update_where is_cancellable cancel_row is_waiting is_held is_unfinished
count-cancelled now id ids [] h = refl
count-cancelled now id ids (i ∷ is) h = ground (arith, count-cancelled now id ids is h)

-- A job whose cancellation was requested, with no unfinished item.
abbrev IsIdleJob : ℕ → Job → Db → Type 0
IsIdleJob id job db =
    (get_job db id ≡ some job)
    × (is_some job.cancel_requested_at ≡ true)
    × (count_items db id is_unfinished ≡ 0)

refreshed-idle :
    (wall id : ℕ) (job : Job) (db : Db)
    → IsIdleJob id job db
    → ((refreshed wall job db).status ≡ JobStatus.cancelled)
      × (is_some (refreshed wall job db).cancel_requested_at ≡ true)
unfolding refreshed counted settled settled_status
refreshed-idle wall id job db h =
    let same = get_job-id db id job h.0 in
    let quiet : count_items db job.id is_unfinished ≡ 0 =
      ap (λ n. count_items db n is_unfinished) same ∙ h.2 in
    ground arith

-- It stays such a job, and is cancelled if it was, or if it is the one refreshed.
abbrev StaysIdle : ℕ → ℕ → Job → Db → Type 0
StaysIdle id other job db =
    (job' : Job) × IsIdleJob id job' db
    × ((job.status ≡ JobStatus.cancelled) ⊎ (other ≡ id) → job'.status ≡ JobStatus.cancelled)

refresh_summary-idle :
    (wall id other : ℕ) (job j : Job) (db : Db)
    → get_job db other ≡ some j
    → IsIdleJob id job db
    → StaysIdle id other job (refresh_job_summary wall j db)
refresh_summary-idle wall id other job j db e h =
    let d = refresh_job_summary wall j db in
    let key = get_job-id db other j e in
    let read = get_job-refresh wall j db id (ap (get_job db) key ∙ e) in
    let quiet =
      count_items-cong db d id is_unfinished (items-refresh_job_summary wall j db) ∙ h.2 in
    elim (Bool-cases (j.id == id)) [
      | inl same ↦
          let here = (==_iff j.id id).0 same in
          let one : j ≡ job =
            some-injective j job (sym e ∙ ap (get_job db) (sym key ∙ here) ∙ h.0) in
          let done = refreshed-idle wall id j db (
            ap (get_job db) (sym here ∙ key) ∙ e,
            ap (λ (x : Job). is_some x.cancel_requested_at) one ∙ h.1,
            h.2,
          ) in
          (refreshed wall j db, (read ∙ rw same, done.1, quiet), λ _. done.0)
      | inr apart ↦ (
        job,
        (read ∙ rw apart h.0, h.1, quiet),
        λ q. elim q [ inl c ↦ c | inr o ↦ absurd (ground (arith, key)) ],
      )
    ]

refresh-idle :
    (wall id other : ℕ) (job : Job) (db : Db)
    → IsIdleJob id job db
    → StaysIdle id other job (refresh_by_id wall other db)
unfolding refresh_by_id
refresh-idle wall id other job db h = go (get_job db other) refl
  where
    go :
        (o : Option Job)
        → get_job db other ≡ o
        → StaysIdle id other job (refresh_by_id wall other db)
    go none e =
        rw (e, refresh_by_id)
          (
            job,
            h,
            λ q. elim q [ inl c ↦ c | inr same ↦ absurd (cc (h.0, e, ap (get_job db) same)) ],
          )
    go (some j) e = rw (e, refresh_by_id) (refresh_summary-idle wall id other job j db e h)

refresh_all-cancels :
    (wall id : ℕ) (ids : List ℕ) (job : Job) (db : Db)
    → IsIdleJob id job db
    → (job.status ≡ JobStatus.cancelled) ⊎ (is_in id ids ≡ true)
    → (job' : Job) × IsIdleJob id job' (refresh_all wall ids db)
      × (job'.status ≡ JobStatus.cancelled)
unfolding refresh_all is_in
refresh_all-cancels wall id [] job db h (inl c) = (job, h, c)
refresh_all-cancels wall id [] job db h (inr q) = absurd (cc q)
refresh_all-cancels wall id (other ∷ ids) job db h q =
    let (job', h', done) = refresh-idle wall id other job db h in
    refresh_all-cancels wall id ids job' (refresh_by_id wall other db) h' (next q done)
  where
    next :
        {P : Type 0}
        → (job.status ≡ JobStatus.cancelled) ⊎ (is_in id (other ∷ ids) ≡ true)
        → ((job.status ≡ JobStatus.cancelled) ⊎ (other ≡ id) → P)
        → P ⊎ (is_in id ids ≡ true)
    next (inl c) f = inl (f (inl c))
    next (inr q) f = elim (Bool-cases (id == other)) [
      | inl e ↦ inl (f (inr (ground arith)))
      | inr e ↦ inr (ground arith)
    ]

find-is_in :
    (id : ℕ) (job : Job) (js : List Job)
    → find_where (λ j. j.id == id) js ≡ some job
    → is_cancelling job.status ≡ true
    → is_in id (map (λ j. j.id) (select_where (λ j. is_cancelling j.status) js)) ≡ true
unfolding find_where select_where is_in
find-is_in id job [] e c = absurd (cc e)
find-is_in id job (j ∷ js) e c = ground (arith, find-is_in id job js)

is_in-none :
    (id : ℕ) (js : List Job)
    → All (λ j. (j.id == id) ≡ true → is_cancelling j.status ≡ false) js
    → is_in id (map (λ j. j.id) (select_where (λ j. is_cancelling j.status) js)) ≡ false
unfolding select_where is_in
is_in-none id [] h = refl
is_in-none id (j ∷ js) h = elim (Bool-cases (is_cancelling j.status)) [
  | inl c ↦ ground (arith, is_in-none id js h.1, h.0)
  | inr c ↦ rw c (is_in-none id js h.1)
]

not_waiting :
    (now : ℕ) (ids : List ℕ) (rows : List JobItem)
    → All
        (λ i. is_in i.job_id ids ≡ true → is_waiting i.status ≡ false)
        (update_where (is_cancellable ids) (cancel_row now) rows)
unfolding is_cancellable cancel_row is_waiting
not_waiting now ids rows =
    All-update (λ _. Unit {0}) _ (is_cancellable ids) (cancel_row now) rows (λ i u h q. refl)
      (λ i u h q. ground arith) (All-unit rows)

-- After the pass no item of a job that was cancelling waits for a worker, and every item of which no
-- cancelling job has the id as its job is still there, as it was.
pub cancel_pending_clears :
    (now wall : ℕ) (db : Db)
    → let after_pass = (cancel_pending_items now wall db).0.items in
      ((id : ℕ) (job : Job)
        → get_job db id ≡ some job
        → is_cancelling job.status ≡ true
        → All (λ i. (i.job_id ≡ id) → is_waiting i.status ≡ false) after_pass)
      × ((item : JobItem)
          → Memᴰ item db.items
          → All (λ j. (j.id == item.job_id) ≡ true → is_cancelling j.status ≡ false) db.jobs
          → Memᴰ item after_pass)
unfolding is_cancellable get_job cancelling_ids
cancel_pending_clears now wall db = (
  λ id job e c.
      let mine = find-is_in id job db.jobs e c in
      rw (items-cancel_pending now wall db) (
        All-mono (λ i. is_in i.job_id (cancelling_ids db) ≡ true → is_waiting i.status ≡ false)
          (λ i. (i.job_id ≡ id) → is_waiting i.status ≡ false) _ (λ i h same. h (rw same mine))
          (not_waiting now (cancelling_ids db) db.items)),
  λ item m free.
      let apart = is_in-none item.job_id db.jobs free in
      rw (items-cancel_pending now wall db) (
        Mem-update_where (is_cancellable (cancelling_ids db)) (cancel_row now) item db.items
          (rw apart refl) m),
)

-- The pass of one round ends a job whose cancellation was requested and that no worker works on:
-- the job is cancelled, and none of its items is left unfinished.
pub cancel_pending_ends :
    (now wall id : ℕ) (job : Job) (db : Db)
    → get_job db id ≡ some job
    → is_cancelling job.status ≡ true
    → is_some job.cancel_requested_at ≡ true
    → count_items db id is_held ≡ 0
    → let db' = (cancel_pending_items now wall db).0 in
      (job' : Job) × (get_job db' id ≡ some job')
      × (job'.status ≡ JobStatus.cancelled)
      × (count_items db' id is_unfinished ≡ 0)
unfolding cancel_pending_items count_items get_job cancelling_ids
cancel_pending_ends now wall id job db e c asked idle =
    let ids = cancelling_ids db in
    let mine = find-is_in id job db.jobs e c in
    let written : Db = record db {
      items = update_where (is_cancellable ids) (cancel_row now) db.items;
    } in
    let done =
      refresh_all-cancels wall id ids job written
        (e, asked, count-cancelled now id ids db.items mine ∙ idle) (inr mine) in
    (done.0, done.1.0, done.2, done.1.2)
