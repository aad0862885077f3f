-- ===== src/Jobs/Rows.antt =====
-- The laws of `get_job` and `put_job`, and what a refresh of one job does to another.
use mathlib.Core.Option
use smart_email_manager.Prelude.{
  ℕ, ◌≡◌, refl, ◌∙◌, ap, String, Bool, Option, some, List, [], ◌∷◌, ◌&&◌, arith, ltb, ◌==◌, ==_iff,
  if◌then◌else◌, find_where, update_where, count_where, find_where-member,
}
use smart_email_manager.Jobs.Model.{
  Job, JobItemStatus, Db, Data, get_job, put_job, add_event, is_unfinished,
}
use smart_email_manager.Jobs.Queue.Summary.{count_items, counted, settled, refresh_job_summary}

pub get_job-id : (db : Db) (id : ℕ) (job : Job) → get_job db id ≡ some job → job.id ≡ id
unfolding get_job
get_job-id db id job e = (==_iff job.id id).0 (find_where-member (λ j. j.id == id) db.jobs job e).1

find-put :
    (job : Job) (id : ℕ) (js : List Job)
    → find_where (λ j. j.id == id) (update_where (λ j. j.id == job.id) (λ _. job) js) ≡ (
        if job.id == id
        then Option.map (λ _. job) (find_where (λ j. j.id == id) js)
        else find_where (λ j. j.id == id) js)
unfolding find_where update_where
find-put job id [] = ground arith
find-put job id (j ∷ js) = ground (arith, find-put job id js)

-- A written row is read back under its id, and the others stay.
pub get_job-put_job :
    (db : Db) (job : Job) (id : ℕ)
    → get_job (put_job db job) id
      ≡ (if job.id == id then Option.map (λ _. job) (get_job db id) else get_job db id)
unfolding get_job put_job
get_job-put_job db job id = find-put job id db.jobs

pub get_job-add_event :
    (db : Db) (job_id : ℕ) (item_id : Option ℕ) (event_type level : String) (info : Data) (id : ℕ)
    → get_job (add_event db job_id item_id event_type level info) id ≡ get_job db id
unfolding get_job add_event
get_job-add_event db job_id item_id event_type level info id = refl

pub count_items-cong :
    (db db' : Db) (job_id : ℕ) (test : JobItemStatus → Bool)
    → db'.items ≡ db.items
    → count_items db' job_id test ≡ count_items db job_id test
unfolding count_items
count_items-cong db db' job_id test e =
    ap (count_where (λ i. i.job_id == job_id && test i.status)) e

-- The job as a refresh leaves it.
unfoldable pub refreshed : ℕ → Job → Db → Job
refreshed wall job db =
    if ltb 0 (count_items db job.id is_unfinished)
    then counted db job
    else settled wall (counted db job)

refreshed-id : (wall : ℕ) (job : Job) (db : Db) → (refreshed wall job db).id ≡ job.id
unfolding refreshed counted settled
refreshed-id wall job db = ground arith

get_job-refresh_put :
    (wall : ℕ) (job : Job) (db : Db) (id : ℕ)
    → get_job (refresh_job_summary wall job db) id ≡ get_job (put_job db (refreshed wall job db)) id
unfolding refresh_job_summary refreshed add_event get_job put_job
get_job-refresh_put wall job db id = ground arith

-- A refresh of a job that is there writes that job, and leaves the others.
pub get_job-refresh :
    (wall : ℕ) (job : Job) (db : Db) (id : ℕ)
    → get_job db job.id ≡ some job
    → get_job (refresh_job_summary wall job db) id
      ≡ (if job.id == id then some (refreshed wall job db) else get_job db id)
get_job-refresh wall job db id e =
    get_job-refresh_put wall job db id
    ∙ get_job-put_job db (refreshed wall job db) id
    ∙ ground (arith, refreshed-id wall job db, e)
