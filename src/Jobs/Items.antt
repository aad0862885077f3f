-- ===== src/Jobs/Items.antt =====
-- What each transaction does to `job_items`; the other tables are left out of sight.
use smart_email_manager.Prelude.{
  ℕ, ◌≡◌, refl, ◌∙◌, ◌⊎◌, inl, inr, Bool, List, [], ◌∷◌, ◌++◌, map, arith, update_where,
  select_where, Option-cases,
}
use smart_email_manager.Problem.{ok}
use smart_email_manager.Jobs.Model.{Job, Db, get_job, put_job, add_event}
use smart_email_manager.Jobs.Queue.Summary.{refresh_job_summary, refresh_by_id, refresh_all}
use smart_email_manager.Jobs.Queue.Settle.{
  has_expired, recover_row, distinct, recover_expired_leases, cancelling_ids, is_cancellable,
  cancel_row, cancel_pending_items,
}
use smart_email_manager.Jobs.Control.{
  get_job_or_404, request_job_cancel, request_job_pause, resume_job, finalize_one, finalize_loop,
  pausing_jobs, finalize_pausing_jobs,
}
use smart_email_manager.Jobs.Create.{JobRequest, Fresh, new_items, create_job}

pub items-refresh_job_summary :
    (wall : ℕ) (job : Job) (db : Db) → (refresh_job_summary wall job db).items ≡ db.items
unfolding refresh_job_summary add_event put_job
items-refresh_job_summary wall job db = ground arith

items-refresh_by_id : (wall job_id : ℕ) (db : Db) → (refresh_by_id wall job_id db).items ≡ db.items
unfolding refresh_by_id
items-refresh_by_id wall job_id db = elim (Option-cases (get_job db job_id)) [
  | inl e ↦ rw (e, refresh_by_id)
  | inr (j, e) ↦ rw (e, refresh_by_id) (items-refresh_job_summary wall j db)
]

pub items-refresh_all :
    (wall : ℕ) (ids : List ℕ) (db : Db) → (refresh_all wall ids db).items ≡ db.items
unfolding refresh_all
items-refresh_all wall [] db = refl
items-refresh_all wall (id ∷ ids) db =
    items-refresh_all wall ids (refresh_by_id wall id db) ∙ items-refresh_by_id wall id db

-- Expired rows are recovered, if there are any.
pub items-recover :
    (now wall : ℕ) (db : Db)
    → let items' = (recover_expired_leases now wall db).0.items in
      (items' ≡ db.items) ⊎ (items' ≡ update_where (has_expired now) recover_row db.items)
unfolding recover_expired_leases
items-recover now wall db =
    go (distinct (map (λ i. i.job_id) (select_where (has_expired now) db.items))) refl
  where
    go :
        (ids : List ℕ)
        → distinct (map (λ i. i.job_id) (select_where (has_expired now) db.items)) ≡ ids
        → let items' = (recover_expired_leases now wall db).0.items in
          (items' ≡ db.items) ⊎ (items' ≡ update_where (has_expired now) recover_row db.items)
    go [] e = inl (rw (e, recover_expired_leases))
    go (id ∷ ids) e = inr (
        rw (e, recover_expired_leases)
          (items-refresh_all wall (id ∷ ids)
            (record db { items = update_where (has_expired now) recover_row db.items })))

pub items-cancel_pending :
    (now wall : ℕ) (db : Db)
    → (cancel_pending_items now wall db).0.items
      ≡ update_where (is_cancellable (cancelling_ids db)) (cancel_row now) db.items
unfolding cancel_pending_items
items-cancel_pending now wall db = items-refresh_all wall (cancelling_ids db) (record db {
  items = update_where (is_cancellable (cancelling_ids db)) (cancel_row now) db.items;
})

items-finalize_one : (job : Job) (s : Db × ℕ) → (finalize_one job s).0.items ≡ s.0.items
unfolding finalize_one add_event put_job
items-finalize_one job (db, n) = ground arith

items-finalize_loop : (jobs : List Job) (s : Db × ℕ) → (finalize_loop jobs s).0.items ≡ s.0.items
unfolding finalize_loop
items-finalize_loop [] s = refl
items-finalize_loop (job ∷ jobs) s =
    items-finalize_loop jobs (finalize_one job s) ∙ items-finalize_one job s

pub items-finalize :
    (locked : ℕ → Bool) (db : Db) → (finalize_pausing_jobs locked db).0.items ≡ db.items
unfolding finalize_pausing_jobs
items-finalize locked db = items-finalize_loop (pausing_jobs locked db) (db, 0)

pub items-cancel :
    (wall job_id : ℕ) (db db' : Db)
    → request_job_cancel wall job_id db ≡ ok db'
    → db'.items ≡ db.items
unfolding request_job_cancel get_job_or_404 add_event put_job
items-cancel wall job_id db db' h = ground arith

pub items-pause :
    (job_id : ℕ) (db db' : Db) → request_job_pause job_id db ≡ ok db' → db'.items ≡ db.items
unfolding request_job_pause get_job_or_404 add_event put_job
items-pause job_id db db' h = ground arith

pub items-resume : (job_id : ℕ) (db db' : Db) → resume_job job_id db ≡ ok db' → db'.items ≡ db.items
unfolding resume_job get_job_or_404 add_event put_job
items-resume job_id db db' h = ground arith

pub items-create :
    (request : JobRequest) (fresh : Fresh) (selected : List ℕ) (db db' : Db) (job : Job)
    → create_job request fresh selected db ≡ ok (db', job)
    → (db'.items ≡ db.items)
      ⊎ (db'.items
          ≡ db.items
            ++ new_items fresh.now fresh.item_id fresh.job_id request.item_payload selected)
unfolding create_job add_event
items-create request fresh selected db db' job h = ground arith
