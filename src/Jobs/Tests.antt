-- ===== src/Jobs/Tests.antt =====
-- The theorems of the job system at concrete tables, and runs of its transactions.
use smart_email_manager.Prelude.{
  ℕ, ◌+◌, ◌≡◌, ◌≢◌, refl, ◌↔◌, ◌<◌, ◌++◌, ◌==◌, All, is_some, true, false, none, some, List, [],
  ◌∷◌, Memᴰ, map,
}
use smart_email_manager.Problem.{ok}
use smart_email_manager.Jobs.Model.{
  Job, JobItem, JobItemStatus, JobStatus, get_job, is_waiting, is_unfinished, is_cancelling,
}
use smart_email_manager.Jobs.Queue.Summary.{count_items, settled_status}
use smart_email_manager.Jobs.Queue.Claim.{eligible, lease_next_item}
use smart_email_manager.Jobs.Queue.Settle.{recover_expired_leases, cancel_pending_items}
use smart_email_manager.Jobs.Create.{create_job}
use smart_email_manager.Jobs.System.{empty, recovers}
use smart_email_manager.Jobs.System.Invariant.{Inv, Reach-empty-Inv}
use smart_email_manager.Jobs.System.Exclusion.{Step-keeps_lease}
use smart_email_manager.Jobs.Order.{IsFirst, lease_next_item-IsFirst, lease_next_item-none}
use smart_email_manager.Jobs.Settlement.{settled_status_table, summarized, finish_item-summary}
use smart_email_manager.Jobs.Cancellation.{cancel_pending_clears, cancel_pending_ends}
use smart_email_manager.Jobs.Idempotence.{IsFresh, create_job_twice, create_job-items}
use smart_email_manager.Jobs.Samples.{
  running_code, request, fresh, created, job1, creation, nobody, lease1, leased, leasing, system,
  history, item1, item1_in_table, not_yet_expired, item1_held, finished, finishing, running_job,
  running_job_there, cancelling_job, cancelling_db, cancelling_there, is_cancelling_job,
  cancel_asked, nothing_held, named, no_job_yet,
}

Reach-empty-Inv_example : Inv system
Reach-empty-Inv_example = Reach-empty-Inv history

Step-keeps_lease_example : Memᴰ item1 (recover_expired_leases 120 120 leased).0.items
Step-keeps_lease_example =
    Step-keeps_lease {s = system} item1 (recovers 120 120) (Reach-empty-Inv history) item1_in_table
      item1_held not_yet_expired

lease_next_item-IsFirst_example :
    (c : JobItem × Job) × (lease1.id ≡ c.0.id)
    × Memᴰ c.0 created.items
    × (eligible nobody 100 created c.0 ≡ some c)
    × IsFirst nobody 100 created c created.items
lease_next_item-IsFirst_example =
    lease_next_item-IsFirst nobody 100 created 100 60 "w1" leased lease1 leasing

lease_next_item-none_example :
    let r = lease_next_item nobody 90 90 "w1" 60 leased in
    (r.1 ≡ none → All (λ i. eligible nobody 90 leased i ≡ none) leased.items)
    × (All (λ i. eligible nobody 90 leased i ≡ none) leased.items → r ≡ (leased, none))
lease_next_item-none_example = lease_next_item-none nobody 90 leased 90 60 "w1"

finish_item-summary_example : get_job finished 1 ≡ some (summarized 130 running_job finished)
finish_item-summary_example =
    finish_item-summary 130 lease1 JobItemStatus.succeeded none none none leased finished finishing
      running_job running_job_there

-- One item is done, and one is left: the job runs on.
finished_counts : get_job finished 1 ≡ some (record running_job { succeeded_count = 1 })
unfolding running_code running_job finished leased created job1
finished_counts = refl

settled_status_table_example :
    let status = settled_status none 2 1 0 in
    ((status ≡ JobStatus.cancelled) ↔ (is_some {A = ℕ} none ≡ true))
    × ((status ≡ JobStatus.completed) ↔ ((is_some {A = ℕ} none ≡ false) × (◌≡◌ {A = ℕ} 1 0)))
    × ((status ≡ JobStatus.failed) ↔ ((is_some {A = ℕ} none ≡ false) × (0 < 1) × (2 + 0 ≡ 0)))
    × ((status ≡ JobStatus.partial) ↔ ((is_some {A = ℕ} none ≡ false) × (0 < 1) × (0 < 2 + 0)))
settled_status_table_example = settled_status_table none 2 1 0

cancel_pending_ends_example :
    let db' = (cancel_pending_items 110 110 cancelling_db).0 in
    (job' : Job) × (get_job db' 1 ≡ some job')
    × (job'.status ≡ JobStatus.cancelled)
    × (count_items db' 1 is_unfinished ≡ 0)
cancel_pending_ends_example =
    cancel_pending_ends 110 110 1 cancelling_job cancelling_db cancelling_there is_cancelling_job
      cancel_asked nothing_held

cancel_pending_clears_example :
    let after_pass = (cancel_pending_items 110 110 cancelling_db).0.items in
    ((id : ℕ) (job : Job)
      → get_job cancelling_db id ≡ some job
      → is_cancelling job.status ≡ true
      → All (λ i. (i.job_id ≡ id) → is_waiting i.status ≡ false) after_pass)
    × ((item : JobItem)
        → Memᴰ item cancelling_db.items
        → All
            (λ j. (j.id == item.job_id) ≡ true → is_cancelling j.status ≡ false)
            cancelling_db.jobs
        → Memᴰ item after_pass)
cancel_pending_clears_example = cancel_pending_clears 110 110 cancelling_db

create_job_twice_example :
    create_job request (record fresh { job_id = 2; item_id = 20 }) (9 ∷ []) created
    ≡ ok (created, job1)
create_job_twice_example =
    create_job_twice request request fresh (record fresh { job_id = 2; item_id = 20 }) (7 ∷ 8 ∷ [])
      (9 ∷ []) "nightly" empty.db created job1 refl refl named creation

create_job-items_example :
    (items : List JobItem) × (created.items ≡ empty.db.items ++ items)
    × (map (λ i. i.subject_id) items ≡ map some (7 ∷ 8 ∷ []))
    × All (IsFresh 1 request.item_payload) items
    × (job1.total_count ≡ 2)
    × ((job1.status ≡ JobStatus.completed) ↔ (◌≡◌ {A = List ℕ} (7 ∷ 8 ∷ []) []))
    × ((job1.status ≡ JobStatus.queued) ↔ (◌≢◌ {A = List ℕ} (7 ∷ 8 ∷ []) []))
create_job-items_example =
    create_job-items request fresh (7 ∷ 8 ∷ []) empty.db created job1 no_job_yet creation
