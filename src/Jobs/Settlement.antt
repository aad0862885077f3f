-- ===== src/Jobs/Settlement.antt =====
-- The end of an item: what `finish_item` leaves of the item's job.
use smart_email_manager.Prelude.{
  ℕ, ◌+◌, ◌<◌, ◌≡◌, ◌↔◌, sym, some-injective, ◌∙◌, ap, String, Bool, true, false, Option, some,
  arith, ltb, if◌then◌else◌, is_some,
}
use smart_email_manager.Problem.{ok}
use smart_email_manager.Jobs.Model.{
  Job, JobItemStatus, JobStatus, Db, Data, completed, partial, get_job, is_unfinished, is_succeeded,
  is_failed, is_skipped,
}
use smart_email_manager.Jobs.Queue.Summary.{
  count_items, counted, settled, settled_status, refresh_job_summary,
}
use smart_email_manager.Jobs.Queue.Claim.{LeasedJobItem}
use smart_email_manager.Jobs.Queue.Settle.{finish_item}
use smart_email_manager.Jobs.Inversion.{ended, get_job-ended, finish_item-Ended}
use smart_email_manager.Jobs.Rows.{get_job-id, count_items-cong, refreshed, get_job-refresh}
use smart_email_manager.Jobs.Items.{items-refresh_job_summary}

-- The final status, told by the outcomes: `cancelled` exactly when a cancellation was requested, and
-- otherwise `completed` exactly when nothing failed, `failed` exactly when something failed and
-- nothing succeeded or was skipped, and `partial` exactly when both happened.
pub settled_status_table :
    (cancel : Option ℕ) (succeeded failed skipped : ℕ)
    → let status = settled_status cancel succeeded failed skipped in
      ((status ≡ JobStatus.cancelled) ↔ (is_some cancel ≡ true))
      × ((status ≡ completed) ↔ ((is_some cancel ≡ false) × (failed ≡ 0)))
      × ((status ≡ JobStatus.failed)
          ↔ ((is_some cancel ≡ false) × (0 < failed) × (succeeded + skipped ≡ 0)))
      × ((status ≡ partial) ↔ ((is_some cancel ≡ false) × (0 < failed) × (0 < succeeded + skipped)))
unfolding settled_status
settled_status_table cancel succeeded failed skipped = ground arith

-- What the tables say of a job, after the items were written.
abbrev pub summarized : ℕ → Job → Db → Job
summarized wall job db =
    let busy = ltb 0 (count_items db job.id is_unfinished) in
    let done = count_items db job.id is_succeeded in
    let failed = count_items db job.id is_failed in
    let skipped = count_items db job.id is_skipped in
    record job {
      succeeded_count = done;
      failed_count = failed;
      skipped_count = skipped;
      status =
          if busy then job.status else settled_status job.cancel_requested_at done failed skipped;
      finished_at = if busy then job.finished_at else some wall;
    }

refreshed-summarized :
    (wall : ℕ) (job : Job) (db : Db) → refreshed wall job db ≡ summarized wall job db
unfolding refreshed counted settled
refreshed-summarized wall job db = ground arith

module _ (wall : ℕ) (lease : LeasedJobItem) (status : JobItemStatus) (result : Option Data)
    (error_code error_summary : Option String) (db db' : Db)
    (done : finish_item wall lease status result error_code error_summary db ≡ ok db') where
  -- When the end of an item commits, the item's job has the numbers of its succeeded, failed and
  -- skipped items, and it keeps its status and its end while an item is unfinished; once none is, it
  -- has the status that the outcomes give, and this moment as its end. Nothing else in it changes.
  pub finish_item-summary :
      (job : Job)
      → get_job db lease.job_id ≡ some job
      → get_job db' lease.job_id ≡ some (summarized wall job db')
  finish_item-summary job e =
      let g = finish_item-Ended wall lease status result error_code error_summary db db' done in
      let before = ended wall lease status result error_code error_summary g.item db in
      let same : g.job ≡ job = some-injective g.job job (sym g.loaded ∙ e) in
      let id = get_job-id db lease.job_id job e in
      let counts = λ (t : JobItemStatus → Bool).
        count_items-cong before db' job.id t
          (ap (λ (d : Db). d.items) g.final ∙ items-refresh_job_summary wall g.job before) in
      let loaded : get_job before job.id ≡ some job =
        get_job-ended wall lease status result error_code error_summary g.item db job.id
        ∙ ap (get_job db) id
        ∙ e in
      ap (λ d. get_job d lease.job_id) g.final
      ∙ ap (λ j. get_job (refresh_job_summary wall j before) lease.job_id) same
      ∙ get_job-refresh wall job before lease.job_id loaded
      ∙ ground (
        arith,
        id,
        refreshed-summarized wall job before,
        counts is_unfinished,
        counts is_succeeded,
        counts is_failed,
        counts is_skipped,
      )
