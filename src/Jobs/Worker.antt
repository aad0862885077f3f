-- ===== src/Jobs/Worker.antt =====
-- jobs/worker.py: one round of the worker. The schedules' pass and the registry of handlers are
-- arguments: `due` is `run_due_schedules`, and `handlers` is `HANDLERS.get`.
use smart_email_manager.Prelude.{ℕ, String, Bool, true, false, Option, none, some}
use smart_email_manager.Problem.{Result, ok, ◌>>=◌}
use smart_email_manager.Jobs.Model.{Db, JobItemStatus}
use smart_email_manager.Jobs.Queue.Claim.{LeasedJobItem, lease_next_item}
use smart_email_manager.Jobs.Queue.Settle.{
  recover_expired_leases, finish_item, retry_item, cancel_pending_items,
}
use smart_email_manager.Jobs.Control.{finalize_pausing_jobs}

-- A handler leaves the tables it committed, and returns or raises with `str(exc)[:500]`.
pub data Outcome : Type 0 where
  returned : Db → Outcome
  raised : Db → String → Outcome

abbrev pub Handler : Type 0
Handler = LeasedJobItem → Db → Outcome

pub record Settings : Type 0 where
  pub worker_id : String
  pub job_lease_seconds : ℕ

-- The clocks of a round, and the rows that other transactions hold in it.
pub record Round : Type 0 where
  pub now : ℕ
  pub wall : ℕ
  pub locked_items : ℕ → Bool
  pub locked_jobs : ℕ → Bool
  -- `datetime.now(UTC)` once the handler is done
  pub later : ℕ

-- The passes before the lease.
unfoldable pub maintain : Round → Db → Db
maintain r db =
    (finalize_pausing_jobs r.locked_jobs
      (cancel_pending_items r.now r.wall (recover_expired_leases r.now r.wall db).0).0).0

-- The handler's raise is turned into a retry.
unfoldable pub settle_outcome : Round → LeasedJobItem → Outcome → Result Db
settle_outcome r lease (returned db) = ok db
settle_outcome r lease (raised db summary) =
    retry_item r.later lease "UNHANDLED_JOB_ERROR" summary none none db

unfoldable pub dispatch : (String → Option Handler) → Round → LeasedJobItem → Db → Result Db
dispatch handlers r lease db = elim (handlers lease.job_type) [
  | none ↦
      finish_item r.later lease JobItemStatus.failed none (some "UNKNOWN_JOB_TYPE")
        (some "No worker handler is registered.") db
  | some handler ↦ settle_outcome r lease (handler lease db)
]

unfoldable pub work :
    (String → Option Handler) → Round → Db × Option LeasedJobItem → Result (Db × Bool)
work handlers r (db, none) = ok (db, false)
work handlers r (db, some lease) = do db' ← dispatch handlers r lease db; ok (db', true)

unfoldable pub run_once :
    (Db → Db) → (String → Option Handler) → Settings → Round → Db → Result (Db × Bool)
run_once due handlers settings r db = work handlers r (
    lease_next_item r.locked_items r.now r.wall settings.worker_id settings.job_lease_seconds
      (maintain r (due db)))
