-- ===== src/Jobs/Soundness.antt =====
-- What is true of every row of `job_items`, and of every row that a lease speaks of.
use smart_email_manager.Prelude.{
  ℕ, ◌+◌, ◌≤◌, ◌<◌, ◌≡◌, String, true, false, Option, List, arith, ◌==◌, if◌then◌else◌, is_some,
}
use smart_email_manager.Jobs.Model.{
  JobItem, JobItemStatus, Data, is_held, is_waiting, is_unfinished,
}
use smart_email_manager.Jobs.Queue.Claim.{LeasedJobItem, item_is_free, lease_row}
use smart_email_manager.Jobs.Queue.Settle.{
  has_expired, recover_row, finish_row, retry_row, is_cancellable, cancel_row, owned_by,
}
use smart_email_manager.Jobs.Create.{new_item}

-- An owner and an expiry stand in a row exactly while it is held, and the attempts made, with the
-- one that a waiting row may still start, do not pass `max_attempts`.
pub record IsSound (i : JobItem) : Type 0 where
  pub owner : is_some i.lease_owner ≡ is_held i.status
  pub expiry : is_some i.lease_expires_at ≡ is_held i.status
  pub budget : i.attempt_count + (if is_waiting i.status then 1 else 0) ≤ i.max_attempts

-- A row that the lease still owns is at the attempt that the lease was given for.
abbrev pub Matches : LeasedJobItem → JobItem → Type 0
Matches l i =
    (i.id == l.id) ≡ true
    → owned_by i.lease_owner l.lease_owner ≡ true
    → (i.attempt_count ≡ l.attempt_count) × (i.max_attempts ≡ l.max_attempts)

pub lease_row-IsSound :
    (now secs : ℕ) (w : String) (i : JobItem)
    → item_is_free now i ≡ true
    → IsSound i
    → IsSound (lease_row now secs w i)
unfolding lease_row item_is_free is_held is_waiting
lease_row-IsSound now secs w i h s = ground arith

pub recover_row-IsSound :
    (now : ℕ) (i : JobItem) → has_expired now i ≡ true → IsSound i → IsSound (recover_row i)
unfolding recover_row has_expired is_held is_waiting
recover_row-IsSound now i h s = ground arith

pub cancel_row-IsSound :
    (now : ℕ) (ids : List ℕ) (i : JobItem)
    → is_cancellable ids i ≡ true
    → IsSound i
    → IsSound (cancel_row now i)
unfolding cancel_row is_cancellable is_held is_waiting
cancel_row-IsSound now ids i h s = ground arith

pub finish_row-IsSound :
    (wall : ℕ) (status : JobItemStatus) (result : Option Data)
    (error_code error_summary : Option String) (i : JobItem)
    → is_unfinished status ≡ false
    → IsSound i
    → IsSound (finish_row wall status result error_code error_summary i)
unfolding finish_row is_held is_waiting is_unfinished
finish_row-IsSound wall status result error_code error_summary i h s = ground arith

pub retry_row-IsSound :
    (wall delay : ℕ) (result : Option Data) (error_code error_summary : String) (i : JobItem)
    → i.attempt_count < i.max_attempts
    → IsSound i
    → IsSound (retry_row wall delay result error_code error_summary i)
unfolding retry_row is_held is_waiting
retry_row-IsSound wall delay result error_code error_summary i h s = ground arith

pub new_item-IsSound :
    (now item_id job_id account_id : ℕ) (payload : Data)
    → IsSound (new_item now item_id job_id account_id payload)
unfolding new_item is_held is_waiting
new_item-IsSound now item_id job_id account_id payload = ground arith
