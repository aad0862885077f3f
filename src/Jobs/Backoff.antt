-- ===== src/Jobs/Backoff.antt =====
-- The retries of jobs/queue.py: how long an item waits, and when it may be leased again.
use native.Mathlib.Nat.{pow-suc}
use smart_email_manager.Prelude.{
  ℕ, zero, suc, ◌+◌, ◌-◌, ◌*◌, ◌^◌, ◌≤◌, min, ◌≡◌, refl, sym, ◌∙◌, ap, subst, String, true, Option,
  none, some, arith, leb, ◌==◌, All, All-update, All-unit,
}
use smart_email_manager.Problem.{ok}
use smart_email_manager.Jobs.Model.{Db, Data, put_item, is_waiting}
use smart_email_manager.Jobs.Queue.Claim.{LeasedJobItem, item_is_free}
use smart_email_manager.Jobs.Queue.Settle.{retry_delay, retry_row, schedule_retry}
use smart_email_manager.Jobs.Inversion.{schedule_retry-Retried}
use smart_email_manager.Jobs.Keys.{UniqueIds, get_item-IsOnly}

pow_pos : (n : ℕ) → 1 ≤ 2 ^ n
pow_pos zero = omega arith
pow_pos (suc n) = omega (arith, pow-suc 2 n, pow_pos n)

double : (n : ℕ) → (2 ^ (n + 2 - 1) ≡ 2 * 2 ^ n) × (2 ^ (n + 1 - 1) ≡ 2 ^ n)
double n =
    let up : n + 2 - 1 ≡ suc n = omega arith in
    let down : n + 1 - 1 ≡ n = omega arith in
    (ap (λ k. 2 ^ k) up ∙ omega (arith, pow-suc 2 n), ap (λ k. 2 ^ k) down)

-- Without a delay of the caller's, or with one of 0, the first attempt waits 5 seconds, each later
-- one twice as long as the one before it, and none longer than 300 seconds. A delay of the caller's
-- that is not 0 is taken as it is.
pub retry_delay_doubles :
    (n : ℕ)
    → (retry_delay none 1 ≡ 5)
      × (retry_delay none (n + 2) ≡ min (2 * retry_delay none (n + 1)) 300)
      × (5 ≤ retry_delay none n)
      × (retry_delay none n ≤ 300)
      × (retry_delay (some 0) n ≡ retry_delay none n)
      × (retry_delay (some (suc n)) n ≡ suc n)
unfolding retry_delay
retry_delay_doubles n =
    (refl, omega (arith, double n), omega (arith, pow_pos (n - 1)), omega arith, refl, refl)

-- After a retry was scheduled, the item may be leased again exactly from its delay on.
pub schedule_retry_waits :
    (wall now : ℕ) (lease : LeasedJobItem) (error_code error_summary : String)
    (result : Option Data) (delay_seconds : Option ℕ) (db db' : Db)
    → UniqueIds db.items
    → schedule_retry wall lease error_code error_summary result delay_seconds db ≡ ok db'
    → All
        (λ i.
          (i.id == lease.id) ≡ true
          → item_is_free now i ≡ leb (wall + retry_delay delay_seconds lease.attempt_count) now)
        db'.items
unfolding put_item retry_row item_is_free is_waiting
schedule_retry_waits wall now lease code summary result delay_seconds db db' unique e =
    let g = schedule_retry-Retried wall lease code summary result delay_seconds db db' e in
    let only = get_item-IsOnly db lease.id g.item unique g.found in
    let row =
      retry_row wall (retry_delay delay_seconds lease.attempt_count) result code summary g.item in
    subst
      (All (λ i.
        (i.id == lease.id) ≡ true
        → item_is_free now i ≡ leb (wall + retry_delay delay_seconds lease.attempt_count) now))
      (sym g.items)
      (All-update (λ _. Unit {0}) _ (λ i. i.id == row.id) (λ _. row) db.items
        (λ i u h q. ground arith) (λ i u h q. absurd (ground (arith, only.1))) (All-unit db.items))
