-- ===== src/Jobs/Fencing.antt =====
-- How a lease is checked when it is settled: by the name of its owner, and by nothing else.
use smart_email_manager.Prelude.{
  ℕ, ◌+◌, ◌<◌, ◌≡◌, refl, ◌∙◌, ap, subst, String, true, false, inl, inr, Option, some, List, [],
  ◌∷◌, or_else, Option-cases, find_where-member, arith, ◌==◌, ==_iff, find_where, update_where,
}
use smart_email_manager.Problem.{Failure, ok, err, crash}
use smart_email_manager.Jobs.Model.{
  JobItem, JobItemStatus, Db, Data, get_item, put_item, add_event, num, retry_wait,
}
use smart_email_manager.Jobs.Queue.Claim.{LeasedJobItem}
use smart_email_manager.Jobs.Queue.Settle.{
  owned_by, held_item, finish_item, retry_item, schedule_retry, retry_row, retry_delay,
}

held_item-err :
    (lease : LeasedJobItem) (db : Db)
    → ((item : JobItem)
        → get_item db lease.id ≡ some item
        → owned_by item.lease_owner lease.lease_owner ≡ false)
    → (f : Failure) × (held_item lease db ≡ err f)
unfolding held_item
held_item-err lease db lost = elim (Option-cases (get_item db lease.id)) [
  | inl e ↦ (crash "Leased item disappeared", rw (e, held_item))
  | inr (item, e) ↦ (crash "Lease ownership changed", rw (e, lost item e, held_item))
]

-- A worker whose lease was lost, because the item is gone or has another owner or none, can neither
-- finish nor retry the item: both raise, so that the transaction is rolled back.
pub lost_lease_raises :
    (wall : ℕ) (lease : LeasedJobItem) (status : JobItemStatus) (result : Option Data)
    (code summary : String) (delay_seconds : Option ℕ) (db : Db)
    → ((item : JobItem)
        → get_item db lease.id ≡ some item
        → owned_by item.lease_owner lease.lease_owner ≡ false)
    → (f : Failure) × (finish_item wall lease status result (some code) (some summary) db ≡ err f)
      × (retry_item wall lease code summary result delay_seconds db ≡ err f)
unfolding retry_item finish_item schedule_retry
lost_lease_raises wall lease status result code summary delay_seconds db lost =
    let (f, e) = held_item-err lease db lost in (f, ground arith, ground arith)

find-put :
    (row : JobItem) (is : List JobItem) (item : JobItem)
    → find_where (λ i. i.id == row.id) is ≡ some item
    → find_where (λ i. i.id == row.id) (update_where (λ i. i.id == row.id) (λ _. row) is) ≡ some row
unfolding find_where update_where
find-put row [] item e = absurd (cc e)
find-put row (i ∷ is) item e = ground (arith, find-put row is item)

get_item-put_item :
    (db : Db) (row item : JobItem)
    → get_item db row.id ≡ some item
    → get_item (put_item db row) row.id ≡ some row
unfolding get_item put_item
get_item-put_item db row item e = find-put row db.items item e

get_item-add_event :
    (db : Db) (job_id : ℕ) (item_id : Option ℕ) (event_type level : String) (info : Data) (id : ℕ)
    → get_item (add_event db job_id item_id event_type level info) id ≡ get_item db id
unfolding get_item add_event
get_item-add_event db job_id item_id event_type level info id = refl

get_item-id : (db : Db) (id : ℕ) (item : JobItem) → get_item db id ≡ some item → item.id ≡ id
unfolding get_item
get_item-id db id item e =
    (==_iff item.id id).0 (find_where-member (λ i. i.id == id) db.items item e).1

schedule_retry-row :
    (wall : ℕ) (lease : LeasedJobItem) (code summary : String) (result : Option Data)
    (delay_seconds : Option ℕ) (db : Db) (item : JobItem)
    → get_item db lease.id ≡ some item
    → owned_by item.lease_owner lease.lease_owner ≡ true
    → item.id ≡ lease.id
    → (db' : Db) × (schedule_retry wall lease code summary result delay_seconds db ≡ ok db')
      × (get_item db' lease.id
          ≡ some (
              retry_row wall
                (retry_delay delay_seconds lease.attempt_count)
                result
                code
                summary
                item))
unfolding schedule_retry held_item retry_row
schedule_retry-row wall lease code summary result delay_seconds db item e o id =
    let delay = retry_delay delay_seconds lease.attempt_count in
    let row = retry_row wall delay result code summary item in
    (
      add_event (put_item db row) lease.job_id (some lease.id) "job_item.retry_scheduled" "warning"
          (("attempt_count", num lease.attempt_count)
            ∷ ("max_attempts", num lease.max_attempts)
            ∷ ("delay_seconds", num delay)
            ∷ ("next_attempt", num (lease.attempt_count + 1))
            ∷ or_else result []),
      ground arith,
      get_item-add_event (put_item db row) lease.job_id (some lease.id) _ _ _ lease.id
          ∙ subst (λ n. get_item (put_item db row) n ≡ some row) id
              (get_item-put_item db row item (ap (get_item db) id ∙ e)),
    )

-- The owner's name alone does not fence off an old lease: where a second lease went to the same
-- name and has used up the attempts, a retry under the first, which had some left, is accepted and
-- leaves a waiting item that would pass its limit of attempts.
pub stale_retry_overruns :
    (wall : ℕ) (lease : LeasedJobItem) (code summary : String) (result : Option Data)
    (delay_seconds : Option ℕ) (db : Db) (item : JobItem)
    → get_item db lease.id ≡ some item
    → owned_by item.lease_owner lease.lease_owner ≡ true
    → lease.attempt_count < lease.max_attempts
    → item.attempt_count ≡ item.max_attempts
    → (db' : Db) × (row : JobItem) × (retry_item wall lease code summary result delay_seconds db
        ≡ ok db')
      × (get_item db' lease.id ≡ some row)
      × (row.status ≡ retry_wait)
      × (row.max_attempts < row.attempt_count + 1)
unfolding retry_item retry_row
stale_retry_overruns wall lease code summary result delay_seconds db item e o left spent =
    let (db', done, found) =
      schedule_retry-row wall lease code summary result delay_seconds db item e o
        (get_item-id db lease.id item e) in
    (
      db',
      retry_row wall (retry_delay delay_seconds lease.attempt_count) result code summary item,
      ground arith,
      found,
      refl,
      omega arith,
    )
