-- ===== src/Jobs/System/Exclusion.antt =====
-- A lease is exclusive: what a worker holds is neither given to another nor changed, until the
-- worker settles it or the lease expires.
use smart_email_manager.Prelude.{
  ℕ, ◌≡◌, ◌≢◌, sym, ◌∙◌, ap, subst, String, Bool, true, false, inl, inr, Option, some, List, Memᴰ,
  arith, leb, ◌==◌, All-member, Bool-cases, Mem-update_where, Mem-append, All-mem,
}
use smart_email_manager.Problem.{ok}
use smart_email_manager.Jobs.Model.{
  JobItem, Db, Data, JobItemStatus, put_item, put_job, add_event, is_held, is_waiting,
}
use smart_email_manager.Jobs.Queue.Claim.{LeasedJobItem, item_is_free, lease_rows, lease_next_item}
use smart_email_manager.Jobs.Queue.Settle.{
  has_expired, finish_row, finish_item, retry_row, retry_item, schedule_retry, retry_delay,
  cancelling_ids, is_cancellable, cancel_row, recover_row,
}
use smart_email_manager.Jobs.Inversion.{lease-Granted, finish_item-Ended, schedule_retry-Retried}
use smart_email_manager.Jobs.Order.{chosen_lem}
use smart_email_manager.Jobs.Keys.{UniqueIds, UniqueIds-member, get_item-IsOnly}
use smart_email_manager.Jobs.Items.{
  items-refresh_job_summary, items-recover, items-cancel_pending, items-finalize, items-cancel,
  items-pause, items-resume, items-create,
}
use smart_email_manager.Jobs.System.Transactions.{eligible-free}
use smart_email_manager.Jobs.System.Invariant.{Inv}
use smart_email_manager.Jobs.System.{
  System, Step, claims, finishes, retries, loses, recovers, cancels_items, finalizes, cancels,
  pauses, resumes, creates,
}

free-not-held : (now : ℕ) (i : JobItem) → item_is_free now i ≡ true → is_held i.status ≡ false
unfolding item_is_free is_held is_waiting
free-not-held now i h = ground arith

cancellable-not-held :
    (ids : List ℕ) (i : JobItem) → is_held i.status ≡ true → is_cancellable ids i ≡ false
unfolding is_cancellable is_held is_waiting
cancellable-not-held ids i h = ground arith

-- The step is not the end of this item's lease: no worker settles the item, and it is not
-- recovered as expired.
abbrev pub Spares : {s t : System} → JobItem → Step s t → Type 0
Spares item (finishes wall lease status result code summary db' m h e) = lease.id ≢ item.id
Spares item (retries wall lease code summary result delay db' m e) = lease.id ≢ item.id
Spares item (recovers now wall) = has_expired now item ≡ false
Spares item (claims locked now wall w secs db' lease idle e) = Unit
Spares item _ = Unit

claim-keeps :
    (locked : ℕ → Bool) (now wall : ℕ) (w : String) (secs : ℕ) (db db' : Db) (lease : LeasedJobItem)
    (item : JobItem)
    → UniqueIds db.items
    → is_held item.status ≡ true
    → Memᴰ item db.items
    → lease_next_item locked now wall w secs db ≡ (db', some lease)
    → Memᴰ item db'.items
unfolding add_event put_job lease_rows
claim-keeps locked now wall w secs db db' lease item unique busy m h =
    let g = lease-Granted locked now wall w secs db db' lease h in
    let (mem, admitted, first) =
      chosen_lem locked now db (λ i. Memᴰ i db.items) (g.item, g.joined) (All-mem db.items)
        g.chosen in
    let only = UniqueIds-member g.item db.items unique mem in
    let idle =
      free-not-held now g.item (eligible-free locked now db g.item (g.item, g.joined) admitted) in
    subst (λ is. Memᴰ item is) (sym (ap (λ (d : Db). d.items) g.result))
      (elim (Bool-cases (item.id == g.item.id)) [
        | inl same ↦ absurd (
            cc (
              busy,
              idle,
              ap (λ (i : JobItem). is_held i.status)
                  (All-member (λ i. (i.id == g.item.id) ≡ true → i ≡ g.item) item db.items only m
                    same),
            ))
        | inr other ↦ Mem-update_where (λ i. i.id == g.item.id) _ item db.items other m
      ])

put-keeps :
    (db : Db) (id : ℕ) (row item : JobItem)
    → row.id ≡ id
    → id ≢ item.id
    → Memᴰ item db.items
    → Memᴰ item (put_item db row).items
unfolding put_item
put-keeps db id row item e apart m =
    Mem-update_where (λ i. i.id == row.id) (λ _. row) item db.items (ground arith) m

finish-keeps :
    (wall : ℕ) (lease : LeasedJobItem) (status : JobItemStatus) (result : Option Data)
    (code summary : Option String) (db db' : Db) (item : JobItem)
    → UniqueIds db.items
    → finish_item wall lease status result code summary db ≡ ok db'
    → lease.id ≢ item.id
    → Memᴰ item db.items
    → Memᴰ item db'.items
unfolding add_event finish_row
finish-keeps wall lease status result code summary db db' item unique e apart m =
    let g = finish_item-Ended wall lease status result code summary db db' e in
    let only = get_item-IsOnly db lease.id g.item unique g.found in
    let row = finish_row wall status result code summary g.item in
    subst (λ is. Memᴰ item is)
      (sym (ap (λ (d : Db). d.items) g.final ∙ items-refresh_job_summary wall g.job _))
      (put-keeps db lease.id row item only.1 apart m)

schedule-keeps :
    (wall : ℕ) (lease : LeasedJobItem) (code summary : String) (result : Option Data)
    (delay_seconds : Option ℕ) (db db' : Db) (item : JobItem)
    → UniqueIds db.items
    → schedule_retry wall lease code summary result delay_seconds db ≡ ok db'
    → lease.id ≢ item.id
    → Memᴰ item db.items
    → Memᴰ item db'.items
unfolding retry_row
schedule-keeps wall lease code summary result delay_seconds db db' item unique e apart m =
    let g = schedule_retry-Retried wall lease code summary result delay_seconds db db' e in
    let only = get_item-IsOnly db lease.id g.item unique g.found in
    let delay = retry_delay delay_seconds lease.attempt_count in
    subst (λ is. Memᴰ item is) (sym g.items)
      (put-keeps db lease.id (retry_row wall delay result code summary g.item) item only.1 apart m)

retry-keeps :
    (wall : ℕ) (lease : LeasedJobItem) (code summary : String) (result : Option Data)
    (delay_seconds : Option ℕ) (db db' : Db) (item : JobItem)
    → UniqueIds db.items
    → retry_item wall lease code summary result delay_seconds db ≡ ok db'
    → lease.id ≢ item.id
    → Memᴰ item db.items
    → Memᴰ item db'.items
unfolding retry_item
retry-keeps wall lease code summary result delay_seconds db db' item unique e apart m =
    elim (Bool-cases (leb lease.max_attempts lease.attempt_count)) [
      | inl spent ↦
          finish-keeps wall lease JobItemStatus.failed result (some code) (some summary) db db' item
            unique (rw spent at e) apart m
      | inr left ↦
          schedule-keeps wall lease code summary result delay_seconds db db' item unique
            (rw left at e) apart m
    ]

-- A step of any worker or of the API that neither settles an item's lease nor recovers it as
-- expired leaves a leased or running item as it is, in a system where the invariant holds: so no
-- other worker is given the item.
pub Step-keeps_lease :
    {s t : System} (item : JobItem) (st : Step s t)
    → Inv s
    → Memᴰ item s.db.items
    → is_held item.status ≡ true
    → Spares item st
    → Memᴰ item t.db.items
Step-keeps_lease {s} item (claims locked now wall w secs db' lease idle e) v m busy k =
    claim-keeps locked now wall w secs s.db db' lease item v.unique busy m e
Step-keeps_lease {s} item (finishes wall lease status result code summary db' held h e) v m busy k =
    finish-keeps wall lease status result code summary s.db db' item v.unique e k m
Step-keeps_lease {s} item (retries wall lease code summary result delay db' held e) v m busy k =
    retry-keeps wall lease code summary result delay s.db db' item v.unique e k m
Step-keeps_lease item (loses lease) v m busy k = m
Step-keeps_lease {s} item (recovers now wall) v m busy k = elim (items-recover now wall s.db) [
  | inl e ↦ rw e m
  | inr e ↦ rw e (Mem-update_where (has_expired now) recover_row item s.db.items k m)
]
Step-keeps_lease {s} item (cancels_items now wall) v m busy k =
    rw (items-cancel_pending now wall s.db) (
      Mem-update_where (is_cancellable (cancelling_ids s.db)) (cancel_row now) item s.db.items
        (cancellable-not-held (cancelling_ids s.db) item busy) m)
Step-keeps_lease {s} item (finalizes locked) v m busy k = rw (items-finalize locked s.db) m
Step-keeps_lease {s} item (cancels wall job_id db' e) v m busy k =
    rw (items-cancel wall job_id s.db db' e) m
Step-keeps_lease {s} item (pauses job_id db' e) v m busy k = rw (items-pause job_id s.db db' e) m
Step-keeps_lease {s} item (resumes job_id db' e) v m busy k = rw (items-resume job_id s.db db' e) m
Step-keeps_lease {s} item (creates request fresh selected db' job unused e) v m busy k =
    elim (items-create request fresh selected s.db db' job e) [
      | inl q ↦ rw q m
      | inr q ↦ rw q (Mem-append item s.db.items _ m)
    ]
