-- ===== src/Jobs/System/Transactions.antt =====
-- Each transaction that writes items keeps the invariant on the rows.
use smart_email_manager.Prelude.{
  ℕ, ◌<◌, ◌≡◌, refl, sym, ◌∙◌, ap, subst, String, Bool, true, false, inl, inr, Option, none, some,
  List, ◌∷◌, Memᴰ, arith, leb, ◌==◌, ==_iff, All, All-mono, All-member, All-mem, Bool-cases,
}
use smart_email_manager.Problem.{ok}
use smart_email_manager.Jobs.Model.{
  Job, JobItem, JobItemStatus, Db, Data, get_item, put_item, put_job, add_event, is_unfinished,
}
use smart_email_manager.Jobs.Queue.Claim.{
  LeasedJobItem, eligible, item_is_free, lease_row, lease_rows, leased_item, lease_next_item,
}
use smart_email_manager.Jobs.Queue.Settle.{
  has_expired, recover_row, owned_by, finish_row, finish_item, retry_row, retry_delay,
  schedule_retry, retry_item, cancel_row, recover_expired_leases,
}
use smart_email_manager.Jobs.Create.{JobRequest, Fresh, create_job}
use smart_email_manager.Jobs.Inversion.{lease-Granted, finish_item-Ended, schedule_retry-Retried}
use smart_email_manager.Jobs.Order.{chosen_lem}
use smart_email_manager.Jobs.Keys.{UniqueIds-member, get_item-IsOnly}
use smart_email_manager.Jobs.Soundness.{
  IsSound, Matches, lease_row-IsSound, recover_row-IsSound, finish_row-IsSound, retry_row-IsSound,
}
use smart_email_manager.Jobs.Items.{items-refresh_job_summary, items-recover, items-create}
use smart_email_manager.Jobs.System.Consistency.{
  IsConsistent, IsConsistent-update, IsConsistent-create, IsConsistent-claim,
}
use smart_email_manager.Jobs.System.{IsIdle}

recover_row-id : (i : JobItem) → (recover_row i).id ≡ i.id
unfolding recover_row
recover_row-id i = refl

recover_row-Matches : (l : LeasedJobItem) (i : JobItem) → Matches l (recover_row i)
unfolding recover_row
recover_row-Matches l i q o = absurd (cc o)

pub recover-Inv :
    (now wall : ℕ) (db : Db) (held : List LeasedJobItem)
    → IsConsistent db.items held
    → IsConsistent (recover_expired_leases now wall db).0.items held
recover-Inv now wall db held v = elim (items-recover now wall db) [
  | inl e ↦ rw e v
  | inr e ↦ rw e (
      IsConsistent-update (has_expired now) recover_row db.items held (λ i _. recover_row-id i)
        (recover_row-IsSound now) (λ l i _ _. recover_row-Matches l i) v)
]

pub cancel_row-Matches :
    (now : ℕ) (l : LeasedJobItem) (i : JobItem) → Matches l i → Matches l (cancel_row now i)
unfolding cancel_row
cancel_row-Matches now l i m = m

pub cancel_row-id : (now : ℕ) (i : JobItem) → (cancel_row now i).id ≡ i.id
unfolding cancel_row
cancel_row-id now i = refl

-- A settled row: the item of a lease that its owner still holds is replaced by `row`.
settle-Inv :
    (db : Db) (lease : LeasedJobItem) (item row : JobItem) (held : List LeasedJobItem)
    → get_item db lease.id ≡ some item
    → row.id ≡ item.id
    → row.lease_owner ≡ none
    → IsSound row
    → IsConsistent db.items held
    → IsConsistent (put_item db row).items held
unfolding put_item
settle-Inv db lease item row held found id free sound v =
    IsConsistent-update (λ i. i.id == row.id) (λ _. row) db.items held
      (λ i e. sym ((==_iff i.id row.id).0 e)) (λ i e s. sound)
      (λ l i e m q o. absurd (cc (subst (λ n. owned_by n l.lease_owner ≡ true) free o))) v

pub finish-Inv :
    (wall : ℕ) (lease : LeasedJobItem) (status : JobItemStatus) (result : Option Data)
    (error_code error_summary : Option String) (db db' : Db) (held : List LeasedJobItem)
    → is_unfinished status ≡ false
    → finish_item wall lease status result error_code error_summary db ≡ ok db'
    → IsConsistent db.items held
    → IsConsistent db'.items held
unfolding add_event finish_row
finish-Inv wall lease status result error_code error_summary db db' held h e v =
    let g = finish_item-Ended wall lease status result error_code error_summary db db' e in
    let only = get_item-IsOnly db lease.id g.item v.unique g.found in
    let row = finish_row wall status result error_code error_summary g.item in
    subst (λ is. IsConsistent is held)
      (sym (ap (λ (d : Db). d.items) g.final ∙ items-refresh_job_summary wall g.job _))
      (settle-Inv db lease g.item row held g.found refl refl
        (finish_row-IsSound wall status result error_code error_summary g.item h
          (All-member IsSound g.item db.items v.sound only.2))
        v)

schedule_retry-Inv :
    (wall : ℕ) (lease : LeasedJobItem) (error_code error_summary : String) (result : Option Data)
    (delay_seconds : Option ℕ) (db db' : Db) (held : List LeasedJobItem)
    → Memᴰ lease held
    → leb lease.max_attempts lease.attempt_count ≡ false
    → schedule_retry wall lease error_code error_summary result delay_seconds db ≡ ok db'
    → IsConsistent db.items held
    → IsConsistent db'.items held
unfolding retry_row
schedule_retry-Inv wall lease code summary result delay_seconds db db' held m left e v =
    let g = schedule_retry-Retried wall lease code summary result delay_seconds db db' e in
    let only = get_item-IsOnly db lease.id g.item v.unique g.found in
    let current =
      All-member (Matches lease) g.item db.items
        (All-member (λ l. All (Matches l) db.items) lease held v.matches m) only.2
        ((==_iff g.item.id lease.id).1 only.1) g.owned in
    let delay = retry_delay delay_seconds lease.attempt_count in
    subst (λ is. IsConsistent is held) (sym g.items)
      (settle-Inv db lease g.item (retry_row wall delay result code summary g.item) held g.found
        refl refl
        (retry_row-IsSound wall delay result code summary g.item (ground arith)
          (All-member IsSound g.item db.items v.sound only.2))
        v)

pub retry-Inv :
    (wall : ℕ) (lease : LeasedJobItem) (error_code error_summary : String) (result : Option Data)
    (delay_seconds : Option ℕ) (db db' : Db) (held : List LeasedJobItem)
    → Memᴰ lease held
    → retry_item wall lease error_code error_summary result delay_seconds db ≡ ok db'
    → IsConsistent db.items held
    → IsConsistent db'.items held
unfolding retry_item is_unfinished
retry-Inv wall lease code summary result delay_seconds db db' held m e v =
    elim (Bool-cases (leb lease.max_attempts lease.attempt_count)) [
      | inl spent ↦
          finish-Inv wall lease JobItemStatus.failed result (some code) (some summary) db db' held
            refl (rw spent at e) v
      | inr left ↦
          schedule_retry-Inv wall lease code summary result delay_seconds db db' held m left
            (rw left at e) v
    ]

pub eligible-free :
    (locked : ℕ → Bool) (now : ℕ) (db : Db) (i : JobItem) (c : JobItem × Job)
    → eligible locked now db i ≡ some c
    → item_is_free now i ≡ true
unfolding eligible
eligible-free locked now db i c h = ground arith

leased-Matches :
    (now secs : ℕ) (w : String) (job : Job) (i item : JobItem) (lease : LeasedJobItem)
    → lease ≡ leased_item job (lease_row now secs w item) w
    → i ≡ item
    → Matches lease (lease_row now secs w i)
unfolding leased_item lease_row
leased-Matches now secs w job i item lease e same q o = (ground arith, ground arith)

pub leased-id :
    (now secs : ℕ) (w : String) (job : Job) (item : JobItem) (lease : LeasedJobItem)
    → lease ≡ leased_item job (lease_row now secs w item) w
    → lease.id ≡ item.id
unfolding leased_item lease_row
leased-id now secs w job item lease e = ap (λ (l : LeasedJobItem). l.id) e

pub claim-Inv :
    (locked : ℕ → Bool) (now wall : ℕ) (w : String) (secs : ℕ) (db db' : Db) (lease : LeasedJobItem)
    (held : List LeasedJobItem)
    → IsIdle w held
    → lease_next_item locked now wall w secs db ≡ (db', some lease)
    → IsConsistent db.items held
    → IsConsistent db'.items (lease ∷ held)
unfolding add_event put_job lease_rows
claim-Inv locked now wall w secs db db' lease held idle h v =
    let g = lease-Granted locked now wall w secs db db' lease h in
    let (mem, admitted, first) =
      chosen_lem locked now db (λ i. Memᴰ i db.items) (g.item, g.joined) (All-mem db.items)
        g.chosen in
    let only = UniqueIds-member g.item db.items v.unique mem in
    let free = eligible-free locked now db g.item (g.item, g.joined) admitted in
    let sound =
      lease_row-IsSound now secs w g.item free (All-member IsSound g.item db.items v.sound mem) in
    subst (λ is. IsConsistent is (lease ∷ held)) (sym (ap (λ (d : Db). d.items) g.result))
      (IsConsistent-claim now secs w g.item lease db.items held
        (All-mono (λ i. (i.id == g.item.id) ≡ true → i ≡ g.item)
          (λ i. (i.id == g.item.id) ≡ true → IsSound (lease_row now secs w i)) db.items
          (λ i same q. subst (λ x. IsSound (lease_row now secs w x)) (sym (same q)) sound) only)
        (All-mono (λ i. (i.id == g.item.id) ≡ true → i ≡ g.item)
          (λ i. (i.id == g.item.id) ≡ true → Matches lease (lease_row now secs w i)) db.items
          (λ i same q. leased-Matches now secs w g.job i g.item lease g.leased (same q)) only)
        (leased-id now secs w g.job g.item lease g.leased) idle v)

pub create-Inv :
    (request : JobRequest) (fresh : Fresh) (selected : List ℕ) (db db' : Db) (job : Job)
    (held : List LeasedJobItem)
    → All (λ i. i.id < fresh.item_id) db.items
    → create_job request fresh selected db ≡ ok (db', job)
    → IsConsistent db.items held
    → IsConsistent db'.items held
create-Inv request fresh selected db db' job held unused e v =
    elim (items-create request fresh selected db db' job e) [
      | inl q ↦ rw q v
      | inr q ↦ rw q (
          IsConsistent-create fresh.now fresh.item_id fresh.job_id request.item_payload selected
            db.items held unused v)
    ]
