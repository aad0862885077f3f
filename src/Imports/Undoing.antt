-- ===== src/Imports/Undoing.antt =====
-- What a rollback deletes and what it keeps.
use smart_email_manager.Prelude.{
  Bool, true, false, arith, ℕ, ltb, ◌≡◌, refl, sym, ap, ◌∙◌, true, none, if◌then◌else◌,
}
use smart_email_manager.Problem.{Result, ok, err, problem, first_step, ok-injective}
use smart_email_manager.Accounts.Model.{get_account}
use smart_email_manager.Imports.Model.{BatchStatus, ImportBatch, Db, put_batch}
use smart_email_manager.Imports.Batch.{get_import_batch}
use smart_email_manager.Imports.Rollback.{rollback_items, undo_batch, rollback_import_batch}
use smart_email_manager.Imports.Leftover.{
  is_created_by, left_over, rollback_items-left, rollback_items-none_left,
}

not_guarded :
    (b : Bool)
    → (if b then BatchStatus.partial else BatchStatus.rolled_back) ≡ BatchStatus.rolled_back
    → b ≡ false
not_guarded true h = absurd (cc h)
not_guarded false h = refl

no_guards :
    (n : ℕ)
    → (if ltb 0 n then BatchStatus.partial else BatchStatus.rolled_back) ≡ BatchStatus.rolled_back
    → n ≡ 0
no_guards n h = ground (arith, not_guarded (ltb 0 n) h)

module _ (wall : ℕ) (batch : ImportBatch) (db : Db) where
  undone_by_status :
      (status : BatchStatus) (end : Db × ImportBatch)
      → elim status as (λ _. Result (Db × ImportBatch)) [
        | BatchStatus.completed ↦ ok (undo_batch wall batch db)
        | BatchStatus.partial ↦ ok (undo_batch wall batch db)
        | _ ↦ err (problem 409 "IMPORT_BATCH_NOT_ROLLBACKABLE")
      ]
        ≡ ok end
      → undo_batch wall batch db ≡ end
  undone_by_status BatchStatus.completed end h = ok-injective (undo_batch wall batch db) end h
  undone_by_status BatchStatus.partial end h = ok-injective (undo_batch wall batch db) end h
  undone_by_status BatchStatus.validated end h = absurd (cc h)
  undone_by_status BatchStatus.committing end h = absurd (cc h)
  undone_by_status BatchStatus.failed end h = absurd (cc h)
  undone_by_status BatchStatus.rolled_back end h = absurd (cc h)

  undo_batch-base : (undo_batch wall batch db).0.base ≡ (rollback_items batch.items db).0.base
  unfolding undo_batch put_batch
  undo_batch-base = refl

  undo_batch-guards :
      (undo_batch wall batch db).1.status ≡ BatchStatus.rolled_back
      → (rollback_items batch.items db).2 ≡ 0
  unfolding undo_batch
  undo_batch-guards h = no_guards (rollback_items batch.items db).2 h

-- Where a rollback succeeds, exactly the accounts that an item of the batch created and that are
-- still at row version 1 are gone: every other account is as it was, those of the batch that
-- have changed since included. If the batch's status then is `rolled_back`, none of the
-- accounts that it created is left.
pub rollback_import_batch-left :
    (wall batch_id : ℕ) (db db' : Db) (batch' : ImportBatch)
    → rollback_import_batch wall batch_id db ≡ ok (db', batch')
    → (batch : ImportBatch) × (get_import_batch batch_id db ≡ ok batch)
      × ((id : ℕ)
          → get_account db'.base id
            ≡ left_over (is_created_by id batch.items) (get_account db.base id))
      × ((id : ℕ)
          → batch'.status ≡ BatchStatus.rolled_back
          → is_created_by id batch.items ≡ true
          → get_account db'.base id ≡ none)
unfolding rollback_import_batch
rollback_import_batch-left wall batch_id db db' batch' h =
    let (batch, read, rest) = first_step _ (get_import_batch batch_id db) (db', batch') h in
    let made = undone_by_status wall batch db batch.status (db', batch') rest in
    let base : db'.base ≡ (rollback_items batch.items db).0.base =
      ap (λ r. r.0.base) (sym made) ∙ undo_batch-base wall batch db in
    (
      batch,
      read,
      λ id. ap (λ b. get_account b id) base ∙ rollback_items-left id batch.items db,
      λ id status created.
          ap (λ b. get_account b id) base
          ∙ rollback_items-none_left id batch.items db
              (undo_batch-guards wall batch db (ap (λ r. r.1.status) made ∙ status)) created,
    )
