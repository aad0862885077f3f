-- ===== src/Imports/Rollback.antt =====
-- services/imports.py: how an import is undone, but for the accounts that have changed since.
use smart_email_manager.Prelude.{
  ℕ, suc, Option, none, some, List, [], ◌∷◌, ◌==◌, ltb, if◌then◌else◌,
}
use smart_email_manager.Problem.{Result, ok, err, problem, ◌>>=◌}
use smart_email_manager.Accounts.Model.{Account, get_account}
use smart_email_manager.Imports.Lines.{ItemStatus}
use smart_email_manager.Imports.Model.{
  BatchStatus, ImportBatchItem, ImportBatch, Db, put_batch, delete_imported,
}
use smart_email_manager.Imports.Batch.{get_import_batch}
use smart_email_manager.Imports.Commit.{item_is}

-- The account that an item created, if it is there at its first version.
unfoldable pub unchanged_account : ℕ → Db → Option Account
unchanged_account account_id db = elim (get_account db.base account_id) [
  | none ↦ none
  | some account ↦ if account.row_version == 1 then some account else none
]

abbrev pub rolled_back_item : ImportBatchItem → ImportBatchItem
rolled_back_item item = record item { status = ItemStatus.rolled_back; created_account_id = none }

abbrev pub guarded_item : ImportBatchItem → ImportBatchItem
guarded_item item = record item { error_code = some "ROLLBACK_GUARD_BLOCKED" }

-- The account that an item is to be rid of.
abbrev pub created_account : ImportBatchItem → Option ℕ
created_account item = if item_is ItemStatus.created item then item.created_account_id else none

-- The items afterwards, and how many of them are guarded.
unfoldable pub rollback_items : List ImportBatchItem → Db → Db × List ImportBatchItem × ℕ
rollback_items [] db = (db, [], 0)
rollback_items (item ∷ items) db = elim (created_account item) [
  | none ↦ let (db', items', guarded) = rollback_items items db in (db', item ∷ items', guarded)
  | some account_id ↦ elim (unchanged_account account_id db) [
    | none ↦
        let (db', items', guarded) = rollback_items items db in
        (db', guarded_item item ∷ items', suc guarded)
    | some account ↦
        let (db', items', guarded) = rollback_items items (delete_imported account.id db) in
        (db', rolled_back_item item ∷ items', guarded)
  ]
]

unfoldable pub undo_batch : ℕ → ImportBatch → Db → Db × ImportBatch
undo_batch wall batch db =
    let (db', items, guarded) = rollback_items batch.items db in
    let batch' : ImportBatch = record batch {
      items = items;
      status = if ltb 0 guarded then BatchStatus.partial else BatchStatus.rolled_back;
      finished_at = some wall;
    } in
    (put_batch db' batch', batch')

unfoldable pub rollback_import_batch : ℕ → ℕ → Db → Result (Db × ImportBatch)
rollback_import_batch wall batch_id db = get_import_batch batch_id db >>= λ batch.
    elim batch.status [
      | BatchStatus.completed ↦ ok (undo_batch wall batch db)
      | BatchStatus.partial ↦ ok (undo_batch wall batch db)
      | _ ↦ err (problem 409 "IMPORT_BATCH_NOT_ROLLBACKABLE")
    ]
