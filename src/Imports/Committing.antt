-- ===== src/Imports/Committing.antt =====
-- What the commit of a batch adds to the accounts.
use smart_email_manager.Prelude.{
  ℕ, ◌+◌, ◌≡◌, refl, sym, ap, ◌∙◌, String, true, false, Option, none, some, List, [], ◌∷◌, ◌++◌,
  arith, if_cases, Option-cases, inl, inr, ◌⊎◌, count_where, length, length-append,
}
use smart_email_manager.Problem.{ok, first_step, ok-injective}
use smart_email_manager.Accounts.Model.{Account}
use smart_email_manager.Accounts.Edit.{is_admitted}
use smart_email_manager.Encryption.{AccountSecretCipher}
use smart_email_manager.Imports.Lines.{ItemStatus}
use smart_email_manager.Imports.Model.{ImportBatchItem, ImportBatch, Db, put_batch, email_exists}
use smart_email_manager.Imports.Commit.{
  item_is, imported_account, staged_secrets, save_imported, failed_item, skipped_item,
  create_imported, importable, commit_valid, commit_item, commit_items, commit_validated,
}
use smart_email_manager.Imports.OwnEmails.{
  HaveOwnEmails, HaveOwnEmails-append, email_exists-apart, one_if_created, valid_not_created,
  importable-valid,
}

module _ (cipher : AccountSecretCipher) (nonces : ℕ → String → String) (batch_id : ℕ) (ids : ℕ → ℕ)
    (now : ℕ) where
  -- What a step from `db` with an item to `db'` with the item as it is written does to the accounts:
  -- nothing, and the item is not created by it, or it adds an account whose address none had.
  Adds : ImportBatchItem → Db → ImportBatchItem → Db → Type 0
  Adds item db item' db' =
      ((db'.base.accounts ≡ db.base.accounts)
        × (item_is ItemStatus.created item' ≡ item_is ItemStatus.created item))
      ⊎ ((account : Account) × (db'.base.accounts ≡ db.base.accounts ++ account ∷ [])
          × (email_exists db account.email_normalized ≡ false)
          × (item_is ItemStatus.created item ≡ false)
          × (item_is ItemStatus.created item' ≡ true))

  commit_item-none :
      (item : ImportBatchItem) (db : Db)
      → importable item ≡ none
      → commit_item cipher nonces batch_id ids now item db ≡ ok (db, item)
  unfolding commit_item
  commit_item-none item db e = rw (commit_item, e) refl

  commit_item-some :
      (item : ImportBatchItem) (texts : String × String) (db : Db)
      → importable item ≡ some texts
      → commit_item cipher nonces batch_id ids now item db
        ≡ commit_valid cipher nonces batch_id (ids item.line_number) now item texts db
  unfolding commit_item
  commit_item-some item texts db e = rw (commit_item, e) refl

  -- An item that changes without an account.
  stays :
      (item item' other : ImportBatchItem) (db db' : Db)
      → item_is ItemStatus.created item ≡ false
      → item_is ItemStatus.created other ≡ false
      → ◌≡◌ {A = Db × ImportBatchItem} (db, other) (db', item')
      → Adds item db item' db'
  unfolding Adds
  stays item item' other db db' was is h = inl (
    ap (λ r. r.0.base.accounts) (sym h),
    ap (λ r. item_is ItemStatus.created r.1) (sym h) ∙ is ∙ sym was,
  )

  save_imported-Adds :
      (account : Account) (item item' : ImportBatchItem) (db db' : Db)
      (read : Option (Option String × Option String))
      → item_is ItemStatus.valid item ≡ true
      → email_exists db account.email_normalized ≡ false
      → save_imported cipher nonces account item db read ≡ (db', item')
      → Adds item db item' db'
  unfolding Adds
  save_imported-Adds account item item' db db' none valid fresh h =
      stays item item' (failed_item item) db db' (valid_not_created item valid) refl h
  save_imported-Adds account item item' db db' (some texts) valid fresh h = inr (
    account,
    ap (λ r. r.0.base.accounts) (sym h),
    fresh,
    valid_not_created item valid,
    ap (λ r. item_is ItemStatus.created r.1) (sym h),
  )

  create_imported-Adds :
      (account_id : ℕ) (item item' : ImportBatchItem) (email normalized : String) (db db' : Db)
      → item_is ItemStatus.valid item ≡ true
      → email_exists db normalized ≡ false
      → create_imported cipher nonces batch_id account_id now item email normalized db
        ≡ ok (db', item')
      → Adds item db item' db'
  unfolding create_imported
  create_imported-Adds account_id item item' email normalized db db' valid fresh =
      let account = imported_account account_id now item email normalized in
      if_cases (λ r. r ≡ ok (db', item') → Adds item db item' db') (is_admitted db.base account) _ _
        (λ admitted h.
          let (read, secrets, rest) =
            first_step (λ read. ok (save_imported cipher nonces account item db read))
              (staged_secrets cipher nonces batch_id item) (db', item') h in
          save_imported-Adds account item item' db db' read valid fresh
            (ok-injective (save_imported cipher nonces account item db read) (db', item') rest))
        (λ refused h.
          stays item item' (failed_item item) db db' (valid_not_created item valid) refl
            (ok-injective (db, failed_item item) (db', item') h))

  commit_valid-Adds :
      (account_id : ℕ) (item item' : ImportBatchItem) (texts : String × String) (db db' : Db)
      → item_is ItemStatus.valid item ≡ true
      → commit_valid cipher nonces batch_id account_id now item texts db ≡ ok (db', item')
      → Adds item db item' db'
  unfolding commit_valid
  commit_valid-Adds account_id item item' texts db db' valid =
      if_cases (λ r. r ≡ ok (db', item') → Adds item db item' db') (email_exists db texts.1) _ _
        (λ occupied h.
          stays item item' (skipped_item item) db db' (valid_not_created item valid) refl
            (ok-injective (db, skipped_item item) (db', item') h))
        (λ fresh h. create_imported-Adds account_id item item' texts.0 texts.1 db db' valid fresh h)

  commit_item-Adds :
      (item item' : ImportBatchItem) (db db' : Db)
      → commit_item cipher nonces batch_id ids now item db ≡ ok (db', item')
      → Adds item db item' db'
  unfolding Adds
  commit_item-Adds item item' db db' h = elim (Option-cases (importable item)) [
    | inl e ↦
        let same = ok-injective (db, item) (db', item') (sym (commit_item-none item db e) ∙ h) in
        inl (
          ap (λ r. r.0.base.accounts) (sym same),
          ap (λ r. item_is ItemStatus.created r.1) (sym same),
        )
    | inr (texts, e) ↦
        commit_valid-Adds (ids item.line_number) item item' texts db db'
          (importable-valid item texts e) (sym (commit_item-some item texts db e) ∙ h)
  ]

  Adds-counts :
      (item item' : ImportBatchItem) (db db' : Db)
      → Adds item db item' db'
      → length db'.base.accounts + one_if_created item
        ≡ length db.base.accounts + one_if_created item'
  unfolding Adds
  Adds-counts item item' db db' (inl (same, flag)) = rw (same, flag) refl
  Adds-counts item item' db db' (inr (account, added, fresh, was, is)) =
      rw (was, is) (omega (arith, ap length added, length-append db.base.accounts (account ∷ [])))

  Adds-HaveOwnEmails :
      (item item' : ImportBatchItem) (db db' : Db)
      → Adds item db item' db'
      → HaveOwnEmails db.base.accounts
      → HaveOwnEmails db'.base.accounts
  unfolding Adds
  Adds-HaveOwnEmails item item' db db' (inl (same, flag)) h = rw same h
  Adds-HaveOwnEmails item item' db db' (inr (account, added, fresh, was, is)) h = rw added (
      HaveOwnEmails-append account db.base.accounts
        (email_exists-apart db account.email_normalized fresh) h)

  commit_items-steps :
      (item : ImportBatchItem) (items items' : List ImportBatchItem) (db db' : Db)
      → commit_items cipher nonces batch_id ids now (item ∷ items) db ≡ ok (db', items')
      → (middle : Db) × (item' : ImportBatchItem) × (rest : List ImportBatchItem) × (commit_item
            cipher nonces batch_id ids now item db
          ≡ ok (middle, item'))
        × (commit_items cipher nonces batch_id ids now items middle ≡ ok (db', rest))
        × (items' ≡ item' ∷ rest)
  unfolding commit_items
  commit_items-steps item items items' db db' h =
      let (next, first, rest) =
        first_step _ (commit_item cipher nonces batch_id ids now item db) (db', items') h in
      let (end, later, rest') =
        first_step _ (commit_items cipher nonces batch_id ids now items next.0) (db', items')
          rest in
      let same = ok-injective _ (db', items') rest' in
      (
        next.0,
        next.1,
        end.1,
        first,
        later ∙ ap (λ d. ok (d, end.1)) (ap (λ r. r.0) same),
        ap (λ r. r.1) (sym same),
      )

  commit_items-counts :
      (items items' : List ImportBatchItem) (db db' : Db)
      → commit_items cipher nonces batch_id ids now items db ≡ ok (db', items')
      → length db'.base.accounts + count_where (item_is ItemStatus.created) items
        ≡ length db.base.accounts + count_where (item_is ItemStatus.created) items'
  unfolding commit_items count_where
  commit_items-counts [] items' db db' h =
      let same = ok-injective (db, []) (db', items') h in
      rw (ap (λ r. r.0.base.accounts) (sym same), ap (λ r. r.1) (sym same)) refl
  commit_items-counts (item ∷ items) items' db db' h =
      let (middle, item', rest, first, later, split) =
        commit_items-steps item items items' db db' h in
      rw split (
        omega (
          arith,
          Adds-counts item item' db middle (commit_item-Adds item item' db middle first),
          commit_items-counts items rest middle db' later,
        ))

  commit_items-HaveOwnEmails :
      (items items' : List ImportBatchItem) (db db' : Db)
      → commit_items cipher nonces batch_id ids now items db ≡ ok (db', items')
      → HaveOwnEmails db.base.accounts
      → HaveOwnEmails db'.base.accounts
  unfolding commit_items
  commit_items-HaveOwnEmails [] items' db db' h own =
      rw (ap (λ r. r.0.base.accounts) (sym (ok-injective (db, []) (db', items') h))) own
  commit_items-HaveOwnEmails (item ∷ items) items' db db' h own =
      let (middle, item', rest, first, later, split) =
        commit_items-steps item items items' db db' h in
      commit_items-HaveOwnEmails items rest middle db' later
        (Adds-HaveOwnEmails item item' db middle (commit_item-Adds item item' db middle first) own)

-- Where a batch that is validated, with no item created yet, is committed, the number of accounts
-- grows by its `created_count`, and accounts whose addresses were all different still have
-- different addresses.
pub commit_validated-adds :
    (cipher : AccountSecretCipher) (nonces : ℕ → String → String) (ids : ℕ → ℕ) (now wall : ℕ)
    (batch batch' : ImportBatch) (db db' : Db)
    → count_where (item_is ItemStatus.created) batch.items ≡ 0
    → commit_validated cipher nonces ids now wall batch db ≡ ok (db', batch')
    → (length db'.base.accounts ≡ length db.base.accounts + batch'.created_count)
      × (HaveOwnEmails db.base.accounts → HaveOwnEmails db'.base.accounts)
unfolding commit_validated put_batch
commit_validated-adds cipher nonces ids now wall batch batch' db db' none_yet h =
    let (end, made, rest) =
      first_step _ (commit_items cipher nonces batch.id ids now batch.items db) (db', batch') h in
    let same = ok-injective _ (db', batch') rest in
    let accounts : db'.base.accounts ≡ end.0.base.accounts =
      ap (λ r. r.0.base.accounts) (sym same) in
    let created : batch'.created_count ≡ count_where (item_is ItemStatus.created) end.1 =
      ap (λ r. r.1.created_count) (sym same) in
    (
      omega (
        arith,
        ap length accounts,
        created,
        none_yet,
        commit_items-counts cipher nonces batch.id ids now batch.items end.1 db end.0 made,
      ),
      λ own. rw accounts (
          commit_items-HaveOwnEmails cipher nonces batch.id ids now batch.items end.1 db end.0 made
            own),
    )
