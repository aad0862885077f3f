-- ===== src/Accounts/Inversion.antt =====
-- What the transactions of services/accounts.py read and wrote, where they succeed.
use smart_email_manager.Prelude.{
  ℕ, ◌+◌, ◌≡◌, sym, ap, ◌∙◌, String, none, some, List, [], ◌∷◌, ◌++◌, ◌==◌, ==_iff, str_eq, strip,
  update_where, is_in,
}
use smart_email_manager.Problem.{Result, ok, err, problem, first_step, guard_step, ok-injective}
use smart_email_manager.Accounts.Model.{Account, Db, get_account, put_account, delete_account}
use smart_email_manager.Accounts.Bulk.{
  AccountBulkChanges, AccountBulkResult, validate_bulk_changes, changed_account,
  bulk_mutate_accounts,
}
use smart_email_manager.Accounts.Edit.{
  AccountCreate, AccountUpdate, get_account_or_404, check_version, check_group, is_admitted,
  new_account, create_account, updated_account, update_account, archive_account, purge_account,
}

get_account_or_404-found :
    (own : ℕ) (db : Db) (a : Account)
    → get_account_or_404 own db ≡ ok a
    → get_account db own ≡ some a
unfolding get_account_or_404
get_account_or_404-found own db a =
    elim (get_account db own)
      as (λ o.
        elim o as (λ _. Result Account) [
          | none ↦ err (problem 404 "ACCOUNT_NOT_FOUND")
          | some b ↦ ok b
        ]
          ≡ ok a
        → o ≡ some a) [ none ↦ λ h. absurd (cc h) | some b ↦ λ h. ap some (ok-injective b a h) ]

check_version-passed :
    (version : ℕ) (a b : Account)
    → check_version version a ≡ ok b
    → (a.row_version ≡ version) × (a ≡ b)
unfolding check_version
check_version-passed version a b h =
    let passed =
      guard_step (a.row_version == version) (problem 409 "ACCOUNT_VERSION_CONFLICT") a b h in
    ((==_iff a.row_version version).0 passed.0, passed.1)

module _ (lower : String → String) where
  pub update_account-writes :
      (own : ℕ) (payload : AccountUpdate) (db db' : Db) (account : Account)
      → update_account lower own payload db ≡ ok (db', account)
      → (old : Account) × (get_account db own ≡ some old)
        × (old.row_version ≡ payload.row_version)
        × (account ≡ updated_account lower payload old)
        × (db' ≡ put_account db account)
  unfolding update_account
  update_account-writes own payload db db' account h =
      let (found, read, rest) = first_step _ (get_account_or_404 own db) (db', account) h in
      let (old, checked, rest') =
        first_step _ (check_version payload.row_version found) (db', account) rest in
      let (known, group, rest'') =
        first_step _ (check_group payload.group_id db) (db', account) rest' in
      let (version, same) = check_version-passed payload.row_version found old checked in
      let written =
        (guard_step (is_admitted db (updated_account lower payload old))
          (problem 409 "ACCOUNT_EMAIL_CONFLICT")
          (put_account db (updated_account lower payload old), updated_account lower payload old)
          (db', account) rest'').1 in
      (
        old,
        get_account_or_404-found own db found read ∙ ap some same,
        ap (λ a. a.row_version) (sym same) ∙ version,
        sym (ap (λ r. r.1) written),
        sym (ap (λ r. r.0) written) ∙ ap (λ a. put_account db a) (ap (λ r. r.1) written),
      )

  pub create_account-writes :
      (own now : ℕ) (payload : AccountCreate) (db db' : Db) (account : Account)
      → create_account lower own now payload db ≡ ok (db', account)
      → (account.id ≡ own) × (db'.accounts ≡ db.accounts ++ account ∷ [])
  unfolding create_account
  create_account-writes own now payload db db' account h =
      let made = new_account lower own now payload db in
      let written =
        (guard_step (is_admitted db made) (problem 409 "ACCOUNT_EMAIL_CONFLICT")
          (record db { accounts = db.accounts ++ made ∷ [] }, made) (db', account) h).1 in
      (
        ap (λ r. r.1.id) (sym written),
        ap (λ r. r.0.accounts) (sym written)
            ∙ ap (λ a. db.accounts ++ a ∷ []) (ap (λ r. r.1) written),
      )

  pub purge_account-writes :
      (own : ℕ) (confirm_email : String) (db db' : Db)
      → purge_account lower own confirm_email db ≡ ok db'
      → (old : Account) × (get_account db own ≡ some old)
        × (db'.accounts ≡ (delete_account old.id db).accounts)
  unfolding purge_account
  purge_account-writes own confirm_email db db' h =
      let (old, read, rest) = first_step _ (get_account_or_404 own db) db' h in
      let written =
        (guard_step (str_eq old.email_normalized (lower (strip confirm_email)))
          (problem 409 "ACCOUNT_PURGE_CONFIRMATION_MISMATCH") _ db' rest).1 in
      (old, get_account_or_404-found own db old read, ap (λ d. d.accounts) (sym written))

pub archive_account-writes :
    (own row_version : ℕ) (db db' : Db) (account : Account)
    → archive_account own row_version db ≡ ok (db', account)
    → (old : Account) × (get_account db own ≡ some old)
      × (old.row_version ≡ row_version)
      × (account.id ≡ old.id)
      × (account.row_version ≡ old.row_version + 1)
      × (db'.accounts ≡ (put_account db account).accounts)
unfolding archive_account
archive_account-writes own row_version db db' account h =
    let (found, read, rest) = first_step _ (get_account_or_404 own db) (db', account) h in
    let (old, checked, rest') =
      first_step _ (check_version row_version found) (db', account) rest in
    let (version, same) = check_version-passed row_version found old checked in
    let written = ok-injective _ (db', account) rest' in
    (
      old,
      get_account_or_404-found own db found read ∙ ap some same,
      ap (λ a. a.row_version) (sym same) ∙ version,
      ap (λ r. r.1.id) (sym written),
      ap (λ r. r.1.row_version) (sym written),
      ap (λ r. r.0.accounts) (sym written)
          ∙ ap (λ a. (put_account db a).accounts) (ap (λ r. r.1) written),
    )

pub bulk_mutate_accounts-writes :
    (account_ids : List ℕ) (changes : AccountBulkChanges) (db db' : Db) (result : AccountBulkResult)
    → bulk_mutate_accounts account_ids changes db ≡ ok (db', result)
    → (ids : List ℕ) × (db'.accounts
        ≡ update_where (λ a. is_in a.id ids) (changed_account changes) db.accounts)
unfolding bulk_mutate_accounts
bulk_mutate_accounts-writes account_ids changes db db' result h =
    let (checked, valid, rest) = first_step _ (validate_bulk_changes changes db) (db', result) h in
    let written = ok-injective _ (db', result) rest in (_, ap (λ r. r.0.accounts) (sym written))
