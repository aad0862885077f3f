-- ===== src/Imports/Commit.antt =====
-- services/imports.py: how a batch becomes accounts, and how that is undone.
use smart_email_manager.Prelude.{
  ℕ, ◌+◌, String, Bool, ◌&&◌, ◌||◌, Option, none, some, List, [], ◌∷◌, ◌++◌, ◌==◌, ltb,
  if◌then◌else◌, is_some, str_eq, count_where,
}
use smart_email_manager.Problem.{Result, ok, err, problem, crash, ◌>>=◌}
use smart_email_manager.Enums.{
  LifecycleStatus, AuthorizationStatus, TokenStatus, MailHealthStatus, ProxyHealthStatus,
}
use smart_email_manager.Accounts.Model.{Account}
use smart_email_manager.Accounts.Edit.{is_admitted}
use smart_email_manager.Encryption.{
  AccountSecretCipher, Sealed, Decrypted, plain, not_loaded, invalid_tag, encrypt, decrypt_context,
}
use smart_email_manager.Imports.Lines.{ItemStatus}
use smart_email_manager.Imports.Content.{item_status_code}
use smart_email_manager.Imports.Model.{
  BatchStatus, AccountSecret, ImportBatchItem, ImportBatch, Db, put_batch, email_exists,
}
use smart_email_manager.Imports.Batch.{get_import_batch}

abbrev pub item_is : ItemStatus → ImportBatchItem → Bool
item_is status item = item_status_code item.status == item_status_code status

-- x and y, of two texts: both are there and not empty
abbrev pub both_texts : Option String → Option String → Option (String × String)
both_texts none b = none
both_texts (some a) none = none
both_texts (some a) (some b) = if str_eq a "" || str_eq b "" then none else some (a, b)

-- The addresses of an item that is to become an account.
unfoldable pub importable : ImportBatchItem → Option (String × String)
importable item =
    if item_is ItemStatus.valid item then both_texts item.email item.email_normalized else none

-- The account that an item describes.
abbrev pub imported_account : ℕ → ℕ → ImportBatchItem → String → String → Account
imported_account id now item email normalized = record {
  id = id;
  email = email;
  email_normalized = normalized;
  account_type = item.account_type;
  provider = item.provider;
  authorization_type = "";
  lifecycle_status = LifecycleStatus.active;
  authorization_status = AuthorizationStatus.unknown;
  token_status = TokenStatus.never;
  mail_health_status = MailHealthStatus.unknown;
  proxy_health_status = ProxyHealthStatus.not_configured;
  group_id = item.group_id;
  proxy_profile_id = none;
  remark = item.remark;
  last_token_check_at = none;
  last_mail_check_at = none;
  last_mail_success_at = none;
  last_message_at = none;
  health_reason_code = none;
  health_error_summary = none;
  consecutive_failures = 0;
  row_version = 1;
  provider_metadata = item.provider_metadata;
  created_at = now;
}

abbrev pub insert_account : Account → Db → Db
insert_account account db = record db {
  base = record db.base { accounts = db.base.accounts ++ account ∷ [] };
}

-- What a staged secret is: none, a text, or that it cannot be read.
pub data Staged : Type 0 where
  absent : Staged
  present : String → Staged
  unreadable broken : Staged

abbrev pub staged_of : Decrypted → Staged
staged_of (plain value) = present value
staged_of not_loaded = unreadable
staged_of invalid_tag = broken

module _ (cipher : AccountSecretCipher) where
  unfoldable pub decrypt_staged_secret : ℕ → ImportBatchItem → String → Option Sealed → Staged
  decrypt_staged_secret batch_id item field_name none = absent
  decrypt_staged_secret batch_id item field_name (some ciphertext) = elim item.key_version [
    | none ↦ absent
    | some version ↦
        staged_of (decrypt_context cipher batch_id item.line_number field_name ciphertext version)
  ]

-- What becomes of an item.
abbrev pub skipped_item : ImportBatchItem → ImportBatchItem
skipped_item item = record item {
  status = ItemStatus.skipped;
  error_code = some "ACCOUNT_EMAIL_CONFLICT";
}

abbrev pub failed_item : ImportBatchItem → ImportBatchItem
failed_item item = record item {
  status = ItemStatus.failed;
  error_code = some "IMPORT_COMMIT_FAILED";
}

abbrev pub created_item : ℕ → ImportBatchItem → ImportBatchItem
created_item account_id item = record item {
  status = ItemStatus.created;
  created_account_id = some account_id;
  password_ciphertext = none;
  refresh_token_ciphertext = none;
}

-- The texts of both secrets, `none` for a `ValueError`.
abbrev pub read_secrets : Staged → Staged → Result (Option (Option String × Option String))
read_secrets unreadable token = ok none
read_secrets broken token = err (crash "InvalidTag")
read_secrets password unreadable = ok none
read_secrets password broken = err (crash "InvalidTag")
read_secrets password token = ok (some (text_of password, text_of token))
  where
    text_of : Staged → Option String
    text_of (present value) = some value
    text_of staged = none

module _ (cipher : AccountSecretCipher) (nonces : ℕ → String → String) where
  abbrev pub resealed : ℕ → ℕ → String → Option String → Option Sealed
  resealed line account_id field_name none = none
  resealed line account_id field_name (some value) =
      some (encrypt cipher (nonces line field_name) account_id field_name value)

  abbrev pub secret_row : ℕ → ℕ → Option String × Option String → AccountSecret
  secret_row line account_id texts = record {
    account_id = account_id;
    password_ciphertext = resealed line account_id "password" texts.0;
    refresh_token_ciphertext = resealed line account_id "refresh_token" texts.1;
    key_version = cipher.key_version;
  }

  abbrev pub add_secrets :
      ℕ → ℕ → Option String × Option String → List AccountSecret → List AccountSecret
  add_secrets line account_id texts secrets =
      if is_some texts.0 || is_some texts.1
      then secrets ++ secret_row line account_id texts ∷ []
      else secrets

  abbrev pub save_imported :
      Account → ImportBatchItem → Db → Option (Option String × Option String) → Db × ImportBatchItem
  save_imported account item db none = (db, failed_item item)
  save_imported account item db (some texts) = (
    record (insert_account account db) {
      secrets = add_secrets item.line_number account.id texts db.secrets;
    },
    created_item account.id item,
  )

  abbrev pub staged_secrets : ℕ → ImportBatchItem → Result (Option (Option String × Option String))
  staged_secrets batch_id item =
      read_secrets (decrypt_staged_secret cipher batch_id item "password" item.password_ciphertext)
        (decrypt_staged_secret cipher batch_id item "refresh_token" item.refresh_token_ciphertext)

  -- The nested transaction of one item: what it raises as an `IntegrityError` or a `ValueError`
  -- makes the item fail and is undone.
  unfoldable pub create_imported :
      ℕ → ℕ → ℕ → ImportBatchItem → String → String → Db → Result (Db × ImportBatchItem)
  create_imported batch_id account_id now item email normalized db =
      let account = imported_account account_id now item email normalized in
      if is_admitted db.base account
      then (staged_secrets batch_id item >>= λ read. ok (save_imported account item db read))
      else ok (db, failed_item item)

  unfoldable pub commit_valid :
      ℕ → ℕ → ℕ → ImportBatchItem → String × String → Db → Result (Db × ImportBatchItem)
  commit_valid batch_id account_id now item texts db =
      if email_exists db texts.1
      then ok (db, skipped_item item)
      else create_imported batch_id account_id now item texts.0 texts.1 db

  -- `ids` are the ids of the new accounts, by line.
  unfoldable pub commit_item :
      ℕ → (ℕ → ℕ) → ℕ → ImportBatchItem → Db → Result (Db × ImportBatchItem)
  commit_item batch_id ids now item db = elim (importable item) [
    | none ↦ ok (db, item)
    | some texts ↦ commit_valid batch_id (ids item.line_number) now item texts db
  ]

  unfoldable pub commit_items :
      ℕ → (ℕ → ℕ) → ℕ → List ImportBatchItem → Db → Result (Db × List ImportBatchItem)
  commit_items batch_id ids now [] db = ok (db, [])
  commit_items batch_id ids now (item ∷ items) db = do
    (db', item') ← commit_item batch_id ids now item db
    (db'', items') ← commit_items batch_id ids now items db'
    ok (db'', item' ∷ items')

-- The final status of a batch, by its counts.
unfoldable pub committed_status : ℕ → ℕ → ℕ → BatchStatus
committed_status created_count non_created failed_count =
    if ltb 0 created_count && ltb 0 non_created
    then BatchStatus.partial
    else if ltb 0 failed_count
    then BatchStatus.failed
    else BatchStatus.completed

abbrev pub committed_batch : ℕ → List ImportBatchItem → ImportBatch → ImportBatch
committed_batch wall items batch =
    let created_count : ℕ = count_where (item_is ItemStatus.created) items in
    let skipped_count : ℕ = count_where (item_is ItemStatus.skipped) items in
    let failed_count : ℕ = count_where (item_is ItemStatus.failed) items in
    record batch {
      items = items;
      created_count = created_count;
      skipped_count = skipped_count;
      failed_count = failed_count;
      finished_at = some wall;
      status =
          committed_status created_count
            (batch.invalid_count + batch.conflict_count + skipped_count + failed_count)
            failed_count;
    }

module _ (cipher : AccountSecretCipher) (nonces : ℕ → String → String) where
  unfoldable pub commit_validated : (ℕ → ℕ) → ℕ → ℕ → ImportBatch → Db → Result (Db × ImportBatch)
  commit_validated ids now wall batch db = do
    (db', items) ← commit_items cipher nonces batch.id ids now batch.items db
    let batch' = committed_batch wall items batch
    ok (put_batch db' batch', batch')

  unfoldable pub commit_import_batch : (ℕ → ℕ) → ℕ → ℕ → ℕ → Db → Result (Db × ImportBatch)
  commit_import_batch ids now wall batch_id db = get_import_batch batch_id db >>= λ batch.
      elim batch.status [
        | BatchStatus.completed ↦ ok (db, batch)
        | BatchStatus.partial ↦ ok (db, batch)
        | BatchStatus.validated ↦ commit_validated ids now wall batch db
        | _ ↦ err (problem 409 "IMPORT_BATCH_NOT_COMMITTABLE")
      ]
