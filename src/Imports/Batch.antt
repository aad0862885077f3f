-- ===== src/Imports/Batch.antt =====
-- services/imports.py: how a batch is created from its text, and listed.
use smart_email_manager.Prelude.{
  ℕ, String, Bool, false, ◌||◌, Option, none, some, List, [], ◌∷◌, ◌++◌, map, ◌==◌, ltb,
  if◌then◌else◌, is_some, str_eq, strip, length, find_where, count_where, order_rows, take_rows,
}
use smart_email_manager.Problem.{Result, ok, err, problem, crash, ◌>>=◌}
use smart_email_manager.Accounts.Model.{key_is}
use smart_email_manager.Accounts.Edit.{check_group}
use smart_email_manager.Encryption.{AccountSecretCipher, Sealed, encrypt_context}
use smart_email_manager.Imports.Lines.{ItemStatus, valid, invalid, conflict, ParsedImportLine}
use smart_email_manager.Imports.Content.{
  item_status_code, valid_email, in_conflict, parse_import_content,
}
use smart_email_manager.Imports.Model.{
  validated, ImportBatchItem, ImportBatch, Db, find_batch, email_exists,
}

pub record ImportBatchCreate : Type 0 where
  pub content : String
  pub account_type : String
  pub provider : String
  pub group_id : Option ℕ
  pub remark : String

-- The batch that was created under a key that is given and not empty.
unfoldable pub existing_batch : Option String → Db → Option ImportBatch
existing_batch none db = none
existing_batch (some key) db =
    if str_eq key "" then none else find_where (λ b. key_is key b.idempotency_key) db.batches

-- The unique constraint on `import_batches.idempotency_key`, which the flush of the new row meets.
unfoldable pub batch_key_is_taken : Option String → Db → Bool
batch_key_is_taken none db = false
batch_key_is_taken (some key) db =
    is_some (find_where (λ b. key_is key b.idempotency_key) db.batches)

-- A valid item whose address is an account's or an alias's.
unfoldable pub mark_existing : Db → ParsedImportLine → ParsedImportLine
mark_existing db item = elim (valid_email item) [
  | none ↦ item
  | some email ↦ if email_exists db email then in_conflict "ACCOUNT_EMAIL_CONFLICT" item else item
]

abbrev pub has_status : ItemStatus → ParsedImportLine → Bool
has_status status item = item_status_code item.status == item_status_code status

-- The ciphertext of a field that has a text.
abbrev pub sealed_field :
    AccountSecretCipher → String → ℕ → ℕ → String → Option String → Option Sealed
sealed_field cipher nonce batch_id line field_name none = none
sealed_field cipher nonce batch_id line field_name (some value) =
    if str_eq value ""
    then none
    else some (encrypt_context cipher nonce batch_id line field_name value)

module _ (validate_email : String → Option String) (is_uuid : String → Bool)
    (lower : String → String) where
  -- The lines of a request, those in conflict with each other and with the accounts marked.
  unfoldable pub checked_lines : ImportBatchCreate → Db → List ParsedImportLine
  checked_lines payload db =
      map (mark_existing db)
        (parse_import_content validate_email is_uuid lower payload.content payload.account_type)

module _ (cipher : AccountSecretCipher) (nonces : ℕ → String → String) where
  -- `nonces` are those that are drawn for the fields of each line.
  abbrev pub sealed_of : ℕ → ParsedImportLine → String → Option String → Option Sealed
  sealed_of batch_id item field_name value =
      sealed_field cipher (nonces item.line_number field_name) batch_id item.line_number field_name
        value

  unfoldable pub batch_item : ImportBatch → ParsedImportLine → ImportBatchItem
  batch_item batch item =
      let password : Option Sealed = sealed_of batch.id item "password" item.password in
      let refresh_token : Option Sealed =
        sealed_of batch.id item "refresh_token" item.refresh_token in
      record {
        line_number = item.line_number;
        status = item.status;
        email = item.email;
        email_normalized = item.email_normalized;
        account_type = batch.account_type;
        provider = batch.provider;
        group_id = batch.group_id;
        remark = batch.remark;
        provider_metadata = item.provider_metadata;
        password_ciphertext = password;
        refresh_token_ciphertext = refresh_token;
        key_version =
            if is_some password || is_some refresh_token then some cipher.key_version else none;
        error_code = item.error_code;
        created_account_id = none;
      }

  abbrev pub new_batch :
      (String → String)
      → ℕ
      → ℕ
      → Option String
      → ImportBatchCreate
      → List ParsedImportLine
      → ImportBatch
  new_batch lower id now idempotency_key payload parsed = record {
    id = id;
    status = validated;
    account_type = payload.account_type;
    provider = lower (strip payload.provider);
    group_id = payload.group_id;
    remark = strip payload.remark;
    idempotency_key = idempotency_key;
    total_count = length parsed;
    valid_count = count_where (has_status valid) parsed;
    invalid_count = count_where (has_status invalid) parsed;
    conflict_count = count_where (has_status conflict) parsed;
    created_count = 0;
    skipped_count = 0;
    failed_count = 0;
    finished_at = none;
    created_at = now;
    items = [];
  }

  module _ (validate_email : String → Option String) (is_uuid : String → Bool)
      (lower : String → String) where
    abbrev pub filled_batch : ℕ → ℕ → Option String → ImportBatchCreate → Db → ImportBatch
    filled_batch id now idempotency_key payload db =
        let parsed : List ParsedImportLine =
          checked_lines validate_email is_uuid lower payload db in
        let batch : ImportBatch = new_batch lower id now idempotency_key payload parsed in
        record batch { items = map (batch_item batch) parsed }

    unfoldable pub insert_batch :
        ℕ → ℕ → Option String → ImportBatchCreate → Db → Result (Db × ImportBatch)
    insert_batch id now idempotency_key payload db = do
      checked ← check_group (some payload.group_id) db.base
      let batch = filled_batch id now idempotency_key payload db
      if batch_key_is_taken idempotency_key db
          then err (crash "IntegrityError")
          else ok (record db { batches = db.batches ++ batch ∷ [] }, batch)

    unfoldable pub create_import_batch :
        ℕ → ℕ → Option String → ImportBatchCreate → Db → Result (Db × ImportBatch)
    create_import_batch id now idempotency_key payload db =
        elim (existing_batch idempotency_key db) [
          | none ↦ insert_batch id now idempotency_key payload db
          | some batch ↦ ok (db, batch)
        ]

-- ORDER BY created_at DESC
unfoldable pub newer_batch : ImportBatch → ImportBatch → Bool
newer_batch a b = ltb b.created_at a.created_at

unfoldable pub list_import_batches : ℕ → Db → List ImportBatch
list_import_batches limit db = take_rows limit (order_rows newer_batch db.batches)

unfoldable pub get_import_batch : ℕ → Db → Result ImportBatch
get_import_batch batch_id db = elim (find_batch db batch_id) [
  | none ↦ err (problem 404 "IMPORT_BATCH_NOT_FOUND")
  | some batch ↦ ok batch
]
