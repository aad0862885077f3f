-- ===== src/Imports/Samples.antt =====
-- A batch of three lines beside three accounts, for the tests.
use smart_email_manager.Prelude.{
  ℕ, ◌+◌, ◌≡◌, refl, String, Bool, Option, none, some, [], strip, is_space, drop_spaces, drop_end,
  find_where, update_where, count_where, str_eq,
}
use smart_email_manager.Problem.{Result, ok, err}
use smart_email_manager.Accounts.Model.{get_group, email_is_taken}
use smart_email_manager.Accounts.Edit.{is_admitted}
use smart_email_manager.Accounts.Samples.{three}
use smart_email_manager.Encryption.{AccountSecretCipher, encrypt_context, decrypt_context}
use smart_email_manager.Imports.Lines.{
  ItemStatus, normalize_email, client_and_token, read_fields, parse_import_line, split,
}
use smart_email_manager.Imports.Content.{
  splitlines, numbered, in_texts, mark_duplicates, parse_import_content,
}
use smart_email_manager.Imports.Model.{
  BatchStatus, ImportBatch, Db, find_batch, put_batch, email_exists,
}
use smart_email_manager.Imports.Batch.{
  ImportBatchCreate, existing_batch, batch_key_is_taken, mark_existing, batch_item, checked_lines,
  insert_batch, create_import_batch, get_import_batch,
}
use smart_email_manager.Imports.Commit.{
  item_is, importable, decrypt_staged_secret, create_imported, commit_valid, commit_item,
  commit_items, committed_status, commit_validated,
}
use smart_email_manager.Imports.Rollback.{rollback_import_batch}

abbrev pub any_email : String → Option String
any_email email = some email

abbrev pub one_uuid : String → Bool
one_uuid text = str_eq text "c-1"

abbrev pub same_text : String → String
same_text text = text

abbrev pub plain_cipher : AccountSecretCipher
plain_cipher = record {
  aesgcm = record {
    encrypt = λ nonce text aad. text;
    decrypt = λ nonce text aad. some text;
    opens = λ nonce text aad. refl;
  };
  key_version = 1;
}

abbrev pub one_nonce : ℕ → String → String
one_nonce line field = "n"

abbrev pub account_ids : ℕ → ℕ
account_ids line = 20 + line

abbrev pub before_import : Db
before_import = record { base = three; aliases = []; secrets = []; batches = [] }

abbrev pub request : ImportBatchCreate
request = record {
  content = "n@x.org----pw----c-1----t-1\na@x.org----pw----t-2----c-1\nn@x.org----pw----c-1----t-3";
  account_type = "outlook";
  provider = "outlook";
  group_id = some 1;
  remark = "";
}

abbrev pub tables_of : Result (Db × ImportBatch) → Db
tables_of (err failure) = before_import
tables_of (ok (db, batch)) = db

abbrev pub batch_of : ImportBatch → Result (Db × ImportBatch) → ImportBatch
batch_of batch (err failure) = batch
batch_of batch (ok (db, other)) = other

abbrev pub no_batch : ImportBatch
no_batch = record {
  id = 0;
  status = BatchStatus.validated;
  account_type = "";
  provider = "";
  group_id = none;
  remark = "";
  idempotency_key = none;
  total_count = 0;
  valid_count = 0;
  invalid_count = 0;
  conflict_count = 0;
  created_count = 0;
  skipped_count = 0;
  failed_count = 0;
  finished_at = none;
  created_at = 0;
  items = [];
}

abbrev creating_call : Result (Db × ImportBatch)
creating_call =
    create_import_batch plain_cipher one_nonce any_email one_uuid same_text 30 200 (some "k")
      request before_import

unfoldable pub staged : Db
staged = tables_of creating_call

unfoldable pub staged_batch : ImportBatch
staged_batch = batch_of no_batch creating_call

pub creating :
    create_import_batch plain_cipher one_nonce any_email one_uuid same_text 30 200
      (some "k")
      request
      before_import
    ≡ ok (staged, staged_batch)
unfolding staged staged_batch create_import_batch existing_batch batch_key_is_taken find_where
    insert_batch get_group checked_lines parse_import_content splitlines
creating = refl

abbrev committing_call : Result (Db × ImportBatch)
committing_call = commit_validated plain_cipher one_nonce account_ids 210 211 staged_batch staged

unfoldable pub committed : Db
committed = tables_of committing_call

unfoldable pub committed_one : ImportBatch
committed_one = batch_of no_batch committing_call

pub committing :
    commit_validated plain_cipher one_nonce account_ids 210 211 staged_batch staged
    ≡ ok (committed, committed_one)
unfolding staged staged_batch create_import_batch existing_batch batch_key_is_taken find_where
    insert_batch get_group checked_lines parse_import_content splitlines split numbered
    mark_duplicates mark_existing read_fields normalize_email client_and_token parse_import_line
    email_exists in_texts strip drop_spaces drop_end is_space batch_item committed committed_one
    commit_validated commit_items commit_item importable commit_valid create_imported is_admitted
    email_is_taken decrypt_staged_secret decrypt_context encrypt_context
committing = refl

pub none_created_yet : count_where (item_is ItemStatus.created) staged_batch.items ≡ 0
unfolding staged staged_batch create_import_batch existing_batch batch_key_is_taken find_where
    insert_batch get_group checked_lines parse_import_content splitlines split numbered
    mark_duplicates mark_existing read_fields normalize_email client_and_token parse_import_line
    email_exists in_texts strip drop_spaces drop_end is_space batch_item count_where
none_created_yet = refl

abbrev undoing_call : Result (Db × ImportBatch)
undoing_call = rollback_import_batch 220 30 committed

unfoldable pub undone : Db
undone = tables_of undoing_call

unfoldable pub undone_batch : ImportBatch
undone_batch = batch_of no_batch undoing_call

pub undoing : rollback_import_batch 220 30 committed ≡ ok (undone, undone_batch)
unfolding staged staged_batch create_import_batch existing_batch batch_key_is_taken find_where
    insert_batch get_group checked_lines parse_import_content splitlines split numbered
    mark_duplicates mark_existing read_fields normalize_email client_and_token parse_import_line
    email_exists in_texts strip drop_spaces drop_end is_space batch_item committed committed_one
    commit_validated commit_items commit_item importable commit_valid create_imported is_admitted
    email_is_taken decrypt_staged_secret decrypt_context encrypt_context undone undone_batch
    rollback_import_batch get_import_batch find_batch put_batch update_where committed_status
    count_where
undoing = refl
