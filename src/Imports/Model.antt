-- ===== src/Imports/Model.antt =====
-- The rows of db/models.py that imports work on: ImportBatch with its items in the order of their
-- lines, AccountAlias and AccountSecret, beside the tables of the accounts. updated_at and the
-- messages for people are left out.
use smart_email_manager.Prelude.{
  ℕ, String, Bool, not, ◌||◌, Option, List, ◌==◌, find_where, select_where, update_where, str_eq,
  is_some,
}
use smart_email_manager.Json.{Data}
use smart_email_manager.Accounts.Model
use smart_email_manager.Accounts.Model.{Account}
use smart_email_manager.Encryption.{Sealed}
use smart_email_manager.Imports.Lines.{ItemStatus}

pub data BatchStatus : Type 0 where
  validated committing completed partial failed rolled_back : BatchStatus

pub record ImportBatchItem : Type 0 where
  pub line_number : ℕ
  pub status : ItemStatus
  pub email : Option String
  pub email_normalized : Option String
  pub account_type : String
  pub provider : String
  pub group_id : Option ℕ
  pub remark : String
  pub provider_metadata : Data
  pub password_ciphertext : Option Sealed
  pub refresh_token_ciphertext : Option Sealed
  pub key_version : Option ℕ
  pub error_code : Option String
  pub created_account_id : Option ℕ

pub record ImportBatch : Type 0 where
  pub id : ℕ
  pub status : BatchStatus
  pub account_type : String
  pub provider : String
  pub group_id : Option ℕ
  pub remark : String
  pub idempotency_key : Option String
  pub total_count : ℕ
  pub valid_count : ℕ
  pub invalid_count : ℕ
  pub conflict_count : ℕ
  pub created_count : ℕ
  pub skipped_count : ℕ
  pub failed_count : ℕ
  pub finished_at : Option ℕ
  pub created_at : ℕ
  pub items : List ImportBatchItem

pub record AccountAlias : Type 0 where
  pub account_id : ℕ
  pub email_normalized : String

pub record AccountSecret : Type 0 where
  pub account_id : ℕ
  pub password_ciphertext : Option Sealed
  pub refresh_token_ciphertext : Option Sealed
  pub key_version : ℕ

-- `base` are the tables of the accounts. The aliases and the secrets, which imports read and write,
-- stand here with their columns.
pub record Db : Type 0 where
  pub base : Model.Db
  pub aliases : List AccountAlias
  pub secrets : List AccountSecret
  pub batches : List ImportBatch

-- select(ImportBatch).where(ImportBatch.id == batch_id)
unfoldable pub find_batch : Db → ℕ → Option ImportBatch
find_batch db batch_id = find_where (λ b. b.id == batch_id) db.batches

unfoldable pub put_batch : Db → ImportBatch → Db
put_batch db batch = record db {
  batches = update_where (λ b. b.id == batch.id) (λ _. batch) db.batches;
}

unfoldable pub email_exists : Db → String → Bool
email_exists db email =
    is_some (find_where (λ a. str_eq a.email_normalized email) db.base.accounts)
    || is_some (find_where (λ a. str_eq a.email_normalized email) db.aliases)

-- DELETE of an account, with what refers to it ON DELETE CASCADE
unfoldable pub delete_imported : ℕ → Db → Db
delete_imported account_id db = record db {
  base = Model.delete_account account_id db.base;
  aliases = select_where (λ a. not (a.account_id == account_id)) db.aliases;
  secrets = select_where (λ s. not (s.account_id == account_id)) db.secrets;
}
