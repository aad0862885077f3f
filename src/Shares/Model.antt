-- ===== src/Shares/Model.antt =====
-- The rows of db/models.py that the sharing of mailboxes reads and writes: EmailShareLink
-- and, of Account, what it needs. Identifiers and times (in seconds) are native numbers.
use smart_email_manager.Prelude.{ℕ, String, Bool, Option, some, List, ◌==◌, find_where}
use smart_email_manager.Json.{Data}
use smart_email_manager.Audit.{AuditLog, add_audit_log}

pub data Folder : Type 0 where
  inbox junkemail : Folder

unfoldable pub same_folder : Folder → Folder → Bool
same_folder inbox inbox = Bool.true
same_folder junkemail junkemail = Bool.true
same_folder _ _ = Bool.false

pub record EmailShareLink : Type 0 where
  pub id : ℕ
  pub account_id : ℕ
  pub token_prefix : String
  pub token_hash : String
  pub allowed_folders : List Folder
  pub expires_at : Option ℕ
  pub never_expires : Bool
  pub revoked_at : Option ℕ
  pub last_accessed_at : Option ℕ
  pub created_at : ℕ

pub record Account : Type 0 where
  pub id : ℕ
  pub email : String

pub record Db : Type 0 where
  pub links : List EmailShareLink
  pub accounts : List Account
  pub audit : List AuditLog

-- session.get(EmailShareLink, share_id)
unfoldable pub get_link : Db → ℕ → Option EmailShareLink
get_link db share_id = find_where (λ l. l.id == share_id) db.links

-- session.get(Account, account_id)
unfoldable pub get_account : Db → ℕ → Option Account
get_account db account_id = find_where (λ a. a.id == account_id) db.accounts

unfoldable pub audited : Db → String → String → ℕ → Data → Db
unfolding add_audit_log
audited db action resource_type resource_id info = record db {
  audit = add_audit_log db.audit action resource_type (some resource_id) info;
}
