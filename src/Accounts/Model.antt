-- ===== src/Accounts/Model.antt =====
-- The rows of db/models.py that hold the accounts: Account, Group, Tag, AccountTag and
-- AccountForwarding, and the audit log. Identifiers and times are native numbers. The columns
-- legacy_id and updated_at are left out, of the rows of other components that belong to an account all
-- but their table and the account, and of a group all but its id and its system key.
use smart_email_manager.Prelude.{
  ℕ, String, Bool, false, not, ◌&&◌, Option, none, some, List, ◌==◌, find_where, select_where,
  update_where, str_eq,
}
use smart_email_manager.Enums.{
  LifecycleStatus, AuthorizationStatus, TokenStatus, MailHealthStatus, ProxyHealthStatus,
}
use smart_email_manager.Json.{Data}
use smart_email_manager.Audit.{AuditLog}

pub record Account : Type 0 where
  pub id : ℕ
  pub email : String
  pub email_normalized : String
  pub account_type : String
  pub provider : String
  pub authorization_type : String
  pub lifecycle_status : LifecycleStatus
  pub authorization_status : AuthorizationStatus
  pub token_status : TokenStatus
  pub mail_health_status : MailHealthStatus
  pub proxy_health_status : ProxyHealthStatus
  pub group_id : Option ℕ
  pub proxy_profile_id : Option ℕ
  pub remark : String
  pub last_token_check_at : Option ℕ
  pub last_mail_check_at : Option ℕ
  pub last_mail_success_at : Option ℕ
  pub last_message_at : Option ℕ
  pub health_reason_code : Option String
  pub health_error_summary : Option String
  pub consecutive_failures : ℕ
  pub row_version : ℕ
  pub provider_metadata : Data
  pub created_at : ℕ

pub record Group : Type 0 where
  pub id : ℕ
  pub system_key : Option String

pub record AccountTag : Type 0 where
  pub account_id : ℕ
  pub tag_id : ℕ

pub record AccountForwarding : Type 0 where
  pub account_id : ℕ
  pub enabled : Bool

-- The tables of other components whose rows refer to accounts.id ON DELETE CASCADE.
pub data Table : Type 0 where
  account_secrets account_aliases account_health_snapshots token_refresh_logs retention_policies
        retained_mail_messages email_share_links forwarding_deliveries project_accounts :
      Table

pub record Dependent : Type 0 where
  pub table : Table
  pub account_id : ℕ

pub record Db : Type 0 where
  pub accounts : List Account
  pub groups : List Group
  pub tags : List ℕ
  pub account_tags : List AccountTag
  pub forwarding : List AccountForwarding
  pub dependents : List Dependent
  pub audit : List AuditLog

-- session.get(Account, account_id)
unfoldable pub get_account : Db → ℕ → Option Account
get_account db account_id = find_where (λ a. a.id == account_id) db.accounts

-- session.get(Group, group_id)
unfoldable pub get_group : Db → ℕ → Option Group
get_group db group_id = find_where (λ g. g.id == group_id) db.groups

abbrev pub key_is : String → Option String → Bool
key_is key none = false
key_is key (some other) = str_eq other key

-- select(Group.id).where(Group.system_key == "default")
unfoldable pub get_default_group_id : Db → Option ℕ
get_default_group_id db = elim (find_where (λ g. key_is "default" g.system_key) db.groups) [
  | none ↦ none
  | some group ↦ some group.id
]

-- What the attributes of a loaded row were set to is written on flush.
unfoldable pub put_account : Db → Account → Db
put_account db account = record db {
  accounts = update_where (λ a. a.id == account.id) (λ _. account) db.accounts;
}

-- DELETE, with what refers to the account ON DELETE CASCADE
unfoldable pub delete_account : ℕ → Db → Db
delete_account account_id db = record db {
  accounts = select_where (λ a. not (a.id == account_id)) db.accounts;
  account_tags = select_where (λ t. not (t.account_id == account_id)) db.account_tags;
  forwarding = select_where (λ f. not (f.account_id == account_id)) db.forwarding;
  dependents = select_where (λ d. not (d.account_id == account_id)) db.dependents;
}

-- The unique constraint on `accounts.email_normalized`, for a row with the given id.
unfoldable pub email_is_taken : Db → ℕ → String → Bool
email_is_taken db account_id email =
    elim (find_where (λ a. not (a.id == account_id) && str_eq a.email_normalized email)
      db.accounts) [ none ↦ false | some account ↦ Bool.true ]
