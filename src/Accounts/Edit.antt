-- ===== src/Accounts/Edit.antt =====
-- services/accounts.py: how an account is created, updated under its row version, archived and
-- purged. A commit that breaks a constraint of the table, which the source sees as an
-- `IntegrityError`, is rolled back.
use smart_email_manager.Prelude.{
  ℕ, ◌+◌, String, Bool, true, not, ◌&&◌, Option, none, some, [], ◌∷◌, ◌++◌, ◌==◌, if◌then◌else◌,
  is_some, str_eq, or_else, strip,
}
use smart_email_manager.Problem.{Result, ok, err, problem, ◌>>=◌}
use smart_email_manager.Enums.{
  LifecycleStatus, AuthorizationStatus, TokenStatus, MailHealthStatus, ProxyHealthStatus, archived,
}
use smart_email_manager.Json.{Data, text}
use smart_email_manager.Audit.{add_audit_log}
use smart_email_manager.Accounts.Model.{
  Account, Db, get_account, get_group, get_default_group_id, put_account, delete_account,
  email_is_taken,
}

pub record AccountCreate : Type 0 where
  pub email : String
  pub account_type : String
  pub provider : String
  pub group_id : Option ℕ
  pub remark : String

-- `group_id` is `none` where the request has no such field.
pub record AccountUpdate : Type 0 where
  pub row_version : ℕ
  pub email : Option String
  pub account_type : Option String
  pub provider : Option String
  pub authorization_type : Option String
  pub lifecycle_status : Option LifecycleStatus
  pub group_id : Option (Option ℕ)
  pub remark : Option String
  pub provider_metadata : Option Data

-- a or b
abbrev pub or_option {ℓ} : {A : Type ℓ} → Option A → Option A → Option A
or_option none b = b
or_option (some a) b = some a

-- The foreign key of `accounts.group_id`.
abbrev pub group_is_known : Db → Option ℕ → Bool
group_is_known db none = true
group_is_known db (some id) = is_some (get_group db id)

-- What the constraints of the table admit of a row that is written.
unfoldable pub is_admitted : Db → Account → Bool
is_admitted db account =
    not (email_is_taken db account.id account.email_normalized)
    && group_is_known db account.group_id
    && str_eq account.account_type "outlook"
    && str_eq account.provider "outlook"

unfoldable pub get_account_or_404 : ℕ → Db → Result Account
get_account_or_404 account_id db = elim (get_account db account_id) [
  | none ↦ err (problem 404 "ACCOUNT_NOT_FOUND")
  | some account ↦ ok account
]

-- if account.row_version != payload.row_version: raise
unfoldable pub check_version : ℕ → Account → Result Account
check_version row_version account =
    if account.row_version == row_version
    then ok account
    else err (problem 409 "ACCOUNT_VERSION_CONFLICT")

-- A requested group that is not `None` must exist.
abbrev pub check_group : Option (Option ℕ) → Db → Result Bool
check_group none db = ok true
check_group (some none) db = ok true
check_group (some (some id)) db = elim (get_group db id) [
  | none ↦ err (problem 404 "GROUP_NOT_FOUND")
  | some group ↦ ok true
]

module _ (lower : String → String) where
  abbrev pub new_account : ℕ → ℕ → AccountCreate → Db → Account
  new_account id now payload db = record {
    id = id;
    email = strip payload.email;
    email_normalized = lower (strip payload.email);
    account_type = lower (strip payload.account_type);
    provider = lower (strip payload.provider);
    authorization_type = "";
    lifecycle_status = LifecycleStatus.active;
    authorization_status = AuthorizationStatus.unknown;
    token_status = TokenStatus.never;
    mail_health_status = MailHealthStatus.unknown;
    proxy_health_status = ProxyHealthStatus.not_configured;
    group_id = or_option payload.group_id (get_default_group_id db);
    proxy_profile_id = none;
    remark = strip payload.remark;
    last_token_check_at = none;
    last_mail_check_at = none;
    last_mail_success_at = none;
    last_message_at = none;
    health_reason_code = none;
    health_error_summary = none;
    consecutive_failures = 0;
    row_version = 1;
    provider_metadata = [];
    created_at = now;
  }

  -- `id` is the new row's, `now` the time of its transaction.
  unfoldable pub create_account : ℕ → ℕ → AccountCreate → Db → Result (Db × Account)
  create_account id now payload db =
      let account = new_account id now payload db in
      if is_admitted db account
      then ok (record db { accounts = db.accounts ++ account ∷ [] }, account)
      else err (problem 409 "ACCOUNT_EMAIL_CONFLICT")

  abbrev pub updated_account : AccountUpdate → Account → Account
  updated_account payload account =
      let email : String = elim payload.email [
        | none ↦ account.email
        | some entered ↦ strip entered
      ] in
      let email_normalized : String = elim payload.email [
        | none ↦ account.email_normalized
        | some entered ↦ lower (strip entered)
      ] in
      record account {
        email = email;
        email_normalized = email_normalized;
        account_type = or_else payload.account_type account.account_type;
        provider = or_else payload.provider account.provider;
        authorization_type = or_else payload.authorization_type account.authorization_type;
        lifecycle_status = or_else payload.lifecycle_status account.lifecycle_status;
        remark = or_else payload.remark account.remark;
        provider_metadata = or_else payload.provider_metadata account.provider_metadata;
        group_id = or_else payload.group_id account.group_id;
        row_version = account.row_version + 1;
      }

  unfoldable pub update_account : ℕ → AccountUpdate → Db → Result (Db × Account)
  update_account account_id payload db = do
    found ← get_account_or_404 account_id db
    account ← check_version payload.row_version found
    checked ← check_group payload.group_id db
    let updated = updated_account payload account
    if is_admitted db updated
        then ok (put_account db updated, updated)
        else err (problem 409 "ACCOUNT_EMAIL_CONFLICT")

  unfoldable pub purge_account : ℕ → String → Db → Result Db
  purge_account account_id confirm_email db = do
    account ← get_account_or_404 account_id db
    if str_eq account.email_normalized (lower (strip confirm_email))
        then ok (record (delete_account account.id db) {
          audit =
              add_audit_log db.audit "account.purge" "account" (some account.id)
                (("email", text account.email) ∷ []);
        })
        else err (problem 409 "ACCOUNT_PURGE_CONFIRMATION_MISMATCH")

unfoldable pub archive_account : ℕ → ℕ → Db → Result (Db × Account)
archive_account account_id row_version db = do
  found ← get_account_or_404 account_id db
  account ← check_version row_version found
  let closed = record account { lifecycle_status = archived; row_version = account.row_version + 1 }
  let db' = put_account db closed
  let audit =
      add_audit_log db'.audit "account.archive" "account" (some account.id)
        (("email", text account.email) ∷ [])
  ok (record db' { audit = audit }, closed)
