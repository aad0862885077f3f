-- ===== src/Accounts/Bulk.antt =====
-- services/accounts.py: one change of many accounts at once, with its checks and its counts. The
-- table of tags has their ids alone; a set of ids is a list in the order of the table. The other
-- columns of a forwarding row are left out.
use smart_email_manager.Prelude.{
  ℕ, ◌+◌, Bool, true, false, not, ◌&&◌, ◌||◌, Option, none, some, List, [], ◌∷◌, ◌++◌, map, ◌==◌,
  if◌then◌else◌, is_some, length, find_where, select_where, update_where, is_in, fromkeys, or_else,
}
use smart_email_manager.Problem.{Result, ok, err, problem, ◌>>=◌}
use smart_email_manager.Enums.{LifecycleStatus, lifecycle_code}
use smart_email_manager.Json.{Data, num}
use smart_email_manager.Audit.{add_audit_log}
use smart_email_manager.Accounts.Model.{Account, AccountTag, AccountForwarding, Db}
use smart_email_manager.Accounts.Edit.{check_group}

pub record AccountBulkChanges : Type 0 where
  pub lifecycle_status : Option LifecycleStatus
  pub move_group : Bool
  pub group_id : Option ℕ
  pub add_tag_ids : List ℕ
  pub remove_tag_ids : List ℕ
  pub forwarding_enabled : Option Bool

pub record AccountBulkResult : Type 0 where
  pub requested_count : ℕ
  pub matched_count : ℕ
  pub updated_count : ℕ
  pub not_found_ids : List ℕ

-- tag_ids are all among the ids of the existing tags
unfoldable pub all_in : List ℕ → List ℕ → Bool
all_in [] ids = true
all_in (n ∷ ns) ids = is_in n ids && all_in ns ids

unfoldable pub validate_bulk_changes : AccountBulkChanges → Db → Result Bool
validate_bulk_changes changes db = do
  checked ← check_group (if changes.move_group then some changes.group_id else none) db
  if all_in (changes.add_tag_ids ++ changes.remove_tag_ids) db.tags
      then ok true
      else err (problem 404 "TAG_NOT_FOUND")

abbrev pub is_pair : ℕ → ℕ → AccountTag → Bool
is_pair account_id tag_id row = row.account_id == account_id && row.tag_id == tag_id

-- (account_id, tag_id) in existing_tag_pairs
unfoldable pub has_tag : List AccountTag → ℕ → ℕ → Bool
has_tag rows account_id tag_id = is_some (find_where (is_pair account_id tag_id) rows)

unfoldable pub lacks_tag : List AccountTag → ℕ → List ℕ → Bool
lacks_tag rows account_id [] = false
lacks_tag rows account_id (t ∷ ts) = not (has_tag rows account_id t) || lacks_tag rows account_id ts

unfoldable pub carries_tag : List AccountTag → ℕ → List ℕ → Bool
carries_tag rows account_id [] = false
carries_tag rows account_id (t ∷ ts) = has_tag rows account_id t || carries_tag rows account_id ts

-- bool(current and current.enabled)
unfoldable pub is_forwarded : List AccountForwarding → ℕ → Bool
is_forwarded rows account_id = elim (find_where (λ f. f.account_id == account_id) rows) [
  | none ↦ false
  | some row ↦ row.enabled
]

abbrev pub eq_bool : Bool → Bool → Bool
eq_bool true b = b
eq_bool false b = not b

-- account.group_id == payload.group_id
abbrev pub eq_option : Option ℕ → Option ℕ → Bool
eq_option none none = true
eq_option none (some b) = false
eq_option (some a) none = false
eq_option (some a) (some b) = a == b

abbrev pub sets_status : Option LifecycleStatus → Account → Bool
sets_status none account = false
sets_status (some status) account =
    not (lifecycle_code account.lifecycle_status == lifecycle_code status)

abbrev pub sets_forwarding : Option Bool → List AccountForwarding → ℕ → Bool
sets_forwarding none rows account_id = false
sets_forwarding (some enabled) rows account_id =
    not (eq_bool (is_forwarded rows account_id) enabled)

unfoldable pub is_changed : AccountBulkChanges → Db → Account → Bool
is_changed changes db account =
    sets_status changes.lifecycle_status account
    || changes.move_group && not (eq_option account.group_id changes.group_id)
    || lacks_tag db.account_tags account.id changes.add_tag_ids
    || carries_tag db.account_tags account.id changes.remove_tag_ids
    || sets_forwarding changes.forwarding_enabled db.forwarding account.id

unfoldable pub bulk_changed_account_ids : List Account → AccountBulkChanges → Db → List ℕ
bulk_changed_account_ids accounts changes db =
    map (λ a. a.id) (select_where (is_changed changes db) accounts)

abbrev pub changed_account : AccountBulkChanges → Account → Account
changed_account changes account = record account {
  lifecycle_status = or_else changes.lifecycle_status account.lifecycle_status;
  group_id = if changes.move_group then changes.group_id else account.group_id;
  row_version = account.row_version + 1;
}

-- INSERT ... ON CONFLICT DO NOTHING
unfoldable pub insert_tags : ℕ → List ℕ → List AccountTag → List AccountTag
insert_tags account_id [] rows = rows
insert_tags account_id (t ∷ ts) rows = insert_tags account_id ts (
    if has_tag rows account_id t
    then rows
    else rows ++ record { account_id = account_id; tag_id = t } ∷ [])

unfoldable pub insert_all_tags : List ℕ → List ℕ → List AccountTag → List AccountTag
insert_all_tags [] tag_ids rows = rows
insert_all_tags (id ∷ ids) tag_ids rows = insert_all_tags ids tag_ids (insert_tags id tag_ids rows)

unfoldable pub delete_tags : List ℕ → List ℕ → List AccountTag → List AccountTag
delete_tags account_ids tag_ids rows =
    select_where (λ r. not (is_in r.account_id account_ids && is_in r.tag_id tag_ids)) rows

unfoldable pub forward_one : Bool → ℕ → List AccountForwarding → List AccountForwarding
forward_one enabled account_id rows = elim (find_where (λ f. f.account_id == account_id) rows) [
  | none ↦
      if enabled then rows ++ record { account_id = account_id; enabled = enabled } ∷ [] else rows
  | some row ↦
      update_where (λ f. f.account_id == account_id) (λ f. record f { enabled = enabled }) rows
]

unfoldable pub forward_all : Bool → List ℕ → List AccountForwarding → List AccountForwarding
forward_all enabled [] rows = rows
forward_all enabled (id ∷ ids) rows = forward_all enabled ids (forward_one enabled id rows)

abbrev pub set_forwarding : Option Bool → List ℕ → List AccountForwarding → List AccountForwarding
set_forwarding none ids rows = rows
set_forwarding (some enabled) ids rows = forward_all enabled ids rows

abbrev pub bulk_data : ℕ → ℕ → ℕ → Data
bulk_data requested matched updated =
    ("requested_count", num requested)
    ∷ ("matched_count", num matched)
    ∷ ("updated_count", num updated)
    ∷ []

-- The tables after the change, from the rows and the ids that were found.
abbrev pub bulk_written : AccountBulkChanges → ℕ → List Account → List ℕ → Db → Db
bulk_written changes requested_count accounts updated_ids db =
    let matched_ids : List ℕ = map (λ a. a.id) accounts in
    record db {
      accounts = update_where (λ a. is_in a.id updated_ids) (changed_account changes) db.accounts;
      account_tags =
          insert_all_tags matched_ids changes.add_tag_ids
            (delete_tags matched_ids changes.remove_tag_ids db.account_tags);
      forwarding = set_forwarding changes.forwarding_enabled matched_ids db.forwarding;
      audit =
          add_audit_log db.audit "account.bulk_mutate" "account_set" none
            (bulk_data requested_count (length accounts) (length updated_ids));
    }

unfoldable pub bulk_mutate_accounts :
    List ℕ → AccountBulkChanges → Db → Result (Db × AccountBulkResult)
bulk_mutate_accounts account_ids changes db = do
  let requested_ids = fromkeys account_ids
  let accounts = select_where (λ a. is_in a.id requested_ids) db.accounts
  let matched_ids = map (λ a. a.id) accounts
  checked ← validate_bulk_changes changes db
  let updated_ids = bulk_changed_account_ids accounts changes db
  ok (
    bulk_written changes (length requested_ids) accounts updated_ids db,
    record {
      requested_count = length requested_ids;
      matched_count = length accounts;
      updated_count = length updated_ids;
      not_found_ids = select_where (λ id. not (is_in id matched_ids)) requested_ids;
    },
  )
