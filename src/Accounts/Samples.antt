-- ===== src/Accounts/Samples.antt =====
-- Concrete accounts, text operations and cursors, for the tests.
use smart_email_manager.Prelude.{
  is_in, order_rows, insert_row, select_where, find_where, update_where, ℕ, ◌≡◌, refl, String, true,
  none, some, [], ◌∷◌, str_eq,
}
use smart_email_manager.Enums.{
  LifecycleStatus, AuthorizationStatus, TokenStatus, MailHealthStatus, ProxyHealthStatus,
}
use smart_email_manager.Accounts.Model.{Account, Db, project_accounts, email_share_links}
use smart_email_manager.Accounts.Bulk.{
  AccountBulkChanges, validate_bulk_changes, bulk_changed_account_ids, is_changed, all_in, has_tag,
  lacks_tag, carries_tag,
}
use smart_email_manager.Accounts.Views.{FilterJson, resolve_account_view_filters}
use smart_email_manager.Accounts.Previews
use smart_email_manager.Accounts.Previews.{
  AccountBulkPreviewRead, by_filter, selected_accounts, create_bulk_preview,
}
use smart_email_manager.Problem.{Result, ok, err}
use smart_email_manager.Accounts.Model.{get_account, get_group, put_account, email_is_taken}
use smart_email_manager.Accounts.Edit.{
  AccountUpdate, get_account_or_404, check_version, is_admitted, update_account, archive_account,
}
use smart_email_manager.Accounts.SampleCodec.{unary_codec}
use smart_email_manager.Accounts.Pages.{
  list_accounts, cursor_position, page, page_rows, matches, newer, past_cursor, TextOps,
  AccountQuery,
}

abbrev pub plain_text : TextOps
plain_text = record { lower = λ s. s; contains = str_eq; ilike = str_eq }

-- Saved views play no part in the tests.
abbrev pub plain_json : FilterJson
plain_json = record { dump = λ filters. ""; read_fields = λ stored. none }

abbrev pub account_at : ℕ → ℕ → String → Account
account_at id created_at email = record {
  id = id;
  email = email;
  email_normalized = email;
  account_type = "outlook";
  provider = "outlook";
  authorization_type = "oauth2";
  lifecycle_status = LifecycleStatus.active;
  authorization_status = AuthorizationStatus.unknown;
  token_status = TokenStatus.never;
  mail_health_status = MailHealthStatus.unknown;
  proxy_health_status = ProxyHealthStatus.unknown;
  group_id = some 1;
  proxy_profile_id = none;
  remark = "";
  last_token_check_at = none;
  last_mail_check_at = none;
  last_mail_success_at = none;
  last_message_at = none;
  health_reason_code = none;
  health_error_summary = none;
  consecutive_failures = 0;
  row_version = 1;
  provider_metadata = [];
  created_at = created_at;
}

abbrev pub first : Account
first = account_at 5 100 "a@x.org"

abbrev pub second : Account
second = account_at 6 100 "b@x.org"

abbrev pub third : Account
third = account_at 7 110 "c@x.org"

abbrev pub three : Db
three = record {
  accounts = first ∷ second ∷ third ∷ [];
  groups =
      record { id = 1; system_key = some "default" } ∷ record { id = 2; system_key = none } ∷ [];
  tags = 8 ∷ 9 ∷ [];
  account_tags = record { account_id = 5; tag_id = 9 } ∷ [];
  forwarding = record { account_id = 6; enabled = true } ∷ [];
  dependents =
      record { table = project_accounts; account_id = 5 }
      ∷ record { table = email_share_links; account_id = 6 }
      ∷ [];
  audit = [];
}

abbrev pub every_account : AccountQuery
every_account = record {
  lifecycle_status = none;
  token_status = none;
  mail_health_status = none;
  query = none;
  view_filters = none;
}

abbrev pub remark_only : AccountUpdate
remark_only = record {
  row_version = 1;
  email = none;
  account_type = none;
  provider = none;
  authorization_type = none;
  lifecycle_status = none;
  group_id = none;
  remark = some "checked";
  provider_metadata = none;
}

abbrev pub archived_second : Account
archived_second = record second { lifecycle_status = LifecycleStatus.archived; row_version = 2 }

abbrev pub written : Result (Db × Account) → Db
written (err failure) = three
written (ok (db, account)) = db

-- The state after the second account was archived.
unfoldable pub between : Db
between = written (archive_account 6 1 three)

pub archiving : archive_account 6 1 three ≡ ok (between, archived_second)
unfolding between archive_account get_account_or_404 check_version get_account find_where
    put_account
archiving = refl

abbrev pub remarked_first : Account
remarked_first = record first { remark = "checked"; row_version = 2 }

-- The state after the first account got a remark.
unfoldable pub after_remark : Db
after_remark = written (update_account (λ s. s) 5 remark_only between)

pub remarking : update_account (λ s. s) 5 remark_only between ≡ ok (after_remark, remarked_first)
unfolding between archive_account get_account_or_404 check_version get_account find_where
    put_account after_remark update_account is_admitted email_is_taken update_where get_group
remarking = refl

abbrev pub to_second_group : AccountBulkChanges
to_second_group = record {
  lifecycle_status = none;
  move_group = true;
  group_id = some 2;
  add_tag_ids = 8 ∷ [];
  remove_tag_ids = 9 ∷ [];
  forwarding_enabled = none;
}

abbrev pub no_previews : Previews.Db
no_previews = record { base = three; views = []; previews = [] }

abbrev pub same_text : String → String
same_text text = text

abbrev pub preview_read : AccountBulkPreviewRead
preview_read = record {
  preview_token = "t1";
  matched_count = 3;
  eligible_count = 3;
  skipped_count = 0;
  dangerous_count = 0;
  expires_at = 1000;
}

abbrev pub tables_of : Result (Previews.Db × AccountBulkPreviewRead) → Previews.Db
tables_of (err failure) = no_previews
tables_of (ok (db, read)) = db

-- The state after a preview of all accounts.
unfoldable pub previewed : Previews.Db
previewed = tables_of (
    create_bulk_preview unary_codec plain_text plain_json same_text "t1" 100
      (by_filter every_account none none) to_second_group no_previews)

pub previewing :
    create_bulk_preview unary_codec plain_text plain_json same_text "t1" 100
      (by_filter every_account none none)
      to_second_group
      no_previews
    ≡ ok (previewed, preview_read)
unfolding previewed create_bulk_preview validate_bulk_changes get_group find_where all_in is_in
    selected_accounts resolve_account_view_filters list_accounts cursor_position page page_rows
    order_rows insert_row select_where matches newer past_cursor bulk_changed_account_ids is_changed
    has_tag lacks_tag carries_tag
previewing = refl
