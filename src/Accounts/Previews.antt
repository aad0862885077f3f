-- ===== src/Accounts/Previews.antt =====
-- services/bulk.py: the preview of a change of many accounts and its execution. SHA-256, the
-- random token and the clock are arguments; the stored selection, which nothing reads, is left out. The
-- change is stored as JSON and read back: a preview has the change itself.
use smart_email_manager.Prelude.{
  ℕ, ◌+◌, ◌-◌, String, Bool, true, false, Option, none, some, List, [], ◌∷◌, ◌++◌, map, leb,
  if◌then◌else◌, is_some, str_eq, length, find_where, select_where, update_where, is_in, fromkeys,
}
use smart_email_manager.Problem.{Result, ok, err, problem, ◌>>=◌}
use smart_email_manager.Enums.{LifecycleStatus, inactive, active, archived}
use smart_email_manager.Accounts.Model
use smart_email_manager.Accounts.Model.{Account}
use smart_email_manager.Accounts.Cursor.{CursorCodec}
use smart_email_manager.Accounts.Pages.{TextOps, AccountQuery, list_accounts}
use smart_email_manager.Accounts.Views.{FilterJson, SavedAccountView, resolve_account_view_filters}
use smart_email_manager.Accounts.Bulk.{
  AccountBulkChanges, AccountBulkResult, validate_bulk_changes, bulk_changed_account_ids,
  bulk_mutate_accounts,
}

pub record AccountBulkPreview : Type 0 where
  pub token_hash : String
  pub mutation : AccountBulkChanges
  pub account_ids : List ℕ
  pub matched_count : ℕ
  pub eligible_count : ℕ
  pub skipped_count : ℕ
  pub dangerous_count : ℕ
  pub expires_at : ℕ
  pub consumed_at : Option ℕ

pub record Db : Type 0 where
  pub base : Model.Db
  pub views : List SavedAccountView
  pub previews : List AccountBulkPreview

-- The selection of a request, by its scope. The filters of a query are those of the view that the
-- key of a built-in view or the id of a saved one names.
pub data AccountBulkSelection : Type 0 where
  by_ids : List ℕ → AccountBulkSelection
  by_filter : AccountQuery → Option String → Option ℕ → AccountBulkSelection

pub record AccountBulkPreviewRead : Type 0 where
  pub preview_token : String
  pub matched_count : ℕ
  pub eligible_count : ℕ
  pub skipped_count : ℕ
  pub dangerous_count : ℕ
  pub expires_at : ℕ

-- PREVIEW_TTL, in seconds
abbrev pub preview_ttl : ℕ
preview_ttl = 900

abbrev pub max_filter_selection : ℕ
max_filter_selection = 20000

-- if next_cursor: raise
abbrev pub check_size : List Account × Option String → Result (List Account)
check_size found = elim found.1 [
  | none ↦ ok found.0
  | some cursor ↦
      if str_eq cursor "" then ok found.0 else err (problem 422 "BULK_SELECTION_TOO_LARGE")
]

-- if not accounts: raise
abbrev pub check_some : List Account → Result (List Account)
check_some [] = err (problem 409 "BULK_SELECTION_EMPTY")
check_some (account ∷ accounts) = ok (account ∷ accounts)

-- changes.lifecycle_status == "archived"
abbrev pub archives : Option LifecycleStatus → Bool
archives none = false
archives (some active) = false
archives (some inactive) = false
archives (some archived) = true

module _ (codec : CursorCodec) (ops : TextOps) (json : FilterJson) where
  unfoldable pub selected_accounts : ℕ → AccountBulkSelection → Db → Result (List Account)
  selected_accounts wall (by_ids account_ids) db =
      ok (select_where (λ a. is_in a.id (fromkeys account_ids)) db.base.accounts)
  selected_accounts wall (by_filter query view saved_view_id) db = do
    filters ← resolve_account_view_filters json wall view saved_view_id db.views
    let viewed = record query { view_filters = filters }
    found ← list_accounts codec ops viewed max_filter_selection none db.base
    check_size found

  abbrev pub new_preview :
      String → ℕ → AccountBulkChanges → List Account → Model.Db → AccountBulkPreview
  new_preview token_hash wall changes accounts db =
      let changed : ℕ = length (bulk_changed_account_ids accounts changes db) in
      record {
        token_hash = token_hash;
        mutation = changes;
        account_ids = map (λ a. a.id) accounts;
        matched_count = length accounts;
        eligible_count = changed;
        skipped_count = length accounts - changed;
        dangerous_count = if archives changes.lifecycle_status then changed else 0;
        expires_at = wall + preview_ttl;
        consumed_at = none;
      }

  abbrev pub read_preview : String → AccountBulkPreview → AccountBulkPreviewRead
  read_preview token preview = record {
    preview_token = token;
    matched_count = preview.matched_count;
    eligible_count = preview.eligible_count;
    skipped_count = preview.skipped_count;
    dangerous_count = preview.dangerous_count;
    expires_at = preview.expires_at;
  }

  unfoldable pub create_bulk_preview :
      (String → String)
      → String
      → ℕ
      → AccountBulkSelection
      → AccountBulkChanges
      → Db
      → Result (Db × AccountBulkPreviewRead)
  create_bulk_preview sha256 token wall selection changes db = do
    checked ← validate_bulk_changes changes db.base
    found ← selected_accounts wall selection db
    accounts ← check_some found
    let preview = new_preview (sha256 token) wall changes accounts db.base
    ok (record db { previews = db.previews ++ preview ∷ [] }, read_preview token preview)

-- select(AccountBulkPreview).where(AccountBulkPreview.token_hash == ...)
unfoldable pub find_preview : String → List AccountBulkPreview → Option AccountBulkPreview
find_preview token_hash previews = find_where (λ p. str_eq p.token_hash token_hash) previews

unfoldable pub preview_or_404 : String → Db → Result AccountBulkPreview
preview_or_404 token_hash db = elim (find_preview token_hash db.previews) [
  | none ↦ err (problem 404 "BULK_PREVIEW_NOT_FOUND")
  | some preview ↦ ok preview
]

unfoldable pub check_unused : AccountBulkPreview → Result AccountBulkPreview
check_unused preview =
    if is_some preview.consumed_at
    then err (problem 409 "BULK_PREVIEW_ALREADY_USED")
    else ok preview

unfoldable pub check_current : ℕ → AccountBulkPreview → Result AccountBulkPreview
check_current wall preview =
    if leb preview.expires_at wall then err (problem 410 "BULK_PREVIEW_EXPIRED") else ok preview

-- preview.consumed_at = now
unfoldable pub consume : String → ℕ → List AccountBulkPreview → List AccountBulkPreview
consume token_hash wall previews =
    update_where (λ p. str_eq p.token_hash token_hash) (λ p. record p { consumed_at = some wall })
      previews

unfoldable pub execute_bulk_preview :
    (String → String) → String → ℕ → Db → Result (Db × AccountBulkResult)
execute_bulk_preview sha256 token wall db = do
  preview ← preview_or_404 (sha256 token) db
  unused ← check_unused preview
  current ← check_current wall preview
  (base, result) ← bulk_mutate_accounts preview.account_ids preview.mutation db.base
  ok (record db { base = base; previews = consume (sha256 token) wall db.previews }, result)
