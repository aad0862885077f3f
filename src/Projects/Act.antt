-- ===== src/Projects/Act.antt =====
-- services/projects.py: `mutate_project_accounts`, and the listings of rows and events.
use smart_email_manager.Prelude.{
  ℕ, ◌-◌, String, Bool, ◌&&◌, Option, none, some, List, [], ◌∷◌, map, length, ltb, ◌==◌, is_some,
  select_where, update_where, count_where, take_rows, order_rows, is_in, fromkeys,
}
use smart_email_manager.Json.{num}
use smart_email_manager.Problem.{Result, ok, ◌>>=◌}
use smart_email_manager.Projects.Model.{
  WorkStatus, to_claim, leased, failed, removed, ProjectAccount, ProjectEvent, Db, add_event,
}
use smart_email_manager.Projects.Lease.{ProjectAccountRead, project_or_404, project_account_read}
use smart_email_manager.Projects.Manage.{ProjectRead, serialize_project}

pub data Action : Type 0 where
  reset_failed remove restore : Action

-- The chain of tests: the new status, or `none` for `continue`.
unfoldable pub next_status : Action → WorkStatus → Option WorkStatus
next_status reset_failed failed = some to_claim
next_status remove leased = none
next_status remove removed = none
next_status remove _ = some removed
next_status restore removed = some to_claim
next_status _ _ = none

-- One round of the loop.
unfoldable pub act_row : Action → ProjectAccount → ProjectAccount
act_row action row = elim (next_status action row.status) [
  | none ↦ row
  | some status ↦ record row {
    status = status;
    lease_owner = none;
    lease_token_hash = none;
    lease_expires_at = none;
    result = [];
    error_summary = none;
    finished_at = none;
  }
]

-- The WHERE clause of the selected rows.
unfoldable pub is_requested : ℕ → List ℕ → ProjectAccount → Bool
is_requested project_id ids row = row.project_id == project_id && is_in row.id ids

-- The requested rows that the loop counts.
unfoldable pub is_updated : Action → ℕ → List ℕ → ProjectAccount → Bool
is_updated action project_id ids row =
    is_requested project_id ids row && is_some (next_status action row.status)

-- f"accounts.{action}"
abbrev pub action_event : Action → String
action_event reset_failed = "accounts.reset_failed"
action_event remove = "accounts.remove"
action_event restore = "accounts.restore"

pub record ProjectAccountsActionResult : Type 0 where
  pub requested_count : ℕ
  pub updated_count : ℕ
  pub skipped_count : ℕ
  pub project : ProjectRead

unfoldable pub mutate_project_accounts :
    ℕ → Action → List ℕ → Db → Result (Db × ProjectAccountsActionResult)
mutate_project_accounts project_id action project_account_ids db = do
  project ← project_or_404 db project_id
  let ids = fromkeys project_account_ids
  let updated = count_where (is_updated action project.id ids) db.rows
  let db' =
      add_event
        (record db { rows = update_where (is_requested project.id ids) (act_row action) db.rows })
        project.id none (action_event action) (some "api")
        (("requested_count", num (length ids))
          ∷ ("updated_count", num updated)
          ∷ ("skipped_count", num (length ids - updated))
          ∷ [])
  ok (
    db',
    record {
      requested_count = length ids;
      updated_count = updated;
      skipped_count = length ids - updated;
      project = serialize_project db' project;
    },
  )

-- ORDER BY created_at
abbrev pub created_before : ProjectAccount → ProjectAccount → Bool
created_before row other = ltb row.created_at other.created_at

unfoldable pub list_project_accounts : ℕ → ℕ → Db → Result (List ProjectAccountRead)
list_project_accounts project_id limit db = do
  project ← project_or_404 db project_id
  ok (
      map (project_account_read db) (
        take_rows limit
          (order_rows created_before (select_where (λ r. r.project_id == project_id) db.rows))))

-- ORDER BY sequence
abbrev pub earlier : ProjectEvent → ProjectEvent → Bool
earlier event other = ltb event.sequence other.sequence

unfoldable pub list_project_events : ℕ → ℕ → ℕ → Db → Result (List ProjectEvent)
list_project_events project_id after limit db = do
  project ← project_or_404 db project_id
  ok (
      take_rows limit (
        order_rows earlier
          (select_where (λ e. e.project_id == project_id && ltb after e.sequence) db.events)))
