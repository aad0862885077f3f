-- ===== src/Projects/Manage.antt =====
-- services/projects.py: creation of projects, their status and their accounts, and the listings.
use smart_email_manager.Prelude.{
  ℕ, ◌+◌, String, Bool, true, ◌&&◌, none, List, [], ◌∷◌, ◌++◌, map, length, ltb, ◌==◌,
  if◌then◌else◌, is_some, str_eq, find_where, select_where, update_where, count_where, order_rows,
  is_in, fromkeys, strip,
}
use smart_email_manager.Json.{num}
use smart_email_manager.Problem.{Result, ok, err, problem, ◌>>=◌}
use smart_email_manager.Projects.Model.{
  ProjectStatus, WorkStatus, WorkProject, ProjectAccount, Db, is_to_claim, is_leased, is_done,
  is_failed, add_event,
}
use smart_email_manager.Projects.Lease.{project_or_404}

pub record ProjectRead : Type 0 where
  pub project : WorkProject
  pub total_count : ℕ
  pub to_claim_count : ℕ
  pub leased_count : ℕ
  pub done_count : ℕ
  pub failed_count : ℕ

-- count(*) FILTER (WHERE ...) over the rows of the project
unfoldable pub count_rows : Db → ℕ → (WorkStatus → Bool) → ℕ
count_rows db project_id p = count_where (λ r. r.project_id == project_id && p r.status) db.rows

unfoldable pub serialize_project : Db → WorkProject → ProjectRead
serialize_project db project = record {
  project = project;
  total_count = count_where (λ r. r.project_id == project.id) db.rows;
  to_claim_count = count_rows db project.id is_to_claim;
  leased_count = count_rows db project.id is_leased;
  done_count = count_rows db project.id is_done;
  failed_count = count_rows db project.id is_failed;
}

-- The times and the identifiers that the database gives: `row_id` is the first of the new rows'.
pub record Fresh : Type 0 where
  pub project_id : ℕ
  pub row_id : ℕ
  pub now : ℕ

unfoldable pub new_row : ℕ → ℕ → ℕ → ℕ → ProjectAccount
new_row now row_id project_id account_id = record {
  id = row_id;
  project_id = project_id;
  account_id = account_id;
  status = WorkStatus.to_claim;
  lease_owner = none;
  lease_token_hash = none;
  lease_expires_at = none;
  attempt_count = 0;
  result = [];
  error_summary = none;
  finished_at = none;
  created_at = now;
}

-- One row for each account, with identifiers that count up from the given one.
unfoldable pub new_rows : ℕ → ℕ → ℕ → List ℕ → List ProjectAccount
new_rows now row_id project_id [] = []
new_rows now row_id project_id (account_id ∷ rest) =
    new_row now row_id project_id account_id ∷ new_rows now (row_id + 1) project_id rest

-- SELECT id FROM accounts WHERE id IN (...)
unfoldable pub existing_accounts : Db → List ℕ → List ℕ
existing_accounts db ids = map (λ a. a.id) (select_where (λ a. is_in a.id ids) db.accounts)

-- The elements of a list that another one lacks.
unfoldable pub missing_from : List ℕ → List ℕ → List ℕ
missing_from existing [] = []
missing_from existing (n ∷ ns) =
    let rest = missing_from existing ns in if is_in n existing then rest else n ∷ rest

pub record ProjectCreate : Type 0 where
  pub name : String
  pub description : String
  pub default_lease_seconds : ℕ
  pub account_ids : List ℕ

unfoldable pub new_project : Fresh → ProjectCreate → WorkProject
new_project fresh payload = record {
  id = fresh.project_id;
  name = strip payload.name;
  description = strip payload.description;
  status = ProjectStatus.active;
  default_lease_seconds = payload.default_lease_seconds;
  created_at = fresh.now;
}

-- The unique constraint on `work_projects.name`.
unfoldable pub name_is_taken : String → Db → Bool
name_is_taken name db = is_some (find_where (λ p. str_eq p.name name) db.projects)

-- From the flush on; an `IntegrityError` is rolled back.
unfoldable pub insert_project : Fresh → ProjectCreate → List ℕ → Db → Result (Db × ProjectRead)
insert_project fresh payload account_ids db =
    if name_is_taken (strip payload.name) db
    then err (problem 409 "PROJECT_NAME_CONFLICT")
    else let project = new_project fresh payload in
      let db' =
        add_event
          (record db {
            projects = db.projects ++ project ∷ [];
            rows = db.rows ++ new_rows fresh.now fresh.row_id project.id account_ids;
          })
          project.id none "project.created" none
          (("account_count", num (length account_ids)) ∷ []) in
      ok (db', serialize_project db' project)

unfoldable pub create_project : Fresh → ProjectCreate → Db → Result (Db × ProjectRead)
create_project fresh payload db =
    let account_ids = fromkeys payload.account_ids in
    elim (missing_from (existing_accounts db account_ids) account_ids) [
      | [] ↦ insert_project fresh payload account_ids db
      | _ ∷ _ ↦ err (problem 404 "ACCOUNT_NOT_FOUND")
    ]

-- ORDER BY created_at DESC
abbrev pub newer_project : WorkProject → WorkProject → Bool
newer_project p q = ltb q.created_at p.created_at

unfoldable pub list_projects : Db → List ProjectRead
list_projects db = map (serialize_project db) (order_rows newer_project db.projects)

-- f"project.{status}"
abbrev pub project_event : ProjectStatus → String
project_event ProjectStatus.active = "project.active"
project_event ProjectStatus.paused = "project.paused"
project_event ProjectStatus.completed = "project.completed"

unfoldable pub set_project_status : ℕ → ProjectStatus → Db → Result (Db × ProjectRead)
set_project_status project_id status db = do
  found ← project_or_404 db project_id
  let project = record found { status = status }
  let db' =
      add_event
        (record db { projects = update_where (λ p. p.id == project.id) (λ _. project) db.projects })
        project.id none (project_event status) none []
  ok (db', serialize_project db' project)

-- The unique constraint on (project_id, account_id).
unfoldable pub is_row_of : ℕ → ℕ → ProjectAccount → Bool
is_row_of project_id account_id row = row.project_id == project_id && row.account_id == account_id

-- INSERT ... ON CONFLICT DO NOTHING
unfoldable pub insert_row_of : ℕ → ℕ → ℕ → ℕ → List ProjectAccount → List ProjectAccount
insert_row_of now row_id project_id account_id rows =
    if is_some (find_where (is_row_of project_id account_id) rows)
    then rows
    else rows ++ new_row now row_id project_id account_id ∷ []

unfoldable pub insert_rows : ℕ → ℕ → ℕ → List ℕ → List ProjectAccount → List ProjectAccount
insert_rows now row_id project_id [] rows = rows
insert_rows now row_id project_id (account_id ∷ rest) rows =
    insert_rows now (row_id + 1) project_id rest
      (insert_row_of now row_id project_id account_id rows)

-- existing != set(payload.account_ids): the other inclusion holds of what the query gives
unfoldable pub all_exist : List ℕ → List ℕ → Bool
all_exist existing [] = true
all_exist existing (n ∷ ns) = is_in n existing && all_exist existing ns

unfoldable pub add_project_accounts : Fresh → ℕ → List ℕ → Db → Result (Db × ProjectRead)
add_project_accounts fresh project_id account_ids db = do
  project ← project_or_404 db project_id
  let existing = existing_accounts db account_ids
  let db' =
      add_event
        (record db { rows = insert_rows fresh.now fresh.row_id project.id existing db.rows })
        project.id none "project.accounts_added" none
        (("requested_count", num (length account_ids)) ∷ [])
  if all_exist existing account_ids
      then ok (db', serialize_project db' project)
      else err (problem 404 "ACCOUNT_NOT_FOUND")
