-- ===== src/Projects/Model.antt =====
-- The rows of db/models.py that work projects read and write: WorkProject, ProjectAccount,
-- ProjectEvent and, of Account, what they need. Identifiers and times are native numbers.
use smart_email_manager.Prelude.{
  ℕ, ◌+◌, String, Bool, true, false, not, ◌&&◌, Option, none, some, List, [], ◌∷◌, ◌++◌, ◌==◌,
  find_where, select_where, update_where, is_some,
}
use smart_email_manager.Json.{Data}

pub data ProjectStatus : Type 0 where
  active paused completed : ProjectStatus

pub data WorkStatus : Type 0 where
  to_claim leased done failed removed : WorkStatus

pub record WorkProject : Type 0 where
  pub id : ℕ
  pub name : String
  pub description : String
  pub status : ProjectStatus
  pub default_lease_seconds : ℕ
  pub created_at : ℕ

pub record ProjectAccount : Type 0 where
  pub id : ℕ
  pub project_id : ℕ
  pub account_id : ℕ
  pub status : WorkStatus
  pub lease_owner : Option String
  pub lease_token_hash : Option String
  pub lease_expires_at : Option ℕ
  pub attempt_count : ℕ
  pub result : Data
  pub error_summary : Option String
  pub finished_at : Option ℕ
  pub created_at : ℕ

pub record ProjectEvent : Type 0 where
  pub sequence : ℕ
  pub project_id : ℕ
  pub project_account_id : Option ℕ
  pub event_type : String
  pub actor : Option String
  pub info : Data

pub record Account : Type 0 where
  pub id : ℕ
  pub email : String

pub record Db : Type 0 where
  pub projects : List WorkProject
  pub rows : List ProjectAccount
  pub events : List ProjectEvent
  pub accounts : List Account
  pub next_sequence : ℕ

unfoldable pub is_to_claim : WorkStatus → Bool
is_to_claim to_claim = true
is_to_claim _ = false

unfoldable pub is_leased : WorkStatus → Bool
is_leased leased = true
is_leased _ = false

unfoldable pub is_done : WorkStatus → Bool
is_done done = true
is_done _ = false

unfoldable pub is_failed : WorkStatus → Bool
is_failed failed = true
is_failed _ = false

unfoldable pub is_removed : WorkStatus → Bool
is_removed removed = true
is_removed _ = false

unfoldable pub is_active : ProjectStatus → Bool
is_active active = true
is_active _ = false

-- session.scalar(select(WorkProject).where(WorkProject.id == project_id))
unfoldable pub get_project : Db → ℕ → Option WorkProject
get_project db project_id = find_where (λ p. p.id == project_id) db.projects

-- session.get(ProjectAccount, project_account_id)
unfoldable pub get_row : Db → ℕ → Option ProjectAccount
get_row db row_id = find_where (λ r. r.id == row_id) db.rows

-- session.get(Account, account_id)
unfoldable pub get_account : Db → ℕ → Option Account
get_account db account_id = find_where (λ a. a.id == account_id) db.accounts

-- What the attributes of a loaded row were set to is written on flush.
unfoldable pub put_row : Db → ProjectAccount → Db
put_row db row = record db { rows = update_where (λ r. r.id == row.id) (λ _. row) db.rows }

-- session.add(ProjectEvent(...)), with the sequence that the database assigns
unfoldable pub add_event : Db → ℕ → Option ℕ → String → Option String → Data → Db
add_event db project_id row_id event_type actor info = record db {
  events = db.events ++ event ∷ [];
  next_sequence = db.next_sequence + 1;
}
  where
    event : ProjectEvent
    event = record {
      sequence = db.next_sequence;
      project_id = project_id;
      project_account_id = row_id;
      event_type = event_type;
      actor = actor;
      info = info;
    }

-- The event belongs to a row of the account.
abbrev pub is_about : List ProjectAccount → ℕ → Option ℕ → Bool
is_about rows account_id none = false
is_about rows account_id (some row_id) =
    is_some (find_where (λ r. r.id == row_id && r.account_id == account_id) rows)

-- DELETE of an account elsewhere in the program, with the rows of project_accounts that refer to it
-- ON DELETE CASCADE, and the events that refer to those.
unfoldable pub cascade_account : ℕ → Db → Db
cascade_account account_id db = record db {
  accounts = select_where (λ a. not (a.id == account_id)) db.accounts;
  rows = select_where (λ r. not (r.account_id == account_id)) db.rows;
  events = select_where (λ e. not (is_about db.rows account_id e.project_account_id)) db.events;
}
