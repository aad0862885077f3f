-- ===== src/Projects/System.antt =====
-- The transactions that change the tables of services/projects.py, in any order: its own, API calls
-- of managers and of the outside workers that hold leases, and the deletions of accounts, by
-- purge_account of services/accounts.py and by rollback_import_batch of services/imports.py, which
-- cascade to the rows of project_accounts.
use smart_email_manager.Prelude.{ℕ, ◌<◌, ◌≡◌, ◌==◌, String, Bool, false, Option, List, All}
use smart_email_manager.Json.{Data}
use smart_email_manager.Problem.{ok}
use smart_email_manager.Projects.Model.{
  ProjectStatus, WorkStatus, ProjectAccount, Db, is_leased, cascade_account,
}
use smart_email_manager.Projects.Lease.{
  ProjectClaimRequest, ProjectAccountRead, claim_project_account, heartbeat_project_lease,
  finish_project_lease, token_matches, expired,
}
use smart_email_manager.Projects.Manage.{
  Fresh, ProjectCreate, ProjectRead, create_project, set_project_status, add_project_accounts,
}
use smart_email_manager.Projects.Act.{Action, ProjectAccountsActionResult, mutate_project_accounts}

module _ (sha256 : String → String) where
  pub data Step (db : Db) : Db → Type 0 where
    claims :
        (locked : ℕ → Bool) (now : ℕ) (token : String) (project_id : ℕ)
        (request : ProjectClaimRequest)
        → Step db (claim_project_account sha256 locked now token project_id request db).0
    heartbeats :
        (now later row_id : ℕ) (token : String) (lease_seconds : Option ℕ) (db' : Db)
        (read : ProjectAccountRead)
        → heartbeat_project_lease sha256 now later row_id token lease_seconds db ≡ ok (db', read)
        → Step db db'
    -- The routes end a lease as done, failed or to_claim.
    finishes :
        (now later row_id : ℕ) (token : String) (status : WorkStatus) (result : Data)
        (error_summary : Option String) (db' : Db) (read : ProjectAccountRead)
        → is_leased status ≡ false
        → finish_project_lease sha256 now later row_id token status result error_summary db
          ≡ ok (db', read)
        → Step db db'
    creates :
        (fresh : Fresh) (payload : ProjectCreate) (db' : Db) (read : ProjectRead)
        → All (λ r. r.id < fresh.row_id) db.rows
        → create_project fresh payload db ≡ ok (db', read)
        → Step db db'
    sets_status :
        (project_id : ℕ) (status : ProjectStatus) (db' : Db) (read : ProjectRead)
        → set_project_status project_id status db ≡ ok (db', read)
        → Step db db'
    adds :
        (fresh : Fresh) (project_id : ℕ) (account_ids : List ℕ) (db' : Db) (read : ProjectRead)
        → All (λ r. r.id < fresh.row_id) db.rows
        → add_project_accounts fresh project_id account_ids db ≡ ok (db', read)
        → Step db db'
    acts :
        (project_id : ℕ) (action : Action) (ids : List ℕ) (db' : Db)
        (answer : ProjectAccountsActionResult)
        → mutate_project_accounts project_id action ids db ≡ ok (db', answer)
        → Step db db'
    -- One deletion of a purge or of a rollback.
    deletes : (account_id : ℕ) → Step db (cascade_account account_id db)

  -- The step comes neither from the holder of the row's claim token nor after the lease's end, and
  -- does not delete the row's account.
  abbrev pub Spares : {db db' : Db} → ProjectAccount → Step db db' → Type 0
  Spares row (claims locked now token project_id request) = expired row.lease_expires_at now ≡ false
  Spares row (heartbeats now later row_id token lease_seconds db' read e) =
      token_matches sha256 row.lease_token_hash token ≡ false
  Spares row (finishes now later row_id token status result error_summary db' read ends e) =
      token_matches sha256 row.lease_token_hash token ≡ false
  Spares row (deletes account_id) = (row.account_id == account_id) ≡ false
  Spares row _ = Unit

  pub data Reach (db : Db) : Db → Type 0 where
    begun : Reach db db
    and_then : {db' db'' : Db} → Reach db db' → Step db' db'' → Reach db db''
