-- ===== src/Projects/Lease.antt =====
-- services/projects.py: the lease of a project's account to an outside worker, from the claim to its
-- end. SHA-256 and the random token are parameters.
use smart_email_manager.Prelude.{
  ℕ, suc, ◌+◌, String, Bool, false, not, ◌&&◌, ◌||◌, Option, none, some, [], ◌∷◌, ltb, leb, ◌==◌,
  if◌then◌else◌, str_eq, select_where, best,
}
use smart_email_manager.Json.{Data, num}
use smart_email_manager.Problem.{Result, ok, err, problem, ◌>>=◌}
use smart_email_manager.Projects.Model.{
  WorkStatus, WorkProject, ProjectAccount, Account, Db, is_to_claim, is_leased, is_failed, is_done,
  is_active, get_project, get_row, get_account, put_row, add_event,
}

unfoldable pub project_or_404 : Db → ℕ → Result WorkProject
project_or_404 db project_id = elim (get_project db project_id) [
  | none ↦ err (problem 404 "PROJECT_NOT_FOUND")
  | some project ↦ ok project
]

-- payload.lease_seconds or project.default_lease_seconds
abbrev pub or_default : Option ℕ → ℕ → ℕ
or_default (some (suc n)) default = suc n
or_default _ default = default

abbrev pub expired : Option ℕ → ℕ → Bool
expired none now = false
expired (some t) now = ltb t now

-- status = 'to_claim' OR (status = 'leased' AND lease_expires_at < now)
unfoldable pub is_claimable : ℕ → ProjectAccount → Bool
is_claimable now row =
    is_to_claim row.status || is_leased row.status && expired row.lease_expires_at now

-- The WHERE clause of the claim, SKIP LOCKED included.
unfoldable pub may_claim : (ℕ → Bool) → ℕ → ℕ → ProjectAccount → Bool
may_claim locked now project_id row =
    row.project_id == project_id && is_claimable now row && not (locked row.id)

-- ORDER BY created_at, id
unfoldable pub older : ProjectAccount → ProjectAccount → Bool
older row other =
    ltb row.created_at other.created_at || row.created_at == other.created_at && ltb row.id other.id

pub record ProjectClaimRequest : Type 0 where
  pub owner : String
  pub lease_seconds : Option ℕ

pub record ProjectClaimRead : Type 0 where
  pub project_account_id : ℕ
  pub project_id : ℕ
  pub account_id : ℕ
  pub email : String
  pub claim_token : String
  pub lease_owner : String
  pub lease_expires_at : ℕ
  pub attempt_count : ℕ

pub record ProjectAccountRead : Type 0 where
  pub id : ℕ
  pub project_id : ℕ
  pub account_id : ℕ
  pub email : String
  pub status : WorkStatus
  pub lease_owner : Option String
  pub lease_expires_at : Option ℕ
  pub attempt_count : ℕ
  pub result : Data
  pub error_summary : Option String
  pub finished_at : Option ℕ

-- account.email if account else ""
abbrev pub email_of : Option Account → String
email_of none = ""
email_of (some account) = account.email

unfoldable pub project_account_read : Db → ProjectAccount → ProjectAccountRead
project_account_read db row = record {
  id = row.id;
  project_id = row.project_id;
  account_id = row.account_id;
  email = email_of (get_account db row.account_id);
  status = row.status;
  lease_owner = row.lease_owner;
  lease_expires_at = row.lease_expires_at;
  attempt_count = row.attempt_count;
  result = row.result;
  error_summary = row.error_summary;
  finished_at = row.finished_at;
}

-- f"account.{status}"
abbrev pub account_event : WorkStatus → String
account_event WorkStatus.to_claim = "account.to_claim"
account_event WorkStatus.leased = "account.leased"
account_event WorkStatus.done = "account.done"
account_event WorkStatus.failed = "account.failed"
account_event WorkStatus.removed = "account.removed"

-- The row as the end of its lease leaves it.
unfoldable pub end_row : ℕ → WorkStatus → Data → Option String → ProjectAccount → ProjectAccount
end_row later status result error_summary row = record row {
  status = status;
  result = result;
  error_summary = if is_failed status then error_summary else none;
  finished_at = if is_done status || is_failed status then some later else none;
  lease_token_hash = none;
  lease_expires_at = none;
  lease_owner = none;
}

module _ (sha256 : String → String) where
  -- The row as the claim leaves it, `token` being the new claim token.
  unfoldable pub claim_row : ℕ → String → String → ℕ → ProjectAccount → ProjectAccount
  claim_row now token owner lease_seconds row = record row {
    status = WorkStatus.leased;
    lease_owner = some owner;
    lease_token_hash = some (sha256 token);
    lease_expires_at = some (now + lease_seconds);
    attempt_count = row.attempt_count + 1;
    error_summary = none;
  }

  -- From the selected row on. The branch without an account commits before it raises.
  unfoldable pub claim_selected :
      ℕ
      → String
      → ProjectClaimRequest
      → WorkProject
      → ProjectAccount
      → Db
      → Db × Result ProjectClaimRead
  claim_selected now token request project row db = elim (get_account db row.account_id) [
    | none ↦ (
      put_row db (record row { status = WorkStatus.removed }),
      err (problem 409 "PROJECT_ACCOUNT_REMOVED"),
    )
    | some account ↦
        let seconds = or_default request.lease_seconds project.default_lease_seconds in
        let row' = claim_row now token request.owner seconds row in
        (
          add_event (put_row db row') project.id (some row.id) "account.leased" (some request.owner)
              (("lease_seconds", num seconds) ∷ ("attempt_count", num row'.attempt_count) ∷ []),
          ok (record {
            project_account_id = row'.id;
            project_id = project.id;
            account_id = account.id;
            email = account.email;
            claim_token = token;
            lease_owner = request.owner;
            lease_expires_at = now + seconds;
            attempt_count = row'.attempt_count;
          }),
        )
  ]

  unfoldable pub claim_project_account :
      (ℕ → Bool) → ℕ → String → ℕ → ProjectClaimRequest → Db → Db × Result ProjectClaimRead
  claim_project_account locked now token project_id request db =
      elim (project_or_404 db project_id) [
        | err failure ↦ (db, err failure)
        | ok project ↦
            if is_active project.status
            then elim (best older (select_where (may_claim locked now project.id) db.rows)) [
              | none ↦ (db, err (problem 409 "PROJECT_WORK_UNAVAILABLE"))
              | some row ↦ claim_selected now token request project row db
            ]
            else (db, err (problem 409 "PROJECT_NOT_ACTIVE"))
      ]

  -- not (no hash, an empty hash, or another hash)
  abbrev pub token_matches : Option String → String → Bool
  token_matches none token = false
  token_matches (some hash) token = not (str_eq hash "") && str_eq hash (sha256 token)

  -- not (not row.lease_expires_at or row.lease_expires_at <= now)
  abbrev pub still_open : Option ℕ → ℕ → Bool
  still_open none now = false
  still_open (some t) now = not (leb t now)

  unfoldable pub is_open_to : ℕ → String → ProjectAccount → Bool
  is_open_to now token row =
      is_leased row.status
      && token_matches row.lease_token_hash token
      && still_open row.lease_expires_at now

  unfoldable pub leased_row : ℕ → ℕ → String → Db → Result ProjectAccount
  leased_row now row_id token db = elim (get_row db row_id) [
    | none ↦ err (problem 409 "PROJECT_LEASE_INVALID")
    | some row ↦
        if is_open_to now token row then ok row else err (problem 409 "PROJECT_LEASE_INVALID")
  ]

  -- `now` is the time of the check and `later` that of the new expiry.
  unfoldable pub heartbeat_project_lease :
      ℕ → ℕ → ℕ → String → Option ℕ → Db → Result (Db × ProjectAccountRead)
  heartbeat_project_lease now later row_id token lease_seconds db = do
    row ← leased_row now row_id token db
    project ← project_or_404 db row.project_id
    let seconds = or_default lease_seconds project.default_lease_seconds
    let row' = record row { lease_expires_at = some (later + seconds) }
    let db' =
        add_event (put_row db row') row.project_id (some row.id) "account.heartbeat" row.lease_owner
          (("lease_seconds", num seconds) ∷ [])
    ok (db', project_account_read db' row')

  unfoldable pub finish_project_lease :
      ℕ → ℕ → ℕ → String → WorkStatus → Data → Option String → Db → Result (Db × ProjectAccountRead)
  finish_project_lease now later row_id token status result error_summary db = do
    row ← leased_row now row_id token db
    let row' = end_row later status result error_summary row
    let db' =
        add_event (put_row db row') row.project_id (some row.id) (account_event status)
          row.lease_owner result
    ok (db', project_account_read db' row')
