-- ===== src/Projects/Changes.antt =====
-- What each transaction of services/projects.py does to the rows of project_accounts.
use smart_email_manager.Prelude.{
  ℕ, ◌+◌, String, ◌≡◌, refl, Bool, true, ◌⊎◌, inl, inr, Option, some, List, ◌++◌, arith,
  select_where, update_where, fromkeys, best, Option-cases, Bool-cases,
}
use smart_email_manager.Problem.{ok, Result-cases}
use smart_email_manager.Projects.Model.{
  ProjectStatus, WorkStatus, WorkProject, ProjectAccount, Db, is_active, get_project, get_account,
  put_row, add_event,
}
use smart_email_manager.Projects.Lease.{
  ProjectClaimRequest, ProjectAccountRead, project_or_404, or_default, may_claim, older, claim_row,
  claim_selected, claim_project_account, leased_row, heartbeat_project_lease,
}
use smart_email_manager.Projects.Manage.{
  Fresh, ProjectCreate, ProjectRead, new_rows, new_project, insert_project, create_project,
  set_project_status, existing_accounts, insert_rows, all_exist, add_project_accounts,
}
use smart_email_manager.Projects.Act.{
  Action, act_row, is_requested, ProjectAccountsActionResult, mutate_project_accounts,
}

module _ (sha256 : String → String) where
  -- The row that a selected row is overwritten with, with and without an account.
  abbrev pub Taken : ℕ → String → ProjectClaimRequest → ProjectAccount → ProjectAccount → Type 0
  Taken now token request row row' =
      (row' ≡ record row { status = WorkStatus.removed })
      ⊎ ((secs : ℕ) × (row' ≡ claim_row sha256 now token request.owner secs row))

  selected-rows :
      (now : ℕ) (token : String) (request : ProjectClaimRequest) (project : WorkProject)
      (row : ProjectAccount) (db : Db)
      → (row' : ProjectAccount) × Taken now token request row row'
        × ((claim_selected sha256 now token request project row db).0.rows ≡ (put_row db row').rows)
  unfolding add_event claim_selected put_row
  selected-rows now token request project row db =
      elim (Option-cases (get_account db row.account_id)) [
        | inl e ↦
            (record row { status = WorkStatus.removed }, inl refl, rw (claim_selected, e) refl)
        | inr (a, e) ↦
            let secs = or_default request.lease_seconds project.default_lease_seconds in
            (
              claim_row sha256 now token request.owner secs row,
              inr (secs, refl),
              rw (claim_selected, e) refl,
            )
      ]

  pub claim-rows :
      (locked : ℕ → Bool) (now : ℕ) (token : String) (project_id : ℕ)
      (request : ProjectClaimRequest) (db : Db)
      → ((claim_project_account sha256 locked now token project_id request db).0.rows ≡ db.rows)
        ⊎ ((project : WorkProject) × (row row' : ProjectAccount) × (best older
                (select_where (may_claim locked now project.id) db.rows)
              ≡ some row)
            × Taken now token request row row'
            × ((claim_project_account sha256 locked now token project_id request db).0.rows
                ≡ (put_row db row').rows))
  unfolding claim_project_account project_or_404
  claim-rows locked now token project_id request db =
      elim (Option-cases (get_project db project_id)) [
        | inl e ↦ inl (rw (claim_project_account, project_or_404, e) refl)
        | inr (p, e) ↦ elim (Bool-cases (is_active p.status)) [
          | inr off ↦ inl (rw (claim_project_account, project_or_404, e, off) refl)
          | inl on ↦
              elim (Option-cases (best older (select_where (may_claim locked now p.id) db.rows))) [
                | inl n ↦ inl (rw (claim_project_account, project_or_404, e, on, n) refl)
                | inr (r, n) ↦
                    let (row', taken, same) = selected-rows now token request p r db in
                    inr (
                      p,
                      r,
                      row',
                      n,
                      taken,
                      rw (claim_project_account, project_or_404, e, on, n) same,
                    )
              ]
        ]
      ]

  pub heartbeat-row :
      (now later row_id : ℕ) (token : String) (lease_seconds : Option ℕ) (db db' : Db)
      (read : ProjectAccountRead)
      → heartbeat_project_lease sha256 now later row_id token lease_seconds db ≡ ok (db', read)
      → (row : ProjectAccount) × (project : WorkProject) × (leased_row sha256 now row_id token db
          ≡ ok row)
        × (get_project db row.project_id ≡ some project)
        × (let until = later + or_default lease_seconds project.default_lease_seconds in
            (db'.rows ≡ (put_row db (record row { lease_expires_at = some until })).rows)
            × (db'.projects ≡ db.projects)
            × (db'.accounts ≡ db.accounts))
  unfolding heartbeat_project_lease project_or_404 add_event put_row
  heartbeat-row now later row_id token secs db db' read h =
      elim (Result-cases (leased_row sha256 now row_id token db)) [
        | inl (f, e) ↦ absurd (ground arith)
        | inr (row, e) ↦ elim (Option-cases (get_project db row.project_id)) [
          | inl n ↦ absurd (ground arith)
          | inr (p, n) ↦ (row, p, e, n, ground arith)
        ]
      ]

pub create-rows :
    (fresh : Fresh) (payload : ProjectCreate) (db db' : Db) (read : ProjectRead)
    → create_project fresh payload db ≡ ok (db', read)
    → db'.rows
      ≡ db.rows ++ new_rows fresh.now fresh.row_id fresh.project_id (fromkeys payload.account_ids)
unfolding create_project insert_project new_project add_event
create-rows fresh payload db db' read h = ground arith

pub set_status-rows :
    (project_id : ℕ) (status : ProjectStatus) (db db' : Db) (read : ProjectRead)
    → set_project_status project_id status db ≡ ok (db', read)
    → db'.rows ≡ db.rows
unfolding set_project_status add_event
set_status-rows project_id status db db' read h =
    elim (Result-cases (project_or_404 db project_id)) [
      | inl (f, e) ↦ absurd (ground arith)
      | inr (p, e) ↦ ground arith
    ]

pub add-rows :
    (fresh : Fresh) (project_id : ℕ) (account_ids : List ℕ) (db db' : Db) (read : ProjectRead)
    → add_project_accounts fresh project_id account_ids db ≡ ok (db', read)
    → (project : WorkProject) × (project_or_404 db project_id ≡ ok project)
      × (db'.rows
          ≡ insert_rows fresh.now fresh.row_id project.id
              (existing_accounts db account_ids)
              db.rows)
      × ((all_exist (existing_accounts db account_ids) account_ids ≡ true)
          × (db'.projects ≡ db.projects)
          × (db'.accounts ≡ db.accounts))
unfolding add_project_accounts add_event
add-rows fresh project_id account_ids db db' read h =
    elim (Result-cases (project_or_404 db project_id)) [
      | inl (f, e) ↦ absurd (ground arith)
      | inr (p, e) ↦ elim (Bool-cases (all_exist (existing_accounts db account_ids) account_ids)) [
        | inr lacks ↦ absurd (ground arith)
        | inl all ↦ (p, e, ground arith, (all, ground arith, ground arith))
      ]
    ]

pub act-rows :
    (project_id : ℕ) (action : Action) (ids : List ℕ) (db db' : Db)
    (answer : ProjectAccountsActionResult)
    → mutate_project_accounts project_id action ids db ≡ ok (db', answer)
    → (project : WorkProject) × (project_or_404 db project_id ≡ ok project)
      × (db'.rows ≡ update_where (is_requested project.id (fromkeys ids)) (act_row action) db.rows)
unfolding mutate_project_accounts add_event
act-rows project_id action ids db db' answer h =
    elim (Result-cases (project_or_404 db project_id)) [
      | inl (f, e) ↦ absurd (ground arith)
      | inr (p, e) ↦ (p, e, ground arith)
    ]
