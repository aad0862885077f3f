-- ===== src/Projects/Claiming.antt =====
-- `claim_project_account`: which row it takes, and when it takes none.
use smart_email_manager.Prelude.{
  ℕ, ◌+◌, String, ◌≡◌, Bool, true, false, inl, inr, some, arith, select_where, best, StrictOrder,
  Option-cases, Bool-cases,
}
use smart_email_manager.Problem.{ok}
use smart_email_manager.Projects.Model.{
  WorkProject, ProjectAccount, Account, Db, is_active, get_project, get_account, put_row, add_event,
}
use smart_email_manager.Projects.Lease.{
  ProjectClaimRequest, ProjectClaimRead, project_or_404, or_default, may_claim, older, claim_row,
  claim_selected, claim_project_account,
}

older_trans : (a b c : ProjectAccount) → older a b ≡ true → older b c ≡ true → older a c ≡ true
unfolding older
older_trans a b c h k = ground arith

older_irrefl : (a : ProjectAccount) → older a a ≡ false
unfolding older
older_irrefl a = ground arith

pub older-StrictOrder : StrictOrder older
older-StrictOrder = record { irrefl = older_irrefl; trans = older_trans }

module _ (sha256 : String → String) where
  -- What a successful claim did.
  pub record Claimed (locked : ℕ → Bool) (now : ℕ) (token : String) (project_id : ℕ)
      (request : ProjectClaimRequest) (db db' : Db) (read : ProjectClaimRead) : Type 0 where
    pub project : WorkProject
    pub row : ProjectAccount
    pub account : Account
    pub loaded : get_project db project_id ≡ some project
    pub running : is_active project.status ≡ true
    pub chosen : best older (select_where (may_claim locked now project.id) db.rows) ≡ some row
    pub owned : get_account db row.account_id ≡ some account
    pub result :
        let seconds = or_default request.lease_seconds project.default_lease_seconds in
        let row' = claim_row sha256 now token request.owner seconds row in
        (db'.rows ≡ (put_row db row').rows)
        × (db'.projects ≡ db.projects)
        × (db'.accounts ≡ db.accounts)
        × (read.project_account_id ≡ row.id)
        × (read.claim_token ≡ token)
        × (read.account_id ≡ account.id)
        × (read.lease_expires_at ≡ now + seconds)

  claim_selected-ok :
      (now : ℕ) (token : String) (request : ProjectClaimRequest) (project : WorkProject)
      (row : ProjectAccount) (db db' : Db) (read : ProjectClaimRead)
      → claim_selected sha256 now token request project row db ≡ (db', ok read)
      → (account : Account) × (get_account db row.account_id ≡ some account)
        × (let seconds = or_default request.lease_seconds project.default_lease_seconds in
            let row' = claim_row sha256 now token request.owner seconds row in
            (db'.rows ≡ (put_row db row').rows)
            × (db'.projects ≡ db.projects)
            × (db'.accounts ≡ db.accounts)
            × (read.project_account_id ≡ row.id)
            × (read.claim_token ≡ token)
            × (read.account_id ≡ account.id)
            × (read.lease_expires_at ≡ now + seconds))
  unfolding claim_selected add_event put_row claim_row
  claim_selected-ok now token request project row db db' read h =
      elim (Option-cases (get_account db row.account_id)) [
        | inl e ↦ absurd (ground arith)
        | inr (a, e) ↦ (a, e, ground arith)
      ]

  pub claim-Claimed :
      (locked : ℕ → Bool) (now : ℕ) (token : String) (project_id : ℕ)
      (request : ProjectClaimRequest) (db db' : Db) (read : ProjectClaimRead)
      → claim_project_account sha256 locked now token project_id request db ≡ (db', ok read)
      → Claimed locked now token project_id request db db' read
  unfolding claim_project_account project_or_404
  claim-Claimed locked now token project_id request db db' read h =
      elim (Option-cases (get_project db project_id)) [
        | inl e ↦ absurd (ground arith)
        | inr (p, e) ↦ elim (Bool-cases (is_active p.status)) [
          | inr off ↦ absurd (ground arith)
          | inl on ↦
              elim (Option-cases (best older (select_where (may_claim locked now p.id) db.rows))) [
                | inl n ↦ absurd (ground arith)
                | inr (r, n) ↦
                    let (a, q, res) =
                      claim_selected-ok now token request p r db db' read (ground arith) in
                    record {
                      project = p;
                      row = r;
                      account = a;
                      loaded = e;
                      running = on;
                      chosen = n;
                      owned = q;
                      result = res;
                    }
              ]
        ]
      ]
