-- ===== src/Projects/Oldest.antt =====
-- The row that `claim_project_account` takes, and when there is none to take.
use smart_email_manager.Prelude.{
  ℕ, String, ◌≡◌, refl, sym, subst, Bool, true, false, inl, inr, none, some, List, Memᴰ, ◌==◌,
  ==_iff, select_where, All, select_where-All, select_where-both, select_where-nil,
  nil-select_where, best, best-cases, best-NoneBefore, best-none, Option-cases, Bool-cases,
  find_where-member,
}
use smart_email_manager.Problem.{ok, err, problem, has_code}
use smart_email_manager.Projects.Model.{
  WorkProject, ProjectAccount, Db, is_active, get_project, get_account,
}
use smart_email_manager.Projects.Lease.{
  ProjectClaimRequest, ProjectClaimRead, project_or_404, may_claim, older, claim_selected,
  claim_project_account,
}
use smart_email_manager.Projects.Claiming.{older-StrictOrder, claim-Claimed}

pub get_project-id :
    (db : Db) (id : ℕ) (project : WorkProject) → get_project db id ≡ some project → project.id ≡ id
unfolding get_project
get_project-id db id project e =
    (==_iff project.id id).0 (find_where-member (λ p. p.id == id) db.projects project e).1

module _ (locked : ℕ → Bool) (now project_id : ℕ) where
  -- `row` may be claimed, and no row that may be claimed is older.
  abbrev pub IsOldest : ProjectAccount → List ProjectAccount → Type 0
  IsOldest row rows =
      Memᴰ row rows
      × (may_claim locked now project_id row ≡ true)
      × All (λ r. may_claim locked now project_id r ≡ true → older r row ≡ false) rows

  pub best-IsOldest :
      (rows : List ProjectAccount) (row : ProjectAccount)
      → best older (select_where (may_claim locked now project_id) rows) ≡ some row
      → IsOldest row rows
  best-IsOldest rows row e =
      let p = may_claim locked now project_id in
      let (mem, free) =
        best-cases older (λ r. Memᴰ r rows × (p r ≡ true)) (select_where p rows) row
          (select_where-both p rows) e in
      (
        mem,
        free,
        select_where-All (λ r. older r row ≡ false) p rows
            (best-NoneBefore older older-StrictOrder (select_where p rows) row e),
      )

module _ (sha256 : String → String) (locked : ℕ → Bool) (now : ℕ) (token : String) (project_id : ℕ)
    (request : ProjectClaimRequest) (db : Db) where
  -- A successful claim takes a row of the project that is unclaimed or whose lease has expired, and
  -- among all such rows that no other transaction holds the oldest by creation time, then id.
  pub claim-IsOldest :
      (db' : Db) (read : ProjectClaimRead)
      → claim_project_account sha256 locked now token project_id request db ≡ (db', ok read)
      → (row : ProjectAccount) × (row.id ≡ read.project_account_id)
        × IsOldest locked now project_id row db.rows
  claim-IsOldest db' read h =
      let c = claim-Claimed sha256 locked now token project_id request db db' read h in
      (
        c.row,
        sym c.result.3,
        subst (λ id. IsOldest locked now id c.row db.rows)
            (get_project-id db project_id c.project c.loaded)
            (best-IsOldest locked now c.project.id db.rows c.row c.chosen),
      )

  no_row-to_claim :
      (project : WorkProject)
      → get_project db project_id ≡ some project
      → is_active project.status ≡ true
      → best older (select_where (may_claim locked now project.id) db.rows) ≡ none
      → claim_project_account sha256 locked now token project_id request db
        ≡ (db, err (problem 409 "PROJECT_WORK_UNAVAILABLE"))
  unfolding claim_project_account project_or_404
  no_row-to_claim project e on n = rw (claim_project_account, project_or_404, e, on, n) refl

  selected-not-unavailable :
      (project : WorkProject) (row : ProjectAccount)
      → has_code "PROJECT_WORK_UNAVAILABLE"
          (claim_selected sha256 now token request project row db).1
        ≡ false
  unfolding claim_selected
  selected-not-unavailable project row = elim (Option-cases (get_account db row.account_id)) [
    | inl e ↦ rw (claim_selected, e) refl
    | inr (a, e) ↦ rw (claim_selected, e) refl
  ]

  unavailable_cases :
      has_code "PROJECT_WORK_UNAVAILABLE"
          (claim_project_account sha256 locked now token project_id request db).1
        ≡ true
      → (project : WorkProject) × (get_project db project_id ≡ some project)
        × (is_active project.status ≡ true)
        × (best older (select_where (may_claim locked now project.id) db.rows) ≡ none)
  unfolding claim_project_account project_or_404
  unavailable_cases h = elim (Option-cases (get_project db project_id)) [
    | inl e ↦ absurd (cc (rw (claim_project_account, project_or_404, e) at h))
    | inr (p, e) ↦ elim (Bool-cases (is_active p.status)) [
      | inr off ↦ absurd (cc (rw (claim_project_account, project_or_404, e, off) at h))
      | inl on ↦
          elim (Option-cases (best older (select_where (may_claim locked now p.id) db.rows))) [
            | inl n ↦ (p, e, on, n)
            | inr (r, n) ↦ absurd (
                cc (
                  rw (claim_project_account, project_or_404, e, on, n) at h,
                  selected-not-unavailable p r,
                ))
          ]
    ]
  ]

  -- The claim answers that no work is available exactly when the project is active and none of its
  -- rows may be claimed, and then nothing changes.
  pub claim-unavailable :
      let r = claim_project_account sha256 locked now token project_id request db in
      (has_code "PROJECT_WORK_UNAVAILABLE" r.1 ≡ true
        → (project : WorkProject) × (get_project db project_id ≡ some project)
          × (is_active project.status ≡ true)
          × All (λ row. may_claim locked now project_id row ≡ false) db.rows)
      × ((project : WorkProject)
          → get_project db project_id ≡ some project
          → is_active project.status ≡ true
          → All (λ row. may_claim locked now project_id row ≡ false) db.rows
          → r ≡ (db, err (problem 409 "PROJECT_WORK_UNAVAILABLE")))
  claim-unavailable = (
    λ h.
        let (p, e, on, n) = unavailable_cases h in
        let same = get_project-id db project_id p e in
        (
          p,
          e,
          on,
          subst (λ id. All (λ row. may_claim locked now id row ≡ false) db.rows) same
              (select_where-nil (may_claim locked now p.id) db.rows
                (best-none older (select_where (may_claim locked now p.id) db.rows) n)),
        ),
    λ p e on h. no_row-to_claim p e on (
        rw
          (
            get_project-id db project_id p e,
            nil-select_where (may_claim locked now project_id) db.rows h,
          )
          refl),
  )
