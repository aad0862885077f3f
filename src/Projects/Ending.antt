-- ===== src/Projects/Ending.antt =====
-- What the holder of a lease can do with it: extend it by heartbeats and end it, once.
use smart_email_manager.Prelude.{
  ℕ, String, ◌≡◌, refl, true, false, inl, inr, Option, some, Memᴰ, arith, ◌==◌, ==_iff,
  find_where-member, Option-cases, Bool-cases,
}
use smart_email_manager.Json.{Data}
use smart_email_manager.Problem.{ok, err, problem, Result-cases}
use smart_email_manager.Projects.Model.{
  WorkStatus, ProjectAccount, Db, is_to_claim, is_leased, get_row, put_row, add_event,
}
use smart_email_manager.Projects.Lease.{
  ProjectAccountRead, project_account_read, is_claimable, is_open_to, leased_row, end_row,
  finish_project_lease,
}
use smart_email_manager.Projects.Tokens.{get_row-put_row, leased_row-shut}

-- The row that was written is the one that its id leads to.
pub written :
    (db db' : Db) (old row : ProjectAccount)
    → db'.rows ≡ (put_row db row).rows
    → Memᴰ old db.rows
    → row.id ≡ old.id
    → get_row db' old.id ≡ some row
unfolding get_row
written db db' old row e m same = rw e (get_row-put_row db old row m same)

module _ (sha256 : String → String) where
  -- A row that `_leased_row` answers.
  pub leased_row-valid :
      (now row_id : ℕ) (token : String) (db : Db) (row : ProjectAccount)
      → leased_row sha256 now row_id token db ≡ ok row
      → Memᴰ row db.rows
        × (row.id ≡ row_id)
        × (is_open_to sha256 now token row ≡ true)
        × (get_row db row_id ≡ some row)
  unfolding leased_row get_row
  leased_row-valid now row_id token db row h = elim (Option-cases (get_row db row_id)) [
    | inl e ↦ absurd (ground arith)
    | inr (r, e) ↦ elim (Bool-cases (is_open_to sha256 now token r)) [
      | inr shut ↦ absurd (ground arith)
      | inl opens ↦
          let found = find_where-member (λ x. x.id == row_id) db.rows r e in
          let same : r ≡ row = ground arith in
          rw (← same) (found.0, (==_iff r.id row_id).0 found.1, opens, e)
    ]
  ]

  -- What a successful end of a lease did.
  pub finish-row :
      (now later row_id : ℕ) (token : String) (status : WorkStatus) (result : Data)
      (error_summary : Option String) (db db' : Db) (read : ProjectAccountRead)
      → finish_project_lease sha256 now later row_id token status result error_summary db
        ≡ ok (db', read)
      → (row : ProjectAccount) × (leased_row sha256 now row_id token db ≡ ok row)
        × (let row' = end_row later status result error_summary row in
            (db'.rows ≡ (put_row db row').rows)
            × (db'.projects ≡ db.projects)
            × (db'.accounts ≡ db.accounts)
            × (read.status ≡ row'.status)
            × (read.result ≡ row'.result)
            × (read.attempt_count ≡ row'.attempt_count))
  unfolding finish_project_lease add_event put_row project_account_read
  finish-row now later row_id token status result error_summary db db' read h =
      elim (Result-cases (leased_row sha256 now row_id token db)) [
        | inl (f, e) ↦ absurd (ground arith)
        | inr (row, e) ↦ (row, e, ground arith)
      ]

  ended-shut :
      (later at : ℕ) (status : WorkStatus) (result : Data) (error_summary : Option String)
      (other : String) (row : ProjectAccount)
      → is_open_to sha256 at other (end_row later status result error_summary row) ≡ false
  unfolding is_open_to end_row
  ended-shut later at status result error_summary other row = ground arith

  ended-claimable :
      (later at : ℕ) (status : WorkStatus) (result : Data) (error_summary : Option String)
      (row : ProjectAccount)
      → is_claimable at (end_row later status result error_summary row) ≡ is_to_claim status
  unfolding is_claimable end_row is_leased is_to_claim
  ended-claimable later at status result error_summary row = ground arith

  -- The end of a lease revokes it: the row gets the given status, keeps its account and its attempts,
  -- opens to no token at any later time, and may be claimed again exactly if the status is to_claim.
  pub finish-revokes :
      (now later row_id : ℕ) (token : String) (status : WorkStatus) (result : Data)
      (error_summary : Option String) (db db' : Db) (read : ProjectAccountRead)
      → finish_project_lease sha256 now later row_id token status result error_summary db
        ≡ ok (db', read)
      → (old row : ProjectAccount) × (leased_row sha256 now row_id token db ≡ ok old)
        × (get_row db' row_id ≡ some row)
        × (row.status ≡ status)
        × (read.status ≡ status)
        × (row.account_id ≡ old.account_id)
        × (row.attempt_count ≡ old.attempt_count)
        × ((at : ℕ) → is_claimable at row ≡ is_to_claim status)
        × ((at : ℕ) (other : String)
            → leased_row sha256 at row_id other db' ≡ err (problem 409 "PROJECT_LEASE_INVALID"))
  unfolding end_row
  finish-revokes now later row_id token status result error_summary db db' read h =
      let (old, opened, done) =
        finish-row now later row_id token status result error_summary db db' read h in
      let (mem, same, valid, found) = leased_row-valid now row_id token db old opened in
      let row = end_row later status result error_summary old in
      let there : get_row db' row_id ≡ some row =
        rw (← same) (written db db' old row done.0 mem refl) in
      (
        old,
        row,
        opened,
        there,
        refl,
        done.3,
        refl,
        refl,
        λ at. ended-claimable later at status result error_summary old,
        λ at other.
            leased_row-shut sha256 at row_id other db' row there
              (ended-shut later at status result error_summary other old),
      )
