-- ===== src/Projects/Heartbeat.antt =====
-- `heartbeat_project_lease`: the holder of a lease moves its end.
use smart_email_manager.Prelude.{
  ℕ, ◌+◌, ◌<◌, ◌≤◌, String, ◌≡◌, refl, subst, true, false, Option, some, arith,
}
use smart_email_manager.Problem.{ok, err, problem}
use smart_email_manager.Projects.Model.{WorkProject, ProjectAccount, Db, get_row, get_project}
use smart_email_manager.Projects.Lease.{
  ProjectAccountRead, or_default, is_open_to, leased_row, heartbeat_project_lease,
}
use smart_email_manager.Projects.Tokens.{leased_row-open, leased_row-shut}
use smart_email_manager.Projects.Ending.{written, leased_row-valid}
use smart_email_manager.Projects.Changes.{heartbeat-row}

module _ (sha256 : String → String) where
  extended-open :
      (now at until : ℕ) (token : String) (row : ProjectAccount)
      → is_open_to sha256 now token row ≡ true
      → at < until
      → is_open_to sha256 at token (record row { lease_expires_at = some until }) ≡ true
  unfolding is_open_to
  extended-open now at until token row h k = ground arith

  extended-shut :
      (at until : ℕ) (token : String) (row : ProjectAccount)
      → until ≤ at
      → is_open_to sha256 at token (record row { lease_expires_at = some until }) ≡ false
  unfolding is_open_to
  extended-shut at until token row k = ground arith

  -- A heartbeat with a token that opens the row moves the end of the lease to exactly the given
  -- seconds, or the project's default, after the time of the heartbeat: before that end the same token
  -- opens the row, whose owner, account and attempts stay, and from that end on no token does.
  pub heartbeat-extends :
      (now later row_id : ℕ) (token : String) (lease_seconds : Option ℕ) (db db' : Db)
      (read : ProjectAccountRead)
      → heartbeat_project_lease sha256 now later row_id token lease_seconds db ≡ ok (db', read)
      → (old row : ProjectAccount) × (project : WorkProject) × (leased_row sha256 now row_id token
            db
          ≡ ok old)
        × (get_project db old.project_id ≡ some project)
        × (row.lease_expires_at
            ≡ some (later + or_default lease_seconds project.default_lease_seconds))
        × (row.lease_owner ≡ old.lease_owner)
        × (row.account_id ≡ old.account_id)
        × (row.attempt_count ≡ old.attempt_count)
        × ((at : ℕ)
            → at < later + or_default lease_seconds project.default_lease_seconds
            → leased_row sha256 at row_id token db' ≡ ok row)
        × ((at : ℕ) (other : String)
            → later + or_default lease_seconds project.default_lease_seconds ≤ at
            → leased_row sha256 at row_id other db' ≡ err (problem 409 "PROJECT_LEASE_INVALID"))
  heartbeat-extends now later row_id token secs db db' read h =
      let (old, p, opened, found, done) =
        heartbeat-row sha256 now later row_id token secs db db' read h in
      let (mem, same, valid, there) = leased_row-valid sha256 now row_id token db old opened in
      let until = later + or_default secs p.default_lease_seconds in
      let row = record old { lease_expires_at = some until } in
      let kept : get_row db' row_id ≡ some row =
        subst (λ id. get_row db' id ≡ some row) same (written db db' old row done.0 mem refl) in
      (
        old,
        row,
        p,
        opened,
        found,
        refl,
        refl,
        refl,
        refl,
        λ at k.
            leased_row-open sha256 at row_id token db' row kept
              (extended-open now at until token old valid k),
        λ at other k.
            leased_row-shut sha256 at row_id other db' row kept
              (extended-shut at until other old k),
      )
