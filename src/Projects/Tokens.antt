-- ===== src/Projects/Tokens.antt =====
-- The claim token: it alone opens the lease that it was made for, and only until the lease ends.
use smart_email_manager.Prelude.{
  ℕ, ◌+◌, ◌≤◌, ◌<◌, String, ◌≡◌, ◌≢◌, refl, sym, ◌∙◌, Bool, true, false, inl, inr, some, Memᴰ,
  arith, eq_iff, ◌==◌, ==_iff, find_where, find_where-update_where, find_where-found,
  find_where-member, Option-cases,
}
use smart_email_manager.Problem.{ok, err, problem}
use smart_email_manager.Projects.Model.{
  ProjectAccount, Account, Db, is_leased, get_row, get_account, put_row,
}
use smart_email_manager.Projects.Lease.{
  ProjectClaimRequest, ProjectClaimRead, or_default, claim_row, claim_project_account, is_open_to,
  leased_row,
}
use smart_email_manager.Projects.Claiming.{claim-Claimed}
use smart_email_manager.Projects.Oldest.{best-IsOldest}

-- A row that was written is the row that a search by its id finds.
pub get_row-put_row :
    (db : Db) (row row' : ProjectAccount)
    → Memᴰ row db.rows
    → row'.id ≡ row.id
    → find_where (λ r. r.id == row.id) (put_row db row').rows ≡ some row'
unfolding put_row
get_row-put_row db row row' m e =
    let found =
      find_where-update_where (λ r. r.id == row.id) (λ r. r.id == row'.id) (λ _. row') db.rows
        (λ x. ground arith) in
    elim (Option-cases (find_where (λ r. r.id == row.id) db.rows)) [
      | inl n ↦ absurd (find_where-found (λ r. r.id == row.id) row db.rows m (ground arith) n)
      | inr (x, n) ↦
          let hit = (find_where-member (λ r. r.id == row.id) db.rows x n).1 in
          found ∙ rw (n, e, hit) refl
    ]

claimed_there :
    (db db' : Db) (row row' : ProjectAccount) (read : ProjectClaimRead)
    → db'.rows ≡ (put_row db row').rows
    → read.project_account_id ≡ row.id
    → Memᴰ row db.rows
    → row'.id ≡ row.id
    → get_row db' read.project_account_id ≡ some row'
unfolding get_row
claimed_there db db' row row' read e i m same = rw (e, i) (get_row-put_row db row row' m same)

account_of :
    (db : Db) (id : ℕ) (account : Account) → get_account db id ≡ some account → id ≡ account.id
unfolding get_account
account_of db id account e =
    sym ((==_iff account.id id).0 (find_where-member (λ a. a.id == id) db.accounts account e).1)

module _ (sha256 : String → String) where
  pub leased_row-open :
      (now row_id : ℕ) (token : String) (db : Db) (row : ProjectAccount)
      → get_row db row_id ≡ some row
      → is_open_to sha256 now token row ≡ true
      → leased_row sha256 now row_id token db ≡ ok row
  unfolding leased_row
  leased_row-open now row_id token db row e h = rw (leased_row, e, h) refl

  pub leased_row-shut :
      (now row_id : ℕ) (token : String) (db : Db) (row : ProjectAccount)
      → get_row db row_id ≡ some row
      → is_open_to sha256 now token row ≡ false
      → leased_row sha256 now row_id token db ≡ err (problem 409 "PROJECT_LEASE_INVALID")
  unfolding leased_row
  leased_row-shut now row_id token db row e h = rw (leased_row, e, h) refl

  claim_row-open :
      (now later secs : ℕ) (token owner : String) (row : ProjectAccount)
      → sha256 token ≢ ""
      → later < now + secs
      → is_open_to sha256 later token (claim_row sha256 now token owner secs row) ≡ true
  unfolding is_open_to claim_row is_leased
  claim_row-open now later secs token owner row h k =
      ground (arith, (eq_iff (sha256 token) (sha256 token)).1 refl, (eq_iff (sha256 token) "").0)

  claim_row-late :
      (now later secs : ℕ) (token other owner : String) (row : ProjectAccount)
      → now + secs ≤ later
      → is_open_to sha256 later other (claim_row sha256 now token owner secs row) ≡ false
  unfolding is_open_to claim_row is_leased
  claim_row-late now later secs token other owner row k = ground arith

  claim_row-other :
      (now later secs : ℕ) (token other owner : String) (row : ProjectAccount)
      → sha256 token ≢ sha256 other
      → is_open_to sha256 later other (claim_row sha256 now token owner secs row) ≡ false
  unfolding is_open_to claim_row is_leased
  claim_row-other now later secs token other owner row k =
      ground (arith, (eq_iff (sha256 token) (sha256 other)).0)

  -- After a successful claim, with SHA-256 never giving an empty digest: the claim token opens the
  -- claimant's row at every time before the expiry that the answer names, a token with another digest
  -- never does, and from the expiry on no token does.
  pub claim-opens :
      ((text : String) → sha256 text ≢ "")
      → (locked : ℕ → Bool) (now : ℕ) (token : String) (project_id : ℕ)
        (request : ProjectClaimRequest) (db db' : Db) (read : ProjectClaimRead)
      → claim_project_account sha256 locked now token project_id request db ≡ (db', ok read)
      → ((later : ℕ)
          → later < read.lease_expires_at
          → (row : ProjectAccount) × (leased_row sha256 later read.project_account_id token db'
              ≡ ok row)
            × (row.lease_owner ≡ some request.owner)
            × (row.account_id ≡ read.account_id))
        × ((later : ℕ) (other : String)
            → sha256 token ≢ sha256 other
            → leased_row sha256 later read.project_account_id other db'
              ≡ err (problem 409 "PROJECT_LEASE_INVALID"))
        × ((later : ℕ) (other : String)
            → read.lease_expires_at ≤ later
            → leased_row sha256 later read.project_account_id other db'
              ≡ err (problem 409 "PROJECT_LEASE_INVALID"))
  unfolding claim_row
  claim-opens nonempty locked now token project_id request db db' read h =
      let c = claim-Claimed sha256 locked now token project_id request db db' read h in
      let secs = or_default request.lease_seconds c.project.default_lease_seconds in
      let row' = claim_row sha256 now token request.owner secs c.row in
      let mem = (best-IsOldest locked now c.project.id db.rows c.row c.chosen).0 in
      let there : get_row db' read.project_account_id ≡ some row' =
        claimed_there db db' c.row row' read c.result.0 c.result.3 mem refl in
      (
        λ later k. (
          row',
          leased_row-open later read.project_account_id token db' row' there (
              claim_row-open now later secs token request.owner c.row (nonempty token)
                (omega (arith, c.result.6))),
          refl,
          account_of db c.row.account_id c.account c.owned ∙ sym c.result.5,
        ),
        λ later other k.
            leased_row-shut later read.project_account_id other db' row' there
              (claim_row-other now later secs token other request.owner c.row k),
        λ later other k. leased_row-shut later read.project_account_id other db' row' there (
            claim_row-late now later secs token other request.owner c.row
              (omega (arith, c.result.6))),
      )
