-- ===== src/Projects/Invariant.antt =====
-- What stays true of the rows of project_accounts under every order of transactions.
use smart_email_manager.Prelude.{
  ℕ, ◌+◌, ◌≤◌, ◌<◌, String, ◌≡◌, refl, Bool, true, false, not, ◌&&◌, ◌||◌, inl, inr, Option, some,
  List, [], ◌∷◌, ◌++◌, arith, ◌==◌, if_cases, if◌then◌else◌, is_some, update_where, find_where, All,
  All-append, All-mono, All-update_where, All-member, UniqueBy, UniqueBy-update, UniqueBy-append,
  UniqueBy-select_where, All-select_where, fromkeys,
}
use smart_email_manager.Json.{Data}
use smart_email_manager.Projects.Model.{
  WorkStatus, removed, ProjectAccount, Db, is_leased, is_removed, put_row, cascade_account,
}
use smart_email_manager.Projects.Lease.{or_default, claim_row, end_row, is_open_to}
use smart_email_manager.Projects.Manage.{
  new_row, new_rows, insert_row_of, insert_rows, existing_accounts,
}
use smart_email_manager.Projects.Act.{Action, next_status, act_row, is_requested}
use smart_email_manager.Projects.Ending.{leased_row-valid, finish-row}
use smart_email_manager.Projects.Changes.{
  claim-rows, heartbeat-row, create-rows, set_status-rows, add-rows, act-rows,
}
use smart_email_manager.Projects.System.{
  Step, claims, heartbeats, finishes, creates, sets_status, adds, acts, deletes, Reach, begun,
  and_then,
}

-- Owner, token and expiry are all there in a leased row, and none is in a row that is not leased,
-- other than a removed one.
abbrev pub LeaseAgrees : ProjectAccount → Type 0
LeaseAgrees row =
    (if is_leased row.status
      then is_some row.lease_owner && is_some row.lease_token_hash && is_some row.lease_expires_at
      else is_removed row.status
        || not (is_some row.lease_owner)
          && not (is_some row.lease_token_hash)
          && not (is_some row.lease_expires_at))
    ≡ true

pub record Inv (rows : List ProjectAccount) : Type 0 where
  pub unique : UniqueBy (λ r. r.id) rows
  pub leases : All LeaseAgrees rows

Inv-put_row :
    (db : Db) (row : ProjectAccount) → LeaseAgrees row → Inv db.rows → Inv (put_row db row).rows
unfolding put_row
Inv-put_row db row h v = record {
  unique =
      UniqueBy-update (λ r. r.id) (λ r. r.id == row.id) (λ _. row) db.rows (λ r e. ground arith)
        v.unique;
  leases =
      All-update_where LeaseAgrees (λ r. r.id == row.id) (λ _. row) db.rows (λ r e k. h) v.leases;
}

act_row-LeaseAgrees :
    (action : Action) (row : ProjectAccount) → LeaseAgrees row → LeaseAgrees (act_row action row)
unfolding act_row next_status is_leased is_removed
act_row-LeaseAgrees action row h = ground arith

act_row-id : (action : Action) (row : ProjectAccount) → (act_row action row).id ≡ row.id
unfolding act_row
act_row-id action row = ground arith

new_row-LeaseAgrees :
    (now row_id project_id account_id : ℕ) → LeaseAgrees (new_row now row_id project_id account_id)
unfolding new_row is_leased is_removed
new_row-LeaseAgrees now row_id project_id account_id = refl

new_rows-Inv :
    (now row_id project_id : ℕ) (ids : List ℕ)
    → Inv (new_rows now row_id project_id ids)
      × All (λ r. row_id ≤ r.id) (new_rows now row_id project_id ids)
unfolding new_rows new_row is_leased is_removed
new_rows-Inv now row_id project_id [] = (record { unique = tt; leases = tt }, tt)
new_rows-Inv now row_id project_id (a ∷ ids) =
    let (v, above) = new_rows-Inv now (row_id + 1) project_id ids in
    let rows = new_rows now (row_id + 1) project_id ids in
    (
      record {
        unique = (
          All-mono (λ r. row_id + 1 ≤ r.id) (λ r. (r.id == row_id) ≡ false) rows
              (λ r q. ground arith) above,
          v.unique,
        );
        leases = (refl, v.leases);
      },
      (
        omega arith,
        All-mono (λ r. row_id + 1 ≤ r.id) (λ r. row_id ≤ r.id) rows (λ r q. omega arith) above,
      ),
    )

Inv-append :
    (n : ℕ) (rows more : List ProjectAccount)
    → All (λ r. r.id < n) rows
    → All (λ r. n ≤ r.id) more
    → Inv rows
    → Inv more
    → Inv (rows ++ more)
Inv-append n rows more below above v w = record {
  unique = UniqueBy-append (λ r. r.id) n rows more below above v.unique w.unique;
  leases = All-append LeaseAgrees rows more v.leases w.leases;
}

-- One insertion keeps the invariant, and the next id is unused after it.
insert_row_of-Inv :
    (now row_id project_id account_id : ℕ) (rows : List ProjectAccount)
    → All (λ r. r.id < row_id) rows
    → Inv rows
    → Inv (insert_row_of now row_id project_id account_id rows)
      × All (λ r. r.id < row_id + 1) (insert_row_of now row_id project_id account_id rows)
unfolding insert_row_of new_row is_leased is_removed
insert_row_of-Inv now row_id project_id account_id rows below v =
    let new = new_row now row_id project_id account_id in
    let wider =
      All-mono (λ r. r.id < row_id) (λ r. r.id < row_id + 1) rows (λ r q. omega arith) below in
    if_cases (λ xs. Inv xs × All (λ r. r.id < row_id + 1) xs) (is_some (find_where _ rows)) rows
      (rows ++ new ∷ []) (λ _. (v, wider))
      (λ _. (
        Inv-append row_id rows (new ∷ []) below (omega arith, tt) v
            (record { unique = (tt, tt); leases = (refl, tt) }),
        All-append (λ r. r.id < row_id + 1) rows (new ∷ []) wider (omega arith, tt),
      ))

insert_rows-Inv :
    (now row_id project_id : ℕ) (ids : List ℕ) (rows : List ProjectAccount)
    → All (λ r. r.id < row_id) rows
    → Inv rows
    → Inv (insert_rows now row_id project_id ids rows)
unfolding insert_rows
insert_rows-Inv now row_id project_id [] rows below v = v
insert_rows-Inv now row_id project_id (a ∷ ids) rows below v =
    let (w, wider) = insert_row_of-Inv now row_id project_id a rows below v in
    insert_rows-Inv now (row_id + 1) project_id ids (insert_row_of now row_id project_id a rows)
      wider w

act-Inv :
    (action : Action) (p : ProjectAccount → Bool) (rows : List ProjectAccount)
    → Inv rows
    → Inv (update_where p (act_row action) rows)
act-Inv action p rows v = record {
  unique =
      UniqueBy-update (λ r. r.id) p (act_row action) rows (λ r e. act_row-id action r) v.unique;
  leases =
      All-update_where LeaseAgrees p (act_row action) rows (λ r e k. act_row-LeaseAgrees action r k)
        v.leases;
}

removed-LeaseAgrees : (row : ProjectAccount) → LeaseAgrees (record row { status = removed })
unfolding is_leased is_removed
removed-LeaseAgrees row = refl

module _ (sha256 : String → String) where
  claim_row-LeaseAgrees :
      (now secs : ℕ) (token owner : String) (row : ProjectAccount)
      → LeaseAgrees (claim_row sha256 now token owner secs row)
  unfolding claim_row is_leased is_removed
  claim_row-LeaseAgrees now secs token owner row = refl

  extended-LeaseAgrees :
      (now until : ℕ) (token : String) (row : ProjectAccount)
      → is_open_to sha256 now token row ≡ true
      → LeaseAgrees row
      → LeaseAgrees (record row { lease_expires_at = some until })
  unfolding is_open_to
  extended-LeaseAgrees now until token row h k = ground arith

  end_row-LeaseAgrees :
      (later : ℕ) (status : WorkStatus) (result : Data) (error_summary : Option String)
      (row : ProjectAccount)
      → is_leased status ≡ false
      → LeaseAgrees (end_row later status result error_summary row)
  unfolding end_row
  end_row-LeaseAgrees later status result error_summary row h = ground arith

  cascade-Inv : (account_id : ℕ) (db : Db) → Inv db.rows → Inv (cascade_account account_id db).rows
  unfolding cascade_account
  cascade-Inv account_id db v = record {
    unique =
        UniqueBy-select_where (λ r. r.id) (λ r. not (r.account_id == account_id)) db.rows v.unique;
    leases = All-select_where LeaseAgrees (λ r. not (r.account_id == account_id)) db.rows v.leases;
  }

  Step-Inv : {db db' : Db} → Step sha256 db db' → Inv db.rows → Inv db'.rows
  Step-Inv {db} (claims locked now token project_id request) v =
      elim (claim-rows sha256 locked now token project_id request db) [
        | inl e ↦ rw e v
        | inr (p, old, new, chosen, taken, e) ↦ rw e (
            Inv-put_row db new
              (elim taken [
                | inl q ↦ rw q (removed-LeaseAgrees old)
                | inr (secs, q) ↦ rw q (claim_row-LeaseAgrees now secs token request.owner old)
              ])
              v)
      ]
  Step-Inv {db} (heartbeats now later row_id token secs db' read e) v =
      let (old, p, opened, found, done) =
        heartbeat-row sha256 now later row_id token secs db db' read e in
      let (mem, same, valid, there) = leased_row-valid sha256 now row_id token db old opened in
      rw done.0 (
        Inv-put_row db _
          (extended-LeaseAgrees now (later + or_default secs p.default_lease_seconds) token old
            valid (All-member LeaseAgrees old db.rows v.leases mem))
          v)
  Step-Inv {db} (finishes now later row_id token status result summary db' read ends e) v =
      let (old, opened, done) =
        finish-row sha256 now later row_id token status result summary db db' read e in
      rw done.0 (Inv-put_row db _ (end_row-LeaseAgrees later status result summary old ends) v)
  Step-Inv {db} (creates fresh payload db' read below e) v =
      let ids = fromkeys payload.account_ids in
      let (w, above) = new_rows-Inv fresh.now fresh.row_id fresh.project_id ids in
      rw (create-rows fresh payload db db' read e) (
        Inv-append fresh.row_id db.rows (new_rows fresh.now fresh.row_id fresh.project_id ids) below
          above v w)
  Step-Inv {db} (sets_status project_id status db' read e) v =
      rw (set_status-rows project_id status db db' read e) v
  Step-Inv {db} (adds fresh project_id ids db' read below e) v =
      let (p, found, rows, rest) = add-rows fresh project_id ids db db' read e in
      rw rows
        (insert_rows-Inv fresh.now fresh.row_id p.id (existing_accounts db ids) db.rows below v)
  Step-Inv {db} (acts project_id action ids db' answer e) v =
      let (p, found, rows) = act-rows project_id action ids db db' answer e in
      rw rows (act-Inv action (is_requested p.id (fromkeys ids)) db.rows v)
  Step-Inv {db} (deletes account_id) v = cascade-Inv account_id db v

  -- From a table without rows, over every order of the transactions of services/projects.py, each with
  -- unused row ids, and of deletions of accounts: the
  -- ids of the rows stay distinct, a leased row has an owner, a token and an expiry, and a row that
  -- is neither leased nor removed has none of them.
  pub Reach-Inv : {db db' : Db} → db.rows ≡ [] → Reach sha256 db db' → Inv db'.rows
  Reach-Inv none_yet begun = rw none_yet (record { unique = tt; leases = tt })
  Reach-Inv none_yet (and_then before st) = Step-Inv st (Reach-Inv none_yet before)
