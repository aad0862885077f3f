-- ===== src/Projects/Exclusion.antt =====
-- What the transactions of others do to a leased row.
use smart_email_manager.Prelude.{
  ℕ, ◌+◌, String, ◌≡◌, refl, ap, Bool, true, false, inl, inr, List, [], ◌∷◌, ◌++◌, Memᴰ, arith,
  ◌==◌, if_cases, is_some, find_where, Bool-cases, Mem-append, Mem-update_where,
  Mem-update_where_fixed, Mem-select_where, not, All-member, UniqueBy, UniqueBy-member, fromkeys,
}
use smart_email_manager.Projects.Model.{
  ProjectAccount, Db, is_leased, is_to_claim, put_row, cascade_account,
}
use smart_email_manager.Projects.Lease.{
  is_claimable, may_claim, claim_row, token_matches, expired, is_open_to, end_row,
}
use smart_email_manager.Projects.Manage.{new_row, insert_row_of, insert_rows, existing_accounts}
use smart_email_manager.Projects.Act.{Action, next_status, act_row, is_requested}
use smart_email_manager.Projects.Oldest.{best-IsOldest}
use smart_email_manager.Projects.Ending.{leased_row-valid, finish-row}
use smart_email_manager.Projects.Changes.{
  claim-rows, heartbeat-row, create-rows, set_status-rows, add-rows, act-rows,
}
use smart_email_manager.Projects.System.{
  Step, claims, heartbeats, finishes, creates, sets_status, adds, acts, deletes, Spares,
}

Mem-insert_row_of :
    (now row_id project_id account_id : ℕ) (row : ProjectAccount) (rows : List ProjectAccount)
    → Memᴰ row rows
    → Memᴰ row (insert_row_of now row_id project_id account_id rows)
unfolding insert_row_of
Mem-insert_row_of now row_id project_id account_id row rows m =
    let new = new_row now row_id project_id account_id in
    if_cases (λ xs. Memᴰ row xs) (is_some (find_where _ rows)) rows (rows ++ new ∷ []) (λ _. m)
      (λ _. Mem-append row rows (new ∷ []) m)

Mem-insert_rows :
    (now row_id project_id : ℕ) (ids : List ℕ) (row : ProjectAccount) (rows : List ProjectAccount)
    → Memᴰ row rows
    → Memᴰ row (insert_rows now row_id project_id ids rows)
unfolding insert_rows
Mem-insert_rows now row_id project_id [] row rows m = m
Mem-insert_rows now row_id project_id (a ∷ ids) row rows m =
    Mem-insert_rows now (row_id + 1) project_id ids row (insert_row_of now row_id project_id a rows)
      (Mem-insert_row_of now row_id project_id a row rows m)

act_row-leased :
    (action : Action) (row : ProjectAccount)
    → is_leased row.status ≡ true
    → act_row action row ≡ row
unfolding act_row next_status is_leased
act_row-leased action row h = ground arith

-- Another row was written.
Mem-put_row :
    (db : Db) (new row : ProjectAccount)
    → (row.id == new.id) ≡ false
    → Memᴰ row db.rows
    → Memᴰ row (put_row db new).rows
unfolding put_row
Mem-put_row db new row h m = Mem-update_where (λ r. r.id == new.id) (λ _. new) row db.rows h m

may_claim-claimable :
    (locked : ℕ → Bool) (now project_id : ℕ) (row : ProjectAccount)
    → may_claim locked now project_id row ≡ true
    → is_claimable now row ≡ true
unfolding may_claim
may_claim-claimable locked now project_id row h = ground arith

not_claimable :
    (now : ℕ) (row : ProjectAccount)
    → is_leased row.status ≡ true
    → expired row.lease_expires_at now ≡ false
    → is_claimable now row ≡ false
unfolding is_claimable is_leased is_to_claim
not_claimable now row h k = ground arith

-- A row that differs from the one written, by a property that only one of them has.
written-keeps :
    (db : Db) (rows' : List ProjectAccount) (P : ProjectAccount → Bool)
    (old new row : ProjectAccount)
    → UniqueBy (λ r. r.id) db.rows
    → rows' ≡ (put_row db new).rows
    → new.id ≡ old.id
    → Memᴰ old db.rows
    → P old ≡ true
    → P row ≡ false
    → Memᴰ row db.rows
    → Memᴰ row rows'
written-keeps db rows' P old new row unique e same mem held free m =
    let only = UniqueBy-member (λ r. r.id) old db.rows unique mem in
    rw e (elim (Bool-cases (row.id == old.id)) [
      | inl hit ↦ absurd (
          cc (
            held,
            free,
            ap P (All-member (λ r. (r.id == old.id) ≡ true → r ≡ old) row db.rows only m hit),
          ))
      | inr miss ↦ Mem-put_row db new row (rw same miss) m
    ])

module _ (sha256 : String → String) where
  open-matches :
      (now : ℕ) (token : String) (row : ProjectAccount)
      → is_open_to sha256 now token row ≡ true
      → token_matches sha256 row.lease_token_hash token ≡ true
  unfolding is_open_to
  open-matches now token row h = ground arith

  -- A leased row stays as it is under every transaction of services/projects.py and under every
  -- deletion of another account, but for a transaction that shows its claim token and a claim after
  -- its expiry, where the ids of the rows are distinct: nobody else is given the account, ends the
  -- lease or extends it, and no manager's action touches it. The deletion of the row's own account,
  -- which deletes the row with it, is excepted.
  pub Step-keeps_row :
      {db db' : Db} (row : ProjectAccount) (st : Step sha256 db db')
      → UniqueBy (λ r. r.id) db.rows
      → Memᴰ row db.rows
      → is_leased row.status ≡ true
      → Spares sha256 row st
      → Memᴰ row db'.rows
  unfolding claim_row end_row cascade_account
  Step-keeps_row {db} row (claims locked now token project_id request) unique m busy k =
      elim (claim-rows sha256 locked now token project_id request db) [
        | inl e ↦ rw e m
        | inr (p, old, new, chosen, taken, e) ↦
            let (mem, free, first) = best-IsOldest locked now p.id db.rows old chosen in
            written-keeps db _ (is_claimable now) old new row unique e
              (elim taken [
                | inl q ↦ ap (λ (r : ProjectAccount). r.id) q
                | inr (secs, q) ↦ ap (λ (r : ProjectAccount). r.id) q
              ])
              mem (may_claim-claimable locked now p.id old free) (not_claimable now row busy k) m
      ]
  Step-keeps_row {db} row (heartbeats now later row_id token secs db' read e) unique m busy k =
      let (old, p, opened, found, done) =
        heartbeat-row sha256 now later row_id token secs db db' read e in
      let (mem, same, valid, there) = leased_row-valid sha256 now row_id token db old opened in
      written-keeps db _ (λ r. token_matches sha256 r.lease_token_hash token) old _ row unique
        done.0 refl mem (open-matches now token old valid) k m
  Step-keeps_row {db} row (finishes now later row_id token status result summary db' read ends e)
        unique m busy k =
      let (old, opened, done) =
        finish-row sha256 now later row_id token status result summary db db' read e in
      let (mem, same, valid, there) = leased_row-valid sha256 now row_id token db old opened in
      written-keeps db _ (λ r. token_matches sha256 r.lease_token_hash token) old _ row unique
        done.0 refl mem (open-matches now token old valid) k m
  Step-keeps_row {db} row (creates fresh payload db' read below e) unique m busy k =
      rw (create-rows fresh payload db db' read e) (Mem-append row db.rows _ m)
  Step-keeps_row {db} row (sets_status project_id status db' read e) unique m busy k =
      rw (set_status-rows project_id status db db' read e) m
  Step-keeps_row {db} row (adds fresh project_id ids db' read below e) unique m busy k =
      let (p, found, rows, rest) = add-rows fresh project_id ids db db' read e in
      rw rows (Mem-insert_rows fresh.now fresh.row_id p.id (existing_accounts db ids) row db.rows m)
  Step-keeps_row {db} row (acts project_id action ids db' answer e) unique m busy k =
      let (p, found, rows) = act-rows project_id action ids db db' answer e in
      rw rows (
        Mem-update_where_fixed (is_requested p.id (fromkeys ids)) (act_row action) row db.rows
          (act_row-leased action row busy) m)
  Step-keeps_row {db} row (deletes account_id) unique m busy k =
      Mem-select_where (λ r. not (r.account_id == account_id)) row db.rows (rw k refl) m
