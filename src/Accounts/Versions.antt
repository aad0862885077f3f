-- ===== src/Accounts/Versions.antt =====
-- The row version of an account as an optimistic lock.
use smart_email_manager.Prelude.{
  find_where-appended, [], ◌∷◌, ◌++◌, subst, is_in, ℕ, ◌+◌, ◌≡◌, refl, ap, ◌∙◌, String, false, some,
  List, arith, ◌==◌, inl, inr, find_where, update_where,
}
use smart_email_manager.Problem.{ok, err, problem}
use smart_email_manager.Accounts.Model.{delete_account, Account, Db, get_account, put_account}
use smart_email_manager.Accounts.Bulk.{
  AccountBulkChanges, AccountBulkResult, bulk_mutate_accounts, changed_account,
}
use smart_email_manager.Accounts.Inversion.{
  update_account-writes, create_account-writes, purge_account-writes, archive_account-writes,
  bulk_mutate_accounts-writes,
}
use smart_email_manager.Accounts.Edit.{
  AccountCreate, create_account, purge_account, AccountUpdate, get_account_or_404, check_version,
  updated_account, update_account, archive_account,
}
use smart_email_manager.Accounts.Later.{
  get_account-put_account, Later, Later-refl, Later-trans, Later-update_where, Later-put_account,
  Later-deleted,
}

-- The transactions of services/accounts.py that succeed, but for one that gives a new account the
-- id `id`: a new id is never one that was given before.
pub data Step (lower : String → String) (id : ℕ) (db db' : Db) : Type 0 where
  created :
      (own now : ℕ) (payload : AccountCreate) (account : Account)
      → (own == id) ≡ false
      → create_account lower own now payload db ≡ ok (db', account)
      → Step lower id db db'
  updated :
      (own : ℕ) (payload : AccountUpdate) (account : Account)
      → update_account lower own payload db ≡ ok (db', account)
      → Step lower id db db'
  archived_one :
      (own row_version : ℕ) (account : Account)
      → archive_account own row_version db ≡ ok (db', account)
      → Step lower id db db'
  purged :
      (own : ℕ) (confirm_email : String)
      → purge_account lower own confirm_email db ≡ ok db'
      → Step lower id db db'
  mutated :
      (account_ids : List ℕ) (changes : AccountBulkChanges) (result : AccountBulkResult)
      → bulk_mutate_accounts account_ids changes db ≡ ok (db', result)
      → Step lower id db db'

pub data Reach (lower : String → String) (id : ℕ) : Db → Db → Type 0 where
  done : {db : Db} → Reach lower id db db
  next :
      {db db' db'' : Db} → Step lower id db db' → Reach lower id db' db'' → Reach lower id db db''

-- The tables of two states have the same accounts, so a search finds the same.
Later-accounts :
    (db db' : Db) (id : ℕ) (rows : List Account)
    → db'.accounts ≡ rows
    → Later (get_account db id) (find_where (λ a. a.id == id) rows)
    → Later (get_account db id) (get_account db' id)
unfolding get_account
Later-accounts db db' id rows e h = rw e h

pub Step-Later :
    (lower : String → String) (id : ℕ) (db db' : Db)
    → Step lower id db db'
    → Later (get_account db id) (get_account db' id)
unfolding get_account put_account delete_account
Step-Later lower id db db' (created own now payload account fresh h) =
    let (same, written) = create_account-writes lower own now payload db db' account h in
    Later-accounts db db' id (db.accounts ++ account ∷ []) written (
      rw (find_where-appended (λ a. a.id) id account db.accounts (ap (λ n. n == id) same ∙ fresh))
        (Later-refl (find_where (λ a. a.id == id) db.accounts)))
Step-Later lower id db db' (updated own payload account h) =
    let (old, found, version, row, written) =
      update_account-writes lower own payload db db' account h in
    Later-accounts db db' id (put_account db account).accounts (ap (λ d. d.accounts) written) (
      Later-put_account db id own old account found (ap (λ a. a.id) row)
        (omega (arith, ap (λ a. a.row_version) row)))
Step-Later lower id db db' (archived_one own row_version account h) =
    let (old, found, version, same, later, written) =
      archive_account-writes own row_version db db' account h in
    Later-accounts db db' id (put_account db account).accounts written
      (Later-put_account db id own old account found same (omega (arith, later)))
Step-Later lower id db db' (purged own confirm_email h) =
    let (old, found, written) = purge_account-writes lower own confirm_email db db' h in
    Later-accounts db db' id (delete_account old.id db).accounts written
      (Later-deleted id old.id db.accounts)
Step-Later lower id db db' (mutated account_ids changes result h) =
    let (ids, written) = bulk_mutate_accounts-writes account_ids changes db db' result h in
    Later-accounts db db' id
      (update_where (λ a. is_in a.id ids) (changed_account changes) db.accounts) written
      (Later-update_where id (λ a. is_in a.id ids) (changed_account changes) db.accounts
        (λ a _. refl) (λ a _ _. omega arith))

pub Reach-Later :
    (lower : String → String) (id : ℕ) (db db' : Db)
    → Reach lower id db db'
    → Later (get_account db id) (get_account db' id)
Reach-Later lower id db db' (done) = Later-refl (get_account db id)
Reach-Later lower id db db' (next {db' = middle} s r) =
    Later-trans (get_account db id) (get_account middle id) (get_account db' id)
      (Step-Later lower id db middle s) (Reach-Later lower id middle db' r)

Later-same : (a b : Account) → Later (some a) (some b) → b.row_version ≡ a.row_version → b ≡ a
Later-same a b (inl e) h = e
Later-same a b (inr e) h = absurd (omega (arith, e, h))

get_account_or_404-some :
    (id : ℕ) (db : Db) (a : Account) → get_account db id ≡ some a → get_account_or_404 id db ≡ ok a
unfolding get_account_or_404
get_account_or_404-some id db a found = rw (get_account_or_404, found) refl

check_version-stale :
    (version : ℕ) (a : Account)
    → (a.row_version == version) ≡ false
    → check_version version a ≡ err (problem 409 "ACCOUNT_VERSION_CONFLICT")
unfolding check_version
check_version-stale version a stale = rw stale refl

update-stale :
    (lower : String → String) (id : ℕ) (payload : AccountUpdate) (db : Db) (a : Account)
    → get_account db id ≡ some a
    → (a.row_version == payload.row_version) ≡ false
    → update_account lower id payload db ≡ err (problem 409 "ACCOUNT_VERSION_CONFLICT")
unfolding update_account
update-stale lower id payload db a found stale =
    rw (get_account_or_404-some id db a found, check_version-stale payload.row_version a stale) refl

archive-stale :
    (id version : ℕ) (db : Db) (a : Account)
    → get_account db id ≡ some a
    → (a.row_version == version) ≡ false
    → archive_account id version db ≡ err (problem 409 "ACCOUNT_VERSION_CONFLICT")
unfolding archive_account
archive-stale id version db a found stale =
    rw (get_account_or_404-some id db a found, check_version-stale version a stale) refl

-- Where a client read an account, any transactions of the service followed, none of which created
-- an account under its id, and an update with the row version that the client read then succeeds,
-- the row that the update changes is the one that was read: no change in between is lost. The
-- answer is that row with the fields of the request and the next row version, it is what a read
-- then finds, and no further update or archival with the version that was read succeeds.
pub update-loses_nothing :
    (lower : String → String) (id : ℕ) (before between after : Db) (payload : AccountUpdate)
    (read answer : Account)
    → get_account before id ≡ some read
    → payload.row_version ≡ read.row_version
    → Reach lower id before between
    → update_account lower id payload between ≡ ok (after, answer)
    → (get_account between id ≡ some read)
      × (answer ≡ updated_account lower payload read)
      × (get_account after id ≡ some answer)
      × ((other : AccountUpdate)
          → other.row_version ≡ read.row_version
          → update_account lower id other after ≡ err (problem 409 "ACCOUNT_VERSION_CONFLICT"))
      × (archive_account id read.row_version after ≡ err (problem 409 "ACCOUNT_VERSION_CONFLICT"))
update-loses_nothing lower id before between after payload read answer seen same reached h =
    let (old, found, version, row, written) =
      update_account-writes lower id payload between after answer h in
    let later : Later (some read) (some old) =
      subst (λ o. Later o (some old)) seen
        (subst (λ o. Later (get_account before id) o) found
          (Reach-Later lower id before between reached)) in
    let kept : old ≡ read = Later-same read old later (version ∙ same) in
    let stored : get_account after id ≡ some answer =
      rw written (get_account-put_account between id old answer found (ap (λ a. a.id) row)) in
    let changed : answer ≡ updated_account lower payload read =
      row ∙ ap (λ a. updated_account lower payload a) kept in
    let apart : answer.row_version ≡ read.row_version + 1 = ap (λ a. a.row_version) changed in
    (
      found ∙ ap some kept,
      changed,
      stored,
      λ other e. update-stale lower id other after answer stored (ground (arith, apart, e)),
      archive-stale id read.row_version after answer stored (ground (arith, apart)),
    )
