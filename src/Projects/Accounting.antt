-- ===== src/Projects/Accounting.antt =====
-- The accounts of a project: how the counts add up, and that adding accounts twice adds them once.
use smart_email_manager.Prelude.{
  ℕ, ◌+◌, ◌≡◌, refl, sym, ◌∙◌, true, inl, inr, List, [], ◌∷◌, ◌++◌, arith, ◌==◌, if_cases, is_some,
  find_where, All, is_in, subst, ==_iff, Bool-cases, Option-cases,
}
use smart_email_manager.Problem.{ok}
use smart_email_manager.Projects.Model.{WorkProject, ProjectAccount, Db, get_project}
use smart_email_manager.Projects.Manage.{
  ProjectRead, new_row, is_row_of, insert_row_of, insert_rows, existing_accounts, Fresh, all_exist,
  add_project_accounts,
}
use smart_email_manager.Projects.Lease.{project_or_404}
use smart_email_manager.Projects.Oldest.{get_project-id}
use smart_email_manager.Projects.Changes.{add-rows}

module _ (project_id : ℕ) where
  -- The project has a row for the account.
  abbrev pub Has : List ProjectAccount → ℕ → Type 0
  Has rows account_id = is_some (find_where (is_row_of project_id account_id) rows) ≡ true

  Has-append :
      (account_id : ℕ) (rows more : List ProjectAccount)
      → Has rows account_id
      → Has (rows ++ more) account_id
  unfolding find_where
  Has-append account_id [] more h = absurd (cc h)
  Has-append account_id (r ∷ rows) more h = ground (arith, Has-append account_id rows more)

  Has-new :
      (now row_id account_id : ℕ) (rows : List ProjectAccount)
      → Has (rows ++ new_row now row_id project_id account_id ∷ []) account_id
  unfolding find_where is_row_of new_row
  Has-new now row_id account_id [] = ground arith
  Has-new now row_id account_id (r ∷ rows) = ground (arith, Has-new now row_id account_id rows)

  insert_row_of-Has :
      (now row_id account_id : ℕ) (rows : List ProjectAccount)
      → Has (insert_row_of now row_id project_id account_id rows) account_id
  unfolding insert_row_of
  insert_row_of-Has now row_id account_id rows =
      if_cases (λ xs. Has xs account_id)
        (is_some (find_where (is_row_of project_id account_id) rows)) rows
        (rows ++ new_row now row_id project_id account_id ∷ []) (λ e. e)
        (λ _. Has-new now row_id account_id rows)

  Has-insert_row_of :
      (now row_id account_id other : ℕ) (rows : List ProjectAccount)
      → Has rows other
      → Has (insert_row_of now row_id project_id account_id rows) other
  unfolding insert_row_of
  Has-insert_row_of now row_id account_id other rows h =
      if_cases (λ xs. Has xs other) (is_some (find_where (is_row_of project_id account_id) rows))
        rows (rows ++ new_row now row_id project_id account_id ∷ []) (λ _. h)
        (λ _. Has-append other rows (new_row now row_id project_id account_id ∷ []) h)

  Has-insert_rows :
      (now row_id : ℕ) (ids : List ℕ) (other : ℕ) (rows : List ProjectAccount)
      → Has rows other
      → Has (insert_rows now row_id project_id ids rows) other
  unfolding insert_rows
  Has-insert_rows now row_id [] other rows h = h
  Has-insert_rows now row_id (a ∷ ids) other rows h =
      Has-insert_rows now (row_id + 1) ids other (insert_row_of now row_id project_id a rows)
        (Has-insert_row_of now row_id a other rows h)

  insert_rows-Has :
      (now row_id : ℕ) (ids : List ℕ) (rows : List ProjectAccount)
      → All (Has (insert_rows now row_id project_id ids rows)) ids
  unfolding insert_rows
  insert_rows-Has now row_id [] rows = tt
  insert_rows-Has now row_id (a ∷ ids) rows =
      let rows' = insert_row_of now row_id project_id a rows in
      (
        Has-insert_rows now (row_id + 1) ids a rows' (insert_row_of-Has now row_id a rows),
        insert_rows-Has now (row_id + 1) ids rows',
      )

  insert_rows-again :
      (now row_id : ℕ) (ids : List ℕ) (rows : List ProjectAccount)
      → All (Has rows) ids
      → insert_rows now row_id project_id ids rows ≡ rows
  unfolding insert_rows insert_row_of
  insert_rows-again now row_id [] rows h = refl
  insert_rows-again now row_id (a ∷ ids) rows h =
      rw h.0 (insert_rows-again now (row_id + 1) ids rows h.1)

All-is_in {ℓ} : (P : ℕ → Type ℓ) (n : ℕ) (ns : List ℕ) → is_in n ns ≡ true → All P ns → P n
unfolding is_in
All-is_in P n [] h k = absurd (cc h)
All-is_in P n (m ∷ ns) h k = elim (Bool-cases (n == m)) [
  | inl e ↦ subst P (sym ((==_iff n m).0 e)) k.0
  | inr e ↦ All-is_in P n ns (ground arith) k.1
]

All-all_exist {ℓ} :
    (P : ℕ → Type ℓ) (existing ids : List ℕ)
    → all_exist existing ids ≡ true
    → All P existing
    → All P ids
unfolding all_exist
All-all_exist P existing [] h k = tt
All-all_exist P existing (n ∷ ns) h k =
    (All-is_in P n existing (ground arith) k, All-all_exist P existing ns (ground arith) k)

project-id :
    (db : Db) (id : ℕ) (project : WorkProject) → project_or_404 db id ≡ ok project → project.id ≡ id
unfolding project_or_404
project-id db id project h = elim (Option-cases (get_project db id)) [
  | inl e ↦ absurd (ground arith)
  | inr (p, e) ↦ get_project-id db id project (ground arith)
]

existing-same :
    (db db' : Db) (ids : List ℕ)
    → db'.accounts ≡ db.accounts
    → existing_accounts db' ids ≡ existing_accounts db ids
unfolding existing_accounts
existing-same db db' ids e = rw e refl

-- Adding accounts to a project gives it a row for each requested account, and adding the same
-- accounts again, at any time and under any new ids, adds no row and changes none.
pub add-once :
    (fresh again : Fresh) (project_id : ℕ) (account_ids : List ℕ) (db db' db'' : Db)
    (read read' : ProjectRead)
    → add_project_accounts fresh project_id account_ids db ≡ ok (db', read)
    → add_project_accounts again project_id account_ids db' ≡ ok (db'', read')
    → All (Has project_id db'.rows) account_ids × (db''.rows ≡ db'.rows)
add-once fresh again project_id ids db db' db'' read read' h k =
    let (p, found, rows, (exist, same, accounts)) = add-rows fresh project_id ids db db' read h in
    let (q, found', rows', rest) = add-rows again project_id ids db' db'' read' k in
    let existing = existing_accounts db ids in
    let has : All (Has project_id db'.rows) existing =
      rw (rows, project-id db project_id p found)
        (insert_rows-Has project_id fresh.now fresh.row_id existing db.rows) in
    (
      All-all_exist (Has project_id db'.rows) existing ids exist has,
      rows'
          ∙ rw (existing-same db db' ids accounts, project-id db' project_id q found')
              (insert_rows-again project_id again.now again.row_id existing db'.rows has),
    )
