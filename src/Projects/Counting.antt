-- ===== src/Projects/Counting.antt =====
-- The numbers that `mutate_project_accounts` answers.
use smart_email_manager.Prelude.{
  ℕ, ◌+◌, ◌-◌, ◌≤◌, ◌≡◌, refl, sym, ◌∙◌, Bool, true, false, ◌||◌, inl, inr, List, [], ◌∷◌, arith,
  ◌==◌, ==_iff, length, is_in, fromkeys, count_where, count_where-none, All-mono, UniqueBy,
  Bool-cases, not, if◌then◌else◌, is_some, update_where,
}
use smart_email_manager.Problem.{ok, Result-cases}
use smart_email_manager.Projects.Model.{
  WorkStatus, to_claim, leased, failed, removed, ProjectAccount, Db,
}
use smart_email_manager.Projects.Lease.{project_or_404}
use smart_email_manager.Projects.Act.{
  Action, reset_failed, remove, restore, next_status, act_row, is_requested, is_updated,
  ProjectAccountsActionResult, mutate_project_accounts,
}
use smart_email_manager.Projects.Changes.{act-rows}

-- A row's status, as a number.
unfoldable pub status_number : WorkStatus → ℕ
status_number to_claim = 0
status_number leased = 1
status_number WorkStatus.done = 2
status_number failed = 3
status_number removed = 4

unfoldable pub differs : ProjectAccount → ProjectAccount → Bool
differs row row' = not (status_number row.status == status_number row'.status)

-- How many rows of two tables, one before and one after, differ in their status.
unfoldable pub count_changed : List ProjectAccount → List ProjectAccount → ℕ
count_changed (row ∷ rows) (row' ∷ rows') =
    (if differs row row' then 1 else 0) + count_changed rows rows'
count_changed _ _ = 0

count_where-cover {ℓ} :
    {A : Type ℓ} (p q r : A → Bool) (xs : List A)
    → ((x : A) → p x ≡ true → (q x || r x) ≡ true)
    → count_where p xs ≤ count_where q xs + count_where r xs
unfolding count_where
count_where-cover p q r [] h = omega arith
count_where-cover p q r (x ∷ xs) h = ground (arith, h x, count_where-cover p q r xs h)

-- At most one row has a given key.
count_where-key {ℓ} :
    {A : Type ℓ} (key : A → ℕ) (n : ℕ) (xs : List A)
    → UniqueBy key xs
    → count_where (λ x. key x == n) xs ≤ 1
unfolding count_where
count_where-key key n [] h = omega arith
count_where-key key n (x ∷ xs) h = elim (Bool-cases (key x == n)) [
  | inl e ↦
      let none_left =
        count_where-none (λ y. key y == n) xs
          (All-mono (λ y. (key y == key x) ≡ false) (λ y. (key y == n) ≡ false) xs
            (λ y k. rw ((==_iff (key x) n).0 e) at k) h.0) in
      rw (e, none_left) (omega arith)
  | inr e ↦ rw e (omega (arith, count_where-key key n xs h.1))
]

count_where-never {ℓ} : {A : Type ℓ} (xs : List A) → count_where (λ _. false) xs ≡ 0
unfolding count_where
count_where-never [] = refl
count_where-never (x ∷ xs) = omega (arith, count_where-never xs)

-- At most as many rows have one of the given keys as there are keys.
count_where-keys {ℓ} :
    {A : Type ℓ} (key : A → ℕ) (p : A → Bool) (ns : List ℕ) (xs : List A)
    → UniqueBy key xs
    → ((x : A) → p x ≡ true → is_in (key x) ns ≡ true)
    → count_where p xs ≤ length ns
unfolding is_in
count_where-keys key p [] xs h k =
    let none_left = count_where-cover p (λ _. false) (λ _. false) xs (λ x e. k x e) in
    omega (arith, none_left, count_where-never xs)
count_where-keys key p (n ∷ ns) xs h k =
    let split = count_where-cover p (λ x. key x == n) (λ x. is_in (key x) ns) xs (λ x e. k x e) in
    let rest = count_where-keys key (λ x. is_in (key x) ns) ns xs h (λ x e. e) in
    omega (arith, split, rest, count_where-key key n xs h)

updated_requested :
    (action : Action) (project_id : ℕ) (ns : List ℕ) (row : ProjectAccount)
    → is_updated action project_id ns row ≡ true
    → is_in row.id ns ≡ true
unfolding is_updated is_requested
updated_requested action project_id ns row h = ground arith

act_row-differs :
    (action : Action) (row : ProjectAccount)
    → differs row (act_row action row) ≡ is_some (next_status action row.status)
unfolding differs status_number act_row next_status
act_row-differs reset_failed row = ground arith
act_row-differs remove row = ground arith
act_row-differs restore row = ground arith

same-row : (row : ProjectAccount) → differs row row ≡ false
unfolding differs
same-row row = ground arith

count_changed-act_row :
    (action : Action) (project_id : ℕ) (ns : List ℕ) (rows : List ProjectAccount)
    → count_changed rows (update_where (is_requested project_id ns) (act_row action) rows)
      ≡ count_where (is_updated action project_id ns) rows
unfolding count_changed update_where count_where is_updated
count_changed-act_row action project_id ns [] = refl
count_changed-act_row action project_id ns (row ∷ rows) =
    let rest = count_changed-act_row action project_id ns rows in
    elim (Bool-cases (is_requested project_id ns row)) [
      | inl e ↦ rw (e, act_row-differs action row, rest) refl
      | inr e ↦ rw (e, same-row row, rest) refl
    ]

-- With distinct row ids, the answer of a manager's action counts each requested row once: the updated
-- ones are as many as the rows of the table whose status the action changed, and they and the skipped
-- ones add up to the requested ones, so that none is counted below zero.
pub mutate-counts :
    (project_id : ℕ) (action : Action) (ids : List ℕ) (db db' : Db)
    (answer : ProjectAccountsActionResult)
    → UniqueBy (λ r. r.id) db.rows
    → mutate_project_accounts project_id action ids db ≡ ok (db', answer)
    → (answer.requested_count ≡ length (fromkeys ids))
      × (answer.updated_count ≡ count_changed db.rows db'.rows)
      × (answer.updated_count ≤ answer.requested_count)
      × (answer.updated_count + answer.skipped_count ≡ answer.requested_count)
unfolding mutate_project_accounts
mutate-counts project_id action ids db db' answer unique h =
    elim (Result-cases (project_or_404 db project_id)) [
      | inl (f, e) ↦ absurd (ground arith)
      | inr (p, e) ↦
          let ns = fromkeys ids in
          let bound =
            count_where-keys (λ r. r.id) (is_updated action p.id ns) ns db.rows unique
              (updated_requested action p.id ns) in
          let requested : answer.requested_count ≡ length ns = ground arith in
          let updated : answer.updated_count ≡ count_where (is_updated action p.id ns) db.rows =
            ground arith in
          let skipped : answer.skipped_count
              ≡ length ns - count_where (is_updated action p.id ns) db.rows =
            ground arith in
          let (p', e', rows) = act-rows project_id action ids db db' answer h in
          let same : p' ≡ p = ground arith in
          (
            requested,
            updated ∙ sym (rw (rows, same) (count_changed-act_row action p.id ns db.rows)),
            omega (arith, bound, requested, updated),
            omega (arith, bound, requested, updated, skipped),
          )
    ]
