-- ===== src/Imports/Leftover.antt =====
-- What the items of a rollback leave of an account.
use smart_email_manager.Prelude.{
  find_where-deleted, find_where-kept, ℕ, suc, ◌≡◌, refl, sym, ap, ◌∙◌, Bool, true, false, ◌||◌,
  Option, none, some, List, [], ◌∷◌, arith, ◌==◌, ==_iff, if◌then◌else◌, Option-cases, Bool-cases,
  some-injective, inl, inr,
}
use smart_email_manager.Accounts.Model.{Account, get_account, delete_account}
use smart_email_manager.Accounts.Later.{get_account-found}
use smart_email_manager.Imports.Model.{ImportBatchItem, Db, delete_imported}
use smart_email_manager.Imports.Rollback.{unchanged_account, created_account, rollback_items}

abbrev pub is_id : ℕ → Option ℕ → Bool
is_id id none = false
is_id id (some other) = other == id

-- One of the items created the account.
unfoldable pub is_created_by : ℕ → List ImportBatchItem → Bool
is_created_by id [] = false
is_created_by id (item ∷ items) = is_id id (created_account item) || is_created_by id items

-- An account after a rollback of items that created it, or of items that did not.
abbrev pub left_over : Bool → Option Account → Option Account
left_over created none = none
left_over false (some account) = some account
left_over true (some account) = if account.row_version == 1 then none else some account

left_over-false : (o : Option Account) → left_over false o ≡ o
left_over-false none = refl
left_over-false (some a) = refl

left_over-none : (b : Bool) → left_over b none ≡ none
left_over-none true = refl
left_over-none false = refl

kept-none : (t : Bool) (a : Account) → (if t then some a else none) ≡ none → t ≡ false
kept-none true a h = absurd (cc h)
kept-none false a h = refl

kept-some :
    (t : Bool) (a b : Account) → (if t then some b else none) ≡ some a → (b ≡ a) × (t ≡ true)
kept-some true a b h = (some-injective b a h, refl)
kept-some false a b h = absurd (cc h)

-- A guarded account stays, whatever other items do.
left_over-guarded :
    (id : ℕ) (b : Bool) (db : Db)
    → unchanged_account id db ≡ none
    → left_over b (get_account db.base id) ≡ get_account db.base id
unfolding unchanged_account
left_over-guarded id b db = go b (get_account db.base id)
  where
    go :
        (b : Bool) (o : Option Account)
        → elim o as (λ _. Option Account) [
          | none ↦ none
          | some account ↦ if account.row_version == 1 then some account else none
        ]
          ≡ none
        → left_over b o ≡ o
    go b none h = left_over-none b
    go false (some a) h = refl
    go true (some a) h = rw (kept-none (a.row_version == 1) a h) refl

unchanged_account-found :
    (id : ℕ) (db : Db) (a : Account)
    → unchanged_account id db ≡ some a
    → (get_account db.base id ≡ some a) × (a.row_version == 1 ≡ true)
unfolding unchanged_account
unchanged_account-found id db a = go (get_account db.base id)
  where
    go :
        (o : Option Account)
        → elim o as (λ _. Option Account) [
          | none ↦ none
          | some account ↦ if account.row_version == 1 then some account else none
        ]
          ≡ some a
        → (o ≡ some a) × (a.row_version == 1 ≡ true)
    go none h = absurd (cc h)
    go (some b) h =
        let (same, first) = kept-some (b.row_version == 1) a b h in
        (ap some same, ap (λ x. x.row_version == 1) (sym same) ∙ first)

module _ (item : ImportBatchItem) (items : List ImportBatchItem) (db : Db) where
  rollback-other :
      created_account item ≡ none
      → (rollback_items (item ∷ items) db).0 ≡ (rollback_items items db).0
  unfolding rollback_items
  rollback-other e = rw (rollback_items, e) refl

  rollback-guarded :
      (id : ℕ)
      → created_account item ≡ some id
      → unchanged_account id db ≡ none
      → (rollback_items (item ∷ items) db).0 ≡ (rollback_items items db).0
  unfolding rollback_items
  rollback-guarded id e k = rw (rollback_items, e, k) refl

  rollback-deletes :
      (id : ℕ) (a : Account)
      → created_account item ≡ some id
      → unchanged_account id db ≡ some a
      → (rollback_items (item ∷ items) db).0 ≡ (rollback_items items (delete_imported a.id db)).0
  unfolding rollback_items
  rollback-deletes id a e k = rw (rollback_items, e, k) refl

is_created_by-other :
    (id : ℕ) (item : ImportBatchItem) (items : List ImportBatchItem)
    → created_account item ≡ none
    → is_created_by id (item ∷ items) ≡ is_created_by id items
unfolding is_created_by
is_created_by-other id item items e = rw (is_created_by, e) refl

is_created_by-some :
    (id own : ℕ) (item : ImportBatchItem) (items : List ImportBatchItem)
    → created_account item ≡ some own
    → is_created_by id (item ∷ items) ≡ (own == id || is_created_by id items)
unfolding is_created_by
is_created_by-some id own item items e = rw (is_created_by, e) refl

get_account-deleted :
    (id own : ℕ) (db : Db)
    → (own == id) ≡ true
    → get_account (delete_imported own db).base id ≡ none
unfolding get_account delete_imported delete_account
get_account-deleted id own db h =
    find_where-deleted (λ a. a.id) id own db.base.accounts (ground (arith, h))

get_account-kept :
    (id own : ℕ) (db : Db)
    → (own == id) ≡ false
    → get_account (delete_imported own db).base id ≡ get_account db.base id
unfolding get_account delete_imported delete_account
get_account-kept id own db h =
    find_where-kept (λ a. a.id) id own db.base.accounts (ground (arith, h))

guarded_step :
    (id own : ℕ) (c : Bool) (db : Db)
    → unchanged_account own db ≡ none
    → left_over c (get_account db.base id) ≡ left_over (own == id || c) (get_account db.base id)
guarded_step id own c db h = elim (Bool-cases (own == id)) [
  | inl e ↦
      let here : unchanged_account id db ≡ none =
        ap (λ n. unchanged_account n db) (sym ((==_iff own id).0 e)) ∙ h in
      left_over-guarded id c db here ∙ sym (left_over-guarded id (own == id || c) db here)
  | inr e ↦ rw e refl
]

deleted_step :
    (id own : ℕ) (c : Bool) (db : Db) (a : Account)
    → unchanged_account own db ≡ some a
    → left_over c (get_account (delete_imported a.id db).base id)
      ≡ left_over (own == id || c) (get_account db.base id)
deleted_step id own c db a h =
    let (found, first) = unchanged_account-found own db a h in
    let same : a.id ≡ own = get_account-found db.base own a found in
    elim (Bool-cases (own == id)) [
      | inl e ↦
          let here : get_account db.base id ≡ some a =
            ap (λ n. get_account db.base n) (sym ((==_iff own id).0 e)) ∙ found in
          rw (same, get_account-deleted id own db e, left_over-none c, here, e) (rw first refl)
      | inr e ↦ rw (same, get_account-kept id own db e, e) refl
    ]

pub rollback_items-left :
    (id : ℕ) (items : List ImportBatchItem) (db : Db)
    → get_account (rollback_items items db).0.base id
      ≡ left_over (is_created_by id items) (get_account db.base id)
unfolding rollback_items is_created_by
rollback_items-left id [] db = sym (left_over-false (get_account db.base id))
rollback_items-left id (item ∷ items) db = elim (Option-cases (created_account item)) [
  | inl e ↦
      rw (rollback-other item items db e, is_created_by-other id item items e)
        (rollback_items-left id items db)
  | inr (own, e) ↦ elim (Option-cases (unchanged_account own db)) [
    | inl k ↦
        rw (rollback-guarded item items db own e k, is_created_by-some id own item items e)
          (rollback_items-left id items db ∙ guarded_step id own (is_created_by id items) db k)
    | inr (a, k) ↦
        rw (rollback-deletes item items db own a e k, is_created_by-some id own item items e)
          (rollback_items-left id items (delete_imported a.id db)
            ∙ deleted_step id own (is_created_by id items) db a k)
  ]
]

module _ (item : ImportBatchItem) (items : List ImportBatchItem) (db : Db) where
  guards-other :
      created_account item ≡ none
      → (rollback_items (item ∷ items) db).2 ≡ (rollback_items items db).2
  unfolding rollback_items
  guards-other e = rw (rollback_items, e) refl

  guards-guarded :
      (id : ℕ)
      → created_account item ≡ some id
      → unchanged_account id db ≡ none
      → (rollback_items (item ∷ items) db).2 ≡ suc (rollback_items items db).2
  unfolding rollback_items
  guards-guarded id e k = rw (rollback_items, e, k) refl

  guards-deletes :
      (id : ℕ) (a : Account)
      → created_account item ≡ some id
      → unchanged_account id db ≡ some a
      → (rollback_items (item ∷ items) db).2 ≡ (rollback_items items (delete_imported a.id db)).2
  unfolding rollback_items
  guards-deletes id a e k = rw (rollback_items, e, k) refl

-- Where no item was guarded, no account is left that an item created.
pub rollback_items-none_left :
    (id : ℕ) (items : List ImportBatchItem) (db : Db)
    → (rollback_items items db).2 ≡ 0
    → is_created_by id items ≡ true
    → get_account (rollback_items items db).0.base id ≡ none
unfolding is_created_by
rollback_items-none_left id [] db h c = absurd (cc c)
rollback_items-none_left id (item ∷ items) db h c = elim (Option-cases (created_account item)) [
  | inl e ↦ rw (rollback-other item items db e) (
      rollback_items-none_left id items db (sym (guards-other item items db e) ∙ h)
        (sym (is_created_by-other id item items e) ∙ c))
  | inr (own, e) ↦ elim (Option-cases (unchanged_account own db)) [
    | inl k ↦ absurd (omega (arith, guards-guarded item items db own e k, h))
    | inr (a, k) ↦
        let (found, first) = unchanged_account-found own db a k in
        let same : a.id ≡ own = get_account-found db.base own a found in
        let next = delete_imported a.id db in
        rw (rollback-deletes item items db own a e k) (elim (Bool-cases (own == id)) [
          | inl hit ↦
              rollback_items-left id items next
              ∙ rw (same, get_account-deleted id own db hit)
                  (left_over-none (is_created_by id items))
          | inr miss ↦
              rollback_items-none_left id items next
                (sym (guards-deletes item items db own a e k) ∙ h)
                (ground (arith, miss, sym (is_created_by-some id own item items e) ∙ c))
        ])
  ]
]
