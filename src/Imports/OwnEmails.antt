-- ===== src/Imports/OwnEmails.antt =====
-- Accounts whose addresses are all different, and items that may become one.
use smart_email_manager.Prelude.{
  ℕ, ◌≡◌, refl, String, Bool, true, false, ◌||◌, Option, none, some, List, [], ◌∷◌, ◌++◌, arith,
  if◌then◌else◌, if_cases, find_where, str_eq, is_some, All, All-append,
}
use smart_email_manager.Accounts.Model.{Account}
use smart_email_manager.Imports.Lines.{ItemStatus}
use smart_email_manager.Imports.Model.{ImportBatchItem, Db, email_exists}
use smart_email_manager.Imports.Commit.{item_is, both_texts, importable}

-- No two accounts have the same address.
abbrev pub HaveOwnEmails : List Account → Type 0
HaveOwnEmails [] = Unit
HaveOwnEmails (a ∷ rest) =
    All (λ b. str_eq a.email_normalized b.email_normalized ≡ false) rest × HaveOwnEmails rest

pub HaveOwnEmails-append :
    (new : Account) (rows : List Account)
    → All (λ a. str_eq a.email_normalized new.email_normalized ≡ false) rows
    → HaveOwnEmails rows
    → HaveOwnEmails (rows ++ new ∷ [])
HaveOwnEmails-append new [] h own = (tt, tt)
HaveOwnEmails-append new (a ∷ rows) h own = (
  All-append (λ b. str_eq a.email_normalized b.email_normalized ≡ false) rows (new ∷ []) own.0
      (h.0, tt),
  HaveOwnEmails-append new rows h.1 own.1,
)

missed {ℓ} :
    {A : Type ℓ} (t : Bool) (x : A) (o : Option A)
    → is_some (if t then some x else o) ≡ false
    → (t ≡ false) × (is_some o ≡ false)
missed true x o h = absurd (cc h)
missed false x o h = (refl, h)

find_where-missing {ℓ} :
    {A : Type ℓ} (p : A → Bool) (xs : List A)
    → is_some (find_where p xs) ≡ false
    → All (λ x. p x ≡ false) xs
unfolding find_where
find_where-missing p [] h = tt
find_where-missing p (x ∷ xs) h =
    let (first, rest) = missed (p x) x (find_where p xs) h in (first, find_where-missing p xs rest)

neither : (a b : Bool) → (a || b) ≡ false → a ≡ false
neither true b h = h
neither false b h = refl

-- The address of an added account is apart from those that were there.
pub email_exists-apart :
    (db : Db) (email : String)
    → email_exists db email ≡ false
    → All (λ a. str_eq a.email_normalized email ≡ false) db.base.accounts
unfolding email_exists
email_exists-apart db email h =
    find_where-missing (λ a. str_eq a.email_normalized email) db.base.accounts (neither _ _ h)

abbrev pub one_if_created : ImportBatchItem → ℕ
one_if_created item = if item_is ItemStatus.created item then 1 else 0

pub valid_not_created :
    (item : ImportBatchItem)
    → item_is ItemStatus.valid item ≡ true
    → item_is ItemStatus.created item ≡ false
valid_not_created item h = ground (arith, h)

pub importable-valid :
    (item : ImportBatchItem) (texts : String × String)
    → importable item ≡ some texts
    → item_is ItemStatus.valid item ≡ true
unfolding importable
importable-valid item texts =
    if_cases (λ o. o ≡ some texts → item_is ItemStatus.valid item ≡ true)
      (item_is ItemStatus.valid item) (both_texts item.email item.email_normalized) none (λ e _. e)
      (λ e h. absurd (cc h))
