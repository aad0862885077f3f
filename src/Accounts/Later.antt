-- ===== src/Accounts/Later.antt =====
-- What becomes of the row of one account when rows are written, deleted and added.
use mathlib.Core.Option
use smart_email_manager.Prelude.{
  find_where-deleted, find_where-kept, not, select_where, ◌<◌, ◌⊎◌, some-injective, ℕ, ◌≡◌, refl,
  sym, ap, ◌∙◌, Bool, true, Option, none, some, List, arith, ◌==◌, ==_iff, if◌then◌else◌, if_cases,
  Bool-cases, inl, inr, find_where, update_where, find_where-update_where, find_where-member,
}
use smart_email_manager.Accounts.Model.{Account, Db, get_account, put_account}

pub get_account-found : (db : Db) (id : ℕ) (a : Account) → get_account db id ≡ some a → a.id ≡ id
unfolding get_account
get_account-found db id a e =
    (==_iff a.id id).0 (find_where-member (λ b. b.id == id) db.accounts a e).1

-- A row that is written is the one that a later read finds.
pub get_account-put_account :
    (db : Db) (id : ℕ) (old new : Account)
    → get_account db id ≡ some old
    → new.id ≡ old.id
    → get_account (put_account db new) id ≡ some new
unfolding get_account put_account
get_account-put_account db id old new e same =
    let own : old.id ≡ id = get_account-found db id old e in
    find_where-update_where (λ a. a.id == id) (λ a. a.id == new.id) (λ _. new) db.accounts
      (λ a. ground (arith, own, same))
    ∙ rw e (ground (arith, same))

-- What may become of an account: it is gone, as it was, or at a later version.
abbrev pub Later : Option Account → Option Account → Type 0
Later none none = Unit
Later none (some b) = ⊥
Later (some a) none = Unit
Later (some a) (some b) = (b ≡ a) ⊎ (a.row_version < b.row_version)

pub Later-refl : (o : Option Account) → Later o o
Later-refl none = tt
Later-refl (some a) = inl refl

pub Later-trans : (o p q : Option Account) → Later o p → Later p q → Later o q
Later-trans none none none h k = tt
Later-trans none none (some c) h k = k
Later-trans none (some b) q h k = absurd h
Later-trans (some a) p none h k = tt
Later-trans (some a) none (some c) h k = absurd k
Later-trans (some a) (some b) (some c) (inl e) (inl k) = inl (k ∙ e)
Later-trans (some a) (some b) (some c) (inl e) (inr k) =
    inr (omega (arith, k, ap (λ x. x.row_version) e))
Later-trans (some a) (some b) (some c) (inr e) (inl k) =
    inr (omega (arith, e, ap (λ x. x.row_version) k))
Later-trans (some a) (some b) (some c) (inr e) (inr k) = inr (omega (arith, e, k))

Later-none : (o : Option Account) → Later o none
Later-none none = tt
Later-none (some a) = tt

Later-map :
    (f : Account → Account) (o : Option Account)
    → ((a : Account) → o ≡ some a → (f a ≡ a) ⊎ (a.row_version < (f a).row_version))
    → Later o (Option.map f o)
Later-map f none h = tt
Later-map f (some a) h = h a refl

-- Rows that an update changes move to a later version.
pub Later-update_where :
    (id : ℕ) (p : Account → Bool) (f : Account → Account) (rows : List Account)
    → ((a : Account) → p a ≡ true → (f a).id ≡ a.id)
    → ((a : Account)
        → find_where (λ a. a.id == id) rows ≡ some a
        → p a ≡ true
        → a.row_version < (f a).row_version)
    → Later
        (find_where (λ a. a.id == id) rows)
        (find_where (λ a. a.id == id) (update_where p f rows))
Later-update_where id p f rows same later =
    rw
      (find_where-update_where (λ a. a.id == id) p f rows
        (λ a.
          if_cases (λ b. (b.id == id) ≡ (a.id == id)) (p a) (f a) a
            (λ e. ap (λ n. n == id) (same a e)) (λ _. refl)))
      (Later-map (λ a. if p a then f a else a) (find_where (λ a. a.id == id) rows)
        (λ a found.
          if_cases (λ b. (b ≡ a) ⊎ (a.row_version < b.row_version)) (p a) (f a) a
            (λ e. inr (later a found e)) (λ _. inl refl)))

pub Later-put_account :
    (db : Db) (id own : ℕ) (old new : Account)
    → get_account db own ≡ some old
    → new.id ≡ old.id
    → old.row_version < new.row_version
    → Later (get_account db id) (get_account (put_account db new) id)
unfolding get_account put_account
Later-put_account db id own old new e same newer =
    Later-update_where id (λ a. a.id == new.id) (λ _. new) db.accounts (λ a k. ground (arith, k))
      (λ a found k.
        let here : a.id ≡ id = get_account-found db id a found in
        let there : old.id ≡ own = get_account-found db own old e in
        let one : id ≡ own = sym here ∙ (==_iff a.id new.id).0 k ∙ same ∙ there in
        let row : a ≡ old = some-injective a old (sym found ∙ ap (get_account db) one ∙ e) in
        omega (arith, newer, ap (λ x. x.row_version) row))

pub Later-deleted :
    (id own : ℕ) (rows : List Account)
    → Later
        (find_where (λ a. a.id == id) rows)
        (find_where (λ a. a.id == id) (select_where (λ a. not (a.id == own)) rows))
Later-deleted id own rows = elim (Bool-cases (id == own)) [
  | inl h ↦
      rw (find_where-deleted (λ a. a.id) id own rows h)
        (Later-none (find_where (λ a. a.id == id) rows))
  | inr h ↦
      rw (find_where-kept (λ a. a.id) id own rows h)
        (Later-refl (find_where (λ a. a.id == id) rows))
]
