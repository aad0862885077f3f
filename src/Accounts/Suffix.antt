-- ===== src/Accounts/Suffix.antt =====
-- What the cursor of an account cuts off the ordered table of accounts, and what a page of it is.
use smart_email_manager.Prelude.{
  ℕ, zero, suc, ◌≡◌, refl, ap, ◌∙◌, Bool, true, false, ◌&&◌, none, some, List, [], ◌∷◌, ◌++◌, arith,
  ltb, ◌==◌, length, select_where, take_rows, order_rows, All, All-order_rows, All-insert_row,
  insert_row, if_cases, IsSorted, WeakOrder, UniqueBy,
}
use smart_email_manager.Accounts.Model.{Account}
use smart_email_manager.Accounts.Pages.{newer, past_cursor, cursor_at, last_of}

pub newer-WeakOrder : WeakOrder newer
unfolding newer
newer-WeakOrder = record { asym = λ a b h. ground arith; skips = λ a b c h k. ground arith }

-- The cursor at an account selects what the order puts behind it.
past_cursor-newer : (a b : Account) → past_cursor (some (cursor_at a)) b ≡ newer a b
unfolding newer past_cursor
past_cursor-newer a b = ground arith

apart_newer : (a b : Account) → newer b a ≡ false → (b.id == a.id) ≡ false → newer a b ≡ true
unfolding newer
apart_newer a b h k = ground arith

newer_irrefl : (a : Account) → newer a a ≡ false
unfolding newer
newer_irrefl a = ground arith

All-mono2 {ℓ} :
    {A : Type ℓ} (P Q R : A → Type 0) (xs : List A)
    → ((x : A) → P x → Q x → R x)
    → All P xs
    → All Q xs
    → All R xs
All-mono2 P Q R [] f h k = tt
All-mono2 P Q R (x ∷ xs) f h k = (f x h.0 k.0, All-mono2 P Q R xs f h.1 k.1)

All-at {ℓ} :
    {A : Type ℓ} (P : A → Type 0) (front : List A) (a : A) (rest : List A)
    → All P (front ++ a ∷ rest)
    → P a
All-at P [] a rest h = h.0
All-at P (x ∷ front) a rest h = All-at P front a rest h.1

pub select_where-true {ℓ} :
    {A : Type ℓ} (p : A → Bool) (xs : List A) → All (λ x. p x ≡ true) xs → select_where p xs ≡ xs
unfolding select_where
select_where-true p [] h = refl
select_where-true p (x ∷ xs) h = rw h.0 (ap (λ ys. x ∷ ys) (select_where-true p xs h.1))

pub select_where-and {ℓ} :
    {A : Type ℓ} (p q : A → Bool) (xs : List A)
    → select_where (λ x. p x && q x) xs ≡ select_where q (select_where p xs)
unfolding select_where
select_where-and p q [] = refl
select_where-and p q (x ∷ xs) = ground (arith, select_where-and p q xs)

-- In the order of the table, what is past the account `a` is what stands behind it.
pub past-suffix :
    (front : List Account) (a : Account) (rest : List Account)
    → IsSorted newer (front ++ a ∷ rest)
    → UniqueBy (λ b. b.id) (front ++ a ∷ rest)
    → select_where (past_cursor (some (cursor_at a))) (front ++ a ∷ rest) ≡ rest
unfolding select_where
past-suffix [] a rest h u =
    let behind =
      All-mono2 (λ b. newer b a ≡ false) (λ b. (b.id == a.id) ≡ false)
        (λ b. past_cursor (some (cursor_at a)) b ≡ true) rest
        (λ b k q. past_cursor-newer a b ∙ apart_newer a b k q) h.0 u.0 in
    rw (past_cursor-newer a a, newer_irrefl a)
      (select_where-true (past_cursor (some (cursor_at a))) rest behind)
past-suffix (x ∷ front) a rest h u =
    rw (past_cursor-newer a x, All-at (λ b. newer b x ≡ false) front a rest h.0)
      (past-suffix front a rest h.1 u.1)

-- A page that is not the last ends with an account that the rest of the table follows.
pub split_page :
    (k : ℕ) (rows : List Account)
    → ltb k (length rows) ≡ true
    → (front : List Account) × (a : Account) × (rest : List Account) × (rows ≡ front ++ a ∷ rest)
      × (take_rows (suc k) rows ≡ front ++ a ∷ [])
      × (last_of (take_rows (suc k) rows) ≡ some a)
split_page k [] h = absurd (ground arith)
split_page zero (x ∷ rows) h = ([], x, rows, refl, refl, refl)
split_page (suc k) (x ∷ []) h = absurd (ground arith)
split_page (suc k) (x ∷ y ∷ rows) h =
    let (front, a, rest, e, items, last) = split_page k (y ∷ rows) (ground arith) in
    (x ∷ front, a, rest, ap (λ xs. x ∷ xs) e, ap (λ xs. x ∷ xs) items, last)

pub take_rows-take_rows :
    (k : ℕ) (rows : List Account) → take_rows k (take_rows (suc k) rows) ≡ take_rows k rows
take_rows-take_rows zero rows = refl
take_rows-take_rows (suc k) [] = refl
take_rows-take_rows (suc k) (x ∷ rows) = ap (λ xs. x ∷ xs) (take_rows-take_rows k rows)

pub more-take_rows :
    (k : ℕ) (rows : List Account) → ltb k (length (take_rows (suc k) rows)) ≡ ltb k (length rows)
more-take_rows zero [] = refl
more-take_rows zero (x ∷ rows) = ground arith
more-take_rows (suc k) [] = refl
more-take_rows (suc k) (x ∷ rows) = ground (arith, more-take_rows k rows)

pub take_rows-all :
    (k : ℕ) (rows : List Account) → ltb k (length rows) ≡ false → take_rows k rows ≡ rows
take_rows-all zero [] h = refl
take_rows-all zero (x ∷ rows) h = absurd (ground arith)
take_rows-all (suc k) [] h = refl
take_rows-all (suc k) (x ∷ rows) h = ap (λ xs. x ∷ xs) (take_rows-all k rows (ground arith))

past_none : (a : Account) → past_cursor none a ≡ true
unfolding past_cursor
past_none a = refl

pub All-past_none : (rows : List Account) → All (λ a. past_cursor none a ≡ true) rows
All-past_none [] = tt
All-past_none (a ∷ rows) = (past_none a, All-past_none rows)

swap_ids : (a b : Account) → (b.id == a.id) ≡ false → (a.id == b.id) ≡ false
swap_ids a b h = ground arith

insert_row-UniqueBy :
    (a : Account) (rows : List Account)
    → All (λ b. (b.id == a.id) ≡ false) rows
    → UniqueBy (λ a. a.id) rows
    → UniqueBy (λ a. a.id) (insert_row newer a rows)
unfolding insert_row
insert_row-UniqueBy a [] h u = (tt, tt)
insert_row-UniqueBy a (b ∷ rows) h u =
    if_cases (UniqueBy (λ a. a.id)) (newer b a) (b ∷ insert_row newer a rows) (a ∷ b ∷ rows)
      (λ _. (
        All-insert_row newer (λ c. (c.id == b.id) ≡ false) a rows (swap_ids a b h.0) u.0,
        insert_row-UniqueBy a rows h.1 u.1,
      ))
      (λ _. (h, u))

pub order_rows-UniqueBy :
    (rows : List Account) → UniqueBy (λ a. a.id) rows → UniqueBy (λ a. a.id) (order_rows newer rows)
unfolding order_rows
order_rows-UniqueBy [] u = tt
order_rows-UniqueBy (a ∷ rows) u =
    insert_row-UniqueBy a (order_rows newer rows)
      (All-order_rows newer (λ b. (b.id == a.id) ≡ false) rows u.0) (order_rows-UniqueBy rows u.1)
