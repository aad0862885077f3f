-- ===== src/Prelude/Keys.antt =====
-- Primary keys: rows with distinct keys, and what a search by key then finds.
use Prim.Native.Nat.{ℕ, ◌≤◌, ◌<◌}
use mathlib.Core.Path.{◌≡◌, refl, sym, ap}
use mathlib.Core.Bool.{Bool, true, false}
use mathlib.Core.Option.{some}
use mathlib.Core.List.{List, [], ◌∷◌, ◌++◌, Memᴰ}
use native.Mathlib.Omega.{arith}
use smart_email_manager.Prelude.Tests.{◌==◌, ==_iff, if◌then◌else◌}
use smart_email_manager.Prelude.Rows.{update_where, select_where, find_where, if_cases, All}
use smart_email_manager.Prelude.Laws.{
  All-mono, All-update, All-append, All-member, All-select_where,
}
use smart_email_manager.Prelude.Searches.{find_where-member}

module _ {ℓ} {A : Type ℓ} (key : A → ℕ) where
  abbrev pub UniqueBy : List A → Type 0
  UniqueBy [] = Unit
  UniqueBy (x ∷ xs) = All (λ y. (key y == key x) ≡ false) xs × UniqueBy xs

  -- Rows with the key of `a` are `a`.
  abbrev pub OnlyBy : A → List A → Type ℓ
  OnlyBy a = All (λ y. (key y == key a) ≡ true → y ≡ a)

  pub UniqueBy-update :
      (p : A → Bool) (f : A → A) (xs : List A)
      → ((x : A) → p x ≡ true → key (f x) ≡ key x)
      → UniqueBy xs
      → UniqueBy (update_where p f xs)
  unfolding update_where
  UniqueBy-update p f [] same h = tt
  UniqueBy-update p f (x ∷ xs) same h =
      let x' : A = if p x then f x else x in
      let kept : key x' ≡ key x =
        if_cases (λ y. key y ≡ key x) (p x) (f x) x (same x) (λ _. refl) in
      (
        All-update (λ y. (key y == key x) ≡ false) (λ y. (key y == key x') ≡ false) p f xs
            (λ y k e. rw (kept, same y e) k) (λ y k e. rw kept k) h.0,
        UniqueBy-update p f xs same h.1,
      )

  same_key : (a b : A) → (key b == key a) ≡ false → (key a == key b) ≡ true → a ≡ b
  same_key a b h k = absurd (ground arith)

  apart : {n : ℕ} (a b : A) → n ≤ key a → key b < n → (key a == key b) ≡ false
  apart a b h k = ground arith

  pub UniqueBy-member : (a : A) (xs : List A) → UniqueBy xs → Memᴰ a xs → OnlyBy a xs
  UniqueBy-member a [] h m = elim m [ ]
  UniqueBy-member a (x ∷ xs) h (Memᴰ.head e) = (
    λ _. sym e,
    All-mono (λ y. (key y == key x) ≡ false) (λ y. (key y == key a) ≡ true → y ≡ a) xs
        (λ y k q. absurd (ground (arith, ap key e))) h.0,
  )
  UniqueBy-member a (x ∷ xs) h (Memᴰ.tail m) = (
    same_key x a (All-member (λ y. (key y == key x) ≡ false) a xs h.0 m),
    UniqueBy-member a xs h.1 m,
  )

  -- The row that a search by key returns is the only one with its key.
  pub find_where-OnlyBy :
      (id : ℕ) (xs : List A) (a : A)
      → UniqueBy xs
      → find_where (λ x. key x == id) xs ≡ some a
      → OnlyBy a xs × (key a ≡ id) × Memᴰ a xs
  find_where-OnlyBy id xs a h e =
      let found = find_where-member (λ x. key x == id) xs a e in
      (UniqueBy-member a xs h found.0, (==_iff (key a) id).0 found.1, found.0)

  pub UniqueBy-append :
      (n : ℕ) (xs ys : List A)
      → All (λ x. key x < n) xs
      → All (λ y. n ≤ key y) ys
      → UniqueBy xs
      → UniqueBy ys
      → UniqueBy (xs ++ ys)
  UniqueBy-append n [] ys below above h k = k
  UniqueBy-append n (x ∷ xs) ys below above h k = (
    All-append (λ y. (key y == key x) ≡ false) xs ys h.0
        (All-mono (λ y. n ≤ key y) (λ y. (key y == key x) ≡ false) ys (λ y q. apart y x q below.0)
          above),
    UniqueBy-append n xs ys below.1 above h.1 k,
  )

pub UniqueBy-select_where {ℓ} :
    {A : Type ℓ} (key : A → ℕ) (p : A → Bool) (xs : List A)
    → UniqueBy key xs
    → UniqueBy key (select_where p xs)
unfolding select_where
UniqueBy-select_where key p [] h = tt
UniqueBy-select_where key p (x ∷ xs) h =
    let rest = UniqueBy-select_where key p xs h.1 in
    if_cases (UniqueBy key) (p x) (x ∷ select_where p xs) (select_where p xs)
      (λ _. (All-select_where (λ y. (key y == key x) ≡ false) p xs h.0, rest)) (λ _. rest)
