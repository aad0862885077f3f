-- ===== src/Prelude/Rows.antt =====
-- Tables as lists of rows: the SELECT, UPDATE and count that the services use, with their laws.
use Prim.Native.Nat.{ℕ, zero, suc, ◌+◌}
use mathlib.Core.Path.{◌≡◌, refl}
use mathlib.Core.Bool.{Bool, true, false, ◌||◌}
use mathlib.Core.Option.{Option, none, some}
use mathlib.Core.List.{List, [], ◌∷◌}
use smart_email_manager.Prelude.Tests.{◌==◌, if◌then◌else◌}

module _ {ℓ} {A : Type ℓ} where
  abbrev pub length : List A → ℕ
  length [] = 0
  length (x ∷ xs) = suc (length xs)

  -- SELECT ... LIMIT 1 on a unique key
  unfoldable pub find_where : (A → Bool) → List A → Option A
  find_where p [] = none
  find_where p (x ∷ xs) = if p x then some x else find_where p xs

  -- SELECT ... WHERE
  unfoldable pub select_where : (A → Bool) → List A → List A
  select_where p [] = []
  select_where p (x ∷ xs) = let rest = select_where p xs in if p x then x ∷ rest else rest

  -- UPDATE ... WHERE
  unfoldable pub update_where : (A → Bool) → (A → A) → List A → List A
  update_where p f [] = []
  update_where p f (x ∷ xs) = (if p x then f x else x) ∷ update_where p f xs

  -- SELECT count(*) WHERE
  unfoldable pub count_where : (A → Bool) → List A → ℕ
  count_where p [] = 0
  count_where p (x ∷ xs) = (if p x then 1 else 0) + count_where p xs

  -- LIMIT n
  abbrev pub take_rows : ℕ → List A → List A
  take_rows zero xs = []
  take_rows (suc n) [] = []
  take_rows (suc n) (x ∷ xs) = x ∷ take_rows n xs

  -- ORDER BY: the rows as a stable sort leaves them
  unfoldable pub insert_row : (A → A → Bool) → A → List A → List A
  insert_row precedes x [] = x ∷ []
  insert_row precedes x (y ∷ ys) =
      let rest = y ∷ insert_row precedes x ys in if precedes y x then rest else x ∷ y ∷ ys

  unfoldable pub order_rows : (A → A → Bool) → List A → List A
  unfolding insert_row
  order_rows precedes [] = []
  order_rows precedes (x ∷ xs) = insert_row precedes x (order_rows precedes xs)

  -- ORDER BY ... LIMIT 1: the first row that no other precedes
  unfoldable pub best_from : (A → A → Bool) → A → List A → A
  best_from precedes b [] = b
  best_from precedes b (x ∷ xs) = best_from precedes (if precedes x b then x else b) xs

  abbrev pub best : (A → A → Bool) → List A → Option A
  best precedes [] = none
  best precedes (x ∷ xs) = some (best_from precedes x xs)

-- id IN (...)
unfoldable pub is_in : ℕ → List ℕ → Bool
is_in n [] = false
is_in n (m ∷ ms) = n == m || is_in n ms

-- dict.fromkeys(...): the first of equal elements stays
unfoldable pub without : ℕ → List ℕ → List ℕ
without n [] = []
without n (m ∷ ms) = let rest = without n ms in if m == n then rest else m ∷ rest

unfoldable pub fromkeys : List ℕ → List ℕ
unfolding without
fromkeys [] = []
fromkeys (n ∷ ns) = n ∷ without n (fromkeys ns)

abbrev pub All {ℓ κ} : {A : Type ℓ} → (A → Type κ) → List A → Type κ
All P [] = Unit
All P (x ∷ xs) = P x × All P xs

-- What holds on both branches of a test holds of the conditional.
pub if_cases {ℓ κ} :
    {A : Type ℓ} (P : A → Type κ) (b : Bool) (x y : A)
    → (b ≡ true → P x)
    → (b ≡ false → P y)
    → P (if b then x else y)
if_cases P true x y f g = f refl
if_cases P false x y f g = g refl
