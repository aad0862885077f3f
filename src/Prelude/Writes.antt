-- ===== src/Prelude/Writes.antt =====
-- What a search by key finds in a table after a row was added or deleted.
use Prim.Native.Nat.{ℕ}
use mathlib.Core.Path.{◌≡◌, refl}
use mathlib.Core.Bool.{Bool, true, false, not}
use mathlib.Core.Option.{Option, none, some}
use mathlib.Core.List.{List, [], ◌∷◌, ◌++◌}
use native.Mathlib.Omega.{arith}
use smart_email_manager.Prelude.Tests.{◌==◌, if◌then◌else◌}
use smart_email_manager.Prelude.Rows.{find_where, select_where}

module _ {ℓ} {A : Type ℓ} (key : A → ℕ) where
  pub find_where-deleted :
      (id own : ℕ) (rows : List A)
      → (id == own) ≡ true
      → find_where (λ a. key a == id) (select_where (λ a. not (key a == own)) rows) ≡ none
  unfolding find_where select_where
  find_where-deleted id own [] h = refl
  find_where-deleted id own (a ∷ rows) h = ground (arith, h, find_where-deleted id own rows h)

  pub find_where-kept :
      (id own : ℕ) (rows : List A)
      → (id == own) ≡ false
      → find_where (λ a. key a == id) (select_where (λ a. not (key a == own)) rows)
        ≡ find_where (λ a. key a == id) rows
  unfolding find_where select_where
  find_where-kept id own [] h = refl
  find_where-kept id own (a ∷ rows) h = ground (arith, h, find_where-kept id own rows h)

  pub find_where-appended :
      (id : ℕ) (new : A) (rows : List A)
      → (key new == id) ≡ false
      → find_where (λ a. key a == id) (rows ++ new ∷ []) ≡ find_where (λ a. key a == id) rows
  unfolding find_where
  find_where-appended id new [] h = rw h refl
  find_where-appended id new (a ∷ rows) h = ground (arith, find_where-appended id new rows h)

passed_over {ℓ} :
    {A : Type ℓ} (t : Bool) (x : A) (o : Option A)
    → (if t then some x else o) ≡ none
    → (t ≡ false) × (o ≡ none)
passed_over true x o h = absurd (cc h)
passed_over false x o h = (refl, h)

-- A search that missed finds the row that is added, if that passes the test.
pub find_where-added {ℓ} :
    {A : Type ℓ} (p : A → Bool) (new : A) (rows : List A)
    → find_where p rows ≡ none
    → p new ≡ true
    → find_where p (rows ++ new ∷ []) ≡ some new
unfolding find_where
find_where-added p new [] h own = rw own refl
find_where-added p new (a ∷ rows) h own =
    let (miss, rest) = passed_over (p a) a (find_where p rows) h in
    rw miss (find_where-added p new rows rest own)
