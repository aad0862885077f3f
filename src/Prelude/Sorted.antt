-- ===== src/Prelude/Sorted.antt =====
-- ORDER BY gives a sorted table, and commutes with a selection.
use mathlib.Core.Path.{◌≡◌, refl, ◌∙◌}
use mathlib.Core.Logic.{inl, inr}
use mathlib.Core.Bool.{Bool, true, false}
use mathlib.Core.List.{List, [], ◌∷◌}
use native.Mathlib.Omega.{arith}
use smart_email_manager.Prelude.Tests.{if◌then◌else◌, Bool-cases}
use smart_email_manager.Prelude.Rows.{select_where, insert_row, order_rows, if_cases, All}
use smart_email_manager.Prelude.Laws.{All-mono, All-select_where}

pub record WeakOrder {ℓ} {A : Type ℓ} (precedes : A → A → Bool) : Type ℓ where
  pub asym : (a b : A) → precedes a b ≡ true → precedes b a ≡ false
  pub skips : (a b c : A) → precedes a b ≡ false → precedes b c ≡ false → precedes a c ≡ false

module _ {ℓ} {A : Type ℓ} (precedes : A → A → Bool) where
  abbrev pub IsSorted : List A → Type 0
  IsSorted [] = Unit
  IsSorted (x ∷ xs) = All (λ y. precedes y x ≡ false) xs × IsSorted xs

  pub All-insert_row {κ} :
      (P : A → Type κ) (x : A) (ys : List A) → P x → All P ys → All P (insert_row precedes x ys)
  unfolding insert_row
  All-insert_row P x [] h k = (h, tt)
  All-insert_row P x (y ∷ ys) h k =
      if_cases (All P) (precedes y x) (y ∷ insert_row precedes x ys) (x ∷ y ∷ ys)
        (λ e. (k.0, All-insert_row P x ys h k.1)) (λ e. (h, k))

  pub All-order_rows {κ} :
      (P : A → Type κ) (xs : List A) → All P xs → All P (order_rows precedes xs)
  unfolding order_rows
  All-order_rows P [] h = tt
  All-order_rows P (x ∷ xs) h =
      All-insert_row P x (order_rows precedes xs) h.0 (All-order_rows P xs h.1)

  insert_row-front :
      (x : A) (ys : List A) → All (λ y. precedes y x ≡ false) ys → insert_row precedes x ys ≡ x ∷ ys
  unfolding insert_row
  insert_row-front x [] h = refl
  insert_row-front x (y ∷ ys) h = rw h.0 refl

  module _ (order : WeakOrder precedes) where
    insert_row-IsSorted : (x : A) (ys : List A) → IsSorted ys → IsSorted (insert_row precedes x ys)
    unfolding insert_row
    insert_row-IsSorted x [] h = (tt, tt)
    insert_row-IsSorted x (y ∷ ys) h =
        if_cases IsSorted (precedes y x) (y ∷ insert_row precedes x ys) (x ∷ y ∷ ys)
          (λ e. (
            All-insert_row (λ z. precedes z y ≡ false) x ys (order.asym y x e) h.0,
            insert_row-IsSorted x ys h.1,
          ))
          (λ e. (
            (
              e,
              All-mono (λ z. precedes z y ≡ false) (λ z. precedes z x ≡ false) ys
                  (λ z k. order.skips z y x k e) h.0,
            ),
            h,
          ))

    pub order_rows-IsSorted : (xs : List A) → IsSorted (order_rows precedes xs)
    unfolding order_rows
    order_rows-IsSorted [] = tt
    order_rows-IsSorted (x ∷ xs) =
        insert_row-IsSorted x (order_rows precedes xs) (order_rows-IsSorted xs)

    select_where-insert_row :
        (p : A → Bool) (x : A) (ys : List A)
        → IsSorted ys
        → select_where p (insert_row precedes x ys)
          ≡ (if p x then insert_row precedes x (select_where p ys) else select_where p ys)
    unfolding insert_row select_where
    select_where-insert_row p x [] h = refl
    select_where-insert_row p x (y ∷ ys) h = elim (Bool-cases (precedes y x)) [
      | inl e ↦ ground (arith, select_where-insert_row p x ys h.1)
      | inr e ↦
          let after : All (λ z. precedes z x ≡ false) (y ∷ ys) = (
            e,
            All-mono (λ z. precedes z y ≡ false) (λ z. precedes z x ≡ false) ys
                (λ z k. order.skips z y x k e) h.0,
          ) in
          rw e (
            ground (
              arith,
              insert_row-front x (select_where p (y ∷ ys))
                  (All-select_where (λ z. precedes z x ≡ false) p (y ∷ ys) after),
            ))
    ]

    if_select :
        (p : A → Bool) (x : A) (xs : List A)
        → (if p x
            then insert_row precedes x (order_rows precedes (select_where p xs))
            else order_rows precedes (select_where p xs))
          ≡ order_rows precedes (select_where p (x ∷ xs))
    unfolding select_where order_rows
    if_select p x xs = elim (Bool-cases (p x)) [ inl e ↦ rw e refl | inr e ↦ rw e refl ]

    pub select_where-order_rows :
        (p : A → Bool) (xs : List A)
        → select_where p (order_rows precedes xs) ≡ order_rows precedes (select_where p xs)
    unfolding order_rows
    select_where-order_rows p [] = unfold select_where in refl
    select_where-order_rows p (x ∷ xs) =
        select_where-insert_row p x (order_rows precedes xs) (order_rows-IsSorted xs)
        ∙ rw (select_where-order_rows p xs) (if_select p x xs)
