-- ===== src/Prelude/First.antt =====
-- The first row of a strict order, as ORDER BY with LIMIT 1 picks it.
use mathlib.Core.Path.{◌≡◌, refl, subst}
use mathlib.Core.Logic.{inl, inr}
use mathlib.Core.Bool.{Bool, true, false}
use mathlib.Core.Option.{none, some, some-injective}
use mathlib.Core.List.{List, [], ◌∷◌}
use native.Mathlib.Omega.{arith}
use smart_email_manager.Prelude.Tests.{if◌then◌else◌, Bool-cases}
use smart_email_manager.Prelude.Rows.{best, best_from, if_cases, All}

pub record StrictOrder {ℓ} {A : Type ℓ} (precedes : A → A → Bool) : Type ℓ where
  pub irrefl : (a : A) → precedes a a ≡ false
  pub trans : (a b c : A) → precedes a b ≡ true → precedes b c ≡ true → precedes a c ≡ true

module _ {ℓ} {A : Type ℓ} (precedes : A → A → Bool) where
  abbrev pub NoneBefore : A → List A → Type 0
  NoneBefore c = All (λ y. precedes y c ≡ false)

  best_from-cases {κ} :
      (P : A → Type κ) (b : A) (xs : List A) → P b → All P xs → P (best_from precedes b xs)
  unfolding best_from
  best_from-cases P b [] h k = h
  best_from-cases P b (x ∷ xs) h k =
      best_from-cases P (if precedes x b then x else b) xs
        (if_cases P (precedes x b) x b (λ _. k.0) (λ _. h)) k.1

  pub best-cases {κ} :
      (P : A → Type κ) (xs : List A) (c : A) → All P xs → best precedes xs ≡ some c → P c
  best-cases P [] c k h = absurd (cc h)
  best-cases P (x ∷ xs) c k h =
      subst P (some-injective (best_from precedes x xs) c h) (best_from-cases P x xs k.0 k.1)

  pub best-none : (xs : List A) → best precedes xs ≡ none → xs ≡ []
  best-none [] h = refl
  best-none (x ∷ xs) h = absurd (cc h)

  module _ (order : StrictOrder precedes) where
    -- A row that is not better than the old best is not better than a better one.
    not-precedes_mono :
        (y b x : A) → precedes y b ≡ false → precedes x b ≡ true → precedes y x ≡ false
    not-precedes_mono y b x h k = elim (Bool-cases (precedes y x)) [
      | inl e ↦ ground (arith, order.trans y x b e k)
      | inr e ↦ e
    ]

    -- What the running best has been compared with stays behind the final one.
    best_from-behind :
        (b y : A) (xs : List A)
        → precedes y b ≡ false
        → precedes y (best_from precedes b xs) ≡ false
    unfolding best_from
    best_from-behind b y [] h = h
    best_from-behind b y (x ∷ xs) h = best_from-behind (if precedes x b then x else b) y xs (
        if_cases (λ z. precedes y z ≡ false) (precedes x b) x b (not-precedes_mono y b x h)
          (λ _. h))

    best_from-NoneBefore : (b : A) (xs : List A) → NoneBefore (best_from precedes b xs) xs
    unfolding best_from
    best_from-NoneBefore b [] = tt
    best_from-NoneBefore b (x ∷ xs) = (
      best_from-behind (if precedes x b then x else b) x xs
          (if_cases (λ z. precedes x z ≡ false) (precedes x b) x b (λ _. order.irrefl x) (λ e. e)),
      best_from-NoneBefore (if precedes x b then x else b) xs,
    )

    pub best-NoneBefore : (xs : List A) (c : A) → best precedes xs ≡ some c → NoneBefore c xs
    best-NoneBefore [] c h = tt
    best-NoneBefore (x ∷ xs) c h =
        subst (λ z. NoneBefore z (x ∷ xs)) (some-injective (best_from precedes x xs) c h)
          (best_from-behind x x xs (order.irrefl x), best_from-NoneBefore x xs)
