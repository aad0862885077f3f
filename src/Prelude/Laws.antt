-- ===== src/Prelude/Laws.antt =====
-- What holds of every row, under the operations on tables.
use mathlib.Core.Path.{◌≡◌, refl, sym, subst}
use mathlib.Core.Bool.{Bool, true, false}
use mathlib.Core.Option.{some, some-injective}
use mathlib.Core.List.{List, [], ◌∷◌, ◌++◌, Memᴰ}
use smart_email_manager.Prelude.Rows.{find_where, select_where, update_where, All, if_cases}

module _ {ℓ κ} {A : Type ℓ} (P : A → Type κ) where
  pub All-append : (xs ys : List A) → All P xs → All P ys → All P (xs ++ ys)
  All-append [] ys h k = k
  All-append (x ∷ xs) ys h k = (h.0, All-append xs ys h.1 k)

  pub All-update_where :
      (p : A → Bool) (f : A → A) (xs : List A)
      → ((x : A) → p x ≡ true → P x → P (f x))
      → All P xs
      → All P (update_where p f xs)
  unfolding update_where
  All-update_where p f [] keep h = tt
  All-update_where p f (x ∷ xs) keep h =
      (if_cases P (p x) (f x) x (λ e. keep x e h.0) (λ e. h.0), All-update_where p f xs keep h.1)

  pub All-select_where : (p : A → Bool) (xs : List A) → All P xs → All P (select_where p xs)
  unfolding select_where
  All-select_where p [] h = tt
  All-select_where p (x ∷ xs) h =
      let rest = All-select_where p xs h.1 in
      if_cases (All P) (p x) (x ∷ select_where p xs) (select_where p xs) (λ e. (h.0, rest))
        (λ e. rest)

  -- A row that a search returns has every property that all rows have, and passed the test.
  pub All-find_where :
      (p : A → Bool) (xs : List A) (a : A)
      → All P xs
      → find_where p xs ≡ some a
      → P a × (p a ≡ true)
  unfolding find_where
  All-find_where p [] a h = λ e. absurd (cc e)
  All-find_where p (x ∷ xs) a h =
      let rest = All-find_where p xs a h.1 in
      if_cases (λ o. o ≡ some a → P a × (p a ≡ true)) (p x) (some x) (find_where p xs)
        (λ t e. subst (λ y. P y × (p y ≡ true)) (some-injective x a e) (h.0, t)) (λ f. rest)

pub All-mono {ℓ κ μ} :
    {A : Type ℓ} (P : A → Type κ) (Q : A → Type μ) (xs : List A)
    → ((x : A) → P x → Q x)
    → All P xs
    → All Q xs
All-mono P Q [] f h = tt
All-mono P Q (x ∷ xs) f h = (f x h.0, All-mono P Q xs f h.1)

pub All-mem {ℓ} : {A : Type ℓ} (xs : List A) → All (λ x. Memᴰ x xs) xs
All-mem [] = tt
All-mem (x ∷ xs) = (
  Memᴰ.head refl,
  All-mono (λ y. Memᴰ y xs) (λ y. Memᴰ y (x ∷ xs)) xs (λ y m. Memᴰ.tail m) (All-mem xs),
)

pub All-zip {ℓ κ μ} :
    {A : Type ℓ} (P : A → Type κ) (Q : A → Type μ) (xs : List A)
    → All P xs
    → All Q xs
    → All (λ x. P x × Q x) xs
All-zip P Q [] h k = tt
All-zip P Q (x ∷ xs) h k = ((h.0, k.0), All-zip P Q xs h.1 k.1)

-- An update from rows with `Q` to rows with `P`.
pub All-update {ℓ κ μ} :
    {A : Type ℓ} (Q : A → Type κ) (P : A → Type μ) (p : A → Bool) (f : A → A) (xs : List A)
    → ((x : A) → Q x → p x ≡ true → P (f x))
    → ((x : A) → Q x → p x ≡ false → P x)
    → All Q xs
    → All P (update_where p f xs)
unfolding update_where
All-update Q P p f [] hit miss h = tt
All-update Q P p f (x ∷ xs) hit miss h =
    (if_cases P (p x) (f x) x (hit x h.0) (miss x h.0), All-update Q P p f xs hit miss h.1)

pub All-member {ℓ κ} :
    {A : Type ℓ} (P : A → Type κ) (a : A) (xs : List A) → All P xs → Memᴰ a xs → P a
All-member P a [] h m = elim m [ ]
All-member P a (x ∷ xs) h (Memᴰ.head e) = subst P (sym e) h.0
All-member P a (x ∷ xs) h (Memᴰ.tail m) = All-member P a xs h.1 m

pub All-unit {ℓ} : {A : Type ℓ} (xs : List A) → All (λ _. Unit {0}) xs
All-unit [] = tt
All-unit (x ∷ xs) = (tt, All-unit xs)
