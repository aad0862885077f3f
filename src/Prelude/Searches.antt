-- ===== src/Prelude/Searches.antt =====
-- Which rows a search, a selection and a count find, and what an update changes of that.
use Prim.Native.Nat.{◌+◌}
use mathlib.Core.Path.{◌≡◌, refl}
use mathlib.Core.Logic.{◌≢◌}
use mathlib.Core.Bool.{Bool, true, false}
use mathlib.Core.Option
use mathlib.Core.Option.{Option, none, some, some-injective}
use mathlib.Core.List.{List, [], ◌∷◌, ◌++◌, map, Memᴰ}
use native.Mathlib.Omega.{arith}
use smart_email_manager.Prelude.Tests.{if◌then◌else◌}
use smart_email_manager.Prelude.Rows.{
  length, find_where, select_where, update_where, count_where, All, if_cases,
}
use smart_email_manager.Prelude.Laws.{All-find_where, All-mono, All-mem}

module _ {ℓ} {A : Type ℓ} where
  -- Rows that the test picks change, and no others.
  pub find_where-update_where :
      (q p : A → Bool) (f : A → A) (xs : List A)
      → ((x : A) → q (if p x then f x else x) ≡ q x)
      → find_where q (update_where p f xs)
        ≡ Option.map (λ x. if p x then f x else x) (find_where q xs)
  unfolding find_where update_where
  find_where-update_where q p f [] same = refl
  find_where-update_where q p f (x ∷ xs) same =
      ground (arith, same x, find_where-update_where q p f xs same)

  pub count_where-update_where :
      (q p : A → Bool) (f : A → A) (xs : List A)
      → ((x : A) → p x ≡ true → q (f x) ≡ q x)
      → count_where q (update_where p f xs) ≡ count_where q xs
  unfolding count_where update_where
  count_where-update_where q p f [] same = refl
  count_where-update_where q p f (x ∷ xs) same =
      ground (arith, same x, count_where-update_where q p f xs same)

  pub length-update_where :
      (p : A → Bool) (f : A → A) (xs : List A) → length (update_where p f xs) ≡ length xs
  unfolding update_where
  length-update_where p f [] = refl
  length-update_where p f (x ∷ xs) = omega (arith, length-update_where p f xs)

  pub map-update_where {κ} :
      {B : Type κ} (g : A → B) (p : A → Bool) (f : A → A) (xs : List A)
      → ((x : A) → g (f x) ≡ g x)
      → map g (update_where p f xs) ≡ map g xs
  unfolding update_where
  map-update_where g p f [] same = refl
  map-update_where g p f (x ∷ xs) same = ground (arith, same x, map-update_where g p f xs same)

  -- No row passes a test exactly when the count is 0.
  pub count_where-zero :
      (p : A → Bool) (xs : List A) → count_where p xs ≡ 0 → All (λ x. p x ≡ false) xs
  unfolding count_where
  count_where-zero p [] h = tt
  count_where-zero p (x ∷ xs) h = (ground arith, count_where-zero p xs (ground arith))

  pub count_where-none :
      (p : A → Bool) (xs : List A) → All (λ x. p x ≡ false) xs → count_where p xs ≡ 0
  unfolding count_where
  count_where-none p [] h = refl
  count_where-none p (x ∷ xs) h = ground (arith, h.0, count_where-none p xs h.1)

pub find_where-member {ℓ} :
    {A : Type ℓ} (p : A → Bool) (xs : List A) (a : A)
    → find_where p xs ≡ some a
    → Memᴰ a xs × (p a ≡ true)
find_where-member p xs a e = All-find_where (λ x. Memᴰ x xs) p xs a (All-mem xs) e

-- A row that the test does not pick stays.
pub Mem-update_where {ℓ} :
    {A : Type ℓ} (p : A → Bool) (f : A → A) (a : A) (xs : List A)
    → p a ≡ false
    → Memᴰ a xs
    → Memᴰ a (update_where p f xs)
unfolding update_where
Mem-update_where p f a [] h m = elim m [ ]
Mem-update_where p f a (x ∷ xs) h (Memᴰ.head e) = Memᴰ.head (rw (← e, h) refl)
Mem-update_where p f a (x ∷ xs) h (Memᴰ.tail m) = Memᴰ.tail (Mem-update_where p f a xs h m)

pub Mem-append {ℓ} : {A : Type ℓ} (a : A) (xs ys : List A) → Memᴰ a xs → Memᴰ a (xs ++ ys)
Mem-append a [] ys m = elim m [ ]
Mem-append a (x ∷ xs) ys (Memᴰ.head e) = Memᴰ.head e
Mem-append a (x ∷ xs) ys (Memᴰ.tail m) = Memᴰ.tail (Mem-append a xs ys m)

-- What holds of the selected rows holds of every row that passes the test.
pub select_where-All {ℓ κ} :
    {A : Type ℓ} (P : A → Type κ) (p : A → Bool) (xs : List A)
    → All P (select_where p xs)
    → All (λ x. p x ≡ true → P x) xs
unfolding select_where
select_where-All P p [] h = tt
select_where-All P p (x ∷ xs) h =
    if_cases (λ ys. All P ys → All (λ y. p y ≡ true → P y) (x ∷ xs)) (p x) (x ∷ select_where p xs)
      (select_where p xs) (λ e k. (λ _. k.0, select_where-All P p xs k.1))
      (λ e k. (λ t. absurd (cc (e, t)), select_where-All P p xs k)) h

pub select_where-nil {ℓ} :
    {A : Type ℓ} (p : A → Bool) (xs : List A) → select_where p xs ≡ [] → All (λ x. p x ≡ false) xs
unfolding select_where
select_where-nil p [] h = tt
select_where-nil p (x ∷ xs) h = (ground arith, select_where-nil p xs (ground arith))

pub nil-select_where {ℓ} :
    {A : Type ℓ} (p : A → Bool) (xs : List A) → All (λ x. p x ≡ false) xs → select_where p xs ≡ []
unfolding select_where
nil-select_where p [] h = refl
nil-select_where p (x ∷ xs) h = rw h.0 (nil-select_where p xs h.1)

-- A search finds a row if one passes the test.
pub find_where-found {ℓ} :
    {A : Type ℓ} (p : A → Bool) (a : A) (xs : List A)
    → Memᴰ a xs
    → p a ≡ true
    → find_where p xs ≢ none
unfolding find_where
find_where-found p a [] m h = elim m [ ]
find_where-found p a (x ∷ xs) (Memᴰ.head e) h = rw (← e, h) λ q. cc q
find_where-found p a (x ∷ xs) (Memᴰ.tail m) h = ground (arith, find_where-found p a xs m h)

-- A selected row is a row that passes the test.
pub select_where-both {ℓ} :
    {A : Type ℓ} (p : A → Bool) (xs : List A)
    → All (λ x. Memᴰ x xs × (p x ≡ true)) (select_where p xs)
unfolding select_where
select_where-both p [] = tt
select_where-both {A} p (x ∷ xs) =
    let Q : A → Type ℓ = λ y. Memᴰ y (x ∷ xs) × (p y ≡ true) in
    let rest =
      All-mono (λ y. Memᴰ y xs × (p y ≡ true)) Q (select_where p xs) (λ y h. (Memᴰ.tail h.0, h.1))
        (select_where-both p xs) in
    if_cases (All Q) (p x) (x ∷ select_where p xs) (select_where p xs)
      (λ e. ((Memᴰ.head refl, e), rest)) (λ e. rest)

-- A row that the update gives back as it was stays.
pub Mem-update_where_fixed {ℓ} :
    {A : Type ℓ} (p : A → Bool) (f : A → A) (a : A) (xs : List A)
    → f a ≡ a
    → Memᴰ a xs
    → Memᴰ a (update_where p f xs)
unfolding update_where
Mem-update_where_fixed p f a [] h m = elim m [ ]
Mem-update_where_fixed p f a (x ∷ xs) h (Memᴰ.head e) =
    Memᴰ.head (if_cases (λ y. a ≡ y) (p x) (f x) x (λ _. rw (← e, h) refl) (λ _. e))
Mem-update_where_fixed p f a (x ∷ xs) h (Memᴰ.tail m) =
    Memᴰ.tail (Mem-update_where_fixed p f a xs h m)

-- A row that passes the test is selected.
pub Mem-select_where {ℓ} :
    {A : Type ℓ} (p : A → Bool) (a : A) (xs : List A)
    → p a ≡ true
    → Memᴰ a xs
    → Memᴰ a (select_where p xs)
unfolding select_where
Mem-select_where p a [] h m = elim m [ ]
Mem-select_where p a (x ∷ xs) h (Memᴰ.head e) =
    if_cases (λ ys. Memᴰ a ys) (p x) (x ∷ select_where p xs) (select_where p xs) (λ _. Memᴰ.head e)
      (λ k. absurd (cc (h, k, e)))
Mem-select_where p a (x ∷ xs) h (Memᴰ.tail m) =
    let rest = Mem-select_where p a xs h m in
    if_cases (λ ys. Memᴰ a ys) (p x) (x ∷ select_where p xs) (select_where p xs)
      (λ _. Memᴰ.tail rest) (λ _. rest)

-- The first row that passes the test is the added one, if no earlier row does.
pub find_where-append {ℓ} :
    {A : Type ℓ} (p : A → Bool) (xs : List A) (a : A)
    → find_where p xs ≡ none
    → p a ≡ true
    → find_where p (xs ++ a ∷ []) ≡ some a
unfolding find_where
find_where-append p [] a h k = rw k
find_where-append p (x ∷ xs) a h k = ground (arith, find_where-append p xs a, k)

-- An update under which no row of the table changes its outcome of the test of a search.
pub find_where-update_same {ℓ} :
    {A : Type ℓ} (q p : A → Bool) (f : A → A) (xs : List A)
    → All (λ x. p x ≡ true → q (f x) ≡ q x) xs
    → find_where q (update_where p f xs)
      ≡ Option.map (λ x. if p x then f x else x) (find_where q xs)
unfolding find_where update_where
find_where-update_same q p f [] same = refl
find_where-update_same q p f (x ∷ xs) same =
    ground (arith, same.0, find_where-update_same q p f xs same.1)

pub length-append {ℓ} : {A : Type ℓ} (xs ys : List A) → length (xs ++ ys) ≡ length xs + length ys
length-append [] ys = omega arith
length-append (x ∷ xs) ys = omega (arith, length-append xs ys)
