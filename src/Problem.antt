-- ===== src/Problem.antt =====
-- api/problems.py: `ApiProblem`, by its status and its code. The title and the detail are text for
-- people and are left out. `crash` is an exception that no handler turns into an answer, such as a
-- `RuntimeError`.
use smart_email_manager.Prelude.{
  ℕ, String, ◌≡◌, refl, ◌⊎◌, inl, inr, Bool, true, false, str_eq, ap, if◌then◌else◌,
}

pub data Failure : Type 0 where
  problem : ℕ → String → Failure
  crash : String → Failure

pub data Result {ℓ} (Answer : Type ℓ) : Type ℓ where
  err : Failure → Result Answer
  ok : Answer → Result Answer

abbrev pub answer_or {ℓ} : {Answer : Type ℓ} → Answer → Result Answer → Answer
answer_or other (err failure) = other
answer_or other (ok answer) = answer

pub ok-injective {ℓ} : {Answer : Type ℓ} (a b : Answer) → ok a ≡ ok b → a ≡ b
ok-injective a b h = ap (answer_or a) h

module _ {ℓ κ} {Answer : Type ℓ} {Next : Type κ} where
  infixl 5 ◌>>=◌
  abbrev pub ◌>>=◌ : Result Answer → (Answer → Result Next) → Result Next
  err failure >>= continue = err failure
  ok answer >>= continue = continue answer

  -- A chain that succeeds has a first step that succeeded.
  pub first_step :
      (continue : Answer → Result Next) (first : Result Answer) (end : Next)
      → (first >>= continue) ≡ ok end
      → (answer : Answer) × (first ≡ ok answer) × (continue answer ≡ ok end)
  first_step continue (err failure) end h = absurd (cc h)
  first_step continue (ok answer) end h = (answer, refl, h)

-- A guard that is passed.
pub guard_step {ℓ} :
    {Answer : Type ℓ} (test : Bool) (failure : Failure) (answer end : Answer)
    → (if test then ok answer else err failure) ≡ ok end
    → (test ≡ true) × (answer ≡ end)
guard_step true failure answer end h = (refl, ok-injective answer end h)
guard_step false failure answer end h = absurd (cc h)

pub Result-cases {ℓ} :
    {Answer : Type ℓ} (r : Result Answer)
    → ((failure : Failure) × (r ≡ err failure)) ⊎ ((answer : Answer) × (r ≡ ok answer))
Result-cases (err failure) = inl (failure, refl)
Result-cases (ok answer) = inr (answer, refl)

-- The error code that the answer carries.
abbrev pub has_code {ℓ} : {Answer : Type ℓ} → String → Result Answer → Bool
has_code code (err (problem status other)) = str_eq other code
has_code code (err (crash message)) = false
has_code code (ok answer) = false

-- A transaction that raises is rolled back: the state is the one before it.
abbrev pub after {ℓ} : {S : Type ℓ} → S → Result S → S
after old (err failure) = old
after old (ok new) = new
