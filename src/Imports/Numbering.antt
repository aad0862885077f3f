-- ===== src/Imports/Numbering.antt =====
-- Which lines of a text an import takes, and under which numbers.
use smart_email_manager.Prelude.{
  ℕ, suc, ◌-◌, ◌≤◌, ◌≡◌, refl, sym, ap, ◌∙◌, String, Bool, true, false, not, Option, none, some,
  List, [], ◌∷◌, arith, ◌==◌, if◌then◌else◌, if_cases, inl, inr, Bool-cases, Option-cases,
  count_where, length, str_eq, strip, All, All-mono, UniqueBy, map,
}
use smart_email_manager.Imports.Lines.{ParsedImportLine}
use smart_email_manager.Imports.Content.{
  numbered, mark_duplicates, valid_email, in_conflict, in_texts,
}
use smart_email_manager.Imports.Model.{Db, email_exists}
use smart_email_manager.Imports.Batch.{mark_existing}
use smart_email_manager.Imports.Duplicates.{mark-none, mark-some}
use smart_email_manager.Imports.Marking.{mark_existing-none, mark_existing-some}

-- The line of a number, from 1 on.
unfoldable pub line_at : ℕ → List String → Option String
line_at n [] = none
line_at n (line ∷ lines) = if n == 1 then some line else line_at (n - 1) lines

abbrev pub is_filled : String → Bool
is_filled line = not (str_eq (strip line) "")

abbrev pub is_filled_line : Option String → Bool
is_filled_line none = false
is_filled_line (some line) = is_filled line

abbrev pub numbers : ℕ → List String → List ℕ
numbers n lines = map (λ l. l.0) (numbered n lines)

length-numbers :
    (n : ℕ) (lines : List String) → length (numbers n lines) ≡ count_where is_filled lines
unfolding numbered count_where
length-numbers n [] = refl
length-numbers n (line ∷ lines) = elim (Bool-cases (str_eq (strip line) "")) [
  | inl e ↦ rw e (omega (arith, length-numbers (suc n) lines))
  | inr e ↦ rw e (omega (arith, length-numbers (suc n) lines))
]

above-numbers : (n : ℕ) (lines : List String) → All (λ m. n ≤ m) (numbers n lines)
unfolding numbered
above-numbers n [] = tt
above-numbers n (line ∷ lines) =
    let rest =
      All-mono (λ m. suc n ≤ m) (λ m. n ≤ m) (numbers (suc n) lines) (λ m h. omega (arith, h))
        (above-numbers (suc n) lines) in
    elim (Bool-cases (str_eq (strip line) "")) [
      | inl e ↦ rw e rest
      | inr e ↦ rw e (omega arith, rest)
    ]

UniqueBy-numbers : (n : ℕ) (lines : List String) → UniqueBy (λ m. m) (numbers n lines)
unfolding numbered
UniqueBy-numbers n [] = tt
UniqueBy-numbers n (line ∷ lines) =
    let rest = UniqueBy-numbers (suc n) lines in
    let apart =
      All-mono (λ m. suc n ≤ m) (λ m. (m == n) ≡ false) (numbers (suc n) lines)
        (λ m h. ground (arith, h)) (above-numbers (suc n) lines) in
    elim (Bool-cases (str_eq (strip line) "")) [ inl e ↦ rw e rest | inr e ↦ rw e (apart, rest) ]

-- A number past the first line's is one of the lines behind it.
line_at-behind :
    (k m : ℕ) (line : String) (lines : List String)
    → suc (suc k) ≤ m
    → line_at (m - k) (line ∷ lines) ≡ line_at (m - suc k) lines
unfolding line_at
line_at-behind k m line lines h =
    let e : ((m - k) == 1) ≡ false = ground (arith, h) in
    let d : m - k - 1 ≡ m - suc k = omega (arith, h) in rw (e, d) refl

All-both {ℓ} :
    {A : Type ℓ} (P Q : A → Type 0) (xs : List A) → All P xs → All Q xs → All (λ x. P x × Q x) xs
All-both P Q [] h k = tt
All-both P Q (x ∷ xs) h k = ((h.0, k.0), All-both P Q xs h.1 k.1)

first_filled :
    (k : ℕ) (line : String) (lines : List String)
    → str_eq (strip line) "" ≡ false
    → is_filled_line (line_at (suc k - k) (line ∷ lines)) ≡ true
unfolding line_at
first_filled k line lines e = let one : suc k - k ≡ 1 = omega arith in rw (one, e) refl

filled-numbers :
    (k : ℕ) (lines : List String)
    → All (λ m. is_filled_line (line_at (m - k) lines) ≡ true) (numbers (suc k) lines)
unfolding numbered
filled-numbers k [] = tt
filled-numbers k (line ∷ lines) =
    let rest =
      All-mono (λ m. (suc (suc k) ≤ m) × (is_filled_line (line_at (m - suc k) lines) ≡ true))
        (λ m. is_filled_line (line_at (m - k) (line ∷ lines)) ≡ true) (numbers (suc (suc k)) lines)
        (λ m h. ap is_filled_line (line_at-behind k m line lines h.0) ∙ h.1)
        (All-both _ _ (numbers (suc (suc k)) lines) (above-numbers (suc (suc k)) lines)
          (filled-numbers (suc k) lines)) in
    elim (Bool-cases (str_eq (strip line) "")) [
      | inl e ↦ rw e rest
      | inr e ↦ rw e (first_filled k line lines e, rest)
    ]

abbrev pub line_numbers : List ParsedImportLine → List ℕ
line_numbers lines = map (λ l. l.line_number) lines

pub mark_existing-line_numbers :
    (db : Db) (lines : List ParsedImportLine)
    → line_numbers (map (mark_existing db) lines) ≡ line_numbers lines
mark_existing-line_numbers db [] = refl
mark_existing-line_numbers db (line ∷ lines) =
    let rest = mark_existing-line_numbers db lines in
    elim (Option-cases (valid_email line)) [
      | inl e ↦ rw (mark_existing-none db line e, rest) refl
      | inr (email, e) ↦ rw (mark_existing-some db line email e) (
          if_cases
            (λ l.
              l.line_number ∷ line_numbers (map (mark_existing db) lines)
              ≡ line.line_number ∷ line_numbers lines)
            (email_exists db email) (in_conflict "ACCOUNT_EMAIL_CONFLICT" line) line
            (λ _. rw rest refl) (λ _. rw rest refl))
    ]

pub mark_duplicates-line_numbers :
    (seen : List String) (lines : List ParsedImportLine)
    → line_numbers (mark_duplicates seen lines) ≡ line_numbers lines
mark_duplicates-line_numbers seen [] = unfold mark_duplicates in refl
mark_duplicates-line_numbers seen (line ∷ lines) = elim (Option-cases (valid_email line)) [
  | inl e ↦ rw (mark-none seen line lines e, mark_duplicates-line_numbers seen lines) refl
  | inr (email, e) ↦ rw (mark-some seen line lines email e) (
      if_cases
        (λ l.
          l.line_number ∷ line_numbers (mark_duplicates (email ∷ seen) lines)
          ≡ line.line_number ∷ line_numbers lines)
        (in_texts email seen) (in_conflict "IMPORT_BATCH_DUPLICATE" line) line
        (λ _. rw (mark_duplicates-line_numbers (email ∷ seen) lines) refl)
        (λ _. rw (mark_duplicates-line_numbers (email ∷ seen) lines) refl))
]

-- Exactly one number for each line that is not blank.
abbrev pub NumbersFilled : List String → List ℕ → Type 0
NumbersFilled lines numbers =
    (length numbers ≡ count_where is_filled lines)
    × UniqueBy (λ m. m) numbers
    × All (λ m. is_filled_line (line_at m lines) ≡ true) numbers

pub numbered-NumbersFilled :
    (lines : List String) → NumbersFilled lines (map (λ l. l.0) (numbered 1 lines))
numbered-NumbersFilled lines = (
  length-numbers 1 lines,
  UniqueBy-numbers 1 lines,
  All-mono (λ m. is_filled_line (line_at (m - 0) lines) ≡ true)
      (λ m. is_filled_line (line_at m lines) ≡ true) (numbers 1 lines)
      (λ m h. let e : m - 0 ≡ m = omega arith in rw (sym e) h) (filled-numbers 0 lines),
)
