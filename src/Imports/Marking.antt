-- ===== src/Imports/Marking.antt =====
-- What the marks on the lines of an import keep.
use smart_email_manager.Prelude.{
  ◌+◌, ◌≡◌, refl, sym, ap, ◌∙◌, String, true, false, ◌||◌, none, some, some-injective, List, [],
  ◌∷◌, arith, if◌then◌else◌, if_cases, Option-cases, inl, inr, count_where, length, All, map,
}
use smart_email_manager.Imports.Lines.{valid, invalid, conflict, ParsedImportLine}
use smart_email_manager.Imports.Content.{in_texts, valid_email, in_conflict, mark_duplicates}
use smart_email_manager.Imports.Model.{Db, email_exists}
use smart_email_manager.Imports.Batch.{mark_existing, has_status}
use smart_email_manager.Imports.Duplicates.{
  IsNew, IsApart, HaveOwnAddresses, conflict_vacuous, mark-none, mark-some,
}

-- A line is valid, invalid or in conflict.
abbrev pub IsStaged : ParsedImportLine → Type 0
IsStaged line =
    (has_status valid line || has_status invalid line || has_status conflict line) ≡ true

pub mark_existing-none :
    (db : Db) (line : ParsedImportLine) → valid_email line ≡ none → mark_existing db line ≡ line
unfolding mark_existing
mark_existing-none db line e = rw (mark_existing, e) refl

pub mark_existing-some :
    (db : Db) (line : ParsedImportLine) (email : String)
    → valid_email line ≡ some email
    → mark_existing db line
      ≡ (if email_exists db email then in_conflict "ACCOUNT_EMAIL_CONFLICT" line else line)
unfolding mark_existing
mark_existing-some db line email e = rw (mark_existing, e) refl

-- A line that is still valid after the comparison with the accounts.
mark_existing-kept :
    (db : Db) (line : ParsedImportLine) (email : String)
    → valid_email (mark_existing db line) ≡ some email
    → (valid_email line ≡ some email) × (email_exists db email ≡ false)
mark_existing-kept db line email h = elim (Option-cases (valid_email line)) [
  | inl e ↦ absurd (cc (e, ap valid_email (sym (mark_existing-none db line e)) ∙ h))
  | inr (other, e) ↦
      if_cases
        (λ l.
          valid_email l ≡ some email
          → (valid_email line ≡ some email) × (email_exists db email ≡ false))
        (email_exists db other) (in_conflict "ACCOUNT_EMAIL_CONFLICT" line) line
        (λ _ k. conflict_vacuous "ACCOUNT_EMAIL_CONFLICT" email line k)
        (λ fresh k.
          (k, ap (λ s. email_exists db s) (some-injective email other (sym k ∙ e)) ∙ fresh))
        (ap valid_email (sym (mark_existing-some db line other e)) ∙ h)
]

pub mark_existing-IsNew :
    (db : Db) (lines : List ParsedImportLine) → All (IsNew db) (map (mark_existing db) lines)
mark_existing-IsNew db [] = tt
mark_existing-IsNew db (line ∷ lines) =
    (λ email h. (mark_existing-kept db line email h).1, mark_existing-IsNew db lines)

map-IsApart :
    (db : Db) (email : String) (lines : List ParsedImportLine)
    → All (IsApart email) lines
    → All (IsApart email) (map (mark_existing db) lines)
map-IsApart db email [] h = tt
map-IsApart db email (line ∷ lines) h =
    (λ other k. h.0 other (mark_existing-kept db line other k).0, map-IsApart db email lines h.1)

pub mark_existing-HaveOwnAddresses :
    (db : Db) (lines : List ParsedImportLine)
    → HaveOwnAddresses lines
    → HaveOwnAddresses (map (mark_existing db) lines)
mark_existing-HaveOwnAddresses db [] h = tt
mark_existing-HaveOwnAddresses db (line ∷ lines) h = (
  λ email k. map-IsApart db email lines (h.0 email (mark_existing-kept db line email k).0),
  mark_existing-HaveOwnAddresses db lines h.1,
)

mark_existing-IsStaged :
    (db : Db) (line : ParsedImportLine) → IsStaged line → IsStaged (mark_existing db line)
mark_existing-IsStaged db line h = elim (Option-cases (valid_email line)) [
  | inl e ↦ rw (mark_existing-none db line e) h
  | inr (email, e) ↦ rw (mark_existing-some db line email e) (
      if_cases IsStaged (email_exists db email) (in_conflict "ACCOUNT_EMAIL_CONFLICT" line) line
        (λ _. refl) (λ _. h))
]

pub mark_duplicates-IsStaged :
    (seen : List String) (lines : List ParsedImportLine)
    → All IsStaged lines
    → All IsStaged (mark_duplicates seen lines)
unfolding mark_duplicates
mark_duplicates-IsStaged seen [] h = tt
mark_duplicates-IsStaged seen (line ∷ lines) h = elim (Option-cases (valid_email line)) [
  | inl e ↦ rw (mark-none seen line lines e) (h.0, mark_duplicates-IsStaged seen lines h.1)
  | inr (email, e) ↦ rw (mark-some seen line lines email e) (
    if_cases IsStaged (in_texts email seen) (in_conflict "IMPORT_BATCH_DUPLICATE" line) line
        (λ _. refl) (λ _. h.0),
    mark_duplicates-IsStaged (email ∷ seen) lines h.1,
  )
]

pub map-IsStaged :
    (db : Db) (lines : List ParsedImportLine)
    → All IsStaged lines
    → All IsStaged (map (mark_existing db) lines)
map-IsStaged db [] h = tt
map-IsStaged db (line ∷ lines) h = (mark_existing-IsStaged db line h.0, map-IsStaged db lines h.1)

-- Of lines that are valid, invalid or in conflict, the three counts add up to their number.
pub counts_add_up :
    (lines : List ParsedImportLine)
    → All IsStaged lines
    → count_where (has_status valid) lines
        + count_where (has_status invalid) lines
        + count_where (has_status conflict) lines
      ≡ length lines
unfolding count_where
counts_add_up [] h = refl
counts_add_up (line ∷ lines) h = ground (arith, h.0, counts_add_up lines h.1)
