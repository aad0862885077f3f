-- ===== src/Imports/Duplicates.antt =====
-- Lines of an import that have one address: only the first can stay valid.
use smart_email_manager.Prelude.{
  ◌≡◌, refl, sym, ap, ◌∙◌, String, Bool, true, false, ◌||◌, none, some, some-injective, List, [],
  ◌∷◌, if◌then◌else◌, if_cases, Option-cases, inl, inr, str_eq, All, All-mono,
}
use smart_email_manager.Imports.Lines.{ParsedImportLine}
use smart_email_manager.Imports.Content.{in_texts, valid_email, in_conflict, mark_duplicates}
use smart_email_manager.Imports.Model.{Db, email_exists}

-- The valid address of a line, where it has one, is none of an account or an alias.
abbrev pub IsNew : Db → ParsedImportLine → Type 0
IsNew db line = (email : String) → valid_email line ≡ some email → email_exists db email ≡ false

abbrev pub IsApart : String → ParsedImportLine → Type 0
IsApart email line = (other : String) → valid_email line ≡ some other → str_eq other email ≡ false

-- No two lines are valid with the same address.
abbrev pub HaveOwnAddresses : List ParsedImportLine → Type 0
HaveOwnAddresses [] = Unit
HaveOwnAddresses (line ∷ lines) =
    ((email : String) → valid_email line ≡ some email → All (IsApart email) lines)
    × HaveOwnAddresses lines

abbrev IsUnseen : List String → ParsedImportLine → Type 0
IsUnseen seen line = (email : String) → valid_email line ≡ some email → in_texts email seen ≡ false

pub conflict_vacuous {ℓ} :
    {A : Type ℓ} (code email : String) (line : ParsedImportLine)
    → valid_email (in_conflict code line) ≡ some email
    → A
conflict_vacuous code email line h = absurd (cc h)

pub mark-none :
    (seen : List String) (line : ParsedImportLine) (lines : List ParsedImportLine)
    → valid_email line ≡ none
    → mark_duplicates seen (line ∷ lines) ≡ line ∷ mark_duplicates seen lines
unfolding mark_duplicates
mark-none seen line lines e = rw (mark_duplicates, e) refl

pub mark-some :
    (seen : List String) (line : ParsedImportLine) (lines : List ParsedImportLine) (email : String)
    → valid_email line ≡ some email
    → mark_duplicates seen (line ∷ lines)
      ≡ (if in_texts email seen then in_conflict "IMPORT_BATCH_DUPLICATE" line else line)
        ∷ mark_duplicates (email ∷ seen) lines
unfolding mark_duplicates
mark-some seen line lines email e = rw (mark_duplicates, e) refl

unseen_of :
    (email : String) (seen : List String) (other : String)
    → in_texts other (email ∷ seen) ≡ false
    → (str_eq other email ≡ false) × (in_texts other seen ≡ false)
unfolding in_texts
unseen_of email seen other h = neither (str_eq other email) (in_texts other seen) h
  where
    neither : (a b : Bool) → (a || b) ≡ false → (a ≡ false) × (b ≡ false)
    neither true b h = absurd (cc h)
    neither false b h = (refl, h)

mark_duplicates-IsUnseen :
    (seen : List String) (lines : List ParsedImportLine)
    → All (IsUnseen seen) (mark_duplicates seen lines)
unfolding mark_duplicates
mark_duplicates-IsUnseen seen [] = tt
mark_duplicates-IsUnseen seen (line ∷ lines) = elim (Option-cases (valid_email line)) [
  | inl e ↦
      rw (mark-none seen line lines e)
        (λ email h. absurd (cc (e, h)), mark_duplicates-IsUnseen seen lines)
  | inr (email, e) ↦ rw (mark-some seen line lines email e) (
    if_cases (IsUnseen seen) (in_texts email seen) (in_conflict "IMPORT_BATCH_DUPLICATE" line) line
        (λ _ other h. conflict_vacuous "IMPORT_BATCH_DUPLICATE" other line h)
        (λ fresh other h.
          ap (λ s. in_texts s seen) (some-injective other email (sym h ∙ e)) ∙ fresh),
    All-mono (IsUnseen (email ∷ seen)) (IsUnseen seen) (mark_duplicates (email ∷ seen) lines)
        (λ l k other h. (unseen_of email seen other (k other h)).1)
        (mark_duplicates-IsUnseen (email ∷ seen) lines),
  )
]

pub mark_duplicates-HaveOwnAddresses :
    (seen : List String) (lines : List ParsedImportLine)
    → HaveOwnAddresses (mark_duplicates seen lines)
unfolding mark_duplicates
mark_duplicates-HaveOwnAddresses seen [] = tt
mark_duplicates-HaveOwnAddresses seen (line ∷ lines) = elim (Option-cases (valid_email line)) [
  | inl e ↦
      rw (mark-none seen line lines e)
        (λ email h. absurd (cc (e, h)), mark_duplicates-HaveOwnAddresses seen lines)
  | inr (email, e) ↦ rw (mark-some seen line lines email e) (
    if_cases
        (λ l.
          (own : String)
          → valid_email l ≡ some own
          → All (IsApart own) (mark_duplicates (email ∷ seen) lines))
        (in_texts email seen) (in_conflict "IMPORT_BATCH_DUPLICATE" line) line
        (λ _ other h. conflict_vacuous "IMPORT_BATCH_DUPLICATE" other line h)
        (λ fresh own h.
          All-mono (IsUnseen (email ∷ seen)) (IsApart own) (mark_duplicates (email ∷ seen) lines)
            (λ l k other q.
              ap (λ s. str_eq other s) (some-injective own email (sym h ∙ e))
              ∙ (unseen_of email seen other (k other q)).0)
            (mark_duplicates-IsUnseen (email ∷ seen) lines)),
    mark_duplicates-HaveOwnAddresses (email ∷ seen) lines,
  )
]
