-- ===== src/Imports/Reading.antt =====
-- What the lines of an import are when they have been read and checked: their marks and numbers.
use smart_email_manager.Prelude.{
  ℕ, ◌≡◌, refl, subst, ◌∙◌, String, Bool, true, false, Option, none, some, some-injective, List, [],
  ◌∷◌, if◌then◌else◌, if_cases, str_eq, All, map, strip,
}
use smart_email_manager.Imports.Lines.{
  ◌>>=◌, ParsedImportLine, split, invalid_line, normalize_email, client_and_token, read_fields,
  parse_import_line,
}
use smart_email_manager.Imports.Content.{
  mark_duplicates, numbered, splitlines, parse_lines, parse_import_content,
}
use smart_email_manager.Imports.Model.{Db}
use smart_email_manager.Imports.Batch.{ImportBatchCreate, checked_lines}
use smart_email_manager.Imports.Numbering.{
  line_numbers, mark_existing-line_numbers, mark_duplicates-line_numbers,
}
use smart_email_manager.Imports.Marking.{IsStaged, mark_duplicates-IsStaged, map-IsStaged}

some_step {ℓ κ} :
    {A : Type ℓ} {B : Type κ} (continue : A → Option B) (first : Option A) (end : B)
    → (first >>= continue) ≡ some end
    → (a : A) × (first ≡ some a) × (continue a ≡ some end)
some_step continue none end h = absurd (cc h)
some_step continue (some a) end h = (a, refl, h)

filled_step {ℓ} :
    {A : Type ℓ} (empty : Bool) (a end : A) → (if empty then none else some a) ≡ some end → a ≡ end
filled_step true a end h = absurd (cc h)
filled_step false a end h = some-injective a end h

-- The line has the number it was read under.
abbrev IsRead : ℕ → ParsedImportLine → Type 0
IsRead n line = IsStaged line × (line.line_number ≡ n)

module _ (validate_email : String → Option String) (is_uuid : String → Bool)
    (lower : String → String) where
  read_fields-IsRead :
      (n : ℕ) (parts : List String) (line : ParsedImportLine)
      → read_fields validate_email is_uuid lower n parts ≡ some line
      → IsRead n line
  unfolding read_fields
  read_fields-IsRead n (address ∷ password ∷ third ∷ fourth ∷ []) line h =
      let (found, read, rest) =
        some_step _ (normalize_email validate_email is_uuid lower address) line h in
      let (tokens, split, rest') =
        some_step _ (client_and_token validate_email is_uuid lower third fourth) line rest in
      let made = filled_step (str_eq tokens.1 "") _ line rest' in subst (IsRead n) made (refl, refl)
  read_fields-IsRead n [] line h = absurd (cc h)
  read_fields-IsRead n (a ∷ []) line h = absurd (cc h)
  read_fields-IsRead n (a ∷ b ∷ []) line h = absurd (cc h)
  read_fields-IsRead n (a ∷ b ∷ c ∷ []) line h = absurd (cc h)
  read_fields-IsRead n (a ∷ b ∷ c ∷ d ∷ e ∷ parts) line h = absurd (cc h)

  parse_import_line-IsRead :
      (text account_type : String) (n : ℕ)
      → IsRead n (parse_import_line validate_email is_uuid lower text n account_type)
  unfolding parse_import_line
  parse_import_line-IsRead text account_type n =
      go
        (if str_eq account_type "outlook"
          then read_fields validate_email is_uuid lower n (map strip (split text))
          else none)
        (if_cases (λ o. (line : ParsedImportLine) → o ≡ some line → IsRead n line)
          (str_eq account_type "outlook") _ none
          (λ _ line h. read_fields-IsRead n (map strip (split text)) line h)
          (λ _ line h. absurd (cc h)))
    where
      go :
          (o : Option ParsedImportLine)
          → ((line : ParsedImportLine) → o ≡ some line → IsRead n line)
          → IsRead n (elim o as (λ _. ParsedImportLine) [
            | none ↦ invalid_line validate_email is_uuid lower n (map strip (split text))
            | some parsed ↦ parsed
          ])
      go none h = (refl, refl)
      go (some line) h = h line refl

  parse_lines-IsStaged :
      (account_type : String) (lines : List (ℕ × String))
      → All IsStaged (parse_lines validate_email is_uuid lower account_type lines)
  parse_lines-IsStaged account_type [] = tt
  parse_lines-IsStaged account_type (line ∷ lines) = (
    (parse_import_line-IsRead line.1 account_type line.0).0,
    parse_lines-IsStaged account_type lines,
  )

  parse_lines-line_numbers :
      (account_type : String) (lines : List (ℕ × String))
      → line_numbers (parse_lines validate_email is_uuid lower account_type lines)
        ≡ map (λ l. l.0) lines
  parse_lines-line_numbers account_type [] = refl
  parse_lines-line_numbers account_type (line ∷ lines) =
      rw
        (
          (parse_import_line-IsRead line.1 account_type line.0).1,
          parse_lines-line_numbers account_type lines,
        )
        refl

  pub checked_lines-line_numbers :
      (payload : ImportBatchCreate) (db : Db)
      → line_numbers (checked_lines validate_email is_uuid lower payload db)
        ≡ map (λ l. l.0) (numbered 1 (splitlines payload.content))
  unfolding checked_lines parse_import_content
  checked_lines-line_numbers payload db =
      let lines = numbered 1 (splitlines payload.content) in
      let parsed = parse_lines validate_email is_uuid lower payload.account_type lines in
      mark_existing-line_numbers db (mark_duplicates [] parsed)
      ∙ mark_duplicates-line_numbers [] parsed
      ∙ parse_lines-line_numbers payload.account_type lines

  pub checked_lines-IsStaged :
      (payload : ImportBatchCreate) (db : Db)
      → All IsStaged (checked_lines validate_email is_uuid lower payload db)
  unfolding checked_lines parse_import_content
  checked_lines-IsStaged payload db = map-IsStaged db _ (
      mark_duplicates-IsStaged [] _
        (parse_lines-IsStaged payload.account_type (numbered 1 (splitlines payload.content))))
