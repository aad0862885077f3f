-- ===== src/Imports/Staging.antt =====
-- What a new batch makes of the lines of its text.
use smart_email_manager.Prelude.{
  ℕ, ◌+◌, ◌≡◌, refl, sym, ap, subst, ◌∙◌, String, Bool, true, false, Option, none, some, List, [],
  ◌∷◌, arith, ◌==◌, if◌then◌else◌, count_where, length, All, map,
}
use smart_email_manager.Problem.{Failure, ok, err, first_step, ok-injective}
use smart_email_manager.Accounts.Edit.{check_group}
use smart_email_manager.Encryption.{AccountSecretCipher}
use smart_email_manager.Imports.Lines.{ItemStatus, valid, ParsedImportLine}
use smart_email_manager.Imports.Content.{item_status_code, splitlines, parse_import_content}
use smart_email_manager.Imports.Model.{ImportBatch, ImportBatchItem, Db}
use smart_email_manager.Imports.Batch.{
  ImportBatchCreate, existing_batch, batch_key_is_taken, has_status, batch_item, new_batch,
  checked_lines, filled_batch, insert_batch, create_import_batch,
}
use smart_email_manager.Imports.Duplicates.{
  IsNew, HaveOwnAddresses, mark_duplicates-HaveOwnAddresses,
}
use smart_email_manager.Imports.Numbering.{line_numbers, NumbersFilled, numbered-NumbersFilled}
use smart_email_manager.Imports.Reading.{checked_lines-IsStaged, checked_lines-line_numbers}
use smart_email_manager.Imports.Marking.{
  mark_existing-IsNew, mark_existing-HaveOwnAddresses, counts_add_up,
}

unless_step {ℓ} :
    {Answer : Type ℓ} (test : Bool) (failure : Failure) (answer end : Answer)
    → (if test then err failure else ok answer) ≡ ok end
    → (test ≡ false) × (answer ≡ end)
unless_step true failure answer end h = absurd (cc h)
unless_step false failure answer end h = (refl, ok-injective answer end h)

-- The status and the address of an item, and of a line.
abbrev pub item_mark : ImportBatchItem → ItemStatus × Option String
item_mark item = (item.status, item.email_normalized)

abbrev pub line_mark : ParsedImportLine → ItemStatus × Option String
line_mark line = (line.status, line.email_normalized)

length-map {ℓ κ} :
    {A : Type ℓ} {B : Type κ} (f : A → B) (xs : List A) → length (map f xs) ≡ length xs
length-map f [] = refl
length-map f (x ∷ xs) = omega (arith, length-map f xs)

module _ (cipher : AccountSecretCipher) (nonces : ℕ → String → String) (batch : ImportBatch) where
  items-lines :
      (lines : List ParsedImportLine)
      → (map (λ i. i.line_number) (map (batch_item cipher nonces batch) lines) ≡ line_numbers lines)
        × (map item_mark (map (batch_item cipher nonces batch) lines) ≡ map line_mark lines)
  unfolding batch_item
  items-lines [] = (refl, refl)
  items-lines (line ∷ lines) =
      let (numbers, rest) = items-lines lines in
      (
        ap (λ ns. line.line_number ∷ ns) numbers,
        ap (λ ps. (line.status, line.email_normalized) ∷ ps) rest,
      )

  items-valid :
      (lines : List ParsedImportLine)
      → count_where (has_status valid) lines
        ≡ count_where
            (λ i. item_status_code i.status == 0)
            (map (batch_item cipher nonces batch) lines)
  unfolding count_where batch_item
  items-valid [] = refl
  items-valid (line ∷ lines) =
      ap (λ n. (if has_status valid line then 1 else 0) + n) (items-valid lines)

module _ (validate_email : String → Option String) (is_uuid : String → Bool)
    (lower : String → String) where
  module _ (cipher : AccountSecretCipher) (nonces : ℕ → String → String) (id now : ℕ)
      (key : Option String) (payload : ImportBatchCreate) (db : Db) where
    created_fresh :
        existing_batch key db ≡ none
        → create_import_batch cipher nonces validate_email is_uuid lower id now key payload db
          ≡ insert_batch cipher nonces validate_email is_uuid lower id now key payload db
    unfolding create_import_batch
    created_fresh e = rw (create_import_batch, e) refl

    inserted :
        (db' : Db) (batch : ImportBatch)
        → insert_batch cipher nonces validate_email is_uuid lower id now key payload db
          ≡ ok (db', batch)
        → filled_batch cipher nonces validate_email is_uuid lower id now key payload db ≡ batch
    unfolding insert_batch
    inserted db' batch h =
        let (checked, group, rest) =
          first_step _ (check_group (some payload.group_id) db.base) (db', batch) h in
        let (free, done) = unless_step (batch_key_is_taken key db) _ _ (db', batch) rest in
        ap (λ r. r.1) done

  -- A batch that is created under a key which no batch has yet, or under none, has exactly one item
  -- for each line of the text that is not blank, under the number of the line, and its counts of
  -- valid, invalid and conflicting lines add up to the total, the number of its items. The items have
  -- the status and the address of the checked lines, of which no two are valid with the same address,
  -- and no valid one has the address of an account or an alias.
  pub create_import_batch-stages :
      (cipher : AccountSecretCipher) (nonces : ℕ → String → String) (id now : ℕ)
      (key : Option String) (payload : ImportBatchCreate) (db db' : Db) (batch : ImportBatch)
      → existing_batch key db ≡ none
      → create_import_batch cipher nonces validate_email is_uuid lower id now key payload db
        ≡ ok (db', batch)
      → let lines = checked_lines validate_email is_uuid lower payload db in
        (batch.valid_count + batch.invalid_count + batch.conflict_count ≡ batch.total_count)
        × (length batch.items ≡ batch.total_count)
        × NumbersFilled (splitlines payload.content) (map (λ i. i.line_number) batch.items)
        × (map item_mark batch.items ≡ map line_mark lines)
        × (batch.valid_count ≡ count_where (λ i. item_status_code i.status == 0) batch.items)
        × HaveOwnAddresses lines
        × All (IsNew db) lines
  unfolding checked_lines parse_import_content
  create_import_batch-stages cipher nonces id now key payload db db' batch fresh h =
      let made =
        inserted cipher nonces id now key payload db db' batch
          (sym (created_fresh cipher nonces id now key payload db fresh) ∙ h) in
      let lines = checked_lines validate_email is_uuid lower payload db in
      let bare = new_batch cipher nonces lower id now key payload lines in
      let (numbers, rest) = items-lines cipher nonces bare lines in
      rw (sym made) (
        counts_add_up lines (checked_lines-IsStaged validate_email is_uuid lower payload db),
        length-map (batch_item cipher nonces bare) lines,
        subst (NumbersFilled (splitlines payload.content))
            (sym (numbers ∙ checked_lines-line_numbers validate_email is_uuid lower payload db))
            (numbered-NumbersFilled (splitlines payload.content)),
        rest,
        items-valid cipher nonces bare lines,
        mark_existing-HaveOwnAddresses db _ (mark_duplicates-HaveOwnAddresses [] _),
        mark_existing-IsNew db _,
      )
