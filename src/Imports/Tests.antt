-- ===== src/Imports/Tests.antt =====
-- The theorems on imports, at a line of text and at a batch of three lines.
use smart_email_manager.Prelude.{
  ℕ, ◌+◌, ◌≡◌, refl, true, false, none, some, ◌==◌, map, length, count_where, All, strip, is_space,
  drop_spaces, drop_end, find_where,
}
use smart_email_manager.Problem.{ok}
use smart_email_manager.Accounts.Model.{get_account}
use smart_email_manager.Imports.Lines.{parse_import_line}
use smart_email_manager.Imports.Content.{item_status_code, splitlines}
use smart_email_manager.Imports.Model.{BatchStatus, ImportBatch}
use smart_email_manager.Imports.Batch.{get_import_batch, existing_batch, checked_lines}
use smart_email_manager.Imports.Split.{has_separator}
use smart_email_manager.Imports.RoundTrip.{line_of, valid_line, parse_import_line-line_of}
use smart_email_manager.Imports.Leftover.{left_over, is_created_by}
use smart_email_manager.Imports.Undoing.{rollback_import_batch-left}
use smart_email_manager.Imports.OwnEmails.{HaveOwnEmails}
use smart_email_manager.Imports.Committing.{commit_validated-adds}
use smart_email_manager.Imports.Duplicates.{IsNew, HaveOwnAddresses}
use smart_email_manager.Imports.Numbering.{NumbersFilled}
use smart_email_manager.Imports.Staging.{item_mark, line_mark, create_import_batch-stages}
use smart_email_manager.Imports.Samples.{
  any_email, one_uuid, same_text, plain_cipher, one_nonce, account_ids, before_import, request,
  staged, staged_batch, creating, committed, committed_one, committing, none_created_yet, undone,
  undone_batch, undoing,
}

parse_import_line-line_of_example :
    (parse_import_line any_email one_uuid same_text (line_of "n@x.org" "p-w" "c-1" "t") 4 "outlook"
      ≡ valid_line any_email one_uuid same_text 4 "n@x.org" "n@x.org" "p-w" "c-1" "t")
    × (one_uuid "t" ≡ false
        → parse_import_line any_email one_uuid same_text
            (line_of "n@x.org" "p-w" "t" "c-1")
            4
            "outlook"
          ≡ valid_line any_email one_uuid same_text 4 "n@x.org" "n@x.org" "p-w" "c-1" "t")
unfolding strip drop_spaces drop_end is_space has_separator
parse_import_line-line_of_example =
    parse_import_line-line_of any_email one_uuid same_text 4 "n@x.org" "n@x.org" "p-w" "c-1" "t"
      (refl, refl) (refl, refl) (refl, refl) (refl, refl) refl refl refl

create_import_batch-stages_example :
    (staged_batch.valid_count + staged_batch.invalid_count + staged_batch.conflict_count
      ≡ staged_batch.total_count)
    × (length staged_batch.items ≡ staged_batch.total_count)
    × NumbersFilled (splitlines request.content) (map (λ i. i.line_number) staged_batch.items)
    × (map item_mark staged_batch.items
        ≡ map line_mark (checked_lines any_email one_uuid same_text request before_import))
    × (staged_batch.valid_count
        ≡ count_where (λ i. item_status_code i.status == 0) staged_batch.items)
    × HaveOwnAddresses (checked_lines any_email one_uuid same_text request before_import)
    × All (IsNew before_import) (checked_lines any_email one_uuid same_text request before_import)
unfolding existing_batch find_where
create_import_batch-stages_example =
    create_import_batch-stages any_email one_uuid same_text plain_cipher one_nonce 30 200 (some "k")
      request before_import staged staged_batch refl creating

commit_validated-adds_example :
    (length committed.base.accounts ≡ length staged.base.accounts + committed_one.created_count)
    × (HaveOwnEmails staged.base.accounts → HaveOwnEmails committed.base.accounts)
commit_validated-adds_example =
    commit_validated-adds plain_cipher one_nonce account_ids 210 211 staged_batch committed_one
      staged committed none_created_yet committing

rollback_import_batch-left_example :
    (batch : ImportBatch) × (get_import_batch 30 committed ≡ ok batch)
    × ((id : ℕ)
        → get_account undone.base id
          ≡ left_over (is_created_by id batch.items) (get_account committed.base id))
    × ((id : ℕ)
        → undone_batch.status ≡ BatchStatus.rolled_back
        → is_created_by id batch.items ≡ true
        → get_account undone.base id ≡ none)
rollback_import_batch-left_example =
    rollback_import_batch-left 220 30 committed undone undone_batch undoing
