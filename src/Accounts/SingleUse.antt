-- ===== src/Accounts/SingleUse.antt =====
-- What the token of a preview executes, and that it does so once.
use text.Mathlib.TextPositions.{eq_refl}
use smart_email_manager.Prelude.{
  find_where-added, ℕ, ◌+◌, ◌≤◌, ◌<◌, ◌≡◌, refl, sym, ap, ◌∙◌, String, Bool, true, false, none,
  some, List, [], ◌∷◌, ◌++◌, map, arith, leb, if_cases, is_some, str_eq, length, select_where,
  find_where-update_where, find_where-member,
}
use smart_email_manager.Problem.{ok, err, problem, first_step, ok-injective}
use smart_email_manager.Accounts.Model
use smart_email_manager.Accounts.Model.{Account}
use smart_email_manager.Accounts.Pages.{TextOps}
use smart_email_manager.Accounts.Cursor.{CursorCodec}
use smart_email_manager.Accounts.Bulk.{
  AccountBulkChanges, AccountBulkResult, validate_bulk_changes, bulk_changed_account_ids,
  is_changed, bulk_mutate_accounts,
}
use smart_email_manager.Accounts.Views.{FilterJson, SavedAccountView}
use smart_email_manager.Accounts.Previews.{
  AccountBulkPreview, Db, AccountBulkSelection, AccountBulkPreviewRead, check_some,
  selected_accounts, new_preview, read_preview, create_bulk_preview, find_preview, preview_or_404,
  check_unused, check_current, consume, execute_bulk_preview,
}

find_preview-consume :
    (hash : String) (wall : ℕ) (p : AccountBulkPreview) (previews : List AccountBulkPreview)
    → find_preview hash previews ≡ some p
    → find_preview hash (consume hash wall previews) ≡ some (record p { consumed_at = some wall })
unfolding find_preview consume
find_preview-consume hash wall p previews h =
    let hit = (find_where-member (λ x. str_eq x.token_hash hash) previews p h).1 in
    find_where-update_where (λ x. str_eq x.token_hash hash) (λ x. str_eq x.token_hash hash)
      (λ x. record x { consumed_at = some wall }) previews
      (λ x.
        if_cases (λ y. str_eq y.token_hash hash ≡ str_eq x.token_hash hash)
          (str_eq x.token_hash hash) (record x { consumed_at = some wall }) x (λ _. refl)
          (λ _. refl))
    ∙ rw (h, hit) refl

module _ (sha256 : String → String) (token : String) (wall : ℕ) (p : AccountBulkPreview) (db : Db)
    (found : find_preview (sha256 token) db.previews ≡ some p) where
  preview_or_404-found : preview_or_404 (sha256 token) db ≡ ok p
  unfolding preview_or_404
  preview_or_404-found = rw (preview_or_404, found) refl

  execute-used :
      is_some p.consumed_at ≡ true
      → execute_bulk_preview sha256 token wall db ≡ err (problem 409 "BULK_PREVIEW_ALREADY_USED")
  unfolding execute_bulk_preview check_unused
  execute-used used = rw (preview_or_404-found, used) refl

  execute-expired :
      is_some p.consumed_at ≡ false
      → leb p.expires_at wall ≡ true
      → execute_bulk_preview sha256 token wall db ≡ err (problem 410 "BULK_PREVIEW_EXPIRED")
  unfolding execute_bulk_preview check_unused check_current
  execute-expired unused expired = rw (preview_or_404-found, unused, expired) refl

  execute-runs :
      (base : Model.Db) (result : AccountBulkResult)
      → is_some p.consumed_at ≡ false
      → leb p.expires_at wall ≡ false
      → bulk_mutate_accounts p.account_ids p.mutation db.base ≡ ok (base, result)
      → execute_bulk_preview sha256 token wall db
        ≡ ok (record db { base = base; previews = consume (sha256 token) wall db.previews }, result)
  unfolding execute_bulk_preview check_unused check_current
  execute-runs base result unused current h = rw (preview_or_404-found, unused, current, h) refl

check_some-same :
    (found accounts : List Account) → check_some found ≡ ok accounts → found ≡ accounts
check_some-same [] accounts h = absurd (cc h)
check_some-same (a ∷ found) accounts h = ok-injective (a ∷ found) accounts h

length-ids : (rows : List Account) → length (map (λ a. a.id) rows) ≡ length rows
length-ids [] = refl
length-ids (a ∷ rows) = omega (arith, length-ids rows)

length-select_where :
    (p : Account → Bool) (rows : List Account) → length (select_where p rows) ≤ length rows
unfolding select_where
length-select_where p [] = omega arith
length-select_where p (a ∷ rows) = ground (arith, length-select_where p rows)

changed_at_most :
    (accounts : List Account) (changes : AccountBulkChanges) (db : Model.Db)
    → length (bulk_changed_account_ids accounts changes db) ≤ length accounts
unfolding bulk_changed_account_ids
changed_at_most accounts changes db = omega (
  arith,
  length-ids (select_where (is_changed changes db) accounts),
  length-select_where (is_changed changes db) accounts,
)

module _ (codec : CursorCodec) (ops : TextOps) (json : FilterJson) (sha256 : String → String) where
  -- What a created preview stores.
  created_preview :
      (token : String) (wall : ℕ) (selection : AccountBulkSelection) (changes : AccountBulkChanges)
      (db db' : Db) (read : AccountBulkPreviewRead)
      → create_bulk_preview codec ops json sha256 token wall selection changes db ≡ ok (db', read)
      → (accounts : List Account) × (selected_accounts codec ops json wall selection db
          ≡ ok accounts)
        × (db'.base ≡ db.base)
        × (db'.previews
            ≡ db.previews
              ++ new_preview codec ops json (sha256 token) wall changes accounts db.base ∷ [])
        × (read
            ≡ read_preview codec ops json token
                (new_preview codec ops json (sha256 token) wall changes accounts db.base))
  unfolding create_bulk_preview
  created_preview token wall selection changes db db' read h =
      let (checked, valid, rest) =
        first_step _ (validate_bulk_changes changes db.base) (db', read) h in
      let (found, selected, rest') =
        first_step _ (selected_accounts codec ops json wall selection db) (db', read) rest in
      let (accounts, some_there, rest'') = first_step _ (check_some found) (db', read) rest' in
      let made = ok-injective _ (db', read) rest'' in
      (
        accounts,
        selected ∙ ap ok (check_some-same found accounts some_there),
        ap (λ r. r.0.base) (sym made),
        ap (λ r. r.0.previews) (sym made),
        ap (λ r. r.1) (sym made),
      )

  -- The token of a new preview, whose hash no preview had, executes the previewed change on exactly
  -- the accounts that were selected when the preview was made, whatever the tables of the
  -- accounts are by then and if the change is still valid. It does so before the expiry that
  -- the answer names and only once: a second execution is refused at any time and from the
  -- expiry on so is the first. Eligible and skipped accounts are as many as the selected ones.
  pub create_bulk_preview-executes :
      (token : String) (wall : ℕ) (selection : AccountBulkSelection) (changes : AccountBulkChanges)
      (db db' : Db) (read : AccountBulkPreviewRead)
      → find_preview (sha256 token) db.previews ≡ none
      → create_bulk_preview codec ops json sha256 token wall selection changes db ≡ ok (db', read)
      → (accounts : List Account) × (selected_accounts codec ops json wall selection db
          ≡ ok accounts)
        × (db'.base ≡ db.base)
        × (read.matched_count ≡ length accounts)
        × (read.eligible_count + read.skipped_count ≡ length accounts)
        × ((later : ℕ) (base base' : Model.Db) (views : List SavedAccountView)
              (result : AccountBulkResult)
            → later < read.expires_at
            → bulk_mutate_accounts (map (λ a. a.id) accounts) changes base ≡ ok (base', result)
            → (end : Db) × (end.base ≡ base')
              × (execute_bulk_preview sha256 token later
                    (record { base = base; views = views; previews = db'.previews })
                  ≡ ok (end, result))
              × ((again : ℕ)
                  → execute_bulk_preview sha256 token again end
                    ≡ err (problem 409 "BULK_PREVIEW_ALREADY_USED")))
        × ((later : ℕ) (base : Model.Db) (views : List SavedAccountView)
            → read.expires_at ≤ later
            → execute_bulk_preview sha256 token later
                (record { base = base; views = views; previews = db'.previews })
              ≡ err (problem 410 "BULK_PREVIEW_EXPIRED"))
  unfolding find_preview
  create_bulk_preview-executes token wall selection changes db db' read fresh h =
      let (accounts, selected, base_same, stored, answer) =
        created_preview token wall selection changes db db' read h in
      let new = new_preview codec ops json (sha256 token) wall changes accounts db.base in
      let found : find_preview (sha256 token) db'.previews ≡ some new =
        ap (λ ps. find_preview (sha256 token) ps) stored
        ∙ find_where-added (λ p. str_eq p.token_hash (sha256 token)) new db.previews fresh
            (eq_refl (sha256 token)) in
      let expiry : read.expires_at ≡ new.expires_at = ap (λ r. r.expires_at) answer in
      (
        accounts,
        selected,
        base_same,
        ap (λ r. r.matched_count) answer,
        omega (
          arith,
          ap (λ r. r.eligible_count) answer,
          ap (λ r. r.skipped_count) answer,
          changed_at_most accounts changes db.base,
        ),
        λ later base base' views result early valid. (
          record {
            base = base';
            views = views;
            previews = consume (sha256 token) later db'.previews;
          },
          refl,
          execute-runs sha256 token later new
              (record { base = base; views = views; previews = db'.previews }) found base' result
              refl (ground (arith, early, expiry)) valid,
          λ again.
              execute-used sha256 token again (record new { consumed_at = some later })
                (record {
                  base = base';
                  views = views;
                  previews = consume (sha256 token) later db'.previews;
                })
                (find_preview-consume (sha256 token) later new db'.previews found) refl,
        ),
        λ later base views late.
            execute-expired sha256 token later new
              (record { base = base; views = views; previews = db'.previews }) found refl
              (ground (arith, late, expiry)),
      )
