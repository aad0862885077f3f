-- ===== src/Accounts/Tests.antt =====
-- The theorems on accounts, at three accounts, two of them of one time.
use smart_email_manager.Prelude.{
  ℕ, List, map, length, ◌+◌, ◌≤◌, ◌<◌, some, find_where, order_rows, select_where, ◌≡◌, refl, arith,
  none, [], ◌∷◌,
}
use smart_email_manager.Problem.{ok, err, problem}
use smart_email_manager.Accounts.Bulk.{AccountBulkResult, bulk_mutate_accounts}
use smart_email_manager.Accounts.Views.{SavedAccountView}
use smart_email_manager.Accounts.Previews
use smart_email_manager.Accounts.Previews.{
  by_filter, selected_accounts, execute_bulk_preview, find_preview,
}
use smart_email_manager.Accounts.SingleUse.{create_bulk_preview-executes}
use smart_email_manager.Accounts.Model.{Account, Db, get_account}
use smart_email_manager.Accounts.Edit.{
  AccountUpdate, updated_account, update_account, archive_account,
}
use smart_email_manager.Accounts.Versions.{archived_one, done, next, update-loses_nothing}
use smart_email_manager.Accounts.Pages.{matches, newer}
use smart_email_manager.Accounts.Walk.{walk, walk_complete}
use smart_email_manager.Accounts.SampleCodec.{unary_codec}
use smart_email_manager.Accounts.Samples.{
  same_text, to_second_group, no_previews, previewed, preview_read, previewing, plain_text,
  plain_json, first, second, third, three, every_account, between, after_remark, remark_only,
  remarked_first, archived_second, archiving, remarking,
}

walk_complete_example :
    walk unary_codec plain_text every_account 0 three 4 none ≡ ok (third ∷ second ∷ first ∷ [])
unfolding order_rows select_where matches newer
walk_complete_example =
    walk_complete unary_codec plain_text every_account 0 three 4
      ((refl, (refl, tt)), ((refl, tt), (tt, tt))) (omega arith)

update-loses_nothing_example :
    (get_account between 5 ≡ some first)
    × (remarked_first ≡ updated_account (λ s. s) remark_only first)
    × (get_account after_remark 5 ≡ some remarked_first)
    × ((other : AccountUpdate)
        → other.row_version ≡ 1
        → update_account (λ s. s) 5 other after_remark
          ≡ err (problem 409 "ACCOUNT_VERSION_CONFLICT"))
    × (archive_account 5 1 after_remark ≡ err (problem 409 "ACCOUNT_VERSION_CONFLICT"))
unfolding get_account find_where
update-loses_nothing_example =
    update-loses_nothing (λ s. s) 5 three between after_remark remark_only first remarked_first refl
      refl (next (archived_one 6 1 archived_second archiving) done) remarking

create_bulk_preview-executes_example :
    (accounts : List Account) × (selected_accounts unary_codec plain_text plain_json 100
        (by_filter every_account none none)
        no_previews
      ≡ ok accounts)
    × (previewed.base ≡ three)
    × (3 ≡ length accounts)
    × (3 + 0 ≡ length accounts)
    × ((later : ℕ) (base base' : Db) (views : List SavedAccountView) (result : AccountBulkResult)
        → later < 1000
        → bulk_mutate_accounts (map (λ a. a.id) accounts) to_second_group base ≡ ok (base', result)
        → (end : Previews.Db) × (end.base ≡ base')
          × (execute_bulk_preview same_text "t1" later
                (record { base = base; views = views; previews = previewed.previews })
              ≡ ok (end, result))
          × ((again : ℕ)
              → execute_bulk_preview same_text "t1" again end
                ≡ err (problem 409 "BULK_PREVIEW_ALREADY_USED")))
    × ((later : ℕ) (base : Db) (views : List SavedAccountView)
        → 1000 ≤ later
        → execute_bulk_preview same_text "t1" later
            (record { base = base; views = views; previews = previewed.previews })
          ≡ err (problem 410 "BULK_PREVIEW_EXPIRED"))
unfolding find_preview find_where
create_bulk_preview-executes_example =
    create_bulk_preview-executes unary_codec plain_text plain_json same_text "t1" 100
      (by_filter every_account none none) to_second_group no_previews previewed preview_read refl
      previewing
