-- ===== src/Accounts/Walk.antt =====
-- Following the cursors of `list_accounts` from the first page to the last.
use mathlib.Core.List.{append_assoc}
use smart_email_manager.Prelude.{
  ℕ, zero, suc, ◌+◌, ◌<◌, String, ◌≡◌, refl, sym, ap, subst, ◌∙◌, inl, inr, Option, none, some,
  List, [], ◌∷◌, ◌++◌, arith, ltb, length, length-append, select_where, take_rows, order_rows,
  IsSorted, order_rows-IsSorted, select_where-order_rows, UniqueBy, UniqueBy-select_where,
  Bool-cases,
}
use smart_email_manager.Problem.{Result, ok, err}
use smart_email_manager.Accounts.Model.{Account, Db}
use smart_email_manager.Accounts.Pages.{
  TextOps, AccountQuery, matches, newer, past_cursor, cursor_at, cursor_after, page_rows, page,
  cursor_position, list_accounts,
}
use smart_email_manager.Accounts.Cursor.{AccountCursor, CursorCodec, encode_account_cursor}
use smart_email_manager.Accounts.CursorTrip.{encode-not_empty, decode-encode}
use smart_email_manager.Accounts.Suffix.{
  newer-WeakOrder, select_where-true, select_where-and, past-suffix, split_page,
  take_rows-take_rows, more-take_rows, take_rows-all, All-past_none, order_rows-UniqueBy,
}

abbrev pub prepend : List Account → Result (List Account) → Result (List Account)
prepend items (err failure) = err failure
prepend items (ok rest) = ok (items ++ rest)

module _ (codec : CursorCodec) (ops : TextOps) (query : AccountQuery) (k : ℕ) (db : Db) where
  -- The pages from a cursor on, each of `suc k` accounts at most, for a client that asks for at most
  -- `fuel` of them.
  pub walk : ℕ → Option String → Result (List Account)
  walk zero cursor = ok []
  walk (suc fuel) cursor = elim (list_accounts codec ops query (suc k) cursor db) [
    | err failure ↦ err failure
    | ok (items, next) ↦ elim next [
      | none ↦ ok items
      | some text ↦ prepend items (walk fuel (some text))
    ]
  ]

  -- All the accounts that the query selects, newest first.
  abbrev pub selected : List Account
  selected = order_rows newer (select_where (matches ops db query) db.accounts)

  page_rows-past :
      (position : Option AccountCursor)
      → page_rows (matches ops db query) (suc k) position db
        ≡ take_rows (suc (suc k)) (select_where (past_cursor position) selected)
  unfolding page_rows
  page_rows-past position =
      let one_more : suc k + 1 ≡ suc (suc k) = omega arith in
      rw
        (
          one_more,
          select_where-and (matches ops db query) (past_cursor position) db.accounts,
          ← select_where-order_rows newer newer-WeakOrder (past_cursor position)
              (select_where (matches ops db query) db.accounts),
        )
        refl

  list-page :
      (text : Option String) (position : Option AccountCursor) (rest : List Account)
      → cursor_position codec text ≡ ok position
      → select_where (past_cursor position) selected ≡ rest
      → list_accounts codec ops query (suc k) text db
        ≡ ok (
          take_rows (suc k) rest,
          cursor_after codec (ltb (suc k) (length rest)) (take_rows (suc k) rest),
        )
  unfolding list_accounts page
  list-page text position rest e h =
      rw
        (
          e,
          page_rows-past position,
          h,
          more-take_rows (suc k) rest,
          take_rows-take_rows (suc k) rest,
        )
        refl

  position-encode :
      (a : Account)
      → cursor_position codec (some (encode_account_cursor codec (cursor_at a)))
        ≡ ok (some (cursor_at a))
  unfolding cursor_position
  position-encode a =
      rw (encode-not_empty codec (cursor_at a), decode-encode codec (cursor_at a)) refl

  walk-from :
      (fuel : ℕ) (text : Option String) (position : Option AccountCursor)
      (front rest : List Account)
      → UniqueBy (λ a. a.id) selected
      → cursor_position codec text ≡ ok position
      → selected ≡ front ++ rest
      → select_where (past_cursor position) selected ≡ rest
      → length rest < fuel
      → walk fuel text ≡ ok rest
  unfolding walk
  walk-from zero text position front rest unique e split h enough = absurd (omega arith)
  walk-from (suc fuel) text position front rest unique e split h enough =
      elim (Bool-cases (ltb (suc k) (length rest))) [
        | inr last ↦
            rw (walk, list-page text position rest e h, last, take_rows-all (suc k) rest last) refl
        | inl more ↦
            let (front', a, rest', cut, items, final) = split_page k rest (ground arith) in
            let whole : selected ≡ (front ++ front') ++ a ∷ rest' =
              split ∙ ap (λ xs. front ++ xs) cut ∙ sym (append_assoc front front' (a ∷ rest')) in
            let next : select_where (past_cursor (some (cursor_at a))) selected ≡ rest' = rw whole (
              past-suffix (front ++ front') a rest'
                (subst (IsSorted newer) whole (
                  order_rows-IsSorted newer newer-WeakOrder
                    (select_where (matches ops db query) db.accounts)))
                (subst (UniqueBy (λ b. b.id)) whole unique)) in
            let rest_walk : walk fuel (some (encode_account_cursor codec (cursor_at a)))
                ≡ ok rest' =
              walk-from fuel (some (encode_account_cursor codec (cursor_at a))) (some (cursor_at a))
                ((front ++ front') ++ a ∷ []) rest' unique (position-encode a)
                (whole ∙ sym (append_assoc (front ++ front') (a ∷ []) rest')) next
                (omega (arith, enough, ap length cut, length-append front' (a ∷ rest'))) in
            rw (walk, list-page text position rest e h, more, final, rest_walk)
              (rw items (ap ok (append_assoc front' (a ∷ []) rest' ∙ sym cut)))
      ]

  -- Where the ids of the accounts are distinct, whoever follows the cursors from the first page, with
  -- pages of any size above 0, gets every account that the query selects, newest first and each
  -- once, without an error and after no more pages than there are accounts and one, where the times,
  -- the ids, the JSON object and the base64 payload of a cursor are read back by Python's library as
  -- they were written, and base64 fills up its last group of four with fewer than four "=".
  pub walk_complete :
      (fuel : ℕ)
      → UniqueBy (λ a. a.id) db.accounts
      → length selected < fuel
      → walk fuel none ≡ ok selected
  unfolding cursor_position
  walk_complete fuel unique enough =
      walk-from fuel none none [] selected
        (order_rows-UniqueBy (select_where (matches ops db query) db.accounts)
          (UniqueBy-select_where (λ a. a.id) (matches ops db query) db.accounts unique))
        refl refl (select_where-true (past_cursor none) selected (All-past_none selected)) enough
