-- ===== src/Accounts/Pages.antt =====
-- `list_accounts`: a page of the accounts, newest first, behind a cursor. The lower case of a text
-- and the LIKE operators are PostgreSQL's and Python's own: they are the parameter `TextOps`.
use Prim.Native.String.{◌++◌ as str_append}
use smart_email_manager.Prelude.{
  ℕ, ◌+◌, String, Bool, true, false, not, ◌&&◌, ◌||◌, Option, none, some, List, [], ◌∷◌, map, ltb,
  leb, ◌==◌, if◌then◌else◌, is_some, str_eq, length, find_where, select_where, take_rows,
  order_rows, is_in, strip,
}
use smart_email_manager.Problem.{Result, ok, ◌>>=◌}
use smart_email_manager.Enums.{
  LifecycleStatus, AuthorizationStatus, TokenStatus, MailHealthStatus, ProxyHealthStatus,
  lifecycle_code, authorization_code, token_code, mail_health_code, proxy_health_code,
}
use smart_email_manager.Accounts.Model.{Account, Db}
use smart_email_manager.Accounts.Cursor.{
  AccountCursor, CursorCodec, encode_account_cursor, decode_account_cursor,
}

pub record TextOps : Type 0 where
  -- str.lower
  pub lower : String → String
  -- column.contains(text), with the wildcards of LIKE in the text
  pub contains : String → String → Bool
  -- column.ilike(pattern)
  pub ilike : String → String → Bool

pub record AccountViewFilters : Type 0 where
  pub lifecycle_statuses : List LifecycleStatus
  pub authorization_statuses : List AuthorizationStatus
  pub token_statuses : List TokenStatus
  pub mail_health_statuses : List MailHealthStatus
  pub proxy_health_statuses : List ProxyHealthStatus
  pub group_id : Option ℕ
  pub ungrouped : Bool
  pub untagged : Bool
  pub min_consecutive_failures : Option ℕ
  pub last_mail_success_before : Option ℕ
  pub query : Option String

-- What `list_accounts` selects by, but for the cursor and the limit.
pub record AccountQuery : Type 0 where
  pub lifecycle_status : Option LifecycleStatus
  pub token_status : Option TokenStatus
  pub mail_health_status : Option MailHealthStatus
  pub query : Option String
  pub view_filters : Option AccountViewFilters

-- if values: column.in_(values)
abbrev pub in_any : ℕ → List ℕ → Bool
in_any code [] = true
in_any code (c ∷ cs) = is_in code (c ∷ cs)

-- if value: test(value)
abbrev pub if_given {ℓ} : {A : Type ℓ} → Option A → (A → Bool) → Bool
if_given none test = true
if_given (some a) test = test a

-- if text: test(text), an empty text counting as none
abbrev pub if_text : Option String → (String → Bool) → Bool
if_text none test = true
if_text (some text) test = str_eq text "" || test text

-- last_mail_success_at IS NULL OR last_mail_success_at < t
abbrev pub null_or_before : Option ℕ → ℕ → Bool
null_or_before none t = true
null_or_before (some s) t = ltb s t

abbrev pub same_group : Option ℕ → ℕ → Bool
same_group none id = false
same_group (some g) id = g == id

module _ (ops : TextOps) where
  unfoldable pub matches_text : String → Account → Bool
  matches_text query a =
      let normalized = ops.lower (strip query) in
      ops.contains a.email_normalized normalized
      || ops.ilike a.remark (str_append "%" (str_append normalized "%"))

  unfoldable pub matches_view : Db → AccountViewFilters → Account → Bool
  matches_view db f a =
      in_any (lifecycle_code a.lifecycle_status) (map lifecycle_code f.lifecycle_statuses)
      && in_any (authorization_code a.authorization_status)
          (map authorization_code f.authorization_statuses)
      && in_any (token_code a.token_status) (map token_code f.token_statuses)
      && in_any (mail_health_code a.mail_health_status)
          (map mail_health_code f.mail_health_statuses)
      && in_any (proxy_health_code a.proxy_health_status)
          (map proxy_health_code f.proxy_health_statuses)
      && if_given f.group_id (same_group a.group_id)
      && (not f.ungrouped || not (is_some a.group_id))
      && (not f.untagged || not (is_some (find_where (λ t. t.account_id == a.id) db.account_tags)))
      && if_given f.min_consecutive_failures (λ n. leb n a.consecutive_failures)
      && if_given f.last_mail_success_before (null_or_before a.last_mail_success_at)
      && if_text f.query (λ q. matches_text q a)

  unfoldable pub matches : Db → AccountQuery → Account → Bool
  matches db q a =
      if_given q.view_filters (λ f. matches_view db f a)
      && if_given q.lifecycle_status (λ s. lifecycle_code a.lifecycle_status == lifecycle_code s)
      && if_given q.token_status (λ s. token_code a.token_status == token_code s)
      && if_given q.mail_health_status
          (λ s. mail_health_code a.mail_health_status == mail_health_code s)
      && if_text q.query (λ text. matches_text text a)

-- ORDER BY created_at DESC, id DESC
unfoldable pub newer : Account → Account → Bool
newer a b = ltb b.created_at a.created_at || a.created_at == b.created_at && ltb b.id a.id

-- _apply_cursor
unfoldable pub past_cursor : Option AccountCursor → Account → Bool
past_cursor none a = true
past_cursor (some c) a =
    ltb a.created_at c.created_at || a.created_at == c.created_at && ltb a.id c.account_id

abbrev pub cursor_at : Account → AccountCursor
cursor_at a = record { created_at = a.created_at; account_id = a.id }

abbrev pub last_of {ℓ} : {A : Type ℓ} → List A → Option A
last_of [] = none
last_of (x ∷ []) = some x
last_of (x ∷ y ∷ xs) = last_of (y ∷ xs)

-- The rows that the query selects, at most one more than the page holds.
unfoldable pub page_rows : (Account → Bool) → ℕ → Option AccountCursor → Db → List Account
page_rows test limit cursor db =
    take_rows (limit + 1)
      (order_rows newer (select_where (λ a. test a && past_cursor cursor a) db.accounts))

module _ (codec : CursorCodec) where
  -- if has_more and items: encode_account_cursor(...)
  abbrev pub cursor_after : Bool → List Account → Option String
  cursor_after has_more items =
      if has_more
      then elim (last_of items) [
        | none ↦ none
        | some a ↦ some (encode_account_cursor codec (cursor_at a))
      ]
      else none

  unfoldable pub page : ℕ → List Account → List Account × Option String
  page limit rows =
      let items = take_rows limit rows in (items, cursor_after (ltb limit (length rows)) items)

  -- if cursor: decode_account_cursor(cursor)
  unfoldable pub cursor_position : Option String → Result (Option AccountCursor)
  cursor_position none = ok none
  cursor_position (some value) =
      if str_eq value ""
      then ok none
      else (do cursor ← decode_account_cursor codec value; ok (some cursor))

  unfoldable pub list_accounts :
      TextOps → AccountQuery → ℕ → Option String → Db → Result (List Account × Option String)
  list_accounts ops query limit cursor db = do
    position ← cursor_position cursor
    ok (page limit (page_rows (matches ops db query) limit position db))
