-- ===== src/Shares/Tests.antt =====
-- The theorems on shares, at a link to one of two folders that is used and then revoked.
use smart_email_manager.Prelude.{
  ℕ, ◌+◌, ◌*◌, String, ◌≡◌, refl, true, false, not, ◌||◌, Option, none, some, [], ◌∷◌, Memᴰ, ltb,
  or_else, is_space, drop_spaces, drop_end, strip, find_where, update_where,
}
use smart_email_manager.Problem.{ok, err, problem}
use smart_email_manager.Shares.Model.{
  Folder, inbox, same_folder, EmailShareLink, Account, Db, get_link, get_account, audited,
}
use smart_email_manager.Shares.Links.{
  has_ended, share_status, EmailShareRead, EmailShareCreate, serialize_share, without_folder,
  distinct_folders, folder_data, is_allowed, is_forbidden, prefix, put_link, revoke_email_share,
  new_link, link_of_hash, create_email_share, note_access, resolve_link, resolve_email_share,
}
use smart_email_manager.Shares.Access.{resolve-grants, revoke-final}
use smart_email_manager.Shares.Opening.{create-opens}

unfoldable running_code : Unit {0}
unfolding find_where update_where is_space drop_spaces drop_end strip same_folder get_link
    get_account audited share_status serialize_share without_folder distinct_folders is_allowed
    prefix put_link revoke_email_share new_link link_of_hash create_email_share note_access
    resolve_link resolve_email_share
running_code = tt

abbrev digest : String → String
digest text = String.◌∷◌ "h" text

abbrev empty : Db
empty = record {
  links = [];
  accounts = record { id = 7; email = "a@example.com" } ∷ [];
  audit = [];
}

abbrev payload : EmailShareCreate
payload = record {
  account_id = 7;
  duration_minutes = 10;
  never_expires = false;
  allowed_folders = inbox ∷ inbox ∷ [];
}

unfoldable link : EmailShareLink
unfolding running_code
link = new_link digest 3 100 100 "sem_share_x" payload 7

unfoldable shared : Db
unfolding running_code
shared =
    audited (record empty { links = link ∷ [] }) "email_share.create" "account" 7
      (folder_data (inbox ∷ []))

creating :
    create_email_share digest 3 100 100 "sem_share_x" payload empty
    ≡ ok (shared, serialize_share 100 link, "sem_share_x")
unfolding running_code shared link
creating = refl

bare : strip "sem_share_x" ≡ "sem_share_x"
unfolding running_code
bare = refl

create-opens_example :
    let answer = resolve_email_share digest 699 699 "sem_share_x" (some inbox) shared in
    (ltb 699 (100 + 10 * 60) ≡ true
      → is_allowed inbox (inbox ∷ inbox ∷ []) ≡ true
      → (db'' : Db) × (link : EmailShareLink) × (account : Account) × (answer
          ≡ ok (db'', link, account))
        × (account.id ≡ 7))
    × (ltb 699 (100 + 10 * 60) ≡ true
        → is_allowed inbox (inbox ∷ inbox ∷ []) ≡ false
        → answer ≡ err (problem 403 "EMAIL_SHARE_FOLDER_FORBIDDEN"))
    × (ltb 699 (100 + 10 * 60) ≡ false → answer ≡ err (problem 410 "EMAIL_SHARE_EXPIRED"))
create-opens_example =
    create-opens digest 3 100 100 "sem_share_x" "sem_share_x" payload empty shared
      (serialize_share 100 link) 699 699 inbox bare creating

abbrev owner : Account
owner = record { id = 7; email = "a@example.com" }

unfoldable visited : Db × EmailShareLink × Account
unfolding running_code
visited = note_access 200 link owner shared

visiting :
    resolve_email_share digest 200 200 " sem_share_x" (some inbox) shared
    ≡ ok (visited.0, visited.1, owner)
unfolding running_code shared link visited
visiting = refl

resolve-grants_example :
    (l : EmailShareLink) × Memᴰ l shared.links
    × (l.token_hash ≡ digest (strip " sem_share_x"))
    × (l.revoked_at ≡ none)
    × ((l.never_expires || not (has_ended l.expires_at 200)) ≡ true)
    × (is_forbidden (some inbox) l.allowed_folders ≡ false)
    × (get_account shared l.account_id ≡ some owner)
    × (visited.1.id ≡ l.id)
resolve-grants_example =
    resolve-grants digest 200 200 " sem_share_x" (some inbox) shared visited.0 visited.1 owner
      visiting

unfoldable ended : Db × EmailShareRead
unfolding running_code
ended = elim (revoke_email_share 300 3 shared) [
  | err failure ↦ (shared, serialize_share 300 link)
  | ok answer ↦ answer
]

revoking : revoke_email_share 300 3 shared ≡ ok (ended.0, ended.1)
unfolding running_code shared link ended
revoking = refl

found : link_of_hash digest (digest (strip "sem_share_x")) shared ≡ some link
unfolding running_code shared link
found = refl

revoke-final_example :
    ((current later : ℕ) (folder : Option Folder)
      → resolve_email_share digest current later "sem_share_x" folder ended.0
        ≡ err (problem 410 "EMAIL_SHARE_REVOKED"))
    × (ended.1.link.revoked_at ≡ some (or_else link.revoked_at 300))
unfolding running_code shared link
revoke-final_example =
    revoke-final digest 300 3 "sem_share_x" shared ended.0 ended.1 link (tt, tt) found refl revoking
