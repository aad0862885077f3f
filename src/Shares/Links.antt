-- ===== src/Shares/Links.antt =====
-- services/shares.py: share links to the mail of one account. SHA-256 and the random token are
-- parameters; `now` is the clock of the process.
use smart_email_manager.Prelude.{
  ℕ, zero, suc, ◌+◌, ◌*◌, String, Bool, true, false, not, ◌&&◌, ◌||◌, Option, none, some, List, [],
  ◌∷◌, ◌++◌, map, leb, ltb, ◌==◌, if◌then◌else◌, is_some, or_else, str_eq, find_where, select_where,
  update_where, order_rows, strip,
}
use smart_email_manager.Json.{Data, texts}
use smart_email_manager.Problem.{Result, ok, err, problem, crash, ◌>>=◌}
use smart_email_manager.Shares.Model.{
  Folder, same_folder, EmailShareLink, Account, Db, get_link, get_account, audited,
}

pub data ShareStatus : Type 0 where
  active revoked expired : ShareStatus

-- not link.expires_at or link.expires_at <= current
abbrev pub has_ended : Option ℕ → ℕ → Bool
has_ended none current = true
has_ended (some t) current = leb t current

unfoldable pub share_status : ℕ → EmailShareLink → ShareStatus
share_status current link =
    if is_some link.revoked_at
    then revoked
    else if not link.never_expires && has_ended link.expires_at current
    then expired
    else active

pub record EmailShareRead : Type 0 where
  pub link : EmailShareLink
  pub status : ShareStatus

unfoldable pub serialize_share : ℕ → EmailShareLink → EmailShareRead
serialize_share now link = record { link = link; status = share_status now link }

pub record EmailShareCreate : Type 0 where
  pub account_id : ℕ
  pub duration_minutes : ℕ
  pub never_expires : Bool
  pub allowed_folders : List Folder

-- dict.fromkeys(payload.allowed_folders)
unfoldable pub without_folder : Folder → List Folder → List Folder
without_folder f [] = []
without_folder f (g ∷ gs) =
    let rest = without_folder f gs in if same_folder f g then rest else g ∷ rest

unfoldable pub distinct_folders : List Folder → List Folder
distinct_folders [] = []
distinct_folders (f ∷ fs) = f ∷ without_folder f (distinct_folders fs)

abbrev pub folder_name : Folder → String
folder_name Folder.inbox = "inbox"
folder_name Folder.junkemail = "junkemail"

-- {"allowed_folders": link.allowed_folders}
abbrev pub folder_data : List Folder → Data
folder_data folders = ("allowed_folders", texts (map folder_name folders)) ∷ []

-- folder in link.allowed_folders
unfoldable pub is_allowed : Folder → List Folder → Bool
is_allowed f [] = false
is_allowed f (g ∷ gs) = same_folder f g || is_allowed f gs

-- token[:n]
unfoldable pub prefix : ℕ → String → String
prefix zero s = String.[]
prefix (suc n) String.[] = String.[]
prefix (suc n) (String.◌∷◌ c s) = String.◌∷◌ c (prefix n s)

-- f"EMAIL_SHARE_{status.upper()}"
abbrev pub status_code : ShareStatus → String
status_code active = "EMAIL_SHARE_ACTIVE"
status_code revoked = "EMAIL_SHARE_REVOKED"
status_code expired = "EMAIL_SHARE_EXPIRED"

abbrev pub is_active : ShareStatus → Bool
is_active active = true
is_active _ = false

-- `if folder and folder not in link.allowed_folders`
abbrev pub is_forbidden : Option Folder → List Folder → Bool
is_forbidden none allowed = false
is_forbidden (some folder) allowed = not (is_allowed folder allowed)

-- not last_accessed_at or last_accessed_at <= now - timedelta(minutes=5)
abbrev pub is_stale : Option ℕ → ℕ → Bool
is_stale none now = true
is_stale (some t) now = leb (t + 300) now

unfoldable pub put_link : Db → EmailShareLink → Db
put_link db link = record db { links = update_where (λ l. l.id == link.id) (λ _. link) db.links }

unfoldable pub revoke_email_share : ℕ → ℕ → Db → Result (Db × EmailShareRead)
revoke_email_share now share_id db = elim (get_link db share_id) [
  | none ↦ err (problem 404 "EMAIL_SHARE_NOT_FOUND")
  | some link ↦
      let link' = record link { revoked_at = some (or_else link.revoked_at now) } in
      ok (
        audited (put_link db link') "email_share.revoke" "email_share" link.id [],
        serialize_share now link',
      )
]

unfoldable pub delete_email_share : ℕ → Db → Result Db
delete_email_share share_id db = elim (get_link db share_id) [
  | none ↦ err (problem 404 "EMAIL_SHARE_NOT_FOUND")
  | some link ↦
      let db' = audited db "email_share.delete" "email_share" link.id [] in
      ok (record db' { links = select_where (λ l. not (l.id == link.id)) db'.links })
]

-- ORDER BY created_at DESC
abbrev pub newer_link : EmailShareLink → EmailShareLink → Bool
newer_link l m = ltb m.created_at l.created_at

abbrev pub of_account : Option ℕ → EmailShareLink → Bool
of_account none link = true
of_account (some account_id) link = link.account_id == account_id

unfoldable pub list_email_shares : ℕ → Option ℕ → Db → List EmailShareRead
list_email_shares now account_id db =
    map (serialize_share now)
      (order_rows newer_link (select_where (of_account account_id) db.links))

pub record PublicEmailShareStatus : Type 0 where
  pub status : ShareStatus
  pub account_id : ℕ
  pub email : String
  pub allowed_folders : List Folder
  pub expires_at : Option ℕ

-- From the account on: the access is noted at most every five minutes.
unfoldable pub note_access : ℕ → EmailShareLink → Account → Db → Db × EmailShareLink × Account
note_access now link account db =
    let link' = record link { last_accessed_at = some now } in
    if is_stale link.last_accessed_at now
    then (put_link db link', link', account)
    else (db, link, account)

unfoldable pub resolve_link :
    ℕ → ℕ → Option Folder → EmailShareLink → Db → Result (Db × EmailShareLink × Account)
resolve_link current now folder link db =
    let status = share_status current link in
    if is_active status
    then if is_forbidden folder link.allowed_folders
      then err (problem 403 "EMAIL_SHARE_FOLDER_FORBIDDEN")
      else elim (get_account db link.account_id) [
        | none ↦ err (problem 404 "EMAIL_SHARE_INVALID")
        | some account ↦ ok (note_access now link account db)
      ]
    else err (problem 410 (status_code status))

module _ (sha256 : String → String) where
  unfoldable pub new_link : ℕ → ℕ → ℕ → String → EmailShareCreate → ℕ → EmailShareLink
  new_link id created_at now token payload account_id = record {
    id = id;
    account_id = account_id;
    token_prefix = prefix 12 token;
    token_hash = sha256 token;
    allowed_folders = distinct_folders payload.allowed_folders;
    expires_at = if payload.never_expires then none else some (now + payload.duration_minutes * 60);
    never_expires = payload.never_expires;
    revoked_at = none;
    last_accessed_at = none;
    created_at = created_at;
  }

  -- select(EmailShareLink).where(token_hash == hash)
  unfoldable pub link_of_hash : String → Db → Option EmailShareLink
  link_of_hash hash db = find_where (λ l. str_eq l.token_hash hash) db.links

  -- The unique constraint on `token_hash` raises in the flush. The answer is the serialized link with
  -- its token; `share_path` is the token behind a constant.
  unfoldable pub create_email_share :
      ℕ → ℕ → ℕ → String → EmailShareCreate → Db → Result (Db × EmailShareRead × String)
  create_email_share id created_at now token payload db = elim (get_account db payload.account_id) [
    | none ↦ err (problem 404 "ACCOUNT_NOT_FOUND")
    | some account ↦
        if is_some (link_of_hash (sha256 token) db)
        then err (crash "IntegrityError")
        else let link = new_link id created_at now token payload account.id in
          ok (
            audited (record db { links = db.links ++ link ∷ [] }) "email_share.create" "account"
                account.id (folder_data link.allowed_folders),
            serialize_share now link,
            token,
          )
  ]

  unfoldable pub resolve_email_share :
      ℕ → ℕ → String → Option Folder → Db → Result (Db × EmailShareLink × Account)
  resolve_email_share current now token folder db = elim (link_of_hash (sha256 (strip token)) db) [
    | none ↦ err (problem 404 "EMAIL_SHARE_INVALID")
    | some link ↦ resolve_link current now folder link db
  ]

  unfoldable pub get_public_share_status :
      ℕ → ℕ → String → Db → Result (Db × PublicEmailShareStatus)
  get_public_share_status current now token db = do
    found ← resolve_email_share current now token none db
    let (db', link, account) = found
    ok (
      db',
      record {
        status = active;
        account_id = account.id;
        email = account.email;
        allowed_folders = link.allowed_folders;
        expires_at = link.expires_at;
      },
    )
