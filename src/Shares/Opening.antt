-- ===== src/Shares/Opening.antt =====
-- What the token of a new share link opens.
use smart_email_manager.Prelude.{
  ℕ, ◌+◌, ◌*◌, String, ◌≡◌, refl, ap, ◌∙◌, true, false, ◌||◌, inl, inr, Option, none, some, [], ◌∷◌,
  ◌++◌, arith, ltb, ◌==◌, ==_iff, str_eq, eq_iff, find_where-append, find_where-member, strip,
  Option-cases,
}
use smart_email_manager.Problem.{ok, err, problem}
use smart_email_manager.Shares.Model.{Folder, EmailShareLink, Account, Db, get_account, audited}
use smart_email_manager.Shares.Links.{
  is_active, share_status, EmailShareRead, EmailShareCreate, is_allowed, new_link, link_of_hash,
  create_email_share, note_access, resolve_link, resolve_email_share,
}
use smart_email_manager.Shares.Access.{
  is_allowed-distinct, resolve-link, resolve_link-open, new_link-open,
}

resolve_link-forbidden :
    (current later : ℕ) (folder : Folder) (link : EmailShareLink) (db : Db)
    → is_active (share_status current link) ≡ true
    → is_allowed folder link.allowed_folders ≡ false
    → resolve_link current later (some folder) link db
      ≡ err (problem 403 "EMAIL_SHARE_FOLDER_FORBIDDEN")
unfolding resolve_link
resolve_link-forbidden current later folder link db on off = rw (resolve_link, on, off) refl

noted_as :
    (later : ℕ) (link : EmailShareLink) (account : Account) (db : Db)
    → note_access later link account db
      ≡ ((note_access later link account db).0, (note_access later link account db).1, account)
unfolding note_access
noted_as later link account db = ground arith

module _ (sha256 : String → String) where
  new_link-over :
      (id created_at now current : ℕ) (token : String) (payload : EmailShareCreate) (account_id : ℕ)
      → (payload.never_expires || ltb current (now + payload.duration_minutes * 60)) ≡ false
      → (folder : Option Folder) (later : ℕ) (db : Db)
      → resolve_link current later folder
          (new_link sha256 id created_at now token payload account_id)
          db
        ≡ err (problem 410 "EMAIL_SHARE_EXPIRED")
  unfolding resolve_link share_status new_link
  new_link-over id created_at now current token payload account_id h folder later db = ground arith

  create-link :
      (id created_at now : ℕ) (token token' : String) (payload : EmailShareCreate) (db db' : Db)
      (read : EmailShareRead)
      → create_email_share sha256 id created_at now token payload db ≡ ok (db', read, token')
      → (account : Account) × (get_account db payload.account_id ≡ some account)
        × (link_of_hash sha256 (sha256 token) db ≡ none)
        × (db'.links ≡ db.links ++ new_link sha256 id created_at now token payload account.id ∷ [])
        × (db'.accounts ≡ db.accounts)
        × (token' ≡ token)
  unfolding create_email_share audited
  create-link id created_at now token token' payload db db' read h =
      elim (Option-cases (get_account db payload.account_id)) [
        | inl e ↦ absurd (ground arith)
        | inr (a, e) ↦ elim (Option-cases (link_of_hash sha256 (sha256 token) db)) [
          | inr (l, n) ↦ absurd (ground arith)
          | inl n ↦ (a, e, n, ground arith, ground arith, ground arith)
        ]
      ]

  -- The token of a new link, if it is text without outer spaces, opens the mail of the requested
  -- account: every allowed folder until the link's time is over, no other folder, and nothing
  -- afterwards; a link that never expires has no such time.
  pub create-opens :
      (id created_at now : ℕ) (token token' : String) (payload : EmailShareCreate) (db db' : Db)
      (read : EmailShareRead) (current later : ℕ) (folder : Folder)
      → strip token ≡ token
      → create_email_share sha256 id created_at now token payload db ≡ ok (db', read, token')
      → let lasts = payload.never_expires || ltb current (now + payload.duration_minutes * 60) in
        let answer = resolve_email_share sha256 current later token' (some folder) db' in
        (lasts ≡ true
          → is_allowed folder payload.allowed_folders ≡ true
          → (db'' : Db) × (link : EmailShareLink) × (account : Account) × (answer
              ≡ ok (db'', link, account))
            × (account.id ≡ payload.account_id))
        × (lasts ≡ true
            → is_allowed folder payload.allowed_folders ≡ false
            → answer ≡ err (problem 403 "EMAIL_SHARE_FOLDER_FORBIDDEN"))
        × (lasts ≡ false → answer ≡ err (problem 410 "EMAIL_SHARE_EXPIRED"))
  unfolding link_of_hash get_account new_link
  create-opens id created_at now token token' payload db db' read current later folder bare h =
      let (account, owner, unused, links, accounts, same) =
        create-link id created_at now token token' payload db db' read h in
      let link = new_link sha256 id created_at now token payload account.id in
      let there : link_of_hash sha256 (sha256 (strip token')) db' ≡ some link =
        rw (same, bare, links)
          (find_where-append (λ l. str_eq l.token_hash (sha256 token)) db.links link unused
            ((eq_iff (sha256 token) (sha256 token)).1 refl)) in
      let owner_id : account.id ≡ payload.account_id =
        (==_iff account.id payload.account_id).0
          (find_where-member (λ a. a.id == payload.account_id) db.accounts account owner).1 in
      let owner' : get_account db' account.id ≡ some account = rw (accounts, owner_id) owner in
      let opened = resolve-link sha256 current later token' (some folder) db' link there in
      let folders = is_allowed-distinct folder payload.allowed_folders in
      (
        λ on allowed. (
          (note_access later link account db').0,
          (note_access later link account db').1,
          account,
          opened
              ∙ resolve_link-open sha256 current later folder link account db'
                  (new_link-open sha256 id created_at now current token payload account.id on)
                  (folders ∙ allowed) owner'
              ∙ ap ok (noted_as later link account db'),
          owner_id,
        ),
        λ on off.
            opened
            ∙ resolve_link-forbidden current later folder link db'
                (new_link-open sha256 id created_at now current token payload account.id on)
                (folders ∙ off),
        λ over.
            opened
            ∙ new_link-over id created_at now current token payload account.id over (some folder)
                later db',
      )
