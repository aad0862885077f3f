-- ===== src/Shares/Access.antt =====
-- Who gets at a shared mailbox, and when: what a token opens, and what its revocation ends.
use smart_email_manager.Prelude.{
  ℕ, ◌+◌, ◌*◌, String, ◌≡◌, refl, sym, ap, ◌∙◌, Bool, true, false, not, ◌||◌, inl, inr, Option,
  none, some, List, [], ◌∷◌, Memᴰ, arith, ltb, ◌==◌, ==_iff, str_eq, eq_iff, or_else, update_where,
  All-mono, find_where-update_same, find_where-member, find_where-OnlyBy, All-member, UniqueBy,
  strip, Option-cases, Bool-cases,
}
use smart_email_manager.Problem.{ok, err, problem}
use smart_email_manager.Shares.Model.{
  Folder, same_folder, EmailShareLink, Account, Db, get_link, get_account, audited,
}
use smart_email_manager.Shares.Links.{
  is_active, has_ended, share_status, EmailShareRead, EmailShareCreate, serialize_share,
  without_folder, distinct_folders, is_allowed, is_forbidden, put_link, revoke_email_share,
  new_link, link_of_hash, note_access, resolve_link, resolve_email_share,
}

active-conditions :
    (current : ℕ) (link : EmailShareLink)
    → is_active (share_status current link) ≡ true
    → (link.revoked_at ≡ none)
      × ((link.never_expires || not (has_ended link.expires_at current)) ≡ true)
unfolding share_status
active-conditions current link h = ground arith

conditions-active :
    (current : ℕ) (link : EmailShareLink)
    → link.revoked_at ≡ none
    → (link.never_expires || not (has_ended link.expires_at current)) ≡ true
    → is_active (share_status current link) ≡ true
unfolding share_status
conditions-active current link h k = ground arith

same_folder_refl : (f : Folder) → same_folder f f ≡ true
unfolding same_folder
same_folder_refl f = ground arith

same_folder_eq : (f g : Folder) → same_folder f g ≡ true → f ≡ g
unfolding same_folder
same_folder_eq f g h = ground arith

is_allowed-without :
    (f g : Folder) (gs : List Folder)
    → same_folder f g ≡ false
    → is_allowed f (without_folder g gs) ≡ is_allowed f gs
unfolding is_allowed without_folder same_folder
is_allowed-without f g [] h = refl
is_allowed-without f g (x ∷ gs) h = ground (arith, is_allowed-without f g gs h)

-- dict.fromkeys keeps what is in the list.
pub is_allowed-distinct :
    (f : Folder) (gs : List Folder) → is_allowed f (distinct_folders gs) ≡ is_allowed f gs
unfolding is_allowed distinct_folders
is_allowed-distinct f [] = refl
is_allowed-distinct f (g ∷ gs) = elim (Bool-cases (same_folder f g)) [
  | inl e ↦ rw (e) refl
  | inr e ↦ rw (e, is_allowed-without f g (distinct_folders gs) e) (is_allowed-distinct f gs)
]

revoke-link :
    (now share_id : ℕ) (db db' : Db) (read : EmailShareRead)
    → revoke_email_share now share_id db ≡ ok (db', read)
    → (old : EmailShareLink) × (get_link db share_id ≡ some old)
      × (let link' = record old { revoked_at = some (or_else old.revoked_at now) } in
          db'.links ≡ update_where (λ l. l.id == old.id) (λ _. link') db.links)
      × (read.link.revoked_at ≡ some (or_else old.revoked_at now))
unfolding revoke_email_share audited put_link serialize_share
revoke-link now share_id db db' read h = elim (Option-cases (get_link db share_id)) [
  | inl e ↦ absurd (ground arith)
  | inr (old, e) ↦ (old, e, ground arith, ground arith)
]

module _ (sha256 : String → String) where
  -- Whoever gets an answer from a share token holds the token of a link that is in the table, that
  -- was not revoked, whose time is not over, that allows the requested folder, and whose account
  -- exists; the answer is that link's account.
  pub resolve-grants :
      (current now : ℕ) (token : String) (folder : Option Folder) (db db' : Db)
      (link' : EmailShareLink) (account : Account)
      → resolve_email_share sha256 current now token folder db ≡ ok (db', link', account)
      → (link : EmailShareLink) × Memᴰ link db.links
        × (link.token_hash ≡ sha256 (strip token))
        × (link.revoked_at ≡ none)
        × ((link.never_expires || not (has_ended link.expires_at current)) ≡ true)
        × (is_forbidden folder link.allowed_folders ≡ false)
        × (get_account db link.account_id ≡ some account)
        × (link'.id ≡ link.id)
  unfolding resolve_email_share resolve_link note_access link_of_hash
  resolve-grants current now token folder db db' link' account h =
      elim (Option-cases (link_of_hash sha256 (sha256 (strip token)) db)) [
        | inl e ↦ absurd (ground arith)
        | inr (link, e) ↦
            let found =
              find_where-member (λ l. str_eq l.token_hash (sha256 (strip token))) db.links link e in
            elim (Bool-cases (is_active (share_status current link))) [
              | inr off ↦ absurd (ground arith)
              | inl on ↦
                  let (kept, open_still) = active-conditions current link on in
                  (
                    link,
                    found.0,
                    (eq_iff link.token_hash (sha256 (strip token))).0 found.1,
                    kept,
                    open_still,
                    ground arith,
                    ground arith,
                    ground arith,
                  )
            ]
      ]

  resolve_link-revoked :
      (current now t : ℕ) (folder : Option Folder) (link : EmailShareLink) (db : Db)
      → link.revoked_at ≡ some t
      → resolve_link current now folder link db ≡ err (problem 410 "EMAIL_SHARE_REVOKED")
  unfolding resolve_link share_status
  resolve_link-revoked current now t folder link db h = rw (resolve_link, share_status, h) refl

  pub resolve-link :
      (current now : ℕ) (token : String) (folder : Option Folder) (db : Db) (link : EmailShareLink)
      → link_of_hash sha256 (sha256 (strip token)) db ≡ some link
      → resolve_email_share sha256 current now token folder db
        ≡ resolve_link current now folder link db
  unfolding resolve_email_share
  resolve-link current now token folder db link e = rw (resolve_email_share, e) refl

  -- After a link was revoked, its token opens nothing any more, at any time and for any folder, where
  -- the ids of the links are distinct: the answer is that the share is revoked. The time of an
  -- earlier revocation stays.
  pub revoke-final :
      (now share_id : ℕ) (token : String) (db db' : Db) (read : EmailShareRead)
      (link : EmailShareLink)
      → UniqueBy (λ l. l.id) db.links
      → link_of_hash sha256 (sha256 (strip token)) db ≡ some link
      → link.id ≡ share_id
      → revoke_email_share now share_id db ≡ ok (db', read)
      → ((current later : ℕ) (folder : Option Folder)
          → resolve_email_share sha256 current later token folder db'
            ≡ err (problem 410 "EMAIL_SHARE_REVOKED"))
        × (read.link.revoked_at ≡ some (or_else link.revoked_at now))
  unfolding get_link link_of_hash
  revoke-final now share_id token db db' read link unique found same h =
      let (old, there, rows, answer) = revoke-link now share_id db db' read h in
      let (only, old_id, mem) = find_where-OnlyBy (λ l. l.id) share_id db.links old unique there in
      let q : EmailShareLink → Bool = λ l. str_eq l.token_hash (sha256 (strip token)) in
      let link' = record old { revoked_at = some (or_else old.revoked_at now) } in
      let is_old : link ≡ old =
        All-member (λ l. (l.id == old.id) ≡ true → l ≡ old) link db.links only
          (find_where-member q db.links link found).0
          ((==_iff link.id old.id).1 (same ∙ sym old_id)) in
      let after : link_of_hash sha256 (sha256 (strip token)) db' ≡ some link' = rw rows (
        find_where-update_same q (λ l. l.id == old.id) (λ _. link') db.links
          (All-mono (λ l. (l.id == old.id) ≡ true → l ≡ old)
            (λ l. (l.id == old.id) ≡ true → q link' ≡ q l) db.links (λ l k e. ap q (sym (k e)))
            only)
        ∙ rw (found, is_old, (==_iff old.id old.id).1 refl) refl) in
      (
        λ current later folder.
            resolve-link current later token folder db' link' after
            ∙ resolve_link-revoked current later (or_else old.revoked_at now) folder link' db' refl,
        answer ∙ rw is_old refl,
      )

  pub resolve_link-open :
      (current later : ℕ) (folder : Folder) (link : EmailShareLink) (account : Account) (db : Db)
      → is_active (share_status current link) ≡ true
      → is_allowed folder link.allowed_folders ≡ true
      → get_account db link.account_id ≡ some account
      → resolve_link current later (some folder) link db ≡ ok (note_access later link account db)
  unfolding resolve_link
  resolve_link-open current later folder link account db on allowed e =
      rw (resolve_link, on, allowed, e) refl

  pub new_link-open :
      (id created_at now current : ℕ) (token : String) (payload : EmailShareCreate) (account_id : ℕ)
      → (payload.never_expires || ltb current (now + payload.duration_minutes * 60)) ≡ true
      → is_active
          (share_status current (new_link sha256 id created_at now token payload account_id))
        ≡ true
  unfolding share_status new_link
  new_link-open id created_at now current token payload account_id h = ground arith
