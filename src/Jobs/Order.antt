-- ===== src/Jobs/Order.antt =====
-- Which item `lease_next_item` takes: an eligible one that no other eligible item precedes.
use smart_email_manager.Prelude.{
  ℕ, String, ◌≡◌, ◌≢◌, refl, ap, subst, some-injective, Bool, false, inl, inr, Option, none, some,
  List, [], ◌∷◌, Memᴰ, arith, All, All-mem, All-unit, best, Option-cases, NoneBefore, best-cases,
  best-NoneBefore, best-none,
}
use smart_email_manager.Jobs.Model.{Job, JobItem, Db, get_job}
use smart_email_manager.Jobs.Queue.Claim.{
  LeasedJobItem, eligible, candidates, consider, precedes, lease_row, lease_rows, announce,
  leased_item, lease_next_item,
}
use smart_email_manager.Jobs.Inversion.{lease-Granted}
use smart_email_manager.Jobs.Precedence.{precedes-StrictOrder}

-- The row of the join has the item that it was looked up for.
eligible-item :
    (locked : ℕ → Bool) (now : ℕ) (db : Db) (i : JobItem) (c : JobItem × Job)
    → eligible locked now db i ≡ some c
    → i ≡ c.0
unfolding eligible
eligible-item locked now db i c h = ground arith

consider_cases {ℓ} :
    {P : Type ℓ} (c : JobItem × Job) (o : Option (JobItem × Job)) (xs : List (JobItem × Job))
    → NoneBefore precedes c (consider o xs)
    → (NoneBefore precedes c xs → P)
    → ((c' : JobItem × Job) → o ≡ some c' → precedes c' c ≡ false) × P
consider_cases c none xs h k = (λ c' e. absurd (cc e), k h)
consider_cases c (some d) xs h k =
    (λ c' e. subst (λ z. precedes z c ≡ false) (some-injective d c' e) h.0, k h.1)

consider-All {ℓ} :
    (P : JobItem → Type ℓ) (i : JobItem) (f : JobItem → Option (JobItem × Job))
    (xs : List (JobItem × Job))
    → P i
    → ((c : JobItem × Job) → f i ≡ some c → i ≡ c.0)
    → All (λ c. P c.0 × (f c.0 ≡ some c)) xs
    → All (λ c. P c.0 × (f c.0 ≡ some c)) (consider (f i) xs)
consider-All P i f xs h same k = elim (Option-cases (f i)) [
  | inl e ↦ rw e k
  | inr (c, e) ↦ rw e ((subst P (same c e) h, subst (λ j. f j ≡ some c) (same c e) e), k)
]

module _ (locked : ℕ → Bool) (now : ℕ) (db : Db) where
  -- No eligible item precedes `c`.
  abbrev pub IsFirst : JobItem × Job → List JobItem → Type 0
  IsFirst c =
      All (λ i. (c' : JobItem × Job) → eligible locked now db i ≡ some c' → precedes c' c ≡ false)

  IsFirst-candidates :
      (c : JobItem × Job) (is : List JobItem)
      → NoneBefore precedes c (candidates locked now db is)
      → IsFirst c is
  unfolding candidates
  IsFirst-candidates c [] h = tt
  IsFirst-candidates c (i ∷ is) h =
      consider_cases c (eligible locked now db i) (candidates locked now db is) h
        (λ k. IsFirst-candidates c is k)

  -- What holds of every row holds of the candidates' items, which are eligible.
  All-candidates {ℓ} :
      (P : JobItem → Type ℓ) (is : List JobItem)
      → All P is
      → All (λ c. P c.0 × (eligible locked now db c.0 ≡ some c)) (candidates locked now db is)
  unfolding candidates
  All-candidates P [] h = tt
  All-candidates P (i ∷ is) h =
      consider-All P i (eligible locked now db) (candidates locked now db is) h.0
        (eligible-item locked now db i) (All-candidates P is h.1)

  -- The item that LEASE_SQL picks.
  pub chosen_lem {ℓ} :
      (P : JobItem → Type ℓ) (c : JobItem × Job)
      → All P db.items
      → best precedes (candidates locked now db db.items) ≡ some c
      → P c.0 × (eligible locked now db c.0 ≡ some c) × IsFirst c db.items
  chosen_lem P c h e =
      let kept =
        best-cases precedes (λ c. P c.0 × (eligible locked now db c.0 ≡ some c))
          (candidates locked now db db.items) c (All-candidates P db.items h) e in
      (
        kept.0,
        kept.1,
        IsFirst-candidates c db.items
            (best-NoneBefore precedes precedes-StrictOrder (candidates locked now db db.items) c e),
      )

  -- When a worker gets a lease, it is for an item of the table that LEASE_SQL's conditions admit,
  -- and no admitted item comes before it by priority, then age, then id.
  pub lease_next_item-IsFirst :
      (wall lease_seconds : ℕ) (worker_id : String) (db' : Db) (lease : LeasedJobItem)
      → lease_next_item locked now wall worker_id lease_seconds db ≡ (db', some lease)
      → (c : JobItem × Job) × (lease.id ≡ c.0.id)
        × Memᴰ c.0 db.items
        × (eligible locked now db c.0 ≡ some c)
        × IsFirst c db.items
  unfolding leased_item lease_row
  lease_next_item-IsFirst wall secs w db' lease h =
      let g = lease-Granted locked now wall w secs db db' lease h in
      let found =
        chosen_lem (λ i. Memᴰ i db.items) (g.item, g.joined) (All-mem db.items) g.chosen in
      ((g.item, g.joined), ap (λ l. l.id) g.leased, found.0, found.1, found.2)

  eligible-job :
      (i : JobItem) (c : JobItem × Job)
      → eligible locked now db i ≡ some c
      → get_job db i.job_id ≡ some c.1
  unfolding eligible
  eligible-job i c h = ground arith

  candidates-nil :
      (is : List JobItem)
      → candidates locked now db is ≡ []
      → All (λ i. eligible locked now db i ≡ none) is
  unfolding candidates
  candidates-nil [] h = tt
  candidates-nil (i ∷ is) h = (ground arith, candidates-nil is (ground arith))

  nil-candidates :
      (is : List JobItem)
      → All (λ i. eligible locked now db i ≡ none) is
      → candidates locked now db is ≡ []
  unfolding candidates
  nil-candidates [] h = refl
  nil-candidates (i ∷ is) h = rw h.0 (nil-candidates is h.1)

  lease_next_item-some :
      (wall secs : ℕ) (w : String) (c : JobItem × Job)
      → best precedes (candidates locked now db db.items) ≡ some c
      → get_job db c.0.job_id ≡ some c.1
      → (lease_next_item locked now wall w secs db).1 ≢ none
  unfolding lease_next_item announce lease_row lease_rows get_job
  lease_next_item-some wall secs w c e j h = ground arith

  lease_next_item-idle :
      (wall secs : ℕ) (w : String)
      → candidates locked now db db.items ≡ []
      → lease_next_item locked now wall w secs db ≡ (db, none)
  unfolding lease_next_item
  lease_next_item-idle wall secs w e = rw (e, lease_next_item)

  -- A worker goes idle exactly when no item is eligible, and then nothing changed.
  pub lease_next_item-none :
      (wall lease_seconds : ℕ) (worker_id : String)
      → let r = lease_next_item locked now wall worker_id lease_seconds db in
        (r.1 ≡ none → All (λ i. eligible locked now db i ≡ none) db.items)
        × (All (λ i. eligible locked now db i ≡ none) db.items → r ≡ (db, none))
  lease_next_item-none wall secs w = (
    λ h. elim (Option-cases (best precedes (candidates locked now db db.items))) [
      | inl e ↦ candidates-nil db.items (best-none precedes (candidates locked now db db.items) e)
      | inr (c, e) ↦
          let found = chosen_lem (λ i. Unit {0}) c (All-unit db.items) e in
          absurd (lease_next_item-some wall secs w c e (eligible-job c.0 c found.1) h)
    ],
    λ h. lease_next_item-idle wall secs w (nil-candidates db.items h),
  )
