-- ===== src/Jobs/Idempotence.antt =====
-- Creating jobs: the idempotency key, the rows, and the accounts that they are for.
use smart_email_manager.Prelude.{
  ℕ, ◌+◌, ◌≡◌, ◌≢◌, ◌↔◌, refl, sym, ◌∙◌, ap, subst, ◌⊎◌, inl, inr, String, false, none, some, List,
  [], ◌∷◌, ◌++◌, arith, str_eq, eq_iff, length, find_where-append, map, true, All,
}
use smart_email_manager.Problem.{ok}
use smart_email_manager.Jobs.Model.{
  Job, JobItem, Db, queued, completed, Data, is_waiting, add_event,
}
use smart_email_manager.Jobs.Create.{
  JobRequest, Fresh, key_is, job_with_key, existing_job, key_is_taken, new_job, new_items, new_item,
  close_if_empty, create_job,
}

close_if_empty-key :
    (request : JobRequest) (fresh : Fresh) (selected : List ℕ) (job : Job)
    → (close_if_empty request fresh selected job).idempotency_key ≡ job.idempotency_key
unfolding close_if_empty
close_if_empty-key request fresh [] job = refl
close_if_empty-key request fresh (a ∷ selected) job = refl

-- The job that is added, where the key finds none.
abbrev added : JobRequest → Fresh → List ℕ → Job
added request fresh selected =
    close_if_empty request fresh selected (new_job request fresh (length selected))

added-key :
    (request : JobRequest) (fresh : Fresh) (selected : List ℕ)
    → (added request fresh selected).idempotency_key ≡ request.idempotency_key
unfolding new_job
added-key request fresh selected =
    close_if_empty-key request fresh selected (new_job request fresh (length selected))

create_job-cases :
    (request : JobRequest) (fresh : Fresh) (selected : List ℕ) (db db' : Db) (job : Job)
    → create_job request fresh selected db ≡ ok (db', job)
    → ((existing_job request.idempotency_key db ≡ some job) × (db' ≡ db))
      ⊎ ((existing_job request.idempotency_key db ≡ none)
          × (key_is_taken request.idempotency_key db ≡ false)
          × (job ≡ added request fresh selected)
          × (db'.jobs ≡ db.jobs ++ job ∷ [])
          × (db'.items
              ≡ db.items
                ++ new_items fresh.now fresh.item_id fresh.job_id request.item_payload selected))
unfolding create_job add_event
create_job-cases request fresh selected db db' job e = ground arith

existing_job-key :
    (key : String) (db : Db)
    → str_eq key "" ≡ false
    → existing_job (some key) db ≡ job_with_key key db
unfolding existing_job
existing_job-key key db h = rw h

job_with_key-append :
    (key : String) (db db' : Db) (job : Job)
    → job_with_key key db ≡ none
    → job.idempotency_key ≡ some key
    → db'.jobs ≡ db.jobs ++ job ∷ []
    → job_with_key key db' ≡ some job
unfolding job_with_key
job_with_key-append key db db' job h named e = rw e (
    find_where-append (λ j. key_is key j.idempotency_key) db.jobs job h
      (rw named ((eq_iff key key).1 refl)))

-- After a job was created or found under a key, the key leads to that job.
create_job-key :
    (request : JobRequest) (fresh : Fresh) (selected : List ℕ) (key : String) (db db' : Db)
    (job : Job)
    → request.idempotency_key ≡ some key
    → str_eq key "" ≡ false
    → create_job request fresh selected db ≡ ok (db', job)
    → existing_job (some key) db' ≡ some job
create_job-key request fresh selected key db db' job named nonempty e =
    elim (create_job-cases request fresh selected db db' job e) [
      | inl (found, same) ↦ rw same (subst (λ k. existing_job k db ≡ some job) named found)
      | inr (absent, free, made, jobs, items) ↦
          existing_job-key key db' nonempty
          ∙ job_with_key-append key db db' job
              (sym (existing_job-key key db nonempty)
                ∙ subst (λ k. existing_job k db ≡ none) named absent)
              (ap (λ (j : Job). j.idempotency_key) made ∙ added-key request fresh selected ∙ named)
              jobs
    ]

create_job-found :
    (request : JobRequest) (fresh : Fresh) (selected : List ℕ) (db : Db) (job : Job)
    → existing_job request.idempotency_key db ≡ some job
    → create_job request fresh selected db ≡ ok (db, job)
unfolding create_job
create_job-found request fresh selected db job e = rw (e, create_job)

-- A second request under the same key that is not empty, whatever else it asks for, answers with
-- the first one's job and changes nothing.
pub create_job_twice :
    (request request' : JobRequest) (fresh fresh' : Fresh) (selected selected' : List ℕ)
    (key : String) (db db' : Db) (job : Job)
    → request.idempotency_key ≡ some key
    → request'.idempotency_key ≡ some key
    → str_eq key "" ≡ false
    → create_job request fresh selected db ≡ ok (db', job)
    → create_job request' fresh' selected' db' ≡ ok (db', job)
create_job_twice request request' fresh fresh' selected selected' key db db' job n n' nonempty e =
    create_job-found request' fresh' selected' db' job (
      subst (λ k. existing_job k db' ≡ some job) (sym n')
        (create_job-key request fresh selected key db db' job n nonempty e))

new_items-accounts :
    (now item_id job_id : ℕ) (payload : Data) (accounts : List ℕ)
    → map (λ i. i.subject_id) (new_items now item_id job_id payload accounts) ≡ map some accounts
unfolding new_items new_item
new_items-accounts now item_id job_id payload [] = refl
new_items-accounts now item_id job_id payload (a ∷ accounts) =
    ap (λ ids. some a ∷ ids) (new_items-accounts now (item_id + 1) job_id payload accounts)

-- The item waits, untried, in the job.
abbrev pub IsFresh : ℕ → Data → JobItem → Type 0
IsFresh job_id payload item =
    (item.job_id ≡ job_id)
    × (is_waiting item.status ≡ true)
    × (item.attempt_count ≡ 0)
    × (item.payload ≡ payload)

new_items-IsFresh :
    (now item_id job_id : ℕ) (payload : Data) (accounts : List ℕ)
    → All (IsFresh job_id payload) (new_items now item_id job_id payload accounts)
unfolding new_items new_item is_waiting
new_items-IsFresh now item_id job_id payload [] = tt
new_items-IsFresh now item_id job_id payload (a ∷ accounts) =
    ((refl, refl, refl, refl), new_items-IsFresh now (item_id + 1) job_id payload accounts)

close_if_empty-status :
    (request : JobRequest) (fresh : Fresh) (selected : List ℕ)
    → let job = added request fresh selected in
      (job.total_count ≡ length selected)
      × ((job.status ≡ completed) ↔ (selected ≡ []))
      × ((job.status ≡ queued) ↔ (selected ≢ []))
unfolding close_if_empty new_job
close_if_empty-status request fresh [] = ground arith
close_if_empty-status request fresh (a ∷ selected) = ground arith

-- A job that is created under a key that finds no job gets, behind the items that were there, items
-- whose subjects are the selected accounts, one for each and in their order, each waiting, without an
-- attempt and with the request's payload; their number is its total, and it is queued, or completed at
-- once exactly when no account was selected.
pub create_job-items :
    (request : JobRequest) (fresh : Fresh) (selected : List ℕ) (db db' : Db) (job : Job)
    → existing_job request.idempotency_key db ≡ none
    → create_job request fresh selected db ≡ ok (db', job)
    → (items : List JobItem) × (db'.items ≡ db.items ++ items)
      × (map (λ i. i.subject_id) items ≡ map some selected)
      × All (IsFresh fresh.job_id request.item_payload) items
      × (job.total_count ≡ length selected)
      × ((job.status ≡ completed) ↔ (selected ≡ []))
      × ((job.status ≡ queued) ↔ (selected ≢ []))
create_job-items request fresh selected db db' job absent e =
    elim (create_job-cases request fresh selected db db' job e) [
      | inl (found, same) ↦ absurd (cc (absent, found))
      | inr (h, free, made, jobs, items) ↦
          let shape = close_if_empty-status request fresh selected in
          (
            new_items fresh.now fresh.item_id fresh.job_id request.item_payload selected,
            items,
            new_items-accounts fresh.now fresh.item_id fresh.job_id request.item_payload selected,
            new_items-IsFresh fresh.now fresh.item_id fresh.job_id request.item_payload selected,
            rw made shape.0,
            rw made shape.1,
            rw made shape.2,
          )
    ]
