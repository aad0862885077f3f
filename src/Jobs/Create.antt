-- ===== src/Jobs/Create.antt =====
-- services/jobs.py: the four functions that create a job with an item for each account.
use smart_email_manager.Prelude.{
  is_in, ℕ, ◌+◌, String, Bool, true, false, not, ◌&&◌, ◌||◌, Option, none, some, List, [], ◌∷◌,
  ◌++◌, map, ltb, ◌==◌, if◌then◌else◌, is_some, str_eq, length, find_where, select_where,
  order_rows, take_rows,
}
use smart_email_manager.Enums.{LifecycleStatus, active, TokenStatus}
use smart_email_manager.Problem.{Result, ok, err, crash}
use smart_email_manager.Jobs.Model.{
  Job, JobItem, JobItemStatus, Db, Data, num, text, flag, ids, account, queued, completed,
  add_event,
}

-- A row of `accounts`, with what the joined tables say of it.
pub record AccountRow : Type 0 where
  pub id : ℕ
  pub lifecycle_status : LifecycleStatus
  pub token_status : TokenStatus
  pub created_at : ℕ
  -- a row of account_secrets with a refresh token that is not NULL
  pub has_refresh_token : Bool
  -- a row of retention_policies, and of account_forwarding, that is enabled
  pub retention_enabled : Bool
  pub forwarding_enabled : Bool

abbrev pub is_active : LifecycleStatus → Bool
is_active active = true
is_active _ = false

abbrev pub is_token_failed : TokenStatus → Bool
is_token_failed TokenStatus.failed = true
is_token_failed _ = false

-- `if account_ids: statement.where(Account.id.in_(account_ids))`
unfoldable pub in_scope : List ℕ → AccountRow → Bool
in_scope [] a = true
in_scope (n ∷ ns) a = is_in a.id (n ∷ ns)

-- ORDER BY created_at, id
unfoldable pub by_creation : AccountRow → AccountRow → Bool
by_creation a b = ltb a.created_at b.created_at || (a.created_at == b.created_at && ltb a.id b.id)

-- ORDER BY created_at
unfoldable pub by_created_at : AccountRow → AccountRow → Bool
by_created_at a b = ltb a.created_at b.created_at

unfoldable pub select_ids :
    (AccountRow → Bool) → (AccountRow → AccountRow → Bool) → ℕ → List AccountRow → List ℕ
select_ids test order limit accounts =
    map (λ a. a.id) (take_rows limit (order_rows order (select_where test accounts)))

abbrev pub key_is : String → Option String → Bool
key_is key none = false
key_is key (some other) = str_eq other key

unfoldable pub job_with_key : String → Db → Option Job
job_with_key key db = find_where (λ j. key_is key j.idempotency_key) db.jobs

-- `if idempotency_key: existing = ...`: an empty key is not looked up
unfoldable pub existing_job : Option String → Db → Option Job
existing_job none db = none
existing_job (some key) db = if str_eq key "" then none else job_with_key key db

-- The unique constraint on `jobs.idempotency_key`, which the flush of the new row meets.
unfoldable pub key_is_taken : Option String → Db → Bool
key_is_taken none db = false
key_is_taken (some key) db = is_some (job_with_key key db)

unfoldable pub new_item : ℕ → ℕ → ℕ → ℕ → Data → JobItem
new_item now item_id job_id account_id payload = record {
  id = item_id;
  job_id = job_id;
  item_key = account account_id;
  subject_type = "account";
  subject_id = some account_id;
  status = JobItemStatus.pending;
  payload = payload;
  result = [];
  attempt_count = 0;
  max_attempts = 3;
  run_after = none;
  lease_owner = none;
  lease_expires_at = none;
  started_at = none;
  finished_at = none;
  error_code = none;
  error_summary = none;
  created_at = now;
}

-- One row for each account, with identifiers that count up from the given one.
unfoldable pub new_items : ℕ → ℕ → ℕ → Data → List ℕ → List JobItem
new_items now item_id job_id payload [] = []
new_items now item_id job_id payload (account_id ∷ rest) =
    new_item now item_id job_id account_id payload ∷ new_items now (item_id + 1) job_id payload rest

-- What tells the four functions apart.
pub record JobRequest : Type 0 where
  pub job_type : String
  pub idempotency_key : Option String
  pub payload : Data
  pub item_payload : Data
  -- the data of `job.created` behind the count
  pub created_data : Data
  pub empty_message : String

-- The identifiers that the database gives and the clocks.
pub record Fresh : Type 0 where
  pub job_id : ℕ
  pub item_id : ℕ
  pub now : ℕ
  pub wall : ℕ

unfoldable pub new_job : JobRequest → Fresh → ℕ → Job
new_job request fresh total = record {
  id = fresh.job_id;
  job_type = request.job_type;
  status = queued;
  priority = 0;
  idempotency_key = request.idempotency_key;
  payload = request.payload;
  result = [];
  total_count = total;
  succeeded_count = 0;
  failed_count = 0;
  skipped_count = 0;
  cancel_requested_at = none;
  started_at = none;
  finished_at = none;
  created_at = fresh.now;
}

-- `if not selected_ids:`
unfoldable pub close_if_empty : JobRequest → Fresh → List ℕ → Job → Job
close_if_empty request fresh [] job = record job {
  status = completed;
  started_at = some fresh.wall;
  finished_at = some fresh.wall;
  result = ("message", text request.empty_message) ∷ [];
}
close_if_empty request fresh (n ∷ ns) job = job

-- What the four functions do once the accounts are selected.
unfoldable pub create_job : JobRequest → Fresh → List ℕ → Db → Result (Db × Job)
create_job request fresh selected db = elim (existing_job request.idempotency_key db) [
  | some job ↦ ok (db, job)
  | none ↦
      if key_is_taken request.idempotency_key db
      then err (crash "IntegrityError")
      else let job =
          close_if_empty request fresh selected (new_job request fresh (length selected)) in
        ok (
          add_event
              (record db {
                jobs = db.jobs ++ job ∷ [];
                items =
                    db.items
                    ++ new_items fresh.now fresh.item_id fresh.job_id request.item_payload selected;
              })
              fresh.job_id none "job.created" "info"
              (("total_count", num (length selected)) ∷ request.created_data),
          job,
        )
]

abbrev pub requested : List ℕ → Data
requested account_ids = ("requested_account_ids", ids account_ids) ∷ []

unfoldable pub create_health_check_job :
    List AccountRow → List ℕ → ℕ → String → Option String → Fresh → Db → Result (Db × Job)
create_health_check_job accounts account_ids limit mode key fresh db =
    create_job
      (record {
        job_type = "account.health_check";
        idempotency_key = key;
        payload = ("mode", text mode) ∷ requested account_ids;
        item_payload = ("mode", text mode) ∷ [];
        created_data = [];
        empty_message = "No active accounts matched the requested scope.";
      })
      fresh
      (select_ids (λ a. is_active a.lifecycle_status && in_scope account_ids a) by_creation limit
        accounts)
      db

unfoldable pub create_token_refresh_job :
    List AccountRow → List ℕ → Bool → ℕ → Option String → Fresh → Db → Result (Db × Job)
create_token_refresh_job accounts account_ids failed_only limit key fresh db =
    create_job
      (record {
        job_type = "account.token_refresh";
        idempotency_key = key;
        payload = requested account_ids ++ ("failed_only", flag failed_only) ∷ [];
        item_payload = [];
        created_data = ("failed_only", flag failed_only) ∷ [];
        empty_message = "No refreshable accounts matched the requested scope.";
      })
      fresh
      (select_ids
        (λ a.
          is_active a.lifecycle_status
          && a.has_refresh_token
          && in_scope account_ids a
          && (not failed_only || is_token_failed a.token_status))
        by_creation limit accounts)
      db

unfoldable pub create_retention_sync_job :
    List AccountRow → List ℕ → ℕ → Option String → Fresh → Db → Result (Db × Job)
create_retention_sync_job accounts account_ids limit key fresh db =
    create_job
      (record {
        job_type = "account.retention_sync";
        idempotency_key = key;
        payload = requested account_ids;
        item_payload = [];
        created_data = [];
        empty_message = "No retention-enabled accounts matched the requested scope.";
      })
      fresh
      (select_ids
        (λ a. is_active a.lifecycle_status && a.retention_enabled && in_scope account_ids a)
        by_created_at limit accounts)
      db

unfoldable pub create_forwarding_job :
    List AccountRow → List ℕ → ℕ → Option String → Fresh → Db → Result (Db × Job)
create_forwarding_job accounts account_ids limit key fresh db =
    create_job
      (record {
        job_type = "account.forwarding_scan";
        idempotency_key = key;
        payload = requested account_ids;
        item_payload = [];
        created_data = [];
        empty_message = "No forwarding-enabled accounts matched the requested scope.";
      })
      fresh
      (select_ids
        (λ a. is_active a.lifecycle_status && a.forwarding_enabled && in_scope account_ids a)
        by_created_at limit accounts)
      db
