-- ===== src/Projects/Samples.antt =====
-- A project with one account, its claim, and what follows, at which the theorems are applied.
use smart_email_manager.Prelude.{
  ℕ, String, ◌≡◌, ◌≢◌, refl, Bool, false, none, some, [], ◌∷◌, Memᴰ, find_where, select_where,
  update_where, count_where, best_from, is_in, without, fromkeys, is_space, drop_spaces, drop_end,
  strip,
}
use smart_email_manager.Problem.{Result, ok, err}
use smart_email_manager.Projects.Model.{
  WorkStatus, ProjectAccount, Db, is_to_claim, is_leased, is_done, is_failed, is_removed, is_active,
  get_project, get_row, get_account, put_row, add_event,
}
use smart_email_manager.Projects.Lease.{
  ProjectClaimRequest, ProjectClaimRead, ProjectAccountRead, project_or_404, is_claimable,
  may_claim, older, project_account_read, claim_row, claim_selected, claim_project_account,
  is_open_to, leased_row, heartbeat_project_lease, end_row, finish_project_lease,
}
use smart_email_manager.Projects.Manage.{
  Fresh, ProjectCreate, ProjectRead, count_rows, serialize_project, new_row, new_rows,
  existing_accounts, missing_from, new_project, name_is_taken, insert_project, create_project,
  set_project_status, is_row_of, insert_row_of, insert_rows, all_exist, add_project_accounts,
}
use smart_email_manager.Projects.Act.{
  next_status, act_row, is_requested, is_updated, ProjectAccountsActionResult,
  mutate_project_accounts, remove,
}
use smart_email_manager.Projects.System.{Reach, begun, and_then, creates, claims}

-- Everything that a run computes with.
unfoldable pub running_code : Unit {0}
unfolding find_where select_where update_where count_where best_from is_in without fromkeys is_space
    drop_spaces drop_end strip is_to_claim is_leased is_done is_failed is_removed is_active
    get_project get_row get_account put_row add_event project_or_404 is_claimable may_claim older
    project_account_read claim_row claim_selected claim_project_account is_open_to leased_row
    heartbeat_project_lease end_row finish_project_lease count_rows serialize_project new_row
    new_rows existing_accounts missing_from new_project name_is_taken insert_project create_project
    set_project_status is_row_of insert_row_of insert_rows all_exist add_project_accounts
    next_status act_row is_requested is_updated mutate_project_accounts
running_code = tt

-- A digest that no text leaves empty.
abbrev pub digest : String → String
digest text = String.◌∷◌ "h" text

pub digest_nonempty : (text : String) → digest text ≢ ""
digest_nonempty text h = cc h

abbrev pub accounts_only : Db
accounts_only = record {
  projects = [];
  rows = [];
  events = [];
  accounts =
      record { id = 7; email = "a@example.com" } ∷ record { id = 8; email = "b@example.com" } ∷ [];
  next_sequence = 1;
}

abbrev pub payload : ProjectCreate
payload = record {
  name = " Spring ";
  description = "";
  default_lease_seconds = 300;
  account_ids = 7 ∷ 7 ∷ [];
}

abbrev pub fresh : Fresh
fresh = record { project_id = 1; row_id = 20; now = 100 }

abbrev pub tables {ℓ} : {A : Type ℓ} → Result (Db × A) → Db
tables (ok (db, a)) = db
tables (err failure) = accounts_only

unfoldable pub created : Db
unfolding running_code
created = tables (create_project fresh payload accounts_only)

abbrev pub free : ℕ → Bool
free id = false

abbrev pub request : ProjectClaimRequest
request = record { owner = "worker"; lease_seconds = some 60 }

unfoldable pub claimed : Db
unfolding running_code
claimed = (claim_project_account digest free 200 "t1" 1 request created).0

abbrev pub read : ProjectClaimRead
read = record {
  project_account_id = 20;
  project_id = 1;
  account_id = 7;
  email = "a@example.com";
  claim_token = "t1";
  lease_owner = "worker";
  lease_expires_at = 260;
  attempt_count = 1;
}

pub claiming : claim_project_account digest free 200 "t1" 1 request created ≡ (claimed, ok read)
unfolding running_code created claimed
claiming = refl

abbrev pub leased_account : ProjectAccount
leased_account = record {
  id = 20;
  project_id = 1;
  account_id = 7;
  status = WorkStatus.leased;
  lease_owner = some "worker";
  lease_token_hash = some (digest "t1");
  lease_expires_at = some 260;
  attempt_count = 1;
  result = [];
  error_summary = none;
  finished_at = none;
  created_at = 100;
}

pub leased_there : Memᴰ leased_account claimed.rows
unfolding running_code created claimed
leased_there = Memᴰ.head refl

unfoldable pub finished : Db
unfolding running_code
finished = tables (finish_project_lease digest 210 211 20 "t1" WorkStatus.done [] none claimed)

abbrev pub done_read : ProjectAccountRead
done_read = record {
  id = 20;
  project_id = 1;
  account_id = 7;
  email = "a@example.com";
  status = WorkStatus.done;
  lease_owner = none;
  lease_expires_at = none;
  attempt_count = 1;
  result = [];
  error_summary = none;
  finished_at = some 211;
}

pub finishing :
    finish_project_lease digest 210 211 20 "t1" WorkStatus.done [] none claimed
    ≡ ok (finished, done_read)
unfolding running_code created claimed finished
finishing = refl

unfoldable pub created_read : ProjectRead
unfolding running_code
created_read = elim (create_project fresh payload accounts_only) [
  | err failure ↦ serialize_project accounts_only (new_project fresh payload)
  | ok (db, answer) ↦ answer
]

creating : create_project fresh payload accounts_only ≡ ok (created, created_read)
unfolding running_code created created_read
creating = refl

-- The project is created, and a worker claims its account.
pub history : Reach digest accounts_only claimed
unfolding claimed
history =
    and_then (and_then begun (creates fresh payload created created_read tt creating))
      (claims free 200 "t1" 1 request)

abbrev pub later_ids : Fresh
later_ids = record { project_id = 2; row_id = 30; now = 400 }

unfoldable pub added : Db
unfolding running_code
added = tables (add_project_accounts later_ids 1 (8 ∷ 8 ∷ []) finished)

abbrev pub last_ids : Fresh
last_ids = record { project_id = 3; row_id = 40; now = 500 }

unfoldable pub added_again : Db
unfolding running_code
added_again = tables (add_project_accounts last_ids 1 (8 ∷ 8 ∷ []) added)

unfoldable pub added_read : ProjectRead
unfolding running_code
added_read = elim (get_project added 1) [
  | none ↦ created_read
  | some project ↦ serialize_project added project
]

pub adding : add_project_accounts later_ids 1 (8 ∷ 8 ∷ []) finished ≡ ok (added, added_read)
unfolding running_code created claimed finished added added_read
adding = refl

pub adding_again : add_project_accounts last_ids 1 (8 ∷ 8 ∷ []) added ≡ ok (added_again, added_read)
unfolding running_code created claimed finished added added_again added_read
adding_again = refl

unfoldable pub beaten : Db × ProjectAccountRead
unfolding running_code
beaten = elim (heartbeat_project_lease digest 250 251 20 "t1" (some 40) claimed) [
  | err failure ↦ (claimed, done_read)
  | ok answer ↦ answer
]

pub beating :
    heartbeat_project_lease digest 250 251 20 "t1" (some 40) claimed ≡ ok (beaten.0, beaten.1)
unfolding running_code created claimed beaten
beating = refl

unfoldable pub acted : Db × ProjectAccountsActionResult
unfolding running_code
acted = elim (mutate_project_accounts 1 remove (20 ∷ 20 ∷ 99 ∷ []) finished) [
  | err failure ↦ (
    finished,
    record { requested_count = 0; updated_count = 0; skipped_count = 0; project = created_read },
  )
  | ok answer ↦ answer
]

pub acting : mutate_project_accounts 1 remove (20 ∷ 20 ∷ 99 ∷ []) finished ≡ ok (acted.0, acted.1)
unfolding running_code created claimed finished acted
acting = refl
