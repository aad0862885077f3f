-- ===== src/Projects/Tests.antt =====
-- The theorems on projects, at a claim of the one account of a project.
use smart_email_manager.Prelude.{
  length, fromkeys, UniqueBy, ℕ, ◌+◌, ◌≤◌, ◌<◌, String, ◌≡◌, ◌≢◌, refl, true, false, none, some, [],
  ◌∷◌, Memᴰ, All,
}
use smart_email_manager.Problem.{ok, err, problem, has_code}
use smart_email_manager.Projects.Model.{
  WorkStatus, WorkProject, ProjectAccount, is_active, is_to_claim, get_project, get_row,
}
use smart_email_manager.Projects.Lease.{
  or_default, may_claim, is_claimable, claim_project_account, leased_row,
}
use smart_email_manager.Projects.Act.{remove}
use smart_email_manager.Projects.Oldest.{IsOldest, claim-IsOldest, claim-unavailable}
use smart_email_manager.Projects.Tokens.{claim-opens}
use smart_email_manager.Projects.Ending.{finish-revokes}
use smart_email_manager.Projects.Heartbeat.{heartbeat-extends}
use smart_email_manager.Projects.Counting.{count_changed, mutate-counts}
use smart_email_manager.Projects.Accounting.{Has, add-once}
use smart_email_manager.Projects.Invariant.{Inv, Reach-Inv}
use smart_email_manager.Projects.System.{claims}
use smart_email_manager.Projects.Exclusion.{Step-keeps_row}
use smart_email_manager.Projects.Samples.{
  running_code, digest, digest_nonempty, created, free, request, claimed, read, claiming,
  leased_account, leased_there, finished, done_read, finishing, history, later_ids, last_ids, added,
  added_again, added_read, adding, adding_again, beaten, beating, acted, acting,
}

claim-IsOldest_example :
    (row : ProjectAccount) × (row.id ≡ 20) × IsOldest free 200 1 row created.rows
claim-IsOldest_example = claim-IsOldest digest free 200 "t1" 1 request created claimed read claiming

claim-unavailable_example :
    let r = claim_project_account digest free 210 "t2" 1 request claimed in
    (has_code "PROJECT_WORK_UNAVAILABLE" r.1 ≡ true
      → (project : WorkProject) × (get_project claimed 1 ≡ some project)
        × (is_active project.status ≡ true)
        × All (λ row. may_claim free 210 1 row ≡ false) claimed.rows)
    × ((project : WorkProject)
        → get_project claimed 1 ≡ some project
        → is_active project.status ≡ true
        → All (λ row. may_claim free 210 1 row ≡ false) claimed.rows
        → r ≡ (claimed, err (problem 409 "PROJECT_WORK_UNAVAILABLE")))
claim-unavailable_example = claim-unavailable digest free 210 "t2" 1 request claimed

claim-opens_example :
    ((later : ℕ)
      → later < 260
      → (row : ProjectAccount) × (leased_row digest later 20 "t1" claimed ≡ ok row)
        × (row.lease_owner ≡ some "worker")
        × (row.account_id ≡ 7))
    × ((later : ℕ) (other : String)
        → digest "t1" ≢ digest other
        → leased_row digest later 20 other claimed ≡ err (problem 409 "PROJECT_LEASE_INVALID"))
    × ((later : ℕ) (other : String)
        → 260 ≤ later
        → leased_row digest later 20 other claimed ≡ err (problem 409 "PROJECT_LEASE_INVALID"))
claim-opens_example =
    claim-opens digest digest_nonempty free 200 "t1" 1 request created claimed read claiming

finish-revokes_example :
    (old row : ProjectAccount) × (leased_row digest 210 20 "t1" claimed ≡ ok old)
    × (get_row finished 20 ≡ some row)
    × (row.status ≡ WorkStatus.done)
    × (done_read.status ≡ WorkStatus.done)
    × (row.account_id ≡ old.account_id)
    × (row.attempt_count ≡ old.attempt_count)
    × ((at : ℕ) → is_claimable at row ≡ is_to_claim WorkStatus.done)
    × ((at : ℕ) (other : String)
        → leased_row digest at 20 other finished ≡ err (problem 409 "PROJECT_LEASE_INVALID"))
finish-revokes_example =
    finish-revokes digest 210 211 20 "t1" WorkStatus.done [] none claimed finished done_read
      finishing

-- Another worker claims before the lease ends: the row stays.
Step-keeps_row_example :
    Memᴰ leased_account (claim_project_account digest free 259 "t2" 1 request claimed).0.rows
unfolding running_code created claimed
Step-keeps_row_example =
    Step-keeps_row digest {db = claimed} leased_account (claims free 259 "t2" 1 request) (tt, tt)
      leased_there refl refl

Reach-Inv_example : Inv claimed.rows
Reach-Inv_example = Reach-Inv digest refl history

add-once_example : All (Has 1 added.rows) (8 ∷ 8 ∷ []) × (added_again.rows ≡ added.rows)
add-once_example =
    add-once later_ids last_ids 1 (8 ∷ 8 ∷ []) finished added added_again added_read added_read
      adding adding_again

heartbeat-extends_example :
    (old row : ProjectAccount) × (project : WorkProject) × (leased_row digest 250 20 "t1" claimed
      ≡ ok old)
    × (get_project claimed old.project_id ≡ some project)
    × (row.lease_expires_at ≡ some (251 + or_default (some 40) project.default_lease_seconds))
    × (row.lease_owner ≡ old.lease_owner)
    × (row.account_id ≡ old.account_id)
    × (row.attempt_count ≡ old.attempt_count)
    × ((at : ℕ)
        → at < 251 + or_default (some 40) project.default_lease_seconds
        → leased_row digest at 20 "t1" beaten.0 ≡ ok row)
    × ((at : ℕ) (other : String)
        → 251 + or_default (some 40) project.default_lease_seconds ≤ at
        → leased_row digest at 20 other beaten.0 ≡ err (problem 409 "PROJECT_LEASE_INVALID"))
heartbeat-extends_example =
    heartbeat-extends digest 250 251 20 "t1" (some 40) claimed beaten.0 beaten.1 beating

one_row : UniqueBy (λ r. r.id) finished.rows
unfolding running_code created claimed finished
one_row = (tt, tt)

mutate-counts_example :
    (acted.1.requested_count ≡ length (fromkeys (20 ∷ 20 ∷ 99 ∷ [])))
    × (acted.1.updated_count ≡ count_changed finished.rows acted.0.rows)
    × (acted.1.updated_count ≤ acted.1.requested_count)
    × (acted.1.updated_count + acted.1.skipped_count ≡ acted.1.requested_count)
mutate-counts_example =
    mutate-counts 1 remove (20 ∷ 20 ∷ 99 ∷ []) finished acted.0 acted.1 one_row acting
