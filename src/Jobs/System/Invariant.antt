-- ===== src/Jobs/System/Invariant.antt =====
-- Every step keeps the invariant, so every interleaving of workers and API calls does.
use smart_email_manager.Jobs.Queue.Settle.{cancelling_ids, is_cancellable, cancel_row}
use smart_email_manager.Jobs.Soundness.{cancel_row-IsSound}
use smart_email_manager.Jobs.Items.{
  items-cancel_pending, items-finalize, items-cancel, items-pause, items-resume,
}
use smart_email_manager.Jobs.System.Consistency.{
  IsConsistent, IsConsistent-update, IsConsistent-select,
}
use smart_email_manager.Jobs.System.{
  System, empty, Step, claims, finishes, retries, loses, recovers, cancels_items, finalizes,
  cancels, pauses, resumes, creates, Reach, started, then_step,
}
use smart_email_manager.Jobs.System.Transactions.{
  recover-Inv, cancel_row-Matches, cancel_row-id, finish-Inv, retry-Inv, claim-Inv, create-Inv,
}

abbrev pub Inv : System → Type 0
Inv s = IsConsistent s.db.items s.held

pub Step-Inv : {s t : System} → Step s t → Inv s → Inv t
Step-Inv {s} (claims locked now wall w secs db' lease idle e) v =
    claim-Inv locked now wall w secs s.db db' lease s.held idle e v
Step-Inv {s} (finishes wall lease status result code summary db' m h e) v =
    IsConsistent-select _ db'.items s.held
      (finish-Inv wall lease status result code summary s.db db' s.held h e v)
Step-Inv {s} (retries wall lease code summary result delay db' m e) v =
    IsConsistent-select _ db'.items s.held
      (retry-Inv wall lease code summary result delay s.db db' s.held m e v)
Step-Inv {s} (loses lease) v = IsConsistent-select _ s.db.items s.held v
Step-Inv {s} (recovers now wall) v = recover-Inv now wall s.db s.held v
Step-Inv {s} (cancels_items now wall) v = rw (items-cancel_pending now wall s.db) (
    IsConsistent-update (is_cancellable (cancelling_ids s.db)) (cancel_row now) s.db.items s.held
      (λ i _. cancel_row-id now i) (cancel_row-IsSound now (cancelling_ids s.db))
      (λ l i _. cancel_row-Matches now l i) v)
Step-Inv {s} (finalizes locked) v = rw (items-finalize locked s.db) v
Step-Inv {s} (cancels wall job_id db' e) v = rw (items-cancel wall job_id s.db db' e) v
Step-Inv {s} (pauses job_id db' e) v = rw (items-pause job_id s.db db' e) v
Step-Inv {s} (resumes job_id db' e) v = rw (items-resume job_id s.db db' e) v
Step-Inv {s} (creates request fresh selected db' job unused e) v =
    create-Inv request fresh selected s.db db' job s.held unused e v

Reach-Inv : {s t : System} → Inv s → Reach s t → Inv t
Reach-Inv v started = v
Reach-Inv v (then_step r st) = Step-Inv st (Reach-Inv v r)

-- Whatever the workers and the API do from empty tables on, in any order in which a worker claims only
-- while no worker of its name holds a lease, so that no two live workers share a name: the ids of the
-- items stay distinct, each item has an owner and an expiry exactly while it is leased or running, its
-- attempts, with the one that a waiting item may still start, never pass its limit, and an item
-- that a worker still owns is at the attempt of the worker's lease.
pub Reach-empty-Inv : {t : System} → Reach empty t → Inv t
Reach-empty-Inv r = Reach-Inv (record { unique = tt; sound = tt; matches = tt }) r
