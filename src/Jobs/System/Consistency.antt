-- ===== src/Jobs/System/Consistency.antt =====
-- The invariant of the job system on `job_items` and the leases in memory, kept by each kind of
-- change that a transaction makes to the rows.
use smart_email_manager.Prelude.{
  ℕ, ◌+◌, ◌<◌, ◌≡◌, refl, subst, String, Bool, true, false, List, [], ◌∷◌, ◌++◌, str_eq, ◌==◌,
  update_where, select_where, All, All-mono, All-zip, All-update, All-append, All-select_where,
}
use smart_email_manager.Jobs.Model.{JobItem, Data}
use smart_email_manager.Jobs.Queue.Claim.{LeasedJobItem, lease_row}
use smart_email_manager.Jobs.Create.{new_item, new_items}
use smart_email_manager.Jobs.Keys.{UniqueIds, UniqueIds-update, UniqueIds-create}
use smart_email_manager.Jobs.Soundness.{IsSound, Matches, new_item-IsSound}

pub record IsConsistent (is : List JobItem) (held : List LeasedJobItem) : Type 0 where
  pub unique : UniqueIds is
  pub sound : All IsSound is
  pub matches : All (λ l. All (Matches l) is) held

pub IsConsistent-update :
    (p : JobItem → Bool) (f : JobItem → JobItem) (is : List JobItem) (held : List LeasedJobItem)
    → ((i : JobItem) → p i ≡ true → (f i).id ≡ i.id)
    → ((i : JobItem) → p i ≡ true → IsSound i → IsSound (f i))
    → ((l : LeasedJobItem) (i : JobItem) → p i ≡ true → Matches l i → Matches l (f i))
    → IsConsistent is held
    → IsConsistent (update_where p f is) held
IsConsistent-update p f is held same sound matches v = record {
  unique = UniqueIds-update p f is same v.unique;
  sound = All-update IsSound IsSound p f is (λ i s e. sound i e s) (λ i s e. s) v.sound;
  matches =
      All-mono (λ l. All (Matches l) is) (λ l. All (Matches l) (update_where p f is)) held
        (λ l m. All-update (Matches l) (Matches l) p f is (λ i k e. matches l i e k) (λ i k e. k) m)
        v.matches;
}

-- A worker may forget leases at any time.
pub IsConsistent-select :
    (p : LeasedJobItem → Bool) (is : List JobItem) (held : List LeasedJobItem)
    → IsConsistent is held
    → IsConsistent is (select_where p held)
IsConsistent-select p is held v = record {
  unique = v.unique;
  sound = v.sound;
  matches = All-select_where (λ l. All (Matches l) is) p held v.matches;
}

new_items-IsSound :
    (now item_id job_id : ℕ) (payload : Data) (ids : List ℕ)
    → All IsSound (new_items now item_id job_id payload ids)
unfolding new_items
new_items-IsSound now item_id job_id payload [] = tt
new_items-IsSound now item_id job_id payload (a ∷ ids) = (
  new_item-IsSound now item_id job_id a payload,
  new_items-IsSound now (item_id + 1) job_id payload ids,
)

new_items-Matches :
    (l : LeasedJobItem) (now item_id job_id : ℕ) (payload : Data) (ids : List ℕ)
    → All (Matches l) (new_items now item_id job_id payload ids)
unfolding new_items new_item
new_items-Matches l now item_id job_id payload [] = tt
new_items-Matches l now item_id job_id payload (a ∷ ids) =
    (λ q o. absurd (cc o), new_items-Matches l now (item_id + 1) job_id payload ids)

pub IsConsistent-create :
    (now item_id job_id : ℕ) (payload : Data) (ids : List ℕ) (is : List JobItem)
    (held : List LeasedJobItem)
    → All (λ i. i.id < item_id) is
    → IsConsistent is held
    → IsConsistent (is ++ new_items now item_id job_id payload ids) held
IsConsistent-create now item_id job_id payload ids is held fresh v = record {
  unique = UniqueIds-create now item_id job_id payload ids is fresh v.unique;
  sound = All-append IsSound is _ v.sound (new_items-IsSound now item_id job_id payload ids);
  matches =
      All-mono (λ l. All (Matches l) is)
        (λ l. All (Matches l) (is ++ new_items now item_id job_id payload ids)) held
        (λ l m. All-append (Matches l) is _ m (new_items-Matches l now item_id job_id payload ids))
        v.matches;
}

-- Another worker's lease says nothing of a row that was leased anew.
leased_by_other :
    (now secs : ℕ) (w : String) (l : LeasedJobItem) (i : JobItem)
    → str_eq w l.lease_owner ≡ false
    → Matches l (lease_row now secs w i)
unfolding lease_row
leased_by_other now secs w l i h q o = absurd (cc (h, o))

lease_row-id : (now secs : ℕ) (w : String) (i : JobItem) → (lease_row now secs w i).id ≡ i.id
unfolding lease_row
lease_row-id now secs w i = refl

pub IsConsistent-claim :
    (now secs : ℕ) (w : String) (item : JobItem) (lease : LeasedJobItem) (is : List JobItem)
    (held : List LeasedJobItem)
    → All (λ i. (i.id == item.id) ≡ true → IsSound (lease_row now secs w i)) is
    → All (λ i. (i.id == item.id) ≡ true → Matches lease (lease_row now secs w i)) is
    → lease.id ≡ item.id
    → All (λ l. str_eq w l.lease_owner ≡ false) held
    → IsConsistent is held
    → IsConsistent (update_where (λ i. i.id == item.id) (lease_row now secs w) is) (lease ∷ held)
IsConsistent-claim now secs w item lease is held sound current id idle v =
    let p : JobItem → Bool = λ i. i.id == item.id in
    let f : JobItem → JobItem = lease_row now secs w in
    record {
      unique = UniqueIds-update p f is (λ i _. lease_row-id now secs w i) v.unique;
      sound =
          All-update (λ i. IsSound i × ((i.id == item.id) ≡ true → IsSound (f i))) IsSound p f is
            (λ i s e. s.1 e) (λ i s e. s.0)
            (All-zip IsSound (λ i. (i.id == item.id) ≡ true → IsSound (f i)) is v.sound sound);
      matches = (
        All-update (λ i. (i.id == item.id) ≡ true → Matches lease (f i)) (Matches lease) p f is
            (λ i m e. m e) (λ i m e q o. absurd (cc (e, subst (λ n. (i.id == n) ≡ true) id q)))
            current,
        All-mono (λ l. (str_eq w l.lease_owner ≡ false) × All (Matches l) is)
            (λ l. All (Matches l) (update_where p f is)) held
            (λ l m.
              All-update (Matches l) (Matches l) p f is
                (λ i k e. leased_by_other now secs w l i m.0) (λ i k e. k) m.1)
            (All-zip (λ l. str_eq w l.lease_owner ≡ false) (λ l. All (Matches l) is) held idle
              v.matches),
      );
    }
