-- ===== src/Jobs/Keys.antt =====
-- The primary key of `job_items`: a row is known by its id, and no transaction changes an id.
use smart_email_manager.Prelude.{
  ℕ, ◌+◌, ◌≤◌, ◌<◌, ◌≡◌, Bool, true, false, some, List, [], ◌∷◌, ◌++◌, Memᴰ, arith, ◌==◌,
  update_where, All, All-mono, UniqueBy, OnlyBy, UniqueBy-update, UniqueBy-member, UniqueBy-append,
  find_where-OnlyBy,
}
use smart_email_manager.Jobs.Model.{JobItem, Data, Db, get_item}
use smart_email_manager.Jobs.Create.{new_item, new_items}

abbrev pub UniqueIds : List JobItem → Type 0
UniqueIds = UniqueBy (λ i. i.id)

-- Rows with the id of `item` are `item`.
abbrev pub IsOnly : JobItem → List JobItem → Type 0
IsOnly = OnlyBy (λ i. i.id)

pub UniqueIds-update :
    (p : JobItem → Bool) (f : JobItem → JobItem) (is : List JobItem)
    → ((i : JobItem) → p i ≡ true → (f i).id ≡ i.id)
    → UniqueIds is
    → UniqueIds (update_where p f is)
UniqueIds-update = UniqueBy-update (λ i. i.id)

pub UniqueIds-member :
    (item : JobItem) (is : List JobItem) → UniqueIds is → Memᴰ item is → IsOnly item is
UniqueIds-member = UniqueBy-member (λ i. i.id)

-- The row that a search by id returns is the only one with its id.
pub get_item-IsOnly :
    (db : Db) (id : ℕ) (item : JobItem)
    → UniqueIds db.items
    → get_item db id ≡ some item
    → IsOnly item db.items × (item.id ≡ id) × Memᴰ item db.items
unfolding get_item
get_item-IsOnly db id item h e = find_where-OnlyBy (λ i. i.id) id db.items item h e

new_items-above :
    (now n item_id job_id : ℕ) (payload : Data) (ids : List ℕ)
    → n ≤ item_id
    → All (λ i. n ≤ i.id) (new_items now item_id job_id payload ids)
unfolding new_items new_item
new_items-above now n item_id job_id payload [] h = tt
new_items-above now n item_id job_id payload (a ∷ ids) h =
    (h, new_items-above now n (item_id + 1) job_id payload ids (omega arith))

new_items-UniqueIds :
    (now item_id job_id : ℕ) (payload : Data) (ids : List ℕ)
    → UniqueIds (new_items now item_id job_id payload ids)
unfolding new_items new_item
new_items-UniqueIds now item_id job_id payload [] = tt
new_items-UniqueIds now item_id job_id payload (a ∷ ids) = (
  All-mono (λ i. item_id + 1 ≤ i.id) (λ j. (j.id == item_id) ≡ false)
      (new_items now (item_id + 1) job_id payload ids) (λ i q. ground arith)
      (new_items-above now (item_id + 1) (item_id + 1) job_id payload ids (omega arith)),
  new_items-UniqueIds now (item_id + 1) job_id payload ids,
)

-- Rows numbered from an unused id on keep the ids distinct.
pub UniqueIds-create :
    (now item_id job_id : ℕ) (payload : Data) (ids : List ℕ) (is : List JobItem)
    → All (λ i. i.id < item_id) is
    → UniqueIds is
    → UniqueIds (is ++ new_items now item_id job_id payload ids)
UniqueIds-create now item_id job_id payload ids is fresh h =
    UniqueBy-append (λ i. i.id) item_id is (new_items now item_id job_id payload ids) fresh
      (new_items-above now item_id item_id job_id payload ids (omega arith)) h
      (new_items-UniqueIds now item_id job_id payload ids)
