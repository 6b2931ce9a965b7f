-- ===== src/Table.antt =====
-- Tables of the local database: the statements that the program runs on a table whose rows are a
-- list in insertion order. A row is found by a Boolean test on its primary key.
pub mod Laws
pub mod Keyed
use crdt_agent_memory.Prelude.{
  ℕ, Bool, not, Option, none, some, List, [], ◌∷◌, ◌++◌, map, length, select, if◌then◌else◌,
}

module _ {ℓ} {R : Type ℓ} where
  -- SELECT ... WHERE p: the first row
  unfoldable pub find : (R → Bool) → List R → Option R
  find p [] = none
  find p (r ∷ rs) = if p r then some r else find p rs

  -- INSERT ... ON CONFLICT(key) DO UPDATE: `same` tells the row with the new row's key
  unfoldable pub upsert : (R → Bool) → (R → R) → R → List R → List R
  upsert same merge fresh [] = fresh ∷ []
  upsert same merge fresh (r ∷ rs) = if same r then merge r ∷ rs else r ∷ upsert same merge fresh rs

  -- INSERT
  abbrev pub insert : R → List R → List R
  insert r rs = rs ++ r ∷ []

  -- UPDATE ... WHERE p
  unfoldable pub update : (R → Bool) → (R → R) → List R → List R
  update p f [] = []
  update p f (r ∷ rs) = (if p r then f r else r) ∷ update p f rs

  -- DELETE ... WHERE p
  abbrev pub delete : (R → Bool) → List R → List R
  delete p = select (λ r. not (p r))

  -- the rows that a WHERE clause counts (RowsAffected)
  abbrev pub affected : (R → Bool) → List R → ℕ
  affected p rs = length (select p rs)
