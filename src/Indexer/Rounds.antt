-- ===== src/Indexer/Rounds.antt =====
-- Rounds of ProcessOnce of internal/indexer/worker.go, with a provider of embeddings that answers.
use mathlib.Core.Path.{subst}
use crdt_agent_memory.Prelude.{
  ℕ, ◌-◌, ◌*◌, ◌≤◌, ℤ, is_zero, String, ◌≡◌, ◌∙◌, ap, refl, true, false, Bool, not, ◌&&◌, Option,
  some, none, List, [], ◌∷◌, map, take, arith, inl, inr, Bool-cases, length, select, All, sort_by,
  Result, ok, >>=-ok, ◌==◌,
}
use crdt_agent_memory.Table.{insert, affected}
use crdt_agent_memory.Table.Keyed.{by}
use crdt_agent_memory.Sync.Types.{QueueRow}
use crdt_agent_memory.Memory.Tables.{MemoryRow, RetrievalUnit, UnitQueueRow}
use crdt_agent_memory.Indexer.{
  Embedding, Backend, IndexDb, index_queue, unit_queue, is_pending, is_pending_unit, older,
  older_unit, queue_key, pending_items, pending_retrieval_items, process_item, process_items,
  process_retrieval_item, process_retrieval_items, process_once, index_memory, index_unit,
  fetch_body, fetch_indexable_unit, finish_queue_item, finish_unit, upsert_embedding,
  put_memory_vector, put_memory_embedding, drop_memory_vectors, drop_memory,
  upsert_retrieval_embedding, put_unit_vector, put_unit_embedding, drop_unit_vectors, drop_unit,
  no_errors,
}
use crdt_agent_memory.Indexer.Drain.{
  select-update, process_all-remaining, length-remaining, process_all-keeps,
}

-- a backend that can tell whether there are vectors, and that has an embedding for every text, which
-- sqlite-vec reads
pub record Answers (backend : Backend) : Type 0 where
  pub memory_vectors : (b : Bool) × (backend.memory_vectors ≡ ok b)
  pub unit_vectors : (b : Bool) × (backend.unit_vectors ≡ ok b)
  pub from_document :
      (s : String)
      → (e : Embedding) × (backend.from_document s ≡ ok e)
        × ((v : String) × (backend.vec_f32 e.json ≡ ok v))

-- The work on a memory or a unit succeeds, and leaves the tables of internal/memory.
abbrev Keeps : IndexDb → Result IndexDb → Type 0
Keeps db call = (new : IndexDb) × (call ≡ ok new) × (new.store ≡ db.store)

memory_vector-Keeps :
    (backend : Backend) (enabled : Bool) (space id : String) (e : Embedding) (db : IndexDb)
    → ((v : String) × (backend.vec_f32 e.json ≡ ok v))
    → Keeps db (put_memory_vector backend enabled space id e db)
unfolding put_memory_vector
memory_vector-Keeps backend true space id e db a =
    let (v, vector) = a in
    (
      record db {
        memory_vectors =
            insert (record { memory_space = space; memory_id = id; vector = v }) db.memory_vectors;
      },
      rw vector refl,
      refl,
    )
memory_vector-Keeps backend false space id e db a = (db, refl, refl)

unit_vector-Keeps :
    (backend : Backend) (enabled : Bool) (u : RetrievalUnit) (e : Embedding) (db : IndexDb)
    → ((v : String) × (backend.vec_f32 e.json ≡ ok v))
    → Keeps db (put_unit_vector backend enabled u e db)
unfolding put_unit_vector
unit_vector-Keeps backend true u e db a =
    let (v, vector) = a in
    (
      record db {
        unit_vectors =
            insert (record { memory_space = u.memory_space; unit_id = u.unit_id; vector = v })
              db.unit_vectors;
      },
      rw vector refl,
      refl,
    )
unit_vector-Keeps backend false u e db a = (db, refl, refl)

memory_vectors-store :
    (enabled : Bool) (space id : String) (db : IndexDb)
    → (drop_memory_vectors enabled space id db).store ≡ db.store
unfolding drop_memory_vectors
memory_vectors-store true space id db = refl
memory_vectors-store false space id db = refl

pub unit_vectors-store :
    (enabled : Bool) (id : String) (db : IndexDb)
    → (drop_unit_vectors enabled id db).store ≡ db.store
unfolding drop_unit_vectors
unit_vectors-store true id db = refl
unit_vectors-store false id db = refl

index_memory-Keeps :
    (backend : Backend) (now : ℤ) (enabled : Bool) (item : QueueRow) (m : Option MemoryRow)
    (db : IndexDb)
    → Answers backend
    → Keeps db (index_memory backend now enabled item m db)
unfolding index_memory drop_memory upsert_embedding put_memory_embedding
index_memory-Keeps backend now enabled item none db a =
    (_, refl, memory_vectors-store enabled item.memory_space item.memory_id _)
index_memory-Keeps backend now enabled item (some m) db a =
    let (e, found, vector) = a.from_document m.body in
    let put = put_memory_embedding now item.memory_space item.memory_id e db in
    let (new, done, same) =
      memory_vector-Keeps backend enabled item.memory_space item.memory_id e
        (drop_memory_vectors enabled item.memory_space item.memory_id put) vector in
    (new, rw found done, same ∙ memory_vectors-store enabled item.memory_space item.memory_id put)

index_unit-Keeps :
    (backend : Backend) (now : ℤ) (enabled : Bool) (unit_id : String) (u : Option RetrievalUnit)
    (db : IndexDb)
    → Answers backend
    → Keeps db (index_unit backend now enabled unit_id u db)
unfolding index_unit drop_unit upsert_retrieval_embedding put_unit_embedding
index_unit-Keeps backend now enabled unit_id none db a =
    (_, refl, unit_vectors-store enabled unit_id _)
index_unit-Keeps backend now enabled unit_id (some u) db a =
    elim (Bool-cases (u.sensitivity == "secret")) [
      | inl e ↦ (db, rw e refl, refl)
      | inr e ↦
          let (x, found, vector) = a.from_document u.body in
          let put = put_unit_embedding now u x db in
          let (new, done, same) =
            unit_vector-Keeps backend enabled u x (drop_unit_vectors enabled u.unit_id put)
              vector in
          (new, rw e (rw found done), same ∙ unit_vectors-store enabled u.unit_id put)
    ]

-- An item that is processed leaves the pending items of its identifier, and no others.
process_item-pending :
    (backend : Backend) (now : ℤ) (item : QueueRow) (db : IndexDb)
    → Answers backend
    → is_zero now ≡ false
    → (new : IndexDb) × (process_item backend now item db ≡ ok new)
      × (select is_pending (index_queue new)
          ≡ select (λ r. not (queue_key r == item.queue_id)) (select is_pending (index_queue db)))
      × (unit_queue new ≡ unit_queue db)
unfolding process_item finish_queue_item
process_item-pending backend now item db a late =
    let (enabled, there) = a.memory_vectors in
    let (d, done, same) =
      index_memory-Keeps backend now enabled item (fetch_body item.memory_space item.memory_id db)
        db a in
    (
      finish_queue_item now item.queue_id d,
      >>=-ok backend.memory_vectors _ enabled _ there (>>=-ok _ _ d _ done refl),
      rw same (
          select-update queue_key is_pending (by queue_key item.queue_id)
            (λ r. record r { processed_at_ms = now }) item.queue_id db.store.index_queue (λ r. late)
            (λ r p. refl)
            (λ r p. elim (Bool-cases (queue_key r == item.queue_id)) [
              | inl e ↦ rw e late
              | inr e ↦ rw e p
            ])),
      ap (λ t. t.unit_queue) same,
    )

abbrev unit_name : UnitQueueRow → String
unit_name r = r.unit_id

process_retrieval_item-pending :
    (backend : Backend) (now : ℤ) (unit_id : String) (db : IndexDb)
    → Answers backend
    → is_zero now ≡ false
    → (new : IndexDb) × (process_retrieval_item backend now unit_id db ≡ ok new)
      × (select is_pending_unit (unit_queue new)
          ≡ select (λ r. not (unit_name r == unit_id)) (select is_pending_unit (unit_queue db)))
      × (index_queue new ≡ index_queue db)
unfolding process_retrieval_item finish_unit
process_retrieval_item-pending backend now unit_id db a late =
    let (enabled, there) = a.unit_vectors in
    let (d, done, same) =
      index_unit-Keeps backend now enabled unit_id (fetch_indexable_unit unit_id db) db a in
    (
      finish_unit now unit_id d,
      >>=-ok backend.unit_vectors _ enabled _ there (>>=-ok _ _ d _ done refl),
      rw same (
          select-update unit_name is_pending_unit (λ r. (r.unit_id == unit_id) && is_pending_unit r)
            (λ r. record r { processed_at_ms = now }) unit_id db.store.unit_queue (λ r. late)
            (λ r p. ground (arith, p)) (λ r p. ground (arith, p))),
      ap (λ t. t.index_queue) same,
    )

abbrev pub pending : IndexDb → ℕ
pending db = affected is_pending (index_queue db)

abbrev pub pending_units : IndexDb → ℕ
pending_units db = affected is_pending_unit (unit_queue db)

process_items_drain :
    (backend : Backend) (now : ℤ) (db : IndexDb)
    → Answers backend
    → is_zero now ≡ false
    → ((process_items backend now db).0 ≡ [])
      × (pending (process_items backend now db).1 ≤ pending db - 128)
      × (unit_queue (process_items backend now db).1 ≡ unit_queue db)
unfolding process_items pending_items
process_items_drain backend now db a late =
    let items = take 128 (sort_by older (select is_pending (index_queue db))) in
    let (quiet, left) =
      process_all-remaining queue_key (λ r. r.queue_id) (process_item backend now)
        (λ d. select is_pending (index_queue d))
        (λ x d.
          let (new, done, marked, kept) = process_item-pending backend now x d a late in
          (new, done, marked))
        items db in
    let few = length-remaining queue_key older 128 (select is_pending (index_queue db)) in
    let kept =
      process_all-keeps unit_queue (process_item backend now)
        (λ x d.
          let (new, done, marked, kept) = process_item-pending backend now x d a late in
          (new, done, kept))
        items db in
    (quiet, rw left few, kept)

map_id : (xs : List String) → map (λ x. x) xs ≡ xs
map_id [] = refl
map_id (x ∷ xs) = ap (λ ys. x ∷ ys) (map_id xs)

process_retrieval_items_drain :
    (backend : Backend) (now : ℤ) (db : IndexDb)
    → Answers backend
    → is_zero now ≡ false
    → ((process_retrieval_items backend now db).0 ≡ [])
      × (pending_units (process_retrieval_items backend now db).1 ≤ pending_units db - 128)
      × (index_queue (process_retrieval_items backend now db).1 ≡ index_queue db)
unfolding process_retrieval_items pending_retrieval_items
process_retrieval_items_drain backend now db a late =
    let items =
      map unit_name (take 128 (sort_by older_unit (select is_pending_unit (unit_queue db)))) in
    let (quiet, left) =
      process_all-remaining unit_name (λ id. id) (process_retrieval_item backend now)
        (λ d. select is_pending_unit (unit_queue d))
        (λ x d.
          let (new, done, marked, kept) = process_retrieval_item-pending backend now x d a late in
          (new, done, marked))
        items db in
    let few = length-remaining unit_name older_unit 128 (select is_pending_unit (unit_queue db)) in
    let kept =
      process_all-keeps index_queue (process_retrieval_item backend now)
        (λ x d.
          let (new, done, marked, kept) = process_retrieval_item-pending backend now x d a late in
          (new, done, kept))
        items db in
    (quiet, rw (left, map_id items) few, kept)

-- ProcessOnce, behind the units
process_once_drains :
    (backend : Backend) (now : ℤ) (db : IndexDb)
    → Answers backend
    → is_zero now ≡ false
    → ((process_once backend now db).0 ≡ [])
      × ((process_once backend now db).1 ≡ [])
      × (pending (process_once backend now db).2 ≤ pending db - 128)
      × (pending_units (process_once backend now db).2 ≤ pending_units db - 128)
unfolding process_once
process_once_drains backend now db a late =
    let (unit_quiet, units, memories) = process_retrieval_items_drain backend now db a late in
    let d = (process_retrieval_items backend now db).1 in
    let (quiet, few, kept) = process_items_drain backend now d a late in
    let calm : no_errors (process_retrieval_items backend now db).0 ≡ true = rw unit_quiet refl in
    let fewer =
      subst (λ q. pending (process_items backend now d).1 ≤ affected is_pending q - 128) memories
        few in
    rw (process_once, calm) (unit_quiet, quiet, fewer, rw kept units)

-- calls of ProcessOnce, by the readings of the clock
unfoldable pub rounds : Backend → List ℤ → IndexDb → IndexDb
rounds backend [] db = db
rounds backend (now ∷ nows) db = rounds backend nows (process_once backend now db).2

-- Where the embeddings can be computed, the queues drain: once ProcessOnce has been called, at times
-- other than 0, as often as it takes to go through the pending memories and the pending units by 128,
-- none of either is pending.
pub rounds-drain :
    (backend : Backend) (nows : List ℤ) (db : IndexDb)
    → Answers backend
    → All (λ now. is_zero now ≡ false) nows
    → pending db ≤ 128 * length nows
    → pending_units db ≤ 128 * length nows
    → (pending (rounds backend nows db) ≡ 0) × (pending_units (rounds backend nows db) ≡ 0)
unfolding rounds
rounds-drain backend [] db a late few few_units = (omega (arith, few), omega (arith, few_units))
rounds-drain backend (now ∷ nows) db a late few few_units =
    let (q₁, q₂, less, less_units) = process_once_drains backend now db a late.0 in
    rounds-drain backend nows (process_once backend now db).2 a late.1 (omega (arith, few, less))
      (omega (arith, few_units, less_units))
