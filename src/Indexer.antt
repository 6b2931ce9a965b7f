-- ===== src/Indexer.antt =====
-- internal/indexer/worker.go: the worker that turns queued memories and retrieval units into
-- embeddings. The provider of embeddings, with the JSON text of a vector, and sqlite-vec are the
-- parameter `Backend`; a tick of the clock is a call of process_once. The memories are in the tables
-- of internal/memory.
pub mod Drain
pub mod Secrets
pub mod Rounds
use crdt_agent_memory.Prelude.{
  ℕ, ◌+◌, ℤ, pos, is_zero, is_pos, lt_int, ◌-ℤ◌, String, Bool, not, ◌&&◌, Option, none, some, List,
  [], ◌∷◌, ◌++◌, map, take, select, sort_by, length, Error, Result, ok, err, ◌>>=◌, ◌==◌,
  if◌then◌else◌,
}
use crdt_agent_memory.Table.{find, upsert, insert, update, delete, affected}
use crdt_agent_memory.Table.Keyed.{by, by_pair}
use crdt_agent_memory.Sync.Types.{QueueRow}
use crdt_agent_memory.Memory.Tables.{
  MemoryRow, RetrievalUnit, UnitQueueRow, StoreDb, memory_key, unit_key,
}

-- a vector, as JSON, and its dimension
pub record Embedding : Type 0 where
  pub json : String
  pub dim : ℕ

pub record Backend : Type 0 where
  -- embedding.FromDocument and json.Marshal
  pub from_document : String → Result Embedding
  -- vec_version() and the look for the table of vectors, of memories and of units
  pub memory_vectors : Result Bool
  pub unit_vectors : Result Bool
  -- vec_f32(json), which refuses what is no vector
  pub vec_f32 : String → Result String

-- a row of memory_embeddings
pub record MemoryEmbedding : Type 0 where
  pub memory_space : String
  pub memory_id : String
  pub embedding : Embedding
  pub indexed_at_ms : ℤ

-- a row of retrieval_embeddings
pub record UnitEmbedding : Type 0 where
  pub unit_id : String
  pub memory_space : String
  pub embedding : Embedding
  pub indexed_at_ms : ℤ

-- a row of memory_embedding_vectors
pub record MemoryVector : Type 0 where
  pub memory_space : String
  pub memory_id : String
  pub vector : String

-- a row of retrieval_embedding_vectors
pub record UnitVector : Type 0 where
  pub memory_space : String
  pub unit_id : String
  pub vector : String

pub record IndexDb : Type 0 where
  pub store : StoreDb
  pub memory_embeddings : List MemoryEmbedding
  pub memory_vectors : List MemoryVector
  pub unit_embeddings : List UnitEmbedding
  pub unit_vectors : List UnitVector

abbrev pub index_queue : IndexDb → List QueueRow
index_queue db = db.store.index_queue

abbrev pub unit_queue : IndexDb → List UnitQueueRow
unit_queue db = db.store.unit_queue

-- processed_at_ms = 0
abbrev pub is_pending : QueueRow → Bool
is_pending r = is_zero r.processed_at_ms

abbrev pub is_pending_unit : UnitQueueRow → Bool
is_pending_unit r = is_zero r.processed_at_ms

-- ORDER BY enqueued_at_ms
abbrev pub older : QueueRow → QueueRow → Bool
older a b = lt_int a.enqueued_at_ms b.enqueued_at_ms

abbrev pub older_unit : UnitQueueRow → UnitQueueRow → Bool
older_unit a b = lt_int a.enqueued_at_ms b.enqueued_at_ms

unfoldable pub pending_items : ℕ → IndexDb → List QueueRow
pending_items limit db = take limit (sort_by older (select is_pending (index_queue db)))

unfoldable pub pending_retrieval_items : ℕ → IndexDb → List String
pending_retrieval_items limit db =
    map (λ r. r.unit_id) (take limit (sort_by older_unit (select is_pending_unit (unit_queue db))))

-- WHERE unit_id = ? AND state = 'active'
unfoldable pub fetch_indexable_unit : String → IndexDb → Option RetrievalUnit
fetch_indexable_unit unit_id db =
    find (λ u. (u.unit_id == unit_id) && (u.state == "active")) db.store.units

-- the clock is read for each statement; one reading is `now`
unfoldable pub finish_unit : ℤ → String → IndexDb → IndexDb
finish_unit now unit_id db = record db {
  store = record db.store {
    unit_queue =
        update (λ r. (r.unit_id == unit_id) && is_pending_unit r)
          (λ r. record r { processed_at_ms = now }) db.store.unit_queue;
  };
}

abbrev pub unit_of_embedding : UnitEmbedding → String
unit_of_embedding e = e.unit_id

-- INSERT INTO retrieval_embeddings ... ON CONFLICT(unit_id) DO UPDATE
unfoldable pub put_unit_embedding : ℤ → RetrievalUnit → Embedding → IndexDb → IndexDb
put_unit_embedding now u e db = record db {
  unit_embeddings =
      upsert (by unit_of_embedding u.unit_id)
        (λ r. record r { memory_space = u.memory_space; embedding = e; indexed_at_ms = now })
        (record {
          unit_id = u.unit_id;
          memory_space = u.memory_space;
          embedding = e;
          indexed_at_ms = now;
        })
        db.unit_embeddings;
}

unfoldable pub drop_unit_vectors : Bool → String → IndexDb → IndexDb
drop_unit_vectors enabled unit_id db =
    if enabled
    then record db { unit_vectors = delete (λ v. v.unit_id == unit_id) db.unit_vectors }
    else db

unfoldable pub put_unit_vector :
    Backend → Bool → RetrievalUnit → Embedding → IndexDb → Result IndexDb
put_unit_vector backend enabled u e db =
    if enabled
    then (do
      vector ← backend.vec_f32 e.json
      ok (record db {
        unit_vectors =
            insert (record { memory_space = u.memory_space; unit_id = u.unit_id; vector = vector })
              db.unit_vectors;
      }))
    else ok db

unfoldable pub upsert_retrieval_embedding :
    Backend → ℤ → Bool → RetrievalUnit → IndexDb → Result IndexDb
upsert_retrieval_embedding backend now enabled u db = do
  e ← backend.from_document u.body
  put_unit_vector backend enabled u e
      (drop_unit_vectors enabled u.unit_id (put_unit_embedding now u e db))

-- DELETE FROM retrieval_embeddings, and from the vectors
unfoldable pub drop_unit : Bool → String → IndexDb → IndexDb
drop_unit enabled unit_id db =
    drop_unit_vectors enabled unit_id
      (record db { unit_embeddings = delete (by unit_of_embedding unit_id) db.unit_embeddings })

-- the branches of processRetrievalItem on the unit
unfoldable pub index_unit :
    Backend → ℤ → Bool → String → Option RetrievalUnit → IndexDb → Result IndexDb
index_unit backend now enabled unit_id none db = ok (drop_unit enabled unit_id db)
index_unit backend now enabled unit_id (some u) db =
    if not (u.sensitivity == "secret")
    then upsert_retrieval_embedding backend now enabled u db
    else ok db

unfoldable pub process_retrieval_item : Backend → ℤ → String → IndexDb → Result IndexDb
process_retrieval_item backend now unit_id db = do
  enabled ← backend.unit_vectors
  d ← index_unit backend now enabled unit_id (fetch_indexable_unit unit_id db) db
  ok (finish_unit now unit_id d)

unfoldable pub fetch_body : String → String → IndexDb → Option MemoryRow
fetch_body memory_space memory_id db =
    if memory_space == "shared"
    then find (by memory_key memory_id) db.store.shared.nodes
    else if memory_space == "private"
    then find (by memory_key memory_id) db.store.private.nodes
    else none

abbrev pub queue_key : QueueRow → String
queue_key r = r.queue_id

unfoldable pub finish_queue_item : ℤ → String → IndexDb → IndexDb
finish_queue_item now queue_id db = record db {
  store = record db.store {
    index_queue =
        update (by queue_key queue_id) (λ r. record r { processed_at_ms = now })
          db.store.index_queue;
  };
}

abbrev space_of : MemoryEmbedding → String
space_of e = e.memory_space

abbrev memory_of : MemoryEmbedding → String
memory_of e = e.memory_id

unfoldable pub drop_memory_vectors : Bool → String → String → IndexDb → IndexDb
drop_memory_vectors enabled memory_space memory_id db =
    if enabled
    then record db {
      memory_vectors =
          delete (λ v. (v.memory_space == memory_space) && (v.memory_id == memory_id))
            db.memory_vectors;
    }
    else db

unfoldable pub put_memory_embedding : ℤ → String → String → Embedding → IndexDb → IndexDb
put_memory_embedding now memory_space memory_id e db = record db {
  memory_embeddings =
      upsert (by_pair space_of memory_of memory_space memory_id)
        (λ r. record r { embedding = e; indexed_at_ms = now })
        (record {
          memory_space = memory_space;
          memory_id = memory_id;
          embedding = e;
          indexed_at_ms = now;
        })
        db.memory_embeddings;
}

unfoldable pub put_memory_vector :
    Backend → Bool → String → String → Embedding → IndexDb → Result IndexDb
put_memory_vector backend enabled memory_space memory_id e db =
    if enabled
    then (do
      vector ← backend.vec_f32 e.json
      ok (record db {
        memory_vectors =
            insert (record { memory_space = memory_space; memory_id = memory_id; vector = vector })
              db.memory_vectors;
      }))
    else ok db

unfoldable pub upsert_embedding :
    Backend → ℤ → Bool → String → String → String → IndexDb → Result IndexDb
upsert_embedding backend now enabled memory_space memory_id body db = do
  e ← backend.from_document body
  put_memory_vector backend enabled memory_space memory_id e (
      drop_memory_vectors enabled memory_space memory_id
        (put_memory_embedding now memory_space memory_id e db))

unfoldable pub drop_memory : Bool → String → String → IndexDb → IndexDb
drop_memory enabled memory_space memory_id db =
    drop_memory_vectors enabled memory_space memory_id (record db {
      memory_embeddings =
          delete (by_pair space_of memory_of memory_space memory_id) db.memory_embeddings;
    })

-- the branches of processItem on the memory
unfoldable pub index_memory :
    Backend → ℤ → Bool → QueueRow → Option MemoryRow → IndexDb → Result IndexDb
index_memory backend now enabled item none db =
    ok (drop_memory enabled item.memory_space item.memory_id db)
index_memory backend now enabled item (some m) db =
    upsert_embedding backend now enabled item.memory_space item.memory_id m.body db

unfoldable pub process_item : Backend → ℤ → QueueRow → IndexDb → Result IndexDb
process_item backend now item db = do
  enabled ← backend.memory_vectors
  d ← index_memory backend now enabled item (fetch_body item.memory_space item.memory_id db) db
  ok (finish_queue_item now item.queue_id d)

-- a transaction that is rolled back on an error, which is kept
unfoldable pub settle :
    {A : Type 0} → A → Result IndexDb → List (A × Error) × IndexDb → List (A × Error) × IndexDb
settle item (err e) (errs, db) = (errs ++ (item, e) ∷ [], db)
settle item (ok new) (errs, db) = (errs, new)

-- the loop over the items: an item that fails is left in the queue
unfoldable pub process_all :
    {A : Type 0}
    → (A → IndexDb → Result IndexDb)
    → List A
    → List (A × Error) × IndexDb
    → List (A × Error) × IndexDb
process_all step [] (errs, db) = (errs, db)
process_all step (x ∷ xs) (errs, db) = process_all step xs (settle x (step x db) (errs, db))

unfoldable pub process_retrieval_items : Backend → ℤ → IndexDb → List (String × Error) × IndexDb
process_retrieval_items backend now db =
    process_all (process_retrieval_item backend now) (pending_retrieval_items 128 db) ([], db)

-- the second half of ProcessOnce
unfoldable pub process_items : Backend → ℤ → IndexDb → List (QueueRow × Error) × IndexDb
process_items backend now db =
    process_all (process_item backend now) (pending_items 128 db) ([], db)

abbrev pub no_errors : {A : Type 0} → List A → Bool
no_errors [] = Bool.true
no_errors (x ∷ xs) = Bool.false

-- ProcessOnce: an error among the retrieval units keeps the memories for the next call
unfoldable pub process_once :
    Backend → ℤ → IndexDb → List (String × Error) × List (QueueRow × Error) × IndexDb
process_once backend now db =
    let (unit_errors, d) = process_retrieval_items backend now db in
    let (errors, new) = process_items backend now d in
    if no_errors unit_errors then (unit_errors, errors, new) else (unit_errors, [], d)

pub record Diagnostics : Type 0 where
  pub processed_count : ℕ
  pub pending_count : ℕ
  pub embedding_count : ℕ
  pub oldest_pending_enqueued_at_ms : ℤ
  pub oldest_pending_age_ms : ℤ

-- MIN(enqueued_at_ms), NULL on no rows
abbrev oldest : List QueueRow → Option ℤ
oldest [] = none
oldest (r ∷ rs) = some r.enqueued_at_ms

unfoldable pub diagnostics : ℤ → IndexDb → Diagnostics
diagnostics now db =
    let first = oldest (sort_by older (select is_pending (index_queue db))) in
    record {
      processed_count = affected (λ r. is_pos r.processed_at_ms) (index_queue db);
      pending_count = affected is_pending (index_queue db);
      embedding_count = length db.memory_embeddings;
      oldest_pending_enqueued_at_ms = elim first [ none ↦ pos 0 | some t ↦ t ];
      oldest_pending_age_ms = elim first [ none ↦ pos 0 | some t ↦ now -ℤ t ];
    }
