-- ===== src/Memory/Store/View.antt =====
-- What a caller can see of the memories: by memory space and identifier, the row that is kept. Every
-- call on the tables is a function on this view, with its refusals.
use mathlib.Core.Path.{fun_ext}
use crdt_agent_memory.Prelude.{
  ℕ, ◌+◌, ◌*◌, String, ◌≡◌, ◌∙◌, refl, true, false, Bool, not, ◌&&◌, Option, some, List, [], ◌∷◌,
  arith, inl, inr, Bool-cases, Option-cases, is_some, length, every, every-congr, ok, is_ok,
  is_ok->>=, ◌==◌, eq_iff, if◌then◌else◌,
}
use crdt_agent_memory.Table.{find, insert}
use crdt_agent_memory.Table.Laws.{find-append, find-append_some}
use crdt_agent_memory.Table.Keyed.{by}
use crdt_agent_memory.Sync.Types.{Env}
use crdt_agent_memory.Memory.Requests.{MemoryRelationInput, StoreRequest, is_space}
use crdt_agent_memory.Memory.Tables.{MemoryRow, Space, StoreDb, memory_key, memory_exists, tables}
use crdt_agent_memory.Memory.Store.{
  MemoryService, node_row, initial_signal, insert_node, insert_signal, insert_artifact_spans,
  insert_relations, store_space, store_tx,
}
use crdt_agent_memory.Memory.Store.Sound.{spans-nodes, store_space_lem, store_tx-tables}

-- a new row, seen by its identifier
pub find-insert :
    (nodes : List MemoryRow) (r : MemoryRow) (id : String)
    → memory_exists r.memory_id nodes ≡ false
    → find (by memory_key id) (insert r nodes)
      ≡ (if r.memory_id == id then some r else find (by memory_key id) nodes)
unfolding find
find-insert nodes r id fresh = elim (Option-cases (find (by memory_key id) nodes)) [
  | inl e ↦ rw (find-append (by memory_key id) nodes (r ∷ []) e) (rw e refl)
  | inr (n, e) ↦ elim (Bool-cases (r.memory_id == id)) [
    | inl same ↦
        let absent : memory_exists id nodes ≡ false = rw (← (eq_iff r.memory_id id).0 same) fresh in
        let gone : true ≡ false = rw e at absent in cc
    | inr apart ↦ rw (find-append_some (by memory_key id) nodes (r ∷ []) n e) (rw (apart, e) refl)
  ]
]

-- what insertRelations asks of a relation
abbrev pub allowed : String → (String → Bool) → MemoryRelationInput → Bool
allowed memory_id has rel = not (rel.to_memory_id == memory_id) && has rel.to_memory_id

relations-allowed :
    (env : Env) (req : StoreRequest) (i : ℕ) (rels : List MemoryRelationInput) (t : Space)
    → is_ok (insert_relations env req i rels t)
      ≡ every (allowed req.memory_id (λ id. memory_exists id t.nodes)) rels
unfolding insert_relations every
relations-allowed env req i [] t = refl
relations-allowed env req i (rel ∷ rels) t = elim (Bool-cases (rel.to_memory_id == req.memory_id)) [
  | inl e ↦ rw e refl
  | inr e ↦ elim (Bool-cases (memory_exists rel.to_memory_id t.nodes)) [
    | inl f ↦ rw (e, f) (relations-allowed env req (i + 1) rels _)
    | inr f ↦ rw (e, f) refl
  ]
]

-- A relation to another memory is allowed before the node is inserted where it is allowed after.
allowed-insert :
    (nodes : List MemoryRow) (r : MemoryRow) (rel : MemoryRelationInput)
    → memory_exists r.memory_id nodes ≡ false
    → allowed r.memory_id (λ id. memory_exists id (insert r nodes)) rel
      ≡ allowed r.memory_id (λ id. memory_exists id nodes) rel
allowed-insert nodes r rel fresh = elim (Bool-cases (rel.to_memory_id == r.memory_id)) [
  | inl e ↦ rw e refl
  | inr e ↦
      let apart : (r.memory_id == rel.to_memory_id) ≡ false =
        ground (arith, eq_iff r.memory_id rel.to_memory_id, eq_iff rel.to_memory_id r.memory_id) in
      rw (find-insert nodes r rel.to_memory_id fresh) (rw apart refl)
]

-- storeTx succeeds on the tables of a space where the identifier is free and the relations lead to
-- other memories that are there.
pub store_space-accepts :
    (env : Env) (req : StoreRequest) (signature : String) (t : Space)
    → is_ok (store_space env req signature t)
      ≡ not (memory_exists req.memory_id t.nodes)
        && every (allowed req.memory_id (λ id. memory_exists id t.nodes)) req.relations
unfolding store_space node_row
store_space-accepts env req signature t = elim (Bool-cases (memory_exists req.memory_id t.nodes)) [
  | inl e ↦ rw e refl
  | inr e ↦
      let written =
        spans-nodes env req 5 req.artifact_spans
          (insert_signal (initial_signal env req) (insert_node req signature t)) in
      let asked = relations-allowed env req (5 + 2 * length req.artifact_spans) req.relations (
        insert_artifact_spans env req 5 req.artifact_spans
          (insert_signal (initial_signal env req) (insert_node req signature t))) in
      let same =
        every-congr
          (allowed req.memory_id (λ id. memory_exists id (insert_node req signature t).nodes))
          (allowed req.memory_id (λ id. memory_exists id t.nodes)) req.relations
          (λ rel. allowed-insert t.nodes (node_row req signature) rel e) in
      rw e (asked ∙ rw written same)
]

-- the memories: whether private, and by identifier
abbrev pub Memories : Type 0
Memories = Bool → String → Option MemoryRow

abbrev pub view : StoreDb → Memories
view db private id = find (by memory_key id) (if private then db.private else db.shared).nodes

abbrev pub same_space : Bool → Bool → Bool
same_space true b = b
same_space false b = not b

-- one memory changed
unfoldable pub put : Bool → String → MemoryRow → Memories → Memories
put private id r f c j = if same_space private c && id == j then some r else f c j

abbrev pub is_private : String → Bool
is_private space = space == "private"

-- whether a request, once normal, can be stored
unfoldable pub accepts : StoreRequest → Memories → Bool
accepts req f =
    is_space req.visibility
    && (not (is_some (f (is_private req.visibility) req.memory_id))
        && every (allowed req.memory_id (λ id. is_some (f (is_private req.visibility) id)))
            req.relations)

pub store_tx-accepts :
    (svc : MemoryService) (env : Env) (req : StoreRequest) (signature : String) (db : StoreDb)
    → is_ok (store_tx svc env req signature db) ≡ accepts req (view db)
unfolding accepts store_tx
store_tx-accepts svc env req signature db = elim (Bool-cases (is_space req.visibility)) [
  | inl e ↦ rw e (
      is_ok->>= (store_space env req signature (tables req.visibility db)) _
      ∙ store_space-accepts env req signature (tables req.visibility db))
  | inr e ↦ rw e refl
]

-- A row added to the tables of one space, seen from anywhere.
insert-view :
    (b c : Bool) (db new : StoreDb) (u : Space) (row : MemoryRow) (id : String)
    → new.shared ≡ (if b then db.shared else u)
    → new.private ≡ (if b then u else db.private)
    → memory_exists row.memory_id (if b then db.private else db.shared).nodes ≡ false
    → u.nodes ≡ insert row (if b then db.private else db.shared).nodes
    → view new c id ≡ put b row.memory_id row (view db) c id
unfolding put
insert-view true true db new u row id e₁ e₂ fresh nodes =
    rw (e₂, nodes) (find-insert db.private.nodes row id fresh)
insert-view true false db new u row id e₁ e₂ fresh nodes = rw e₁ refl
insert-view false true db new u row id e₁ e₂ fresh nodes = rw e₂ refl
insert-view false false db new u row id e₁ e₂ fresh nodes =
    rw (e₁, nodes) (find-insert db.shared.nodes row id fresh)

-- storeTx, where it succeeds, adds the row of the request to the memories and changes no other.
pub store_tx-view :
    (svc : MemoryService) (env : Env) (req : StoreRequest) (signature : String) (db new : StoreDb)
    → store_tx svc env req signature db ≡ ok new
    → view new ≡ put (is_private req.visibility) req.memory_id (node_row req signature) (view db)
unfolding node_row
store_tx-view svc env req signature db new done =
    let (u, first, shared, private) = store_tx-tables svc env req signature db new done in
    let (fresh, nodes, sound) =
      store_space_lem env req signature (tables req.visibility db) u first in
    fun_ext λ c. fun_ext λ id.
      insert-view (is_private req.visibility) c db new u (node_row req signature) id shared private
        fresh nodes
