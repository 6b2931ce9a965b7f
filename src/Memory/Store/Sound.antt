-- ===== src/Memory/Store/Sound.antt =====
-- What storeTx of internal/memory/service.go does to the tables of a memory space.
use mathlib.Core.Path.{subst}
use crdt_agent_memory.Prelude.{
  ◌∙◌, sym, ap, >>=-eq-ok, Bool-cases, if◌then◌else◌, ℕ, ◌+◌, ◌*◌, String, ◌≡◌, refl, true, false,
  not, List, [], ◌∷◌, arith, inl, inr, Bool-cases, Option-cases, length, All, All-append,
  All-map_imp, ok, refuse-passed, ◌==◌, eq_refl, if◌then◌else◌,
}
use crdt_agent_memory.Table.{find, insert, update}
use crdt_agent_memory.Table.Laws.{find-append, find-append_some, find-update}
use crdt_agent_memory.Table.Keyed.{by}
use crdt_agent_memory.Sync.Types.{Env}
use crdt_agent_memory.Memory.Requests.{
  ArtifactSpanInput, MemoryRelationInput, StoreRequest, is_space,
}
use crdt_agent_memory.Memory.Tables.{
  MemoryRow, SignalRow, MemoryEdge, Space, StoreDb, tables, on_space, memory_key, memory_exists,
}
use crdt_agent_memory.Memory.Store.{
  node_row, initial_signal, insert_node, insert_signal, insert_artifact_spans, span_row, edge_row,
  insert_edge, insert_relations, store_space, set_superseded, mark_superseded, MemoryService,
  store_tx, store_rest, enqueue_memory, upsert_retrieval_unit,
}

-- the memory is in the table
abbrev pub Has : List MemoryRow → String → Type 0
Has nodes memory_id = memory_exists memory_id nodes ≡ true

-- every signal, every edge at both ends and every span names a memory of the space
pub record IsSound (t : Space) : Type 0 where
  pub signals : All (λ s. Has t.nodes s.memory_id) t.signals
  pub edges : All (λ e. Has t.nodes e.from_memory_id × Has t.nodes e.to_memory_id) t.edges
  pub spans : All (λ s. Has t.nodes s.owner_id) t.spans

pub Has-insert :
    (nodes : List MemoryRow) (r : MemoryRow) (id : String) → Has nodes id → Has (insert r nodes) id
Has-insert nodes r id h = elim (Option-cases (find (by memory_key id) nodes)) [
  | inl e ↦ let gone : false ≡ true = rw e at h in cc
  | inr (n, e) ↦ rw (find-append_some (by memory_key id) nodes (r ∷ []) n e) refl
]

pub Has-insert_self : (nodes : List MemoryRow) (r : MemoryRow) → Has (insert r nodes) r.memory_id
unfolding find
Has-insert_self nodes r = elim (Option-cases (find (by memory_key r.memory_id) nodes)) [
  | inl e ↦
      rw (find-append (by memory_key r.memory_id) nodes (r ∷ []) e) (rw (eq_refl r.memory_id) refl)
  | inr (n, e) ↦ Has-insert nodes r r.memory_id (rw e refl)
]

pub Has-superseded :
    (nodes : List MemoryRow) (old id : String)
    → Has nodes id
    → Has (update (by memory_key old) set_superseded nodes) id
Has-superseded nodes old id h =
    let at = find-update (by memory_key old) (by memory_key id) set_superseded nodes (λ r. refl) in
    elim (Option-cases (find (by memory_key id) nodes)) [
      | inl e ↦ let gone : false ≡ true = rw e at h in cc
      | inr (n, e) ↦ rw at (rw e refl)
    ]

-- other nodes, among which all of the old ones still are
grown :
    (t : Space) (nodes : List MemoryRow)
    → ((id : String) → Has t.nodes id → Has nodes id)
    → IsSound t
    → IsSound (record t { nodes = nodes })
grown t nodes more h = record {
  signals =
      All-map_imp (λ s. Has t.nodes s.memory_id) (λ s. Has nodes s.memory_id) t.signals
        (λ s. more s.memory_id) h.signals;
  edges =
      All-map_imp (λ e. Has t.nodes e.from_memory_id × Has t.nodes e.to_memory_id)
        (λ e. Has nodes e.from_memory_id × Has nodes e.to_memory_id) t.edges
        (λ e ends. (more e.from_memory_id ends.0, more e.to_memory_id ends.1)) h.edges;
  spans =
      All-map_imp (λ s. Has t.nodes s.owner_id) (λ s. Has nodes s.owner_id) t.spans
        (λ s. more s.owner_id) h.spans;
}

pub insert_node-IsSound :
    (req : StoreRequest) (signature : String) (t : Space)
    → IsSound t
    → IsSound (insert_node req signature t)
insert_node-IsSound req signature t =
    grown t (insert (node_row req signature) t.nodes) (Has-insert t.nodes (node_row req signature))

pub insert_signal-IsSound :
    (s : SignalRow) (t : Space) → Has t.nodes s.memory_id → IsSound t → IsSound (insert_signal s t)
insert_signal-IsSound s t there h = record {
  signals = All-append (λ x. Has t.nodes x.memory_id) t.signals (s ∷ []) h.signals (there, tt);
  edges = h.edges;
  spans = h.spans;
}

pub insert_edge-IsSound :
    (e : MemoryEdge) (t : Space)
    → Has t.nodes e.from_memory_id
    → Has t.nodes e.to_memory_id
    → IsSound t
    → IsSound (insert_edge e t)
insert_edge-IsSound e t from to h = record {
  signals = h.signals;
  edges =
      All-append (λ x. Has t.nodes x.from_memory_id × Has t.nodes x.to_memory_id) t.edges (e ∷ [])
        h.edges ((from, to), tt);
  spans = h.spans;
}

pub spans-nodes :
    (env : Env) (req : StoreRequest) (i : ℕ) (spans : List ArtifactSpanInput) (t : Space)
    → (insert_artifact_spans env req i spans t).nodes ≡ t.nodes
unfolding insert_artifact_spans
spans-nodes env req i [] t = refl
spans-nodes env req i (s ∷ spans) t = spans-nodes env req (i + 2) spans _

spans-IsSound :
    (env : Env) (req : StoreRequest) (i : ℕ) (spans : List ArtifactSpanInput) (t : Space)
    → Has t.nodes req.memory_id
    → IsSound t
    → IsSound (insert_artifact_spans env req i spans t)
unfolding insert_artifact_spans span_row
spans-IsSound env req i [] t there h = h
spans-IsSound env req i (s ∷ spans) t there h =
    spans-IsSound env req (i + 2) spans _ there (record {
      signals = h.signals;
      edges = h.edges;
      spans = All-append (λ x. Has t.nodes x.owner_id) t.spans (_ ∷ []) h.spans (there, tt);
    })

-- What a loop of insertRelations that succeeds keeps: the nodes, and soundness.
pub relations-IsSound :
    (env : Env) (req : StoreRequest) (i : ℕ) (rels : List MemoryRelationInput) (t u : Space)
    → insert_relations env req i rels t ≡ ok u
    → Has t.nodes req.memory_id
    → (u.nodes ≡ t.nodes) × (IsSound t → IsSound u)
unfolding insert_relations edge_row
relations-IsSound env req i [] t u done there =
    let same : t ≡ u = cc in (rw same refl, λ h. subst IsSound same h)
relations-IsSound env req i (rel ∷ rels) t u done there =
    let (apart, next) = refuse-passed (rel.to_memory_id == req.memory_id) _ _ u done in
    let (found, last) = refuse-passed (not (memory_exists rel.to_memory_id t.nodes)) _ _ u next in
    let edge = edge_row req (env.uuid i) rel.to_memory_id rel.relation_type rel.weight in
    let (same, sound) = relations-IsSound env req (i + 1) rels (insert_edge edge t) u last there in
    (same, λ h. sound (insert_edge-IsSound edge t there (ground arith) h))

-- the tables before the relations are inserted
abbrev before_relations : Env → StoreRequest → String → Space → Space
before_relations env req signature t =
    insert_artifact_spans env req 5 req.artifact_spans
      (insert_signal (initial_signal env req) (insert_node req signature t))

-- storeTx on the tables of the space: it needs a free identifier, adds one node and no other, and
-- leaves no name without its memory.
pub store_space_lem :
    (env : Env) (req : StoreRequest) (signature : String) (t u : Space)
    → store_space env req signature t ≡ ok u
    → (memory_exists req.memory_id t.nodes ≡ false)
      × (u.nodes ≡ insert (node_row req signature) t.nodes)
      × (IsSound t → IsSound u)
unfolding store_space initial_signal node_row
store_space_lem env req signature t u done =
    let (fresh, rest) = refuse-passed (memory_exists req.memory_id t.nodes) _ _ u done in
    let written =
      spans-nodes env req 5 req.artifact_spans
        (insert_signal (initial_signal env req) (insert_node req signature t)) in
    let there = Has-insert_self t.nodes (node_row req signature) in
    let (same, sound) =
      relations-IsSound env req (5 + 2 * length req.artifact_spans) req.relations
        (before_relations env req signature t) u rest (rw written there) in
    (
      fresh,
      same ∙ written,
      λ h. sound (
          spans-IsSound env req 5 req.artifact_spans _ there (
            insert_signal-IsSound (initial_signal env req) (insert_node req signature t) there
              (insert_node-IsSound req signature t h))),
    )

-- The old memory is marked, and the edge that says so joins two memories.
pub mark_superseded-IsSound :
    (env : Env) (req : StoreRequest) (old : String) (t : Space)
    → Has t.nodes old
    → Has t.nodes req.memory_id
    → IsSound t
    → IsSound (mark_superseded env req old t)
unfolding mark_superseded edge_row
mark_superseded-IsSound env req old t from to h =
    let more = Has-superseded t.nodes old in
    insert_edge-IsSound _ _ (more req.memory_id to) (more old from)
      (grown t (update (by memory_key old) set_superseded t.nodes) more h)

-- what storeTx writes to the other tables leaves those of the spaces
rest-tables :
    (svc : MemoryService) (env : Env) (req : StoreRequest) (u : Space) (db : StoreDb)
    → ((store_rest svc env req (on_space req.visibility (λ old. u) db)).shared
        ≡ (if req.visibility == "private" then db.shared else u))
      × ((store_rest svc env req (on_space req.visibility (λ old. u) db)).private
          ≡ (if req.visibility == "private" then u else db.private))
unfolding store_rest enqueue_memory upsert_retrieval_unit
rest-tables svc env req u db = elim (Bool-cases (req.visibility == "private")) [
  | inl e ↦ rw e (refl, refl)
  | inr e ↦ rw e (refl, refl)
]

-- storeTx as a whole writes to the tables of one space, and leaves those of the other.
pub store_tx-tables :
    (svc : MemoryService) (env : Env) (req : StoreRequest) (signature : String) (db new : StoreDb)
    → store_tx svc env req signature db ≡ ok new
    → (u : Space) × (store_space env req signature (tables req.visibility db) ≡ ok u)
      × (new.shared ≡ (if req.visibility == "private" then db.shared else u))
      × (new.private ≡ (if req.visibility == "private" then u else db.private))
unfolding store_tx
store_tx-tables svc env req signature db new done =
    let (spaced, rest) = refuse-passed (not (is_space req.visibility)) _ _ new done in
    let (u, first, last) =
      >>=-eq-ok (store_space env req signature (tables req.visibility db)) _ rest in
    let same : store_rest svc env req (on_space req.visibility (λ old. u) db) ≡ new = cc in
    let (shared, private) = rest-tables svc env req u db in
    (u, first, sym (ap (λ d. d.shared) same) ∙ shared, sym (ap (λ d. d.private) same) ∙ private)
