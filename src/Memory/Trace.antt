-- ===== src/Memory/Trace.antt =====
-- walkTraceDecision, loadTraceEdges, loadTraceDecisionNode and isContradictionRelation of
-- internal/memory/service.go. An edge keeps all its columns where the source's traceEdge keeps the
-- two that are read; the set of visited memories is a list of its keys.
pub mod Free
pub mod Paths
use crdt_agent_memory.Prelude.{
  ℕ, zero, suc, ◌+◌, ◌-◌, ℤ, pos, negsuc, lt_int, is_zero, String, Bool, not, ◌&&◌, ◌||◌, Option,
  none, some, List, [], ◌∷◌, any, select, sort_by, ◌==◌, if◌then◌else◌,
}
use crdt_agent_memory.Text.{trim, one_of, lt_text}
use crdt_agent_memory.Table.{find, insert}
use crdt_agent_memory.Table.Keyed.{by}
use crdt_agent_memory.Scrubber.Tables.{Suspension}

-- TraceDecisionNode, which is also a row of memory_nodes or private_memory_nodes as it is read here
pub record TraceDecisionNode : Type 0 where
  pub memory_space : String
  pub memory_id : String
  pub namespace : String
  pub memory_type : String
  pub subject : String
  pub body : String
  pub lifecycle_state : String
  pub source_uri : String
  pub source_hash : String
  pub origin_peer_id : String
  pub authored_at_ms : ℤ

pub record TraceDecisionHop : Type 0 where
  pub relation_type : String
  pub depth : ℕ
  pub memory : TraceDecisionNode

-- a row of memory_edges or private_memory_edges
pub record EdgeRow : Type 0 where
  pub edge_id : String
  pub from_memory_id : String
  pub to_memory_id : String
  pub relation_type : String
  pub authored_at_ms : ℤ

pub record GraphDb : Type 0 where
  pub memory_nodes : List TraceDecisionNode
  pub private_memory_nodes : List TraceDecisionNode
  pub memory_edges : List EdgeRow
  pub private_memory_edges : List EdgeRow
  pub suspensions : List Suspension

-- what walkTraceDecision keeps while it goes over one depth
pub record Walk : Type 0 where
  pub supports : List TraceDecisionHop
  pub contradictions : List TraceDecisionHop
  pub visited : List String
  pub next_frontier : List String

abbrev pub node_id : TraceDecisionNode → String
node_id n = n.memory_id

-- the table of nodes of a memory space
abbrev pub nodes_of : String → GraphDb → List TraceDecisionNode
nodes_of space db = if space == "private" then db.private_memory_nodes else db.memory_nodes

-- loadTraceDecisionNode; `none` is ErrMemoryNotFound
unfoldable pub load_trace_decision_node : String → String → GraphDb → Option TraceDecisionNode
load_trace_decision_node space memory_id db =
    elim (find (by node_id memory_id) (nodes_of space db)) [
      | none ↦ none
      | some n ↦ some (record n { memory_space = space })
    ]

-- an unresolved suspension of the edge
unfoldable pub is_suspended : String → List Suspension → Bool
is_suspended edge_id t =
    any
      (λ s.
        (s.entity_type == "memory_edge") && (s.entity_id == edge_id) && is_zero s.resolved_at_ms)
      t

-- ORDER BY authored_at_ms, edge_id
abbrev pub edge_before : EdgeRow → EdgeRow → Bool
edge_before a b =
    lt_int a.authored_at_ms b.authored_at_ms
    || (not (lt_int b.authored_at_ms a.authored_at_ms) && lt_text a.edge_id b.edge_id)

-- the edges of a memory space that a trace may follow
unfoldable pub followed : String → GraphDb → List EdgeRow
followed space db =
    if space == "private"
    then db.private_memory_edges
    else select (λ e. not (is_suspended e.edge_id db.suspensions)) db.memory_edges

-- WHERE from_memory_id IN (...)
unfoldable pub load_trace_edges : String → List String → GraphDb → List EdgeRow
load_trace_edges space from_memory_ids db =
    sort_by edge_before (select (λ e. one_of e.from_memory_id from_memory_ids) (followed space db))

unfoldable pub is_contradiction_relation : String → Bool
is_contradiction_relation relation_type =
    one_of (trim relation_type) ("contradicts" ∷ "contradiction" ∷ "denies" ∷ [])

-- the hop goes to the contradictions or to the supports
unfoldable pub add_hop : TraceDecisionHop → Walk → Walk
add_hop hop w =
    if is_contradiction_relation hop.relation_type
    then record w { contradictions = insert hop w.contradictions }
    else record w { supports = insert hop w.supports }

-- a memory that is new goes into the next frontier
unfoldable pub add_visited : String → Walk → Walk
add_visited memory_id w = if one_of memory_id w.visited then w else record w {
  visited = memory_id ∷ w.visited;
  next_frontier = insert memory_id w.next_frontier;
}

unfoldable pub follow_edge : String → GraphDb → ℕ → EdgeRow → Walk → Walk
follow_edge space db depth e w = elim (load_trace_decision_node space e.to_memory_id db) [
  | none ↦ w
  | some node ↦
      add_visited node.memory_id
        (add_hop (record { relation_type = e.relation_type; depth = depth; memory = node }) w)
]

unfoldable pub follow_edges : String → GraphDb → ℕ → List EdgeRow → Walk → Walk
follow_edges space db depth [] w = w
follow_edges space db depth (e ∷ es) w =
    follow_edges space db depth es (follow_edge space db depth e w)

-- the loop over the depths: `left` rounds may follow; a round that has no frontier ends it
unfoldable pub walk_from : String → GraphDb → ℕ → ℕ → List String → Walk → Walk
walk_from space db zero depth frontier w = w
walk_from space db (suc left) depth [] w = w
walk_from space db (suc left) depth (m ∷ ms) w =
    let w' =
      follow_edges space db depth (load_trace_edges space (m ∷ ms) db)
        (record w { next_frontier = [] }) in
    walk_from space db left (depth + 1) w'.next_frontier w'

-- if req.Depth <= 0 { req.Depth = 1 }
abbrev pub depth_of : ℤ → ℕ
depth_of (pos zero) = 1
depth_of (pos (suc n)) = suc n
depth_of (negsuc n) = 1

unfoldable pub walk_trace_decision : String → String → ℤ → GraphDb → Walk
walk_trace_decision space memory_id depth db =
    walk_from space db (depth_of depth) 1 (memory_id ∷ [])
      (record { supports = []; contradictions = []; visited = memory_id ∷ []; next_frontier = [] })
