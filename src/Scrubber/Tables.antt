-- ===== src/Scrubber/Tables.antt =====
-- The tables of internal/scrubber/service.go.
use crdt_agent_memory.Prelude.{ℤ, String, List, Bool, any, ◌==◌}
use crdt_agent_memory.Policy.{PeerPolicy}
use crdt_agent_memory.Sync.Types.{NodeRow, QuarantineRow}

-- a row of memory_nodes, with its key
pub record MemoryNode : Type 0 where
  pub memory_id : String
  pub row : NodeRow

-- a row of memory_edges, as far as it is read here
pub record MemoryEdge : Type 0 where
  pub edge_id : String
  pub from_memory_id : String
  pub to_memory_id : String

-- a row of memory_signals, as far as it is read here
pub record MemorySignal : Type 0 where
  pub signal_id : String
  pub memory_id : String

-- a row of local_graph_suspensions
pub record Suspension : Type 0 where
  pub entity_type : String
  pub entity_id : String
  pub memory_space : String
  pub memory_id : String
  pub reason : String
  pub detail : String
  pub first_seen_at_ms : ℤ
  pub last_seen_at_ms : ℤ
  pub resolved_at_ms : ℤ

pub record RepairDb (F : Type 0) : Type 0 where
  pub nodes : List MemoryNode
  pub edges : List MemoryEdge
  pub signals : List MemorySignal
  pub suspensions : List Suspension
  pub quarantine : List (QuarantineRow F)
  pub policies : List PeerPolicy

-- LEFT JOIN memory_nodes n ON n.memory_id = ...: whether there is such a node
abbrev pub has_node : List MemoryNode → String → Bool
has_node nodes memory_id = any (λ n. n.memory_id == memory_id) nodes
